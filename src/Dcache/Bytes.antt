-- ===== src/Dcache/Bytes.antt =====
-- The bytes of a line of the data cache against the flat memory: loads, stores, and whole lines.
use rv32im_simulator.Prelude.{
  ℕ, zero, suc, ◌+◌, ◌*◌, ◌%◌, ◌^◌, ◌>>>◌, ◌<<<◌, ◌<◌, ◌≤◌, ◌≡◌, ◌≢◌, ◌⊎◌, inl, inr, refl, sym, ap,
  ◌∙◌, Bool, true, false, ◌&&◌, ◌==◌, ==_iff, ltb, ltb→lt, Bool-cases, if◌then◌else◌, bit_or, List,
  length, length-set, get_or, set, get_or-set_self, get_or-set_ne, u32, arith,
}
use rv32im_simulator.Memory.{
  Memory, mem_size, read_data, write_data, read_data-write_here, read_data-write_other,
}
use rv32im_simulator.Dmem.{gather, extend_sign, load_n_bytes}
use rv32im_simulator.Dcache.{DataLine, set_index, line_tag, line_offset, put_bytes}
use rv32im_simulator.Dcache.Access.{line_value}
use rv32im_simulator.Dcache.Flat.{line_base}

-- The flat memory after a store of the low `n` bytes of a value, `rounds` of them from the `i`-th on.
pub store_n_bytes : ℕ → ℕ → ℕ → ℕ → ℕ → Memory → Memory
store_n_bytes addr value n zero i mem = mem
store_n_bytes addr value n (suc rounds) i mem =
    store_n_bytes addr value n rounds (suc i)
      (if ltb i n then write_data (u32 (addr + i)) ((value >>> (i * 8)) % 2 ^ 8) mem else mem)

-- The bytes are those of the line of an address.
abbrev pub Agree : List ℕ → Memory → ℕ → Type 0
Agree bytes mem addr =
    (b : ℕ)
    → b < 16
    → get_or bytes b 0 ≡ read_data mem (line_base (line_tag addr) (set_index addr) + b)

gather-same :
    (f g : ℕ → ℕ) (n rounds i result : ℕ)
    → ((j : ℕ) → j < n → f j ≡ g j)
    → gather f n rounds i result ≡ gather g n rounds i result
unfolding gather
gather-same f g n zero i result e = refl
gather-same f g n (suc rounds) i result e = elim (Bool-cases (ltb i n)) [
  | inl l ↦
      let same : f i ≡ g i = e i (ground arith) in
      rw (l, same) (gather-same f g n rounds (suc i) (bit_or result (g i <<< i * 8)) e)
  | inr l ↦ rw l (gather-same f g n rounds (suc i) result e)
]

-- A load from the bytes of a line is the load from memory.
pub line_value-Agree :
    (mem : Memory) (addr n : ℕ) (is_signed : Bool) (line : DataLine)
    → addr < 2 ^ 32
    → line_offset addr + n ≤ 16
    → Agree line.bytes mem addr
    → line_value addr n is_signed line ≡ load_n_bytes mem addr n is_signed
unfolding line_value load_n_bytes
line_value-Agree mem addr n is_signed line small inside agree = ap (extend_sign n is_signed) (
    gather-same (λ i. get_or line.bytes (line_offset addr + i) 0)
      (λ i. read_data mem (u32 (addr + i))) n 4 0 0
      (λ j l.
        let at : line_base (line_tag addr) (set_index addr) + (line_offset addr + j)
            ≡ u32 (addr + j) =
          omega arith in
        agree (line_offset addr + j) (omega arith) ∙ ap (read_data mem) at))

-- One byte of a store.
put_byte :
    (addr value n i : ℕ) (bytes : List ℕ) (mem : Memory)
    → addr < 2 ^ 32
    → line_offset addr + n ≤ 16
    → length bytes ≡ 16
    → Agree bytes mem addr
    → Agree
        (if ltb i n && ltb (u32 (addr + i)) mem_size
          then set bytes (line_offset addr + i) ((value >>> (i * 8)) % 2 ^ 8)
          else bytes)
        (if ltb i n then write_data (u32 (addr + i)) ((value >>> (i * 8)) % 2 ^ 8) mem else mem)
        addr
put_byte addr value n i bytes mem small inside l agree b lb =
    let base = line_base (line_tag addr) (set_index addr) in
    let byte = (value >>> (i * 8)) % 2 ^ 8 in
    elim (Bool-cases (ltb i n)) [
      | inr past ↦ rw past (agree b lb)
      | inl before ↦ elim (Bool-cases (ltb (u32 (addr + i)) mem_size)) [
        | inr out ↦
            rw (before, out)
              (agree b lb
                ∙ sym (read_data-write_other mem (u32 (addr + i)) byte (base + b) (inr out)))
        | inl fits ↦ elim (Bool-cases (b == line_offset addr + i)) [
          | inl e ↦
              let same = (==_iff b (line_offset addr + i)).0 e in
              let at : base + b ≡ u32 (addr + i) = omega (arith, ltb→lt i n before) in
              rw (before, fits)
                (ap (λ j. get_or (set bytes (line_offset addr + i) byte) j 0) same
                  ∙ get_or-set_self bytes (line_offset addr + i) byte 0
                      (omega (arith, ltb→lt i n before))
                  ∙ sym (read_data-write_here mem (u32 (addr + i)) byte fits)
                  ∙ ap (read_data (write_data (u32 (addr + i)) byte mem)) (sym at))
          | inr e ↦
              let apart : line_offset addr + i ≢ b = ground arith in
              let elsewhere : base + b ≢ u32 (addr + i) =
                λ at. apart (omega (arith, ltb→lt i n before)) in
              rw (before, fits)
                (get_or-set_ne bytes (line_offset addr + i) b byte 0 apart
                  ∙ agree b lb
                  ∙ sym
                      (read_data-write_other mem (u32 (addr + i)) byte (base + b) (inl elsewhere)))
        ]
      ]
    ]

length-put_byte :
    (test : Bool) (bytes : List ℕ) (i v : ℕ)
    → length bytes ≡ 16
    → length (if test then set bytes i v else bytes) ≡ 16
length-put_byte true bytes i v l = length-set bytes i v ∙ l
length-put_byte false bytes i v l = l

-- A store to the bytes of a line is the store to memory.
pub put_bytes-Agree :
    (addr value n rounds i : ℕ) (bytes : List ℕ) (mem : Memory)
    → addr < 2 ^ 32
    → line_offset addr + n ≤ 16
    → length bytes ≡ 16
    → Agree bytes mem addr
    → (length (put_bytes addr value n rounds i bytes) ≡ 16)
      × Agree (put_bytes addr value n rounds i bytes) (store_n_bytes addr value n rounds i mem) addr
unfolding put_bytes store_n_bytes
put_bytes-Agree addr value n zero i bytes mem small inside l agree = (l, agree)
put_bytes-Agree addr value n (suc rounds) i bytes mem small inside l agree =
    put_bytes-Agree addr value n rounds (suc i) _ _ small inside
      (length-put_byte (ltb i n && ltb (u32 (addr + i)) mem_size) bytes (line_offset addr + i) _ l)
      (put_byte addr value n i bytes mem small inside l agree)

-- A store leaves the other lines as they are.
pub store_n_bytes-other :
    (addr value n rounds i : ℕ) (mem : Memory) (other : ℕ)
    → addr < 2 ^ 32
    → line_offset addr + n ≤ 16
    → (set_index other ≢ set_index addr) ⊎ (line_tag other ≢ line_tag addr)
    → read_data (store_n_bytes addr value n rounds i mem) other ≡ read_data mem other
unfolding store_n_bytes
store_n_bytes-other addr value n zero i mem other small inside apart = refl
store_n_bytes-other addr value n (suc rounds) i mem other small inside apart =
    store_n_bytes-other addr value n rounds (suc i) _ other small inside apart
    ∙ elim (Bool-cases (ltb i n)) [
      | inr past ↦ rw past refl
      | inl before ↦
          let elsewhere : other ≢ u32 (addr + i) =
            λ e. omega (arith, ltb→lt i n before, apart, e) in
          rw before (read_data-write_other mem (u32 (addr + i)) _ other (inl elsewhere))
    ]
