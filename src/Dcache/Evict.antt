-- ===== src/Dcache/Evict.antt =====
-- Whole lines between the data cache and the data memory: reads, and the write of an evicted line.
use native.Mathlib.Decide.{dec_lt}
use rv32im_simulator.Prelude.{
  ℕ, zero, suc, ◌+◌, ◌<<<◌, ◌^◌, ◌<◌, ◌≤◌, ◌≡◌, ◌≢◌, ◌⊎◌, inl, inr, refl, sym, ap, ◌∙◌, true, false,
  ltb, ltb→lt, Bool-cases, if◌then◌else◌, List, [], ◌∷◌, length, get_or, u32, arith,
}
use rv32im_simulator.Memory.{
  Memory, mem_size, read_data, write_data, read_data-write_here, read_data-write_other,
  read_data-outside,
}
use rv32im_simulator.Imem.{line_bytes}
use rv32im_simulator.Dmem.{write_line}
use rv32im_simulator.Dcache.{DataLine, set_index, line_tag, line_offset}
use rv32im_simulator.Dcache.Ways.{matches}
use rv32im_simulator.Dcache.Flat.{GoodLine, line_base, address_parts}

pub get_or-line_bytes :
    (mem : Memory) (addr k n b : ℕ)
    → b < n
    → get_or (line_bytes mem addr k n) b 0 ≡ read_data mem (u32 (addr + (k + b)))
unfolding line_bytes
get_or-line_bytes mem addr k zero b l = absurd (omega arith)
get_or-line_bytes mem addr k (suc n) zero l = ap (λ j. read_data mem (u32 (addr + j))) (omega arith)
get_or-line_bytes mem addr k (suc n) (suc b) l =
    get_or-line_bytes mem addr (suc k) n b (omega arith)
    ∙ ap (λ j. read_data mem (u32 (addr + j))) (omega arith)

pub length-line_bytes : (mem : Memory) (addr k n : ℕ) → length (line_bytes mem addr k n) ≡ n
unfolding line_bytes
length-line_bytes mem addr k zero = refl
length-line_bytes mem addr k (suc n) = ap suc (length-line_bytes mem addr (suc k) n)

write_line-outside :
    (addr : ℕ) (bytes : List ℕ) (i : ℕ) (mem : Memory) (other : ℕ)
    → addr + i + length bytes ≤ 2 ^ 32
    → (other < addr + i) ⊎ (addr + i + length bytes ≤ other)
    → read_data (write_line addr bytes i mem) other ≡ read_data mem other
unfolding write_line
write_line-outside addr [] i mem other small out = refl
write_line-outside addr (byte ∷ rest) i mem other small out =
    let apart : other ≢ u32 (addr + i) = λ e. omega (arith, small, out, e) in
    write_line-outside addr rest (suc i) _ other (omega arith) (omega (arith, out))
    ∙ read_data-write_other mem (u32 (addr + i)) byte other (inl apart)

write_line-inside :
    (addr : ℕ) (bytes : List ℕ) (i : ℕ) (mem : Memory) (j : ℕ)
    → addr + i + length bytes ≤ 2 ^ 32
    → j < length bytes
    → addr + i + j < mem_size
    → read_data (write_line addr bytes i mem) (addr + i + j) ≡ get_or bytes j 0
unfolding write_line
write_line-inside addr [] i mem j small l fits = absurd (omega arith)
write_line-inside addr (byte ∷ rest) i mem zero small l fits =
    let at : addr + i + 0 ≡ u32 (addr + i) = omega arith in
    let fits' : ltb (u32 (addr + i)) mem_size ≡ true = ground arith in
    write_line-outside addr rest (suc i) _ (addr + i + 0) (omega arith) (inl (omega arith))
    ∙ ap (read_data (write_data (u32 (addr + i)) byte mem)) at
    ∙ read_data-write_here mem (u32 (addr + i)) byte fits'
write_line-inside addr (byte ∷ rest) i mem (suc j) small l fits =
    let at : addr + i + suc j ≡ addr + suc i + j = omega arith in
    ap (read_data (write_line addr rest (suc i) (write_data (u32 (addr + i)) byte mem))) at
    ∙ write_line-inside addr rest (suc i) _ j (omega arith) (omega arith) (omega arith)

-- The memory after the eviction of a line of a set: a dirty line is written to the address that its
-- own tag tells.
unfoldable pub evict : ℕ → DataLine → Memory → Memory
evict index line mem =
    if line.dirty
    then write_line (u32 (((line.tag <<< 10) + index) <<< 4)) line.bytes 0 mem
    else mem

module _ (mem : Memory) (index : ℕ) (line : DataLine) (good : GoodLine mem index line)
    (in_sets : index < 1024) where
  evicted_address :
      line.valid ≡ true → u32 (((line.tag <<< 10) + index) <<< 4) ≡ line_base line.tag index
  evicted_address valid = omega (arith, good.small valid)

  pub evict-elsewhere :
      (addr : ℕ)
      → (set_index addr ≢ index) ⊎ (matches (line_tag addr) line ≡ false)
      → read_data (evict index line mem) addr ≡ read_data mem addr
  unfolding evict
  evict-elsewhere addr apart = elim (Bool-cases line.dirty) [
    | inr clean ↦ rw clean refl
    | inl dirty ↦
        let valid = good.dirty_valid dirty in
        let small = good.small valid in
        let other : (set_index addr ≢ index) ⊎ (line_tag addr ≢ line.tag) = elim apart [
          | inl o ↦ inl o
          | inr m ↦ inr (ground arith)
        ] in
        rw dirty (
          ap (λ base. read_data (write_line base line.bytes 0 mem) addr) (evicted_address valid)
          ∙ write_line-outside (line_base line.tag index) line.bytes 0 mem addr
              (omega (arith, small, good.storage))
              (elim (dec_lt addr (line_base line.tag index)) [
                | yes below ↦ inl (omega (arith, below))
                | no above ↦ inr (omega (arith, other, above, good.storage, in_sets))
              ]))
  ]

  pub evict-line :
      (addr : ℕ)
      → set_index addr ≡ index
      → matches (line_tag addr) line ≡ true
      → read_data (evict index line mem) addr ≡ get_or line.bytes (line_offset addr) 0
  unfolding evict
  evict-line addr here fits =
      let valid : line.valid ≡ true = ground arith in
      let same_tag : line_tag addr ≡ line.tag = ground arith in
      let (parts, offset, _) = address_parts addr in
      let at : line_base line.tag index + 0 + line_offset addr ≡ addr =
        omega (arith, parts, same_tag, here) in
      elim (Bool-cases line.dirty) [
        | inr clean ↦ rw clean (
            ap (read_data mem) (sym at)
            ∙ ap (read_data mem) (omega arith)
            ∙ sym (good.clean valid clean (line_offset addr) offset))
        | inl dirty ↦
            let address = evicted_address valid in
            let small = good.small valid in
            elim (Bool-cases (ltb addr mem_size)) [
              | inl fits_in ↦ rw dirty (
                  ap (λ base. read_data (write_line base line.bytes 0 mem) addr) address
                  ∙ ap (read_data (write_line (line_base line.tag index) line.bytes 0 mem)) (sym at)
                  ∙ write_line-inside (line_base line.tag index) line.bytes 0 mem (line_offset addr)
                      (omega (arith, small, good.storage)) (omega (arith, offset, good.storage))
                      (omega (arith, at, ltb→lt addr mem_size fits_in)))
              | inr out ↦
                  read_data-outside _ addr out
                  ∙ sym (
                      good.outside valid (line_offset addr) offset
                        (let past : mem_size ≤ addr = ground arith in omega (arith, at, past)))
            ]
      ]
