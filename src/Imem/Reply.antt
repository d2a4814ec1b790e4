-- ===== src/Imem/Reply.antt =====
-- What the instruction memory of src/IMEM/IMEM.cpp answers: the words of a line of memory.
use rv32im_simulator.Prelude.{
  ℕ, zero, suc, ◌+◌, ◌*◌, ◌%◌, ◌^◌, ◌<◌, ◌≡◌, ◌>>>◌, refl, sym, ap, ◌∙◌, bit_or, true, get_or,
  arith,
}
use rv32im_simulator.Prelude.Bits.{bit_or_fields}
use rv32im_simulator.Memory.{Memory, read_data}
use rv32im_simulator.Icache.Coherent.{IsLine}
use rv32im_simulator.Imem.{
  Imem, request_at, is_return_ready, word_loop, line_word, get_return, line_bytes,
}
use rv32im_simulator.Imem.Lines.{Sound}
use rv32im_simulator.Imem.Window.{ready-head}

abbrev pub IsBytes : Memory → Type 0
IsBytes mem = (addr : ℕ) → mem addr < 2 ^ 8

-- The `k`-th word of the memory, its lowest byte first.
abbrev pub program_word : Memory → ℕ → ℕ
program_word mem k =
    read_data mem (k * 4)
    + read_data mem (k * 4 + 1) * 2 ^ 8
    + read_data mem (k * 4 + 2) * 2 ^ 16
    + read_data mem (k * 4 + 3) * 2 ^ 24

read_data-byte : (mem : Memory) → IsBytes mem → (addr : ℕ) → read_data mem addr < 2 ^ 8
unfolding read_data
read_data-byte mem b addr = let h = b addr in ground arith

four_bytes :
    (a b c d : ℕ)
    → a < 2 ^ 8
    → b < 2 ^ 8
    → c < 2 ^ 8
    → bit_or (bit_or (bit_or (bit_or 0 (a * 2 ^ 0)) (b * 2 ^ 8)) (c * 2 ^ 16)) (d * 2 ^ 24)
      ≡ a + b * 2 ^ 8 + c * 2 ^ 16 + d * 2 ^ 24
four_bytes a b c d la lb lc =
    let first : bit_or 0 (a * 2 ^ 0) ≡ a = bit_or_fields 0 a 0 (omega arith) ∙ omega arith in
    rw
      (
        first,
        bit_or_fields 8 b a la,
        bit_or_fields 16 c (a + b * 2 ^ 8) (omega arith),
        bit_or_fields 24 d (a + b * 2 ^ 8 + c * 2 ^ 16) (omega arith),
      )
      refl

four_bytes_at :
    (mem : Memory) (k a b c d : ℕ)
    → IsBytes mem
    → a ≡ k * 4
    → b ≡ k * 4 + 1
    → c ≡ k * 4 + 2
    → d ≡ k * 4 + 3
    → bit_or
        (bit_or
          (bit_or (bit_or 0 (read_data mem a * 2 ^ 0)) (read_data mem b * 2 ^ 8))
          (read_data mem c * 2 ^ 16))
        (read_data mem d * 2 ^ 24)
      ≡ program_word mem k
four_bytes_at mem k a b c d bytes ea eb ec ed =
    four_bytes (read_data mem a) (read_data mem b) (read_data mem c) (read_data mem d)
      (read_data-byte mem bytes a) (read_data-byte mem bytes b) (read_data-byte mem bytes c)
    ∙ rw (ea, eb, ec, ed) refl

-- The words of the bytes of a line.
line_word-bytes :
    (mem : Memory) (addr w : ℕ)
    → IsBytes mem
    → addr % 16 ≡ 0
    → addr < 2 ^ 32
    → w < 4
    → line_word (line_bytes mem addr 0 16) w ≡ program_word mem ((addr >>> 4) * 4 + w)
unfolding word_loop line_bytes
line_word-bytes mem addr zero b aligned small l =
    four_bytes_at mem ((addr >>> 4) * 4 + 0) _ _ _ _ b (omega arith) (omega arith) (omega arith)
      (omega arith)
line_word-bytes mem addr (suc zero) b aligned small l =
    four_bytes_at mem ((addr >>> 4) * 4 + 1) _ _ _ _ b (omega arith) (omega arith) (omega arith)
      (omega arith)
line_word-bytes mem addr (suc (suc zero)) b aligned small l =
    four_bytes_at mem ((addr >>> 4) * 4 + 2) _ _ _ _ b (omega arith) (omega arith) (omega arith)
      (omega arith)
line_word-bytes mem addr (suc (suc (suc zero))) b aligned small l =
    four_bytes_at mem ((addr >>> 4) * 4 + 3) _ _ _ _ b (omega arith) (omega arith) (omega arith)
      (omega arith)
line_word-bytes mem addr (suc (suc (suc (suc w)))) b aligned small l = absurd (omega arith)

words-get_return :
    (imem : Imem) (i : ℕ)
    → is_return_ready imem ≡ true
    → i < 4
    → get_or (get_return imem).words i 0 ≡ line_word (request_at imem.reqs imem.head).bytes i
unfolding get_return
words-get_return imem zero ready l = rw ready refl
words-get_return imem (suc zero) ready l = rw ready refl
words-get_return imem (suc (suc zero)) ready l = rw ready refl
words-get_return imem (suc (suc (suc zero))) ready l = rw ready refl
words-get_return imem (suc (suc (suc (suc i)))) ready l = absurd (omega arith)

address-get_return :
    (imem : Imem)
    → is_return_ready imem ≡ true
    → ((get_return imem).valid ≡ true)
      × ((get_return imem).line_addr ≡ (request_at imem.reqs imem.head).line_addr)
unfolding get_return
address-get_return imem ready = (rw ready refl, rw ready refl)

-- The reply of a sound queue that is ready to answer is valid, has the address of the request at
-- the head, and holds the four words of the memory of bytes in that line.
pub get_return-IsLine :
    (mem : Memory) (imem : Imem)
    → IsBytes mem
    → Sound mem imem
    → is_return_ready imem ≡ true
    → ((get_return imem).valid ≡ true)
      × ((get_return imem).line_addr ≡ (request_at imem.reqs imem.head).line_addr)
      × IsLine (program_word mem) (get_return imem)
get_return-IsLine mem imem bytes s ready =
    let request = request_at imem.reqs imem.head in
    let (some_left, valid, done) = ready-head imem ready in
    let (aligned, small, filled) = s.filled imem.head s.head_in valid in
    let (answers, address) = address-get_return imem ready in
    (
      answers,
      address,
      λ i l.
          words-get_return imem i ready l
          ∙ ap (λ bytes_of. line_word bytes_of i) (filled done)
          ∙ line_word-bytes mem request.line_addr i bytes aligned small l
          ∙ ap (λ addr. program_word mem ((addr >>> 4) * 4 + i)) (sym address),
    )
