-- ===== src/Decoder/Fields.antt =====
-- The fields that `Decoder::decode` of src/Decoder/Decoder.cpp cuts out of an encoded word.
use rv32im_simulator.Prelude.{
  ℕ, ◌+◌, ◌*◌, ◌/◌, ◌%◌, ◌^◌, ◌<◌, ◌≡◌, ◌∙◌, ap, arith, low_bits, u32, bit_or, ◌>>>◌, ◌<<<◌,
}
use rv32im_simulator.Prelude.Bits.{bit_or_fields, bit_or_field}
use rv32im_simulator.Decoder.{r, i, i_star, s, b, u, j, sign_extend, get_imm}
use rv32im_simulator.Decoder.Encode.{Operands, Encodable, Extends, word}

-- The bit fields of a raw word.
abbrev pub opcode_of : ℕ → ℕ
opcode_of raw = low_bits 7 raw

abbrev pub rd_of : ℕ → ℕ
rd_of raw = low_bits 5 (raw >>> 7)

abbrev pub funct3_of : ℕ → ℕ
funct3_of raw = low_bits 3 (raw >>> 12)

abbrev pub rs1_of : ℕ → ℕ
rs1_of raw = low_bits 5 (raw >>> 15)

abbrev pub rs2_of : ℕ → ℕ
rs2_of raw = low_bits 5 (raw >>> 20)

abbrev pub top_of : ℕ → ℕ
top_of raw = low_bits 7 (raw >>> 25)

module _ (op f3 f7 : ℕ) (o : Operands) (p : op < 2 ^ 7) (q : f3 < 2 ^ 3) (t : f7 < 2 ^ 7) where
  pub register_fields :
      Encodable r o
      → let raw = word r op f3 f7 o in
        (opcode_of raw ≡ op)
        × (funct3_of raw ≡ f3)
        × (top_of raw ≡ f7)
        × (rd_of raw ≡ o.rd)
        × (rs1_of raw ≡ o.rs1)
        × (rs2_of raw ≡ o.rs2)
  register_fields e = omega arith

  pub shift_fields :
      Encodable i_star o
      → let raw = word i_star op f3 f7 o in
        (opcode_of raw ≡ op)
        × (funct3_of raw ≡ f3)
        × (top_of raw ≡ f7)
        × (rd_of raw ≡ o.rd)
        × (rs1_of raw ≡ o.rs1)
        × (get_imm raw (rd_of raw) i_star ≡ o.imm)
  unfolding get_imm
  shift_fields e = omega arith

sign_extend-Extends :
    (imm : ℕ)
    → (Extends 11 imm → sign_extend (imm % 2 ^ 12) 12 ≡ imm)
      × (Extends 12 imm → sign_extend (imm % 2 ^ 13) 13 ≡ imm)
      × (Extends 20 imm → sign_extend (imm % 2 ^ 21) 21 ≡ imm)
unfolding sign_extend
sign_extend-Extends imm = (λ e. ground arith, λ e. ground arith, λ e. ground arith)

-- The immediate of a branch, put together from its four parts.
branch_parts :
    (x y z w : ℕ)
    → y < 2 ^ 6
    → z < 2
    → w < 2 ^ 4
    → bit_or (bit_or (bit_or (x * 2 ^ 12) (y * 2 ^ 5)) (z * 2 ^ 11)) (w * 2)
      ≡ x * 2 ^ 12 + y * 2 ^ 5 + z * 2 ^ 11 + w * 2
branch_parts x y z w p q t =
    ap (λ v. bit_or (bit_or v (z * 2 ^ 11)) (w * 2))
      (bit_or_field 6 5 (x * 2) 0 (x * 2 ^ 12) y (omega arith) (omega arith) p)
    ∙ ap (λ v. bit_or v (w * 2))
        (bit_or_field 1 11 x (y * 2 ^ 5) (x * 2 ^ 12 + y * 2 ^ 5) z (omega arith) (omega arith) q)
    ∙ bit_or_field 4 1 (x * 2 ^ 7 + y + z * 2 ^ 6) 0 (x * 2 ^ 12 + y * 2 ^ 5 + z * 2 ^ 11) w
        (omega arith) (omega arith) t

jump_parts :
    (x y z w : ℕ)
    → y < 2 ^ 10
    → z < 2
    → w < 2 ^ 8
    → bit_or (bit_or (bit_or (x * 2 ^ 20) (y * 2)) (z * 2 ^ 11)) (w * 2 ^ 12)
      ≡ x * 2 ^ 20 + y * 2 + z * 2 ^ 11 + w * 2 ^ 12
jump_parts x y z w p q t =
    ap (λ v. bit_or (bit_or v (z * 2 ^ 11)) (w * 2 ^ 12))
      (bit_or_field 10 1 (x * 2 ^ 9) 0 (x * 2 ^ 20) y (omega arith) (omega arith) p)
    ∙ ap (λ v. bit_or v (w * 2 ^ 12))
        (bit_or_field 1 11 (x * 2 ^ 8) (y * 2) (x * 2 ^ 20 + y * 2) z (omega arith) (omega arith) q)
    ∙ bit_or_field 8 12 x (y * 2 + z * 2 ^ 11) (x * 2 ^ 20 + y * 2 + z * 2 ^ 11) w (omega arith)
        (omega arith) t

module _ (op f3 : ℕ) (o : Operands) (p : op < 2 ^ 7) (q : f3 < 2 ^ 3) where
  pub immediate_fields :
      Encodable i o
      → let raw = word i op f3 0 o in
        (opcode_of raw ≡ op)
        × (funct3_of raw ≡ f3)
        × (rd_of raw ≡ o.rd)
        × (rs1_of raw ≡ o.rs1)
        × (get_imm raw (rd_of raw) i ≡ o.imm)
  unfolding get_imm
  immediate_fields e =
      let raw = word i op f3 0 o in
      let cut : low_bits 12 (raw >>> 20) ≡ o.imm % 2 ^ 12 = omega arith in
      (
        omega arith,
        omega arith,
        omega arith,
        omega arith,
        rw cut ((sign_extend-Extends o.imm).0 e.imm_fits),
      )

  pub store_fields :
      Encodable s o
      → let raw = word s op f3 0 o in
        (opcode_of raw ≡ op)
        × (funct3_of raw ≡ f3)
        × (rs1_of raw ≡ o.rs1)
        × (rs2_of raw ≡ o.rs2)
        × (get_imm raw (rd_of raw) s ≡ o.imm)
  unfolding get_imm
  store_fields e =
      let raw = word s op f3 0 o in
      let lower : low_bits 5 (raw >>> 7) ≡ o.imm % 2 ^ 5 = omega arith in
      let upper : u32 (raw >>> 25 <<< 5) ≡ o.imm / 2 ^ 5 % 2 ^ 7 * 2 ^ 5 = omega arith in
      let joined : bit_or (o.imm % 2 ^ 5) (o.imm / 2 ^ 5 % 2 ^ 7 * 2 ^ 5) ≡ o.imm % 2 ^ 12 =
        omega (arith, bit_or_fields 5 (o.imm / 2 ^ 5 % 2 ^ 7) (o.imm % 2 ^ 5) (omega arith)) in
      (
        omega arith,
        omega arith,
        omega arith,
        omega arith,
        rw (lower, upper, joined) ((sign_extend-Extends o.imm).0 e.imm_fits),
      )

  pub branch_fields :
      Encodable b o
      → let raw = word b op f3 0 o in
        (opcode_of raw ≡ op)
        × (funct3_of raw ≡ f3)
        × (rs1_of raw ≡ o.rs1)
        × (rs2_of raw ≡ o.rs2)
        × (get_imm raw (rd_of raw) b ≡ o.imm)
  unfolding get_imm
  branch_fields e =
      let raw = word b op f3 0 o in
      let x = o.imm / 2 ^ 12 % 2 in
      let y = o.imm / 2 ^ 5 % 2 ^ 6 in
      let z = o.imm / 2 ^ 11 % 2 in
      let w = o.imm / 2 % 2 ^ 4 in
      let top : u32 (raw >>> 31 <<< 12) ≡ x * 2 ^ 12 = omega arith in
      let middle : low_bits 6 (raw >>> 25) <<< 5 ≡ y * 2 ^ 5 = omega arith in
      let eleventh : low_bits 1 (rd_of raw) <<< 11 ≡ z * 2 ^ 11 = omega arith in
      let lowest : rd_of raw >>> 1 <<< 1 ≡ w * 2 = omega arith in
      let joined : x * 2 ^ 12 + y * 2 ^ 5 + z * 2 ^ 11 + w * 2 ≡ o.imm % 2 ^ 13 = omega arith in
      (
        omega arith,
        omega arith,
        omega arith,
        omega arith,
        rw
            (
              top,
              middle,
              eleventh,
              lowest,
              branch_parts x y z w (omega arith) (omega arith) (omega arith),
              joined,
            )
            ((sign_extend-Extends o.imm).1 e.imm_fits.0),
      )

module _ (op : ℕ) (o : Operands) (p : op < 2 ^ 7) where
  pub upper_fields :
      Encodable u o
      → let raw = word u op 0 0 o in
        (opcode_of raw ≡ op) × (rd_of raw ≡ o.rd) × (get_imm raw (rd_of raw) u ≡ o.imm)
  unfolding get_imm
  upper_fields e = omega arith

  pub jump_fields :
      Encodable j o
      → let raw = word j op 0 0 o in
        (opcode_of raw ≡ op) × (rd_of raw ≡ o.rd) × (get_imm raw (rd_of raw) j ≡ o.imm)
  unfolding get_imm
  jump_fields e =
      let raw = word j op 0 0 o in
      let x = o.imm / 2 ^ 20 % 2 in
      let y = o.imm / 2 % 2 ^ 10 in
      let z = o.imm / 2 ^ 11 % 2 in
      let w = o.imm / 2 ^ 12 % 2 ^ 8 in
      let top : u32 (raw >>> 31 <<< 20) ≡ x * 2 ^ 20 = omega arith in
      let middle : low_bits 10 (raw >>> 21) <<< 1 ≡ y * 2 = omega arith in
      let eleventh : u32 (u32 (raw <<< 11) >>> 31 <<< 11) ≡ z * 2 ^ 11 = omega arith in
      let upper : u32 (u32 (raw <<< 12) >>> 24 <<< 12) ≡ w * 2 ^ 12 = omega arith in
      let joined : x * 2 ^ 20 + y * 2 + z * 2 ^ 11 + w * 2 ^ 12 ≡ o.imm % 2 ^ 21 = omega arith in
      (
        omega arith,
        omega arith,
        rw
            (
              top,
              middle,
              eleventh,
              upper,
              jump_parts x y z w (omega arith) (omega arith) (omega arith),
              joined,
            )
            ((sign_extend-Extends o.imm).2 e.imm_fits.0),
      )
