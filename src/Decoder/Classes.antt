-- ===== src/Decoder/Classes.antt =====
-- The formats of encoded words under `Decoder::decode` of src/Decoder/Decoder.cpp, and the operation
-- that `IssueArbiter::decodeOp` of src/StaticArbiter/StaticArbiter.cpp takes for them.
use rv32im_simulator.Prelude.{ℕ, ◌*◌, ◌^◌, ◌<◌, ◌≡◌, ◌≢◌, refl, ap, ap₂, ◌∙◌, arith}
use rv32im_simulator.Prelude.Bits.{bit_or_comm, bit_or_fields}
use rv32im_simulator.Types.{Operation}
use rv32im_simulator.Decoder.{
  RiscV, r, m, i, i_star, s, b, u, j, rv_invalid, Uop, decode, format_of, funct7_of, get_imm,
}
use rv32im_simulator.Decoder.Queue.{zero_uop}
use rv32im_simulator.Arbiter.Issue.Select.{decode_op}
use rv32im_simulator.Decoder.Encode.{Operands, Encodable, word, format, operation}
use rv32im_simulator.Decoder.Fields.{
  opcode_of, funct3_of, top_of, rd_of, rs1_of, rs2_of, register_fields, shift_fields,
  immediate_fields, store_fields, branch_fields, upper_fields, jump_fields,
}

-- The operands that an instruction of the format has.
abbrev SameOperands : RiscV → Operands → Uop → Type 0
SameOperands r o v = (v.rd ≡ o.rd) × (v.rs1 ≡ o.rs1) × (v.rs2 ≡ o.rs2)
SameOperands m o v = (v.rd ≡ o.rd) × (v.rs1 ≡ o.rs1) × (v.rs2 ≡ o.rs2)
SameOperands i o v = (v.rd ≡ o.rd) × (v.rs1 ≡ o.rs1) × (v.imm ≡ o.imm)
SameOperands i_star o v = (v.rd ≡ o.rd) × (v.rs1 ≡ o.rs1) × (v.imm ≡ o.imm)
SameOperands s o v = (v.rs1 ≡ o.rs1) × (v.rs2 ≡ o.rs2) × (v.imm ≡ o.imm)
SameOperands b o v = (v.rs1 ≡ o.rs1) × (v.rs2 ≡ o.rs2) × (v.imm ≡ o.imm)
SameOperands u o v = (v.rd ≡ o.rd) × (v.imm ≡ o.imm)
SameOperands j o v = (v.rd ≡ o.rd) × (v.imm ≡ o.imm)
SameOperands rv_invalid o v = Unit

pub record Decodes (kind : RiscV) (op : Operation) (o : Operands) (v : Uop) : Type 0 where
  pub format_is : v.format ≡ kind
  pub operation_is : decode_op v ≡ op
  pub operands_are : SameOperands kind o v

-- What `decode_op` reads.
unfoldable pub seen : RiscV → ℕ → ℕ → ℕ → Operation
seen kind opc f3 f7 =
    decode_op (record zero_uop { format = kind; opcode = opc; funct3 = f3; funct7 = f7 })

decode_op-seen : (v : Uop) → decode_op v ≡ seen v.format v.opcode v.funct3 v.funct7
unfolding seen decode_op
decode_op-seen v = refl

-- The fields of the decoded word.
decode_fields :
    (raw : ℕ)
    → let v = decode raw in
      (v.opcode ≡ opcode_of raw)
      × (v.funct3 ≡ funct3_of raw)
      × (v.funct7 ≡ funct7_of raw (opcode_of raw))
      × (v.format ≡ format_of (opcode_of raw) (funct3_of raw) (funct7_of raw (opcode_of raw)))
      × (v.imm ≡ get_imm raw (rd_of raw) v.format)
unfolding decode
decode_fields raw = (refl, refl, refl, refl, refl)

-- The format and the operation follow from three fields.
classified :
    (kind : RiscV) (opc raw : ℕ) (op : Operation)
    → opcode_of raw ≡ opc
    → format_of opc (funct3_of raw) (funct7_of raw opc) ≡ kind
    → seen kind opc (funct3_of raw) (funct7_of raw opc) ≡ op
    → ((decode raw).format ≡ kind) × (decode_op (decode raw) ≡ op)
classified kind opc raw op e f g =
    let d = decode_fields raw in
    let is : (decode raw).format ≡ kind = cc (d.3, e, f) in
    (is, cc (decode_op-seen (decode raw), d.0, d.1, d.2, e, g, is))

decode_operands :
    (raw : ℕ)
    → ((decode raw).rd ≡ rd_of raw)
      × ((decode raw).rs1 ≡ rs1_of raw)
      × ((decode raw).rs2 ≡ rs2_of raw)
unfolding decode
decode_operands raw = (refl, refl, refl)

decode_imm :
    (raw : ℕ) (kind : RiscV)
    → (decode raw).format ≡ kind
    → (decode raw).imm ≡ get_imm raw (rd_of raw) kind
decode_imm raw kind e = (decode_fields raw).4 ∙ ap (get_imm raw (rd_of raw)) e

-- Opcodes 0b0110011 and 0b0010011 keep `funct7`.
kept_funct7 :
    (raw : ℕ) → (funct7_of raw 0b0110011 ≡ top_of raw) × (funct7_of raw 0b0010011 ≡ top_of raw)
unfolding funct7_of
kept_funct7 raw = (refl, refl)

funct7_of-lt : (raw opc : ℕ) → funct7_of raw opc < 2 ^ 7
unfolding funct7_of
funct7_of-lt raw opc = ground arith

pub immediate_format : (f3 f7 : ℕ) → f7 < 2 ^ 7 → f3 ≢ 1 → f3 ≢ 5 → format_of 0b0010011 f3 f7 ≡ i
unfolding format_of
immediate_format f3 f7 h k l = ground (arith, bit_or_comm (f3 * 2 ^ 7) f7, bit_or_fields 7 f3 f7 h)

module _ (op : Operation) (o : Operands) where
  -- Both kinds of instructions on two registers.
  two_registers :
      (kind : RiscV) (f3 f7 : ℕ)
      → (f3 < 2 ^ 3) × (f7 < 2 ^ 7)
      → format_of 0b0110011 f3 f7 ≡ kind
      → seen kind 0b0110011 f3 f7 ≡ op
      → Encodable r o
      → let v = decode (word r 0b0110011 f3 f7 o) in
        (v.format ≡ kind) × (decode_op v ≡ op) × SameOperands r o v
  two_registers kind f3 f7 h format operation e =
      let raw = word r 0b0110011 f3 f7 o in
      let fields = register_fields 0b0110011 f3 f7 o (omega arith) h.0 h.1 e in
      let top = (kept_funct7 raw).0 ∙ fields.2 in
      let done =
        classified kind 0b0110011 raw op fields.0 (ap₂ (format_of 0b0110011) fields.1 top ∙ format)
          (ap₂ (seen kind 0b0110011) fields.1 top ∙ operation) in
      let operands = decode_operands raw in
      (done.0, done.1, (operands.0 ∙ fields.3, operands.1 ∙ fields.4, operands.2 ∙ fields.5))

  pub register_Decodes :
      (f3 f7 : ℕ)
      → (f3 < 2 ^ 3) × (f7 < 2 ^ 7)
      → format_of 0b0110011 f3 f7 ≡ r
      → seen r 0b0110011 f3 f7 ≡ op
      → Encodable r o
      → Decodes r op o (decode (word r 0b0110011 f3 f7 o))
  register_Decodes f3 f7 h format operation e =
      let done = two_registers r f3 f7 h format operation e in
      record { format_is = done.0; operation_is = done.1; operands_are = done.2 }

  pub multiply_Decodes :
      (f3 : ℕ)
      → f3 < 2 ^ 3
      → seen m 0b0110011 f3 1 ≡ op
      → Encodable m o
      → Decodes m op o (decode (word m 0b0110011 f3 1 o))
  unfolding format_of
  multiply_Decodes f3 h operation e =
      let plain : Encodable r o = record {
        rd_fits = e.rd_fits;
        rs1_fits = e.rs1_fits;
        rs2_fits = e.rs2_fits;
        imm_fits = tt;
      } in
      let done = two_registers m f3 1 (h, omega arith) refl operation plain in
      record { format_is = done.0; operation_is = done.1; operands_are = done.2 }

  pub shift_Decodes :
      (f3 f7 : ℕ)
      → (f3 < 2 ^ 3) × (f7 < 2 ^ 7)
      → format_of 0b0010011 f3 f7 ≡ i_star
      → seen i_star 0b0010011 f3 f7 ≡ op
      → Encodable i_star o
      → Decodes i_star op o (decode (word i_star 0b0010011 f3 f7 o))
  shift_Decodes f3 f7 h format operation e =
      let raw = word i_star 0b0010011 f3 f7 o in
      let fields = shift_fields 0b0010011 f3 f7 o (omega arith) h.0 h.1 e in
      let top = (kept_funct7 raw).1 ∙ fields.2 in
      let done =
        classified i_star 0b0010011 raw op fields.0
          (ap₂ (format_of 0b0010011) fields.1 top ∙ format)
          (ap₂ (seen i_star 0b0010011) fields.1 top ∙ operation) in
      let operands = decode_operands raw in
      record {
        format_is = done.0;
        operation_is = done.1;
        operands_are =
            (operands.0 ∙ fields.3, operands.1 ∙ fields.4, decode_imm raw i_star done.0 ∙ fields.5);
      }

  -- The opcodes of the formats below leave the format open to no other field, except for the
  -- arithmetic on an immediate.
  pub immediate_Decodes :
      (opc f3 : ℕ)
      → (opc < 2 ^ 7) × (f3 < 2 ^ 3)
      → ((f7 : ℕ) → f7 < 2 ^ 7 → format_of opc f3 f7 ≡ i)
      → ((f7 : ℕ) → seen i opc f3 f7 ≡ op)
      → Encodable i o
      → Decodes i op o (decode (word i opc f3 0 o))
  immediate_Decodes opc f3 h format operation e =
      let raw = word i opc f3 0 o in
      let fields = immediate_fields opc f3 o h.0 h.1 e in
      let f7 = funct7_of raw opc in
      let done =
        classified i opc raw op fields.0
          (ap (λ t. format_of opc t f7) fields.1 ∙ format f7 (funct7_of-lt raw opc))
          (ap (λ t. seen i opc t f7) fields.1 ∙ operation f7) in
      let operands = decode_operands raw in
      record {
        format_is = done.0;
        operation_is = done.1;
        operands_are =
            (operands.0 ∙ fields.2, operands.1 ∙ fields.3, decode_imm raw i done.0 ∙ fields.4);
      }

  pub store_Decodes :
      (f3 : ℕ)
      → f3 < 2 ^ 3
      → ((f7 : ℕ) → seen s 0b0100011 f3 f7 ≡ op)
      → Encodable s o
      → Decodes s op o (decode (word s 0b0100011 f3 0 o))
  unfolding format_of
  store_Decodes f3 h operation e =
      let raw = word s 0b0100011 f3 0 o in
      let fields = store_fields 0b0100011 f3 o (omega arith) h e in
      let f7 = funct7_of raw 0b0100011 in
      let done =
        classified s 0b0100011 raw op fields.0 refl
          (ap (λ t. seen s 0b0100011 t f7) fields.1 ∙ operation f7) in
      let operands = decode_operands raw in
      record {
        format_is = done.0;
        operation_is = done.1;
        operands_are =
            (operands.1 ∙ fields.2, operands.2 ∙ fields.3, decode_imm raw s done.0 ∙ fields.4);
      }

  pub branch_Decodes :
      (f3 : ℕ)
      → f3 < 2 ^ 3
      → ((f7 : ℕ) → seen b 0b1100011 f3 f7 ≡ op)
      → Encodable b o
      → Decodes b op o (decode (word b 0b1100011 f3 0 o))
  unfolding format_of
  branch_Decodes f3 h operation e =
      let raw = word b 0b1100011 f3 0 o in
      let fields = branch_fields 0b1100011 f3 o (omega arith) h e in
      let f7 = funct7_of raw 0b1100011 in
      let done =
        classified b 0b1100011 raw op fields.0 refl
          (ap (λ t. seen b 0b1100011 t f7) fields.1 ∙ operation f7) in
      let operands = decode_operands raw in
      record {
        format_is = done.0;
        operation_is = done.1;
        operands_are =
            (operands.1 ∙ fields.2, operands.2 ∙ fields.3, decode_imm raw b done.0 ∙ fields.4);
      }

  pub upper_Decodes :
      (opc : ℕ)
      → opc < 2 ^ 7
      → ((f3 f7 : ℕ) → format_of opc f3 f7 ≡ u)
      → ((f3 f7 : ℕ) → seen u opc f3 f7 ≡ op)
      → Encodable u o
      → Decodes u op o (decode (word u opc 0 0 o))
  upper_Decodes opc h format operation e =
      let raw = word u opc 0 0 o in
      let fields = upper_fields opc o h e in
      let done =
        classified u opc raw op fields.0 (format (funct3_of raw) (funct7_of raw opc))
          (operation (funct3_of raw) (funct7_of raw opc)) in
      record {
        format_is = done.0;
        operation_is = done.1;
        operands_are = ((decode_operands raw).0 ∙ fields.1, decode_imm raw u done.0 ∙ fields.2);
      }

  pub jump_Decodes :
      ((f3 f7 : ℕ) → seen j 0b1101111 f3 f7 ≡ op)
      → Encodable j o
      → Decodes j op o (decode (word j 0b1101111 0 0 o))
  unfolding format_of
  jump_Decodes operation e =
      let raw = word j 0b1101111 0 0 o in
      let fields = jump_fields 0b1101111 o (omega arith) e in
      let done =
        classified j 0b1101111 raw op fields.0 refl
          (operation (funct3_of raw) (funct7_of raw 0b1101111)) in
      record {
        format_is = done.0;
        operation_is = done.1;
        operands_are = ((decode_operands raw).0 ∙ fields.1, decode_imm raw j done.0 ∙ fields.2);
      }
