-- ===== src/Arbiter/Issue/Total.antt =====
-- The assertion of `resolveSrc` in src/StaticArbiter/StaticArbiter.cpp.
use rv32im_simulator.Prelude.{
  ℕ, ◌<◌, Bool, true, false, ◌==◌, if◌then◌else◌, Option, none, some, ◌≡◌, ◌≢◌, refl, arith,
  Bool-cases, inl, inr,
}
use rv32im_simulator.Types.{Operation, Operand, invalid_phy}
use rv32im_simulator.Packet.{IssuePacket}
use rv32im_simulator.Rat.{Rat, read_operand, read_rat_prf}
use rv32im_simulator.Rat.Mapped.{Reached, reached-MapsAll}
use rv32im_simulator.Decoder.{Uop, RiscV, r, m, i, i_star, s, b, u, j, rv_invalid}
use rv32im_simulator.Decoder.Queue.{head_uop}
use rv32im_simulator.Arbiter.Issue.{
  IssueInput, idle, resolve_src, guarded, with_sources, issue_integer_rs, issue_multiply,
  issue_divide, issue_u_and_j, issue_b, issue_load, issue_store,
}
use rv32im_simulator.Arbiter.Issue.Select.{
  decode_op, issue_m, issue_i, issue_u, issue_format, build,
}

-- No assertion fails.
data Returns {A : Type 0} : Option A → Type 0 where
  returns : (a : A) → Returns (some a)

Returns-some : {A : Type 0} {o : Option A} → Returns o → (a : A) × (o ≡ some a)
Returns-some (returns a) = (a, refl)

-- Every register but x0 has a mapping.
abbrev Mapped : Rat → Type 0
Mapped rat = (reg : ℕ) → 0 < reg → reg < 32 → read_rat_prf rat reg ≢ invalid_phy

module _ (input : IssueInput) (mapped : Mapped input.rat) where
  resolve-Returns : (reg : ℕ) → reg < 32 → Returns (resolve_src input reg)
  unfolding resolve_src read_operand read_rat_prf
  resolve-Returns reg h = elim (Bool-cases (reg == 0)) [
    | inl z ↦ rw z (returns _)
    | inr z ↦ elim (Bool-cases (read_rat_prf input.rat reg == invalid_phy)) [
      | inl lost ↦ absurd (mapped reg (ground arith) h (ground arith))
      | inr kept ↦ rw (z, kept) (returns _)
    ]
  ]

if-Returns :
    {A : Type 0} (test : Bool) (x y : Option A)
    → Returns x
    → Returns y
    → Returns (if test then x else y)
if-Returns true x y h k = h
if-Returns false x y h k = k

guarded-Returns :
    (full starved : Bool) (slot : Option ℕ) (build : ℕ → Option IssuePacket)
    → ((index : ℕ) → Returns (build index))
    → Returns (guarded full slot starved build)
unfolding guarded
guarded-Returns true starved slot build h = returns _
guarded-Returns false starved none build h = returns _
guarded-Returns false true (some index) build h = returns _
guarded-Returns false false (some index) build h = h index

with_sources-Returns :
    (x y : Option Operand) (build : Operand → Operand → IssuePacket)
    → Returns x
    → Returns y
    → Returns (with_sources x y build)
unfolding with_sources
with_sources-Returns _ _ build (returns first) (returns second) = returns _

-- The functions of the arbiter, for an instruction with sources among the registers.
module _ (input : IssueInput) (inst : Uop) (mapped : Mapped input.rat) (h : inst.rs1 < 32)
    (k : inst.rs2 < 32) where
  source1 : Returns (resolve_src input inst.rs1)
  source1 = resolve-Returns input mapped inst.rs1 h

  source2 : Returns (resolve_src input inst.rs2)
  source2 = resolve-Returns input mapped inst.rs2 k

  module _ (op : Operation) where
    integer-Returns :
        (has_rs2 imm_as_vk is_control : Bool)
        → Returns (issue_integer_rs input inst op has_rs2 imm_as_vk is_control)
    unfolding issue_integer_rs
    integer-Returns has_rs2 imm_as_vk is_control = guarded-Returns _ _ _ _ λ _.
        with_sources-Returns _ _ _ source1
          (if-Returns imm_as_vk _ _ (returns _) (if-Returns has_rs2 _ _ source2 (returns _)))

    multiply-Returns : Returns (issue_multiply input inst op)
    unfolding issue_multiply
    multiply-Returns = guarded-Returns _ _ _ _ λ _. with_sources-Returns _ _ _ source1 source2

    divide-Returns : Returns (issue_divide input inst op)
    unfolding issue_divide
    divide-Returns = guarded-Returns _ _ _ _ λ _. with_sources-Returns _ _ _ source1 source2

    direct-Returns :
        (has_pc is_control : Bool) → Returns (issue_u_and_j input inst op has_pc is_control)
    unfolding issue_u_and_j
    direct-Returns has_pc is_control = guarded-Returns _ _ _ _ λ _. returns _

    branch-Returns : Returns (issue_b input inst op)
    unfolding issue_b
    branch-Returns = guarded-Returns _ _ _ _ λ _. with_sources-Returns _ _ _ source1 source2

    load-Returns :
        (n_bytes : ℕ) (is_unsigned : Bool) → Returns (issue_load input inst op n_bytes is_unsigned)
    unfolding issue_load
    load-Returns n_bytes is_unsigned =
        guarded-Returns _ _ _ _ λ _. with_sources-Returns _ _ _ source1 (returns _)

    store-Returns : (n_bytes : ℕ) → Returns (issue_store input inst op n_bytes)
    unfolding issue_store
    store-Returns n_bytes =
        guarded-Returns _ _ _ _
          λ _. guarded-Returns _ _ _ _ λ _. with_sources-Returns _ _ _ source1 source2

  m-Returns : Returns (issue_m input inst)
  unfolding issue_m
  m-Returns =
      if-Returns _ _ _ (returns _) (if-Returns _ _ _ (divide-Returns _) (multiply-Returns _))

  i-Returns : Returns (issue_i input inst)
  unfolding issue_i
  i-Returns = if-Returns _ _ _ (if-Returns _ _ _ (returns _) (integer-Returns _ false true false)) (
      if-Returns _ _ _ (integer-Returns _ false true true)
        (if-Returns _ _ _ (load-Returns _ _ _) (returns _)))

  u-Returns : Returns (issue_u input inst)
  unfolding issue_u
  u-Returns =
      let op = decode_op inst in
      if-Returns (inst.opcode == 0b0010111) _ _ (direct-Returns op true false)
        (if-Returns (inst.opcode == 0b0110111) _ _ (direct-Returns op false false) (returns idle))

  format-Returns : (format : RiscV) → Returns (issue_format format input inst)
  unfolding issue_format
  format-Returns r = integer-Returns _ true false false
  format-Returns m = m-Returns
  format-Returns i = i-Returns
  format-Returns i_star = integer-Returns _ false true false
  format-Returns s = store-Returns _ _
  format-Returns b = branch-Returns _
  format-Returns u = u-Returns
  format-Returns j = direct-Returns _ true true
  format-Returns rv_invalid = returns _

-- The issue arbiter fails no assertion on a register table that is reached from reset by any ticks
-- of the table that fail none, each under a checkpoint within the table and with every squash
-- going back to a checkpoint that an issued instruction wrote before, when the sources of the
-- instruction at the head of the queue are below 32.
pub build_total :
    (written : ℕ → Bool) (input : IssueInput)
    → Reached written input.rat
    → (head_uop input.decode_unit).rs1 < 32
    → (head_uop input.decode_unit).rs2 < 32
    → (p : IssuePacket) × (build input ≡ some p)
unfolding build
build_total written input reached h k =
    let inst = head_uop input.decode_unit in
    let mapped = reached-MapsAll written input.rat reached in
    Returns-some (if-Returns _ _ _ (returns _) (format-Returns input inst mapped h k inst.format))
