-- ===== src/Rat/Mapped.antt =====
-- The mappings of src/RAT/RAT.cpp from reset on: every register but x0 stays bound to a physical one.
use mathlib.Core.Option
use rv32im_simulator.Prelude.{
  ℕ, zero, suc, ◌+◌, ◌<◌, Bool, true, false, ◌&&◌, ◌==◌, Bool-cases, guarded-some, guarded_open,
  if◌then◌else◌, none, some, List, [], ◌∷◌, ◌≡◌, ◌≢◌, refl, sym, ◌∙◌, inl, inr, length, length-set,
  get_or, set, get_or-set_self, get_or-set_ne, arith,
}
use rv32im_simulator.Types.{SquashInfo, invalid_phy}
use rv32im_simulator.Packet.{IssuePacket}
use rv32im_simulator.Prf.{ckpt_cap}
use rv32im_simulator.Rat
use rv32im_simulator.Rat.{
  Rat, identity, read_rat_prf, set_rat_prf, restore_rat_prf, snapshot_at, rename, tick,
}

-- A table that binds x1 to x31.
abbrev MapsAll : List ℕ → Type 0
MapsAll table = (reg : ℕ) → 0 < reg → reg < 32 → get_or table reg invalid_phy ≢ invalid_phy

bound-set :
    (table : List ℕ) (dest phy reg : ℕ)
    → phy ≢ invalid_phy
    → get_or table reg invalid_phy ≢ invalid_phy
    → get_or (set table dest phy) reg invalid_phy ≢ invalid_phy
bound-set [] dest phy reg real was = was
bound-set (x ∷ rest) zero phy zero real was = real
bound-set (x ∷ rest) zero phy (suc reg) real was = was
bound-set (x ∷ rest) (suc dest) phy zero real was = was
bound-set (x ∷ rest) (suc dest) phy (suc reg) real was = bound-set rest dest phy reg real was

set-MapsAll :
    (table : List ℕ) (dest phy : ℕ)
    → phy ≢ invalid_phy
    → MapsAll table
    → MapsAll (set table dest phy)
set-MapsAll table dest phy real maps reg h k = bound-set table dest phy reg real (maps reg h k)

-- The table binds x1 to x31, and so does each checkpoint that was written.
record Binds (written : ℕ → Bool) (rat : Rat) : Type 0 where
  current : MapsAll rat.rat_prf
  saved : (ckpt : ℕ) → written ckpt ≡ true → MapsAll (snapshot_at rat ckpt)
  storage : length rat.rat_ckpt ≡ ckpt_cap

identity-lookup :
    (n first reg : ℕ) → reg < n → get_or (identity n first) reg invalid_phy ≡ first + reg
unfolding identity
identity-lookup zero first reg h = absurd (omega arith)
identity-lookup (suc n) first zero h = omega arith
identity-lookup (suc n) first (suc reg) h =
    omega (arith, identity-lookup n (suc first) reg (omega arith))

abbrev pub none_written : ℕ → Bool
none_written ckpt = false

initial-Binds : Binds none_written Rat.initial
unfolding Rat.initial
initial-Binds = record {
  current = λ reg h k lost. omega (arith, identity-lookup 32 0 reg k);
  saved = λ ckpt e. cc;
  storage = refl;
}

-- The checkpoints that are written after a packet.
abbrev pub written_after : IssuePacket → (ℕ → Bool) → ℕ → Bool
written_after packet written ckpt =
    if packet.valid && (ckpt == packet.rob_entry.ckpt_id) then true else written ckpt

-- The table that a squash leaves.
abbrev table_after : SquashInfo → Rat → List ℕ
table_after squash rat = if squash.need_squash then snapshot_at rat squash.ckpt_id else rat.rat_prf

table_after-MapsAll :
    (squash : SquashInfo) (written : ℕ → Bool) (rat : Rat)
    → Binds written rat
    → (squash.need_squash ≡ true → written squash.ckpt_id ≡ true)
    → MapsAll (table_after squash rat)
table_after-MapsAll squash written rat b back = elim (Bool-cases squash.need_squash) [
  | inl e ↦ rw e (b.saved squash.ckpt_id (back e))
  | inr e ↦ rw e b.current
]

-- A table that holds the same in its array and one checkpoint more.
saved-Binds :
    (packet : IssuePacket) (written : ℕ → Bool) (rat : Rat) (table saved : List ℕ)
    → Binds written rat
    → packet.rob_entry.ckpt_id < ckpt_cap
    → MapsAll table
    → MapsAll saved
    → Binds
        (written_after packet written)
        (record { rat_prf = table; rat_ckpt = set rat.rat_ckpt packet.rob_entry.ckpt_id saved })
saved-Binds packet written rat table saved b room maps keeps = record {
  current = maps;
  saved = λ ckpt e. elim (Bool-cases (ckpt == packet.rob_entry.ckpt_id)) [
    | inl same ↦
        let at : ckpt ≡ packet.rob_entry.ckpt_id = ground arith in
        rw
          (
            at,
            get_or-set_self rat.rat_ckpt packet.rob_entry.ckpt_id saved []
                (omega (arith, b.storage)),
          )
          keeps
    | inr other ↦
        let was : written ckpt ≡ true = ground arith in
        let apart : packet.rob_entry.ckpt_id ≢ ckpt = ground arith in
        rw (get_or-set_ne rat.rat_ckpt packet.rob_entry.ckpt_id ckpt saved [] apart)
          (b.saved ckpt was)
  ];
  storage = length-set rat.rat_ckpt packet.rob_entry.ckpt_id saved ∙ b.storage;
}

-- The mapping and the checkpoints after a cycle that issues an instruction.
abbrev renamed_table : IssuePacket → List ℕ → List ℕ
renamed_table packet table =
    if packet.alloc_dest then set table packet.rob_entry.dest packet.phy else table

abbrev pub issued_to : IssuePacket → SquashInfo → Rat → Rat
issued_to packet squash rat = record {
  rat_prf = renamed_table packet (table_after squash rat);
  rat_ckpt = set rat.rat_ckpt packet.rob_entry.ckpt_id (renamed_table packet rat.rat_prf);
}

abbrev idle_to : SquashInfo → Rat → Rat
idle_to squash rat = record rat { rat_prf = table_after squash rat }

tick_idle :
    (packet : IssuePacket) (squash : SquashInfo) (rat : Rat)
    → packet.valid ≡ false
    → tick packet squash rat ≡ some (idle_to squash rat)
unfolding tick restore_rat_prf
tick_idle packet squash rat idle = elim (Bool-cases squash.need_squash) [
  | inl e ↦ rw (idle, e) refl
  | inr e ↦ rw (idle, e) refl
]

tick_issued :
    (packet : IssuePacket) (squash : SquashInfo) (rat : Rat)
    → packet.valid ≡ true
    → tick packet squash rat ≡ (
        if packet.alloc_dest && (packet.phy == invalid_phy)
        then none
        else some (issued_to packet squash rat))
unfolding tick rename set_rat_prf restore_rat_prf
tick_issued packet squash rat valid = elim (Bool-cases squash.need_squash) [
  | inl e ↦ elim (Bool-cases packet.alloc_dest) [
    | inl a ↦ rw (valid, e, a) refl
    | inr a ↦ rw (valid, e, a) refl
  ]
  | inr e ↦ elim (Bool-cases packet.alloc_dest) [
    | inl a ↦ rw (valid, e, a) refl
    | inr a ↦ rw (valid, e, a) refl
  ]
]

renamed_table-MapsAll :
    (packet : IssuePacket) (table : List ℕ)
    → (packet.alloc_dest && (packet.phy == invalid_phy)) ≡ false
    → MapsAll table
    → MapsAll (renamed_table packet table)
renamed_table-MapsAll packet table real maps = elim (Bool-cases packet.alloc_dest) [
  | inl a ↦ rw a (set-MapsAll table packet.rob_entry.dest packet.phy (ground arith) maps)
  | inr a ↦ rw a maps
]

-- A cycle that fails no assertion, and its table.
tick-Binds :
    (packet : IssuePacket) (squash : SquashInfo) (written : ℕ → Bool) (rat next : Rat)
    → Binds written rat
    → (packet.valid ≡ true → packet.rob_entry.ckpt_id < ckpt_cap)
    → (squash.need_squash ≡ true → written squash.ckpt_id ≡ true)
    → tick packet squash rat ≡ some next
    → Binds (written_after packet written) next
tick-Binds packet squash written rat next b room back e =
    let maps = table_after-MapsAll squash written rat b back in
    elim (Bool-cases packet.valid) [
      | inr idle ↦
          let same : idle_to squash rat ≡ next =
            Option.some-injective (idle_to squash rat) next
              (sym (tick_idle packet squash rat idle) ∙ e) in
          rw (sym same, idle) (record { current = maps; saved = b.saved; storage = b.storage })
      | inl valid ↦
          let at = sym (tick_issued packet squash rat valid) ∙ e in
          let real = guarded_open _ (issued_to packet squash rat) next at in
          let same = guarded-some _ (issued_to packet squash rat) next at in
          rw same (
            saved-Binds packet written rat _ _ b (room valid)
              (renamed_table-MapsAll packet (table_after squash rat) real maps)
              (renamed_table-MapsAll packet rat.rat_prf real b.current))
    ]

-- The tables from reset on: every cycle fails no assertion of the table, an instruction has a checkpoint
-- of the table, and a squash goes back to one that was written.
pub data Reached : (ℕ → Bool) → Rat → Type 0 where
  reset : Reached none_written Rat.initial
  cycle :
      {written : ℕ → Bool}
      → {rat : Rat} → Reached written rat
      → (packet : IssuePacket) (squash : SquashInfo) (next : Rat)
      → (packet.valid ≡ true → packet.rob_entry.ckpt_id < ckpt_cap)
      → (squash.need_squash ≡ true → written squash.ckpt_id ≡ true)
      → tick packet squash rat ≡ some next
      → Reached (written_after packet written) next

reached-Binds : (written : ℕ → Bool) (rat : Rat) → Reached written rat → Binds written rat
reached-Binds _ _ reset = initial-Binds
reached-Binds _ _ (cycle {written} {rat} before packet squash next room back e) =
    tick-Binds packet squash written rat next (reached-Binds written rat before) room back e

-- In every table from reset on, each register but x0 is bound.
pub reached-MapsAll :
    (written : ℕ → Bool) (rat : Rat)
    → Reached written rat
    → (reg : ℕ) → 0 < reg
    → reg < 32
    → read_rat_prf rat reg ≢ invalid_phy
unfolding read_rat_prf
reached-MapsAll written rat reached = (reached-Binds written rat reached).current
