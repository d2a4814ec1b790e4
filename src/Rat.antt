-- ===== src/Rat.antt =====
-- The register alias table of src/include/RAT.hpp and src/RAT/RAT.cpp: the mapping of the 32
-- architectural registers, and one saved mapping per checkpoint.
pub mod Mapped
pub mod Rename
use rv32im_simulator.Prelude.{
  ℕ, zero, suc, ◌+◌, ◌-◌, Bool, true, false, ◌==◌, if◌then◌else◌, Option, none, some, List, [], ◌∷◌,
  get_or, set, replicate,
}
use rv32im_simulator.Types.{SquashInfo, invalid_phy}
use rv32im_simulator.Tags.{register_cap}
use rv32im_simulator.Packet.{IssuePacket}
use rv32im_simulator.Prf.{ckpt_cap}

pub record Rat : Type 0 where
  pub rat_prf : List ℕ
  pub rat_ckpt : List (List ℕ)

-- The mapping 0, 1, ..., of `count` registers from `first` on.
unfoldable pub identity : ℕ → ℕ → List ℕ
identity zero first = []
identity (suc count) first = first ∷ identity count (suc first)

-- `RAT::RAT()`: x0 has no register, x1 to x31 are bound to P1 to P31. The source leaves `ratCkpt`
-- unset; a checkpoint is read only after it has been written.
unfoldable pub initial : Rat
unfolding identity
initial = record {
  rat_prf = identity register_cap 0;
  rat_ckpt = replicate ckpt_cap (replicate register_cap invalid_phy);
}

unfoldable pub read_rat_prf : Rat → ℕ → ℕ
read_rat_prf rat reg = get_or rat.rat_prf reg invalid_phy

-- `none` is the failed assertion on `InvalidPhy`.
unfoldable pub set_rat_prf : ℕ → ℕ → Rat → Option Rat
set_rat_prf reg phy rat =
    if phy == invalid_phy then none else some (record rat { rat_prf = set rat.rat_prf reg phy })

-- `struct OperandInfo`.
pub record OperandInfo : Type 0 where
  pub ready : Bool
  pub value : ℕ
  pub phy_reg_index : ℕ

unfoldable pub read_operand : Rat → ℕ → OperandInfo
unfolding read_rat_prf
read_operand rat reg =
    if reg == 0
    then record { ready = true; value = 0; phy_reg_index = invalid_phy }
    else record { ready = false; value = 0; phy_reg_index = read_rat_prf rat reg }

unfoldable pub restore_rat_prf : List ℕ → Rat → Rat
restore_rat_prf snapshot rat = record rat { rat_prf = snapshot }

-- `RATSnapshot`, read at a checkpoint.
abbrev pub snapshot_at : Rat → ℕ → List ℕ
snapshot_at rat ckpt = get_or rat.rat_ckpt ckpt []

-- The issued instruction saves the mapping that holds after it, and takes effect on the table.
unfoldable pub rename : IssuePacket → Rat → Rat → Option Rat
unfolding set_rat_prf
rename packet old next =
    let ckpt = packet.rob_entry.ckpt_id in
    let dest = packet.rob_entry.dest in
    if packet.alloc_dest
    then set_rat_prf dest packet.phy
        (record next { rat_ckpt = set next.rat_ckpt ckpt (set old.rat_prf dest packet.phy) })
    else some (record next { rat_ckpt = set next.rat_ckpt ckpt old.rat_prf })

-- `RAT::tick`.
unfoldable pub tick : IssuePacket → SquashInfo → Rat → Option Rat
unfolding rename restore_rat_prf
tick packet squash old =
    let restored =
      if squash.need_squash then restore_rat_prf (snapshot_at old squash.ckpt_id) old else old in
    if packet.valid then rename packet old restored else some restored
