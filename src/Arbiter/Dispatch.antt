-- ===== src/Arbiter/Dispatch.antt =====
-- `DispatchArbiter::arbitrate`: for each unit with room the oldest station whose operands are ready.
use rv32im_simulator.Prelude.{
  ℕ, suc, Bool, true, false, not, ◌&&◌, if◌then◌else◌, Option, none, some, List, [], ◌∷◌,
}
use rv32im_simulator.Types.{
  SquashInfo, DispatchInfo, DispatchAguInfo, RsType, integer, load_rs, store_addr,
}
use rv32im_simulator.Tags.{is_older, survives}
use rv32im_simulator.Rs.{Station, BranchStation, RsUnit}
use rv32im_simulator.Rs.Tick.{DispatchBus}
use rv32im_simulator.Prf.{Prf, is_operand_ready}
use rv32im_simulator.Alu
use rv32im_simulator.Alu.{Alu}
use rv32im_simulator.Agu
use rv32im_simulator.Agu.{Agu}
use rv32im_simulator.Bru
use rv32im_simulator.Bru.{Bru}
use rv32im_simulator.Mul
use rv32im_simulator.Mul.{Mul}
use rv32im_simulator.Div
use rv32im_simulator.Div.{Div}

-- `best`, `bestTag` and `bestType` while `foundAny` holds.
pub record Choice : Type 0 where
  pub best : ℕ
  pub best_tag : ℕ
  pub best_type : RsType

unfoldable is_better : ℕ → Option Choice → Bool
is_better tag none = true
is_better tag (some choice) = is_older tag choice.best_tag

-- The loop over one kind of station.
module _ {A : Type 0} (ready : A → Bool) (tag_of : A → ℕ) (kind : RsType) where
  unfoldable pub choose : ℕ → Option Choice → List A → Option Choice
  unfolding is_better
  choose i found [] = found
  choose i found (station ∷ rest) =
      choose (suc i)
        (if ready station && is_better (tag_of station) found
          then some (record { best = i; best_tag = tag_of station; best_type = kind })
          else found)
        rest

-- A station is taken and both its operands are ready.
unfoldable pub is_ready : Prf → Station → Bool
is_ready prf x = not x.free && is_operand_ready prf x.src1 && is_operand_ready prf x.src2

-- A store address needs its first operand only.
unfoldable pub is_address_ready : Prf → Station → Bool
is_address_ready prf x = not x.free && is_operand_ready prf x.src1

abbrev pub no_dispatch : DispatchInfo
no_dispatch = record { valid = false; rs_index = 0; rob_tag = 0 }

unfoldable grant : SquashInfo → Option Choice → DispatchInfo
grant squash none = no_dispatch
grant squash (some choice) = record {
  valid = survives squash choice.best_tag;
  rs_index = choice.best;
  rob_tag = choice.best_tag;
}

unfoldable grant_agu : SquashInfo → Option Choice → DispatchAguInfo
grant_agu squash none = record { valid = false; rs_index = 0; rob_tag = 0; rs_type = integer }
grant_agu squash (some choice) = record {
  valid = survives squash choice.best_tag;
  rs_index = choice.best;
  rob_tag = choice.best_tag;
  rs_type = choice.best_type;
}

unfoldable choose_stations : Prf → List Station → Option Choice
unfolding choose is_ready
choose_stations prf = choose (is_ready prf) (λ x. x.rob_tag) integer 0 none

unfoldable choose_branch : Prf → List BranchStation → Option Choice
unfolding choose is_ready
choose_branch prf = choose (λ x. is_ready prf x.station) (λ x. x.station.rob_tag) integer 0 none

-- Loads first, then store addresses that are older than the best load.
unfoldable choose_address : Prf → RsUnit → Option Choice
unfolding choose is_ready is_address_ready
choose_address prf rs =
    choose (λ x. is_address_ready prf x.station) (λ x. x.station.rob_tag) store_addr 0
      (choose (λ x. is_ready prf x.station) (λ x. x.station.rob_tag) load_rs 0 none rs.load_rs)
      rs.store_address_rs

abbrev pub unless {ℓ} : {A : Type ℓ} → Bool → Option A → Option A
unless busy found = if busy then none else found

-- The snapshots of the execution units that `arbitrate` takes.
pub record Units : Type 0 where
  pub alu : Alu
  pub agu : Agu
  pub bru : Bru
  pub mul : Mul
  pub div : Div

unfoldable pub arbitrate : RsUnit → Units → Prf → SquashInfo → DispatchBus
unfolding choose_stations choose_branch choose_address grant grant_agu
arbitrate rs units prf squash = record {
  alu = grant squash (unless (Alu.is_full units.alu) (choose_stations prf rs.integer_rs));
  bru = grant squash (unless (Bru.is_full units.bru) (choose_branch prf rs.branch_rs));
  mul = grant squash (unless (Mul.is_full units.mul) (choose_stations prf rs.multiply_rs));
  div = grant squash (unless (not (Div.can_accept units.div)) (choose_stations prf rs.divide_rs));
  agu = grant_agu squash (unless (Agu.is_full units.agu) (choose_address prf rs));
}
