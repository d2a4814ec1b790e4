-- ===== src/Rs/Tick.antt =====
-- The allocation searches and `RSUnit::tick` of src/RS/RS.cpp.
use rv32im_simulator.Prelude.{
  ℕ, suc, Bool, true, false, not, ◌&&◌, if◌then◌else◌, Option, none, some, List, [], ◌∷◌, get_or,
  set,
}
use rv32im_simulator.Types.{SquashInfo, DispatchInfo, DispatchAguInfo, RsType, load_rs}
use rv32im_simulator.Tags.{is_older}
use rv32im_simulator.Packet.{IssuePacket}
use rv32im_simulator.Prf.{Prf, is_operand_ready}
use rv32im_simulator.Rs.{
  Station, AddressStation, StoreValueStation, BranchStation, RsUnit, no_operand, empty_station,
  empty_address_station, empty_branch_station,
}

-- The index of the first free station, -1 (`none`) where all are taken.
module _ {A : Type 0} (is_free : A → Bool) where
  unfoldable pub first_free : ℕ → List A → Option ℕ
  first_free i [] = none
  first_free i (station ∷ rest) =
      let later = first_free (suc i) rest in if is_free station then some i else later

unfoldable pub try_alloc_integer : RsUnit → Option ℕ
unfolding first_free
try_alloc_integer rs = first_free (λ x. x.free) 0 rs.integer_rs

unfoldable pub try_alloc_multiply : RsUnit → Option ℕ
unfolding first_free
try_alloc_multiply rs = first_free (λ x. x.free) 0 rs.multiply_rs

unfoldable pub try_alloc_divide : RsUnit → Option ℕ
unfolding first_free
try_alloc_divide rs = first_free (λ x. x.free) 0 rs.divide_rs

unfoldable pub try_alloc_load : RsUnit → Option ℕ
unfolding first_free
try_alloc_load rs = first_free (λ x. x.station.free) 0 rs.load_rs

unfoldable pub try_alloc_store_address : RsUnit → Option ℕ
unfolding first_free
try_alloc_store_address rs = first_free (λ x. x.station.free) 0 rs.store_address_rs

unfoldable pub try_alloc_store_value : RsUnit → Option ℕ
unfolding first_free
try_alloc_store_value rs = first_free (λ x. x.free) 0 rs.store_value_rs

unfoldable pub try_alloc_branch : RsUnit → Option ℕ
unfolding first_free
try_alloc_branch rs = first_free (λ x. x.station.free) 0 rs.branch_rs

-- The three ways in which the source empties a station: with both operands, with the first one only
-- (a store address), or with none (a store value).
abbrev clear_station : Station → Station
clear_station x = record x { free = true; src1 = no_operand; src2 = no_operand }

abbrev clear_address : AddressStation → AddressStation
clear_address x = let station = x.station in record x { station = clear_station station }

abbrev clear_store_address : AddressStation → AddressStation
clear_store_address x =
    let station = x.station in
    record x { station = record station { free = true; src1 = no_operand } }

abbrev clear_branch : BranchStation → BranchStation
clear_branch x = let station = x.station in record x { station = clear_station station }

abbrev clear_store_value : StoreValueStation → StoreValueStation
clear_store_value x = record x { free = true }

-- A station array after a change at one index.
module _ {A : Type 0} where
  abbrev change_at : (A → A) → A → ℕ → List A → List A
  change_at f d index xs = set xs index (f (get_or xs index d))

  -- The squash loops: where the entry before the tick is taken and younger than the squash, the entry
  -- of the next state is emptied.
  unfoldable squash_all : (A → Bool) → (A → ℕ) → (A → A) → ℕ → List A → List A → List A
  squash_all is_free tag clear sq_tag [] next = next
  squash_all is_free tag clear sq_tag (o ∷ old) [] = []
  squash_all is_free tag clear sq_tag (o ∷ old) (n ∷ next) =
      (if not (is_free o) && is_older sq_tag (tag o) then clear n else n)
      ∷ squash_all is_free tag clear sq_tag old next

-- `DispatchBus`.
pub record DispatchBus : Type 0 where
  pub alu : DispatchInfo
  pub bru : DispatchInfo
  pub mul : DispatchInfo
  pub div : DispatchInfo
  pub agu : DispatchAguInfo

unfoldable pub issue : IssuePacket → RsUnit → RsUnit
issue p next =
    if not p.valid
    then next
    else if p.has_integer
    then record next { integer_rs = set next.integer_rs p.integer_slot p.integer_rs }
    else if p.has_multiply
    then record next { multiply_rs = set next.multiply_rs p.multiply_slot p.multiply_rs }
    else if p.has_divide
    then record next { divide_rs = set next.divide_rs p.divide_slot p.divide_rs }
    else if p.has_load
    then record next { load_rs = set next.load_rs p.load_slot p.load_rs }
    else if p.has_store
    then record next {
      store_address_rs = set next.store_address_rs p.store_addr_slot p.store_addr_rs;
      store_value_rs = set next.store_value_rs p.store_value_slot p.store_value_rs;
    }
    else if p.has_branch
    then record next { branch_rs = set next.branch_rs p.branch_slot p.branch_rs }
    else next

abbrev change_if {ℓ} : {A : Type ℓ} → Bool → A → A → A
change_if test changed same = if test then changed else same

abbrev is_load_type : RsType → Bool
is_load_type load_rs = true
is_load_type _ = false

-- A dispatched station is released.
unfoldable pub release : DispatchBus → RsUnit → RsUnit
release bus next = record {
  integer_rs =
      change_if bus.alu.valid
        (change_at clear_station empty_station bus.alu.rs_index next.integer_rs) next.integer_rs;
  multiply_rs =
      change_if bus.mul.valid
        (change_at clear_station empty_station bus.mul.rs_index next.multiply_rs) next.multiply_rs;
  divide_rs =
      change_if bus.div.valid
        (change_at clear_station empty_station bus.div.rs_index next.divide_rs) next.divide_rs;
  load_rs =
      change_if (bus.agu.valid && is_load_type bus.agu.rs_type)
        (change_at clear_address empty_address_station bus.agu.rs_index next.load_rs) next.load_rs;
  store_address_rs =
      change_if (bus.agu.valid && not (is_load_type bus.agu.rs_type))
        (change_at clear_store_address empty_address_station bus.agu.rs_index next.store_address_rs)
        next.store_address_rs;
  store_value_rs = next.store_value_rs;
  branch_rs =
      change_if bus.bru.valid
        (change_at clear_branch empty_branch_station bus.bru.rs_index next.branch_rs)
        next.branch_rs;
}

-- A store value whose operand is ready has been written to its store in this cycle.
unfoldable release_values :
    Prf → List StoreValueStation → List StoreValueStation → List StoreValueStation
release_values prf [] next = next
release_values prf (o ∷ old) [] = []
release_values prf (o ∷ old) (n ∷ next) =
    (if not o.free && is_operand_ready prf o.store_data then clear_store_value n else n)
    ∷ release_values prf old next

unfoldable squash_stations : ℕ → RsUnit → RsUnit → RsUnit
unfolding squash_all
squash_stations sq_tag old next = record {
  integer_rs =
      squash_all (λ x. x.free) (λ x. x.rob_tag) clear_station sq_tag old.integer_rs next.integer_rs;
  multiply_rs =
      squash_all (λ x. x.free) (λ x. x.rob_tag) clear_station sq_tag old.multiply_rs
        next.multiply_rs;
  divide_rs =
      squash_all (λ x. x.free) (λ x. x.rob_tag) clear_station sq_tag old.divide_rs next.divide_rs;
  load_rs =
      squash_all (λ x. x.station.free) (λ x. x.station.rob_tag) clear_address sq_tag old.load_rs
        next.load_rs;
  store_address_rs =
      squash_all (λ x. x.station.free) (λ x. x.station.rob_tag) clear_store_address sq_tag
        old.store_address_rs next.store_address_rs;
  store_value_rs =
      squash_all (λ x. x.free) (λ x. x.rob_tag) clear_store_value sq_tag old.store_value_rs
        next.store_value_rs;
  branch_rs =
      squash_all (λ x. x.station.free) (λ x. x.station.rob_tag) clear_branch sq_tag old.branch_rs
        next.branch_rs;
}

unfoldable pub tick : IssuePacket → DispatchBus → SquashInfo → Prf → RsUnit → RsUnit
unfolding issue release release_values squash_stations
tick packet bus squash prf old =
    let released = release bus (issue packet old) in
    let written = record released {
      store_value_rs = release_values prf old.store_value_rs released.store_value_rs;
    } in
    if squash.need_squash then squash_stations squash.squash_tag old written else written
