-- ===== src/Rs.antt =====
-- The reservation stations of src/include/RS.hpp and src/RS/RS.cpp.
pub mod Tick
use rv32im_simulator.Prelude.{ℕ, Bool, true, List}
use rv32im_simulator.Types.{Operation, op_invalid, Operand, invalid_phy}

-- `ReservationStation`.
pub record Station : Type 0 where
  pub op : Operation
  pub free : Bool
  pub src1 : Operand
  pub src2 : Operand
  pub rob_tag : ℕ

-- `AddressRS`, and so `LoadAddressRS` and `StoreAddressRS`, which add nothing to it.
pub record AddressStation : Type 0 where
  pub station : Station
  pub mem_index : ℕ

-- `StoreValueReservationStation`.
pub record StoreValueStation : Type 0 where
  pub free : Bool
  pub store_data : Operand
  pub rob_tag : ℕ
  pub mem_index : ℕ

-- `BranchReservationStation`.
pub record BranchStation : Type 0 where
  pub station : Station
  pub imm : ℕ
  pub pc : ℕ

-- `RSUnit`.
pub record RsUnit : Type 0 where
  pub integer_rs : List Station
  pub multiply_rs : List Station
  pub divide_rs : List Station
  pub load_rs : List AddressStation
  pub store_address_rs : List AddressStation
  pub store_value_rs : List StoreValueStation
  pub branch_rs : List BranchStation

abbrev pub no_operand : Operand
no_operand = record { tag = invalid_phy; imm = 0 }

-- A default-constructed station, which is free. Its operation is not read.
abbrev pub empty_station : Station
empty_station = record {
  op = op_invalid;
  free = true;
  src1 = no_operand;
  src2 = no_operand;
  rob_tag = 0xff;
}

abbrev pub empty_address_station : AddressStation
empty_address_station = record { station = empty_station; mem_index = 0 }

abbrev pub empty_branch_station : BranchStation
empty_branch_station = record { station = empty_station; imm = 0; pc = 0 }
