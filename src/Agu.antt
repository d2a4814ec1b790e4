-- ===== src/Agu.antt =====
-- The address unit of src/include/AGU.hpp and src/AGU/AGU.cpp.
use rv32im_simulator.Prelude.{ℕ, Bool, if◌then◌else◌, none, some, add32, get_or}
use rv32im_simulator.Types.{load_rs, SquashInfo, DispatchAguInfo}
use rv32im_simulator.Buffer
use rv32im_simulator.Buffer.{Buffer, Tagged}
use rv32im_simulator.Prf.{Prf, get_operand_value}
use rv32im_simulator.Rs.{RsUnit, AddressStation, empty_address_station}

-- `AddressCalculateResult`.
pub record AddressResult : Type 0 where
  pub value : ℕ
  pub rob_tag : ℕ
  pub mem_index : ℕ

instance abbrev pub agu_tagged : Tagged AddressResult
agu_tagged = record { rob_tag = λ result. result.rob_tag }

abbrev pub Agu : Type 0
Agu = Buffer AddressResult

unfoldable pub push : ℕ → ℕ → ℕ → ℕ → Agu → Agu
push op1 op2 tag mem_index =
    Buffer.push (record { value = add32 op1 op2; rob_tag = tag; mem_index = mem_index })

unfoldable pub head_value : Agu → ℕ
head_value agu = elim (Buffer.oldest agu) [ none ↦ 0 | some best ↦ best.value ]

unfoldable pub head_rob_tag : Agu → ℕ
head_rob_tag agu = elim (Buffer.oldest agu) [ none ↦ 0 | some best ↦ best.rob_tag ]

unfoldable pub head_mem_index : Agu → ℕ
head_mem_index agu = elim (Buffer.oldest agu) [ none ↦ 0 | some best ↦ best.mem_index ]

unfoldable pub is_full : Agu → Bool
is_full agu = Buffer.is_full agu

unfoldable pub is_empty : Agu → Bool
is_empty agu = Buffer.is_empty agu

unfoldable pub remove : ℕ → Agu → Agu
remove tag = Buffer.remove tag

unfoldable pub flush : ℕ → Agu → Agu
flush tag = Buffer.flush tag

pub record AguInput : Type 0 where
  pub squash : SquashInfo
  pub rs : RsUnit
  pub prf : Prf
  pub dispatch : DispatchAguInfo

-- The station that the dispatch names: any type but a load reads the store-address stations.
unfoldable pub station_of : AguInput → AddressStation
station_of input = elim input.dispatch.rs_type [
  | load_rs ↦ get_or input.rs.load_rs input.dispatch.rs_index empty_address_station
  | _ ↦ get_or input.rs.store_address_rs input.dispatch.rs_index empty_address_station
]

unfoldable pub accept : AguInput → Agu → Agu
unfolding station_of
accept input agu =
    let rs = station_of input in
    if input.dispatch.valid
    then push (get_operand_value input.prf rs.station.src1)
        (get_operand_value input.prf rs.station.src2) input.dispatch.rob_tag rs.mem_index agu
    else agu

-- `AGU::tick`. The head leaves every cycle; it is that of the state before the tick.
unfoldable pub tick : AguInput → Agu → Agu
unfolding accept
tick input agu =
    let accepted = accept input agu in
    let sent = if is_empty agu then accepted else remove (head_rob_tag agu) accepted in
    if input.squash.need_squash then flush input.squash.squash_tag sent else sent
