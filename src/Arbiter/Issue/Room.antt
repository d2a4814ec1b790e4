-- ===== src/Arbiter/Issue/Room.antt =====
-- What `IssueArbiter` of src/StaticArbiter/StaticArbiter.cpp has checked when it issues an
-- instruction.
pub mod Stations
use mathlib.Core.Option
use rv32im_simulator.Prelude.{
  ℕ, suc, ◌+◌, ◌<◌, Bool, true, false, ◌||◌, Option, none, some, List, [], ◌∷◌, ◌⊎◌, inl, inr, ◌≡◌,
  refl, length, get_or, arith, Bool-cases,
}
use rv32im_simulator.Types.{Operation, Operand}
use rv32im_simulator.Packet.{IssuePacket}
use rv32im_simulator.Rob
use rv32im_simulator.Rs.{empty_station, empty_address_station, empty_branch_station}
use rv32im_simulator.Rs.Tick.{
  first_free, try_alloc_integer, try_alloc_multiply, try_alloc_divide, try_alloc_load,
  try_alloc_store_address, try_alloc_store_value, try_alloc_branch,
}
use rv32im_simulator.Prf.{is_free_list_empty, get_free_list_slot}
use rv32im_simulator.Lq
use rv32im_simulator.Sq
use rv32im_simulator.Decoder.{Uop}
use rv32im_simulator.Arbiter.Issue.{
  IssueInput, idle, guarded, with_sources, renamed, starved, empty_store_value, issue_integer_rs,
  issue_multiply, issue_divide, issue_u_and_j, issue_b, issue_load, issue_store, indirect_link,
  direct_link,
}

-- A slot inside the array that holds a free station.
abbrev pub FreeAt :
    {A : Type 0} (is_free : A → Bool) (stations : List A) (default : A) (slot : ℕ) → Type 0
FreeAt is_free stations default slot =
    (slot < length stations) × (is_free (get_or stations slot default) ≡ true)

module _ {A : Type 0} (is_free : A → Bool) (default : A) where
  first_free-FreeAt :
      (i slot : ℕ) (stations : List A)
      → first_free is_free i stations ≡ some slot
      → (k : ℕ) × (slot ≡ i + k) × FreeAt is_free stations default k
  unfolding first_free
  first_free-FreeAt i slot [] e = cc
  first_free-FreeAt i slot (x ∷ rest) e = elim (Bool-cases (is_free x)) [
    | inl free ↦
        let same = Option.some-injective i slot (rw free at e) in
        (0, omega (arith, same), (omega arith, free))
    | inr used ↦
        let later = first_free-FreeAt (suc i) slot rest (rw used at e) in
        (suc later.0, omega (arith, later.1), (omega (arith, later.2.0), later.2.1))
  ]

  pub alloc-FreeAt :
      (slot : ℕ) (stations : List A)
      → first_free is_free 0 stations ≡ some slot
      → FreeAt is_free stations default slot
  alloc-FreeAt slot stations e =
      let found = first_free-FreeAt 0 slot stations e in
      let same : found.0 ≡ slot = omega (arith, found.1) in rw same at found.2

-- Every station that the packet fills was free, and a load or a store has a place in its queue.
pub record Placed (input : IssueInput) (p : IssuePacket) : Type 0 where
  pub integer :
      p.has_integer ≡ true → FreeAt (λ x. x.free) input.rs.integer_rs empty_station p.integer_slot
  pub multiply :
      p.has_multiply ≡ true
      → FreeAt (λ x. x.free) input.rs.multiply_rs empty_station p.multiply_slot
  pub divide :
      p.has_divide ≡ true → FreeAt (λ x. x.free) input.rs.divide_rs empty_station p.divide_slot
  pub load :
      p.has_load ≡ true
      → FreeAt (λ x. x.station.free) input.rs.load_rs empty_address_station p.load_slot
        × (Lq.is_full input.lq ≡ false)
  pub store :
      p.has_store ≡ true
      → FreeAt
          (λ x. x.station.free)
          input.rs.store_address_rs
          empty_address_station
          p.store_addr_slot
        × FreeAt (λ x. x.free) input.rs.store_value_rs empty_store_value p.store_value_slot
        × (Sq.is_full input.sq ≡ false)
  pub branch :
      p.has_branch ≡ true
      → FreeAt (λ x. x.station.free) input.rs.branch_rs empty_branch_station p.branch_slot

abbrev one_if : Bool → ℕ
one_if true = 1
one_if false = 0

-- The number of kinds of stations that a packet fills.
abbrev stations_filled : IssuePacket → ℕ
stations_filled p =
    one_if p.has_integer
    + one_if p.has_multiply
    + one_if p.has_divide
    + one_if p.has_load
    + one_if p.has_store
    + one_if p.has_branch

-- What holds of a packet that is issued to a station.
pub record Sound (input : IssueInput) (p : IssuePacket) : Type 0 where
  pub room : Rob.is_full input.rob ≡ false
  pub tagged : p.rob_tag ≡ input.rob.next_tag
  pub register :
      (p.alloc_dest ≡ false)
      ⊎ ((is_free_list_empty input.prf ≡ false)
          × (p.phy ≡ get_free_list_slot input.prf input.prf.head_seq))
  pub placed : Placed input p
  pub one_place : stations_filled p ≡ 1

-- A property of the packet, unless an assertion failed.
pub Holds : (IssuePacket → Type 0) → Option IssuePacket → Type 0
Holds P none = Unit
Holds P (some p) = P p

pub Holds-intro : (P : IssuePacket → Type 0) (p : IssuePacket) → P p → Holds P (some p)
unfolding Holds
Holds-intro P p h = h

pub Holds-some :
    (P : IssuePacket → Type 0) (o : Option IssuePacket) (p : IssuePacket)
    → Holds P o
    → o ≡ some p
    → P p
unfolding Holds
Holds-some P o p h e = rw e at h

module _ (P : IssuePacket → Type 0) (at_idle : P idle) where
  pub guarded-Holds :
      (full starved : Bool) (slot : Option ℕ) (build : ℕ → Option IssuePacket)
      → ((i : ℕ) → full ≡ false → slot ≡ some i → starved ≡ false → Holds P (build i))
      → Holds P (guarded full slot starved build)
  unfolding guarded Holds
  guarded-Holds true starved slot build h = at_idle
  guarded-Holds false starved none build h = at_idle
  guarded-Holds false true (some i) build h = at_idle
  guarded-Holds false false (some i) build h = h i refl refl refl

pub with_sources-Holds :
    (P : IssuePacket → Type 0) (x y : Option Operand) (build : Operand → Operand → IssuePacket)
    → ((a b : Operand) → P (build a b))
    → Holds P (with_sources x y build)
unfolding with_sources Holds
with_sources-Holds P none y build h = tt
with_sources-Holds P (some a) none build h = tt
with_sources-Holds P (some a) (some b) build h = h a b

abbrev pub Issued : IssueInput → IssuePacket → Type 0
Issued input p = p.valid ≡ true → Sound input p
