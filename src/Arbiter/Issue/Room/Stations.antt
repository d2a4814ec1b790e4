-- ===== src/Arbiter/Issue/Room/Stations.antt =====
-- The functions of `IssueArbiter` in src/StaticArbiter/StaticArbiter.cpp, one for each kind of station.
use rv32im_simulator.Prelude.{ℕ, Bool, true, false, ◌||◌, ◌⊎◌, inl, ◌≡◌, refl, arith}
use rv32im_simulator.Types.{Operation}
use rv32im_simulator.Packet.{IssuePacket}
use rv32im_simulator.Rs.{empty_station, empty_address_station, empty_branch_station}
use rv32im_simulator.Rs.Tick.{
  try_alloc_integer, try_alloc_multiply, try_alloc_divide, try_alloc_load, try_alloc_store_address,
  try_alloc_store_value, try_alloc_branch,
}
use rv32im_simulator.Prf.{is_free_list_empty, get_free_list_slot}
use rv32im_simulator.Decoder.{Uop}
use rv32im_simulator.Arbiter.Issue.{
  IssueInput, idle, renamed, empty_store_value, issue_integer_rs, issue_multiply, issue_divide,
  issue_u_and_j, issue_b, issue_load, issue_store, indirect_link, direct_link,
}
use rv32im_simulator.Arbiter.Issue.Room.{
  FreeAt, alloc-FreeAt, Placed, Holds, guarded-Holds, with_sources-Holds, Issued,
}

neither : {a b : Bool} → (a || b) ≡ false → (a ≡ false) × (b ≡ false)
neither e = ground arith

-- A packet that fills an integer station only.
only_integer :
    (input : IssueInput) (p : IssuePacket)
    → p.has_multiply ≡ false
    → p.has_divide ≡ false
    → p.has_load ≡ false
    → p.has_store ≡ false
    → p.has_branch ≡ false
    → FreeAt (λ x. x.free) input.rs.integer_rs empty_station p.integer_slot
    → Placed input p
only_integer input p m d l s b free = record {
  integer = λ e. free;
  multiply = λ e. cc;
  divide = λ e. cc;
  load = λ e. cc;
  store = λ e. cc;
  branch = λ e. cc;
}

module _ (input : IssueInput) (inst : Uop) (op : Operation) where
  pub idle-Issued : Issued input idle
  idle-Issued e = cc

  renamed_register :
      ((renamed input inst).alloc_dest ≡ false)
      ⊎ ((is_free_list_empty input.prf ≡ false)
          × ((renamed input inst).phy ≡ get_free_list_slot input.prf input.prf.head_seq))
  unfolding renamed
  renamed_register = ground arith

  pub integer-Issued :
      (has_rs2 imm_as_vk is_control : Bool)
      → Holds (Issued input) (issue_integer_rs input inst op has_rs2 imm_as_vk is_control)
  unfolding issue_integer_rs renamed try_alloc_integer indirect_link
  integer-Issued has_rs2 imm_as_vk true =
      guarded-Holds (Issued input) idle-Issued _ _ _ _ λ i full slot fed.
        with_sources-Holds (Issued input) _ _ _ λ x y. λ _. record {
          room = full;
          tagged = refl;
          register = renamed_register;
          placed =
              only_integer input _ refl refl refl refl refl
                (alloc-FreeAt (λ x. x.free) empty_station i input.rs.integer_rs slot);
          one_place = refl;
        }
  integer-Issued has_rs2 imm_as_vk false =
      guarded-Holds (Issued input) idle-Issued _ _ _ _ λ i full slot fed.
        with_sources-Holds (Issued input) _ _ _ λ x y. λ _. record {
          room = full;
          tagged = refl;
          register = renamed_register;
          placed =
              only_integer input _ refl refl refl refl refl
                (alloc-FreeAt (λ x. x.free) empty_station i input.rs.integer_rs slot);
          one_place = refl;
        }

  pub direct-Issued :
      (has_pc is_control : Bool)
      → Holds (Issued input) (issue_u_and_j input inst op has_pc is_control)
  unfolding Holds issue_u_and_j renamed try_alloc_integer direct_link
  direct-Issued has_pc true = guarded-Holds (Issued input) idle-Issued _ _ _ _ λ i full slot fed.
      λ _. record {
        room = full;
        tagged = refl;
        register = renamed_register;
        placed =
            only_integer input _ refl refl refl refl refl
              (alloc-FreeAt (λ x. x.free) empty_station i input.rs.integer_rs slot);
        one_place = refl;
      }
  direct-Issued has_pc false = guarded-Holds (Issued input) idle-Issued _ _ _ _ λ i full slot fed.
      λ _. record {
        room = full;
        tagged = refl;
        register = renamed_register;
        placed =
            only_integer input _ refl refl refl refl refl
              (alloc-FreeAt (λ x. x.free) empty_station i input.rs.integer_rs slot);
        one_place = refl;
      }

  pub multiply-Issued : Holds (Issued input) (issue_multiply input inst op)
  unfolding issue_multiply renamed try_alloc_multiply
  multiply-Issued = guarded-Holds (Issued input) idle-Issued _ _ _ _ λ i full slot fed.
      with_sources-Holds (Issued input) _ _ _ λ x y. λ _. record {
        room = full;
        tagged = refl;
        register = renamed_register;
        placed = record {
          integer = λ e. cc;
          multiply = λ e. alloc-FreeAt (λ x. x.free) empty_station i input.rs.multiply_rs slot;
          divide = λ e. cc;
          load = λ e. cc;
          store = λ e. cc;
          branch = λ e. cc;
        };
        one_place = refl;
      }

  pub divide-Issued : Holds (Issued input) (issue_divide input inst op)
  unfolding issue_divide renamed try_alloc_divide
  divide-Issued = guarded-Holds (Issued input) idle-Issued _ _ _ _ λ i full slot fed.
      with_sources-Holds (Issued input) _ _ _ λ x y. λ _. record {
        room = full;
        tagged = refl;
        register = renamed_register;
        placed = record {
          integer = λ e. cc;
          multiply = λ e. cc;
          divide = λ e. alloc-FreeAt (λ x. x.free) empty_station i input.rs.divide_rs slot;
          load = λ e. cc;
          store = λ e. cc;
          branch = λ e. cc;
        };
        one_place = refl;
      }

  pub branch-Issued : Holds (Issued input) (issue_b input inst op)
  unfolding issue_b try_alloc_branch
  branch-Issued = guarded-Holds (Issued input) idle-Issued _ _ _ _ λ i full slot fed.
      with_sources-Holds (Issued input) _ _ _ λ x y. λ _. record {
        room = full;
        tagged = refl;
        register = inl refl;
        placed = record {
          integer = λ e. cc;
          multiply = λ e. cc;
          divide = λ e. cc;
          load = λ e. cc;
          store = λ e. cc;
          branch = λ e.
              (alloc-FreeAt (λ x. x.station.free) empty_branch_station i input.rs.branch_rs slot);
        };
        one_place = refl;
      }

  pub load-Issued :
      (n_bytes : ℕ) (is_unsigned : Bool)
      → Holds (Issued input) (issue_load input inst op n_bytes is_unsigned)
  unfolding issue_load renamed try_alloc_load
  load-Issued n_bytes is_unsigned =
      guarded-Holds (Issued input) idle-Issued _ _ _ _ λ i full slot fed.
        with_sources-Holds (Issued input) _ _ _ λ x y. λ _. record {
          room = (neither full).0;
          tagged = refl;
          register = renamed_register;
          placed = record {
            integer = λ e. cc;
            multiply = λ e. cc;
            divide = λ e. cc;
            load = λ e. (
              (alloc-FreeAt (λ x. x.station.free) empty_address_station i input.rs.load_rs slot),
              (neither full).1,
            );
            store = λ e. cc;
            branch = λ e. cc;
          };
          one_place = refl;
        }

  pub store-Issued : (n_bytes : ℕ) → Holds (Issued input) (issue_store input inst op n_bytes)
  unfolding issue_store try_alloc_store_address try_alloc_store_value
  store-Issued n_bytes = guarded-Holds (Issued input) idle-Issued _ _ _ _ λ i full slot fed.
      guarded-Holds (Issued input) idle-Issued _ _ _ _ λ k _ value_slot _.
        with_sources-Holds (Issued input) _ _ _ λ x y. λ _. record {
          room = (neither full).0;
          tagged = refl;
          register = inl refl;
          placed = record {
            integer = λ e. cc;
            multiply = λ e. cc;
            divide = λ e. cc;
            load = λ e. cc;
            store = λ e. (
              (alloc-FreeAt (λ x. x.station.free) empty_address_station i input.rs.store_address_rs
                  slot),
              (alloc-FreeAt (λ x. x.free) empty_store_value k input.rs.store_value_rs value_slot),
              (neither full).1,
            );
            branch = λ e. cc;
          };
          one_place = refl;
        }
