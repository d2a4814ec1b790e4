-- ===== src/Buffer/Age.antt =====
-- The ages of the results in an output buffer, and the result that it offers.
use mathlib.Core.List.{Mem, Mem-prop, mem-cons, mem-cons_of_mem}
use mathlib.Core.Logic.Or
use rv32im_simulator.Prelude.{
  ℕ, ◌≤◌, Bool, true, false, Bool-cases, Option, none, some, List, [], ◌∷◌, ◌≡◌, refl, inl, inr,
  arith,
}
use rv32im_simulator.Tags.{is_older}
use rv32im_simulator.Tags.Order.{age, InWindow, is_older-age}
use rv32im_simulator.Buffer.{Tagged, Buffer, scan, oldest}
use rv32im_simulator.Buffer.Entries.{entries}

abbrev pub All {ℓ κ} : {A : Type ℓ} → (A → Type κ) → List A → Type κ
All P [] = Unit
All P (x ∷ xs) = P x × All P xs

module _ {ℓ} {A : Type ℓ} ⦃t : Tagged A⦄ (base : ℕ) where
  abbrev pub InFlight : A → Type 0
  InFlight x = InWindow base (t.rob_tag x)

  abbrev pub ages : A → ℕ
  ages x = age base (t.rob_tag x)

  -- `x` is what the loop over `b` ends with from the candidate `best`, and it is as old as any.
  record Winner (best : A) (b : Buffer A) : Type ℓ where
    x : A
    found : scan (some best) b ≡ some x
    member : Mem x (best ∷ entries b)
    flying : InFlight x
    below : ages x ≤ ages best
    least : All (λ y. ages x ≤ ages y) (entries b)

  mem_second : {x y z : A} {l : List A} → Mem x (y ∷ l) → Mem x (y ∷ z ∷ l)
  mem_second m =
      Or.elim Mem-prop (mem-cons.0 m) (λ e. mem-cons.1 (Or.inl e))
        (λ k. mem-cons_of_mem _ (mem-cons_of_mem _ k))

  -- The entry replaces the candidate.
  Winner-take :
      (best x : A) (rest : Buffer A)
      → is_older (t.rob_tag x) (t.rob_tag best) ≡ true
      → InFlight x
      → InFlight best
      → Winner x rest
      → Winner best (record { valid = true; result = x } ∷ rest)
  unfolding scan entries
  Winner-take best x rest o hx hb w = record {
    x = w.x;
    found = rw o w.found;
    member = mem-cons_of_mem _ w.member;
    flying = w.flying;
    below = ground (arith, is_older-age base (t.rob_tag x) (t.rob_tag best) hx hb, w.below);
    least = (w.below, w.least);
  }

  -- The candidate stays.
  Winner-keep :
      (best x : A) (rest : Buffer A)
      → is_older (t.rob_tag x) (t.rob_tag best) ≡ false
      → InFlight x
      → InFlight best
      → Winner best rest
      → Winner best (record { valid = true; result = x } ∷ rest)
  unfolding scan entries
  Winner-keep best x rest o hx hb w = record {
    x = w.x;
    found = rw o w.found;
    member = mem_second w.member;
    flying = w.flying;
    below = w.below;
    least =
        (ground (arith, is_older-age base (t.rob_tag x) (t.rob_tag best) hx hb, w.below), w.least);
  }

  Winner-step :
      (best : A) (rest : Buffer A) (used : Bool) (x : A)
      → ((other : A) → InFlight other → All InFlight (entries rest) → Winner other rest)
      → InFlight best
      → All InFlight (entries (record { valid = used; result = x } ∷ rest))
      → Winner best (record { valid = used; result = x } ∷ rest)
  unfolding scan entries
  Winner-step best rest true x ih h all =
      elim (Bool-cases (is_older (t.rob_tag x) (t.rob_tag best))) [
        | inl older ↦ Winner-take best x rest older all.0 h (ih x all.0 all.1)
        | inr younger ↦ Winner-keep best x rest younger all.0 h (ih best h all.1)
      ]
  Winner-step best rest false x ih h all =
      let w = ih best h all in
      record {
        x = w.x;
        found = w.found;
        member = w.member;
        flying = w.flying;
        below = w.below;
        least = w.least;
      }

  winner : (best : A) (b : Buffer A) → InFlight best → All InFlight (entries b) → Winner best b
  unfolding scan entries
  winner best [] h all = record {
    x = best;
    found = refl;
    member = mem-cons.1 (Or.inl refl);
    flying = h;
    below = omega arith;
    least = tt;
  }
  winner best (slot ∷ rest) h all =
      Winner-step best rest slot.valid slot.result (λ other. winner other rest) h all

  no_older :
      (x : A) (xs : List A)
      → InFlight x
      → All InFlight xs
      → All (λ y. ages x ≤ ages y) xs
      → All (λ y. is_older (t.rob_tag y) (t.rob_tag x) ≡ false) xs
  no_older x [] h all le = tt
  no_older x (y ∷ ys) h all le = (
    ground (arith, is_older-age base (t.rob_tag y) (t.rob_tag x), le.0, all.0, h),
    no_older x ys h all.1 le.1,
  )

  -- The oldest result of a buffer: `none` only where the buffer is empty, else a result that it
  -- holds and than which it holds no older one.
  pub data IsOldest (b : Buffer A) : Option A → Type ℓ where
    nothing : entries b ≡ [] → IsOldest b none
    found :
        (x : A)
        → Mem x (entries b)
        → All (λ y. is_older (t.rob_tag y) (t.rob_tag x) ≡ false) (entries b)
        → IsOldest b (some x)

  first_used :
      (rest : Buffer A) (x : A)
      → InFlight x
      → All InFlight (entries rest)
      → IsOldest (record { valid = true; result = x } ∷ rest) (scan (some x) rest)
  unfolding entries
  first_used rest x h all =
      let w = winner x rest h all in
      rw w.found
        (found w.x w.member (no_older w.x (x ∷ entries rest) w.flying (h, all) (w.below, w.least)))

  skip_free :
      (rest : Buffer A) (x : A) {o : Option A}
      → IsOldest rest o
      → IsOldest (record { valid = false; result = x } ∷ rest) o
  unfolding entries
  skip_free rest x (nothing e) = nothing e
  skip_free rest x (found y m le) = found y m le

  IsOldest-step :
      (rest : Buffer A) (used : Bool) (x : A)
      → IsOldest rest (scan none rest)
      → All InFlight (entries (record { valid = used; result = x } ∷ rest))
      → IsOldest
          (record { valid = used; result = x } ∷ rest)
          (scan none (record { valid = used; result = x } ∷ rest))
  unfolding scan entries
  IsOldest-step rest true x ih all = first_used rest x all.0 all.1
  IsOldest-step rest false x ih all = skip_free rest x ih

  tail-All :
      (rest : Buffer A) (used : Bool) (x : A)
      → All InFlight (entries (record { valid = used; result = x } ∷ rest))
      → All InFlight (entries rest)
  unfolding entries
  tail-All rest true x all = all.1
  tail-All rest false x all = all

  -- When the tags of all results in a buffer are in flight, the buffer offers a result that it
  -- holds and than which none is older, and none only when it is empty.
  pub oldest-IsOldest : (b : Buffer A) → All InFlight (entries b) → IsOldest b (oldest b)
  unfolding oldest scan entries
  oldest-IsOldest [] all = nothing refl
  oldest-IsOldest (slot ∷ rest) all =
      IsOldest-step rest slot.valid slot.result
        (oldest-IsOldest rest (tail-All rest slot.valid slot.result all)) all
