-- ===== src/Buffer/Entries.antt =====
-- The output buffer as the list of the results that it holds.
use mathlib.Core.List.{Perm}
use mathlib.Core.List.Perm
use rv32im_simulator.Prelude.{
  ℕ, Bool, true, false, ◌==◌, if◌then◌else◌, List, [], ◌∷◌, ◌≡◌, refl, ◌↔◌, inl, inr, Bool-cases,
  arith,
}
use rv32im_simulator.Tags.{is_older}
use rv32im_simulator.Buffer.{Tagged, Buffer, push, is_full, is_empty, remove, flush}

module _ {ℓ} {A : Type ℓ} where
  unfoldable pub entries : Buffer A → List A
  entries [] = []
  entries (slot ∷ rest) = if slot.valid then slot.result ∷ entries rest else entries rest

  -- The results that satisfy a test, in order.
  unfoldable pub keep : (A → Bool) → List A → List A
  keep p [] = []
  keep p (x ∷ xs) = if p x then x ∷ keep p xs else keep p xs

  -- A buffer with a free slot takes a result and keeps all the others.
  entries-push :
      (x : A) (b : Buffer A) → is_full b ≡ false → Perm (entries (push x b)) (x ∷ entries b)
  unfolding entries push is_full
  entries-push x [] h = cc
  entries-push x (slot ∷ rest) h = elim (Bool-cases slot.valid) [
    | inl used ↦
        rw used (
          Perm.trans (Perm.cons slot.result (entries-push x rest (ground arith))) (Perm.swap _ _ _))
    | inr free ↦ rw free (Perm.refl _)
  ]

  pub push-full : (x : A) (b : Buffer A) → is_full b ≡ true → push x b ≡ b
  unfolding push is_full
  push-full x [] h = refl
  push-full x (slot ∷ rest) h = ground (arith, push-full x rest)

  is_empty_iff : (b : Buffer A) → (is_empty b ≡ true) ↔ (entries b ≡ [])
  unfolding is_empty entries
  is_empty_iff [] = (λ _. refl, λ _. refl)
  is_empty_iff (slot ∷ rest) =
      let ih = is_empty_iff rest in (λ h. ground (arith, ih), λ h. ground (arith, ih))

module _ {ℓ} {A : Type ℓ} ⦃t : Tagged A⦄ where
  -- A squash keeps exactly the results of the instructions older than its tag, in their order.
  pub entries-flush :
      (tag : ℕ) (b : Buffer A)
      → entries (flush tag b) ≡ keep (λ x. is_older (t.rob_tag x) tag) (entries b)
  unfolding entries flush keep
  entries-flush tag [] = refl
  entries-flush tag (slot ∷ rest) = ground (arith, entries-flush tag rest)

  -- The first result with a tag is taken out.
  unfoldable pub erase_tag : ℕ → List A → List A
  erase_tag tag [] = []
  erase_tag tag (x ∷ xs) = if t.rob_tag x == tag then xs else x ∷ erase_tag tag xs

  -- Removing a tag takes out the first result that has it and no other.
  pub entries-remove : (tag : ℕ) (b : Buffer A) → entries (remove tag b) ≡ erase_tag tag (entries b)
  unfolding entries remove erase_tag
  entries-remove tag [] = refl
  entries-remove tag (slot ∷ rest) = ground (arith, entries-remove tag rest)
