-- ===== src/Ring/Stream.antt =====
-- One cycle of a ring that serves as a queue: an entry may enter, and the first may leave.
use mathlib.Core.List.{append-nil}
use rv32im_simulator.Prelude.{
  ℕ, Bool, true, false, if◌then◌else◌, Option, none, some, List, [], ◌∷◌, ◌++◌, ◌≡◌, ◌≢◌, refl, sym,
  ◌∙◌, get_or, get_or-set_ne, arith,
}
use rv32im_simulator.Ring.{Ring, is_empty, is_full, push, pop}
use rv32im_simulator.Ring.Contents.{
  IsValid, contents, push-IsValid, pop-IsValid, contents-push, contents-pop,
}

-- At most one entry, as a list.
abbrev pub optional {ℓ} : {A : Type ℓ} → Option A → List A
optional none = []
optional (some x) = x ∷ []

abbrev pub when {ℓ} : {A : Type ℓ} → Bool → A → List A
when b x = if b then x ∷ [] else []

module _ {ℓ} (cap : ℕ) {A : Type ℓ} (d : A) where
  abbrev pub enter : Option A → Ring A → Ring A
  enter none q = q
  enter (some x) q = push cap x q

  abbrev pub leave : Bool → Ring A → Ring A
  leave true q = pop cap q
  leave false q = q

  abbrev head_of : Ring A → A
  head_of q = get_or q.slots q.head d

  pub enter-IsValid : (x : Option A) (q : Ring A) → IsValid cap q → IsValid cap (enter x q)
  enter-IsValid none q v = v
  enter-IsValid (some x) q v = push-IsValid cap x v

  pub leave-IsValid : (b : Bool) (q : Ring A) → IsValid cap q → IsValid cap (leave b q)
  leave-IsValid true q v = pop-IsValid cap v
  leave-IsValid false q v = v

  -- An entry that comes in finds room.
  abbrev pub HasRoom : Option A → Ring A → Type 0
  HasRoom none q = Unit
  HasRoom (some x) q = is_full cap q ≡ false

  contents-enter :
      (x : Option A) (q : Ring A)
      → IsValid cap q
      → HasRoom x q
      → contents cap d (enter x q) ≡ contents cap d q ++ optional x
  contents-enter none q v h = sym (append-nil (contents cap d q))
  contents-enter (some x) q v h = contents-push cap d x q v h

  head-enter :
      (x : Option A) (q : Ring A)
      → is_empty q ≡ false
      → HasRoom x q
      → (head_of (enter x q) ≡ head_of q) × (is_empty (enter x q) ≡ false)
  unfolding push is_empty is_full
  head-enter none q e h = (refl, e)
  head-enter (some x) q e h =
      let apart : q.tail ≢ q.head = ground arith in
      (get_or-set_ne q.slots q.tail q.head x d apart, ground arith)

  -- Nothing is lost, doubled or reordered: what leaves and what is left are what was there and what came.
  pub stream-cycle :
      (x : Option A) (b : Bool) (q : Ring A)
      → IsValid cap q
      → HasRoom x q
      → (b ≡ true → is_empty q ≡ false)
      → when b (head_of q) ++ contents cap d (leave b (enter x q)) ≡ contents cap d q ++ optional x
  stream-cycle x false q v h e = contents-enter x q v h
  stream-cycle x true q v h e =
      let at = head-enter x q (e refl) h in
      rw (← at.0)
        (sym (contents-pop cap d (enter x q) (enter-IsValid x q v) at.1) ∙ contents-enter x q v h)
