-- ===== src/Buffer.antt =====
-- The output buffer that ALU, BRU, AGU and MUL each declare: an array `outputBuffer` with its flags
-- `slotValid`, here a list of slots. The loops are the same text in src/ALU/ALU.cpp,
-- src/BRU/BRU.cpp, src/AGU/AGU.cpp and src/MUL/MUL.cpp, and the units below call these functions.
pub mod Entries
pub mod Age
use rv32im_simulator.Prelude.{
  ℕ, Bool, true, false, not, ◌&&◌, ◌==◌, if◌then◌else◌, Option, none, some, List, [], ◌∷◌,
}
use rv32im_simulator.Tags.{is_older}

-- A result that carries the tag of its instruction.
pub record Tagged {ℓ} (A : Type ℓ) : Type ℓ where
  pub rob_tag : A → ℕ

pub record Slot {ℓ} (A : Type ℓ) : Type ℓ where
  pub valid : Bool
  pub result : A

abbrev pub Buffer {ℓ} : Type ℓ → Type ℓ
Buffer A = List (Slot A)

module _ {ℓ} {A : Type ℓ} where
  -- The first free slot takes the result; with none free it is dropped.
  unfoldable pub push : A → Buffer A → Buffer A
  push x [] = []
  push x (slot ∷ rest) =
      if slot.valid then slot ∷ push x rest else record { valid = true; result = x } ∷ rest

  -- The same loop where the free slot is overwritten in part.
  unfoldable pub fill_free : (A → A) → Buffer A → Buffer A
  fill_free f [] = []
  fill_free f (slot ∷ rest) =
      if slot.valid
      then slot ∷ fill_free f rest
      else record { valid = true; result = f slot.result } ∷ rest

  unfoldable pub is_full : Buffer A → Bool
  is_full [] = true
  is_full (slot ∷ rest) = slot.valid && is_full rest

  unfoldable pub is_empty : Buffer A → Bool
  is_empty [] = true
  is_empty (slot ∷ rest) = not slot.valid && is_empty rest

module _ {ℓ} {A : Type ℓ} ⦃t : Tagged A⦄ where
  -- `best == -1 || isOlder(outputBuffer[i].robTag, outputBuffer[best].robTag)`.
  unfoldable beats : A → Option A → Bool
  beats x none = true
  beats x (some best) = is_older (t.rob_tag x) (t.rob_tag best)

  -- The loop over `i` with the entry at `best` in place of its index.
  unfoldable pub scan : Option A → Buffer A → Option A
  unfolding beats
  scan best [] = best
  scan best (slot ∷ rest) =
      scan (if slot.valid && beats slot.result best then some slot.result else best) rest

  unfoldable pub oldest : Buffer A → Option A
  unfolding scan
  oldest b = scan none b

  -- Frees the first slot that holds the tag.
  unfoldable pub remove : ℕ → Buffer A → Buffer A
  remove tag [] = []
  remove tag (slot ∷ rest) =
      if slot.valid && (t.rob_tag slot.result == tag)
      then record slot { valid = false } ∷ rest
      else slot ∷ remove tag rest

  -- Frees every slot whose instruction is not older than the tag.
  unfoldable pub flush : ℕ → Buffer A → Buffer A
  flush tag [] = []
  flush tag (slot ∷ rest) =
      (if slot.valid && not (is_older (t.rob_tag slot.result) tag)
        then record slot { valid = false }
        else slot)
      ∷ flush tag rest
