-- ===== src/Dcache/Plru.antt =====
-- The tree of bits that tells the way to evict, in src/DCache/DCache.cpp.
use rv32im_simulator.Prelude.{
  ℕ, ◌+◌, ◌*◌, ◌/◌, ◌%◌, ◌<◌, ◌≡◌, ◌≢◌, refl, sym, ap₂, ◌∙◌, Bool, true, not, ◌&&◌, ◌==◌, ltb,
  arith,
}
use rv32im_simulator.Prelude.Below.{all_below, all_below_sound}
use rv32im_simulator.Dcache.{victim_of, touch_way}

-- The check of one way and one state of the bits.
spares : ℕ → ℕ → Bool
spares way plru = not (victim_of (touch_way way plru) == way) && ltb (touch_way way plru) 8

table : all_below 32 (λ k. spares (k / 8) (k % 8)) ≡ true
unfolding all_below spares victim_of touch_way
table = refl

-- Whatever the three bits of a set, after an access to one of its four ways they tell another way
-- to evict, and they are three bits again.
pub victim_of-touch_way :
    (way plru : ℕ)
    → way < 4
    → plru < 8
    → (victim_of (touch_way way plru) ≢ way) × (touch_way way plru < 8)
unfolding spares
victim_of-touch_way way plru lw lp =
    let at_way : (way * 8 + plru) / 8 ≡ way = omega arith in
    let at_plru : (way * 8 + plru) % 8 ≡ plru = omega arith in
    let checked =
      all_below_sound 32 (λ k. spares (k / 8) (k % 8)) (way * 8 + plru) table (omega arith) in
    let here : spares way plru ≡ true = sym (ap₂ spares at_way at_plru) ∙ checked in ground arith
