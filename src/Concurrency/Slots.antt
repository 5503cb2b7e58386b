-- ===== src/Concurrency/Slots.antt =====
-- The indices that are awaited, and the slots of the results, in src/lib/async.ts.
use opengecko.Prelude.{
  ℕ, zero, suc, ◌+◌, ◌<◌, ◌≡◌, ◌≢◌, refl, Bool, true, false, Option, some, List, [], ◌∷◌, length,
  ◌==◌, ap, if◌then◌else◌, arith,
}
use opengecko.Concurrency.{empty_slots, put_slot, slot_at, forget}

abbrev pub is_awaited : ℕ → List ℕ → Bool
is_awaited i [] = false
is_awaited i (j ∷ js) = if j == i then true else is_awaited i js

pub length-forget :
    (i : ℕ) (js : List ℕ) → is_awaited i js ≡ true → length (forget i js) + 1 ≡ length js
unfolding forget
length-forget i [] h = cc
length-forget i (j ∷ js) h = ground (arith, length-forget i js)

pub is_awaited-forget :
    (i k : ℕ) (js : List ℕ) → is_awaited k (forget i js) ≡ true → is_awaited k js ≡ true
unfolding forget
is_awaited-forget i k [] h = cc
is_awaited-forget i k (j ∷ js) h = ground (arith, is_awaited-forget i k js)

pub is_awaited-forget_other :
    (i k : ℕ) (js : List ℕ) → k ≢ i → is_awaited k js ≡ true → is_awaited k (forget i js) ≡ true
unfolding forget
is_awaited-forget_other i k [] d h = cc
is_awaited-forget_other i k (j ∷ js) d h = ground (arith, is_awaited-forget_other i k js)

module _ {B : Type 0} where
  pub length-put_slot :
      (i : ℕ) (v : B) (xs : List (Option B)) → length (put_slot i v xs) ≡ length xs
  unfolding put_slot
  length-put_slot i v [] = refl
  length-put_slot zero v (x ∷ xs) = refl
  length-put_slot (suc i) v (x ∷ xs) = omega (arith, length-put_slot i v xs)

  pub slot_at-put_slot :
      (i : ℕ) (v : B) (xs : List (Option B)) → i < length xs → slot_at i (put_slot i v xs) ≡ some v
  unfolding put_slot slot_at
  slot_at-put_slot i v [] h = absurd (omega arith)
  slot_at-put_slot zero v (x ∷ xs) h = refl
  slot_at-put_slot (suc i) v (x ∷ xs) h = slot_at-put_slot i v xs (omega arith)

  pub slot_at-put_slot_other :
      (i k : ℕ) (v : B) (xs : List (Option B)) → k ≢ i → slot_at k (put_slot i v xs) ≡ slot_at k xs
  unfolding put_slot slot_at
  slot_at-put_slot_other i k v [] d = refl
  slot_at-put_slot_other zero zero v (x ∷ xs) d = absurd (d refl)
  slot_at-put_slot_other zero (suc k) v (x ∷ xs) d = refl
  slot_at-put_slot_other (suc i) zero v (x ∷ xs) d = refl
  slot_at-put_slot_other (suc i) (suc k) v (x ∷ xs) d =
      slot_at-put_slot_other i k v xs (λ e. d (ap suc e))

pub length-empty_slots : (B : Type 0) (n : ℕ) → length (empty_slots {B = B} n) ≡ n
unfolding empty_slots
length-empty_slots B zero = refl
length-empty_slots B (suc n) = omega (arith, length-empty_slots B n)
