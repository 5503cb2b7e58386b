-- ===== src/Candles/Gaps/Total.antt =====
-- How many instants are missing between the rows of src/services/candle-store.ts, and what a new
-- row does to that number.
use Prim.Native.Nat.{compare, Ordering}
use opengecko.Prelude.{
  ℕ, ◌+◌, ◌≤◌, ◌<◌, ◌≡◌, ◌≢◌, ◌⊎◌, refl, true, false, List, [], ◌∷◌, All, All-imp, length, leb, ltb,
  ◌==◌, Bool-cases, inl, inr, arith,
}
use opengecko.Prelude.Sorting.{insert, Sorted}
use opengecko.Candles.{CandleInterval, interval_ms}
use opengecko.Candles.Gaps.{has, missing_between, Gap, gaps_of}
use opengecko.Candles.Gaps.Slots.{
  OnGrid, slots, slots-same, slots-split, slots-split_missing, missing_between-OnGrid,
  missing_between-has,
}
pub mod Found

unfoldable pub total_missing : ℕ → List ℕ → ℕ
total_missing step [] = 0
total_missing step (t ∷ []) = 0
total_missing step (t ∷ u ∷ ts) = slots step t u + total_missing step (u ∷ ts)

-- Two rows with none between them.
abbrev pub Consecutive : (p q : ℕ) → List ℕ → Type 0
Consecutive p q [] = ⊥
Consecutive p q (t ∷ []) = ⊥
Consecutive p q (t ∷ u ∷ ts) = ((t ≡ p) × (u ≡ q)) ⊎ Consecutive p q (u ∷ ts)

abbrev pub IsAscending : List ℕ → Type 0
IsAscending ts = Sorted compare ts

pub has-All : (P : ℕ → Type 0) (x : ℕ) (ts : List ℕ) → All P ts → has x ts ≡ true → P x
unfolding has
has-All P x [] a m = cc
has-All P x (t ∷ ts) a m = elim (Bool-cases (x == t)) [
  | inl same ↦ ground arith
  | inr other ↦ has-All P x ts a.1 (ground arith)
]

pub Consecutive-has :
    (p q : ℕ) (ts : List ℕ) → Consecutive p q ts → (has p ts ≡ true) × (has q ts ≡ true)
unfolding has
Consecutive-has p q [] c = ground (arith, c)
Consecutive-has p q (t ∷ []) c = ground (arith, c)
Consecutive-has p q (t ∷ u ∷ ts) (inl (a, b)) = ground arith
Consecutive-has p q (t ∷ u ∷ ts) (inr c) = ground (arith, Consecutive-has p q (u ∷ ts) c)

head_le : (t x : ℕ) (ts : List ℕ) → IsAscending (t ∷ ts) → has x (t ∷ ts) ≡ true → t ≤ x
unfolding has
head_le t x ts s m = elim (Bool-cases (x == t)) [
  | inl same ↦ ground arith
  | inr other ↦ ground (arith, has-All (λ y. compare t y ≢ Ordering.gt) x ts s.0 (ground arith))
]

-- Nothing stands between two consecutive rows.
pub Consecutive-absent :
    (p q x : ℕ) (ts : List ℕ)
    → IsAscending ts
    → Consecutive p q ts
    → p < x
    → x < q
    → has x ts ≡ false
unfolding has
Consecutive-absent p q x [] s c h k = ground (arith, c)
Consecutive-absent p q x (t ∷ []) s c h k = ground (arith, c)
Consecutive-absent p q x (t ∷ u ∷ ts) s (inl (a, b)) h k = elim (Bool-cases (has x (u ∷ ts))) [
  | inl there ↦ ground (arith, head_le u x ts s.1 there)
  | inr absent ↦ ground arith
]
Consecutive-absent p q x (t ∷ u ∷ ts) s (inr c) h k = ground (
  arith,
  Consecutive-absent p q x (u ∷ ts) s.1 c h k,
  head_le t p (u ∷ ts) s,
  Consecutive-has p q (u ∷ ts) c,
)

insert_before : (x t : ℕ) (ts : List ℕ) → x ≤ t → insert compare x (t ∷ ts) ≡ x ∷ t ∷ ts
unfolding insert
insert_before x t ts h = ground arith

insert_after : (x t : ℕ) (ts : List ℕ) → t < x → insert compare x (t ∷ ts) ≡ t ∷ insert compare x ts
unfolding insert
insert_after x t ts h = ground arith

module _ (interval : CandleInterval) where
  abbrev total : List ℕ → ℕ
  total ts = total_missing (interval_ms interval) ts

  -- A new row between others leaves no more instants missing.
  total_missing-insert_from :
      (t q x : ℕ) (ts : List ℕ)
      → t ≤ x
      → x ≤ q
      → has q (t ∷ ts) ≡ true
      → total (insert compare x (t ∷ ts)) ≤ total (t ∷ ts)
  unfolding total_missing has
  total_missing-insert_from t q x [] h k m =
      rw (insert_before x t [] (ground arith)) (ground (arith, slots-same (interval_ms interval) t))
  total_missing-insert_from t q x (u ∷ ts) h k m = elim (Bool-cases (leb x t)) [
    | inl first ↦
        let same : x ≡ t = ground arith in
        rw (insert_before x t (u ∷ ts) (ground arith), same)
          (ground (arith, slots-same (interval_ms interval) t))
    | inr later ↦ rw (insert_after x t (u ∷ ts) (ground arith)) (elim (Bool-cases (leb x u)) [
      | inl here ↦
          rw (insert_before x u ts (ground arith))
            (omega (arith, slots-split interval t x u h (ground arith)))
      | inr beyond ↦ rw (insert_after x u ts (ground arith)) (
          let shorter = total_missing-insert_from u q x ts (ground arith) k (ground arith) in
          omega (arith, rw (insert_after x u ts (ground arith)) at shorter))
    ])
  ]

  pub total_missing-insert_le :
      (p q x : ℕ) (ts : List ℕ)
      → IsAscending ts
      → p ≤ x
      → x ≤ q
      → has p ts ≡ true
      → has q ts ≡ true
      → total (insert compare x ts) ≤ total ts
  unfolding has
  total_missing-insert_le p q x [] s h k m n = cc
  total_missing-insert_le p q x (t ∷ ts) s h k m n =
      total_missing-insert_from t q x ts (omega (arith, head_le t p ts s m)) k n

  -- A new row at a missing instant leaves fewer instants missing.
  pub total_missing-insert_lt :
      (p q x : ℕ) (ts : List ℕ)
      → IsAscending ts
      → Consecutive p q ts
      → has x (missing_between (interval_ms interval) p q) ≡ true
      → (p < x) × (x < q)
      → total (insert compare x ts) < total ts
  unfolding total_missing
  total_missing-insert_lt p q x [] s c m b = ground (arith, c)
  total_missing-insert_lt p q x (t ∷ []) s c m b = ground (arith, c)
  total_missing-insert_lt p q x (t ∷ u ∷ ts) s (inl (a, e)) m (h, k) =
      rw (insert_after x t (u ∷ ts) (omega arith), insert_before x u ts (omega arith))
        (ground (arith, slots-split_missing interval p x q m))
  total_missing-insert_lt p q x (t ∷ u ∷ ts) s (inr c) m (h, k) =
      let reached : u ≤ p = head_le u p ts s.1 (Consecutive-has p q (u ∷ ts) c).0 in
      let above : t ≤ u = ground (arith, s.0) in
      let shorter = total_missing-insert_lt p q x (u ∷ ts) s.1 c m (h, k) in
      rw (insert_after x t (u ∷ ts) (omega arith), insert_after x u ts (omega arith))
        (omega (arith, rw (insert_after x u ts (omega arith)) at shorter))
