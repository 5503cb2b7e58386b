-- ===== src/Candles/Gaps/Total/Found.antt =====
-- Which gaps `detectOhlcvGaps` of src/services/candle-store.ts finds.
use opengecko.Prelude.{
  ℕ, zero, suc, ◌+◌, ◌≤◌, ◌≡◌, ◌↔◌, refl, sym, Bool, true, false, List, [], ◌∷◌, All, All-imp,
  length, leb, Bool-cases, inl, inr, if◌then◌else◌, arith,
}
use opengecko.Candles.{CandleInterval, interval_ms}
use opengecko.Candles.Gaps.{
  has, steps_from, missing_between, Gap, missing_slot_count, push_gap, gaps_of,
}
use opengecko.Candles.Gaps.Slots.{OnGrid, slots, missing_between-OnGrid, missing_between-has}
use opengecko.Candles.Gaps.Total.{total_missing, Consecutive}

-- A gap holds the instants that are missing between two consecutive rows, and starts at one.
abbrev pub IsGapOf : ℕ → List ℕ → Gap → Type 0
IsGapOf step ts gap =
    (p : ℕ) × (q : ℕ) × Consecutive p q ts
    × (gap.missing_timestamps ≡ missing_between step p q)
    × (has gap.gap_start gap.missing_timestamps ≡ true)

IsGapOf-later :
    (step t : ℕ) (ts : List ℕ) (gap : Gap) → IsGapOf step ts gap → IsGapOf step (t ∷ ts) gap
IsGapOf-later step t [] gap (p, q, c, h, k) = ground (arith, c)
IsGapOf-later step t (u ∷ ts) gap (p, q, c, h, k) = (p, q, inr c, h, k)

push_gap-All :
    (P : Gap → Type 0) (missing : List ℕ) (gaps : List Gap)
    → All P gaps
    → ((gap : Gap) → gap.missing_timestamps ≡ missing → has gap.gap_start missing ≡ true → P gap)
    → All P (push_gap missing gaps)
unfolding has
push_gap-All P [] gaps a h = a
push_gap-All P (t ∷ ts) gaps a h = (h _ refl (ground arith), a)

pub gaps_of-IsGapOf : (step : ℕ) (ts : List ℕ) → All (IsGapOf step ts) (gaps_of step ts)
unfolding gaps_of
gaps_of-IsGapOf step [] = tt
gaps_of-IsGapOf step (t ∷ []) = tt
gaps_of-IsGapOf step (t ∷ u ∷ ts) =
    let later : All (IsGapOf step (t ∷ u ∷ ts)) (gaps_of step (u ∷ ts)) =
      All-imp (gaps_of step (u ∷ ts)) (IsGapOf-later step t (u ∷ ts))
        (gaps_of-IsGapOf step (u ∷ ts)) in
    elim (Bool-cases (leb u (t + step))) [
      | inl near ↦ rw near later
      | inr far ↦ rw far (
          push_gap-All (IsGapOf step (t ∷ u ∷ ts)) (missing_between step t u)
            (gaps_of step (u ∷ ts)) later (λ gap e s. (t, u, inl (refl, refl), e, rw e s)))
    ]

unfoldable pub found_missing : ℕ → List Gap → Bool
found_missing x [] = false
found_missing x (gap ∷ gaps) = if has x gap.missing_timestamps then true else found_missing x gaps

unfoldable pub slots_found : List Gap → ℕ
slots_found [] = 0
slots_found (gap ∷ gaps) = missing_slot_count gap + slots_found gaps

steps_from-none : (fuel t u step : ℕ) → u ≤ t → steps_from fuel t u step ≡ []
unfolding steps_from
steps_from-none zero t u step h = refl
steps_from-none (suc fuel) t u step h = ground arith

near_none : (step t u : ℕ) → u ≤ t + step → missing_between step t u ≡ []
unfolding missing_between
near_none step t u h = steps_from-none _ (t + step) u step h

slots_found-push_gap :
    (missing : List ℕ) (gaps : List Gap)
    → slots_found (push_gap missing gaps) ≡ length missing + slots_found gaps
unfolding slots_found
slots_found-push_gap [] gaps = omega arith
slots_found-push_gap (t ∷ ts) gaps = refl

-- The gaps hold every missing instant, and each once.
pub gaps_of-slots : (step : ℕ) (ts : List ℕ) → slots_found (gaps_of step ts) ≡ total_missing step ts
unfolding gaps_of slots_found total_missing slots
gaps_of-slots step [] = refl
gaps_of-slots step (t ∷ []) = refl
gaps_of-slots step (t ∷ u ∷ ts) = elim (Bool-cases (leb u (t + step))) [
  | inl near ↦
      rw (near, near_none step t u (ground arith)) (omega (arith, gaps_of-slots step (u ∷ ts)))
  | inr far ↦
      rw
        (
          far,
          slots_found-push_gap (missing_between step t u) (gaps_of step (u ∷ ts)),
          gaps_of-slots step (u ∷ ts),
        )
        refl
]

found_missing-push_gap :
    (x : ℕ) (missing : List ℕ) (gaps : List Gap)
    → found_missing x (push_gap missing gaps)
      ≡ (if has x missing then true else found_missing x gaps)
unfolding found_missing has
found_missing-push_gap x [] gaps = refl
found_missing-push_gap x (t ∷ ts) gaps = refl

found_missing-gaps_of :
    (step x t u : ℕ) (ts : List ℕ)
    → found_missing x (gaps_of step (t ∷ u ∷ ts))
      ≡ (if has x (missing_between step t u) then true else found_missing x (gaps_of step (u ∷ ts)))
unfolding gaps_of has
found_missing-gaps_of step x t u ts = elim (Bool-cases (leb u (t + step))) [
  | inl near ↦ rw (near, near_none step t u (ground arith)) refl
  | inr far ↦ rw far (found_missing-push_gap x (missing_between step t u) (gaps_of step (u ∷ ts)))
]

abbrev pub IsMissing : (step x : ℕ) → List ℕ → Type 0
IsMissing step x ts = (p : ℕ) × (q : ℕ) × Consecutive p q ts × OnGrid step (p + step) q x

found_missing_sound :
    (step x : ℕ) (ts : List ℕ) → found_missing x (gaps_of step ts) ≡ true → IsMissing step x ts
unfolding found_missing gaps_of
found_missing_sound step x [] e = cc
found_missing_sound step x (t ∷ []) e = cc
found_missing_sound step x (t ∷ u ∷ ts) e = elim (Bool-cases (has x (missing_between step t u))) [
  | inl here ↦ (t, u, inl (refl, refl), missing_between-OnGrid step t u x here)
  | inr beyond ↦
      let (p, q, c, g) =
        found_missing_sound step x (u ∷ ts) (ground (arith, found_missing-gaps_of step x t u ts)) in
      (p, q, inr c, g)
]

found_missing_complete :
    (interval : CandleInterval) (x : ℕ) (ts : List ℕ)
    → IsMissing (interval_ms interval) x ts
    → found_missing x (gaps_of (interval_ms interval) ts) ≡ true
found_missing_complete interval x [] (p, q, c, g) = ground (arith, c)
found_missing_complete interval x (t ∷ []) (p, q, c, g) = ground (arith, c)
found_missing_complete interval x (t ∷ u ∷ ts) (p, q, inl (a, b), g) =
    rw
      (
        found_missing-gaps_of (interval_ms interval) x t u ts,
        missing_between-has interval t u x (rw (sym a, sym b) at g),
      )
      refl
found_missing_complete interval x (t ∷ u ∷ ts) (p, q, inr c, g) = ground (
  arith,
  found_missing-gaps_of (interval_ms interval) x t u ts,
  found_missing_complete interval x (u ∷ ts) (p, q, c, g),
)

pub found_missing_iff :
    (interval : CandleInterval) (x : ℕ) (ts : List ℕ)
    → (found_missing x (gaps_of (interval_ms interval) ts) ≡ true)
      ↔ IsMissing (interval_ms interval) x ts
found_missing_iff interval x ts =
    (found_missing_sound (interval_ms interval) x ts, found_missing_complete interval x ts)
