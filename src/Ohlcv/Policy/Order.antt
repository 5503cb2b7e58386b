-- ===== src/Ohlcv/Policy/Order.antt =====
-- The order of src/services/ohlcv-scheduling-policy.ts, and what is selected by it.
use Prim.Native.Nat.{Ordering}
use opengecko.Prelude.{
  ℕ, ◌≤◌, String, ◌≡◌, ◌≢◌, ◌↔◌, refl, Bool, true, false, none, some, List, [], ◌∷◌, All, All-imp,
  All-Mem, Bool-cases, Option-cases, inl, inr, or_else, if◌then◌else◌, arith,
}
use mathlib.Core.List.{Mem}
use opengecko.Prelude.Sorting.{
  IsComparison, sort, compare-IsComparison, then_by-IsComparison, opposite-IsComparison, sort-first,
  All-sort, All-of_sort,
}
use opengecko.Ohlcv.{Target}
use opengecko.Ohlcv.Policy.{
  priority_rank, retry_rank, stale_rank, interval_lease_rank, remaining_depth_days,
  is_target_lease_eligible, compare_lease_targets, eligible_targets, rank_lease_targets, first_of,
  select_next_lease_target,
}

-- What holds of the eligible targets holds of the others under a premise.
All-eligible :
    (P : Target → Type 0) (now ttl : ℕ) (ts : List Target)
    → All P (eligible_targets now ttl ts)
    → All (λ t. is_target_lease_eligible t now ttl ≡ true → P t) ts
unfolding eligible_targets
All-eligible P now ttl [] h = tt
All-eligible P now ttl (t ∷ ts) h = elim (Bool-cases (is_target_lease_eligible t now ttl)) [
  | inl good ↦
      let both : P t × All P (eligible_targets now ttl ts) = rw (good, if◌then◌else◌) at h in
      (λ e. both.0, All-eligible P now ttl ts both.1)
  | inr bad ↦
      let rest : All P (eligible_targets now ttl ts) = rw (bad, if◌then◌else◌) at h in
      (λ e. cc, All-eligible P now ttl ts rest)
]

eligible-All :
    (P : Target → Type 0) (now ttl : ℕ) (ts : List Target)
    → All P ts
    → All (λ t. (is_target_lease_eligible t now ttl ≡ true) × P t) (eligible_targets now ttl ts)
unfolding eligible_targets
eligible-All P now ttl [] h = tt
eligible-All P now ttl (t ∷ ts) h = elim (Bool-cases (is_target_lease_eligible t now ttl)) [
  | inl good ↦ rw good ((good, h.0), eligible-All P now ttl ts h.1)
  | inr bad ↦ rw bad (eligible-All P now ttl ts h.1)
]

first_of-some :
    (xs : List Target) (t : Target) → first_of xs ≡ some t → (ts : List Target) × (xs ≡ t ∷ ts)
first_of-some [] t e = cc
first_of-some (x ∷ ts) t e = (ts, cc)

first_of-none : (xs : List Target) → first_of xs ≡ none → xs ≡ []
first_of-none [] e = refl
first_of-none (x ∷ ts) e = cc

pub not_true : (b : Bool) → (b ≡ true → ⊥) → b ≡ false
not_true true h = absurd (h refl)
not_true false h = refl

module _ (locale_compare : String → String → Ordering) (law : IsComparison locale_compare) where
  -- The comparison orders targets linearly, up to ties, as `sort` requires.
  pub compare_lease_targets-IsComparison :
      (now : ℕ) → IsComparison (compare_lease_targets locale_compare now)
  unfolding compare_lease_targets
  compare_lease_targets-IsComparison now =
      then_by-IsComparison _ _ (compare-IsComparison (λ t. priority_rank t.priority_tier)) (
        then_by-IsComparison _ _ (compare-IsComparison (λ t. retry_rank t.status)) (
          then_by-IsComparison _ _ (compare-IsComparison (stale_rank now)) (
            then_by-IsComparison _ _
              (compare-IsComparison (λ t. interval_lease_rank t.key.interval))
              (then_by-IsComparison _ _
                (opposite-IsComparison _ (compare-IsComparison (λ t. remaining_depth_days t now)))
                (then_by-IsComparison _ _ (compare-IsComparison (λ t. or_else t.last_success_at 0))
                  (record {
                    flipped = λ a b. law.flipped a.key.coin_id b.key.coin_id;
                    trans = λ a b c. law.trans a.key.coin_id b.key.coin_id c.key.coin_id;
                  }))))))

  priority_first :
      (now : ℕ) (t u : Target)
      → compare_lease_targets locale_compare now t u ≢ Ordering.gt
      → priority_rank t.priority_tier ≤ priority_rank u.priority_tier
  unfolding compare_lease_targets
  priority_first now t u h = ground arith

  -- The selected target is one of the targets, is eligible, and no eligible target comes before
  -- it in the order; in particular none has a higher priority tier.
  pub select_next_lease_target-first :
      (targets : List Target) (now ttl : ℕ) (t : Target)
      → select_next_lease_target locale_compare targets now ttl ≡ some t
      → Mem t targets
        × (is_target_lease_eligible t now ttl ≡ true)
        × All
            (λ u.
              is_target_lease_eligible u now ttl ≡ true
              → (compare_lease_targets locale_compare now t u ≢ Ordering.gt)
                × (priority_rank t.priority_tier ≤ priority_rank u.priority_tier))
            targets
  unfolding select_next_lease_target rank_lease_targets
  select_next_lease_target-first targets now ttl t e =
      let cmp = compare_lease_targets locale_compare now in
      let good = eligible_targets now ttl targets in
      let (ts, sorted) = first_of-some (sort cmp good) t e in
      let kept : (is_target_lease_eligible t now ttl ≡ true) × Mem t targets =
        (rw sorted at (
          All-sort cmp (λ u. (is_target_lease_eligible u now ttl ≡ true) × Mem u targets) good
            (eligible-All (λ u. Mem u targets) now ttl targets (All-Mem targets)))).0 in
      let before = sort-first cmp (compare_lease_targets-IsComparison now) good ts t sorted in
      (
        kept.1,
        kept.0,
        All-imp targets (λ u h e. (h e, priority_first now t u (h e)))
            (All-eligible (λ u. cmp t u ≢ Ordering.gt) now ttl targets before),
      )

  -- Nothing is selected exactly where no target is eligible.
  pub select_next_lease_target-none :
      (targets : List Target) (now ttl : ℕ)
      → (select_next_lease_target locale_compare targets now ttl ≡ none)
        ↔ All (λ u. is_target_lease_eligible u now ttl ≡ false) targets
  unfolding select_next_lease_target rank_lease_targets
  select_next_lease_target-none targets now ttl =
      let cmp = compare_lease_targets locale_compare now in
      let good = eligible_targets now ttl targets in
      (
        λ e.
            All-imp targets (λ u h. not_true (is_target_lease_eligible u now ttl) h)
              (All-eligible (λ u. ⊥) now ttl targets
                (All-of_sort cmp (λ u. ⊥) good (rw (first_of-none (sort cmp good) e) tt))),
        λ none_good. elim (Option-cases (first_of (sort cmp good))) [
          | inl empty ↦ empty
          | inr (t, found) ↦
              let (ts, sorted) = first_of-some (sort cmp good) t found in
              let both : (is_target_lease_eligible t now ttl ≡ true)
                  × (is_target_lease_eligible t now ttl ≡ false) =
                (rw sorted at (
                  All-sort cmp
                    (λ u.
                      (is_target_lease_eligible u now ttl ≡ true)
                      × (is_target_lease_eligible u now ttl ≡ false))
                    good
                    (eligible-All (λ u. is_target_lease_eligible u now ttl ≡ false) now ttl targets
                      none_good))).0 in
              ground (arith, both)
        ],
      )

  -- What holds of every target holds of the one selected.
  pub select_next_lease_target-All :
      (P : Target → Type 0) (targets : List Target) (now ttl : ℕ) (t : Target)
      → select_next_lease_target locale_compare targets now ttl ≡ some t
      → All P targets
      → P t
  unfolding select_next_lease_target rank_lease_targets
  select_next_lease_target-All P targets now ttl t e h =
      let cmp = compare_lease_targets locale_compare now in
      let good = eligible_targets now ttl targets in
      let (ts, sorted) = first_of-some (sort cmp good) t e in
      (rw sorted at (
        All-sort cmp (λ u. (is_target_lease_eligible u now ttl ≡ true) × P u) good
          (eligible-All P now ttl targets h))).0.1
