-- ===== src/Fanout/Slots.antt =====
-- The items of the fan-out of src/services/provider-readiness-coordinator.ts, by their phase.
use opengecko.Prelude.{
  ℕ, zero, suc, ◌+◌, ◌≤◌, ◌<◌, ◌≡◌, refl, Bool, true, false, some, List, [], ◌∷◌, length,
  if◌then◌else◌, Bool-cases, inl, inr, arith,
}
use opengecko.Fanout.{
  Phase, waiting, working, ended, done, Slot, FanoutOptions, is_waiting, is_busy, get_at, set_at,
  settle_missing_budget_results, idle_slots,
}

abbrev pub is_done : Phase → Bool
is_done waiting = false
is_done working = false
is_done ended = false
is_done done = true

abbrev pub when : Bool → ℕ
when b = if b then 1 else 0

module _ {ℓ} {V E : Type ℓ} where
  unfoldable pub busy_count : List (Slot V E) → ℕ
  busy_count [] = 0
  busy_count (s ∷ ss) = when (is_busy s.phase) + busy_count ss

  unfoldable pub done_count : List (Slot V E) → ℕ
  done_count [] = 0
  done_count (s ∷ ss) = when (is_done s.phase) + done_count ss

  -- The first `k` items have started, and the others wait.
  abbrev pub Layout : ℕ → List (Slot V E) → Type 0
  Layout zero [] = Unit
  Layout (suc k) [] = ⊥
  Layout zero (s ∷ ss) = (is_waiting s.phase ≡ true) × Layout zero ss
  Layout (suc k) (s ∷ ss) = (is_waiting s.phase ≡ false) × Layout k ss

  pub length-set_at :
      (i : ℕ) (v : Slot V E) (ss : List (Slot V E)) → length (set_at i v ss) ≡ length ss
  unfolding set_at
  length-set_at i v [] = refl
  length-set_at zero v (s ∷ ss) = refl
  length-set_at (suc i) v (s ∷ ss) = ground (arith, length-set_at i v ss)

  pub busy_count-set_at :
      (i : ℕ) (v old : Slot V E) (ss : List (Slot V E))
      → get_at i ss ≡ some old
      → busy_count (set_at i v ss) + when (is_busy old.phase)
        ≡ busy_count ss + when (is_busy v.phase)
  unfolding set_at get_at busy_count
  busy_count-set_at i v old [] e = cc
  busy_count-set_at zero v old (s ∷ ss) e = ground arith
  busy_count-set_at (suc i) v old (s ∷ ss) e = ground (arith, busy_count-set_at i v old ss e)

  pub done_count-set_at :
      (i : ℕ) (v old : Slot V E) (ss : List (Slot V E))
      → get_at i ss ≡ some old
      → done_count (set_at i v ss) + when (is_done old.phase)
        ≡ done_count ss + when (is_done v.phase)
  unfolding set_at get_at done_count
  done_count-set_at i v old [] e = cc
  done_count-set_at zero v old (s ∷ ss) e = ground arith
  done_count-set_at (suc i) v old (s ∷ ss) e = ground (arith, done_count-set_at i v old ss e)

  pub Layout-set_at :
      (k i : ℕ) (v old : Slot V E) (ss : List (Slot V E))
      → Layout k ss
      → get_at i ss ≡ some old
      → is_waiting old.phase ≡ false
      → is_waiting v.phase ≡ false
      → Layout k (set_at i v ss)
  unfolding set_at get_at
  Layout-set_at k i v old [] h e w x = cc
  Layout-set_at zero zero v old (s ∷ ss) h e w x = ground arith
  Layout-set_at (suc k) zero v old (s ∷ ss) h e w x = (x, h.1)
  Layout-set_at zero (suc i) v old (s ∷ ss) h e w x = (h.0, Layout-set_at zero i v old ss h.1 e w x)
  Layout-set_at (suc k) (suc i) v old (s ∷ ss) h e w x = (h.0, Layout-set_at k i v old ss h.1 e w x)

  -- The next item waits, and can be started.
  pub Layout-start :
      (k : ℕ) (v : Slot V E) (ss : List (Slot V E))
      → Layout k ss
      → k < length ss
      → is_waiting v.phase ≡ false
      → ((old : Slot V E) × (get_at k ss ≡ some old) × (is_waiting old.phase ≡ true))
        × Layout (suc k) (set_at k v ss)
  unfolding set_at get_at
  Layout-start k v [] h l x = ground arith
  Layout-start zero v (s ∷ ss) h l x = ((s, refl, h.0), (x, h.1))
  Layout-start (suc k) v (s ∷ ss) h l x =
      let (slot, rest) = Layout-start k v ss h.1 (omega arith) x in (slot, (h.0, rest))

  pub Layout-counts :
      (k : ℕ) (ss : List (Slot V E)) → Layout k ss → busy_count ss + done_count ss ≡ k
  unfolding busy_count done_count
  Layout-counts zero [] h = refl
  Layout-counts (suc k) [] h = ground (arith, h)
  Layout-counts zero (s ∷ ss) h = ground (arith, Layout-counts zero ss h.1)
  Layout-counts (suc k) (s ∷ ss) h = ground (arith, Layout-counts k ss h.1)

  pub Layout-le : (k : ℕ) (ss : List (Slot V E)) → Layout k ss → k ≤ length ss
  Layout-le zero ss h = omega arith
  Layout-le (suc k) [] h = ground (arith, h)
  Layout-le (suc k) (s ∷ ss) h = omega (arith, Layout-le k ss h.1)

  pub Layout-at : (k l : ℕ) (ss : List (Slot V E)) → k ≡ l → Layout k ss → Layout l ss
  Layout-at k l ss e h = rw⁻¹ e h

  pub settle-counts :
      (options : FanoutOptions) (k : ℕ) (ss : List (Slot V E))
      → Layout k ss
      → Layout k (settle_missing_budget_results options ss)
        × (busy_count (settle_missing_budget_results options ss) ≡ busy_count ss)
        × (done_count (settle_missing_budget_results options ss) ≡ done_count ss)
  unfolding settle_missing_budget_results busy_count done_count
  settle-counts options zero [] h = (tt, refl, refl)
  settle-counts options (suc k) [] h = ground (arith, h)
  settle-counts options zero (s ∷ ss) h = ground (arith, settle-counts options zero ss h.1)
  settle-counts options (suc k) (s ∷ ss) h = ground (arith, settle-counts options k ss h.1)

  -- Where some item is busy there is one.
  pub busy_some :
      (ss : List (Slot V E))
      → 1 ≤ busy_count ss
      → (i : ℕ) × (s : Slot V E) × (get_at i ss ≡ some s) × (is_busy s.phase ≡ true)
  unfolding busy_count get_at
  busy_some [] h = ground arith
  busy_some (s ∷ ss) h = elim (Bool-cases (is_busy s.phase)) [
    | inl here ↦ (0, s, refl, here)
    | inr elsewhere ↦ let (i, t, e, b) = busy_some ss (ground arith) in (suc i, t, e, b)
  ]

pub idle-counts {ℓ} :
    (V E : Type ℓ) (n : ℕ)
    → let idle = idle_slots {V = V} {E = E} n in
      Layout 0 idle × (busy_count idle ≡ 0) × (done_count idle ≡ 0) × (length idle ≡ n)
unfolding idle_slots busy_count done_count
idle-counts V E zero = (tt, refl, refl, refl)
idle-counts V E (suc n) = ground (arith, idle-counts V E n)
