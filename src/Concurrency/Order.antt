-- ===== src/Concurrency/Order.antt =====
-- The order of the results of `mapWithConcurrency` of src/lib/async.ts, and its bound.
use mathlib.Core.Path.{subst}
use opengecko.Prelude.{
  ℕ, zero, suc, ◌+◌, ◌≤◌, ◌<◌, max, ◌≡◌, ◌≢◌, ◌⊎◌, refl, inl, inr, true, false, some, [], ◌∷◌,
  length, ltb, ◌==◌, Bool-cases, ◌∙◌, arith,
}
use opengecko.Concurrency.{
  Workers, empty_slots, put_slot, slot_at, take_index, spawn, worker_count, start_workers, forget,
  fulfil, reject,
}
use opengecko.Concurrency.Slots.{
  is_awaited, length-forget, is_awaited-forget, is_awaited-forget_other, length-put_slot,
  slot_at-put_slot, slot_at-put_slot_other, length-empty_slots,
}

-- The slot of an index is filled with its value, or its value is awaited.
abbrev pub Served : {B : Type 0} → (ℕ → B) → Workers B → ℕ → Type 0
Served f s j = (is_awaited j s.awaited ≡ true) ⊎ (slot_at j s.results ≡ some (f j))

module _ {B : Type 0} (f : ℕ → B) (items concurrency : ℕ) where
  -- The settlement of something that is awaited; the value of an index is the worker's.
  pub data WorkersStep : Workers B → Workers B → Type 0 where
    fulfils :
        (s : Workers B) (i : ℕ)
        → is_awaited i s.awaited ≡ true
        → WorkersStep s (fulfil items i (f i) s)
    rejects : (s : Workers B) (i : ℕ) → is_awaited i s.awaited ≡ true → WorkersStep s (reject i s)

  pub data WorkersReach (s : Workers B) : Workers B → Type 0 where
    here : WorkersReach s s
    next : {t u : Workers B} → WorkersReach s t → WorkersStep t u → WorkersReach s u

  pub record IsSound (s : Workers B) : Type 0 where
    pub few : length s.awaited ≤ worker_count items concurrency
    pub sized : length s.results ≡ items
    pub bounded : (j : ℕ) → is_awaited j s.awaited ≡ true → j < s.next_index
    pub served : s.rejected ≡ false → (j : ℕ) → j < s.next_index → Served f s j
    pub busy :
        s.rejected ≡ false
        → (worker_count items concurrency ≤ length s.awaited) ⊎ (items ≤ s.next_index)
    pub within : s.next_index ≤ items

  take_index-IsSound :
      (s : Workers B)
      → length s.awaited + 1 ≤ worker_count items concurrency
      → length s.results ≡ items
      → ((j : ℕ) → is_awaited j s.awaited ≡ true → j < s.next_index)
      → (s.rejected ≡ false → (j : ℕ) → j < s.next_index → Served f s j)
      → (s.rejected ≡ false
          → (worker_count items concurrency ≤ length s.awaited + 1) ⊎ (items ≤ s.next_index))
      → s.next_index ≤ items
      → IsSound (take_index items s)
  unfolding take_index
  take_index-IsSound s few sized bounded served busy within =
      elim (Bool-cases (ltb s.next_index items)) [
        | inl more ↦
            rw (more, take_index)
              (record {
                few = omega (arith, few);
                sized = sized;
                bounded = λ j h. ground (arith, bounded j);
                served = λ n j h. ground (arith, served n j);
                busy = λ n. ground (arith, busy n);
                within = ground (arith, more);
              })
        | inr done ↦
            rw (done, take_index)
              (record {
                few = omega arith;
                sized = sized;
                bounded = bounded;
                served = served;
                busy = λ n. inr (ground (arith, done));
                within = within;
              })
      ]

  fulfil-IsSound :
      (s : Workers B) (i : ℕ)
      → is_awaited i s.awaited ≡ true
      → IsSound s
      → IsSound (fulfil items i (f i) s)
  unfolding fulfil
  fulfil-IsSound s i h sound =
      let fewer = length-forget i s.awaited h in
      let inside : i < length s.results =
        omega (arith, sound.bounded i h, sound.within, sound.sized) in
      take_index-IsSound
        (record s { awaited = forget i s.awaited; results = put_slot i (f i) s.results })
        (omega (arith, fewer, sound.few)) (length-put_slot i (f i) s.results ∙ sound.sized)
        (λ j k. sound.bounded j (is_awaited-forget i j s.awaited k))
        (λ n j k. elim (Bool-cases (j == i)) [
          | inl same ↦
              let e : i ≡ j = ground (arith, same) in
              inr (
                subst (λ j. slot_at j (put_slot i (f i) s.results) ≡ some (f j)) e
                  (slot_at-put_slot i (f i) s.results inside))
          | inr other ↦
              let d : j ≢ i = ground (arith, other) in
              ground (
                arith,
                sound.served n j k,
                is_awaited-forget_other i j s.awaited d,
                slot_at-put_slot_other i j (f i) s.results d,
              )
        ])
        (λ n. ground (arith, fewer, sound.busy n)) sound.within

  reject-IsSound :
      (s : Workers B) (i : ℕ) → is_awaited i s.awaited ≡ true → IsSound s → IsSound (reject i s)
  unfolding reject
  reject-IsSound s i h sound = record {
    few = omega (arith, length-forget i s.awaited h, sound.few);
    sized = sound.sized;
    bounded = λ j k. sound.bounded j (is_awaited-forget i j s.awaited k);
    served = λ n. cc;
    busy = λ n. cc;
    within = sound.within;
  }

  -- Each worker that starts takes the next index, as long as there are fewer than items.
  spawn-IsSound :
      (workers : ℕ) (s : Workers B)
      → length s.awaited + workers ≡ worker_count items concurrency
      → s.next_index ≡ length s.awaited
      → length s.results ≡ items
      → ((j : ℕ) → is_awaited j s.awaited ≡ true → j < s.next_index)
      → ((j : ℕ) → j < s.next_index → is_awaited j s.awaited ≡ true)
      → IsSound (spawn workers items s)
  unfolding spawn take_index
  spawn-IsSound zero s count same sized bounded all = record {
    few = omega (arith, count);
    sized = sized;
    bounded = bounded;
    served = λ n j h. inl (all j h);
    busy = λ n. inl (omega (arith, count));
    within = omega (arith, count, same);
  }
  spawn-IsSound (suc workers) s count same sized bounded all =
      let more : ltb s.next_index items ≡ true = ground (arith, count, same) in
      rw more (
        spawn-IsSound workers
          (record s { next_index = s.next_index + 1; awaited = s.next_index ∷ s.awaited })
          (omega (arith, count)) (omega (arith, same)) sized (λ j h. ground (arith, bounded j))
          (λ j h. ground (arith, all j)))

  start_workers-IsSound : IsSound (start_workers items concurrency)
  unfolding start_workers
  start_workers-IsSound =
      spawn-IsSound (worker_count items concurrency)
        (record { next_index = 0; awaited = []; results = empty_slots items; rejected = false })
        (omega arith) refl (length-empty_slots B items) (λ j h. cc) (λ j h. absurd (omega arith))

  WorkersStep-IsSound : {s t : Workers B} → WorkersStep s t → IsSound s → IsSound t
  WorkersStep-IsSound (fulfils s i h) sound = fulfil-IsSound s i h sound
  WorkersStep-IsSound (rejects s i h) sound = reject-IsSound s i h sound

  pub WorkersReach-IsSound :
      {t : Workers B} → WorkersReach (start_workers items concurrency) t → IsSound t
  WorkersReach-IsSound here = start_workers-IsSound
  WorkersReach-IsSound (next r st) = WorkersStep-IsSound st (WorkersReach-IsSound r)

  -- Whatever the order in which the items are settled, at most `max 1 concurrency` of them are
  -- awaited at once; and once nothing is awaited and nothing was rejected, there is one slot for
  -- each item and the slot of each index holds the worker's value for that index.
  pub WorkersReach-ordered :
      (t : Workers B)
      → WorkersReach (start_workers items concurrency) t
      → (length t.awaited ≤ max 1 concurrency)
        × (t.awaited ≡ []
            → t.rejected ≡ false
            → (length t.results ≡ items) × ((j : ℕ) → j < items → slot_at j t.results ≡ some (f j)))
  WorkersReach-ordered t r =
      let sound = WorkersReach-IsSound r in
      (
        omega (arith, sound.few),
        λ idle fine. (
          sound.sized,
          λ j h.
              let finished : j < t.next_index = ground (arith, sound.busy fine, idle) in
              ground (arith, sound.served fine j finished, idle),
        ),
      )
