-- ===== src/Scheduler/Registry/Names.antt =====
-- The names in the map of jobs of src/services/job-scheduler.ts, and what holds of every job.
use opengecko.Prelude.{
  String, ◌≡◌, refl, Bool, false, ◌||◌, some, List, [], ◌∷◌, ◌++◌, map, All, is_some, str_eq,
  eq_iff, Bool-cases, inl, inr, arith,
}
use mathlib.Core.Path.{subst}
use opengecko.Scheduler.{JobDefinition, JobState, new_job}
use opengecko.Scheduler.Registry.{find_job, replace_job, stop_job}

abbrev pub names : List JobState → List String
names = map (λ s. s.definition.name)

abbrev pub contains : String → List String → Bool
contains n [] = false
contains n (m ∷ ms) = str_eq m n || contains n ms

abbrev pub Distinct : List String → Type 0
Distinct [] = Unit
Distinct (n ∷ ns) = (contains n ns ≡ false) × Distinct ns

contains-append :
    (n m : String) (ns : List String) → contains n (ns ++ m ∷ []) ≡ (contains n ns || str_eq m n)
contains-append n m [] = ground arith
contains-append n m (k ∷ ns) = ground (arith, contains-append n m ns)

pub Distinct-append :
    (m : String) (ns : List String) → contains m ns ≡ false → Distinct ns → Distinct (ns ++ m ∷ [])
Distinct-append m [] c d = (refl, d)
Distinct-append m (n ∷ ns) c d = (
  ground (arith, contains-append n m ns, eq_iff n m, eq_iff m n),
  Distinct-append m ns (ground arith) d.1,
)

pub find_job-none_contains :
    (n : String) (jobs : List JobState)
    → is_some (find_job n jobs) ≡ false
    → contains n (names jobs) ≡ false
unfolding find_job
find_job-none_contains n [] h = refl
find_job-none_contains n (s ∷ jobs) h = ground (arith, find_job-none_contains n jobs)

pub names-append_new :
    (d : JobDefinition) (jobs : List JobState)
    → names (jobs ++ new_job d ∷ []) ≡ names jobs ++ d.name ∷ []
unfolding new_job
names-append_new d [] = refl
names-append_new d (s ∷ jobs) = rw (names-append_new d jobs)

-- A job with the definition of the one that `find_job` returns replaces it.
pub names-replace_job :
    (n : String) (s t : JobState) (jobs : List JobState)
    → find_job n jobs ≡ some s
    → t.definition ≡ s.definition
    → names (replace_job n t jobs) ≡ names jobs
unfolding find_job replace_job
names-replace_job n s t [] h e = cc
names-replace_job n s t (u ∷ jobs) h e = ground (arith, names-replace_job n s t jobs)

module _ (P : JobState → Type 0) where
  pub All-find_job :
      (n : String) (s : JobState) (jobs : List JobState)
      → find_job n jobs ≡ some s
      → All P jobs
      → P s
  unfolding find_job
  All-find_job n s [] h a = absurd (ground arith)
  All-find_job n s (u ∷ jobs) h a = elim (Bool-cases (str_eq u.definition.name n)) [
    | inl same ↦ subst P (ground arith) a.0
    | inr other ↦ All-find_job n s jobs (ground arith) a.1
  ]

  pub All-replace_job :
      (n : String) (t : JobState) (jobs : List JobState)
      → P t
      → All P jobs
      → All P (replace_job n t jobs)
  unfolding replace_job
  All-replace_job n t [] p a = a
  All-replace_job n t (u ∷ jobs) p a = ground (arith, All-replace_job n t jobs p a.1)

  pub All-append : (t : JobState) (jobs : List JobState) → P t → All P jobs → All P (jobs ++ t ∷ [])
  All-append t [] p a = (p, tt)
  All-append t (u ∷ jobs) p a = (a.0, All-append t jobs p a.1)

  pub All-stop_job :
      (jobs : List JobState)
      → ((s : JobState) → P s → P (stop_job s))
      → All P jobs
      → All P (map stop_job jobs)
  All-stop_job [] keep a = tt
  All-stop_job (s ∷ jobs) keep a = (keep s a.0, All-stop_job jobs keep a.1)

pub names-stop_job : (jobs : List JobState) → names (map stop_job jobs) ≡ names jobs
unfolding stop_job
names-stop_job [] = refl
names-stop_job (s ∷ jobs) = rw (names-stop_job jobs)
