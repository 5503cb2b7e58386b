-- ===== src/ResponseCache/Producers.antt =====
-- Sequences of calls of src/services/response-cache.ts, and the producers in flight.
use opengecko.Prelude.{
  ℕ, ◌+◌, ◌≤◌, ◌==◌, String, ◌≡◌, ◌≢◌, ◌⊎◌, refl, true, ◌&&◌, Option, none, some, List, [], ◌∷◌,
  ◌++◌, is_some, str_eq, eq_iff, Option-cases, Bool-cases, inl, inr, if◌then◌else◌, arith,
}
use opengecko.ResponseCache.{
  Cache, Options, Producer, hit, joined, started, create_response_cache, get_fresh, get_stale,
  serve, set, delete_expired, find_producer, delete_producer, join_or_start, get_or_set, produced,
  release,
}
use opengecko.ResponseCache.Bounds.{
  Fits, IsBounded, get_fresh-IsBounded, get_stale-IsBounded, set-IsBounded,
  delete_expired-IsBounded,
}

-- How many producers are in flight for a revision and a key.
pub in_flight_count : ℕ → String → List Producer → ℕ
in_flight_count revision key [] = 0
in_flight_count revision key (p ∷ ps) =
    (if p.revision == revision && str_eq p.key key then 1 else 0) + in_flight_count revision key ps

count-append :
    (revision : ℕ) (key : String) (p : Producer) (ps : List Producer)
    → in_flight_count revision key (ps ++ (p ∷ []))
      ≡ (if p.revision == revision && str_eq p.key key then 1 else 0)
        + in_flight_count revision key ps
unfolding in_flight_count
count-append revision key p [] = refl
count-append revision key p (q ∷ ps) = omega (arith, count-append revision key p ps)

count_absent :
    (revision : ℕ) (key : String) (ps : List Producer)
    → find_producer revision key ps ≡ none
    → in_flight_count revision key ps ≡ 0
unfolding in_flight_count find_producer
count_absent revision key [] h = refl
count_absent revision key (p ∷ ps) h = ground (arith, count_absent revision key ps)

count-delete_producer :
    (revision other : ℕ) (key k : String) (ps : List Producer)
    → in_flight_count revision key (delete_producer other k ps) ≤ in_flight_count revision key ps
unfolding in_flight_count delete_producer
count-delete_producer revision other key k [] = omega arith
count-delete_producer revision other key k (p ∷ ps) =
    ground (arith, count-delete_producer revision other key k ps)

find-delete_producer :
    (revision : ℕ) (key : String) (ps : List Producer)
    → find_producer revision key (delete_producer revision key ps) ≡ none
unfolding find_producer delete_producer
find-delete_producer revision key [] = refl
find-delete_producer revision key (p ∷ ps) = ground (arith, find-delete_producer revision key ps)

-- A call of one of the operations, or the progress of a producer.
pub data CacheCall (V : Type 0) : Type 0 where
  reads : String → (revision now : ℕ) → CacheCall V
  reads_stale : String → (revision : ℕ) → CacheCall V
  writes : String → V → (revision now : ℕ) → CacheCall V
  sweeps : ℕ → CacheCall V
  requests : String → (revision now : ℕ) → CacheCall V
  arrives : Producer → V → CacheCall V
  releases : Producer → CacheCall V

abbrev IsSingle : List Producer → Type 0
IsSingle ps = (revision : ℕ) (key : String) → in_flight_count revision key ps ≤ 1

join_or_start-cases :
    {V : Type 0} (key : String) (revision now : ℕ) (c : Cache V)
    → let d = (join_or_start key revision now c).0 in
      let answer = (join_or_start key revision now c).1 in
      ((answer ≡ joined) × (is_some (find_producer revision key c.in_flight) ≡ true) × (d ≡ c))
      ⊎ ((answer ≡ started)
          × (find_producer revision key c.in_flight ≡ none)
          × (d.entries ≡ c.entries)
          × (d.in_flight
              ≡ c.in_flight ++ (record { revision = revision; key = key; now = now } ∷ [])))
unfolding join_or_start
join_or_start-cases key revision now c = ground arith

Fits-zero : (most : Option ℕ) → Fits most 0
Fits-zero none = tt
Fits-zero (some most) = omega arith

module _ {V : Type 0} (o : Options V) where
  pub call : CacheCall V → Cache V → Cache V
  call (reads key revision now) c = (get_fresh o key revision now c).0
  call (reads_stale key revision) c = (get_stale o key revision c).0
  call (writes key value revision now) c = set o key value revision now c
  call (sweeps now) c = (delete_expired o now c).0
  call (requests key revision now) c = (get_or_set o key revision now c).0
  call (arrives p value) c = produced o p value c
  call (releases p) c = release o p c

  in_flight_kept :
      (key : String) (revision now : ℕ) (c : Cache V)
      → ((get_fresh o key revision now c).0.in_flight ≡ c.in_flight)
        × ((get_stale o key revision c).0.in_flight ≡ c.in_flight)
        × ((delete_expired o now c).0.in_flight ≡ c.in_flight)
  unfolding get_fresh get_stale serve delete_expired
  in_flight_kept key revision now c = (ground arith, ground arith, refl)

  set-in_flight :
      (key : String) (value : V) (revision now : ℕ) (c : Cache V)
      → (set o key value revision now c).in_flight ≡ c.in_flight
  unfolding set
  set-in_flight key value revision now c = ground arith

  -- Which of the three a request does: a hit leaves the producers; a request joins one only
  -- where there is one for its revision and key, and starts one only where there is none.
  pub get_or_set-cases :
      (key : String) (revision now : ℕ) (c : Cache V)
      → let d = (get_or_set o key revision now c).0 in
        let answer = (get_or_set o key revision now c).1 in
        ((v : V) × (answer ≡ hit v)
          × ((get_fresh o key revision now c).1 ≡ some v)
          × (d.in_flight ≡ c.in_flight))
        ⊎ ((answer ≡ joined)
            × (is_some (find_producer revision key c.in_flight) ≡ true)
            × (d.in_flight ≡ c.in_flight))
        ⊎ ((answer ≡ started)
            × (find_producer revision key c.in_flight ≡ none)
            × (d.in_flight
                ≡ c.in_flight ++ (record { revision = revision; key = key; now = now } ∷ [])))
  unfolding get_or_set
  get_or_set-cases key revision now c =
      let kept = (in_flight_kept key revision now c).0 in
      let d = (get_fresh o key revision now c).0 in
      elim (Option-cases (get_fresh o key revision now c).1) [
        | inl missed ↦ ground (arith, kept, join_or_start-cases key revision now d)
        | inr (v, got) ↦ elim (Bool-cases (o.truthy v)) [
          | inl good ↦ inl (v, ground arith, got, ground (arith, kept))
          | inr bad ↦ ground (arith, kept, join_or_start-cases key revision now d)
        ]
      ]

  IsSingle-start :
      (revision now : ℕ) (key : String) (ps : List Producer)
      → find_producer revision key ps ≡ none
      → IsSingle ps
      → IsSingle (ps ++ (record { revision = revision; key = key; now = now } ∷ []))
  IsSingle-start revision now key ps absent h r k = ground (
    arith,
    count-append r k (record { revision = revision; key = key; now = now }) ps,
    count_absent revision key ps absent,
    h r k,
    eq_iff key k,
  )

  get_or_set-entries :
      (key : String) (revision now : ℕ) (c : Cache V)
      → (get_or_set o key revision now c).0.entries ≡ (get_fresh o key revision now c).0.entries
  unfolding get_or_set join_or_start
  get_or_set-entries key revision now c = ground arith

  same_entries-IsBounded : (c d : Cache V) → d.entries ≡ c.entries → IsBounded o c → IsBounded o d
  same_entries-IsBounded c d e b = record { fits = rw e b.fits; distinct = rw e b.distinct }

  get_or_set-IsSingle :
      (key : String) (revision now : ℕ) (c : Cache V)
      → IsSingle c.in_flight
      → IsSingle (get_or_set o key revision now c).0.in_flight
  get_or_set-IsSingle key revision now c h = elim (get_or_set-cases key revision now c) [
    | inl (v, _, _, same) ↦ rw same h
    | inr (inl (_, _, same)) ↦ rw same h
    | inr (inr (_, absent, same)) ↦ rw same (IsSingle-start revision now key c.in_flight absent h)
  ]

  abbrev IsSound : Cache V → Type 0
  IsSound c = IsBounded o c × IsSingle c.in_flight

  call-IsSound : (k : CacheCall V) (c : Cache V) → IsSound c → IsSound (call k c)
  unfolding call produced release
  call-IsSound (reads key revision now) c (b, h) =
      (get_fresh-IsBounded o key revision now c b, rw (in_flight_kept key revision now c).0 h)
  call-IsSound (reads_stale key revision) c (b, h) =
      (get_stale-IsBounded o key revision c b, rw (in_flight_kept key revision 0 c).1 h)
  call-IsSound (writes key value revision now) c (b, h) =
      (set-IsBounded o key value revision now c b, rw (set-in_flight key value revision now c) h)
  call-IsSound (sweeps now) c (b, h) =
      (delete_expired-IsBounded o now c b, rw (in_flight_kept "" 0 now c).2 h)
  call-IsSound (requests key revision now) c (b, h) = (
    same_entries-IsBounded (get_fresh o key revision now c).0 (get_or_set o key revision now c).0
        (get_or_set-entries key revision now c) (get_fresh-IsBounded o key revision now c b),
    get_or_set-IsSingle key revision now c h,
  )
  call-IsSound (arrives p value) c (b, h) = (
    set-IsBounded o p.key value p.revision p.now c b,
    rw (set-in_flight p.key value p.revision p.now c) h,
  )
  call-IsSound (releases p) c (b, h) = (
    same_entries-IsBounded c (release o p c) refl b,
    λ r k. omega (arith, h r k, count-delete_producer r p.revision k p.key c.in_flight),
  )

  pub calls : List (CacheCall V) → Cache V → Cache V
  unfolding call
  calls [] c = c
  calls (k ∷ ks) c = calls ks (call k c)

  calls-IsSound : (ks : List (CacheCall V)) (c : Cache V) → IsSound c → IsSound (calls ks c)
  unfolding calls
  calls-IsSound [] c h = h
  calls-IsSound (k ∷ ks) c h = calls-IsSound ks (call k c) (call-IsSound k c h)

  -- After any calls on a fresh cache, in any order, it holds no more entries than its options
  -- allow and each key once, and for each revision and key at most one producer is in flight.
  pub calls-create :
      (ks : List (CacheCall V))
      → let c = calls ks create_response_cache in
        IsBounded o c
        × ((revision : ℕ) (key : String) → in_flight_count revision key c.in_flight ≤ 1)
  unfolding create_response_cache in_flight_count
  calls-create ks =
      calls-IsSound ks create_response_cache
        (record { fits = Fits-zero o.max_entries; distinct = tt }, λ r k. omega arith)

  -- Once a producer is released, no request for its revision and key waits for it: the request
  -- finds a cached value or starts a producer of its own.
  pub release-get_or_set :
      (p : Producer) (now : ℕ) (c : Cache V)
      → (get_or_set o p.key p.revision now (release o p c)).1 ≢ joined
  unfolding release
  release-get_or_set p now c e = ground (
    arith,
    get_or_set-cases p.key p.revision now (release o p c),
    find-delete_producer p.revision p.key c.in_flight,
  )
