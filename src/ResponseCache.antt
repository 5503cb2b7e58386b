-- ===== src/ResponseCache.antt =====
-- src/services/response-cache.ts: a cache of responses with a time to live, a revision, a bound on
-- its size, and one producer in flight for each key. `entries` is the `Map`, in its order: the
-- first entry is the oldest. Instants are milliseconds.
pub mod Map
pub mod Bounds
pub mod Reads
pub mod Producers
mod Tests
use opengecko.Prelude.{
  ℕ, ◌+◌, ◌==◌, String, Bool, true, false, not, ◌&&◌, ◌||◌, Option, none, some, List, [], ◌∷◌, ◌++◌,
  length, ltb, leb, str_eq, if◌then◌else◌,
}

-- A producer in flight: its `now`, under its `inFlightKey`, which joins the revision to the key.
pub record Producer : Type 0 where
  pub revision : ℕ
  pub key : String
  pub now : ℕ

-- `inFlight.get(inFlightKey)`
pub find_producer : ℕ → String → List Producer → Option Producer
find_producer revision key [] = none
find_producer revision key (p ∷ ps) =
    if p.revision == revision && str_eq p.key key then some p else find_producer revision key ps

pub delete_producer : ℕ → String → List Producer → List Producer
delete_producer revision key [] = []
delete_producer revision key (p ∷ ps) =
    let rest = delete_producer revision key ps in
    if p.revision == revision && str_eq p.key key then rest else p ∷ rest

abbrev pub exceeds : ℕ → Option ℕ → Bool
exceeds n none = false
exceeds n (some most) = ltb most n

abbrev pub is_zero : Option ℕ → Bool
is_zero none = false
is_zero (some n) = n == 0

module _ (V : Type 0) where
  pub record CacheEntry : Type 0 where
    pub value : V
    pub expires_at : ℕ
    pub revision : ℕ

  pub record Cache : Type 0 where
    pub entries : List (String × CacheEntry)
    pub in_flight : List Producer

  -- `max_entries` is none where the options give none: there is no bound. `truthy` is the test
  -- that JavaScript makes of a value in `if (cached)`.
  pub record Options : Type 0 where
    pub ttl_ms : ℕ
    pub max_entries : Option ℕ
    pub clone : V → V
    pub truthy : V → Bool

-- What a call of `getOrSet` does before it waits: it returns a cached value, waits for a
-- producer in flight, or starts its own.
pub data Request (V : Type 0) : Type 0 where
  hit : V → Request V
  joined : Request V
  started : Request V

module _ {V : Type 0} where
  pub create_response_cache : Cache V
  create_response_cache = record { entries = []; in_flight = [] }

  -- `Map.get`, `Map.delete` and `Map.set`: a key that is present keeps its place. A map holds a
  -- key once, so to drop every entry with the key is to drop one.
  pub map_get : String → List (String × CacheEntry V) → Option (CacheEntry V)
  map_get key [] = none
  map_get key ((k, e) ∷ es) = if str_eq k key then some e else map_get key es

  pub map_delete : String → List (String × CacheEntry V) → List (String × CacheEntry V)
  map_delete key [] = []
  map_delete key ((k, e) ∷ es) =
      let rest = map_delete key es in if str_eq k key then rest else (k, e) ∷ rest

  pub map_set : String → CacheEntry V → List (String × CacheEntry V) → List (String × CacheEntry V)
  map_set key e [] = (key, e) ∷ []
  map_set key e ((k, f) ∷ es) =
      let rest = map_set key e es in if str_eq k key then (k, e) ∷ es else (k, f) ∷ rest

  pub refresh_lru_order :
      String → CacheEntry V → List (String × CacheEntry V) → List (String × CacheEntry V)
  unfolding map_delete map_set
  refresh_lru_order key e es = map_set key e (map_delete key es)

  -- The loop drops the oldest entry as long as there are too many.
  pub evict_overflow : Option ℕ → List (String × CacheEntry V) → List (String × CacheEntry V)
  evict_overflow most [] = []
  evict_overflow most (e ∷ es) =
      let rest = evict_overflow most es in if exceeds (length (e ∷ es)) most then rest else e ∷ es

  -- `!cached || cached.revision !== revision || cached.expiresAt <= now`, negated.
  abbrev pub is_fresh : ℕ → ℕ → CacheEntry V → Bool
  is_fresh revision now e = e.revision == revision && not (leb e.expires_at now)

  -- The part of `getOrSet` behind a miss.
  join_or_start : String → ℕ → ℕ → Cache V → Cache V × Request V
  unfolding find_producer
  join_or_start key revision now c = elim (find_producer revision key c.in_flight) [
    | some p ↦ (c, joined)
    | none ↦ (
      record c {
        in_flight = c.in_flight ++ (record { revision = revision; key = key; now = now } ∷ []);
      },
      started,
    )
  ]

  module _ (o : Options V) where
    -- A hit makes its entry the youngest, and returns a copy of its value.
    pub serve : String → CacheEntry V → Cache V → Cache V × Option V
    unfolding refresh_lru_order
    serve key e c =
        (record c { entries = refresh_lru_order key e c.entries }, some (o.clone e.value))

    pub get_fresh : String → ℕ → ℕ → Cache V → Cache V × Option V
    unfolding map_get serve
    get_fresh key revision now c = elim (map_get key c.entries) [
      | none ↦ (c, none)
      | some e ↦ if is_fresh revision now e then serve key e c else (c, none)
    ]

    pub get_stale : String → ℕ → Cache V → Cache V × Option V
    unfolding map_get serve
    get_stale key revision c = elim (map_get key c.entries) [
      | none ↦ (c, none)
      | some e ↦ if e.revision == revision then serve key e c else (c, none)
    ]

    pub set : String → V → ℕ → ℕ → Cache V → Cache V
    unfolding map_set evict_overflow
    set key value revision now c =
        let e : CacheEntry V = record {
          value = o.clone value;
          expires_at = now + o.ttl_ms;
          revision = revision;
        } in
        if is_zero o.max_entries
        then c
        else record c { entries = evict_overflow o.max_entries (map_set key e c.entries) }

    pub delete_expired_entries : ℕ → List (String × CacheEntry V) → List (String × CacheEntry V) × ℕ
    delete_expired_entries now [] = ([], 0)
    delete_expired_entries now ((k, e) ∷ es) =
        let (kept, deleted) = delete_expired_entries now es in
        if leb now e.expires_at then ((k, e) ∷ kept, deleted) else (kept, deleted + 1)

    pub delete_expired : ℕ → Cache V → Cache V × ℕ
    unfolding delete_expired_entries
    delete_expired now c =
        let (kept, deleted) = delete_expired_entries now c.entries in
        (record c { entries = kept }, deleted)

    pub size : Cache V → ℕ
    size c = length c.entries

    pub get_or_set : String → ℕ → ℕ → Cache V → Cache V × Request V
    unfolding get_fresh join_or_start
    get_or_set key revision now c =
        let (d, cached) = get_fresh key revision now c in
        elim cached [
          | none ↦ join_or_start key revision now d
          | some v ↦ if o.truthy v then (d, hit v) else join_or_start key revision now d
        ]

    -- The producer's value arrives, and is stored.
    pub produced : Producer → V → Cache V → Cache V
    unfolding set
    produced p value c = set p.key value p.revision p.now c

    -- The `finally` block of the call that started the producer, whether it failed or not.
    pub release : Producer → Cache V → Cache V
    unfolding delete_producer
    release p c = record c { in_flight = delete_producer p.revision p.key c.in_flight }
