-- ===== src/ResponseCache/Reads.antt =====
-- What reads of src/services/response-cache.ts return after writes, sweeps and evictions.
use opengecko.Prelude.{
  ℕ, suc, ◌+◌, ◌≤◌, ◌<◌, ◌==◌, String, ◌≡◌, refl, ap, ◌∙◌, false, not, ◌&&◌, Option, none, some,
  List, [], ◌∷◌, ◌++◌, length, length-append, eq_iff, leb, Option-cases, Bool-cases, inl, inr,
  if◌then◌else◌, arith,
}
use opengecko.ResponseCache.{
  CacheEntry, Cache, Options, map_get, map_set, map_delete, is_zero, evict_overflow, is_fresh,
  serve, get_fresh, set, delete_expired_entries, delete_expired,
}
use opengecko.ResponseCache.Map.{
  IsDistinct, map_get-map_set, map_set_absent, length-map_set, refresh_lru_order-append,
}
use opengecko.ResponseCache.Bounds.{
  IsBounded, evict_overflow_fitting, get_fresh-cases, delete_expired_entries-absent,
}

module _ {V : Type 0} where
  map_get-append :
      (key : String) (e : CacheEntry V) (es : List (String × CacheEntry V))
      → map_get key es ≡ none
      → map_get key (es ++ ((key, e) ∷ [])) ≡ some e
  unfolding map_get
  map_get-append key e [] h = ground (arith, eq_iff key key)
  map_get-append key e ((k, f) ∷ es) h = ground (arith, map_get-append key e es)

  -- An eviction keeps the youngest entry, where at least one is allowed.
  map_get-evict :
      (most : Option ℕ) (key : String) (e : CacheEntry V) (es : List (String × CacheEntry V))
      → is_zero most ≡ false
      → map_get key es ≡ none
      → map_get key (evict_overflow most (es ++ ((key, e) ∷ []))) ≡ some e
  unfolding evict_overflow map_get
  map_get-evict none key e [] z h = ground (arith, eq_iff key key)
  map_get-evict (some most) key e [] z h = ground (arith, eq_iff key key)
  map_get-evict none key e ((k, f) ∷ es) z h =
      ground (arith, map_get-evict none key e es, map_get-append key e es)
  map_get-evict (some most) key e ((k, f) ∷ es) z h =
      ground (arith, map_get-evict (some most) key e es, map_get-append key e es)

  evict_full :
      (most : ℕ) (k : String) (e : CacheEntry V) (new : String × CacheEntry V)
      (es : List (String × CacheEntry V))
      → length es ≡ most
      → evict_overflow (some (suc most)) (((k, e) ∷ es) ++ (new ∷ [])) ≡ es ++ (new ∷ [])
  unfolding evict_overflow
  evict_full most k e new es n = ground (
    arith,
    length-append es (new ∷ []),
    evict_overflow_fitting (some (suc most)) (es ++ (new ∷ []))
        (omega (arith, length-append es (new ∷ []))),
  )

  module _ (o : Options V) where
    written : V → ℕ → ℕ → CacheEntry V
    written value revision now = record {
      value = o.clone value;
      expires_at = now + o.ttl_ms;
      revision = revision;
    }

    map_get-set :
        (key : String) (value : V) (revision now : ℕ) (c : Cache V)
        → is_zero o.max_entries ≡ false
        → IsBounded o c
        → map_get key (set o key value revision now c).entries ≡ some (written value revision now)
    unfolding set written
    map_get-set key value revision now c z h =
        let e = written value revision now in
        rw (z, set)
          (elim (Option-cases (map_get key c.entries)) [
            | inl missing ↦
                rw (map_set_absent key e c.entries missing)
                  (map_get-evict o.max_entries key e c.entries z missing)
            | inr (f, found) ↦
                rw
                  (evict_overflow_fitting o.max_entries (map_set key e c.entries)
                    (rw (length-map_set key e f c.entries found) h.fits))
                  (ground (arith, map_get-map_set key key e c.entries, eq_iff key key))
          ])

    value-get_fresh :
        (key : String) (revision now : ℕ) (c : Cache V) (e : CacheEntry V)
        → map_get key c.entries ≡ some e
        → (get_fresh o key revision now c).1
          ≡ (if is_fresh revision now e then some (o.clone e.value) else none)
    unfolding get_fresh serve
    value-get_fresh key revision now c e found =
        rw (found, get_fresh)
          (elim (Bool-cases (is_fresh revision now e)) [ inl fresh ↦ rw fresh | inr old ↦ rw old ])

    -- A value that is written is read back, as a copy of a copy, until its time to live is over,
    -- under the same revision; under another revision, or later, the read misses.
    pub get_fresh-set :
        (key : String) (value : V) (revision now asked later : ℕ) (c : Cache V)
        → is_zero o.max_entries ≡ false
        → IsBounded o c
        → (get_fresh o key asked later (set o key value revision now c)).1 ≡ (
            if revision == asked && not (leb (now + o.ttl_ms) later)
            then some (o.clone (o.clone value))
            else none)
    unfolding written
    get_fresh-set key value revision now asked later c z h =
        value-get_fresh key asked later (set o key value revision now c)
          (written value revision now) (map_get-set key value revision now c z h)

    map_get-delete_expired :
        (key : String) (now : ℕ) (es : List (String × CacheEntry V))
        → IsDistinct es
        → map_get key (delete_expired_entries o now es).0 ≡ elim (map_get key es) [
          | none ↦ none
          | some e ↦ if leb now e.expires_at then some e else none
        ]
    unfolding map_get delete_expired_entries
    map_get-delete_expired key now [] d = refl
    map_get-delete_expired key now ((k, e) ∷ es) d = ground (
      arith,
      map_get-delete_expired key now es d.1,
      delete_expired_entries-absent o k now es d.0,
      eq_iff k key,
    )

    -- Dropping the expired entries changes no read at that instant or later.
    pub delete_expired-get_fresh :
        (key : String) (revision now later : ℕ) (c : Cache V)
        → now ≤ later
        → IsBounded o c
        → (get_fresh o key revision later (delete_expired o now c).0).1
          ≡ (get_fresh o key revision later c).1
    unfolding get_fresh serve delete_expired
    delete_expired-get_fresh key revision now later c le h =
        ground (arith, map_get-delete_expired key now c.entries h.distinct)

    -- In a full cache the write of a new key drops exactly the oldest entry.
    pub set_full :
        (key : String) (value : V) (revision now most : ℕ) (k : String) (e : CacheEntry V)
        (es : List (String × CacheEntry V)) (c : Cache V)
        → o.max_entries ≡ some (suc most)
        → c.entries ≡ (k, e) ∷ es
        → length es ≡ most
        → map_get key c.entries ≡ none
        → (set o key value revision now c).entries
          ≡ es
            ++ ((
              key,
              record { value = o.clone value; expires_at = now + o.ttl_ms; revision = revision },
            )
                ∷ [])
    unfolding set written
    set_full key value revision now most k e es c m full n missing =
        let new = written value revision now in
        ground
          (arith, map_set_absent key new c.entries missing, evict_full most k e (key, new) es n)

    -- A hit makes its entry the youngest: it is the last one, behind all the others.
    pub get_fresh_youngest :
        (key : String) (revision now : ℕ) (c : Cache V) (v : V)
        → (get_fresh o key revision now c).1 ≡ some v
        → (e : CacheEntry V) × (map_get key c.entries ≡ some e)
          × (v ≡ o.clone e.value)
          × (now < e.expires_at)
          × (e.revision ≡ revision)
          × ((get_fresh o key revision now c).0.entries
              ≡ map_delete key c.entries ++ ((key, e) ∷ []))
    unfolding serve
    get_fresh_youngest key revision now c v got = elim (get_fresh-cases o key revision now c) [
      | inl (missed, _) ↦ cc (rw missed at got)
      | inr (e, found, fresh, same) ↦ (
        e,
        found,
        ground arith,
        ground arith,
        ground arith,
        ap (λ r. r.0.entries) same ∙ refresh_lru_order-append key e c.entries,
      )
    ]
