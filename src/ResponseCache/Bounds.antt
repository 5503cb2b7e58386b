-- ===== src/ResponseCache/Bounds.antt =====
-- The bound on the size of src/services/response-cache.ts, and what an eviction drops.
use opengecko.Prelude.{
  ℕ, ◌+◌, ◌≤◌, String, ◌≡◌, ◌⊎◌, ◌==◌, refl, true, false, Option, none, some, List, [], ◌∷◌, length,
  Option-cases, Bool-cases, inl, inr, arith,
}
use opengecko.ResponseCache.{
  CacheEntry, Cache, Options, map_get, map_set, is_zero, evict_overflow, is_fresh, serve, get_fresh,
  get_stale, set, delete_expired_entries, delete_expired,
}
use opengecko.ResponseCache.Map.{
  IsDistinct, map_set-IsDistinct, evict_overflow-IsDistinct, length-refresh_lru_order-le,
  refresh-IsDistinct,
}

abbrev pub Fits : Option ℕ → ℕ → Type 0
Fits none n = Unit
Fits (some most) n = n ≤ most

module _ {V : Type 0} where
  evict_overflow-Fits :
      (most : Option ℕ) (es : List (String × CacheEntry V))
      → Fits most (length (evict_overflow most es))
  unfolding evict_overflow
  evict_overflow-Fits none es = tt
  evict_overflow-Fits (some most) [] = omega arith
  evict_overflow-Fits (some most) (e ∷ es) = ground (arith, evict_overflow-Fits (some most) es)

  pub evict_overflow_fitting :
      (most : Option ℕ) (es : List (String × CacheEntry V))
      → Fits most (length es)
      → evict_overflow most es ≡ es
  unfolding evict_overflow
  evict_overflow_fitting most [] h = refl
  evict_overflow_fitting none (e ∷ es) h = refl
  evict_overflow_fitting (some most) (e ∷ es) h = ground arith

  -- No more entries than the options allow, and each key once.
  pub record IsBounded (o : Options V) (c : Cache V) : Type 0 where
    pub fits : Fits o.max_entries (length c.entries)
    pub distinct : IsDistinct c.entries

  module _ (o : Options V) where
    smaller : (most : Option ℕ) {m n : ℕ} → m ≤ n → Fits most n → Fits most m
    smaller none h f = tt
    smaller (some most) h f = omega arith

    pub serve-IsBounded :
        (key : String) (e : CacheEntry V) (c : Cache V)
        → map_get key c.entries ≡ some e
        → IsBounded o c
        → IsBounded o (serve o key e c).0
    unfolding serve
    serve-IsBounded key e c found h = record {
      fits = smaller o.max_entries (length-refresh_lru_order-le key e e c.entries found) h.fits;
      distinct = refresh-IsDistinct key e c.entries h.distinct;
    }

    pub get_fresh-cases :
        (key : String) (revision now : ℕ) (c : Cache V)
        → ((get_fresh o key revision now c ≡ (c, none))
            × ((e : CacheEntry V)
                → map_get key c.entries ≡ some e
                → is_fresh revision now e ≡ false))
          ⊎ ((e : CacheEntry V) × (map_get key c.entries ≡ some e)
              × (is_fresh revision now e ≡ true)
              × (get_fresh o key revision now c ≡ serve o key e c))
    unfolding get_fresh
    get_fresh-cases key revision now c = elim (Option-cases (map_get key c.entries)) [
      | inl missing ↦ inl (rw (missing, get_fresh), λ e found. cc)
      | inr (e, found) ↦ elim (Bool-cases (is_fresh revision now e)) [
        | inl fresh ↦ inr (e, found, fresh, rw (found, get_fresh) (rw fresh))
        | inr old ↦ inl (rw (found, get_fresh) (rw old), λ f same. ground arith)
      ]
    ]

    pub get_fresh-IsBounded :
        (key : String) (revision now : ℕ) (c : Cache V)
        → IsBounded o c
        → IsBounded o (get_fresh o key revision now c).0
    get_fresh-IsBounded key revision now c h = elim (get_fresh-cases key revision now c) [
      | inl (missed, _) ↦ rw missed h
      | inr (e, found, fresh, same) ↦ rw same (serve-IsBounded key e c found h)
    ]

    pub get_stale-IsBounded :
        (key : String) (revision : ℕ) (c : Cache V)
        → IsBounded o c
        → IsBounded o (get_stale o key revision c).0
    unfolding get_stale
    get_stale-IsBounded key revision c h = elim (Option-cases (map_get key c.entries)) [
      | inl missing ↦ rw (missing, get_stale) h
      | inr (e, found) ↦ elim (Bool-cases (e.revision == revision)) [
        | inl same ↦ rw (found, get_stale) (rw same (serve-IsBounded key e c found h))
        | inr other ↦ rw (found, get_stale) (rw other h)
      ]
    ]

    pub set-IsBounded :
        (key : String) (value : V) (revision now : ℕ) (c : Cache V)
        → IsBounded o c
        → IsBounded o (set o key value revision now c)
    unfolding set
    set-IsBounded key value revision now c h =
        let e : CacheEntry V = record {
          value = o.clone value;
          expires_at = now + o.ttl_ms;
          revision = revision;
        } in
        let added = map_set key e c.entries in
        elim (Bool-cases (is_zero o.max_entries)) [
          | inl none_kept ↦ simp none_kept h
          | inr some_kept ↦
              rw (some_kept, set)
                (record {
                  fits = evict_overflow-Fits o.max_entries added;
                  distinct =
                      evict_overflow-IsDistinct o.max_entries added
                        (map_set-IsDistinct key e c.entries h.distinct);
                })
        ]

    delete_expired_entries-le :
        (now : ℕ) (es : List (String × CacheEntry V))
        → length (delete_expired_entries o now es).0 + (delete_expired_entries o now es).1
          ≡ length es
    unfolding delete_expired_entries
    delete_expired_entries-le now [] = refl
    delete_expired_entries-le now ((k, e) ∷ es) = ground (arith, delete_expired_entries-le now es)

    pub delete_expired_entries-absent :
        (k : String) (now : ℕ) (es : List (String × CacheEntry V))
        → map_get k es ≡ none
        → map_get k (delete_expired_entries o now es).0 ≡ none
    unfolding delete_expired_entries map_get
    delete_expired_entries-absent k now [] h = refl
    delete_expired_entries-absent k now ((j, e) ∷ es) h =
        ground (arith, delete_expired_entries-absent k now es)

    delete_expired_entries-IsDistinct :
        (now : ℕ) (es : List (String × CacheEntry V))
        → IsDistinct es
        → IsDistinct (delete_expired_entries o now es).0
    unfolding delete_expired_entries
    delete_expired_entries-IsDistinct now [] d = tt
    delete_expired_entries-IsDistinct now ((k, e) ∷ es) d = ground (
      arith,
      delete_expired_entries-IsDistinct now es d.1,
      delete_expired_entries-absent k now es d.0,
    )

    pub delete_expired-IsBounded :
        (now : ℕ) (c : Cache V) → IsBounded o c → IsBounded o (delete_expired o now c).0
    unfolding delete_expired
    delete_expired-IsBounded now c h = record {
      fits = smaller o.max_entries (omega (arith, delete_expired_entries-le now c.entries)) h.fits;
      distinct = delete_expired_entries-IsDistinct now c.entries h.distinct;
    }
