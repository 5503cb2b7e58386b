-- ===== src/ResponseCache/Map.antt =====
-- The laws of the map of src/services/response-cache.ts.
use opengecko.Prelude.{
  ℕ, ◌≤◌, ◌<◌, String, ◌≡◌, refl, Option, none, some, List, [], ◌∷◌, ◌++◌, length, length-append,
  str_eq, eq_iff, if◌then◌else◌, arith,
}
use opengecko.ResponseCache.{
  CacheEntry, map_get, map_delete, map_set, refresh_lru_order, evict_overflow,
}

module _ {V : Type 0} where
  pub map_get-map_set :
      (k key : String) (e : CacheEntry V) (es : List (String × CacheEntry V))
      → map_get k (map_set key e es) ≡ (if str_eq key k then some e else map_get k es)
  unfolding map_get map_set
  map_get-map_set k key e [] = refl
  map_get-map_set k key e ((j, f) ∷ es) =
      ground (arith, map_get-map_set k key e es, eq_iff j key, eq_iff j k, eq_iff key k)

  pub map_get-map_delete :
      (k key : String) (es : List (String × CacheEntry V))
      → map_get k (map_delete key es) ≡ (if str_eq key k then none else map_get k es)
  unfolding map_get map_delete
  map_get-map_delete k key [] = ground arith
  map_get-map_delete k key ((j, f) ∷ es) =
      ground (arith, map_get-map_delete k key es, eq_iff j key, eq_iff j k, eq_iff key k)

  pub map_set_absent :
      (key : String) (e : CacheEntry V) (es : List (String × CacheEntry V))
      → map_get key es ≡ none
      → map_set key e es ≡ es ++ ((key, e) ∷ [])
  unfolding map_get map_set
  map_set_absent key e [] h = refl
  map_set_absent key e ((k, f) ∷ es) h = ground (arith, map_set_absent key e es)

  pub length-map_set :
      (key : String) (e f : CacheEntry V) (es : List (String × CacheEntry V))
      → map_get key es ≡ some f
      → length (map_set key e es) ≡ length es
  unfolding map_get map_set
  length-map_set key e f [] h = cc
  length-map_set key e f ((k, g) ∷ es) h = ground (arith, length-map_set key e f es)

  length-map_delete-le :
      (key : String) (es : List (String × CacheEntry V)) → length (map_delete key es) ≤ length es
  unfolding map_delete
  length-map_delete-le key [] = omega arith
  length-map_delete-le key ((k, e) ∷ es) = ground (arith, length-map_delete-le key es)

  length-map_delete-lt :
      (key : String) (f : CacheEntry V) (es : List (String × CacheEntry V))
      → map_get key es ≡ some f
      → length (map_delete key es) < length es
  unfolding map_get map_delete
  length-map_delete-lt key f [] h = cc
  length-map_delete-lt key f ((k, e) ∷ es) h =
      ground (arith, length-map_delete-lt key f es, length-map_delete-le key es)

  -- A hit moves its entry to the end.
  pub refresh_lru_order-append :
      (key : String) (e : CacheEntry V) (es : List (String × CacheEntry V))
      → refresh_lru_order key e es ≡ map_delete key es ++ ((key, e) ∷ [])
  unfolding refresh_lru_order
  refresh_lru_order-append key e es =
      map_set_absent key e (map_delete key es)
        (ground (arith, map_get-map_delete key key es, eq_iff key key))

  pub length-refresh_lru_order-le :
      (key : String) (e f : CacheEntry V) (es : List (String × CacheEntry V))
      → map_get key es ≡ some f
      → length (refresh_lru_order key e es) ≤ length es
  length-refresh_lru_order-le key e f es h =
      rw (refresh_lru_order-append, length-append) (omega (arith, length-map_delete-lt key f es h))

  -- Each key is held once.
  abbrev pub IsDistinct : List (String × CacheEntry V) → Type 0
  IsDistinct [] = Unit
  IsDistinct ((k, e) ∷ es) = (map_get k es ≡ none) × IsDistinct es

  pub map_set-IsDistinct :
      (key : String) (e : CacheEntry V) (es : List (String × CacheEntry V))
      → IsDistinct es
      → IsDistinct (map_set key e es)
  unfolding map_set map_get
  map_set-IsDistinct key e [] d = (refl, tt)
  map_set-IsDistinct key e ((k, f) ∷ es) d = ground (
    arith,
    map_set-IsDistinct key e es d.1,
    map_get-map_set k key e es,
    eq_iff k key,
    eq_iff key k,
  )

  pub map_delete-IsDistinct :
      (key : String) (es : List (String × CacheEntry V))
      → IsDistinct es
      → IsDistinct (map_delete key es)
  unfolding map_delete
  map_delete-IsDistinct key [] d = tt
  map_delete-IsDistinct key ((k, f) ∷ es) d =
      ground (arith, map_delete-IsDistinct key es d.1, map_get-map_delete k key es)

  pub evict_overflow-IsDistinct :
      (most : Option ℕ) (es : List (String × CacheEntry V))
      → IsDistinct es
      → IsDistinct (evict_overflow most es)
  unfolding evict_overflow
  evict_overflow-IsDistinct most [] d = tt
  evict_overflow-IsDistinct most ((k, e) ∷ es) d =
      ground (arith, evict_overflow-IsDistinct most es d.1)

  pub refresh-IsDistinct :
      (key : String) (e : CacheEntry V) (es : List (String × CacheEntry V))
      → IsDistinct es
      → IsDistinct (refresh_lru_order key e es)
  unfolding refresh_lru_order
  refresh-IsDistinct key e es d =
      map_set-IsDistinct key e (map_delete key es) (map_delete-IsDistinct key es d)

  pub map_get-refresh :
      (k key : String) (e : CacheEntry V) (es : List (String × CacheEntry V))
      → map_get key es ≡ some e
      → map_get k (refresh_lru_order key e es) ≡ map_get k es
  unfolding refresh_lru_order
  map_get-refresh k key e es h = ground (
    arith,
    map_get-map_set k key e (map_delete key es),
    map_get-map_delete k key es,
    eq_iff key k,
  )
