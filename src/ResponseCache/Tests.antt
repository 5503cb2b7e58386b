-- ===== src/ResponseCache/Tests.antt =====
-- The theorems on src/services/response-cache.ts at concrete caches.
use opengecko.Prelude.{
  ℕ, ◌+◌, ◌≤◌, ◌==◌, String, ◌≡◌, ◌≢◌, refl, not, ◌&&◌, none, some, List, [], ◌∷◌, leb,
  if◌then◌else◌, arith,
}
use opengecko.ResponseCache.{
  CacheEntry, Cache, Options, Producer, joined, create_response_cache, map_get, serve, get_fresh,
  set, get_or_set, release,
}
use opengecko.ResponseCache.Bounds.{IsBounded}
use opengecko.ResponseCache.Reads.{get_fresh-set}
use opengecko.ResponseCache.Producers.{
  in_flight_count, CacheCall, writes, requests, arrives, releases, calls, calls-create,
  release-get_or_set,
}

abbrev two_at_most : Options ℕ
two_at_most = record {
  ttl_ms = 1000;
  max_entries = some 2;
  clone = λ v. v;
  truthy = λ v. not (v == 0);
}

abbrev entry : ℕ → ℕ → CacheEntry ℕ
entry value expires_at = record { value = value; expires_at = expires_at; revision = 1 }

abbrev full : Cache ℕ
full = record { entries = ("a", entry 7 1500) ∷ ("b", entry 8 1600) ∷ []; in_flight = [] }

full-IsBounded : IsBounded two_at_most full
unfolding map_get
full-IsBounded = record { fits = omega arith; distinct = (refl, (refl, tt)) }

abbrev producer : Producer
producer = record { revision = 1; key = "c"; now = 900 }

abbrev some_calls : List (CacheCall ℕ)
some_calls =
    writes "a" 7 1 500
    ∷ writes "b" 8 1 600
    ∷ requests "c" 1 900
    ∷ requests "c" 1 950
    ∷ arrives producer 9
    ∷ releases producer
    ∷ []

calls-create_example :
    let c = calls two_at_most some_calls create_response_cache in
    IsBounded two_at_most c
    × ((revision : ℕ) (key : String) → in_flight_count revision key c.in_flight ≤ 1)
calls-create_example = calls-create two_at_most some_calls

get_fresh-set_example :
    (get_fresh two_at_most "c" 1 1000 (set two_at_most "c" 9 1 900 full)).1
    ≡ (if 1 == 1 && not (leb (900 + 1000) 1000) then some 9 else none)
get_fresh-set_example = get_fresh-set two_at_most "c" 9 1 900 1 1000 full refl full-IsBounded

missing_c : map_get "c" full.entries ≡ none
unfolding map_get
missing_c = refl

fresh_a : (get_fresh two_at_most "a" 1 1000 full).1 ≡ some 7
unfolding get_fresh map_get serve
fresh_a = refl

abbrev producing : Cache ℕ
producing = record { entries = full.entries; in_flight = producer ∷ [] }

release-get_or_set_example :
    (get_or_set two_at_most "c" 1 1000 (release two_at_most producer producing)).1 ≢ joined
release-get_or_set_example = release-get_or_set two_at_most producer 1000 producing
