-- ===== src/Breaker/Delay/Bounds.antt =====
-- The delay of src/services/provider-breaker.ts.
use Prim.Native.Nat.{bit_xor}
use opengecko.Prelude.{
  ℕ, ◌+◌, ◌-◌, ◌*◌, ◌^◌, ◌%◌, ◌≤◌, ◌<◌, min, String, List, [], ◌∷◌, ◌++◌, arith,
}
use opengecko.Breaker.Delay.{
  Options, jitter_unit, char_codes, decimal_from, hash_from, deterministic_jitter, jitter_ms,
  compute_backoff_ms,
}

hash_from-lt : (hash : ℕ) (cs : List ℕ) → hash < 4294967296 → hash_from hash cs < 4294967296
unfolding hash_from
hash_from-lt hash [] h = h
hash_from-lt hash (c ∷ cs) h =
    hash_from-lt ((bit_xor hash c * 16777619) % 4294967296) cs (omega arith)

-- The deterministic jitter lies between 0 and 1, whatever the provider and its failures.
pub deterministic_jitter-le :
    (provider_id : String) (failure_count : ℕ)
    → deterministic_jitter provider_id failure_count ≤ jitter_unit
unfolding deterministic_jitter
deterministic_jitter-le provider_id failure_count = omega (
  arith,
  hash_from-lt 2166136261
      (char_codes provider_id ++ (b':' ∷ decimal_from (failure_count + 1) failure_count []))
      (omega arith),
)

jitter_ms-le :
    (backoff ratio value : ℕ)
    → ratio ≤ 1000
    → value ≤ jitter_unit
    → jitter_ms backoff ratio value ≤ backoff
unfolding jitter_ms
jitter_ms-le backoff ratio value r v =
    let p : backoff * ratio ≤ backoff * 1000 = grind arith in
    let q : backoff * ratio * value ≤ backoff * ratio * jitter_unit = grind arith in
    omega (arith, p, q)

-- The delay without jitter.
abbrev pub plain_ms : Options → ℕ → ℕ
plain_ms o failure_count =
    min o.max_backoff_ms (o.base_backoff_ms * o.multiplier ^ (failure_count - 1))

-- The delay never passes the maximum, is at least the exponential delay cut off at the maximum,
-- and with a jitter ratio of at most 1 is at most twice that.
pub provider_backoff_bounds :
    (o : Options) (provider_id : String) (failure_count : ℕ)
    → o.jitter_ratio ≤ 1000
    → (plain_ms o failure_count ≤ compute_backoff_ms o provider_id failure_count)
      × (compute_backoff_ms o provider_id failure_count ≤ o.max_backoff_ms)
      × (compute_backoff_ms o provider_id failure_count ≤ 2 * plain_ms o failure_count)
unfolding compute_backoff_ms
provider_backoff_bounds o provider_id failure_count r =
    let j =
      jitter_ms-le (plain_ms o failure_count) o.jitter_ratio
        (min jitter_unit (o.jitter provider_id failure_count)) r (omega arith) in
    (omega arith, omega arith, omega (arith, j))
