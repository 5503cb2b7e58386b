-- ===== src/Breaker/Delay.antt =====
-- The options and the delay of src/services/provider-breaker.ts. A ratio is a fraction:
-- `jitter_ratio` counts thousandths, and a value of `jitter` counts parts of 0xffffffff, as the
-- deterministic jitter does.
pub mod Bounds
use Prim.Native.Nat.{bit_xor}
use Prim.Native.Char.{code}
use opengecko.Prelude.{
  ℕ, zero, suc, ◌+◌, ◌-◌, ◌*◌, ◌/◌, ◌%◌, ◌^◌, min, String, Option, List, [], ◌∷◌, ◌++◌, ltb,
  or_else, if◌then◌else◌,
}

pub record Options : Type 0 where
  pub base_backoff_ms : ℕ
  pub max_backoff_ms : ℕ
  pub multiplier : ℕ
  pub jitter_ratio : ℕ
  pub jitter : String → ℕ → ℕ

-- `0xffffffff`
abbrev pub jitter_unit : ℕ
jitter_unit = 4294967295

-- The UTF-16 units of a text, for texts of the basic plane.
char_codes : String → List ℕ
char_codes String.[] = []
char_codes (String.◌∷◌ c s) = code c ∷ char_codes s

-- The decimal digits of a number, by fuel above its value.
decimal_from : ℕ → ℕ → List ℕ → List ℕ
decimal_from zero n acc = acc
decimal_from (suc fuel) n acc =
    let digit = b'0' + n % 10 in
    let rest = decimal_from fuel (n / 10) (digit ∷ acc) in if ltb n 10 then digit ∷ acc else rest

-- `hash ^= c; hash = Math.imul(hash, 16777619)` on the 32-bit pattern of `hash`.
hash_from : ℕ → List ℕ → ℕ
hash_from hash [] = hash
hash_from hash (c ∷ cs) = hash_from ((bit_xor hash c * 16777619) % 4294967296) cs

pub deterministic_jitter : String → ℕ → ℕ
unfolding char_codes decimal_from hash_from
deterministic_jitter provider_id failure_count =
    hash_from 2166136261
      (char_codes provider_id ++ (b':' ∷ decimal_from (failure_count + 1) failure_count []))

-- A partial `Options`.
pub record PartialOptions : Type 0 where
  pub base_backoff_ms : Option ℕ
  pub max_backoff_ms : Option ℕ
  pub multiplier : Option ℕ
  pub jitter_ratio : Option ℕ
  pub jitter : Option (String → ℕ → ℕ)

unfoldable pub normalize_options : PartialOptions → Options
unfolding deterministic_jitter
normalize_options o = record {
  base_backoff_ms = or_else o.base_backoff_ms 30000;
  max_backoff_ms = or_else o.max_backoff_ms 300000;
  multiplier = or_else o.multiplier 2;
  jitter_ratio = or_else o.jitter_ratio 100;
  jitter = or_else o.jitter deterministic_jitter;
}

-- `Math.round(backoff * jitterRatio * jitterValue)`, exactly.
pub jitter_ms : ℕ → ℕ → ℕ → ℕ
jitter_ms backoff ratio value =
    (2 * (backoff * ratio * value) + 1000 * jitter_unit) / (2000 * jitter_unit)

unfoldable pub compute_backoff_ms : Options → String → ℕ → ℕ
unfolding jitter_ms
compute_backoff_ms o provider_id failure_count =
    let backoff = min o.max_backoff_ms (o.base_backoff_ms * o.multiplier ^ (failure_count - 1)) in
    let value = min jitter_unit (o.jitter provider_id failure_count) in
    min o.max_backoff_ms (backoff + jitter_ms backoff o.jitter_ratio value)
