-- ===== src/Candles/Doubles.antt =====
-- The doubles that the prices of src/services/candle-store.ts are, as far as they are compared. A
-- finite double is a whole multiple of the smallest positive one, and `units n` is n of them.
use opengecko.Prelude.{ℕ, Bool, true, false, ltb, leb, if◌then◌else◌}

pub data Number : Type 0 where
  not_a_number infinite minus_infinite : Number
  units : ℕ → Number
  below : ℕ → Number

abbrev pub is_finite_positive_number : Number → Bool
is_finite_positive_number not_a_number = false
is_finite_positive_number infinite = false
is_finite_positive_number minus_infinite = false
is_finite_positive_number (units n) = ltb 0 n
is_finite_positive_number (below n) = false

-- `a <= b`; `below n` is -(n + 1) units.
abbrev pub le : Number → Number → Bool
le not_a_number b = false
le (units a) (units b) = leb a b
le (units a) infinite = true
le (units a) not_a_number = false
le (units a) minus_infinite = false
le (units a) (below b) = false
le (below a) (below b) = leb b a
le (below a) (units b) = true
le (below a) infinite = true
le (below a) not_a_number = false
le (below a) minus_infinite = false
le infinite infinite = true
le infinite not_a_number = false
le infinite minus_infinite = false
le infinite (units b) = false
le infinite (below b) = false
le minus_infinite not_a_number = false
le minus_infinite infinite = true
le minus_infinite minus_infinite = true
le minus_infinite (units b) = true
le minus_infinite (below b) = true

-- `MAX(a, b)` and `MIN(a, b)` of SQL on two numbers.
abbrev pub max_number : Number → Number → Number
max_number a b = if le a b then b else a

abbrev pub min_number : Number → Number → Number
min_number a b = if le a b then a else b
