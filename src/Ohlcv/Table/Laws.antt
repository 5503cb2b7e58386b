-- ===== src/Ohlcv/Table/Laws.antt =====
-- The laws of the table of src/services/ohlcv-worker-state.ts.
use opengecko.Prelude.{
  ℕ, ◌≤◌, ◌≡◌, refl, Bool, true, ◌&&◌, Option, none, some, [], ◌∷◌, All, All-imp, length,
  Bool-cases, inl, inr, if◌then◌else◌, arith,
}
use opengecko.Ohlcv.{TargetKey, Target, key_eq, key_eq_iff}
use opengecko.Ohlcv.Table.{Table, read_target, update_where, without}

-- One row for each primary key.
abbrev pub IsKeyed : Table → Type 0
IsKeyed [] = Unit
IsKeyed (t ∷ ts) = (read_target t.key ts ≡ none) × IsKeyed ts

abbrev pub updated : Bool → (Target → Bool) → (Target → Target) → Option Target → Option Target
updated same guard change none = none
updated same guard change (some t) = if same && guard t then some (change t) else some t

abbrev pub matched : (Target → Bool) → Option Target → ℕ
matched guard none = 0
matched guard (some t) = if guard t then 1 else 0

key_eq_refl : (a : TargetKey) → key_eq a a ≡ true
key_eq_refl a = (key_eq_iff a a).1 refl

pub read_target-key :
    (k : TargetKey) (ts : Table) (t : Target) → read_target k ts ≡ some t → t.key ≡ k
unfolding read_target
read_target-key k [] t e = cc
read_target-key k (u ∷ ts) t e = elim (Bool-cases (key_eq u.key k)) [
  | inl same ↦ ground (arith, (key_eq_iff u.key k).0 same)
  | inr other ↦ read_target-key k ts t (rw (other, read_target) at e)
]

module _ (key : TargetKey) (guard : Target → Bool) (change : Target → Target)
    (same_key : (t : Target) → (change t).key ≡ t.key) where
  pub read_target-update_where :
      (k : TargetKey) (ts : Table)
      → read_target k (update_where key guard change ts).0
        ≡ updated (key_eq k key) guard change (read_target k ts)
  unfolding read_target update_where
  read_target-update_where k [] = refl
  read_target-update_where k (t ∷ ts) = ground (
    arith,
    key_eq_iff t.key k,
    key_eq_iff t.key key,
    key_eq_iff k key,
    key_eq_iff (change t).key k,
    same_key t,
    read_target-update_where k ts,
  )

  pub update_where-count :
      (ts : Table)
      → IsKeyed ts
      → (update_where key guard change ts).1 ≡ matched guard (read_target key ts)
  unfolding read_target update_where
  update_where-count [] d = refl
  update_where-count (t ∷ ts) d = ground (arith, key_eq_iff t.key key, update_where-count ts d.1)

  pub update_where_unmatched :
      (ts : Table)
      → (update_where key guard change ts).1 ≡ 0
      → (update_where key guard change ts).0 ≡ ts
  unfolding update_where
  update_where_unmatched [] e = refl
  update_where_unmatched (t ∷ ts) e = ground (arith, update_where_unmatched ts)

  update_where-absent :
      (k : TargetKey) (ts : Table)
      → read_target k ts ≡ none
      → read_target k (update_where key guard change ts).0 ≡ none
  update_where-absent k ts e = rw (read_target-update_where k ts) (rw e)

  pub update_where-IsKeyed :
      (ts : Table) → IsKeyed ts → IsKeyed (update_where key guard change ts).0
  unfolding update_where
  update_where-IsKeyed [] d = tt
  update_where-IsKeyed (t ∷ ts) d =
      ground (arith, same_key t, update_where-absent t.key ts d.0, update_where-IsKeyed ts d.1)

-- In a table with one row for each key, each row is the one that its key reads.
pub IsKeyed-read_target : (ts : Table) → IsKeyed ts → All (λ t. read_target t.key ts ≡ some t) ts
unfolding read_target
IsKeyed-read_target [] d = tt
IsKeyed-read_target (t ∷ ts) d = (
  ground (arith, key_eq_iff t.key t.key),
  All-imp ts (λ u e. ground (arith, key_eq_iff t.key u.key)) (IsKeyed-read_target ts d.1),
)

pub All-without :
    (P : Target → Type 0) (key : TargetKey) (ts : Table) → All P ts → All P (without key ts)
unfolding without
All-without P key [] h = tt
All-without P key (t ∷ ts) h = ground (arith, All-without P key ts h.1)

length-without-le : (key : TargetKey) (ts : Table) → length (without key ts) ≤ length ts
unfolding without
length-without-le key [] = omega arith
length-without-le key (t ∷ ts) = ground (arith, length-without-le key ts)
