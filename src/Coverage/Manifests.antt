-- ===== src/Coverage/Manifests.antt =====
-- What `parseCoverageTargetManifest` of src/services/coverage-targets.ts accepts.
use opengecko.Prelude.{
  ℕ, zero, suc, ◌<◌, String, ◌≡◌, false, List, [], ◌∷◌, ok, Result-cases, All, length, inl, inr,
  if◌then◌else◌, arith,
}
use opengecko.Coverage.{
  Number, natural, other_number, ManifestRow, Manifest, Names, CoverageTarget, contains, target_key,
  parse_names, parse_numbers, parse_row, check_key, parse_rows, parse_coverage_target_manifest,
  positive_integer,
}

-- The keys of the enabled targets are distinct, and none of them is among `keys`.
abbrev pub DistinctFrom : List String → List CoverageTarget → Type 0
DistinctFrom keys [] = Unit
DistinctFrom keys (t ∷ ts) =
    if t.enabled
    then (contains (target_key t) keys ≡ false) × DistinctFrom (target_key t ∷ keys) ts
    else DistinctFrom keys ts

pub record IsPositive (t : CoverageTarget) : Type 0 where
  pub days : 0 < t.target_history_days
  pub freshness : 0 < t.freshness_slo_seconds
  pub production : 0 < t.production_freshness_slo_seconds
  pub first_priority : 0 < t.priority

positive_integer-positive :
    (n : Number) (field : String) (k : ℕ) → positive_integer n field ≡ ok k → 0 < k
positive_integer-positive (natural zero) field k e = cc
positive_integer-positive (natural (suc n)) field k e = ground arith
positive_integer-positive other_number field k e = cc

parse_numbers-IsPositive :
    (row : ManifestRow) (names : Names) (t : CoverageTarget)
    → parse_numbers row names ≡ ok t
    → IsPositive t × (t.enabled ≡ row.enabled)
unfolding parse_numbers
parse_numbers-IsPositive row names t e = ground (arith, e)

module _ (trim to_lower_case : String → String) where
  parse_row-IsPositive :
      (row : ManifestRow) (t : CoverageTarget)
      → parse_row trim to_lower_case row ≡ ok t
      → IsPositive t × (t.enabled ≡ row.enabled)
  unfolding parse_row
  parse_row-IsPositive row t e = elim (Result-cases (parse_names trim to_lower_case row)) [
    | inl (names, named) ↦ parse_numbers-IsPositive row names t (rw (named, parse_row) at e)
    | inr (x, failed) ↦ absurd (ground (arith, failed))
  ]

  parse_rows-valid :
      (keys : List String) (rows : List ManifestRow) (ts : List CoverageTarget)
      → parse_rows trim to_lower_case keys rows ≡ ok ts
      → (length ts ≡ length rows) × All IsPositive ts × DistinctFrom keys ts
  unfolding parse_rows check_key
  parse_rows-valid keys [] ts e = ground (arith, e)
  parse_rows-valid keys (row ∷ rows) ts e = elim (Result-cases (parse_row trim to_lower_case row)) [
    | inr (x, failed) ↦ absurd (ground (arith, failed))
    | inl (t, parsed) ↦ elim (Result-cases (check_key trim to_lower_case keys t)) [
      | inr (x, failed) ↦ absurd (ground (arith, parsed, failed))
      | inl (later, checked) ↦ elim (Result-cases (parse_rows trim to_lower_case later rows)) [
        | inr (x, failed) ↦ absurd (ground (arith, parsed, checked, failed))
        | inl (rest, done) ↦ ground (
          arith,
          parsed,
          checked,
          done,
          parse_row-IsPositive row t parsed,
          parse_rows-valid later rows rest done,
        )
      ]
    ]
  ]

  -- A manifest that is accepted has version 1, each of its rows gives one target, the spans and
  -- the priority of every target are positive, and no two enabled targets have the same key.
  pub accepted_manifest :
      (manifest : Manifest) (ts : List CoverageTarget)
      → parse_coverage_target_manifest trim to_lower_case manifest ≡ ok ts
      → (manifest.version ≡ natural 1)
        × (length ts ≡ length manifest.targets)
        × All IsPositive ts
        × DistinctFrom [] ts
  unfolding parse_coverage_target_manifest
  accepted_manifest manifest ts e = ground (arith, parse_rows-valid [] manifest.targets ts)
