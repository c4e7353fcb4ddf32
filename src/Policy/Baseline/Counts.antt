-- ===== src/Policy/Baseline/Counts.antt =====
-- The path distribution of apps/api/src/policy/baseline.service.ts counts the calls of each path.
use get_mcp.Base.{
  ℕ, ◌+◌, ◌≡◌, refl, ap, arith, inl, inr, Option, none, some, List, [], ◌∷◌, Bool-cases,
  if◌then◌else◌, ◌⊎◌, Text, ◌==◌, same_text, lookup, insert, lookup-insert,
}
use get_mcp.Policy.Baseline.{LogRow, path_key, or_zero, path_counts, probabilities, seen_of}
use get_mcp.Policy.Baseline.Quotients.{Ratio, over, whole}

-- The calls among the rows with a given method and path.
abbrev pub calls : Text → List LogRow → ℕ
calls key [] = 0
calls key (r ∷ rows) = (if path_key r.method r.path == key then 1 else 0) + calls key rows

or_zero-insert :
    (k key : Text) (counts : List (Text × ℕ))
    → or_zero (lookup key (insert k (or_zero (lookup k counts) + 1) counts))
      ≡ or_zero (lookup key counts) + (if k == key then 1 else 0)
or_zero-insert k key counts =
    rw (lookup-insert k key (or_zero (lookup k counts) + 1) counts) (elim (Bool-cases (k == key)) [
      | inl same ↦ rw same (ap (λ j. or_zero (lookup j counts) + 1) (same_text same))
      | inr differ ↦ rw differ (omega arith)
    ])

path_counts-calls :
    (key : Text) (rows : List LogRow) (counts : List (Text × ℕ))
    → or_zero (lookup key (path_counts rows counts)) ≡ or_zero (lookup key counts) + calls key rows
unfolding path_counts
path_counts-calls key [] counts = omega arith
path_counts-calls key (r ∷ rows) counts =
    let k = path_key r.method r.path in
    let here = or_zero-insert k key counts in
    let rest = path_counts-calls key rows (insert k (or_zero (lookup k counts) + 1) counts) in
    omega (arith, here, rest)

abbrev share : ℕ → Option ℕ → Option Ratio
share total none = none
share total (some c) = some (over c total)

lookup-probabilities :
    (key : Text) (total : ℕ) (counts : List (Text × ℕ))
    → lookup key (probabilities total counts) ≡ share total (lookup key counts)
unfolding probabilities lookup
lookup-probabilities key total [] = refl
lookup-probabilities key total ((k, c) ∷ counts) = elim (Bool-cases (k == key)) [
  | inl same ↦ rw same
  | inr differ ↦ rw differ (lookup-probabilities key total counts)
]

-- A path that no row has is absent or has the count 0.
share-seen :
    (total : ℕ) (o : Option ℕ)
    → (seen_of (share total o) ≡ over (or_zero o) total)
      ⊎ ((seen_of (share total o) ≡ whole 0) × (or_zero o ≡ 0))
share-seen total none = inr (refl, refl)
share-seen total (some c) = inl refl

-- The share of the calls that a path has.
pub seen-calls :
    (key : Text) (total : ℕ) (rows : List LogRow)
    → let seen = seen_of (lookup key (probabilities total (path_counts rows []))) in
      (seen ≡ over (calls key rows) total) ⊎ ((seen ≡ whole 0) × (calls key rows ≡ 0))
unfolding lookup
seen-calls key total rows =
    let count : or_zero (lookup key (path_counts rows [])) ≡ calls key rows =
      omega (arith, path_counts-calls key rows []) in
    rw (lookup-probabilities key total (path_counts rows []), ← count)
      (share-seen total (lookup key (path_counts rows [])))
