-- ===== src/Generator/Table/Overrides.antt =====
-- An override of an endpoint's classification lasts: apps/api/src/generator/classifier.service.ts.
use get_mcp.Base.{
  ℕ, ◌≡◌, refl, subst, inl, inr, Bool, false, Option, none, some, List, [], ◌∷◌, length, ◌=?◌,
  Bool-cases, if◌then◌else◌, Text,
}
use get_mcp.Generator.Classifier.{
  ClassifiedEndpoint, Row, Paths, Model, count_endpoints, effective_verdict, classify_fresh,
}
use get_mcp.Generator.Table.{
  Table, rows_of, is_row, updated, upsert, upsert_all, classify, Override, overridden, kept_first,
  set_override,
}

-- A classification of some spec by some organisation.
pub record Run : Type 0 where
  pub model : Option Model
  pub organization_id : Text
  pub spec_hash : Text
  pub paths : Paths

-- The table after several classifications.
abbrev pub classify_all : List Run → Table → Table
classify_all [] table = table
classify_all (r ∷ runs) table =
    classify_all runs (classify r.model r.organization_id r.spec_hash r.paths table).1

module _ (org hash path method : Text) where
  -- The row of the endpoint, the first where there are several.
  abbrev pub row_at : Table → Option Row
  row_at [] = none
  row_at (r ∷ table) = if is_row org hash path method r then some r else row_at table

  -- The endpoint has a row, and its override is the given one.
  abbrev pub HasOverride : Option Bool → Table → Type 0
  HasOverride o table =
      (r : Row) × (row_at table ≡ some r) × (r.endpoint.override_expose_externally ≡ o)

  upsert-HasOverride :
      (o : Option Bool) (org' hash' : Text) (e : ClassifiedEndpoint) (table : Table)
      → HasOverride o table
      → HasOverride o (upsert org' hash' e table)
  unfolding upsert
  upsert-HasOverride o org' hash' e [] = λ (r, found, same). cc
  upsert-HasOverride o org' hash' e (x ∷ table) =
      elim (Bool-cases (is_row org hash path method x)) [
        | inl mine ↦ elim (Bool-cases (is_row org' hash' e.path e.method x)) [
          | inl again ↦
              rw (mine, again)
                (λ (r, found, same). let is : x ≡ r = cc in (updated e x, rw mine, rw is same))
          | inr other ↦ rw (mine, other) (λ (r, found, same). (r, rw mine found, same))
        ]
        | inr foreign ↦ elim (Bool-cases (is_row org' hash' e.path e.method x)) [
          | inl again ↦ rw (foreign, again) (λ (r, found, same). (r, rw foreign found, same))
          | inr other ↦
              rw (foreign, other)
                (λ h.
                  let (r, found, same) = upsert-HasOverride o org' hash' e table h in
                  (r, rw foreign found, same))
        ]
      ]

  upsert_all-HasOverride :
      (o : Option Bool) (org' hash' : Text) (endpoints : List ClassifiedEndpoint) (table : Table)
      → HasOverride o table
      → HasOverride o (upsert_all org' hash' endpoints table)
  unfolding upsert_all
  upsert_all-HasOverride o org' hash' [] table h = h
  upsert_all-HasOverride o org' hash' (e ∷ endpoints) table h =
      upsert_all-HasOverride o org' hash' endpoints (upsert org' hash' e table)
        (upsert-HasOverride o org' hash' e table h)

  classify-HasOverride :
      (o : Option Bool) (run : Run) (table : Table)
      → HasOverride o table
      → HasOverride o (classify run.model run.organization_id run.spec_hash run.paths table).1
  unfolding classify
  classify-HasOverride o run table h =
      elim (Bool-cases
        (length (rows_of run.organization_id run.spec_hash table) =? count_endpoints run.paths)) [
          | inl known ↦ rw known h
          | inr changed ↦ rw changed (
              upsert_all-HasOverride o run.organization_id run.spec_hash
                (classify_fresh run.model run.paths) table h)
        ]

  classify_all-HasOverride :
      (o : Option Bool) (runs : List Run) (table : Table)
      → HasOverride o table
      → HasOverride o (classify_all runs table)
  classify_all-HasOverride o [] table h = h
  classify_all-HasOverride o (run ∷ runs) table h =
      classify_all-HasOverride o runs _ (classify-HasOverride o run table h)

-- The endpoint that an override is about.
abbrev pub HasOverrideOf : Override → Table → Type 0
HasOverrideOf input table =
    HasOverride input.organization_id input.spec_hash input.path input.method
      input.expose_externally table

kept_first-HasOverrideOf :
    (input : Override) (r : Row) (o : Option Table) (after : Table)
    → is_row input.organization_id input.spec_hash input.path input.method r ≡ false
    → ((table : Table) → o ≡ some table → HasOverrideOf input table)
    → kept_first r o ≡ some after
    → HasOverrideOf input after
kept_first-HasOverrideOf input r none after other ih h = cc
kept_first-HasOverrideOf input r (some table) after other ih h =
    let same : r ∷ table ≡ after = cc in
    let (x, found, is) = ih table refl in subst (HasOverrideOf input) same (x, rw other found, is)

set_override-HasOverrideOf :
    (input : Override) (now : ℕ) (table after : Table)
    → set_override input now table ≡ some after
    → HasOverrideOf input after
unfolding set_override
set_override-HasOverrideOf input now [] after = λ h. cc
set_override-HasOverrideOf input now (r ∷ table) after =
    elim (Bool-cases (is_row input.organization_id input.spec_hash input.path input.method r)) [
      | inl mine ↦ rw mine (λ h.
          let same : overridden input now r ∷ table ≡ after = cc in
          subst (HasOverrideOf input) same (overridden input now r, rw mine, refl))
      | inr other ↦ rw other (λ h.
          kept_first-HasOverrideOf input r (set_override input now table) after other
            (λ t e. set_override-HasOverrideOf input now table t e) h)
    ]

abbrev pub verdict_by : Option Bool → Bool → Bool
verdict_by none own = own
verdict_by (some b) own = b

effective_verdict-override :
    (c : ClassifiedEndpoint) (o : Option Bool)
    → c.override_expose_externally ≡ o
    → effective_verdict c ≡ verdict_by o c.verdict.expose_externally
unfolding effective_verdict
effective_verdict-override c none h = rw h
effective_verdict-override c (some b) h = rw h

-- After an override is set, and whatever specs are classified then by whatever organisations, the
-- endpoint still has a row with that override, so that its effective verdict is the one that was set,
-- or its own where the override was taken back.
pub classify_all-set_override :
    (input : Override) (now : ℕ) (runs : List Run) (table after : Table)
    → set_override input now table ≡ some after
    → (r : Row) × (row_at input.organization_id input.spec_hash input.path input.method
          (classify_all runs after)
        ≡ some r)
      × (effective_verdict r.endpoint
          ≡ verdict_by input.expose_externally r.endpoint.verdict.expose_externally)
classify_all-set_override input now runs table after h =
    let (r, found, same) =
      classify_all-HasOverride input.organization_id input.spec_hash input.path input.method
        input.expose_externally runs after (set_override-HasOverrideOf input now table after h) in
    (r, found, effective_verdict-override r.endpoint input.expose_externally same)
