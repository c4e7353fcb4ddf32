-- ===== src/Generator/Table.antt =====
-- The table of classifications and the operations on it of
-- apps/api/src/generator/classifier.service.ts. The transaction of upserts is one step.
pub mod Overrides
use get_mcp.Base.{
  ℕ, Bool, true, false, ◌&&◌, Option, none, some, List, [], ◌∷◌, length, ◌=?◌, if◌then◌else◌, Text,
  ◌==◌,
}
use get_mcp.Generator.Classifier.{
  ClassifierSource, llm, heuristic, ClassifiedEndpoint, Row, ClassifyResult, Paths, Model,
  count_endpoints, classify_fresh,
}

abbrev pub Table : Type 0
Table = List Row

-- `where: { organizationId, specHash }`
unfoldable pub rows_of : Text → Text → Table → List ClassifiedEndpoint
rows_of org hash [] = []
rows_of org hash (r ∷ table) =
    let rest = rows_of org hash table in
    if r.organization_id == org && r.spec_hash == hash then r.endpoint ∷ rest else rest

abbrev pub is_row : Text → Text → Text → Text → Row → Bool
is_row org hash path method r =
    r.organization_id == org
    && r.spec_hash == hash
    && r.endpoint.path == path
    && r.endpoint.method == method

-- The update keeps the path, the method and the override.
abbrev pub updated : ClassifiedEndpoint → Row → Row
updated e r = record r {
  endpoint = record r.endpoint { verdict = e.verdict; classifier_source = e.classifier_source };
}

abbrev pub created : Text → Text → ClassifiedEndpoint → Row
created org hash e = record {
  organization_id = org;
  spec_hash = hash;
  endpoint = record e { override_expose_externally = none };
  override_by = none;
  override_at = none;
  override_reason = none;
}

unfoldable pub upsert : Text → Text → ClassifiedEndpoint → Table → Table
upsert org hash e [] = created org hash e ∷ []
upsert org hash e (r ∷ table) =
    let rest = upsert org hash e table in
    if is_row org hash e.path e.method r then updated e r ∷ table else r ∷ rest

unfoldable pub upsert_all : Text → Text → List ClassifiedEndpoint → Table → Table
upsert_all org hash [] table = table
upsert_all org hash (e ∷ endpoints) table = upsert_all org hash endpoints (upsert org hash e table)

abbrev first_source : List ClassifiedEndpoint → Option ClassifierSource
first_source [] = none
first_source (e ∷ endpoints) = some e.classifier_source

abbrev source_of : Option Model → ClassifierSource
source_of none = heuristic
source_of (some ask) = llm

-- `classify`; the model is given if an API key is configured.
unfoldable pub classify : Option Model → Text → Text → Paths → Table → ClassifyResult × Table
classify model org hash paths table =
    let known = rows_of org hash table in
    if length known =? count_endpoints paths
    then (
      record { spec_hash = hash; source = first_source known; cache_hit = true; endpoints = known },
      table,
    )
    else let after = upsert_all org hash (classify_fresh model paths) table in
      (
        record {
          spec_hash = hash;
          source = some (source_of model);
          cache_hit = false;
          endpoints = rows_of org hash after;
        },
        after,
      )

-- The input of `setOverride`.
pub record Override : Type 0 where
  pub organization_id : Text
  pub api_key_id : Text
  pub spec_hash : Text
  pub path : Text
  pub method : Text
  pub expose_externally : Option Bool
  pub reason : Option Text

abbrev when_set {ℓ} : {A : Type ℓ} → Option Bool → Option A → Option A
when_set none a = none
when_set (some b) a = a

abbrev pub overridden : Override → ℕ → Row → Row
overridden input now r = record r {
  endpoint = record r.endpoint { override_expose_externally = input.expose_externally };
  override_by = when_set input.expose_externally (some input.api_key_id);
  override_at = when_set input.expose_externally (some now);
  override_reason = when_set input.expose_externally input.reason;
}

abbrev kept_first : Row → Option Table → Option Table
kept_first r none = none
kept_first r (some table) = some (r ∷ table)

-- `none` is the error where the endpoint is not classified.
unfoldable pub set_override : Override → ℕ → Table → Option Table
set_override input now [] = none
set_override input now (r ∷ table) =
    let rest = set_override input now table in
    if is_row input.organization_id input.spec_hash input.path input.method r
    then some (overridden input now r ∷ table)
    else kept_first r rest
