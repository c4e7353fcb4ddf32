-- ===== src/Generator/Tests.antt =====
-- apps/api/src/generator on concrete inputs.
use mathlib.Core.List.{Memᴰ}
use get_mcp.Base.{
  ◌≡◌, ◌↔◌, refl, subst, false, none, some, List, [], ◌∷◌, arith, ◌++◌, Text, codes, Lacks,
  to_lower, lower_unit, has, includes, starts_with, ◌==◌,
}
use get_mcp.Generator.Heuristic.{
  Operation, contains_keyword, has_placeholder, is_dangerous, is_write, description_of,
  tenant_scope_of, has_pii, lacks_scope, is_exposed, heuristic_classify,
}
use get_mcp.Generator.Heuristic.Safety.{IsSafe}
use get_mcp.Generator.Classifier.{
  ClassifiedEndpoint, Row, heuristic, effective_verdict, classify_heuristically, key_of,
}
use get_mcp.Generator.Table.{Override, created, overridden, set_override}
use get_mcp.Generator.Table.Overrides.{
  Run, classify_all, row_at, verdict_by, classify_all-set_override,
}
use get_mcp.Generator.Build.{
  McpSchema, external_keys, safe_methods, external_paths, build_from_classifications,
}
use get_mcp.Generator.Build.Exposure.{Offers, IsChosen, build_from_classifications_iff}
use get_mcp.Generator.Build.Safety.{HasPlainMethods, build_from_classifications-IsSafe}

abbrev operation : Operation
operation = record {
  description = some (codes "Lists items.");
  summary = none;
  tags = none;
  parameters = none;
}

abbrev spec : McpSchema
spec = record { title = codes "Shop"; paths = (codes "/items", (codes "GET", operation) ∷ []) ∷ [] }

build_from_classifications_iff_example :
    let built = build_from_classifications spec (classify_heuristically spec.paths) in
    (Offers built.external_mcp.paths (codes "/items") (codes "GET") operation ↔ (
      Offers spec.paths (codes "/items") (codes "GET") operation
      × IsChosen (classify_heuristically spec.paths) (codes "/items") (codes "GET")))
    × (built.internal_mcp.paths ≡ spec.paths)
build_from_classifications_iff_example =
    build_from_classifications_iff spec (classify_heuristically spec.paths) (codes "/items")
      (codes "GET") operation

get_plain : Lacks b' ' (to_lower (codes "GET"))
unfolding to_lower lower_unit
get_plain = ((λ e. omega arith), ((λ e. omega arith), ((λ e. omega arith), tt)))

spec_plain : HasPlainMethods spec.paths
spec_plain path verb op (methods, Memᴰ.head e, found) = only methods found (cc)
  where
    nothing :
        (ms : List (Text × Operation)) → ms ≡ [] → Memᴰ (verb, op) ms → Lacks b' ' (to_lower verb)
    nothing [] same h = elim h [ ]
    nothing (m ∷ ms) same h = cc

    only :
        (methods : List (Text × Operation))
        → Memᴰ (verb, op) methods
        → methods ≡ (codes "GET", operation) ∷ []
        → Lacks b' ' (to_lower verb)
    only [] h same = cc
    only (m ∷ ms) (Memᴰ.head e) same =
        let is : codes "GET" ≡ verb = cc in subst (λ v. Lacks b' ' (to_lower v)) is get_plain
    only (m ∷ ms) (Memᴰ.tail h) same = let none_left : ms ≡ [] = cc in nothing ms none_left h
spec_plain path verb op (methods, Memᴰ.tail h, found) = elim h [ ]

build_from_classifications-IsSafe_example :
    (v : Text) × (o : Operation) × Offers spec.paths (codes "/items") v o
    × (to_lower v ≡ to_lower (codes "GET"))
    × IsSafe (codes "/items") v o
unfolding build_from_classifications classify_heuristically external_keys external_paths
    safe_methods effective_verdict heuristic_classify is_exposed lacks_scope is_write
    tenant_scope_of has_pii is_dangerous contains_keyword description_of key_of to_lower lower_unit
    has includes starts_with ◌==◌ has_placeholder
build_from_classifications-IsSafe_example =
    build_from_classifications-IsSafe spec (codes "/items") (codes "GET") operation spec_plain
      (_, Memᴰ.head refl, Memᴰ.head refl)

-- The override hides an endpoint that was classified.
abbrev hide : Override
hide = record {
  organization_id = codes "o";
  api_key_id = codes "k";
  spec_hash = codes "h";
  path = codes "/items";
  method = codes "GET";
  expose_externally = some false;
  reason = none;
}

abbrev endpoint : ClassifiedEndpoint
endpoint = record {
  path = codes "/items";
  method = codes "GET";
  verdict = heuristic_classify (codes "/items") (codes "GET") operation;
  classifier_source = heuristic;
  override_expose_externally = none;
}

abbrev run : Run
run = record {
  model = none;
  organization_id = codes "o";
  spec_hash = codes "h";
  paths = spec.paths ++ ((codes "/more", (codes "GET", operation) ∷ []) ∷ []);
}

abbrev row : Row
row = created (codes "o") (codes "h") endpoint

classify_all-set_override_example :
    (r : Row) × (row_at
        (codes "o")
        (codes "h")
        (codes "/items")
        (codes "GET")
        (classify_all (run ∷ []) (overridden hide 3 row ∷ []))
      ≡ some r)
    × (effective_verdict r.endpoint ≡ verdict_by (some false) r.endpoint.verdict.expose_externally)
unfolding set_override ◌==◌
classify_all-set_override_example =
    classify_all-set_override hide 3 (run ∷ []) (row ∷ []) (overridden hide 3 row ∷ []) refl
