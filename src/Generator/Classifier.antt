-- ===== src/Generator/Classifier.antt =====
-- ClassifierService of apps/api/src/generator/classifier.service.ts. What the model answers is a
-- parameter: the array of endpoints in its reply, or an error. The hash of a spec is an argument.
pub mod Laws
use get_mcp.Base.{
  ℕ, zero, suc, ◌+◌, ◌*◌, ◌/◌, Bool, true, false, ◌&&◌, Option, none, some, List, [], ◌∷◌, ◌++◌,
  length, take, drop, ltb, ◌=?◌, if◌then◌else◌, Text, codes, ◌==◌, to_lower, lookup, insert, ℤ, pos,
  negsuc,
}
use get_mcp.Json.{Number, integer, fraction, Json, get, truthy}
use get_mcp.Generator.Heuristic.{Operation, HeuristicVerdict, heuristic_classify}

pub data ClassifierSource : Type 0 where
  llm heuristic : ClassifierSource

pub record ClassifiedEndpoint : Type 0 where
  pub path : Text
  pub method : Text
  pub verdict : HeuristicVerdict
  pub classifier_source : ClassifierSource
  pub override_expose_externally : Option Bool

-- `spec.paths`, in order.
abbrev pub Paths : Type 0
Paths = List (Text × List (Text × Operation))

-- A row of the table; a row's id is its organisation, hash, path and method.
pub record Row : Type 0 where
  pub organization_id : Text
  pub spec_hash : Text
  pub endpoint : ClassifiedEndpoint
  pub override_by : Option Text
  pub override_at : Option ℕ
  pub override_reason : Option Text

pub record ClassifyResult : Type 0 where
  pub spec_hash : Text
  pub source : Option ClassifierSource
  pub cache_hit : Bool
  pub endpoints : List ClassifiedEndpoint

unfoldable pub effective_verdict : ClassifiedEndpoint → Bool
effective_verdict c = elim c.override_expose_externally [
  | some b ↦ b
  | none ↦ c.verdict.expose_externally
]

-- One endpoint of the flattened spec, with its method in lower case.
pub record Item : Type 0 where
  pub path : Text
  pub method : Text
  pub operation : Operation

abbrev pub flatten_methods : Text → List (Text × Operation) → List Item
flatten_methods path [] = []
flatten_methods path ((method, op) ∷ methods) =
    (record { path = path; method = to_lower method; operation = op })
    ∷ flatten_methods path methods

unfoldable pub flatten : Paths → List Item
flatten [] = []
flatten ((path, methods) ∷ paths) = flatten_methods path methods ++ flatten paths

unfoldable pub count_endpoints : Paths → ℕ
count_endpoints [] = 0
count_endpoints ((path, methods) ∷ paths) = length methods + count_endpoints paths

abbrev pub by_heuristic : Item → ClassifiedEndpoint
by_heuristic i = record {
  path = i.path;
  method = i.method;
  verdict = heuristic_classify i.path i.method i.operation;
  classifier_source = heuristic;
  override_expose_externally = none;
}

abbrev pub judged : Text → Text → Operation → ClassifiedEndpoint
judged path method op = record {
  path = path;
  method = to_lower method;
  verdict = heuristic_classify path method op;
  classifier_source = heuristic;
  override_expose_externally = none;
}

abbrev pub heuristic_methods : Text → List (Text × Operation) → List ClassifiedEndpoint
heuristic_methods path [] = []
heuristic_methods path ((method, op) ∷ methods) =
    judged path method op ∷ heuristic_methods path methods

unfoldable pub classify_heuristically : Paths → List ClassifiedEndpoint
classify_heuristically [] = []
classify_heuristically ((path, methods) ∷ paths) =
    heuristic_methods path methods ++ classify_heuristically paths

-- `Math.round(n)`, and 0 for what is less.
abbrev rounded : Number → ℕ
rounded (integer (pos n)) = n
rounded (fraction (pos n) d) = (2 * n + suc d) / (2 * suc d)
rounded _ = 0

abbrev number_of : Option Json → ℕ
number_of (some (Json.number n)) = rounded n
number_of _ = 0

abbrev lesser : ℕ → ℕ → ℕ
lesser a b = if ltb a b then a else b

abbrev larger : ℕ → ℕ → ℕ
larger a b = if ltb a b then b else a

unfoldable pub clamp_int : Option Json → ℕ → ℕ → ℕ
clamp_int n lo hi = larger lo (lesser hi (number_of n))

abbrev reasoning_of : Option Json → Text
reasoning_of (some (Json.string s)) = s
reasoning_of _ = codes "llm: (no reasoning provided)"

unfoldable pub key_of : Text → Text → Text
key_of method path = method ++ (codes " " ++ path)

unfoldable pub endpoint_of : Json → Text → Text → ClassifiedEndpoint
endpoint_of e path method = record {
  path = path;
  method = to_lower method;
  verdict = record {
    data_sensitivity = clamp_int (get e (codes "dataSensitivity")) 0 100;
    mutation_impact = clamp_int (get e (codes "mutationImpact")) 0 100;
    has_tenant_scope = truthy (get e (codes "hasTenantScope"));
    reversible = truthy (get e (codes "reversible"));
    expose_externally = truthy (get e (codes "exposeExternally"));
    reasoning = reasoning_of (get e (codes "reasoning"));
  };
  classifier_source = llm;
  override_expose_externally = none;
}

abbrev pub add_reply :
    Json
    → Option Json
    → Option Json
    → List (Text × ClassifiedEndpoint)
    → List (Text × ClassifiedEndpoint)
add_reply e (some (Json.string path)) (some (Json.string method)) out =
    insert (key_of (to_lower method) path) (endpoint_of e path method) out
add_reply e _ _ out = out

-- The loop of `callAnthropic` over the endpoints of the reply.
unfoldable pub read_replies :
    List Json → List (Text × ClassifiedEndpoint) → List (Text × ClassifiedEndpoint)
read_replies [] out = out
read_replies (e ∷ replies) out =
    read_replies replies (add_reply e (get e (codes "path")) (get e (codes "method")) out)

abbrev pub or_heuristic : Item → Option ClassifiedEndpoint → ClassifiedEndpoint
or_heuristic i none = by_heuristic i
or_heuristic i (some v) = v

unfoldable pub merge : List (Text × ClassifiedEndpoint) → List Item → List ClassifiedEndpoint
merge verdicts [] = []
merge verdicts (i ∷ items) =
    or_heuristic i (lookup (key_of i.method i.path) verdicts) ∷ merge verdicts items

abbrev pub batch_size : ℕ
batch_size = 40

-- The model: the endpoints that it answers for a batch, or none where the call fails.
abbrev pub Model : Type 0
Model = List Item → Option (List Json)

abbrev pub then_append :
    Option (List ClassifiedEndpoint) → List ClassifiedEndpoint → Option (List ClassifiedEndpoint)
then_append none all = none
then_append (some rest) all = some (all ++ rest)

abbrev pub merged :
    Option (List Json)
    → List Item
    → Option (List ClassifiedEndpoint)
    → Option (List ClassifiedEndpoint)
merged none batch rest = none
merged (some replies) batch rest = then_append rest (merge (read_replies replies []) batch)

-- The batches, on fuel; there are no more of them than items.
unfoldable pub classify_batches : ℕ → Model → List Item → Option (List ClassifiedEndpoint)
classify_batches fuel ask [] = some []
classify_batches zero ask (i ∷ items) = none
classify_batches (suc fuel) ask (i ∷ items) =
    let rest = classify_batches fuel ask (drop batch_size (i ∷ items)) in
    let batch = take batch_size (i ∷ items) in merged (ask batch) batch rest

unfoldable pub classify_with_llm : Model → Paths → Option (List ClassifiedEndpoint)
classify_with_llm ask paths = classify_batches (length (flatten paths)) ask (flatten paths)

abbrev pub or_heuristics : Option (List ClassifiedEndpoint) → Paths → List ClassifiedEndpoint
or_heuristics none paths = classify_heuristically paths
or_heuristics (some endpoints) paths = endpoints

-- With a model if an API key is configured.
unfoldable pub classify_fresh : Option Model → Paths → List ClassifiedEndpoint
classify_fresh none paths = classify_heuristically paths
classify_fresh (some ask) paths = or_heuristics (classify_with_llm ask paths) paths
