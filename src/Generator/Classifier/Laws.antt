-- ===== src/Generator/Classifier/Laws.antt =====
-- Under which names a spec's endpoints are classified: apps/api/src/generator/classifier.service.ts.
use get_mcp.Base.{◌≡◌, map, ◌++◌, All, to_lower, Option, none, some, List, [], ◌∷◌, Text}
use get_mcp.Json.{Json}
use get_mcp.Generator.Heuristic.{Operation}
use get_mcp.Generator.Classifier.{ClassifiedEndpoint, Paths, Item, key_of, Model}

-- The names under which the endpoints of a spec are to be classified, in order: the method in lower case
-- and the path.
abbrev pub method_names : Text → List (Text × Operation) → List Text
method_names path [] = []
method_names path ((method, op) ∷ methods) =
    key_of (to_lower method) path ∷ method_names path methods

abbrev pub names : Paths → List Text
names [] = []
names ((path, methods) ∷ paths) = method_names path methods ++ names paths

abbrev pub name_of : ClassifiedEndpoint → Text
name_of e = key_of e.method e.path

abbrev item_name : Item → Text
item_name i = key_of i.method i.path

-- Every verdict of the model stands under its own name.
abbrev IsNamed : List (Text × ClassifiedEndpoint) → Type 0
IsNamed verdicts = All (λ (v : Text × ClassifiedEndpoint). name_of v.1 ≡ v.0) verdicts

-- The result has one classification for each of the names, in order.
abbrev Covers : List Text → Option (List ClassifiedEndpoint) → Type 0
Covers ns none = Unit
Covers ns (some all) = map name_of all ≡ ns

-- The model fails at no batch.
abbrev pub IsAnswering : Model → Type 0
IsAnswering ask = (batch : List Item) → (replies : List Json) × (ask batch ≡ some replies)

abbrev IsDone : Option (List ClassifiedEndpoint) → Type 0
IsDone o = (all : List ClassifiedEndpoint) × (o ≡ some all)
