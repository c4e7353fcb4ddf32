-- ===== src/Generator/Build.antt =====
-- `buildFromClassifications` of apps/api/src/generator/generator.service.ts. Of a spec, the title and the
-- paths are modelled; the rest is copied.
pub mod Exposure
pub mod Safety
use get_mcp.Base.{
  ℕ, suc, ◌+◌, Bool, true, false, Option, none, some, List, [], ◌∷◌, ◌++◌, length, if◌then◌else◌,
  Text, codes, ◌==◌, has, is_empty, to_lower,
}
use get_mcp.Generator.Heuristic.{Operation}
use get_mcp.Generator.Classifier.{ClassifiedEndpoint, Paths, effective_verdict, key_of}

pub record McpSchema : Type 0 where
  pub title : Text
  pub paths : Paths

pub record GenerationResult : Type 0 where
  pub internal_mcp : McpSchema
  pub external_mcp : McpSchema
  pub internal_endpoints_count : ℕ
  pub external_endpoints_count : ℕ

unfoldable pub external_keys : List ClassifiedEndpoint → List Text
external_keys [] = []
external_keys (c ∷ classifications) =
    let rest = external_keys classifications in
    if effective_verdict c then key_of (to_lower c.method) c.path ∷ rest else rest

unfoldable pub safe_methods : List Text → Text → List (Text × Operation) → List (Text × Operation)
safe_methods keys path [] = []
safe_methods keys path ((verb, op) ∷ methods) =
    let rest = safe_methods keys path methods in
    if has keys (key_of (to_lower verb) path) then (verb, op) ∷ rest else rest

abbrev pub with_path : Text → List (Text × Operation) → Paths → Paths
with_path path [] paths = paths
with_path path (m ∷ methods) paths = (path, m ∷ methods) ∷ paths

unfoldable pub external_paths : List Text → Paths → Paths
external_paths keys [] = []
external_paths keys ((path, methods) ∷ paths) =
    with_path path (safe_methods keys path methods) (external_paths keys paths)

unfoldable pub count_operations : Paths → ℕ
count_operations [] = 0
count_operations ((path, methods) ∷ paths) = length methods + count_operations paths

unfoldable pub external_count : List Text → Paths → ℕ
external_count keys [] = 0
external_count keys ((path, methods) ∷ paths) =
    length (safe_methods keys path methods) + external_count keys paths

abbrev title_or : Text → Text
title_or title = if is_empty title then codes "API" else title

unfoldable pub build_from_classifications : McpSchema → List ClassifiedEndpoint → GenerationResult
build_from_classifications spec classifications =
    let keys = external_keys classifications in
    record {
      internal_mcp = record {
        title = title_or spec.title ++ codes " - Internal Agent Mode (God Mode)";
        paths = spec.paths;
      };
      external_mcp = record {
        title = title_or spec.title ++ codes " - External Agent Mode (Scoped)";
        paths = external_paths keys spec.paths;
      };
      internal_endpoints_count = count_operations spec.paths;
      external_endpoints_count = external_count keys spec.paths;
    }
