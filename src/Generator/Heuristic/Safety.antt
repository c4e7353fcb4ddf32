-- ===== src/Generator/Heuristic/Safety.antt =====
-- What heuristicClassify of apps/api/src/generator/heuristic.ts exposes to external agents.
use get_mcp.Base.{
  ◌≡◌, ◌↔◌, refl, sym, arith, Bool, true, false, not, ◌&&◌, List, if◌then◌else◌, Text, to_lower,
}
use get_mcp.Generator.Heuristic.{
  Operation, sensitive_path_keywords, contains_keyword, is_dangerous, is_write, description_of,
  tenant_scope_of, has_pii, lacks_scope, is_exposed, heuristic_classify,
}

-- No keyword of the list stands in the text, up to ASCII case.
abbrev pub IsClear : Text → List Text → Type 0
IsClear text keywords = contains_keyword text keywords ≡ false

-- What an endpoint needs for the external server.
pub record IsSafe (path method : Text) (op : Operation) : Type 0 where
  pub path_clear : IsClear path sensitive_path_keywords
  pub description_clear : IsClear (description_of op) sensitive_path_keywords
  pub no_pii : has_pii op ≡ false
  pub mild : is_dangerous (to_lower method) ≡ false
  pub scoped : is_write (to_lower method) ≡ true → tenant_scope_of path op ≡ true

scoped_of : (b c : Bool) → (b && not c) ≡ false → b ≡ true → c ≡ true
scoped_of true true h e = refl
scoped_of true false h e = cc
scoped_of false c h e = cc

unscoped_of : (b c : Bool) → ((b ≡ true) → c ≡ true) → (b && not c) ≡ false
unscoped_of true true h = refl
unscoped_of true false h = sym (h refl)
unscoped_of false c h = refl

exposed_parts :
    (a b c d e : Bool)
    → (if a then false else if b then false else if c then false else if d then false else not e)
      ≡ true
    → (a ≡ false) × (b ≡ false) × (c ≡ false) × (d ≡ false) × (e ≡ false)
exposed_parts a b c d e h = ground arith

-- The heuristic exposes an endpoint to external agents exactly if its path and description have no
-- sensitive keyword, its parameters name no personal data, its method is not DELETE or PATCH, and,
-- for POST and PUT, it has a tenant's scope.
pub heuristic_classify_iff :
    (path method : Text) (op : Operation)
    → ((heuristic_classify path method op).expose_externally ≡ true) ↔ IsSafe path method op
unfolding heuristic_classify is_exposed lacks_scope
heuristic_classify_iff path method op =
    let verb = to_lower method in
    (
      (λ h.
          let (scope, pii, description, mild, clear) =
            exposed_parts (is_write verb && not (tenant_scope_of path op)) (has_pii op)
              (contains_keyword (description_of op) sensitive_path_keywords) (is_dangerous verb)
              (contains_keyword path sensitive_path_keywords) h in
          record {
            path_clear = clear;
            description_clear = description;
            no_pii = pii;
            mild = mild;
            scoped = scoped_of (is_write verb) (tenant_scope_of path op) scope;
          }),
      λ safe.
          let scope = unscoped_of (is_write verb) (tenant_scope_of path op) safe.scoped in
          rw (scope, safe.no_pii, safe.description_clear, safe.mild, safe.path_clear),
    )
