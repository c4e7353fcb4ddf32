-- ===== src/Generator/Heuristic.antt =====
-- heuristicClassify of apps/api/src/generator/heuristic.ts.
pub mod Safety
use get_mcp.Base.{
  ℕ, ◌+◌, ◌≤◌, ◌≡◌, ◌⊎◌, ◌↔◌, refl, arith, inl, inr, Bool, true, false, not, ◌&&◌, ◌||◌, Option,
  none, some, List, [], ◌∷◌, ◌++◌, Bool-cases, any, ltb, ◌=?◌, if◌then◌else◌, Text, codes, ◌==◌,
  has, includes, is_empty, join, to_lower,
}
use get_mcp.Policy.PathMatch.Regexp.{is_ident_start, is_ident}

pub record Parameter : Type 0 where
  pub name : Option Text
  pub description : Option Text

-- What is read of an operation; tags and parameters that are no arrays are `none`.
pub record Operation : Type 0 where
  pub description : Option Text
  pub summary : Option Text
  pub tags : Option (List Text)
  pub parameters : Option (List Parameter)

pub record HeuristicVerdict : Type 0 where
  pub data_sensitivity : ℕ
  pub mutation_impact : ℕ
  pub has_tenant_scope : Bool
  pub reversible : Bool
  pub expose_externally : Bool
  pub reasoning : Text

abbrev pub sensitive_path_keywords : List Text
sensitive_path_keywords =
    codes "admin"
    ∷ codes "internal"
    ∷ codes "billing"
    ∷ codes "sudo"
    ∷ codes "logs"
    ∷ codes "metrics"
    ∷ codes "webhook"
    ∷ codes "system"
    ∷ codes "config"
    ∷ []

abbrev pub dangerous_verbs : List Text
dangerous_verbs = codes "delete" ∷ codes "patch" ∷ []

abbrev pub pii_keywords : List Text
pii_keywords =
    codes "ssn"
    ∷ codes "password"
    ∷ codes "credit_card"
    ∷ codes "card_number"
    ∷ codes "social_security"
    ∷ codes "secret"
    ∷ codes "token"
    ∷ []

unfoldable pub contains_keyword : Text → List Text → Bool
contains_keyword text keywords =
    if is_empty text then false else any (λ k. includes (to_lower text) k) keywords

abbrev pub or_empty : Option Text → Text
or_empty none = []
or_empty (some s) = s

abbrev pub list_or_empty {ℓ} : {A : Type ℓ} → Option (List A) → List A
list_or_empty none = []
list_or_empty (some xs) = xs

unfoldable pub is_pii : Parameter → Bool
is_pii p =
    contains_keyword (or_empty p.name) pii_keywords
    || contains_keyword (or_empty p.description) pii_keywords

unfoldable pub pii_names : List Parameter → List Text
pii_names [] = []
pii_names (p ∷ parameters) =
    let rest = pii_names parameters in if is_pii p then or_empty p.name ∷ rest else rest

unfoldable pub names_tenant : Parameter → Bool
names_tenant p =
    let name = to_lower (or_empty p.name) in
    includes name (codes "tenant")
    || includes name (codes "user_id")
    || includes name (codes "customer")

-- `[A-Za-z0-9_]*\}` at the start of the text.
unfoldable pub closes : Text → Bool
closes [] = false
closes (c ∷ s) = let rest = closes s in c =? b'}' || (is_ident c && rest)

abbrev starts_name : Text → Bool
starts_name [] = false
starts_name (c ∷ s) = is_ident_start c && closes s

-- `/\{[A-Za-z_][A-Za-z0-9_]*\}/.test(path)`
unfoldable pub has_placeholder : Text → Bool
has_placeholder [] = false
has_placeholder (c ∷ s) = (c =? b'{' && starts_name s) || has_placeholder s

unfoldable pub is_dangerous : Text → Bool
is_dangerous verb = has dangerous_verbs verb

unfoldable pub is_write : Text → Bool
is_write verb = verb == codes "post" || verb == codes "put"

unfoldable pub description_of : Operation → Text
description_of op = or_empty op.description ++ (codes " " ++ or_empty op.summary)

unfoldable pub has_sensitive_tags : Operation → Bool
has_sensitive_tags op = elim op.tags [
  | none ↦ false
  | some tags ↦ contains_keyword (join (codes " ") tags) sensitive_path_keywords
]

unfoldable pub tenant_scope_of : Text → Operation → Bool
tenant_scope_of path op = any names_tenant (list_or_empty op.parameters) || has_placeholder path

unfoldable pub has_pii : Operation → Bool
has_pii op = any is_pii (list_or_empty op.parameters)

abbrev greater : ℕ → ℕ → ℕ
greater a b = if ltb a b then b else a

abbrev raised : Bool → ℕ → ℕ → ℕ
raised b floor n = if b then greater n floor else n

unfoldable pub sensitivity_of : Text → Operation → ℕ
sensitivity_of path op = raised (has_pii op) 95 (
    raised (has_sensitive_tags op) 80 (
      raised (contains_keyword (description_of op) sensitive_path_keywords) 80
        (if contains_keyword path sensitive_path_keywords then 90 else 20)))

unfoldable pub impact_of : Text → ℕ
impact_of verb = if is_dangerous verb then 85 else if is_write verb then 50 else 0

abbrev reason_if : Bool → Text → List Text
reason_if b text = if b then text ∷ [] else []

unfoldable pub lacks_scope : Text → Text → Operation → Bool
lacks_scope path verb op = is_write verb && not (tenant_scope_of path op)

unfoldable pub reasons_of : Text → Text → Operation → List Text
reasons_of path verb op =
    reason_if (contains_keyword path sensitive_path_keywords) (codes "sensitive path keyword")
    ++ (reason_if (is_dangerous verb) (codes "dangerous verb (" ++ (verb ++ codes ")"))
        ++ (reason_if (contains_keyword (description_of op) sensitive_path_keywords)
              (codes "sensitive description")
            ++ (reason_if (has_sensitive_tags op) (codes "sensitive tags")
                ++ (reason_if (has_pii op) (
                      codes "PII parameters ("
                      ++ (join (codes ", ") (pii_names (list_or_empty op.parameters)) ++ codes ")"))
                    ++ reason_if (lacks_scope path verb op)
                        (codes "global mutation lacking tenant scope")))))

unfoldable pub reasoning_of : List Text → Text
reasoning_of [] = codes "heuristic: no risk indicators detected"
reasoning_of (r ∷ reasons) = codes "heuristic: " ++ join (codes "; ") (r ∷ reasons)

unfoldable pub is_exposed : Text → Text → Operation → Bool
is_exposed path verb op =
    if lacks_scope path verb op
    then false
    else if has_pii op
    then false
    else if contains_keyword (description_of op) sensitive_path_keywords
    then false
    else if is_dangerous verb
    then false
    else not (contains_keyword path sensitive_path_keywords)

unfoldable pub heuristic_classify : Text → Text → Operation → HeuristicVerdict
heuristic_classify path method op =
    let verb = to_lower method in
    record {
      data_sensitivity = sensitivity_of path op;
      mutation_impact = impact_of verb;
      has_tenant_scope = tenant_scope_of path op;
      reversible = not (is_dangerous verb);
      expose_externally = is_exposed path verb op;
      reasoning = reasoning_of (reasons_of path verb op);
    }
