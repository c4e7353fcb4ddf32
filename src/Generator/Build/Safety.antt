-- ===== src/Generator/Build/Safety.antt =====
-- Without a model and without overrides, the external server offers safe endpoints:
-- generator.service.ts with classifier.service.ts and heuristic.ts of apps/api/src/generator.
use mathlib.Core.List.{Memᴰ}
use get_mcp.Base.{
  ℕ, ◌≡◌, ◌⊎◌, refl, subst, arith, inl, inr, List, [], ◌∷◌, ◌++◌, Text, Lacks, split_at, to_lower,
  lower_unit,
}
use get_mcp.Generator.Heuristic.{Operation}
use get_mcp.Generator.Heuristic.Safety.{IsSafe, heuristic_classify_iff}
use get_mcp.Generator.Classifier.{
  ClassifiedEndpoint, Paths, effective_verdict, judged, heuristic_methods, classify_heuristically,
  key_of,
}
use get_mcp.Generator.Build.{McpSchema, build_from_classifications}
use get_mcp.Generator.Build.Exposure.{Offers, build_from_classifications_iff}

lower_unit-lower_unit : (c : ℕ) → lower_unit (lower_unit c) ≡ lower_unit c
unfolding lower_unit
lower_unit-lower_unit c = ground arith

to_lower-to_lower : (s : Text) → to_lower (to_lower s) ≡ to_lower s
unfolding to_lower
to_lower-to_lower [] = refl
to_lower-to_lower (c ∷ s) = rw (lower_unit-lower_unit c, to_lower-to_lower s)

append-cases :
    (c : ClassifiedEndpoint) (xs ys : List ClassifiedEndpoint)
    → Memᴰ c (xs ++ ys)
    → Memᴰ c xs ⊎ Memᴰ c ys
append-cases c [] ys h = inr h
append-cases c (x ∷ xs) ys (Memᴰ.head e) = inl (Memᴰ.head e)
append-cases c (x ∷ xs) ys (Memᴰ.tail h) = elim (append-cases c xs ys h) [
  | inl left ↦ inl (Memᴰ.tail left)
  | inr right ↦ inr right
]

heuristic_methods-judged :
    (c : ClassifiedEndpoint) (path : Text) (methods : List (Text × Operation))
    → Memᴰ c (heuristic_methods path methods)
    → (verb : Text) × (op : Operation) × Memᴰ (verb, op) methods × (c ≡ judged path verb op)
heuristic_methods-judged c path [] h = elim h [ ]
heuristic_methods-judged c path ((verb, op) ∷ methods) (Memᴰ.head e) = (verb, op, Memᴰ.head refl, e)
heuristic_methods-judged c path ((verb, op) ∷ methods) (Memᴰ.tail h) =
    let (v, o, listed, e) = heuristic_methods-judged c path methods h in (v, o, Memᴰ.tail listed, e)

-- The classification comes from an operation of the spec.
abbrev IsJudged : Paths → ClassifiedEndpoint → Type 0
IsJudged paths c =
    (path : Text) × (verb : Text) × (op : Operation) × Offers paths path verb op
    × (c ≡ judged path verb op)

classify_heuristically-IsJudged :
    (c : ClassifiedEndpoint) (paths : Paths)
    → Memᴰ c (classify_heuristically paths)
    → IsJudged paths c
unfolding classify_heuristically
classify_heuristically-IsJudged c [] h = elim h [ ]
classify_heuristically-IsJudged c ((path, methods) ∷ paths) h =
    elim (append-cases c (heuristic_methods path methods) (classify_heuristically paths) h) [
      | inl here ↦
          let (verb, op, listed, e) = heuristic_methods-judged c path methods here in
          (path, verb, op, (methods, Memᴰ.head refl, listed), e)
      | inr later ↦
          let (p, verb, op, offered, e) = classify_heuristically-IsJudged c paths later in
          let (ms, listed, found) = offered in (p, verb, op, (ms, Memᴰ.tail listed, found), e)
    ]

-- The names of the methods hold no space.
abbrev pub HasPlainMethods : Paths → Type 0
HasPlainMethods paths =
    (path verb : Text) (op : Operation) → Offers paths path verb op → Lacks b' ' (to_lower verb)

same_key :
    (path path' verb verb' : Text)
    → Lacks b' ' (to_lower verb)
    → Lacks b' ' (to_lower verb')
    → key_of (to_lower (to_lower verb)) path ≡ key_of (to_lower verb') path'
    → (to_lower verb ≡ to_lower verb') × (path ≡ path')
unfolding key_of
same_key path path' verb verb' h h' e =
    split_at b' ' (to_lower verb) (to_lower verb') path path' h h'
      (rw (to_lower-to_lower verb) at e)

-- For a spec that is classified by the heuristic, every operation of the external server has, in the
-- spec and under the same path and method up to case, an operation that is safe to expose.
pub build_from_classifications-IsSafe :
    (spec : McpSchema) (path verb : Text) (op : Operation)
    → HasPlainMethods spec.paths
    → Offers
        (build_from_classifications spec (classify_heuristically spec.paths)).external_mcp.paths
        path
        verb
        op
    → (v : Text) × (o : Operation) × Offers spec.paths path v o
      × (to_lower v ≡ to_lower verb)
      × IsSafe path v o
unfolding effective_verdict
build_from_classifications-IsSafe spec path verb op plain offered =
    let classified = classify_heuristically spec.paths in
    let (offered_before, chosen) =
      (build_from_classifications_iff spec classified path verb op).0.0 offered in
    let (c, listed, exposed, key) = chosen in
    let (p, v, o, known, is) = classify_heuristically-IsJudged c spec.paths listed in
    let same =
      same_key p path v verb (plain p v o known) (plain path verb op offered_before)
        (rw is at key) in
    let (verbs, paths) = same in
    let safe : IsSafe p v o = (heuristic_classify_iff p v o).0 (rw is at exposed) in
    (
      v,
      o,
      subst (λ q. Offers spec.paths q v o) paths known,
      verbs,
      subst (λ q. IsSafe q v o) paths safe,
    )
