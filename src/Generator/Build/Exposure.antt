-- ===== src/Generator/Build/Exposure.antt =====
-- Which operations the external server offers: apps/api/src/generator/generator.service.ts.
use mathlib.Core.List.{Memᴰ}
use get_mcp.Base.{
  ◌≡◌, ◌↔◌, ◌⊎◌, refl, inl, inr, Bool, true, false, ◌||◌, List, [], ◌∷◌, Bool-cases, Text, ◌==◌,
  eq_refl, same_text, has, to_lower,
}
use get_mcp.Generator.Heuristic.{Operation}
use get_mcp.Generator.Classifier.{ClassifiedEndpoint, Paths, effective_verdict, key_of}
use get_mcp.Generator.Build.{
  McpSchema, external_keys, safe_methods, with_path, external_paths, build_from_classifications,
}

-- The spec has the operation under the path and the method.
abbrev pub Offers : Paths → Text → Text → Operation → Type 0
Offers paths path verb op =
    (methods : List (Text × Operation)) × Memᴰ (path, methods) paths × Memᴰ (verb, op) methods

-- Some classification under the same key, or its override, exposes the endpoint.
abbrev pub IsChosen : List ClassifiedEndpoint → Text → Text → Type 0
IsChosen classifications path verb =
    (c : ClassifiedEndpoint) × Memᴰ c classifications
    × (effective_verdict c ≡ true)
    × (key_of (to_lower c.method) c.path ≡ key_of (to_lower verb) path)

has_cons : (b c : Bool) → (b || c) ≡ true → (b ≡ true) ⊎ (c ≡ true)
has_cons true c h = inl refl
has_cons false c h = inr h

or_true : (b c : Bool) → c ≡ true → (b || c) ≡ true
or_true true c h = refl
or_true false c h = h

module _ (path verb : Text) where
  abbrev wanted : Text
  wanted = key_of (to_lower verb) path

  IsChosen-has :
      (classifications : List ClassifiedEndpoint)
      → has (external_keys classifications) wanted ≡ true
      → IsChosen classifications path verb
  unfolding has external_keys
  IsChosen-has [] h = cc
  IsChosen-has (c ∷ classifications) h = elim (Bool-cases (effective_verdict c)) [
    | inl exposed ↦
        elim (has_cons (key_of (to_lower c.method) c.path == wanted) _ (rw exposed at h)) [
          | inl same ↦ (c, Memᴰ.head refl, exposed, same_text same)
          | inr later ↦
              let (d, listed, shown, key) = IsChosen-has classifications later in
              (d, Memᴰ.tail listed, shown, key)
        ]
    | inr held ↦
        let (d, listed, shown, key) = IsChosen-has classifications (rw held at h) in
        (d, Memᴰ.tail listed, shown, key)
  ]

  has-IsChosen :
      (classifications : List ClassifiedEndpoint)
      → IsChosen classifications path verb
      → has (external_keys classifications) wanted ≡ true
  unfolding has external_keys
  has-IsChosen [] (c, listed, shown, key) = elim listed [ ]
  has-IsChosen (d ∷ classifications) (c, Memᴰ.head e, exposed, key) =
      let shown : effective_verdict d ≡ true = rw (← e) exposed in
      let same : (key_of (to_lower d.method) d.path == wanted) ≡ true =
        rw (← e, key) (eq_refl wanted) in
      rw (shown, same)
  has-IsChosen (d ∷ classifications) (c, Memᴰ.tail listed, exposed, key) =
      let rest = has-IsChosen classifications (c, listed, exposed, key) in
      elim (Bool-cases (effective_verdict d)) [
        | inl shown ↦ rw shown (or_true (key_of (to_lower d.method) d.path == wanted) _ rest)
        | inr held ↦ rw held rest
      ]

  module _ (op : Operation) (keys : List Text) where
    mem-safe_methods :
        (methods : List (Text × Operation))
        → Memᴰ (verb, op) (safe_methods keys path methods)
        → Memᴰ (verb, op) methods × (has keys wanted ≡ true)
    unfolding safe_methods
    mem-safe_methods [] = λ h. elim h [ ]
    mem-safe_methods ((v, o) ∷ methods) = elim (Bool-cases (has keys (key_of (to_lower v) path))) [
      | inl kept ↦ rw kept (λ h. elim h [
        | Memᴰ.head e ↦ let same : verb ≡ v = cc in (Memᴰ.head e, rw same kept)
        | Memᴰ.tail later ↦
            let (listed, known) = mem-safe_methods methods later in (Memᴰ.tail listed, known)
      ])
      | inr dropped ↦
          rw dropped
            (λ h. let (listed, known) = mem-safe_methods methods h in (Memᴰ.tail listed, known))
    ]

    safe_methods-mem :
        (methods : List (Text × Operation))
        → has keys wanted ≡ true
        → Memᴰ (verb, op) methods
        → Memᴰ (verb, op) (safe_methods keys path methods)
    unfolding safe_methods
    safe_methods-mem [] known h = elim h [ ]
    safe_methods-mem ((v, o) ∷ methods) known (Memᴰ.head e) =
        let same : verb ≡ v = cc in
        let kept : has keys (key_of (to_lower v) path) ≡ true = rw (← same) known in
        rw kept (Memᴰ.head e)
    safe_methods-mem ((v, o) ∷ methods) known (Memᴰ.tail h) =
        let rest = safe_methods-mem methods known h in
        elim (Bool-cases (has keys (key_of (to_lower v) path))) [
          | inl kept ↦ rw kept (Memᴰ.tail rest)
          | inr dropped ↦ rw dropped rest
        ]

with_path-cases :
    (p path : Text) (ms methods : List (Text × Operation)) (paths : Paths)
    → Memᴰ (path, methods) (with_path p ms paths)
    → ((path ≡ p) × (methods ≡ ms)) ⊎ Memᴰ (path, methods) paths
with_path-cases p path [] methods paths h = inr h
with_path-cases p path (m ∷ ms) methods paths (Memᴰ.head e) = inl (cc, cc)
with_path-cases p path (m ∷ ms) methods paths (Memᴰ.tail h) = inr h

with_path-later :
    (p path : Text) (ms methods : List (Text × Operation)) (paths : Paths)
    → Memᴰ (path, methods) paths
    → Memᴰ (path, methods) (with_path p ms paths)
with_path-later p path [] methods paths h = h
with_path-later p path (m ∷ ms) methods paths h = Memᴰ.tail h

with_path-here :
    (path verb : Text) (op : Operation) (ms : List (Text × Operation)) (paths : Paths)
    → Memᴰ (verb, op) ms
    → Memᴰ (path, ms) (with_path path ms paths)
with_path-here path verb op [] paths h = elim h [ ]
with_path-here path verb op (m ∷ ms) paths h = Memᴰ.head refl

module _ (path verb : Text) (op : Operation) (keys : List Text) where
  external_paths-Offers :
      (paths : Paths)
      → Offers (external_paths keys paths) path verb op
      → Offers paths path verb op × (has keys (wanted path verb) ≡ true)
  unfolding external_paths
  external_paths-Offers [] (methods, listed, found) = elim listed [ ]
  external_paths-Offers ((p, ms) ∷ paths) (methods, listed, found) =
      elim (with_path-cases p path (safe_methods keys p ms) methods (external_paths keys paths)
        listed) [
          | inl (same, rows) ↦
              let held : Memᴰ (verb, op) (safe_methods keys path ms) = rw (same, ← rows) found in
              let (known, chosen) = mem-safe_methods path verb op keys ms held in
              ((ms, Memᴰ.head (cc), known), chosen)
          | inr later ↦
              let (offered, chosen) = external_paths-Offers paths (methods, later, found) in
              let (rows, here, known) = offered in ((rows, Memᴰ.tail here, known), chosen)
        ]

  Offers-external_paths :
      (paths : Paths)
      → has keys (wanted path verb) ≡ true
      → Offers paths path verb op
      → Offers (external_paths keys paths) path verb op
  unfolding external_paths
  Offers-external_paths [] chosen (methods, listed, found) = elim listed [ ]
  Offers-external_paths ((p, ms) ∷ paths) chosen (methods, Memᴰ.head e, found) =
      let same : path ≡ p = cc in
      let rows : methods ≡ ms = cc in
      let held : Memᴰ (verb, op) ms = rw (← rows) found in
      let kept = safe_methods-mem path verb op keys ms chosen held in
      (
        safe_methods keys path ms,
        rw (← same) (with_path-here path verb op (safe_methods keys path ms) _ kept),
        kept,
      )
  Offers-external_paths ((p, ms) ∷ paths) chosen (methods, Memᴰ.tail h, found) =
      let (rows, here, known) = Offers-external_paths paths chosen (methods, h, found) in
      (rows, with_path-later p path (safe_methods keys p ms) rows _ here, known)

-- The external server offers exactly the operations of the spec that some classification under the
-- same path and method exposes, by its override or, without one, by its own verdict; the internal
-- server offers all of them.
pub build_from_classifications_iff :
    (spec : McpSchema) (classifications : List ClassifiedEndpoint) (path verb : Text)
    (op : Operation)
    → let built = build_from_classifications spec classifications in
      (Offers built.external_mcp.paths path verb op
        ↔ (Offers spec.paths path verb op × IsChosen classifications path verb))
      × (built.internal_mcp.paths ≡ spec.paths)
unfolding build_from_classifications
build_from_classifications_iff spec classifications path verb op =
    let keys = external_keys classifications in
    (
      (
        (λ offered.
            let (listed, chosen) = external_paths-Offers path verb op keys spec.paths offered in
            (listed, IsChosen-has path verb classifications chosen)),
        λ (listed, chosen).
            Offers-external_paths path verb op keys spec.paths
              (has-IsChosen path verb classifications chosen) listed,
      ),
      refl,
    )
