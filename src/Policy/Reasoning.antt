-- ===== src/Policy/Reasoning.antt =====
-- apps/api/src/policy/reasoning.util.ts; `null` and `undefined` are `none`.
use get_mcp.Base.{
  ℕ, suc, ◌≤◌, ◌<◌, ◌≡◌, ◌≢◌, ◌↔◌, ◌⊎◌, refl, ap, Bool, true, false, Option, none, some, List, [],
  ◌∷◌, map, arith, ltb, if◌then◌else◌, Text, codes, length, ◌==◌, eq_iff, is_empty, Bool-cases, inl,
  inr, trim, to_lower, has,
}

abbrev pub banned : List Text
banned =
    codes "test"
    ∷ codes "testing"
    ∷ codes "because"
    ∷ codes "reason"
    ∷ codes "idk"
    ∷ codes "why not"
    ∷ codes "na"
    ∷ codes "n/a"
    ∷ codes "todo"
    ∷ codes "fix"
    ∷ codes "fixme"
    ∷ codes "debug"
    ∷ codes "debugging"
    ∷ codes "just doing it"
    ∷ codes "placeholder"
    ∷ []

abbrev pub min_length : ℕ
min_length = 10

unfoldable pub is_valid_reasoning : Option Text → Bool
is_valid_reasoning none = false
is_valid_reasoning (some text) =
    if is_empty text
    then false
    else let trimmed = trim text in
      if ltb (length trimmed) min_length
      then false
      else if has banned (to_lower trimmed)
      then false
      else true

-- The three messages of `reasoningRejectionReason`.
pub data Rejection : Type 0 where
  empty too_short placeholder : Rejection

unfoldable pub reasoning_rejection_reason : Option Text → Rejection
reasoning_rejection_reason none = empty
reasoning_rejection_reason (some text) =
    if is_empty text
    then empty
    else if is_empty (trim text)
    then empty
    else if ltb (length (trim text)) min_length
    then too_short
    else placeholder

length-map : (f : ℕ → ℕ) (s : Text) → length (map f s) ≡ length s
length-map f [] = refl
length-map f (c ∷ s) = ap suc (length-map f s)

length-to_lower : (s : Text) → length (to_lower s) ≡ length s
unfolding to_lower
length-to_lower s = length-map _ s

eq-false_of_length : (s t : Text) → length s < length t → (s == t) ≡ false
eq-false_of_length s t h = ground (arith, eq_iff s t, λ (e : s ≡ t). ap (length {A = ℕ}) e)

abbrev pub IsPlaceholder : Text → Type 0
IsPlaceholder s = (s ≡ codes "just doing it") ⊎ (s ≡ codes "placeholder")

-- Of the fifteen banned words only two are long enough to pass the length test.
has-banned_iff : (s : Text) → 10 ≤ length s → (has banned s ≡ true) ↔ IsPlaceholder s
unfolding has
has-banned_iff s h = ground (
  arith,
  eq-false_of_length (codes "test") s,
  eq-false_of_length (codes "testing") s,
  eq-false_of_length (codes "because") s,
  eq-false_of_length (codes "reason") s,
  eq-false_of_length (codes "idk") s,
  eq-false_of_length (codes "why not") s,
  eq-false_of_length (codes "na") s,
  eq-false_of_length (codes "n/a") s,
  eq-false_of_length (codes "todo") s,
  eq-false_of_length (codes "fix") s,
  eq-false_of_length (codes "fixme") s,
  eq-false_of_length (codes "debug") s,
  eq-false_of_length (codes "debugging") s,
  eq_iff (codes "just doing it") s,
  eq_iff (codes "placeholder") s,
)

trimmed_iff :
    (s : Text)
    → ((if ltb (length s) min_length
          then false
          else if has banned (to_lower s)
          then false
          else true)
        ≡ true)
      ↔ ((10 ≤ length s) × (¬ IsPlaceholder (to_lower s)))
trimmed_iff s = ground (arith, has-banned_iff (to_lower s), length-to_lower s)

-- A reasoning is accepted exactly when, trimmed, it has at least ten code units and is not, up to
-- ASCII case, "just doing it" or "placeholder": the other thirteen banned words are dead entries.
pub is_valid_reasoning_iff :
    (t : Text)
    → (is_valid_reasoning (some t) ≡ true)
      ↔ ((10 ≤ length (trim t)) × (¬ IsPlaceholder (to_lower (trim t))))
unfolding is_valid_reasoning trim
is_valid_reasoning_iff [] = ground arith
is_valid_reasoning_iff (c ∷ s) = trimmed_iff (trim (c ∷ s))

-- What each rejection message says of the text.
abbrev pub Explains : Text → Rejection → Type 0
Explains t empty = trim t ≡ []
Explains t too_short = (trim t ≢ []) × (length (trim t) < 10)
Explains t placeholder = (10 ≤ length (trim t)) × IsPlaceholder (to_lower (trim t))

Explains-trimmed :
    (t s : Text)
    → trim t ≡ s
    → (if ltb (length s) min_length then false else if has banned (to_lower s) then false else true)
      ≡ false
    → Explains t
        (if is_empty s then empty else if ltb (length s) min_length then too_short else placeholder)
Explains-trimmed t [] e h = e
Explains-trimmed t (c ∷ s) e h = elim (Bool-cases (ltb (length (c ∷ s)) min_length)) [
  | inl short ↦ rw (short, e) (ground arith)
  | inr long ↦
      rw (long, e) (ground (arith, has-banned_iff (to_lower (c ∷ s)), length-to_lower (c ∷ s)))
]

-- The message for a text that is refused names the check that refused it.
pub reasoning_rejection_reason-Explains :
    (t : Text)
    → is_valid_reasoning (some t) ≡ false
    → Explains t (reasoning_rejection_reason (some t))
unfolding is_valid_reasoning reasoning_rejection_reason trim
reasoning_rejection_reason-Explains [] h = refl
reasoning_rejection_reason-Explains (c ∷ s) h = Explains-trimmed (c ∷ s) (trim (c ∷ s)) refl h
