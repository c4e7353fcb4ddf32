-- ===== src/Policy/PathMatch/Semantics.antt =====
-- What the regular expression of a template matches: `RegExp.test` in path-match.util.ts.
use get_mcp.Base.{
  ◌≡◌, ◌≢◌, refl, sym, ap, ◌∙◌, Bool, true, List, [], ◌∷◌, ◌++◌, map, arith, Bool-cases, inl, inr,
  Text, All,
}
use get_mcp.Policy.PathMatch.Regexp.{
  Class, char, dot, not_slash, Item, one, many, accepts, test_many, test,
}
use get_mcp.Policy.PathMatch.Template.{Segment, lit, param, wild, HasNoSlash, IsOneLine, Follows}
use get_mcp.Policy.PathMatch.Compile.{items_of}

-- A text that splits into characters of the class and a rest that `go_on` accepts.
abbrev Splits : Class → (Text → Bool) → Text → Type 0
Splits a go_on p =
    (value : Text) × (rest : Text) × (p ≡ value ++ rest)
    × All (λ c. accepts a c ≡ true) value
    × (go_on rest ≡ true)

test_many-Splits :
    (a : Class) (go_on : Text → Bool) (p : Text) → test_many a go_on p ≡ true → Splits a go_on p
unfolding test_many
test_many-Splits a go_on [] h = ([], [], refl, tt, h)
test_many-Splits a go_on (x ∷ p) h = elim (Bool-cases (go_on (x ∷ p))) [
  | inl here ↦ ([], x ∷ p, refl, tt, here)
  | inr later ↦
      let both : (accepts a x ≡ true) × (test_many a go_on p ≡ true) = ground arith in
      let (value, rest, e, ok, found) = test_many-Splits a go_on p both.1 in
      (x ∷ value, rest, ap (λ (t : Text). x ∷ t) e, (both.0, ok), found)
]

Splits-test_many :
    (a : Class) (go_on : Text → Bool) (value rest : Text)
    → All (λ c. accepts a c ≡ true) value
    → go_on rest ≡ true
    → test_many a go_on (value ++ rest) ≡ true
unfolding test_many
Splits-test_many a go_on [] [] h found = found
Splits-test_many a go_on [] (x ∷ rest) h found = ground arith
Splits-test_many a go_on (x ∷ value) rest (p, h) found =
    ground (arith, Splits-test_many a go_on value rest h found)

test-literal :
    (s : Text) (items : List Item) (p : Text)
    → test (map (λ c. one (char c)) s ++ items) p ≡ true
    → (rest : Text) × (p ≡ s ++ rest) × (test items rest ≡ true)
unfolding test accepts
test-literal [] items p h = (p, refl, h)
test-literal (c ∷ s) items [] h = cc
test-literal (c ∷ s) items (x ∷ p) h =
    let both : (c ≡ x) × (test (map (λ d. one (char d)) s ++ items) p ≡ true) = ground arith in
    let (rest, e, found) = test-literal s items p both.1 in (rest, cc, found)

literal-test :
    (s : Text) (items : List Item) (rest : Text)
    → test items rest ≡ true
    → test (map (λ c. one (char c)) s ++ items) (s ++ rest) ≡ true
unfolding test accepts
literal-test [] items rest h = h
literal-test (c ∷ s) items rest h = ground (arith, literal-test s items rest h)

no_slash_of_accepts : (v : Text) → All (λ c. accepts not_slash c ≡ true) v → HasNoSlash v
unfolding accepts
no_slash_of_accepts [] h = tt
no_slash_of_accepts (c ∷ v) (p, h) = (ground arith, no_slash_of_accepts v h)

accepts_of_no_slash : (v : Text) → HasNoSlash v → All (λ c. accepts not_slash c ≡ true) v
unfolding accepts
accepts_of_no_slash [] h = tt
accepts_of_no_slash (c ∷ v) (p, h) = (ground arith, accepts_of_no_slash v h)

IsOneLine-of_accepts : (v : Text) → All (λ c. accepts dot c ≡ true) v → IsOneLine v
unfolding accepts
IsOneLine-of_accepts [] h = tt
IsOneLine-of_accepts (c ∷ v) (p, h) = (ground arith, IsOneLine-of_accepts v h)

accepts_of_one_line : (v : Text) → IsOneLine v → All (λ c. accepts dot c ≡ true) v
unfolding accepts
accepts_of_one_line [] h = tt
accepts_of_one_line (c ∷ v) (p, h) = (ground arith, accepts_of_one_line v h)

test-slash :
    (items : List Item) (p : Text)
    → test (one (char b'/') ∷ items) p ≡ true
    → (q : Text) × (p ≡ b'/' ∷ q) × (test items q ≡ true)
unfolding test accepts
test-slash items [] h = cc
test-slash items (x ∷ q) h =
    let same : b'/' ≡ x = ground arith in (q, ap (λ c. c ∷ q) (sym same), ground arith)

test_name :
    (items : List Item) (p : Text)
    → test (one not_slash ∷ many not_slash ∷ items) p ≡ true
    → (v : Text) × (rest : Text) × (p ≡ v ++ rest)
      × (v ≢ [])
      × HasNoSlash v
      × (test items rest ≡ true)
unfolding test
test_name items [] h = cc
test_name items (x ∷ q) h =
    let both : (accepts not_slash x ≡ true) × (test_many not_slash (test items) q ≡ true) =
      ground arith in
    let (v, rest, e, ok, found) = test_many-Splits not_slash (test items) q both.1 in
    (x ∷ v, rest, ap (λ (t : Text). x ∷ t) e, cc, no_slash_of_accepts (x ∷ v) (both.0, ok), found)

-- A text that the regular expression of a template matches follows the template.
pub test-Follows : (segs : List Segment) (p : Text) → test (items_of segs) p ≡ true → Follows segs p
test-Follows [] [] h = refl
test-Follows [] (x ∷ p) h = unfold test in cc
test-Follows (lit s ∷ segs) p h =
    let (q, e, found) = test-slash _ p h in
    let (rest, e', found') = test-literal s (items_of segs) q found in
    (rest, e ∙ ap (λ (t : Text). b'/' ∷ t) e', test-Follows segs rest found')
test-Follows (param name ∷ segs) p h =
    let (q, e, found) = test-slash _ p h in
    let (v, rest, e', some_v, no_slash, found') = test_name (items_of segs) q found in
    (v, rest, e ∙ ap (λ (t : Text). b'/' ∷ t) e', some_v, no_slash, test-Follows segs rest found')
test-Follows (wild ∷ segs) p h =
    let (q, e, found) = test-slash _ p h in
    let (v, rest, e', ok, found') =
      test_many-Splits dot (test (items_of segs)) q (unfold test in found) in
    (
      v,
      rest,
      e ∙ ap (λ (t : Text). b'/' ∷ t) e',
      IsOneLine-of_accepts v ok,
      test-Follows segs rest found',
    )

name_test :
    (items : List Item) (v rest : Text)
    → v ≢ []
    → HasNoSlash v
    → test items rest ≡ true
    → test (one not_slash ∷ many not_slash ∷ items) (v ++ rest) ≡ true
unfolding test accepts
name_test items [] rest h ok found = absurd (h refl)
name_test items (c ∷ v) rest h (p, ok) found =
    ground (arith, Splits-test_many not_slash (test items) v rest (accepts_of_no_slash v ok) found)

-- A text that follows a template is matched by its regular expression.
pub Follows-test : (segs : List Segment) (p : Text) → Follows segs p → test (items_of segs) p ≡ true
unfolding test accepts
Follows-test [] p h = rw h
Follows-test (lit s ∷ segs) p (rest, e, h) =
    rw e (literal-test s (items_of segs) rest (Follows-test segs rest h))
Follows-test (param name ∷ segs) p (v, rest, e, some_v, no_slash, h) =
    rw e (name_test (items_of segs) v rest some_v no_slash (Follows-test segs rest h))
Follows-test (wild ∷ segs) p (v, rest, e, ok, h) = rw e (
    Splits-test_many dot (test (items_of segs)) v rest (accepts_of_one_line v ok)
      (Follows-test segs rest h))
