-- ===== src/Policy/PathMatch.antt =====
-- apps/api/src/policy/path-match.util.ts. The template is turned into the source of a regular
-- expression by the same replacements, and that source is read and run as JavaScript does for the
-- syntax that can occur in it: a character, `\c`, `.`, `[^/]`, and the quantifiers `*` and `+`.
pub mod Regexp
pub mod Template
pub mod Compile
pub mod Tokens
pub mod Whole
pub mod Semantics
pub mod Laws
mod Tests
use mathlib.Core.Option
use get_mcp.Base.{
  ℕ, ◌≡◌, Bool, true, false, not, ◌&&◌, ◌||◌, Option, none, some, List, [], ◌∷◌, ◌++◌, ltb, leb,
  ◌=?◌, if◌then◌else◌, Text, codes, length, ◌==◌, is_empty, to_upper,
}
use Regexp.{regexp_source, regexp, test}

-- `p.split('?')[0]`
unfoldable pub before_query : Text → Text
before_query [] = []
before_query (c ∷ s) = if c =? b'?' then [] else c ∷ before_query s

-- `s.endsWith('/')` and `s.slice(0, -1)`
unfoldable pub ends_with_slash : Text → Bool
ends_with_slash [] = false
ends_with_slash (c ∷ []) = c =? b'/'
ends_with_slash (c ∷ d ∷ s) = ends_with_slash (d ∷ s)

unfoldable pub drop_last : Text → Text
drop_last [] = []
drop_last (c ∷ []) = []
drop_last (c ∷ d ∷ s) = c ∷ drop_last (d ∷ s)

unfoldable pub normalize : Text → Text
unfolding before_query ends_with_slash drop_last
normalize p =
    if is_empty p
    then []
    else let out = before_query p in
      if ltb 1 (length out) && ends_with_slash out then drop_last out else out

-- `none` is the SyntaxError that `new RegExp` throws.
unfoldable pub path_matches : Text → Text → Option Bool
path_matches template path =
    if is_empty template
    then some false
    else if template == codes "*" || template == codes "**"
    then some true
    else let t = normalize template in
      let p = normalize path in
      if t == p then some true else Option.map (λ items. test items p) (regexp (regexp_source t))

unfoldable pub method_matches : Text → Text → Bool
method_matches template method =
    if is_empty template || template == codes "*"
    then true
    else to_upper template == to_upper method
