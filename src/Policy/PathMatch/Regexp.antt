-- ===== src/Policy/PathMatch/Regexp.antt =====
-- `templateToRegExp` of path-match.util.ts, and the regular expressions that it makes.
use mathlib.Core.Option
use get_mcp.Base.{
  ℕ, Bool, true, false, not, ◌&&◌, ◌||◌, Option, none, some, List, [], ◌∷◌, ◌++◌, leb, ◌=?◌,
  if◌then◌else◌, Text, codes,
}

-- The characters of `[.+?^${}()|[\]\\]`.
unfoldable pub is_special : ℕ → Bool
is_special c =
    c =? b'.'
    || c =? b'+'
    || c =? b'?'
    || c =? b'^'
    || c =? b'$'
    || c =? b'{'
    || c =? b'}'
    || c =? b'('
    || c =? b')'
    || c =? b'|'
    || c =? b'['
    || c =? b']'
    || c =? 0x5c

-- `template.replace(/[.+?^${}()|[\]\\]/g, '\\$&')`
unfoldable pub escape : Text → Text
escape [] = []
escape (c ∷ s) = if is_special c then 0x5c ∷ c ∷ escape s else c ∷ escape s

-- `pattern.replace(/\/\*/g, '/.*')`; the flag says that the last character read was a slash.
unfoldable pub expand_stars : Bool → Text → Text
expand_stars after_slash [] = []
expand_stars after_slash (c ∷ s) =
    let rest = expand_stars (c =? b'/') s in
    if after_slash && c =? b'*' then b'.' ∷ b'*' ∷ rest else c ∷ rest

-- `if (pattern.startsWith('*')) pattern = '.*' + pattern.slice(1)`
unfoldable pub expand_first : Text → Text
expand_first [] = []
expand_first (c ∷ s) = if c =? b'*' then b'.' ∷ b'*' ∷ s else c ∷ s

-- `[A-Za-z_]` and `[A-Za-z0-9_]`
unfoldable pub is_ident_start : ℕ → Bool
is_ident_start c = (leb b'A' c && leb c b'Z') || (leb b'a' c && leb c b'z') || c =? b'_'

unfoldable pub is_ident : ℕ → Bool
unfolding is_ident_start
is_ident c = is_ident_start c || (leb b'0' c && leb c b'9')

unfoldable pub starts_ident : Text → Bool
starts_ident [] = false
starts_ident (c ∷ s) = is_ident_start c

-- `pattern.replace(PARAM_RE, '[^/]+')`; the flag says that a parameter's name is being read.
unfoldable pub expand_params : Bool → Text → Text
expand_params inside [] = []
expand_params inside (c ∷ s) =
    let skip = inside && is_ident c in
    let starts = not skip && c =? b':' && starts_ident s in
    let rest = expand_params (skip || starts) s in
    if skip then rest else if starts then codes "[^/]+" ++ rest else c ∷ rest

-- The source that is given to `new RegExp`, without `^` and `$`.
unfoldable pub regexp_source : Text → Text
regexp_source template = expand_params false (expand_first (expand_stars false (escape template)))

pub data Class : Type 0 where
  char : ℕ → Class
  dot not_slash : Class

pub data Token : Type 0 where
  atom : Class → Token
  star plus : Token

-- How the next character is read: by itself, after `\`, or inside `[…]`. The only class that a
-- source can hold is `[^/]`, since `escape` quotes the brackets of the template.
pub data Mode : Type 0 where
  plain escaped in_class : Mode

unfoldable pub next_mode : Mode → ℕ → Mode
next_mode plain c = if c =? 0x5c then escaped else if c =? b'[' then in_class else plain
next_mode escaped c = plain
next_mode in_class c = if c =? b']' then plain else in_class

unfoldable pub emit : Mode → ℕ → List Token
emit plain c =
    if c =? 0x5c || c =? b'['
    then []
    else if c =? b'.'
    then atom dot ∷ []
    else if c =? b'*'
    then star ∷ []
    else if c =? b'+'
    then plus ∷ []
    else atom (char c) ∷ []
emit escaped c = atom (char c) ∷ []
emit in_class c = if c =? b']' then atom not_slash ∷ [] else []

unfoldable pub tokens : Mode → Text → List Token
tokens mode [] = []
tokens mode (c ∷ s) = emit mode c ++ tokens (next_mode mode c) s

-- What a regular expression asks for, in order: one character, or any number of them.
pub data Item : Type 0 where
  one many : Class → Item

-- Quantifiers bind to the atom before them, which is the first argument; `none` is the SyntaxError
-- "nothing to repeat".
unfoldable pub quantify : Option Class → List Token → Option (List Item)
quantify none [] = some []
quantify none (atom a ∷ ts) = quantify (some a) ts
quantify none (star ∷ ts) = none
quantify none (plus ∷ ts) = none
quantify (some a) [] = some (one a ∷ [])
quantify (some a) (atom b ∷ ts) = Option.map (λ items. one a ∷ items) (quantify (some b) ts)
quantify (some a) (star ∷ ts) = Option.map (λ items. many a ∷ items) (quantify none ts)
quantify (some a) (plus ∷ ts) = Option.map (λ items. one a ∷ many a ∷ items) (quantify none ts)

unfoldable pub regexp : Text → Option (List Item)
regexp source = quantify none (tokens plain source)

-- `.` does not match the line terminators.
unfoldable pub is_line_end : ℕ → Bool
is_line_end c = c =? 0x0a || c =? 0x0d || c =? 0x2028 || c =? 0x2029

unfoldable pub accepts : Class → ℕ → Bool
accepts (char c) x = c =? x
accepts dot x = not (is_line_end x)
accepts not_slash x = not (x =? b'/')

-- Any number of characters of the class, and then what `go_on` accepts.
unfoldable pub test_many : Class → (Text → Bool) → Text → Bool
test_many a go_on [] = go_on []
test_many a go_on (x ∷ s) = go_on (x ∷ s) || (accepts a x && test_many a go_on s)

-- `new RegExp('^' + source + '$').test(s)`
unfoldable pub test : List Item → Text → Bool
test [] [] = true
test [] (x ∷ s) = false
test (one a ∷ items) [] = false
test (one a ∷ items) (x ∷ s) = accepts a x && test items s
test (many a ∷ items) s = test_many a (test items) s
