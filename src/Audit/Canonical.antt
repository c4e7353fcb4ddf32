-- ===== src/Audit/Canonical.antt =====
-- Stable JSON: `canonicalJson` of apps/api/src/audit/canonical.util.ts. Its numbers are whole, as those
-- of an audit row are.
use get_mcp.Base.{
  ℕ, ◌+◌, ◌/◌, ◌%◌, Bool, true, false, ◌||◌, ◌&&◌, Option, none, some, List, [], ◌∷◌, ◌++◌, map,
  ltb, leb, ◌=?◌, if◌then◌else◌, Text, codes, join, ℤ, decimal_of,
}

-- A value of the language. `non_finite` is NaN or an infinity, `opaque` a function, a symbol or a
-- big integer.
mutual
  pub data Value : Type 0 where
    null : Value
    undefined : Value
    number : ℤ → Value
    non_finite : Value
    string : Text → Value
    boolean : Bool → Value
    array : Values → Value
    object : Members → Value
    opaque : Value

  pub data Values : Type 0 where
    nil : Values
    cons : Value → Values → Values

  pub data Members : Type 0 where
    end : Members
    member : Text → Value → Members → Members

-- A digit of a `\u` escape.
abbrev hex_digit : ℕ → ℕ
hex_digit n = if ltb n 10 then b'0' + n else 87 + n

unfoldable unicode_escape : ℕ → Text
unicode_escape c =
    b'\\'
    ∷ (b'u'
        ∷ (hex_digit (c / 4096)
            ∷ (hex_digit (c / 256 % 16) ∷ (hex_digit (c / 16 % 16) ∷ (hex_digit (c % 16) ∷ [])))))

abbrev escaped : ℕ → Text
escaped c = b'\\' ∷ (c ∷ [])

abbrev is_high : ℕ → Bool
is_high c = leb 55296 c && ltb c 56320

abbrev is_low : ℕ → Bool
is_low c = leb 56320 c && ltb c 57344

-- One code unit of a string in JSON, surrogates apart.
unfoldable quote_unit : ℕ → Text
quote_unit c =
    if c =? 34 || c =? 92
    then escaped c
    else if c =? 8
    then escaped b'b'
    else if c =? 9
    then escaped b't'
    else if c =? 10
    then escaped b'n'
    else if c =? 12
    then escaped b'f'
    else if c =? 13
    then escaped b'r'
    else if ltb c 32
    then unicode_escape c
    else c ∷ []

-- The units of a string; a surrogate is escaped where it has no partner. The first argument is the
-- high surrogate that stands before, if there is one.
unfoldable quote_units : Option ℕ → Text → Text
unfolding quote_unit unicode_escape
quote_units none [] = []
quote_units (some high) [] = unicode_escape high
quote_units none (c ∷ cs) =
    let rest = quote_units none cs in
    if is_high c
    then quote_units (some c) cs
    else if is_low c
    then unicode_escape c ++ rest
    else quote_unit c ++ rest
quote_units (some high) (c ∷ cs) =
    let rest = quote_units none cs in
    if is_low c
    then high ∷ (c ∷ rest)
    else if is_high c
    then unicode_escape high ++ quote_units (some c) cs
    else unicode_escape high ++ (quote_unit c ++ rest)

-- `JSON.stringify` of a string.
unfoldable pub quote : Text → Text
unfolding quote_units
quote s = b'"' ∷ (quote_units none s ++ (b'"' ∷ []))

-- The order of `sort()` on strings, by code units.
unfoldable pub precedes : Text → Text → Bool
precedes [] cs = true
precedes (c ∷ cs) [] = false
precedes (c ∷ cs) (d ∷ ds) = let rest = precedes cs ds in if c =? d then rest else ltb c d

unfoldable insert_member : Text × Text → List (Text × Text) → List (Text × Text)
unfolding precedes
insert_member e [] = e ∷ []
insert_member e (f ∷ fs) =
    let rest = insert_member e fs in if precedes e.0 f.0 then e ∷ (f ∷ fs) else f ∷ rest

unfoldable pub sort_members : List (Text × Text) → List (Text × Text)
unfolding insert_member
sort_members [] = []
sort_members (e ∷ es) = insert_member e (sort_members es)

unfoldable pub print_member : Text × Text → Text
unfolding quote
print_member (k, v) = quote k ++ (b':' ∷ v)

unfoldable pub print_object : Option (List (Text × Text)) → Option Text
unfolding sort_members print_member
print_object none = none
print_object (some members) =
    some (b'{' ∷ (join (codes ",") (map print_member (sort_members members)) ++ codes "}"))

unfoldable pub print_array : Option (List Text) → Option Text
print_array none = none
print_array (some items) = some (b'[' ∷ (join (codes ",") items ++ codes "]"))

module _ {ℓ} {A : Type ℓ} where
  abbrev pub also : Option A → Option (List A) → Option (List A)
  also (some x) (some xs) = some (x ∷ xs)
  also _ _ = none

abbrev pub keyed : Text → Option Text → Option (Text × Text)
keyed k none = none
keyed k (some v) = some (k, v)

-- `canonicalJson`; none where it throws.
unfoldable mutual
  pub canonical_json : Value → Option Text
  canonical_json null = some (codes "null")
  canonical_json undefined = some (codes "null")
  canonical_json (number z) = some (decimal_of z)
  canonical_json non_finite = none
  canonical_json (string s) = some (quote s)
  canonical_json (boolean b) = some (if b then codes "true" else codes "false")
  canonical_json (array vs) = print_array (canonical_items vs)
  canonical_json (object ms) = print_object (canonical_members ms)
  canonical_json opaque = none

  pub canonical_items : Values → Option (List Text)
  canonical_items nil = some []
  canonical_items (cons v vs) = also (canonical_json v) (canonical_items vs)

  pub canonical_members : Members → Option (List (Text × Text))
  canonical_members end = some []
  canonical_members (member k v ms) = also (keyed k (canonical_json v)) (canonical_members ms)
