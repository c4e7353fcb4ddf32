-- ===== src/Access/Hex.antt =====
-- Buffers as lists of bytes, with `toString('hex')`, `Buffer.from(s, 'hex')` and `s.split(c)`.
use get_mcp.Base.{
  ℕ, ◌+◌, ◌-◌, ◌*◌, ◌/◌, ◌%◌, ◌<◌, ◌≡◌, refl, ap, arith, true, false, ◌&&◌, Option, none, some,
  List, [], ◌∷◌, ◌++◌, ltb, leb, ◌=?◌, if◌then◌else◌, All, Text, Lacks, ◌≢◌,
}

abbrev pub Bytes : Type 0
Bytes = List ℕ

abbrev pub IsBytes : Bytes → Type 0
IsBytes bytes = All (λ b. b < 256) bytes

abbrev hex_digit : ℕ → ℕ
hex_digit n = if ltb n 10 then b'0' + n else b'a' + (n - 10)

unfoldable pub to_hex : Bytes → Text
to_hex [] = []
to_hex (b ∷ bytes) = hex_digit (b / 16) ∷ hex_digit (b % 16) ∷ to_hex bytes

abbrev digit_value : ℕ → Option ℕ
digit_value c =
    if leb b'0' c && leb c b'9'
    then some (c - b'0')
    else if leb b'a' c && leb c b'f'
    then some (c - b'a' + 10)
    else if leb b'A' c && leb c b'F'
    then some (c - b'A' + 10)
    else none

abbrev prepend : Option ℕ → Option ℕ → Bytes → Bytes
prepend (some high) (some low) bytes = (high * 16 + low) ∷ bytes
prepend _ _ bytes = []

-- The decoding ends at the first pair that is not hexadecimal, or at a digit that is left over.
unfoldable pub from_hex : Text → Bytes
from_hex [] = []
from_hex (c ∷ []) = []
from_hex (c ∷ d ∷ s) = prepend (digit_value c) (digit_value d) (from_hex s)

abbrev pub extend : ℕ → List Text → List Text
extend c [] = (c ∷ []) ∷ []
extend c (part ∷ parts) = (c ∷ part) ∷ parts

-- `s.split(separator)` for a separator of one code unit.
unfoldable pub split : ℕ → Text → List Text
split separator [] = [] ∷ []
split separator (c ∷ s) =
    let rest = split separator s in if c =? separator then [] ∷ rest else extend c rest

digit_value-hex_digit : (n : ℕ) → n < 16 → digit_value (hex_digit n) ≡ some n
digit_value-hex_digit n h = ground arith

pub from_hex-to_hex : (bytes : Bytes) → IsBytes bytes → from_hex (to_hex bytes) ≡ bytes
unfolding from_hex to_hex
from_hex-to_hex [] h = refl
from_hex-to_hex (b ∷ bytes) (p, h) =
    let high = digit_value-hex_digit (b / 16) (omega arith) in
    let low = digit_value-hex_digit (b % 16) (omega arith) in
    let whole : b / 16 * 16 + b % 16 ≡ b = omega arith in
    rw (high, low, from_hex-to_hex bytes h) (ap (λ n. n ∷ bytes) whole)

hex_digit-Lacks : (n : ℕ) → n < 16 → hex_digit n ≢ b'$'
hex_digit-Lacks n h = ground arith

-- No separator of the stored secrets stands in a hexadecimal text.
pub to_hex-Lacks : (bytes : Bytes) → IsBytes bytes → Lacks b'$' (to_hex bytes)
unfolding to_hex
to_hex-Lacks [] h = tt
to_hex-Lacks (b ∷ bytes) (p, h) = (
  hex_digit-Lacks (b / 16) (omega arith),
  (hex_digit-Lacks (b % 16) (omega arith), to_hex-Lacks bytes h),
)

pub split-one : (c : ℕ) (s : Text) → Lacks c s → split c s ≡ s ∷ []
unfolding split
split-one c [] h = refl
split-one c (d ∷ s) (p, h) =
    let differ : (d =? c) ≡ false = ground arith in rw (differ, split-one c s h)

pub split-append : (c : ℕ) (s t : Text) → Lacks c s → split c (s ++ c ∷ t) ≡ s ∷ split c t
unfolding split
split-append c [] t h = let same : (c =? c) ≡ true = ground arith in rw same
split-append c (d ∷ s) t (p, h) =
    let differ : (d =? c) ≡ false = ground arith in rw (differ, split-append c s t h)
