-- ===== src/Access/Tests.antt =====
-- apps/api/src/auth, crypto.util.ts and slack/slack.signature.ts on concrete inputs.
use mathlib.Core.List.{Memᴰ}
use get_mcp.Base.{
  ℕ, zero, suc, ◌+◌, ap, ◌∙◌, lower_unit, trim, trim_start, ◌%◌, ◌≡◌, ◌↔◌, refl, true, false, none,
  some, [], ◌∷◌, ◌++◌, arith, length, Text, codes, ◌==◌, is_space, starts_with, to_lower,
}
use get_mcp.Access.Hex.{Bytes, IsBytes, from_hex, to_hex, split}
use get_mcp.Access.Secrets.{
  Cipher, Opens, load_key, encrypt_secret, decrypt_secret, decrypt_secret-encrypt_secret,
}
use get_mcp.Access.Keys.{
  extract_prefix, Scrypt, Derives, hash_api_key, mint_api_key, verify_api_key,
}
use get_mcp.Access.Guard.{
  check_header, check_token, candidates, first_verified, ApiKey, AuthContext, authenticated,
  can_activate, IsKnown, token_of, can_activate-IsKnown,
}
use get_mcp.Access.Guard.Minted.{can_activate-mint_api_key}
use get_mcp.Access.Signature.{Hmac, verify_slack_signature, IsSigned, verify_slack_signature_iff}

-- The bytes of a unary code: a unit n is n ones and a zero.
abbrev ones : ℕ → Bytes → Bytes
ones zero rest = 0 ∷ rest
ones (suc n) rest = 1 ∷ ones n rest

abbrev unary : Text → Bytes
unary [] = []
unary (c ∷ s) = ones c (unary s)

abbrev read_unary : ℕ → Bytes → Text
read_unary n [] = []
read_unary n (zero ∷ bytes) = n ∷ read_unary 0 bytes
read_unary n (suc b ∷ bytes) = read_unary (suc n) bytes

read_unary-ones :
    (n c : ℕ) (rest : Bytes) → read_unary n (ones c rest) ≡ (n + c) ∷ read_unary 0 rest
read_unary-ones n zero rest = ap (λ m. m ∷ read_unary 0 rest) (omega arith)
read_unary-ones n (suc c) rest =
    read_unary-ones (suc n) c rest ∙ ap (λ m. m ∷ read_unary 0 rest) (omega arith)

read_unary-unary : (s : Text) → read_unary 0 (unary s) ≡ s
read_unary-unary [] = refl
read_unary-unary (c ∷ s) =
    let same : 0 + c ≡ c = omega arith in
    read_unary-ones 0 c (unary s) ∙ rw (same, read_unary-unary s)

ones-IsBytes : (c : ℕ) (rest : Bytes) → IsBytes rest → IsBytes (ones c rest)
ones-IsBytes zero rest h = (omega arith, h)
ones-IsBytes (suc c) rest h = (omega arith, ones-IsBytes c rest h)

unary-IsBytes : (s : Text) → IsBytes (unary s)
unary-IsBytes [] = tt
unary-IsBytes (c ∷ s) = ones-IsBytes c (unary s) (unary-IsBytes s)

-- A cipher that changes nothing, with texts in a unary code.
abbrev encoding : Cipher
encoding = record {
  seal = λ key iv bytes. (bytes, []);
  unseal = λ key iv tag ct. some ct;
  encode = unary;
  decode = read_unary 0;
}

encoding-Opens : Opens encoding
encoding-Opens = record {
  opens = λ key iv bytes lk li h. refl;
  sealed = λ key iv bytes lk li h. (h, tt);
  encodes = unary-IsBytes;
  decodes = λ s valid. read_unary-unary s;
}

-- Sixty-four hexadecimal digits.
abbrev env : Text
env = codes "000102030405060708090a0b0c0d0e0f101112131415161718191a1b1c1d1e1f"

abbrev key : Bytes
key = from_hex env

abbrev twelve : Bytes
twelve = 7 ∷ 0 ∷ 0 ∷ 0 ∷ 0 ∷ 0 ∷ 0 ∷ 0 ∷ 0 ∷ 0 ∷ 0 ∷ 255 ∷ []

twelve-IsBytes : IsBytes twelve
twelve-IsBytes = (
  omega arith,
  (
    omega arith,
    (
      omega arith,
      (
        omega arith,
        (
          omega arith,
          (
            omega arith,
            (
              omega arith,
              (omega arith, (omega arith, (omega arith, (omega arith, (omega arith, tt))))),
            ),
          ),
        ),
      ),
    ),
  ),
)

decrypt_secret-encrypt_secret_example :
    (stored : Text) × (encrypt_secret encoding (some env) twelve (codes "key:") ≡ some stored)
    × (decrypt_secret encoding (some env) stored ≡ some (codes "key:"))
unfolding load_key from_hex
decrypt_secret-encrypt_secret_example =
    decrypt_secret-encrypt_secret encoding (some env) key twelve (codes "key:") encoding-Opens
      twelve-IsBytes refl
      (omega arith, refl, (omega arith, refl, (omega arith, refl, (omega arith, refl, refl)))) refl

-- A derivation that only cuts and fills up.
abbrev fill : Text → ℕ → Bytes
fill s zero = []
fill [] (suc n) = 0 ∷ fill [] n
fill (c ∷ s) (suc n) = c % 256 ∷ fill s n

fill-IsBytes : (s : Text) (n : ℕ) → IsBytes (fill s n)
fill-IsBytes s zero = tt
fill-IsBytes [] (suc n) = (omega arith, fill-IsBytes [] n)
fill-IsBytes (c ∷ s) (suc n) = (omega arith, fill-IsBytes s n)

length-fill : (s : Text) (n : ℕ) → length (fill s n) ≡ n
length-fill s zero = refl
length-fill [] (suc n) = ap suc (length-fill [] n)
length-fill (c ∷ s) (suc n) = ap suc (length-fill s n)

abbrev cutting : Scrypt
cutting s salt n = fill s n

cutting-Derives : Derives cutting
cutting-Derives = record {
  bytes = λ s salt n. fill-IsBytes s n;
  size = λ s salt n. length-fill s n;
}

abbrev stored_key : ApiKey
stored_key = record {
  id = codes "k1";
  organization_id = codes "o1";
  prefix = (mint_api_key cutting (codes "abcdef") (9 ∷ [])).prefix;
  hash = (mint_api_key cutting (codes "abcdef") (9 ∷ [])).hash;
  revoked_at = none;
}

abbrev holder : AuthContext
holder = record { organization_id = codes "o1"; api_key_id = codes "k1" }

can_activate-mint_api_key_example :
    (auth : AuthContext) × (can_activate cutting false
        (some (codes "Bearer gmcp_abcdef"))
        (stored_key ∷ [])
      ≡ authenticated auth)
    × IsKnown cutting (stored_key ∷ []) (codes "gmcp_abcdef") auth
unfolding mint_api_key is_space
can_activate-mint_api_key_example =
    can_activate-mint_api_key cutting (codes "abcdef") (9 ∷ []) (stored_key ∷ []) stored_key
      cutting-Derives (omega arith, tt) (refl, (refl, (refl, (refl, (refl, (refl, tt))))))
      (Memᴰ.head refl) refl refl refl

can_activate-IsKnown_example :
    (text : Text) × (some (codes "bearer gmcp_abcdef") ≡ some text)
    × (starts_with (to_lower text) (codes "bearer ") ≡ true)
    × IsKnown cutting (stored_key ∷ []) (token_of text) holder
unfolding can_activate check_header check_token candidates first_verified mint_api_key hash_api_key
    verify_api_key extract_prefix split to_hex from_hex starts_with to_lower lower_unit trim
    trim_start is_space ◌==◌
can_activate-IsKnown_example =
    can_activate-IsKnown cutting (some (codes "bearer gmcp_abcdef")) (stored_key ∷ []) holder refl

abbrev joining : Hmac
joining secret text = secret ++ text

verify_slack_signature_iff_example :
    (verify_slack_signature joining
        (codes "a=b")
        (some (codes "1000"))
        (some (codes "v0=x"))
        (codes "key")
        1300
      ≡ true)
    ↔ IsSigned joining (codes "a=b") (codes "1000") (codes "v0=x") (codes "key") 1300
verify_slack_signature_iff_example =
    verify_slack_signature_iff joining (codes "a=b") (codes "1000") (codes "v0=x") (codes "key")
      1300 refl
