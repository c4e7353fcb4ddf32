-- ===== src/Access/Keys.antt =====
-- The API keys of apps/api/src/auth/api-key.util.ts.
use get_mcp.Base.{
  ℕ, ◌≡◌, ◌↔◌, arith, Bool, true, false, ◌&&◌, List, [], ◌∷◌, ◌++◌, take, length, ◌=?◌, Text, codes,
  ◌==◌, eq_iff,
}
use get_mcp.Access.Hex.{
  Bytes, IsBytes, to_hex, from_hex, split, from_hex-to_hex, to_hex-Lacks, split-one, split-append,
}

-- scrypt: the key of a given length that is derived from a password and a salt.
abbrev pub Scrypt : Type 0
Scrypt = Text → Bytes → ℕ → Bytes

abbrev pub key_len : ℕ
key_len = 64

abbrev pub prefix_len : ℕ
prefix_len = 8

pub record MintedKey : Type 0 where
  pub plaintext : Text
  pub prefix : Text
  pub hash : Text

unfoldable pub extract_prefix : Text → Text
extract_prefix plaintext = take prefix_len plaintext

unfoldable pub hash_api_key : Scrypt → Bytes → Text → Text
hash_api_key scrypt salt plaintext =
    codes "scrypt$" ++ (to_hex salt ++ (codes "$" ++ to_hex (scrypt plaintext salt key_len)))

-- `random` is the base64url text of 24 random bytes, `salt` are 16 random bytes.
unfoldable pub mint_api_key : Scrypt → Text → Bytes → MintedKey
mint_api_key scrypt random salt =
    let plaintext = codes "gmcp_" ++ random in
    record {
      plaintext = plaintext;
      prefix = take prefix_len plaintext;
      hash = hash_api_key scrypt salt plaintext;
    }

abbrev same_bytes : Bytes → Bytes → Bool
same_bytes derived expected = (length derived =? length expected) && derived == expected

abbrev verify_parts : Scrypt → Text → List Text → Bool
verify_parts scrypt plaintext (scheme ∷ salt ∷ expected ∷ []) =
    (scheme == codes "scrypt")
    && same_bytes (scrypt plaintext (from_hex salt) (length (from_hex expected)))
        (from_hex expected)
verify_parts scrypt plaintext parts = false

unfoldable pub verify_api_key : Scrypt → Text → Text → Bool
verify_api_key scrypt plaintext stored = verify_parts scrypt plaintext (split b'$' stored)

-- scrypt derives bytes, as many as it is asked for.
pub record Derives (scrypt : Scrypt) : Type 0 where
  pub bytes : (plaintext : Text) (salt : Bytes) (n : ℕ) → IsBytes (scrypt plaintext salt n)
  pub size : (plaintext : Text) (salt : Bytes) (n : ℕ) → length (scrypt plaintext salt n) ≡ n

split-hash_api_key :
    (scrypt : Scrypt) (salt : Bytes) (plaintext : Text)
    → Derives scrypt
    → IsBytes salt
    → split b'$' (hash_api_key scrypt salt plaintext)
      ≡ codes "scrypt" ∷ to_hex salt ∷ to_hex (scrypt plaintext salt key_len) ∷ []
unfolding split hash_api_key
split-hash_api_key scrypt salt plaintext d h =
    let derived = scrypt plaintext salt key_len in
    rw (
      split-append b'$' (to_hex salt) (to_hex derived) (to_hex-Lacks salt h),
      split-one b'$' (to_hex derived) (to_hex-Lacks derived (d.bytes plaintext salt key_len)),
    )

same_bytes_iff :
    (s t : Bytes) (n : ℕ) → length s ≡ n → (((length s =? n) && s == t) ≡ true) ↔ (s ≡ t)
same_bytes_iff s t n size = ground (arith, eq_iff s t)

-- A token is accepted against the hash of a key exactly when scrypt derives the same bytes from both,
-- so the key itself is accepted. scrypt derives as many bytes as it is asked for.
pub verify_api_key-hash_api_key :
    (scrypt : Scrypt) (salt : Bytes) (plaintext token : Text)
    → Derives scrypt
    → IsBytes salt
    → (verify_api_key scrypt token (hash_api_key scrypt salt plaintext) ≡ true)
      ↔ (scrypt token salt key_len ≡ scrypt plaintext salt key_len)
unfolding verify_api_key ◌==◌
verify_api_key-hash_api_key scrypt salt plaintext token d h =
    rw
      (
        split-hash_api_key scrypt salt plaintext d h,
        from_hex-to_hex salt h,
        from_hex-to_hex (scrypt plaintext salt key_len) (d.bytes plaintext salt key_len),
        d.size plaintext salt key_len,
      )
      (same_bytes_iff (scrypt token salt key_len) (scrypt plaintext salt key_len) key_len
        (d.size token salt key_len))
