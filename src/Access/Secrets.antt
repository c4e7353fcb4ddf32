-- ===== src/Access/Secrets.antt =====
-- encryptSecret and decryptSecret of apps/api/src/crypto.util.ts.
use get_mcp.Base.{
  ℕ, ◌≡◌, Option, none, some, List, [], ◌∷◌, ◌++◌, length, ◌=?◌, =?_iff, ◌<◌, ltb, leb, ◌&&◌, Bool,
  false, Bool-cases, inl, inr, ap, sym, ◌∙◌, if◌then◌else◌, Text, codes, ◌==◌, is_empty,
}
use get_mcp.Access.Hex.{
  Bytes, IsBytes, to_hex, from_hex, split, from_hex-to_hex, to_hex-Lacks, split-one, split-append,
}

-- AES-256-GCM: the ciphertext and the tag of bytes under a key and an iv, and the bytes of a ciphertext,
-- or an error where the tag does not fit; with the bytes of a text in UTF-8, and the text of bytes, as Node
-- converts them.
pub record Cipher : Type 0 where
  pub seal : Bytes → Bytes → Bytes → Bytes × Bytes
  pub unseal : Bytes → Bytes → Bytes → Bytes → Option Bytes
  pub encode : Text → Bytes
  pub decode : Bytes → Text

abbrev pub key_len : ℕ
key_len = 32

abbrev pub iv_len : ℕ
iv_len = 12

abbrev loaded : Bytes → Option Bytes
loaded key = if length key =? key_len then some key else none

-- `none` is a throw; the argument is the environment's KEY_ENCRYPTION_KEY.
unfoldable pub load_key : Option Text → Option Bytes
load_key none = none
load_key (some hex) = if is_empty hex then none else loaded (from_hex hex)

abbrev pub sealed_text : Bytes → Bytes × Bytes → Text
sealed_text iv (ct, tag) =
    codes "gcm$" ++ (to_hex iv ++ (codes "$" ++ (to_hex tag ++ (codes "$" ++ to_hex ct))))

abbrev sealed_with : Cipher → Bytes → Text → Option Bytes → Option Text
sealed_with cipher iv plaintext none = none
sealed_with cipher iv plaintext (some key) =
    some (sealed_text iv (cipher.seal key iv (cipher.encode plaintext)))

-- `iv` is what `randomBytes` yields.
unfoldable pub encrypt_secret : Cipher → Option Text → Bytes → Text → Option Text
encrypt_secret cipher env iv plaintext = sealed_with cipher iv plaintext (load_key env)

abbrev decoded : Cipher → Option Bytes → Option Text
decoded cipher none = none
decoded cipher (some bytes) = some (cipher.decode bytes)

abbrev unsealed_parts : Cipher → Bytes → List Text → Option Text
unsealed_parts cipher key (scheme ∷ iv ∷ tag ∷ ct ∷ []) =
    if scheme == codes "gcm"
    then decoded cipher (cipher.unseal key (from_hex iv) (from_hex tag) (from_hex ct))
    else none
unsealed_parts cipher key parts = none

abbrev unsealed_with : Cipher → Text → Option Bytes → Option Text
unsealed_with cipher stored none = none
unsealed_with cipher stored (some key) = unsealed_parts cipher key (split b'$' stored)

unfoldable pub decrypt_secret : Cipher → Option Text → Text → Option Text
decrypt_secret cipher env stored = unsealed_with cipher stored (load_key env)

abbrev is_high : ℕ → Bool
is_high c = leb 0xd800 c && ltb c 0xdc00

abbrev is_low : ℕ → Bool
is_low c = leb 0xdc00 c && ltb c 0xe000

-- No code unit is a surrogate that is not in a pair; the flag says that a low one must come first.
abbrev pub IsWellFormed : Bool → Text → Type 0
IsWellFormed due [] = due ≡ false
IsWellFormed due (c ∷ s) = (c < 0x1_0000) × (is_low c ≡ due) × IsWellFormed (is_high c) s

-- Under a key of 32 bytes and an iv of 12, the cipher opens what it sealed, and its outputs are bytes;
-- a well-formed text is read back from its bytes.
pub record Opens (cipher : Cipher) : Type 0 where
  pub opens :
      (key iv bytes : Bytes)
      → length key ≡ key_len
      → length iv ≡ iv_len
      → IsBytes bytes
      → let (ct, tag) = cipher.seal key iv bytes in cipher.unseal key iv tag ct ≡ some bytes
  pub sealed :
      (key iv bytes : Bytes)
      → length key ≡ key_len
      → length iv ≡ iv_len
      → IsBytes bytes
      → IsBytes (cipher.seal key iv bytes).0 × IsBytes (cipher.seal key iv bytes).1
  pub encodes : (s : Text) → IsBytes (cipher.encode s)
  pub decodes : (s : Text) → IsWellFormed false s → cipher.decode (cipher.encode s) ≡ s

split-sealed_text :
    (iv ct tag : Bytes)
    → IsBytes iv
    → IsBytes ct
    → IsBytes tag
    → split b'$' (sealed_text iv (ct, tag)) ≡ codes "gcm" ∷ to_hex iv ∷ to_hex tag ∷ to_hex ct ∷ []
unfolding split
split-sealed_text iv ct tag hi hc ht = rw (
  split-append b'$' (to_hex iv) (to_hex tag ++ (codes "$" ++ to_hex ct)) (to_hex-Lacks iv hi),
  split-append b'$' (to_hex tag) (to_hex ct) (to_hex-Lacks tag ht),
  split-one b'$' (to_hex ct) (to_hex-Lacks ct hc),
)

unsealed_with-sealed_text :
    (cipher : Cipher) (key iv : Bytes) (plaintext : Text)
    → Opens cipher
    → IsBytes iv
    → length iv ≡ iv_len
    → length key ≡ key_len
    → IsWellFormed false plaintext
    → unsealed_with cipher
        (sealed_text iv (cipher.seal key iv (cipher.encode plaintext)))
        (some key)
      ≡ some plaintext
unfolding ◌==◌
unsealed_with-sealed_text cipher key iv plaintext works hi li lk valid =
    let bytes = cipher.encode plaintext in
    let (ct, tag) = cipher.seal key iv bytes in
    let (hc, ht) = works.sealed key iv bytes lk li (works.encodes plaintext) in
    rw
      (
        split-sealed_text iv ct tag hi hc ht,
        from_hex-to_hex iv hi,
        from_hex-to_hex ct hc,
        from_hex-to_hex tag ht,
        works.opens key iv bytes lk li (works.encodes plaintext),
      )
      (ap some (works.decodes plaintext valid))

loaded-length : (bytes key : Bytes) → loaded bytes ≡ some key → length key ≡ key_len
loaded-length bytes key h = elim (Bool-cases (length bytes =? key_len)) [
  | inl right ↦
      let e = rw right at h in
      let same : bytes ≡ key = cc in
      ap (λ b. length b) (sym same) ∙ (=?_iff (length bytes) key_len).0 right
  | inr wrong ↦ let e = rw wrong at h in cc
]

-- A key that is loaded has 32 bytes.
load_key-length : (env : Option Text) (key : Bytes) → load_key env ≡ some key → length key ≡ key_len
unfolding load_key
load_key-length none key h = cc
load_key-length (some hex) key h = elim (Bool-cases (is_empty hex)) [
  | inl blank ↦ let e = rw blank at h in cc
  | inr given ↦ let e = rw given at h in loaded-length (from_hex hex) key e
]

-- Under one key, decryptSecret returns every text without unpaired surrogates that encryptSecret was
-- given, if the cipher opens what it sealed and UTF-8 is read back. The iv has twelve bytes.
pub decrypt_secret-encrypt_secret :
    (cipher : Cipher) (env : Option Text) (key iv : Bytes) (plaintext : Text)
    → Opens cipher
    → IsBytes iv
    → length iv ≡ iv_len
    → IsWellFormed false plaintext
    → load_key env ≡ some key
    → (stored : Text) × (encrypt_secret cipher env iv plaintext ≡ some stored)
      × (decrypt_secret cipher env stored ≡ some plaintext)
unfolding encrypt_secret decrypt_secret
decrypt_secret-encrypt_secret cipher env key iv plaintext works hi li valid found = (
  sealed_text iv (cipher.seal key iv (cipher.encode plaintext)),
  (rw found),
  rw found (
      unsealed_with-sealed_text cipher key iv plaintext works hi li (load_key-length env key found)
        valid),
)
