-- ===== src/Access/Signature.antt =====
-- verifySlackSignature of apps/api/src/slack/slack.signature.ts. Two texts have the same bytes in UTF-8
-- exactly when they are the same, where one of them is ASCII.
use get_mcp.Base.{
  ℕ, zero, suc, ◌+◌, ◌-◌, ◌*◌, ◌≤◌, ◌≡◌, ◌↔◌, refl, arith, inl, inr, Bool, true, false, ◌&&◌, ◌||◌,
  Option, none, some, [], ◌∷◌, ◌++◌, ltb, leb, ◌=?◌, if◌then◌else◌, Text, codes, ◌==◌, eq_refl,
  same_text, Bool-cases, is_empty, is_space, ℤ, pos, negsuc,
}

abbrev pub tolerance_sec : ℕ
tolerance_sec = 60 * 5

-- HMAC-SHA256 in hexadecimal, of a key and a text.
abbrev pub Hmac : Type 0
Hmac = Text → Text → Text

unfoldable pub skip_spaces : Text → Text
skip_spaces [] = []
skip_spaces (c ∷ s) = if is_space c then skip_spaces s else c ∷ s

abbrev is_digit : ℕ → Bool
is_digit c = leb b'0' c && leb c b'9'

-- The number that the leading digits write, after the digits that gave `n`.
unfoldable pub read_digits : ℕ → Text → ℕ
read_digits n [] = n
read_digits n (c ∷ s) =
    let rest = read_digits (n * 10 + (c - b'0')) s in if is_digit c then rest else n

abbrev leading_number : Text → Option ℕ
leading_number [] = none
leading_number (c ∷ s) = if is_digit c then some (read_digits 0 (c ∷ s)) else none

abbrev negated : Option ℕ → Option ℤ
negated none = none
negated (some zero) = some (pos 0)
negated (some (suc n)) = some (negsuc n)

abbrev as_positive : Option ℕ → Option ℤ
as_positive none = none
as_positive (some n) = some (pos n)

abbrev signed_number : Text → Option ℤ
signed_number [] = none
signed_number (c ∷ s) =
    if c =? b'-'
    then negated (leading_number s)
    else if c =? b'+'
    then as_positive (leading_number s)
    else as_positive (leading_number (c ∷ s))

-- `parseInt(s, 10)`; `none` is NaN.
unfoldable pub parse_int : Text → Option ℤ
parse_int s = signed_number (skip_spaces s)

-- `Math.abs(nowSec - ts)`
unfoldable pub distance : ℕ → ℤ → ℕ
distance now (pos t) = (now - t) + (t - now)
distance now (negsuc t) = now + suc t

abbrev signed_base : Hmac → Text → Text → Text → Text
signed_base hmac secret timestamp raw_body =
    codes "v0=" ++ hmac secret (codes "v0:" ++ (timestamp ++ (codes ":" ++ raw_body)))

abbrev checked_at : Hmac → Text → Text → Text → Text → ℕ → Option ℤ → Bool
checked_at hmac raw_body timestamp signature secret now none = false
checked_at hmac raw_body timestamp signature secret now (some ts) =
    if ltb tolerance_sec (distance now ts)
    then false
    else signature == signed_base hmac secret timestamp raw_body

abbrev checked : Hmac → Text → Text → Text → Text → ℕ → Bool
checked hmac raw_body timestamp signature secret now =
    if is_empty timestamp || is_empty signature || is_empty secret
    then false
    else checked_at hmac raw_body timestamp signature secret now (parse_int timestamp)

unfoldable pub verify_slack_signature : Hmac → Text → Option Text → Option Text → Text → ℕ → Bool
verify_slack_signature hmac raw_body (some timestamp) (some signature) secret now =
    checked hmac raw_body timestamp signature secret now
verify_slack_signature hmac raw_body _ _ secret now = false

-- The timestamp reads as a time at most five minutes from now, and the signature is the one that the
-- secret gives for the timestamp and the body as they were sent.
abbrev pub IsSigned : Hmac → Text → Text → Text → Text → ℕ → Type 0
IsSigned hmac raw_body timestamp signature secret now =
    ((t : ℤ) × (parse_int timestamp ≡ some t) × (distance now t ≤ 300))
    × (signature
        ≡ codes "v0=" ++ hmac secret (codes "v0:" ++ (timestamp ++ (codes ":" ++ raw_body))))

checked_at_iff :
    (hmac : Hmac) (raw_body timestamp signature secret : Text) (now : ℕ) (o : Option ℤ)
    → (checked_at hmac raw_body timestamp signature secret now o ≡ true) ↔ (
        ((t : ℤ) × (o ≡ some t) × (distance now t ≤ 300))
        × (signature ≡ signed_base hmac secret timestamp raw_body))
checked_at_iff hmac raw_body timestamp signature secret now none = (λ h. cc, λ (near, e). cc)
checked_at_iff hmac raw_body timestamp signature secret now (some t) =
    elim (Bool-cases (ltb tolerance_sec (distance now t))) [
      | inl far ↦ rw far ((λ h. cc), λ (near, e). absurd (far_or_near t near.0 near.1 far near.2))
      | inr close ↦ rw close (
        (λ h. ((t, refl, ground arith), same_text h)),
        λ (near, e). rw e (eq_refl (signed_base hmac secret timestamp raw_body)),
      )
    ]
  where
    far_or_near :
        (t t' : ℤ)
        → some t ≡ some t'
        → ltb tolerance_sec (distance now t) ≡ true
        → distance now t' ≤ 300
        → ⊥
    far_or_near t t' e far near =
        let same : t ≡ t' = cc in let close : distance now t ≤ 300 = rw same near in ground arith

has_first : (timestamp : Text) (t : ℤ) → parse_int timestamp ≡ some t → is_empty timestamp ≡ false
unfolding parse_int skip_spaces
has_first [] t h = cc
has_first (c ∷ s) t h = refl

-- A request is accepted exactly when it has both headers, a secret is configured, its timestamp reads
-- as a time within five minutes of now, and its signature is "v0=" and what HMAC-SHA256 gives under
-- the secret for the timestamp and the body as they were sent.
pub verify_slack_signature_iff :
    (hmac : Hmac) (raw_body timestamp signature secret : Text) (now : ℕ)
    → is_empty secret ≡ false
    → (verify_slack_signature hmac raw_body (some timestamp) (some signature) secret now ≡ true)
      ↔ IsSigned hmac raw_body timestamp signature secret now
unfolding verify_slack_signature
verify_slack_signature_iff hmac raw_body timestamp signature secret now configured = (
  (λ h.
      let (given, valid) =
        else_true (is_empty timestamp || is_empty signature || is_empty secret) _ h in
      (checked_at_iff hmac raw_body timestamp signature secret now (parse_int timestamp)).0 valid),
  λ (near, e).
      let valid =
        (checked_at_iff hmac raw_body timestamp signature secret now (parse_int timestamp)).1
          (near, e) in
      let first = has_first timestamp near.0 near.1 in
      let second : is_empty signature ≡ false = rw e in rw (first, second, configured) valid,
)
  where
    else_true : (b c : Bool) → (if b then false else c) ≡ true → (b ≡ false) × (c ≡ true)
    else_true true c h = cc
    else_true false c h = (refl, h)

-- The same of headers that may be missing and of any secret.
pub verify_slack_signature-IsSigned :
    (hmac : Hmac) (raw_body : Text) (timestamp signature : Option Text) (secret : Text) (now : ℕ)
    → verify_slack_signature hmac raw_body timestamp signature secret now ≡ true
    → (t : Text) × (s : Text) × (timestamp ≡ some t)
      × (signature ≡ some s)
      × IsSigned hmac raw_body t s secret now
unfolding verify_slack_signature
verify_slack_signature-IsSigned hmac raw_body none signature secret now h = cc
verify_slack_signature-IsSigned hmac raw_body (some t) none secret now h = cc
verify_slack_signature-IsSigned hmac raw_body (some t) (some s) secret now h = (
  t,
  s,
  refl,
  refl,
  (checked_at_iff hmac raw_body t s secret now (parse_int t)).0
      (else_checked (is_empty t || is_empty s || is_empty secret) _ h),
)
  where
    else_checked : (b c : Bool) → (if b then false else c) ≡ true → c ≡ true
    else_checked true c h = cc
    else_checked false c h = h
