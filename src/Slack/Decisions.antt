-- ===== src/Slack/Decisions.antt =====
-- The decision that an interaction of apps/api/src/slack/slack.controller.ts carries, once it is authorised.
use get_mcp.Base.{
  ℕ, ◌≡◌, ◌⊎◌, refl, inl, inr, Option, none, some, true, false, [], ap, ◌∙◌, same_text,
  Option-cases, Bool-cases, Text, codes, ◌==◌, is_empty,
}
use get_mcp.Json.{Json}
use get_mcp.Approval.Pending.{PendingRequest}
use get_mcp.Approval.Service.{Replay, deny}
use get_mcp.Approval.Store.{Db}
use get_mcp.Approval.Quorum.{Configs, approve_with_quorum}
use get_mcp.Slack.Actions.{
  parsed, payload_of, SlackOrganization, Outside, or_text, justification_of, input_of, act,
}
use get_mcp.Slack.{with_token, when_given}

-- A signing secret is configured, or not.
pub when_given-cases :
    (org : SlackOrganization) (o : Option Text)
    → (when_given org o ≡ none)
      ⊎ ((secret : Text) × (o ≡ some secret) × (when_given org o ≡ some (org, secret)))
when_given-cases org none = inl refl
when_given-cases org (some secret) = elim (Bool-cases (is_empty secret)) [
  | inl blank ↦ rw blank (inl refl)
  | inr given ↦ rw given (inr (secret, refl, refl))
]

given_text :
    (o : Option Text) (t : Text) → is_empty t ≡ false → (or_text o [] == t) ≡ true → o ≡ some t
given_text none t full h = let same : [] ≡ t = same_text h in cc
given_text (some s) t full h = ap some (same_text h)

-- What a parsed payload is read of.
pub payload_of-parsed :
    (outside : Outside) (body : Text) (payload : Json)
    → payload_of outside body ≡ parsed payload
    → (text : Text) × (outside.form_payload body ≡ some text)
      × (outside.parse_json text ≡ some payload)
unfolding payload_of
payload_of-parsed outside body payload h = elim (Option-cases (outside.form_payload body)) [
  | inl none_given ↦ let e = rw none_given at h in cc
  | inr (text, posted) ↦ elim (Bool-cases (is_empty text)) [
    | inl blank ↦ let e = rw (posted, blank) at h in cc
    | inr full ↦ elim (Option-cases (outside.parse_json text)) [
      | inl throws ↦ let e = rw (posted, full, throws) at h in cc
      | inr (other, reads) ↦
          let e = rw (posted, full, reads) at h in
          let same : other ≡ payload = cc in (text, posted, reads ∙ ap some same)
    ]
  ]
]

module _ (configs : Configs) (replay : PendingRequest → Replay) (now : ℕ) where
  -- The action is a vote for the request and leads to the state after it, or it is its denial; by the
  -- user and with the justification that the payload names.
  abbrev pub Decides : Option Text → Text → Json → Db → Db → Type 0
  Decides action_id id payload db after =
      ((action_id ≡ some (codes "getmcp_approve"))
        × (after
            ≡ (approve_with_quorum configs replay (input_of id payload (justification_of payload))
                now db).1))
      ⊎ ((action_id ≡ some (codes "getmcp_deny"))
          × (after ≡ (deny (input_of id payload none) (justification_of payload) now db).1))

  act-Decides :
      (id : Text) (payload : Json) (channel : Text) (token action_id : Option Text) (db : Db)
      → let after = (act configs replay now id payload channel token action_id db).1 in
        (after ≡ db) ⊎ Decides action_id id payload db after
  unfolding act
  act-Decides id payload channel token action_id db =
      elim (Bool-cases (or_text action_id (codes "") == codes "getmcp_approve")) [
        | inl approves ↦ rw approves (inr (inl (given_text action_id _ refl approves, refl)))
        | inr other ↦ elim (Bool-cases (or_text action_id (codes "") == codes "getmcp_deny")) [
          | inl denies ↦ rw (other, denies) (inr (inr (given_text action_id _ refl denies, refl)))
          | inr unknown ↦ rw (other, unknown) (inl refl)
        ]
      ]

  pub with_token-Decides :
      (id : Text) (payload : Json) (channel : Text) (token : Option (Option Text))
      (action_id : Option Text) (db : Db)
      → let after = (with_token configs replay now id payload channel token action_id db).1 in
        (after ≡ db) ⊎ Decides action_id id payload db after
  with_token-Decides id payload channel none action_id db = inl refl
  with_token-Decides id payload channel (some token) action_id db =
      act-Decides id payload channel token action_id db
