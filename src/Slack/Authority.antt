-- ===== src/Slack/Authority.antt =====
-- Who can decide held requests through apps/api/src/slack/slack.controller.ts.
use get_mcp.Base.{
  ℕ, ◌≡◌, ◌⊎◌, refl, inl, inr, Option, none, some, Bool-cases, Text, codes, is_empty, lookup,
}
use get_mcp.Json.{Json}
use get_mcp.Access.Secrets.{decrypt_secret}
use get_mcp.Access.Signature.{verify_slack_signature, IsSigned, verify_slack_signature-IsSigned}
use get_mcp.Approval.Pending.{PendingRequest}
use get_mcp.Approval.Service.{Replay}
use get_mcp.Approval.Store.{Db}
use get_mcp.Approval.Quorum.{Configs}
use get_mcp.Slack.Actions.{
  Payload, missing, not_json, parsed, payload_of, Interaction, SlackOrganization, Outside, member,
  text_of, action_of,
}
use get_mcp.Slack.{
  token_of, with_secret, given_secret, with_organization, Organizations, with_pending, with_id,
  with_payload, with_body, handle,
}
use get_mcp.Slack.Decisions.{when_given-cases, payload_of-parsed, Decides, with_token-Decides}

module _ (outside : Outside) (configs : Configs) (replay : PendingRequest → Replay) (now : ℕ)
    (orgs : Organizations) (now_sec : ℕ) (req : Interaction) where
  -- The request is one of the table, and the interaction is signed, less than five minutes ago or
  -- ahead, with the signing secret of the organisation that the request belongs to.
  pub record IsAuthorized (db after : Db) : Type 0 where
    pub body : Text
    pub id : Text
    pub text : Text
    pub payload : Json
    pub row : PendingRequest
    pub organization : SlackOrganization
    pub encrypted : Text
    pub secret : Text
    pub timestamp : Text
    pub signature : Text
    pub received : req.raw_body ≡ some body
    pub posted : outside.form_payload body ≡ some text
    pub read : outside.parse_json text ≡ some payload
    pub named : text_of (member (action_of payload) (codes "value")) ≡ some id
    pub known : lookup id db.requests ≡ some row
    pub owner : lookup row.organization_id orgs ≡ some organization
    pub configured : organization.slack_signing_secret ≡ some encrypted
    pub decrypted : decrypt_secret outside.cipher outside.key_encryption_key encrypted ≡ some secret
    pub stamped : req.timestamp ≡ some timestamp
    pub signed : req.signature ≡ some signature
    pub is_signed : IsSigned outside.hmac body timestamp signature secret now_sec
    pub decides :
        Decides configs replay now
          (text_of (member (action_of payload) (codes "action_id")))
          id
          payload
          db
          after

  module _ (body : Text) (received : req.raw_body ≡ some body) (payload : Json) (text : Text)
      (posted : outside.form_payload body ≡ some text)
      (read : outside.parse_json text ≡ some payload) (db : Db) where
    with_secret-IsAuthorized :
        (id : Text) (row : PendingRequest) (org : SlackOrganization) (encrypted : Text)
        (o : Option Text)
        → text_of (member (action_of payload) (codes "value")) ≡ some id
        → lookup id db.requests ≡ some row
        → lookup row.organization_id orgs ≡ some org
        → org.slack_signing_secret ≡ some encrypted
        → decrypt_secret outside.cipher outside.key_encryption_key encrypted ≡ o
        → let after =
            (with_secret outside configs replay now now_sec req body id payload row org o db).1 in
          (after ≡ db) ⊎ IsAuthorized db after
    with_secret-IsAuthorized id row org encrypted none named known owner configured decrypted =
        inl refl
    with_secret-IsAuthorized id row org encrypted (some secret) named known owner configured
          decrypted =
        elim (Bool-cases
          (verify_slack_signature outside.hmac body req.timestamp req.signature secret now_sec)) [
            | inr bad ↦ rw bad (inl refl)
            | inl good ↦ rw good (
                let (t, s, stamped, signed, is_signed) =
                  verify_slack_signature-IsSigned outside.hmac body req.timestamp req.signature
                    secret now_sec good in
                elim (with_token-Decides configs replay now id payload row.channel
                  (token_of outside org.slack_bot_token)
                  (text_of (member (action_of payload) (codes "action_id"))) db) [
                    | inl same ↦ inl same
                    | inr decides ↦ inr (record {
                      body = body;
                      id = id;
                      text = text;
                      payload = payload;
                      row = row;
                      organization = org;
                      encrypted = encrypted;
                      secret = secret;
                      timestamp = t;
                      signature = s;
                      received = received;
                      posted = posted;
                      read = read;
                      named = named;
                      known = known;
                      owner = owner;
                      configured = configured;
                      decrypted = decrypted;
                      stamped = stamped;
                      signed = signed;
                      is_signed = is_signed;
                      decides = decides;
                    })
                  ])
          ]

    with_organization-IsAuthorized :
        (id : Text) (row : PendingRequest) (found : Option SlackOrganization)
        → text_of (member (action_of payload) (codes "value")) ≡ some id
        → lookup id db.requests ≡ some row
        → lookup row.organization_id orgs ≡ found
        → let after =
            (with_organization outside configs replay now now_sec req body id payload row
              (given_secret found)
              db).1 in
          (after ≡ db) ⊎ IsAuthorized db after
    with_organization-IsAuthorized id row none named known owner = inl refl
    with_organization-IsAuthorized id row (some org) named known owner =
        elim (when_given-cases org org.slack_signing_secret) [
          | inl not_given ↦ rw not_given (inl refl)
          | inr (encrypted, configured, gives) ↦
              rw gives
                (with_secret-IsAuthorized id row org encrypted _ named known owner configured refl)
        ]

    with_pending-IsAuthorized :
        (id : Text) (found : Option PendingRequest)
        → text_of (member (action_of payload) (codes "value")) ≡ some id
        → lookup id db.requests ≡ found
        → let after =
            (with_pending outside configs replay orgs now now_sec req body id payload found db).1 in
          (after ≡ db) ⊎ IsAuthorized db after
    with_pending-IsAuthorized id none named known = inl refl
    with_pending-IsAuthorized id (some row) named known =
        with_organization-IsAuthorized id row (lookup row.organization_id orgs) named known refl

    with_id-IsAuthorized :
        (value : Option Text)
        → text_of (member (action_of payload) (codes "value")) ≡ value
        → let after =
            (with_id outside configs replay orgs now now_sec req body payload value db).1 in
          (after ≡ db) ⊎ IsAuthorized db after
    with_id-IsAuthorized none named = inl refl
    with_id-IsAuthorized (some id) named = elim (Bool-cases (is_empty id)) [
      | inl blank ↦ rw blank (inl refl)
      | inr given ↦ rw given (with_pending-IsAuthorized id (lookup id db.requests) named refl)
    ]

  with_payload-IsAuthorized :
      (body : Text) (p : Payload) (db : Db)
      → req.raw_body ≡ some body
      → payload_of outside body ≡ p
      → let after = (with_payload outside configs replay orgs now now_sec req body p db).1 in
        (after ≡ db) ⊎ IsAuthorized db after
  with_payload-IsAuthorized body missing db received read = inl refl
  with_payload-IsAuthorized body not_json db received read = inl refl
  with_payload-IsAuthorized body (parsed payload) db received read =
      let (text, posted, parses) = payload_of-parsed outside body payload read in
      with_id-IsAuthorized body received payload text posted parses db
        (text_of (member (action_of payload) (codes "value"))) refl

  with_body-IsAuthorized :
      (o : Option Text) (db : Db)
      → req.raw_body ≡ o
      → let after = (with_body outside configs replay orgs now now_sec req o db).1 in
        (after ≡ db) ⊎ IsAuthorized db after
  with_body-IsAuthorized none db received = inl refl
  with_body-IsAuthorized (some body) db received = elim (Bool-cases (is_empty body)) [
    | inl blank ↦ rw blank (inl refl)
    | inr full ↦ rw full (with_payload-IsAuthorized body (payload_of outside body) db received refl)
  ]

  -- An interaction from Slack changes nothing, or it is the vote or the denial that its payload names,
  -- on a held request of the table; and then it carries a valid signature, under the signing secret of
  -- the organisation that this request belongs to, for its body and a time within five minutes of now.
  pub handle-IsAuthorized :
      (db : Db)
      → let after = (handle outside configs replay orgs now now_sec req db).1 in
        (after ≡ db) ⊎ IsAuthorized db after
  unfolding handle
  handle-IsAuthorized db = with_body-IsAuthorized req.raw_body db refl
