-- ===== src/Approval/Moves.antt =====
-- What each operation of apps/api/src/approval/approval.service.ts does to the requests and the entries.
use get_mcp.Base.{
  ℕ, ◌≡◌, refl, ◌∙◌, ap, ◌⊎◌, inl, inr, Bool, true, false, ◌&&◌, Option, none, some, ◌∷◌, ltb,
  if◌then◌else◌, Bool-cases, Option-cases, Text, codes, ◌==◌, lookup, insert, lookup-insert,
}
use get_mcp.Json.{get, truthy}
use get_mcp.Approval.Pending.{
  approved, is_pending, PendingRequest, Requests, Decision, decide, transition_row,
  transition_pending,
}
use get_mcp.Approval.Service.{
  Outcome, Replay, store_outcome, cause_of, was_executed, response_status_of, DecisionInput,
  after_transition, expire, deny, answered, finish_approval, approval_of, approve, get_row,
  get_by_id,
}
use get_mcp.Approval.Store.{Note, Db}
use get_mcp.Approval.Quorum.{
  Attempt, Configs, config_for, is_blank, has_voted, settle, vote_of, voted, vote_on, cast,
  approve_with_quorum,
}

-- A request is approved and the database refuses the update with what its replay comes to.
abbrev pub IsUnstored : (PendingRequest → Replay) → PendingRequest → Type 0
IsUnstored replay r = (r.status ≡ approved) × ((replay r).is_stored ≡ false)

-- The pending request `id` is decided, and nothing else; an entry that names it is added, unless the
-- database refuses the outcome of its replay.
abbrev pub Decides : (PendingRequest → Replay) → Text → Db → Db → Type 0
Decides replay id db after =
    (r : PendingRequest) × (r' : PendingRequest) × (n : Note) × (lookup id db.requests ≡ some r)
    × (is_pending r.status ≡ true)
    × (is_pending r'.status ≡ false)
    × ((k : Text) → lookup k after.requests ≡ (if id == k then some r' else lookup k db.requests))
    × (n.id ≡ id)
    × ((after.notes ≡ n ∷ db.notes) ⊎ ((after.notes ≡ db.notes) × IsUnstored replay r'))

-- Requests and entries are as they were, or one request is decided.
abbrev pub Moves : (PendingRequest → Replay) → Text → Db → Db → Type 0
Moves replay id db after =
    ((after.requests ≡ db.requests) × (after.notes ≡ db.notes)) ⊎ Decides replay id db after

pub transition-cases :
    (id : Text) (d : Decision) (now : ℕ) (m : Requests)
    → (transition_pending id d now m ≡ (none, m))
      ⊎ ((r : PendingRequest) × (lookup id m ≡ some r)
          × (is_pending r.status ≡ true)
          × (transition_pending id d now m ≡ (some (decide d now r), insert id (decide d now r) m)))
unfolding transition_pending transition_row
transition-cases id d now m = elim (Option-cases (lookup id m)) [
  | inl missing ↦ inl (rw missing refl)
  | inr (r, is) ↦ elim (Bool-cases (is_pending r.status)) [
    | inl waits ↦ inr (r, is, waits, ap (transition_row id d now m) is ∙ rw waits refl)
    | inr closed ↦ inl (ap (transition_row id d now m) is ∙ rw closed refl)
  ]
]

after_transition-Moves :
    (replay : PendingRequest → Replay) (note : PendingRequest → Note) (id : Text) (d : Decision)
    (now : ℕ) (db : Db)
    → is_pending d.next_status ≡ false
    → ((r : PendingRequest) → (note r).id ≡ id)
    → Moves replay id db (after_transition note db (transition_pending id d now db.requests)).1
unfolding after_transition decide
after_transition-Moves replay note id d now db final names =
    elim (transition-cases id d now db.requests) [
      | inl same ↦ rw same (inl (refl, refl))
      | inr (r, is, waits, e) ↦ rw e (
          inr (
            r,
            decide d now r,
            note (decide d now r),
            is,
            waits,
            final,
            (λ k. lookup-insert id k (decide d now r) db.requests),
            names (decide d now r),
            inl refl,
          ))
    ]

pub expire-Moves :
    (replay : PendingRequest → Replay) (id : Text) (now : ℕ) (db : Db)
    → Moves replay id db (expire id now db).1
unfolding expire
expire-Moves replay id now db = after_transition-Moves replay _ id _ now db refl (λ r. refl)

pub deny-Moves :
    (replay : PendingRequest → Replay) (input : DecisionInput) (reason : Option Text) (now : ℕ)
    (db : Db)
    → Moves replay input.pending_id db (deny input reason now db).1
unfolding deny
deny-Moves replay input reason now db =
    after_transition-Moves replay _ input.pending_id _ now db refl (λ r. refl)

insert-insert :
    (id k : Text) (r r' : PendingRequest) (m : Requests)
    → lookup k (insert id r (insert id r' m)) ≡ (if id == k then some r else lookup k m)
insert-insert id k r r' m = elim (Bool-cases (id == k)) [
  | inl same ↦ lookup-insert id k r (insert id r' m) ∙ rw same refl
  | inr other ↦
      lookup-insert id k r (insert id r' m) ∙ (rw other (lookup-insert id k r' m ∙ rw other refl))
]

store_outcome-Moves :
    (replay : PendingRequest → Replay) (stored : Bool) (out : Outcome) (input : DecisionInput)
    (db : Db) (r r' : PendingRequest)
    → lookup input.pending_id db.requests ≡ some r
    → is_pending r.status ≡ true
    → r'.status ≡ approved
    → (replay r').is_stored ≡ stored
    → Moves replay input.pending_id db
        (store_outcome stored out input db r' (insert input.pending_id r' db.requests)).1
unfolding store_outcome answered
store_outcome-Moves replay true out input db r r' is waits done stored = inr (
  r,
  answered out r',
  record {
    id = input.pending_id;
    request = r';
    cause = cause_of input.approver_name out;
    executed = was_executed out;
    upstream_status = response_status_of out;
  },
  is,
  waits,
  (ap is_pending done),
  (λ k. insert-insert input.pending_id k _ _ db.requests),
  refl,
  inl refl,
)
store_outcome-Moves replay false out input db r r' is waits done stored = inr (
  r,
  r',
  record {
    id = input.pending_id;
    request = r';
    cause = cause_of input.approver_name out;
    executed = was_executed out;
    upstream_status = response_status_of out;
  },
  is,
  waits,
  (ap is_pending done),
  (λ k. lookup-insert input.pending_id k r' db.requests),
  refl,
  inr (refl, (done, stored)),
)

pub approve-Moves :
    (replay : PendingRequest → Replay) (input : DecisionInput) (now : ℕ) (db : Db)
    → Moves replay input.pending_id db (approve replay input now db).1
unfolding approve finish_approval decide
approve-Moves replay input now db =
    elim (transition-cases input.pending_id (approval_of input) now db.requests) [
      | inl same ↦ rw same (inl (refl, refl))
      | inr (r, is, waits, e) ↦ rw e (
          store_outcome-Moves replay _ _ input db r (decide (approval_of input) now r) is waits refl
            refl)
    ]

get_row-Moves :
    (replay : PendingRequest → Replay) (org id : Text) (now : ℕ) (db : Db)
    (row : Option PendingRequest)
    → Moves replay id db (get_row org id now db row).1
unfolding get_row
get_row-Moves replay org id now db none = inl (refl, refl)
get_row-Moves replay org id now db (some r) = elim (Bool-cases (r.organization_id == org)) [
  | inr other ↦ rw other (inl (refl, refl))
  | inl own ↦ rw own (elim (Bool-cases (is_pending r.status && ltb r.expires_at now)) [
    | inl late ↦ rw late (expire-Moves replay id now db)
    | inr waits ↦ rw waits (inl (refl, refl))
  ])
]

pub get_by_id-Moves :
    (replay : PendingRequest → Replay) (org id : Text) (now : ℕ) (db : Db)
    → Moves replay id db (get_by_id org id now db).1
unfolding get_by_id
get_by_id-Moves replay org id now db = get_row-Moves replay org id now db (lookup id db.requests)

either-Moves :
    (replay : PendingRequest → Replay) (id : Text) (db : Db) (b : Bool) (x y : Attempt × Db)
    → Moves replay id db x.1
    → Moves replay id db y.1
    → Moves replay id db (if b then x else y).1
either-Moves replay id db true x y p q = p
either-Moves replay id db false x y p q = q

vote_on-Moves :
    (replay : PendingRequest → Replay) (input : DecisionInput) (need now : ℕ) (db : Db)
    (row : Option PendingRequest)
    → Moves replay input.pending_id db (vote_on replay input need now db row).1
unfolding vote_on settle
vote_on-Moves replay input need now db none = inl (refl, refl)
vote_on-Moves replay input need now db (some r) =
    either-Moves replay input.pending_id db _ _ _ (inl (refl, refl))
      (approve-Moves replay input now (voted (vote_of input) db))

cast-Moves :
    (replay : PendingRequest → Replay) (input : DecisionInput) (need now : ℕ) (db : Db)
    → Moves replay input.pending_id db (cast replay input need now db).1
unfolding cast
cast-Moves replay input need now db =
    elim (Bool-cases (has_voted input.pending_id input.approver_id db.votes)) [
      | inl again ↦ rw again (inl (refl, refl))
      | inr first ↦
          rw first (vote_on-Moves replay input need now db (lookup input.pending_id db.requests))
    ]

pub approve_with_quorum-Moves :
    (configs : Configs) (replay : PendingRequest → Replay) (input : DecisionInput) (now : ℕ)
    (db : Db)
    → Moves replay input.pending_id db (approve_with_quorum configs replay input now db).1
unfolding approve_with_quorum
approve_with_quorum-Moves configs replay input now db =
    let config = config_for configs (lookup input.pending_id db.requests) in
    elim (Bool-cases
      (truthy (get config (codes "requireJustification")) && is_blank input.justification)) [
        | inl unjustified ↦ rw unjustified (inl (refl, refl))
        | inr allowed ↦ rw allowed (cast-Moves replay input _ now db)
      ]
