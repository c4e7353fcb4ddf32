-- ===== src/Approval/Service.antt =====
-- The operations of `ApprovalService`: apps/api/src/approval/approval.service.ts. Slack messages are not
-- modelled; the replay of an approved request is a parameter.
use get_mcp.Base.{
  ℕ, Bool, true, false, not, ◌&&◌, Option, none, some, List, [], ◌∷◌, take, length, ltb,
  if◌then◌else◌, Text, codes, ◌==◌, ℤ, lookup, insert,
}
use get_mcp.Json.{Json, get, truthy, number, integer}
use get_mcp.Json
use get_mcp.Approval.Pending.{
  approved, denied, expired, is_pending, PendingRequest, Requests, Decision, transition_pending,
}
use get_mcp.Approval.Store.{
  Cause, approved_by, denied_by, approval_expired, replay_blocked, replay_error, Note, Db,
}

-- What `interceptAndExecute` and the reading of its stream come to.
pub data Outcome : Type 0 where
  policy : Text → Outcome
  executed_with : ℤ → Json → Outcome
  threw : ℤ → Text → Outcome

-- The outcome of the replay, and whether the database takes it in the update of the row.
pub record Replay : Type 0 where
  pub outcome : Outcome
  pub is_stored : Bool

-- Who decides, and with what words.
pub record DecisionInput : Type 0 where
  pub pending_id : Text
  pub approver_id : Text
  pub approver_name : Text
  pub justification : Option Text

abbrev pub noted : Note → Db → Db
noted n db = record db { notes = n ∷ db.notes }

-- The entry that follows a transition, if there was one.
unfoldable pub after_transition :
    (PendingRequest → Note) → Db → Option PendingRequest × Requests → Option PendingRequest × Db
after_transition note db (none, requests) = (none, db)
after_transition note db (some r, requests) =
    (some r, record { requests = requests; votes = db.votes; notes = note r ∷ db.notes })

abbrev pub expiry : Decision
expiry = record { next_status = expired; approver_id = none; approver_name = none; reason = none }

unfoldable pub expire : Text → ℕ → Db → Option PendingRequest × Db
unfolding after_transition
expire id now db =
    after_transition
      (λ r. record {
        id = id;
        request = r;
        cause = approval_expired;
        executed = false;
        upstream_status = none;
      })
      db (transition_pending id expiry now db.requests)

unfoldable pub deny : DecisionInput → Option Text → ℕ → Db → Option PendingRequest × Db
unfolding after_transition
deny input reason now db =
    after_transition
      (λ r. record {
        id = input.pending_id;
        request = r;
        cause = denied_by input.approver_name reason;
        executed = false;
        upstream_status = none;
      })
      db
      (transition_pending input.pending_id
        (record {
          next_status = denied;
          approver_id = some (some input.approver_id);
          approver_name = some (some input.approver_name);
          reason = some reason;
        })
        now db.requests)

abbrev pub response_status_of : Outcome → Option ℤ
response_status_of (policy reason) = none
response_status_of (executed_with status body) = some status
response_status_of (threw status message) = some status

abbrev pub response_body_of : Outcome → Json
response_body_of (policy reason) =
    Json.object (Json.field (codes "error") (Json.string reason) Json.end)
response_body_of (executed_with status body) = body
response_body_of (threw status message) =
    Json.object (Json.field (codes "error") (Json.string message) Json.end)

abbrev pub was_executed : Outcome → Bool
was_executed (executed_with status body) = true
was_executed _ = false

abbrev pub cause_of : Text → Outcome → Cause
cause_of name (policy reason) = replay_blocked reason
cause_of name (executed_with status body) = approved_by name
cause_of name (threw status message) = replay_error message

-- The row with what the replay answered.
unfoldable pub answered : Outcome → PendingRequest → PendingRequest
answered out r = record r {
  response_status = response_status_of out;
  response_body = some (response_body_of out);
}

-- What `approve` answers: null, the row, or a throw of the update, before the entry is written.
pub data Approved : Type 0 where
  untouched update_failed : Approved
  finished : PendingRequest → Approved

-- The row and the entry with the outcome, if the update stores it.
unfoldable pub store_outcome :
    Bool → Outcome → DecisionInput → Db → PendingRequest → Requests → Approved × Db
unfolding answered
store_outcome false out input db r requests =
    (update_failed, record { requests = requests; votes = db.votes; notes = db.notes })
store_outcome true out input db r requests = (
  finished (answered out r),
  record {
    requests = insert input.pending_id (answered out r) requests;
    votes = db.votes;
    notes =
        record {
          id = input.pending_id;
          request = r;
          cause = cause_of input.approver_name out;
          executed = was_executed out;
          upstream_status = response_status_of out;
        }
        ∷ db.notes;
  },
)

unfoldable pub finish_approval :
    (PendingRequest → Replay)
    → DecisionInput
    → Db
    → Option PendingRequest × Requests
    → Approved × Db
unfolding store_outcome
finish_approval replay input db (none, requests) = (untouched, db)
finish_approval replay input db (some r, requests) =
    store_outcome (replay r).is_stored (replay r).outcome input db r requests

abbrev pub approval_of : DecisionInput → Decision
approval_of input = record {
  next_status = approved;
  approver_id = some (some input.approver_id);
  approver_name = some (some input.approver_name);
  reason = none;
}

-- The replay takes no time: no other operation comes between the transition and the update.
unfoldable pub approve : (PendingRequest → Replay) → DecisionInput → ℕ → Db → Approved × Db
unfolding finish_approval
approve replay input now db =
    finish_approval replay input db
      (transition_pending input.pending_id (approval_of input) now db.requests)

pub data Found : Type 0 where
  not_found : Found
  found : PendingRequest → Found
  -- `expire` answered null
  gone : Found

abbrev pub found_or_gone : Option PendingRequest → Found
found_or_gone none = gone
found_or_gone (some r) = found r

unfoldable pub get_row : Text → Text → ℕ → Db → Option PendingRequest → Found × Db
unfolding expire
get_row org id now db none = (not_found, db)
get_row org id now db (some r) =
    if not (r.organization_id == org)
    then (not_found, db)
    else if is_pending r.status && ltb r.expires_at now
    then (let (row, after) = expire id now db in (found_or_gone row, after))
    else (found r, db)

unfoldable pub get_by_id : Text → Text → ℕ → Db → Found × Db
unfolding get_row
get_by_id org id now db = get_row org id now db (lookup id db.requests)

-- `where: { status: 'PENDING', expiresAt: { lt: now } }, select: { id: true }`
unfoldable pub stale_ids : ℕ → Requests → List Text
stale_ids now [] = []
stale_ids now ((id, r) ∷ requests) =
    let rest = stale_ids now requests in
    if is_pending r.status && ltb r.expires_at now then id ∷ rest else rest

unfoldable pub expire_all : List Text → ℕ → Db → Db
unfolding expire
expire_all [] now db = db
expire_all (id ∷ ids) now db = expire_all ids now (expire id now db).1

unfoldable pub sweep_expired : ℕ → Db → ℕ × Db
unfolding stale_ids expire_all
sweep_expired now db =
    let stale = take 100 (stale_ids now db.requests) in (length stale, expire_all stale now db)
