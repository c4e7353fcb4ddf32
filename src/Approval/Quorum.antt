-- ===== src/Approval/Quorum.antt =====
-- `approveWithQuorum` of apps/api/src/approval/approval.service.ts: votes, justifications, and the approval
-- that the last vote of a quorum starts. The rules' configurations are a parameter, as the table holds
-- them.
use get_mcp.Base.{
  ℕ, suc, Bool, true, false, ◌&&◌, Option, none, some, List, [], ◌∷◌, ltb, if◌then◌else◌, Text,
  codes, is_empty, trim, ◌==◌, pos, lookup,
}
use get_mcp.Json.{Json, get, truthy, number, integer}
use get_mcp.Approval.Pending.{PendingRequest}
use get_mcp.Approval.Service.{
  Replay, Approved, untouched, finished, update_failed, DecisionInput, approve,
}
use get_mcp.Approval.Store.{Vote, Db}

pub data Attempt : Type 0 where
  rejected_missing_justification : Attempt
  already_voted : ℕ → ℕ → Attempt
  pending_quorum : ℕ → ℕ → Attempt
  decided : Option PendingRequest → Attempt
  -- the vote's foreign key is refused
  failed : Attempt
  -- `approve` threw, after the decision
  unstored : Attempt

-- `rule?.actionConfig`, by the organisation and the rule of the request.
abbrev pub Configs : Type 0
Configs = Text → Text → Option Json

unfoldable pub config_for : Configs → Option PendingRequest → Json
config_for configs none = Json.null
config_for configs (some r) = elim (configs r.organization_id r.rule_id) [
  | none ↦ Json.null
  | some config ↦ config
]

unfoldable pub quorum_required : Option Json → ℕ
quorum_required (some (number (integer (pos (suc n))))) = suc n
quorum_required _ = 1

-- `!input.justification?.trim()`
unfoldable pub is_blank : Option Text → Bool
is_blank none = true
is_blank (some s) = is_empty (trim s)

abbrev pub is_vote_of : Text → Text → Vote → Bool
is_vote_of id user v = v.pending_request_id == id && v.approver_slack_user_id == user

unfoldable pub has_voted : Text → Text → List Vote → Bool
has_voted id user [] = false
has_voted id user (v ∷ votes) =
    let rest = has_voted id user votes in if is_vote_of id user v then true else rest

unfoldable pub count_votes : Text → List Vote → ℕ
count_votes id [] = 0
count_votes id (v ∷ votes) =
    let rest = count_votes id votes in if v.pending_request_id == id then suc rest else rest

unfoldable pub vote_of : DecisionInput → Vote
vote_of input = record {
  pending_request_id = input.pending_id;
  approver_slack_user_id = input.approver_id;
  justification = if is_blank input.justification then none else trimmed input.justification;
}
  where
    trimmed : Option Text → Option Text
    trimmed none = none
    trimmed (some s) = some (trim s)

abbrev pub voted : Vote → Db → Db
voted v db = record db { votes = v ∷ db.votes }

abbrev pub attempt_of : Approved → Attempt
attempt_of untouched = decided none
attempt_of (finished r) = decided (some r)
attempt_of update_failed = unstored

-- What follows the vote, with the votes counted.
unfoldable pub settle : (PendingRequest → Replay) → DecisionInput → ℕ → ℕ → ℕ → Db → Attempt × Db
settle replay input need have now db =
    if ltb have need
    then (pending_quorum have need, db)
    else (let (row, after) = approve replay input now db in (attempt_of row, after))

-- The vote is stored if there is such a request.
unfoldable pub vote_on :
    (PendingRequest → Replay) → DecisionInput → ℕ → ℕ → Db → Option PendingRequest → Attempt × Db
unfolding settle count_votes vote_of
vote_on replay input need now db none = (failed, db)
vote_on replay input need now db (some r) =
    settle replay input need (count_votes input.pending_id (vote_of input ∷ db.votes)) now
      (voted (vote_of input) db)

-- A user votes on a request once.
unfoldable pub cast : (PendingRequest → Replay) → DecisionInput → ℕ → ℕ → Db → Attempt × Db
unfolding vote_on has_voted count_votes
cast replay input need now db =
    if has_voted input.pending_id input.approver_id db.votes
    then (already_voted (count_votes input.pending_id db.votes) need, db)
    else vote_on replay input need now db (lookup input.pending_id db.requests)

unfoldable pub approve_with_quorum :
    Configs → (PendingRequest → Replay) → DecisionInput → ℕ → Db → Attempt × Db
unfolding cast quorum_required is_blank config_for
approve_with_quorum configs replay input now db =
    let config = config_for configs (lookup input.pending_id db.requests) in
    if truthy (get config (codes "requireJustification")) && is_blank input.justification
    then (rejected_missing_justification, db)
    else cast replay input (quorum_required (get config (codes "quorumRequired"))) now db
