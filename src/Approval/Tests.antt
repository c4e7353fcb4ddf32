-- ===== src/Approval/Tests.antt =====
-- Held requests on concrete inputs: apps/api/src/approval/approval.service.ts.
use get_mcp.Base.{
  ◌≤◌, ◌≡◌, refl, true, none, some, [], ◌∷◌, codes, ◌==◌, pos, lookup, Bool-cases, inl, inr,
}
use get_mcp.Json
use get_mcp.Json.{Json, get, truthy}
use get_mcp.Approval.Pending.{pending, approved, PendingRequest}
use get_mcp.Approval.Service.{Replay, executed_with, DecisionInput, get_by_id, get_row}
use get_mcp.Approval.Store.{Db}
use get_mcp.Approval.Quorum.{
  Configs, pending_quorum, already_voted, approve_with_quorum, cast, vote_on, settle, vote_of,
  has_voted, count_votes, quorum_required, is_blank, config_for,
}
use get_mcp.Approval.History.{deny_op, vote_op, sweep_op, apply_all, apply_all-keeps}
use get_mcp.Approval.Entries.{IsNoted, count_notes, apply_all-IsNoted}
use get_mcp.Approval.Laws.{get_by_id-fresh}
use get_mcp.Approval.Votes.{HasSingleVotes, IsQuorate, need_of, approve_with_quorum-IsQuorate}

abbrev request : PendingRequest
request = record {
  organization_id = codes "o";
  agent_id = codes "a1";
  api_key_id = codes "k1";
  method = codes "POST";
  path = codes "/pay";
  query = none;
  body = none;
  source = codes "external_mcp";
  tenant_id = none;
  reasoning = none;
  rule_id = codes "r1";
  rule_name = codes "hold";
  channel = codes "#ops";
  expires_at = 100;
  status = pending;
  decided_at = none;
  approver_slack_user_id = none;
  approver_slack_user_name = none;
  decision_reason = none;
  response_status = none;
  response_body = none;
}

abbrev settled : PendingRequest
settled = record request { status = approved; decided_at = some 7 }

abbrev held : Db
held = record { requests = (codes "p", request) ∷ []; votes = []; notes = [] }

abbrev closed : Db
closed = record { requests = (codes "p", settled) ∷ []; votes = []; notes = [] }

-- No rule is found any more, so one vote is enough.
abbrev no_configs : Configs
no_configs org rule = none

abbrev replay : PendingRequest → Replay
replay r = record { outcome = executed_with (pos 200) Json.null; is_stored = true }

abbrev alice : DecisionInput
alice = record {
  pending_id = codes "p";
  approver_id = codes "u1";
  approver_name = codes "alice";
  justification = none;
}

apply_all-keeps_example :
    lookup
      (codes "p")
      (apply_all no_configs replay
        (deny_op alice none 8 ∷ (vote_op alice 9 ∷ (sweep_op 200 ∷ [])))
        closed).requests
    ≡ some settled
unfolding lookup ◌==◌
apply_all-keeps_example =
    apply_all-keeps no_configs replay
      (deny_op alice none 8 ∷ (vote_op alice 9 ∷ (sweep_op 200 ∷ []))) closed (codes "p") settled
      refl refl

held-IsNoted : IsNoted replay held
unfolding lookup count_notes
held-IsNoted k = elim (Bool-cases (codes "p" == k)) [
  | inl own ↦ rw own (inl refl)
  | inr other ↦ rw other (inl refl)
]

apply_all-IsNoted_example :
    IsNoted replay
      (apply_all no_configs replay (vote_op alice 9 ∷ (deny_op alice none 10 ∷ [])) held)
apply_all-IsNoted_example =
    apply_all-IsNoted no_configs replay (vote_op alice 9 ∷ (deny_op alice none 10 ∷ [])) held
      held-IsNoted

approve_with_quorum-IsQuorate_example :
    HasSingleVotes (approve_with_quorum no_configs replay alice 9 held).1.votes
    × IsQuorate
        (need_of no_configs (codes "p") held)
        (codes "p")
        (approve_with_quorum no_configs replay alice 9 held)
approve_with_quorum-IsQuorate_example =
    approve_with_quorum-IsQuorate no_configs replay alice 9 held tt

get_by_id-fresh_example : 100 ≤ request.expires_at
unfolding get_by_id get_row lookup ◌==◌
get_by_id-fresh_example = get_by_id-fresh (codes "o") (codes "p") 100 held request refl refl

-- A second vote of the same user changes nothing.
abbrev two_needed : Configs
two_needed org rule = some (
    Json.object (Json.field (codes "quorumRequired") (Json.number (Json.integer (pos 2))) Json.end))

vote_cases :
    ((approve_with_quorum two_needed replay alice 9 held).0 ≡ pending_quorum 1 2)
    × ((approve_with_quorum two_needed replay alice 10
          (approve_with_quorum two_needed replay alice 9 held).1).0
        ≡ already_voted 1 2)
unfolding approve_with_quorum cast vote_on settle vote_of has_voted count_votes quorum_required
    is_blank config_for get truthy lookup ◌==◌
vote_cases = (refl, refl)
