-- ===== src/Approval/Votes.antt =====
-- The votes on held requests: `approveWithQuorum` of apps/api/src/approval/approval.service.ts.
use get_mcp.Base.{
  ℕ, ◌≤◌, ◌≡◌, refl, sym, subst, Bool, true, false, ◌&&◌, Option, none, some, List, [], ◌∷◌, arith,
  ltb, inl, inr, Bool-cases, Text, codes, lookup,
}
use get_mcp.Json.{get, truthy}
use get_mcp.Approval.Pending.{PendingRequest, Requests}
use get_mcp.Approval.Service.{
  Outcome, Replay, Approved, untouched, finished, update_failed, DecisionInput, store_outcome,
  finish_approval, approve,
}
use get_mcp.Approval.Store.{Vote, Db}
use get_mcp.Approval.Quorum.{
  Attempt, decided, unstored, attempt_of, Configs, config_for, quorum_required, is_blank, has_voted,
  count_votes, vote_of, voted, settle, vote_on, cast, approve_with_quorum,
}

-- No user has voted twice on one request.
abbrev pub HasSingleVotes : List Vote → Type 0
HasSingleVotes [] = Unit
HasSingleVotes (v ∷ votes) =
    (has_voted v.pending_request_id v.approver_slack_user_id votes ≡ false) × HasSingleVotes votes

-- If the request was decided, even if the outcome was not stored, at least `need` votes were cast on it.
abbrev pub IsQuorate : ℕ → Text → Attempt × Db → Type 0
IsQuorate need id (decided row, after) = need ≤ count_votes id after.votes
IsQuorate need id (unstored, after) = need ≤ count_votes id after.votes
IsQuorate need id (_, after) = Unit

abbrev Sound : ℕ → Text → Attempt × Db → Type 0
Sound need id out = HasSingleVotes out.1.votes × IsQuorate need id out

store_outcome-votes :
    (stored : Bool) (out : Outcome) (input : DecisionInput) (db : Db) (r : PendingRequest)
    (m : Requests)
    → (store_outcome stored out input db r m).1.votes ≡ db.votes
unfolding store_outcome
store_outcome-votes true out input db r m = refl
store_outcome-votes false out input db r m = refl

attempt_of-IsQuorate :
    (need : ℕ) (id : Text) (row : Approved) (after : Db)
    → need ≤ count_votes id after.votes
    → IsQuorate need id (attempt_of row, after)
attempt_of-IsQuorate need id untouched after h = h
attempt_of-IsQuorate need id (finished r) after h = h
attempt_of-IsQuorate need id update_failed after h = h

finish_approval-votes :
    (replay : PendingRequest → Replay) (input : DecisionInput) (db : Db)
    (t : Option PendingRequest × Requests)
    → (finish_approval replay input db t).1.votes ≡ db.votes
unfolding finish_approval
finish_approval-votes replay input db (none, m) = refl
finish_approval-votes replay input db (some r, m) =
    store_outcome-votes (replay r).is_stored (replay r).outcome input db r m

approve-votes :
    (replay : PendingRequest → Replay) (input : DecisionInput) (now : ℕ) (db : Db)
    → (approve replay input now db).1.votes ≡ db.votes
unfolding approve
approve-votes replay input now db = finish_approval-votes replay input db _

settle-Sound :
    (replay : PendingRequest → Replay) (input : DecisionInput) (need now : ℕ) (db : Db)
    → HasSingleVotes db.votes
    → Sound need input.pending_id
        (settle replay input need (count_votes input.pending_id db.votes) now db)
unfolding settle
settle-Sound replay input need now db h =
    elim (Bool-cases (ltb (count_votes input.pending_id db.votes) need)) [
      | inl few ↦ rw few (h, tt)
      | inr enough ↦ rw enough (
          let same = sym (approve-votes replay input now db) in
          (
            subst HasSingleVotes same h,
            attempt_of-IsQuorate need input.pending_id _ _
                (subst (λ vs. need ≤ count_votes input.pending_id vs) same (ground arith)),
          ))
    ]

vote_on-Sound :
    (replay : PendingRequest → Replay) (input : DecisionInput) (need now : ℕ) (db : Db)
    (row : Option PendingRequest)
    → has_voted input.pending_id input.approver_id db.votes ≡ false
    → HasSingleVotes db.votes
    → Sound need input.pending_id (vote_on replay input need now db row)
unfolding vote_on vote_of
vote_on-Sound replay input need now db none first h = (h, tt)
vote_on-Sound replay input need now db (some r) first h =
    settle-Sound replay input need now (voted (vote_of input) db) (first, h)

-- The number of votes that the rule of a request asks for.
abbrev pub need_of : Configs → Text → Db → ℕ
need_of configs id db =
    quorum_required (get (config_for configs (lookup id db.requests)) (codes "quorumRequired"))

-- If no user has voted twice on one request, that is so after an approval attempt; and if the attempt
-- decides the request, at least as many votes were cast on it as its rule asks for, so as many users
-- have approved it.
pub approve_with_quorum-IsQuorate :
    (configs : Configs) (replay : PendingRequest → Replay) (input : DecisionInput) (now : ℕ)
    (db : Db)
    → HasSingleVotes db.votes
    → HasSingleVotes (approve_with_quorum configs replay input now db).1.votes
      × IsQuorate
          (need_of configs input.pending_id db)
          input.pending_id
          (approve_with_quorum configs replay input now db)
unfolding approve_with_quorum cast
approve_with_quorum-IsQuorate configs replay input now db h =
    let config = config_for configs (lookup input.pending_id db.requests) in
    elim (Bool-cases
      (truthy (get config (codes "requireJustification")) && is_blank input.justification)) [
        | inl unjustified ↦ rw unjustified (h, tt)
        | inr allowed ↦
            rw allowed (elim (Bool-cases (has_voted input.pending_id input.approver_id db.votes)) [
              | inl again ↦ rw again (h, tt)
              | inr first ↦ rw first (
                  vote_on-Sound replay input (need_of configs input.pending_id db) now db
                    (lookup input.pending_id db.requests) first h)
            ])
      ]
