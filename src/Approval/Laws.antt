-- ===== src/Approval/Laws.antt =====
-- What getById of apps/api/src/approval/approval.service.ts returns.
use get_mcp.Base.{
  ℕ, ◌≤◌, ◌≡◌, sym, ◌∙◌, ap, inl, inr, true, false, ◌&&◌, Option, none, some, arith, ltb,
  Bool-cases, Text, ◌==◌, lookup,
}
use get_mcp.Approval.Pending.{is_pending, PendingRequest, decide}
use get_mcp.Approval.Service.{
  after_transition, expire, expiry, found, found_or_gone, get_row, get_by_id,
}
use get_mcp.Approval.Store.{Db}
use get_mcp.Approval.Moves.{transition-cases}

row-injective : {q r : PendingRequest} → some q ≡ some r → q ≡ r
row-injective e = cc

found-injective : {q r : PendingRequest} → found q ≡ found r → q ≡ r
found-injective e = cc

found-row :
    (o : Option PendingRequest) (r : PendingRequest) → found_or_gone o ≡ found r → o ≡ some r
found-row none r e = cc
found-row (some q) r e = ap some (found-injective e)

not_late :
    {q r : PendingRequest} {now : ℕ}
    → q ≡ r
    → (is_pending q.status && ltb q.expires_at now) ≡ false
    → is_pending r.status ≡ true
    → now ≤ r.expires_at
not_late {q} {r} {now} e h waits =
    let timely : ((is_pending r.status && ltb r.expires_at now) ≡ false) =
      ap (λ (x : PendingRequest). is_pending x.status && ltb x.expires_at now) (sym e) ∙ h in
    let waiting : (ltb r.expires_at now ≡ false) = rw waits at timely in ground arith

expire-ends :
    (id : Text) (now : ℕ) (db : Db) (r : PendingRequest)
    → (expire id now db).0 ≡ some r
    → is_pending r.status ≡ false
unfolding expire after_transition decide
expire-ends id now db r h = elim (transition-cases id expiry now db.requests) [
  | inl same ↦ let e = rw same at h in cc
  | inr (q, is, waits, t) ↦
      let e = rw t at h in
      ap is_pending (ap (λ (x : PendingRequest). x.status) (sym (row-injective e)))
]

get_row-fresh :
    (org id : Text) (now : ℕ) (db : Db) (row : Option PendingRequest) (r : PendingRequest)
    → (get_row org id now db row).0 ≡ found r
    → is_pending r.status ≡ true
    → now ≤ r.expires_at
unfolding get_row
get_row-fresh org id now db none r h waits = cc
get_row-fresh org id now db (some q) r h waits = elim (Bool-cases (q.organization_id == org)) [
  | inr other ↦ let e = rw other at h in cc
  | inl own ↦ elim (Bool-cases (is_pending q.status && ltb q.expires_at now)) [
    | inl late ↦
        let e = rw (own, late) at h in
        let ended : is_pending r.status ≡ false =
          expire-ends id now db r (found-row (expire id now db).0 r e) in
        cc
    | inr timely ↦ let e = rw (own, timely) at h in not_late (found-injective e) timely waits
  ]
]

-- A request that `getById` returns as pending has not passed the end of its lifetime.
pub get_by_id-fresh :
    (org id : Text) (now : ℕ) (db : Db) (r : PendingRequest)
    → (get_by_id org id now db).0 ≡ found r
    → is_pending r.status ≡ true
    → now ≤ r.expires_at
unfolding get_by_id
get_by_id-fresh org id now db r h waits =
    get_row-fresh org id now db (lookup id db.requests) r h waits
