-- ===== src/Approval/History.antt =====
-- Any sequence of the operations of apps/api/src/approval/approval.service.ts: decisions are final.
use get_mcp.Base.{
  none, ℕ, ◌≡◌, refl, sym, ◌∙◌, ap, inl, inr, true, false, Option, some, List, [], ◌∷◌,
  if◌then◌else◌, Bool-cases, Text, ◌==◌, same_text, lookup-insert, lookup, take,
}
use get_mcp.Approval.Pending.{is_pending, PendingRequest}
use get_mcp.Approval.Service.{
  Replay, DecisionInput, expire, deny, approve, get_by_id, stale_ids, expire_all, sweep_expired,
}
use get_mcp.Approval.Store.{CreatePendingInput, new_request, store_request, create_pending, Db}
use get_mcp.Approval.Quorum.{Configs, approve_with_quorum}
use get_mcp.Approval.Moves.{
  Moves, expire-Moves, deny-Moves, approve-Moves, get_by_id-Moves, approve_with_quorum-Moves,
}

-- A call of the service.
pub data Op : Type 0 where
  expire_op : Text → ℕ → Op
  deny_op : DecisionInput → Option Text → ℕ → Op
  approve_op : DecisionInput → ℕ → Op
  vote_op : DecisionInput → ℕ → Op
  get_op : Text → Text → ℕ → Op
  sweep_op : ℕ → Op
  create_op : CreatePendingInput → Text → ℕ → Op

unfoldable pub apply_op : Configs → (PendingRequest → Replay) → Op → Db → Db
apply_op configs replay (expire_op id now) db = (expire id now db).1
apply_op configs replay (deny_op input reason now) db = (deny input reason now db).1
apply_op configs replay (approve_op input now) db = (approve replay input now db).1
apply_op configs replay (vote_op input now) db = (approve_with_quorum configs replay input now db).1
apply_op configs replay (get_op org id now) db = (get_by_id org id now db).1
apply_op configs replay (sweep_op now) db = (sweep_expired now db).1
apply_op configs replay (create_op input id now) db = (create_pending input id now db).1

unfoldable pub apply_all : Configs → (PendingRequest → Replay) → List Op → Db → Db
unfolding apply_op
apply_all configs replay [] db = db
apply_all configs replay (op ∷ ops) db =
    apply_all configs replay ops (apply_op configs replay op db)

-- A pending request is stored under a new id.
abbrev pub Creates : Text → Db → Db → Type 0
Creates id a b =
    (r : PendingRequest) × (lookup id a.requests ≡ none)
    × (is_pending r.status ≡ true)
    × ((k : Text) → lookup k b.requests ≡ (if id == k then some r else lookup k a.requests))
    × (b.notes ≡ a.notes)

-- Several moves and creations.
pub data Leads (replay : PendingRequest → Replay) : Db → Db → Type 0 where
  stay : (db : Db) → Leads replay db db
  then_on : (id : Text) (a b c : Db) → Moves replay id a b → Leads replay b c → Leads replay a c
  create_on : (id : Text) (a b c : Db) → Creates id a b → Leads replay b c → Leads replay a c

Leads-one :
    (replay : PendingRequest → Replay) (id : Text) (a b : Db)
    → Moves replay id a b
    → Leads replay a b
Leads-one replay id a b m = then_on id a b b m (stay b)

Leads-trans :
    (replay : PendingRequest → Replay) (a b c : Db)
    → Leads replay a b
    → Leads replay b c
    → Leads replay a c
Leads-trans replay a b c (stay _) k = k
Leads-trans replay a b c (then_on id _ b' _ m h) k =
    then_on id a b' c m (Leads-trans replay b' b c h k)
Leads-trans replay a b c (create_on id _ b' _ m h) k =
    create_on id a b' c m (Leads-trans replay b' b c h k)

store_request-Leads :
    (replay : PendingRequest → Replay) (input : CreatePendingInput) (id : Text) (now : ℕ) (db : Db)
    (row : Option PendingRequest)
    → lookup id db.requests ≡ row
    → Leads replay db (store_request input id now db row).1
unfolding store_request new_request
store_request-Leads replay input id now db (some r) is = stay db
store_request-Leads replay input id now db none is =
    create_on id db _ _
      (
        new_request input now,
        is,
        refl,
        (λ k. lookup-insert id k (new_request input now) db.requests),
        refl,
      )
      (stay _)

expire_all-Leads :
    (replay : PendingRequest → Replay) (ids : List Text) (now : ℕ) (db : Db)
    → Leads replay db (expire_all ids now db)
unfolding expire_all
expire_all-Leads replay [] now db = stay db
expire_all-Leads replay (id ∷ ids) now db =
    then_on id db (expire id now db).1 _ (expire-Moves replay id now db)
      (expire_all-Leads replay ids now (expire id now db).1)

apply_op-Leads :
    (configs : Configs) (replay : PendingRequest → Replay) (op : Op) (db : Db)
    → Leads replay db (apply_op configs replay op db)
unfolding apply_op sweep_expired create_pending
apply_op-Leads configs replay (expire_op id now) db =
    Leads-one replay id db _ (expire-Moves replay id now db)
apply_op-Leads configs replay (deny_op input reason now) db =
    Leads-one replay input.pending_id db _ (deny-Moves replay input reason now db)
apply_op-Leads configs replay (approve_op input now) db =
    Leads-one replay input.pending_id db _ (approve-Moves replay input now db)
apply_op-Leads configs replay (vote_op input now) db =
    Leads-one replay input.pending_id db _ (approve_with_quorum-Moves configs replay input now db)
apply_op-Leads configs replay (get_op org id now) db =
    Leads-one replay id db _ (get_by_id-Moves replay org id now db)
apply_op-Leads configs replay (sweep_op now) db =
    expire_all-Leads replay (take 100 (stale_ids now db.requests)) now db
apply_op-Leads configs replay (create_op input id now) db =
    store_request-Leads replay input id now db (lookup id db.requests) refl

pub apply_all-Leads :
    (configs : Configs) (replay : PendingRequest → Replay) (ops : List Op) (db : Db)
    → Leads replay db (apply_all configs replay ops db)
unfolding apply_all
apply_all-Leads configs replay [] db = stay db
apply_all-Leads configs replay (op ∷ ops) db =
    Leads-trans replay db (apply_op configs replay op db) _ (apply_op-Leads configs replay op db)
      (apply_all-Leads configs replay ops (apply_op configs replay op db))

some-injective : {q r : PendingRequest} → some q ≡ some r → q ≡ r
some-injective e = cc

Moves-keeps :
    (replay : PendingRequest → Replay) (id k : Text) (a b : Db) (r : PendingRequest)
    → Moves replay id a b
    → lookup k a.requests ≡ some r
    → is_pending r.status ≡ false
    → lookup k b.requests ≡ some r
Moves-keeps replay id k a b r (inl (same, notes)) is done = ap (lookup k) same ∙ is
Moves-keeps replay id k a b r (inr (q, q', n, at, waits, final, looks, names, notes)) is done =
    elim (Bool-cases (id == k)) [
      | inr other ↦ looks k ∙ (rw other is)
      | inl same ↦
          let one : q ≡ r =
            some-injective (sym at ∙ (ap (λ x. lookup x a.requests) (same_text same) ∙ is)) in
          let wrong : true ≡ false =
            sym waits ∙ (ap (λ (x : PendingRequest). is_pending x.status) one ∙ done) in
          cc
    ]

Creates-keeps :
    (id k : Text) (a b : Db) (r : PendingRequest)
    → Creates id a b
    → lookup k a.requests ≡ some r
    → lookup k b.requests ≡ some r
Creates-keeps id k a b r (q, free, waits, looks, notes) is = elim (Bool-cases (id == k)) [
  | inr other ↦ looks k ∙ (rw other is)
  | inl same ↦
      let wrong : none ≡ some r =
        sym free ∙ (ap (λ x. lookup x a.requests) (same_text same) ∙ is) in
      cc
]

Leads-keeps :
    (replay : PendingRequest → Replay) (k : Text) (a b : Db) (r : PendingRequest)
    → Leads replay a b
    → lookup k a.requests ≡ some r
    → is_pending r.status ≡ false
    → lookup k b.requests ≡ some r
Leads-keeps replay k a b r (stay _) is done = is
Leads-keeps replay k a b r (then_on id _ b' _ m h) is done =
    Leads-keeps replay k b' b r h (Moves-keeps replay id k a b' r m is done) done
Leads-keeps replay k a b r (create_on id _ b' _ m h) is done =
    Leads-keeps replay k b' b r h (Creates-keeps id k a b' r m is) done

-- Whatever operations follow, a request that is approved, denied or expired stays as it is: its status,
-- who decided it and when, and the response of its replay.
pub apply_all-keeps :
    (configs : Configs) (replay : PendingRequest → Replay) (ops : List Op) (db : Db) (id : Text)
    (r : PendingRequest)
    → lookup id db.requests ≡ some r
    → is_pending r.status ≡ false
    → lookup id (apply_all configs replay ops db).requests ≡ some r
apply_all-keeps configs replay ops db id r is done =
    Leads-keeps replay id db _ r (apply_all-Leads configs replay ops db) is done
