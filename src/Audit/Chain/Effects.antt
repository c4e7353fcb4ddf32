-- ===== src/Audit/Chain/Effects.antt =====
-- What `record` has done by its answer: apps/api/src/audit/audit.service.ts.
use get_mcp.Base.{
  ℕ, ◌+◌, ◌≤◌, ◌≡◌, ◌≢◌, refl, ◌∙◌, inl, inr, true, Option, none, some, List, [], ◌∷◌, length,
  arith, ltb, Bool-cases, Option-cases, Text, ◌==◌, eq_refl, lookup, lookup-insert,
}
use get_mcp.Audit.Payload.{AuditLog}
use get_mcp.Audit.Store.{Head, Db, is_taken}
use get_mcp.Audit.Record.{
  AuditInput, Attempt, Outcome, recorded, not_found, failed, unhashable, waiting, draft, sealed,
  commit, append_row, transaction, advance, is_retriable, record_loop, record_entry, max_retries,
}
use get_mcp.Audit.Chain.{row_hash}

-- What `record` has done by its answer: one row stored that the answer describes, or nothing.
abbrev pub Effect : Db → Outcome × Db → Type 0
Effect db (recorded id seq hash, after) =
    (row : AuditLog) × (after.audit_logs ≡ row ∷ db.audit_logs)
    × (row.id ≡ id)
    × (row.seq ≡ seq)
    × (row.hash ≡ hash)
    × (lookup row.organization_id after.organizations
        ≡ some (record { last_audit_hash = hash; last_audit_seq = seq }))
Effect db (_, after) = after ≡ db

lookup-advance :
    (org hash : Text) (seq : ℕ) (orgs : List (Text × Head))
    → lookup org (advance org hash seq orgs)
      ≡ some (record { last_audit_hash = hash; last_audit_seq = seq })
unfolding advance
lookup-advance org hash seq orgs =
    let own : ((org == org) ≡ true) = eq_refl org in lookup-insert org org _ orgs ∙ rw own

commit-Effect :
    (refusal : Option Text) (row : AuditLog) (db : Db) → Effect db (commit refusal row db)
unfolding commit advance
commit-Effect (some code) row db = refl
commit-Effect none row db = elim (Bool-cases (is_taken row.organization_id row.seq db.audit_logs)) [
  | inl taken ↦ rw taken refl
  | inr free ↦ rw free (
    row,
    refl,
    refl,
    refl,
    refl,
    lookup-advance row.organization_id row.hash row.seq db.organizations,
  )
]

transaction-Effect :
    (sha256 : Text → Text) (input : AuditInput) (a : Attempt) (head : Option Head) (db : Db)
    → Effect db (transaction sha256 input a head db)
unfolding transaction append_row
transaction-Effect sha256 input a none db = refl
transaction-Effect sha256 input a (some head) db =
    let row : AuditLog =
      draft input (head.last_audit_seq + 1) head.last_audit_hash a.new_id a.now in
    elim (Option-cases (row_hash sha256 row)) [
      | inl throws ↦ rw throws refl
      | inr (hash, is) ↦ rw is (commit-Effect a.refusal (sealed row hash) db)
    ]

Effect-retriable :
    (db : Db) (o : Outcome) (after : Db) → is_retriable o ≡ true → Effect db (o, after) → after ≡ db
unfolding is_retriable
Effect-retriable db (failed code) after r e = e
Effect-retriable db not_found after r e = e
Effect-retriable db unhashable after r e = e
Effect-retriable db waiting after r e = e
Effect-retriable db (recorded id seq hash) after r e = cc

-- Where a retriable outcome is tried again, what is known of the other outcomes is known of the last.
record_loop-last :
    (P : Outcome × Db → Type 0) (sha256 : Text → Text) (input : AuditInput) (n : ℕ)
    (attempts : List Attempt) (db : Db)
    → n ≤ 5
    → 6 ≤ n + length attempts
    → ((a : Attempt)
        → P (transaction sha256 input a (lookup input.organization_id db.organizations) db))
    → P (record_loop sha256 input n attempts db)
unfolding record_loop
record_loop-last P sha256 input n [] db low enough h = ground arith
record_loop-last P sha256 input n (a ∷ attempts) db low enough h =
    let out : Outcome × Db =
      transaction sha256 input a (lookup input.organization_id db.organizations) db in
    elim (Bool-cases (is_retriable out.0)) [
      | inr final ↦ rw final (h a)
      | inl again ↦
          let same : (out.1 ≡ db) =
            Effect-retriable db out.0 out.1 again (transaction-Effect sha256 input a _ db) in
          elim (Bool-cases (ltb n max_retries)) [
            | inr spent ↦ rw (again, spent) (h a)
            | inl more ↦
                rw (again, more, same)
                  (record_loop-last P sha256 input (n + 1) attempts db (ground arith) (ground arith)
                    h)
          ]
    ]

commit-answers :
    (refusal : Option Text) (row : AuditLog) (db : Db) → (commit refusal row db).0 ≢ waiting
unfolding commit
commit-answers (some code) row db = λ e. cc
commit-answers none row db =
    elim (Bool-cases (is_taken row.organization_id row.seq db.audit_logs)) [
      | inl taken ↦ rw taken (λ e. cc)
      | inr free ↦ rw free (λ e. cc)
    ]

transaction-answers :
    (sha256 : Text → Text) (input : AuditInput) (a : Attempt) (head : Option Head) (db : Db)
    → (transaction sha256 input a head db).0 ≢ waiting
unfolding transaction append_row
transaction-answers sha256 input a none db = λ e. cc
transaction-answers sha256 input a (some head) db =
    let row : AuditLog =
      draft input (head.last_audit_seq + 1) head.last_audit_hash a.new_id a.now in
    elim (Option-cases (row_hash sha256 row)) [
      | inl throws ↦ rw throws (λ e. cc)
      | inr (hash, is) ↦ rw is (commit-answers a.refusal (sealed row hash) db)
    ]

-- Six answers of the database are enough for `record` to answer, and by then it has stored one row,
-- which the answer describes and the organisation's head follows, or changed nothing.
pub record_entry-settles :
    (sha256 : Text → Text) (input : AuditInput) (attempts : List Attempt) (db : Db)
    → 6 ≤ length attempts
    → ((record_entry sha256 input attempts db).0 ≢ waiting)
      × Effect db (record_entry sha256 input attempts db)
unfolding record_entry
record_entry-settles sha256 input attempts db h =
    record_loop-last (λ out. (out.0 ≢ waiting) × Effect db out) sha256 input 0 attempts db
      (omega arith) (omega arith)
      (λ a. (transaction-answers sha256 input a _ db, transaction-Effect sha256 input a _ db))
