-- ===== src/Audit/Chain/Laws.antt =====
-- What `record` and `verifyChain` promise together: apps/api/src/audit/audit.service.ts.
use get_mcp.Base.{
  ℕ, suc, ◌+◌, ◌≡◌, refl, sym, ◌∙◌, ap, subst, some, List, [], ◌∷◌, ◌++◌, length, arith, Text,
  codes, lookup,
}
use get_mcp.Audit.Payload.{AuditLog}
use get_mcp.Audit.Store.{Head, Db, rows_of}
use get_mcp.Audit.Record.{AuditInput, Attempt, record_entry}
use get_mcp.Audit.Verify.{
  VerifyResult, valid, Walk, Progress, stopped, walking, walk, start, result_of, verify_chain,
}
use get_mcp.Audit.Chain.{
  IsChain, end_hash, passed, passed_all, walk-IsChain, walk-walking, walk-stopped, Diagnoses,
}
use get_mcp.Audit.Chain.Paging.{HasIds, verify_chain-walk}
use get_mcp.Audit.Chain.Extend.{IsSealed, record_loop-IsSealed}

passed_all-result :
    (rows : List AuditLog) (w : Walk)
    → w.last_hash ≡ w.prev_hash
    → result_of (walking (passed_all rows w))
      ≡ valid (w.count + length rows) (end_hash w.prev_hash rows)
unfolding result_of
passed_all-result [] w e =
    let count : (w.count ≡ w.count + 0) = omega arith in
    ap (λ h. valid w.count h) e ∙ ap (λ n. valid n w.prev_hash) count
passed_all-result (r ∷ rows) w e =
    let count : (w.count + 1 + length rows ≡ w.count + suc (length rows)) = omega arith in
    passed_all-result rows (passed r w) refl ∙ ap (λ n. valid n (end_hash r.hash rows)) count

-- An organisation whose rows are a chain and have distinct ids verifies, with the number of its rows and
-- the hash at their end.
pub verify_chain-IsChain :
    (sha256 : Text → Text) (org : Text) (db : Db)
    → HasIds (rows_of org db.audit_logs)
    → IsChain sha256 (codes "genesis") 1 (rows_of org db.audit_logs)
    → verify_chain sha256 org db
      ≡ valid
          (length (rows_of org db.audit_logs))
          (end_hash (codes "genesis") (rows_of org db.audit_logs))
unfolding result_of
verify_chain-IsChain sha256 org db ids h =
    verify_chain-walk sha256 org db ids
    ∙ (ap result_of (walk-IsChain sha256 (rows_of org db.audit_logs) start h)
        ∙ (passed_all-result (rows_of org db.audit_logs) start refl
            ∙ ap (λ n. valid n (end_hash (codes "genesis") (rows_of org db.audit_logs)))
                (omega arith)))

-- What `verifyChain` says of the rows: they are a chain, and the result counts them and holds the hash
-- at their end; or the first row that breaks the chain is found, and the result describes how.
abbrev pub Reports : (Text → Text) → List AuditLog → VerifyResult → Type 0
Reports sha256 rows (valid count hash) =
    IsChain sha256 (codes "genesis") 1 rows
    × (count ≡ length rows)
    × (hash ≡ end_hash (codes "genesis") rows)
Reports sha256 rows r =
    (good : List AuditLog) × (bad : AuditLog) × (rest : List AuditLog) × (rows ≡ good ++ bad ∷ rest)
    × IsChain sha256 (codes "genesis") 1 good
    × Diagnoses sha256 (end_hash (codes "genesis") good) (1 + length good) bad r

valid-count : {a b : ℕ} {h k : Text} → valid a h ≡ valid b k → a ≡ b
valid-count e = cc

valid-hash : {a b : ℕ} {h k : Text} → valid a h ≡ valid b k → h ≡ k
valid-hash e = cc

result_of-Reports :
    (sha256 : Text → Text) (rows : List AuditLog) (p : Progress)
    → walk sha256 rows start ≡ p
    → Reports sha256 rows (result_of p)
unfolding result_of
result_of-Reports sha256 rows (walking v) e =
    let (chain, end) = walk-walking sha256 rows start v e in
    let same : (valid v.count v.last_hash
        ≡ valid (0 + length rows) (end_hash (codes "genesis") rows)) =
      ap (λ u. result_of (walking u)) end ∙ passed_all-result rows start refl in
    (chain, omega (arith, valid-count same), valid-hash same)
result_of-Reports sha256 rows (stopped (valid c h)) e =
    let (good, bad, rest, split, chain, why) = walk-stopped sha256 rows start (valid c h) e in
    elim why [ ]
result_of-Reports sha256 rows (stopped r) e = walk-stopped sha256 rows start r e

-- Where the ids of the rows are distinct, and whatever else they hold, `verifyChain` reports rightly
-- whether they are a chain, and where they are not, which row is the first that breaks it and why.
pub verify_chain-Reports :
    (sha256 : Text → Text) (org : Text) (db : Db)
    → HasIds (rows_of org db.audit_logs)
    → Reports sha256 (rows_of org db.audit_logs) (verify_chain sha256 org db)
verify_chain-Reports sha256 org db ids =
    subst (Reports sha256 (rows_of org db.audit_logs)) (sym (verify_chain-walk sha256 org db ids))
      (result_of-Reports sha256 (rows_of org db.audit_logs) _ refl)

-- If every organisation's rows are a chain that its head ends, they are so after `record` as well,
-- however often the transaction is refused and whatever the call's answer is.
pub record_entry-IsSealed :
    (sha256 : Text → Text) (input : AuditInput) (attempts : List Attempt) (db : Db)
    → ((o : Text) → IsSealed sha256 db o)
    → (o : Text) → IsSealed sha256 (record_entry sha256 input attempts db).1 o
unfolding record_entry
record_entry-IsSealed sha256 input attempts db h = record_loop-IsSealed sha256 input 0 attempts db h

-- After `record`, `verifyChain` finds the chain of every organisation valid and ending where its head
-- says, if every organisation's rows were a chain that its head ended, and ids are distinct.
pub verify_chain-record_entry :
    (sha256 : Text → Text) (input : AuditInput) (attempts : List Attempt) (db : Db) (org : Text)
    (head : Head)
    → ((o : Text) → IsSealed sha256 db o)
    → HasIds (rows_of org (record_entry sha256 input attempts db).1.audit_logs)
    → lookup org (record_entry sha256 input attempts db).1.organizations ≡ some head
    → verify_chain sha256 org (record_entry sha256 input attempts db).1
      ≡ valid head.last_audit_seq head.last_audit_hash
verify_chain-record_entry sha256 input attempts db org head h ids at =
    let (chain, hash, seq) = record_entry-IsSealed sha256 input attempts db h org head at in
    verify_chain-IsChain sha256 org (record_entry sha256 input attempts db).1 ids chain
    ∙ (ap
          (λ n. valid n (
            end_hash (codes "genesis")
              (rows_of org (record_entry sha256 input attempts db).1.audit_logs)))
          (sym seq)
        ∙ ap (λ k. valid head.last_audit_seq k) (sym hash))
