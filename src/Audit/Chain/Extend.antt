-- ===== src/Audit/Chain/Extend.antt =====
-- `record` keeps the chain of every organisation whole: apps/api/src/audit/audit.service.ts.
use get_mcp.Base.{
  ℕ, ◌+◌, ◌≡◌, ◌≢◌, refl, sym, ◌∙◌, ap, subst, inl, inr, Bool, true, false, ◌&&◌, Option, none,
  some, List, [], ◌∷◌, ◌++◌, length, length-append, arith, ltb, if◌then◌else◌, Bool-cases,
  Option-cases, Text, codes, ◌==◌, eq_iff, eq_refl, same_text, different_text, lookup,
  lookup-insert,
}
use get_mcp.Audit.Payload.{AuditLog, row_to_hashable}
use get_mcp.Audit.Store.{Head, Db, insert_row, rows_of, is_taken}
use get_mcp.Audit.Record.{
  AuditInput, Attempt, Outcome, draft, sealed, advance, commit, append_row, transaction,
  is_retriable, record_loop, max_retries,
}
use get_mcp.Audit.Chain.{row_hash, IsChain, end_hash}

-- An organisation's rows are a chain, and its head holds the end of it.
abbrev pub IsSealed : (Text → Text) → Db → Text → Type 0
IsSealed sha256 db org =
    (head : Head)
    → lookup org db.organizations ≡ some head
    → IsChain sha256 (codes "genesis") 1 (rows_of org db.audit_logs)
      × (head.last_audit_hash ≡ end_hash (codes "genesis") (rows_of org db.audit_logs))
      × (head.last_audit_seq ≡ length (rows_of org db.audit_logs))

-- The new row's own number stands above those of a chain.
insert_row-end :
    (sha256 : Text → Text) (prev : Text) (n : ℕ) (row : AuditLog) (rows : List AuditLog)
    → IsChain sha256 prev n rows
    → row.seq ≡ n + length rows
    → insert_row row rows ≡ rows ++ row ∷ []
unfolding insert_row
insert_row-end sha256 prev n row [] h e = refl
insert_row-end sha256 prev n row (r ∷ rows) (s, p, c, h) e =
    let later : (ltb row.seq r.seq ≡ false) = ground arith in
    rw later (ap (λ xs. r ∷ xs) (insert_row-end sha256 r.hash (n + 1) row rows h (omega arith)))

IsChain-snoc :
    (sha256 : Text → Text) (prev : Text) (n : ℕ) (row : AuditLog) (rows : List AuditLog)
    → IsChain sha256 prev n rows
    → row.seq ≡ n + length rows
    → row.prev_hash ≡ end_hash prev rows
    → row_hash sha256 row ≡ some row.hash
    → IsChain sha256 prev n (rows ++ row ∷ [])
IsChain-snoc sha256 prev n row [] h s p c = (omega arith, p, c, tt)
IsChain-snoc sha256 prev n row (r ∷ rows) (s', p', c', h) s p c =
    (s', p', c', IsChain-snoc sha256 r.hash (n + 1) row rows h (omega arith) p c)

end_hash-snoc :
    (prev : Text) (row : AuditLog) (rows : List AuditLog)
    → end_hash prev (rows ++ row ∷ []) ≡ row.hash
end_hash-snoc prev row [] = refl
end_hash-snoc prev row (r ∷ rows) = end_hash-snoc r.hash row rows

-- What a committed row holds: the next number and the hash at the end.
abbrev Fits : (Text → Text) → Head → AuditLog → Type 0
Fits sha256 head row =
    (row.seq ≡ head.last_audit_seq + 1)
    × (row.prev_hash ≡ head.last_audit_hash)
    × (row_hash sha256 row ≡ some row.hash)

rows_of-own :
    (row : AuditLog) (rows : List AuditLog)
    → rows_of row.organization_id (row ∷ rows) ≡ insert_row row (rows_of row.organization_id rows)
unfolding rows_of
rows_of-own row rows = simp (eq_refl row.organization_id)

rows_of-other :
    (org : Text) (row : AuditLog) (rows : List AuditLog)
    → row.organization_id ≢ org
    → rows_of org (row ∷ rows) ≡ rows_of org rows
unfolding rows_of
rows_of-other org row rows h = ground (arith, eq_iff row.organization_id org)

if-true : {b : Bool} (x y : Option Head) → b ≡ true → (if b then x else y) ≡ x
if-true x y e = rw e

if-false : {b : Bool} (x y : Option Head) → b ≡ false → (if b then x else y) ≡ y
if-false x y e = rw e

not_same : {s t : Text} → s ≢ t → (s == t) ≡ false
not_same {s} {t} h = ground (arith, eq_iff s t)

some-injective : {v w : Head} → some v ≡ some w → v ≡ w
some-injective e = cc

-- The database after the row is stored and the head moved.
abbrev extended : AuditLog → Db → Db
extended row db = record {
  organizations = advance row.organization_id row.hash row.seq db.organizations;
  audit_logs = row ∷ db.audit_logs;
}

extended-own :
    (sha256 : Text → Text) (row : AuditLog) (head : Head) (db : Db)
    → lookup row.organization_id db.organizations ≡ some head
    → Fits sha256 head row
    → IsSealed sha256 db row.organization_id
    → IsSealed sha256 (extended row db) row.organization_id
unfolding advance
extended-own sha256 row head db e (s, p, c) h new at =
    let (chain, link, count) = h head e in
    let old : List AuditLog = rows_of row.organization_id db.audit_logs in
    let number : (row.seq ≡ 1 + length old) = omega arith in
    let stored : (rows_of row.organization_id (row ∷ db.audit_logs) ≡ old ++ row ∷ []) =
      rows_of-own row db.audit_logs
      ∙ insert_row-end sha256 (codes "genesis") 1 row old chain number in
    let is : (record { last_audit_hash = row.hash; last_audit_seq = row.seq } ≡ new) =
      some-injective (
        sym (
          lookup-insert row.organization_id row.organization_id _ db.organizations
          ∙ if-true _ _ (eq_refl row.organization_id))
        ∙ at) in
    let hash : (new.last_audit_hash ≡ row.hash) = ap (λ (x : Head). x.last_audit_hash) (sym is) in
    let seq : (new.last_audit_seq ≡ row.seq) = ap (λ (x : Head). x.last_audit_seq) (sym is) in
    rw stored (
      IsChain-snoc sha256 (codes "genesis") 1 row old chain number (p ∙ link) c,
      hash ∙ sym (end_hash-snoc (codes "genesis") row old),
      omega (arith, length-append old (row ∷ [])),
    )

extended-other :
    (sha256 : Text → Text) (row : AuditLog) (db : Db) (org : Text)
    → row.organization_id ≢ org
    → IsSealed sha256 db org
    → IsSealed sha256 (extended row db) org
unfolding advance
extended-other sha256 row db org ne h new at =
    let same : (lookup org (extended row db).organizations ≡ lookup org db.organizations) =
      lookup-insert row.organization_id org _ db.organizations ∙ if-false _ _ (not_same ne) in
    rw (rows_of-other org row db.audit_logs ne) (h new (sym same ∙ at))

commit-IsSealed :
    (sha256 : Text → Text) (refusal : Option Text) (row : AuditLog) (head : Head) (db : Db)
    (org : Text)
    → lookup row.organization_id db.organizations ≡ some head
    → Fits sha256 head row
    → IsSealed sha256 db row.organization_id
    → IsSealed sha256 db org
    → IsSealed sha256 (commit refusal row db).1 org
unfolding commit advance
commit-IsSealed sha256 (some code) row head db org e fits own h = h
commit-IsSealed sha256 none row head db org e (s, p, c) own h =
    elim (Bool-cases (is_taken row.organization_id row.seq db.audit_logs)) [
      | inl taken ↦ rw taken h
      | inr free ↦ rw free (elim (Bool-cases (row.organization_id == org)) [
        | inl same ↦
            subst (IsSealed sha256 (extended row db)) (same_text same)
              (extended-own sha256 row head db e (s, p, c) own)
        | inr other ↦ extended-other sha256 row db org (different_text other) h
      ])
    ]

transaction-IsSealed :
    (sha256 : Text → Text) (input : AuditInput) (a : Attempt) (head : Option Head) (db : Db)
    (org : Text)
    → lookup input.organization_id db.organizations ≡ head
    → ((o : Text) → IsSealed sha256 db o)
    → IsSealed sha256 (transaction sha256 input a head db).1 org
unfolding transaction append_row row_to_hashable
transaction-IsSealed sha256 input a none db org e h = h org
transaction-IsSealed sha256 input a (some head) db org e h =
    let row : AuditLog =
      draft input (head.last_audit_seq + 1) head.last_audit_hash a.new_id a.now in
    elim (Option-cases (row_hash sha256 row)) [
      | inl throws ↦ rw throws (h org)
      | inr (hash, is) ↦ rw is (
          commit-IsSealed sha256 a.refusal (sealed row hash) head db org e (refl, refl, is)
            (h input.organization_id) (h org))
    ]

either-IsSealed :
    (sha256 : Text → Text) (o : Text) (b : Bool) (x y : Outcome × Db)
    → IsSealed sha256 x.1 o
    → IsSealed sha256 y.1 o
    → IsSealed sha256 (if b then x else y).1 o
either-IsSealed sha256 o true x y p q = p
either-IsSealed sha256 o false x y p q = q

-- However often the transaction is refused and tried again, and whatever becomes of the call, every
-- organisation's chain is whole after `record` if all of them were before.
pub record_loop-IsSealed :
    (sha256 : Text → Text) (input : AuditInput) (n : ℕ) (attempts : List Attempt) (db : Db)
    → ((o : Text) → IsSealed sha256 db o)
    → (o : Text) → IsSealed sha256 (record_loop sha256 input n attempts db).1 o
unfolding record_loop
record_loop-IsSealed sha256 input n [] db h o = h o
record_loop-IsSealed sha256 input n (a ∷ attempts) db h o =
    let head : Option Head = lookup input.organization_id db.organizations in
    let out : Outcome × Db = transaction sha256 input a head db in
    either-IsSealed sha256 o (is_retriable out.0 && ltb n max_retries)
      (record_loop sha256 input (n + 1) attempts out.1) out
      (record_loop-IsSealed sha256 input (n + 1) attempts out.1
        (λ p. transaction-IsSealed sha256 input a head db p refl h) o)
      (transaction-IsSealed sha256 input a head db o refl h)
