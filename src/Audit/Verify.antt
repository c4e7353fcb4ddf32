-- ===== src/Audit/Verify.antt =====
-- `AuditService.verifyChain` of apps/api/src/audit/audit.service.ts: the chain is walked in pages of
-- 500 rows.
use get_mcp.Base.{
  ℕ, zero, suc, ◌+◌, not, Option, none, some, List, [], ◌∷◌, length, take, ltb, ◌=?◌, if◌then◌else◌,
  Text, codes, ◌==◌, decimal,
}
use get_mcp.Audit.Payload.{AuditLog, row_to_hashable, compute_audit_hash}
use get_mcp.Audit.Store.{Db, rows_of, from_cursor}

pub data Reason : Type 0 where
  prev_hash_mismatch : Reason
  hash_mismatch : Reason
  gap_in_seq : Reason

pub data VerifyResult : Type 0 where
  valid : ℕ → Text → VerifyResult
  -- the number of the broken row, what is wrong, what was expected and what was found
  broken : ℕ → Reason → Text → Text → VerifyResult
  -- `canonicalJson` threw
  thrown : VerifyResult

-- The variables of the walk.
pub record Walk : Type 0 where
  pub prev_hash : Text
  pub expected_seq : ℕ
  pub last_hash : Text
  pub count : ℕ

abbrev pub start : Walk
start = record {
  prev_hash = codes "genesis";
  expected_seq = 1;
  last_hash = codes "genesis";
  count = 0;
}

pub data Progress : Type 0 where
  stopped : VerifyResult → Progress
  walking : Walk → Progress

unfoldable pub check_hash : AuditLog → Option Text → Walk → Progress
check_hash row none w = Progress.stopped VerifyResult.thrown
check_hash row (some recomputed) w =
    if not (recomputed == row.hash)
    then Progress.stopped (VerifyResult.broken row.seq Reason.hash_mismatch recomputed row.hash)
    else Progress.walking (record {
      prev_hash = row.hash;
      expected_seq = w.expected_seq + 1;
      last_hash = row.hash;
      count = w.count + 1;
    })

-- The body of the loop over the rows.
unfoldable pub check_row : (Text → Text) → AuditLog → Walk → Progress
unfolding check_hash
check_row sha256 row w =
    if not (row.seq =? w.expected_seq)
    then Progress.stopped
        (VerifyResult.broken row.seq Reason.gap_in_seq (decimal w.expected_seq) (decimal row.seq))
    else if not (row.prev_hash == w.prev_hash)
    then Progress.stopped
        (VerifyResult.broken row.seq Reason.prev_hash_mismatch w.prev_hash row.prev_hash)
    else check_hash row (compute_audit_hash sha256 (row_to_hashable row)) w

abbrev pub and_then : Progress → (Walk → Progress) → Progress
and_then (Progress.stopped r) next = Progress.stopped r
and_then (Progress.walking w) next = next w

unfoldable pub walk : (Text → Text) → List AuditLog → Walk → Progress
unfolding check_row
walk sha256 [] w = Progress.walking w
walk sha256 (row ∷ rows) w = and_then (check_row sha256 row w) (λ v. walk sha256 rows v)

abbrev pub last_id : AuditLog → List AuditLog → Text
last_id row [] = row.id
last_id row (r ∷ rows) = last_id r rows

-- The loop over the pages, on fuel.
unfoldable pub verify_pages : (Text → Text) → ℕ → ℕ → Option Text → List AuditLog → Walk → Progress
unfolding walk
verify_pages sha256 size zero cursor rows w = Progress.walking w
verify_pages sha256 size (suc fuel) cursor rows w = elim (take size (from_cursor cursor rows)) [
  | [] ↦ Progress.walking w
  | r ∷ page ↦ and_then (walk sha256 (r ∷ page) w) (λ v.
      let rest = verify_pages sha256 size fuel (some (last_id r page)) rows v in
      if ltb (length (r ∷ page)) size then Progress.walking v else rest)
]

abbrev pub page_size : ℕ
page_size = 500

unfoldable pub result_of : Progress → VerifyResult
result_of (Progress.stopped r) = r
result_of (Progress.walking w) = VerifyResult.valid w.count w.last_hash

-- Each page but the last holds rows, so the rows and one more page are fuel enough.
unfoldable pub verify_chain : (Text → Text) → Text → Db → VerifyResult
unfolding result_of verify_pages
verify_chain sha256 org db =
    let rows = rows_of org db.audit_logs in
    result_of (verify_pages sha256 page_size (suc (length rows)) none rows start)
