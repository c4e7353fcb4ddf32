-- ===== src/Audit/Record.antt =====
-- `AuditService.record` of apps/api/src/audit/audit.service.ts: a row is appended in a serializable
-- transaction, which is tried again when it loses a race.
use get_mcp.Base.{
  ℕ, ◌+◌, Bool, false, ◌||◌, ◌&&◌, Option, none, some, List, [], ◌∷◌, ltb, if◌then◌else◌, Text,
  codes, ◌==◌, ℤ, lookup, insert,
}
use get_mcp.Json.{Number}
use get_mcp.Audit.Payload.{AuditLog, row_to_hashable, compute_audit_hash}
use get_mcp.Audit.Store.{Head, Db, is_taken}

-- `AuditInput`; a field that is absent reads as null.
pub record AuditInput : Type 0 where
  pub organization_id : Text
  pub api_key_id : Option Text
  pub agent_id : Option Text
  pub method : Text
  pub path : Text
  pub source : Text
  pub tenant_id : Option Text
  pub reasoning : Option Text
  pub reason : Option Text
  pub action_taken : Text
  pub upstream_status : Option ℤ
  pub request_bytes : Option ℕ
  pub response_bytes : Option ℕ
  pub latency_ms : ℤ
  pub anomaly_score : Option Number

-- What the database answers when a transaction is about to commit: nothing, or an error's code.
pub record Attempt : Type 0 where
  pub now : ℕ
  pub new_id : Text
  pub refusal : Option Text

pub data Outcome : Type 0 where
  recorded : Text → ℕ → Text → Outcome
  not_found : Outcome
  failed : Text → Outcome
  -- `canonicalJson` threw
  unhashable : Outcome
  -- the attempts given are used up and the call still waits
  waiting : Outcome

abbrev or_zero : Option ℕ → ℕ
or_zero none = 0
or_zero (some n) = n

-- The data of the new row, but for its hash.
unfoldable pub draft : AuditInput → ℕ → Text → Text → ℕ → AuditLog
draft input seq prev_hash id now = record {
  id = id;
  organization_id = input.organization_id;
  seq = seq;
  timestamp = now;
  method = input.method;
  path = input.path;
  source = input.source;
  tenant_id = input.tenant_id;
  agent_id = input.agent_id;
  api_key_id = input.api_key_id;
  reasoning = input.reasoning;
  reason = input.reason;
  action_taken = input.action_taken;
  upstream_status = input.upstream_status;
  request_bytes = or_zero input.request_bytes;
  response_bytes = input.response_bytes;
  latency_ms = input.latency_ms;
  anomaly_score = input.anomaly_score;
  prev_hash = prev_hash;
  hash = [];
}

abbrev pub sealed : AuditLog → Text → AuditLog
sealed row hash = record row { hash = hash }

-- `where: { id }, data: { lastAuditHash: hash, lastAuditSeq: seq }`
unfoldable pub advance : Text → Text → ℕ → List (Text × Head) → List (Text × Head)
advance org hash seq orgs =
    insert org (record { last_audit_hash = hash; last_audit_seq = seq }) orgs

unfoldable pub commit : Option Text → AuditLog → Db → Outcome × Db
unfolding advance
commit (some code) row db = (Outcome.failed code, db)
commit none row db =
    if is_taken row.organization_id row.seq db.audit_logs
    then (Outcome.failed (codes "P2002"), db)
    else (
      Outcome.recorded row.id row.seq row.hash,
      record {
        organizations = advance row.organization_id row.hash row.seq db.organizations;
        audit_logs = row ∷ db.audit_logs;
      },
    )

unfoldable pub append_row : Option Text → AuditLog → Option Text → Db → Outcome × Db
append_row refusal row none db = (Outcome.unhashable, db)
append_row refusal row (some hash) db = commit refusal (sealed row hash) db

-- The body of the transaction.
unfoldable pub transaction : (Text → Text) → AuditInput → Attempt → Option Head → Db → Outcome × Db
unfolding append_row commit draft
transaction sha256 input attempt none db = (Outcome.not_found, db)
transaction sha256 input attempt (some org) db =
    let row = draft input (org.last_audit_seq + 1) org.last_audit_hash attempt.new_id attempt.now in
    append_row attempt.refusal row (compute_audit_hash sha256 (row_to_hashable row)) db

unfoldable pub is_retriable : Outcome → Bool
is_retriable (Outcome.failed code) = code == codes "P2034" || code == codes "P2002"
is_retriable _ = false

abbrev pub max_retries : ℕ
max_retries = 5

-- The loop of `record`, with the number of retries so far and the answers of the database.
unfoldable pub record_loop : (Text → Text) → AuditInput → ℕ → List Attempt → Db → Outcome × Db
unfolding transaction is_retriable
record_loop sha256 input attempt [] db = (Outcome.waiting, db)
record_loop sha256 input attempt (a ∷ attempts) db =
    let out = transaction sha256 input a (lookup input.organization_id db.organizations) db in
    let again = record_loop sha256 input (attempt + 1) attempts out.1 in
    if is_retriable out.0 && ltb attempt max_retries then again else out

unfoldable pub record_entry : (Text → Text) → AuditInput → List Attempt → Db → Outcome × Db
unfolding record_loop
record_entry sha256 input attempts db = record_loop sha256 input 0 attempts db
