-- ===== src/Audit/Store.antt =====
-- The tables that the audit log reads and writes (apps/api/prisma/schema.prisma), and the queries
-- that apps/api/src/audit/audit.service.ts makes of them.
use get_mcp.Base.{
  ℕ, Bool, ◌&&◌, Option, none, some, List, [], ◌∷◌, any, ltb, ◌=?◌, if◌then◌else◌, Text, ◌==◌,
  is_empty,
}
use get_mcp.Audit.Payload.{AuditLog}

-- The columns of an organisation's row that hold the end of its chain.
pub record Head : Type 0 where
  pub last_audit_hash : Text
  pub last_audit_seq : ℕ

pub record Db : Type 0 where
  pub organizations : List (Text × Head)
  -- the newest first
  pub audit_logs : List AuditLog

-- `orderBy: { seq: 'asc' }`
unfoldable pub insert_row : AuditLog → List AuditLog → List AuditLog
insert_row row [] = row ∷ []
insert_row row (r ∷ rows) =
    let rest = insert_row row rows in if ltb row.seq r.seq then row ∷ (r ∷ rows) else r ∷ rest

-- `where: { organizationId }, orderBy: { seq: 'asc' }`
unfoldable pub rows_of : Text → List AuditLog → List AuditLog
unfolding insert_row
rows_of org [] = []
rows_of org (r ∷ rows) =
    let rest = rows_of org rows in if r.organization_id == org then insert_row r rest else rest

-- `cursor: { id }, skip: 1`: what follows that row, nothing if there is none.
unfoldable pub rows_after : Text → List AuditLog → List AuditLog
rows_after id [] = []
rows_after id (r ∷ rows) = let rest = rows_after id rows in if r.id == id then rows else rest

-- `...(cursor ? { cursor: { id: cursor }, skip: 1 } : {})`
unfoldable pub from_cursor : Option Text → List AuditLog → List AuditLog
from_cursor none rows = rows
from_cursor (some id) rows = if is_empty id then rows else rows_after id rows

-- `@@unique([organizationId, seq])` would be broken.
unfoldable pub is_taken : Text → ℕ → List AuditLog → Bool
is_taken org seq rows = any (λ r. r.organization_id == org && r.seq =? seq) rows
