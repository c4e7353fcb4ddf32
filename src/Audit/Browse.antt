-- ===== src/Audit/Browse.antt =====
-- What apps/api/src/audit/audit.controller.ts reads of the log: `list` and `export`. The
-- reading of dates and the text of a row in JSON are parameters; a date is in milliseconds.
mod Slices
pub mod Pages
pub mod View
use get_mcp.Base.{
  ℕ, zero, suc, ◌+◌, ◌-◌, ◌*◌, Bool, true, false, ◌&&◌, Option, none, some, List, [], ◌∷◌, ◌++◌,
  length, take, map, ltb, leb, if◌then◌else◌, Text, codes, ◌==◌, is_empty, includes, ℤ, pos, negsuc,
}
use mathlib.Core.List.{reverse}
use get_mcp.Access.Signature.{parse_int}
use get_mcp.Audit.Payload.{AuditLog}
use get_mcp.Audit.Store.{Db, rows_of, from_cursor}
use get_mcp.Audit.Verify.{last_id}

pub record Query : Type 0 where
  pub since : Option Text
  pub until : Option Text
  pub path : Option Text
  pub agent_id : Option Text
  pub cursor : Option Text
  pub limit : Option Text

-- `where`, as far as it is given.
pub record Filter : Type 0 where
  pub gte : Option ℤ
  pub lte : Option ℤ
  pub contains : Option Text
  pub agent : Option Text

-- `data` and `nextCursor`.
pub record Page : Type 0 where
  pub items : List AuditLog
  pub next_cursor : Option Text

-- `v || undefined`
abbrev pub given : Option Text → Option Text
given none = none
given (some s) = if is_empty s then none else some s

abbrev clamp : ℕ → ℕ → ℕ
clamp most n = if ltb most n then most else n

-- `Math.min(Math.max(v || fallback, 1), most)`, where `none` is NaN.
abbrev pub clamped : ℕ → ℕ → Option ℤ → ℕ
clamped fallback most none = fallback
clamped fallback most (some (pos zero)) = fallback
clamped fallback most (some (pos (suc n))) = clamp most (suc n)
clamped fallback most (some (negsuc n)) = 1

abbrev parsed_or : ℕ → ℕ → Option Text → ℕ
parsed_or fallback most none = fallback
parsed_or fallback most (some s) = clamped fallback most (parse_int s)

-- The same of a query parameter.
unfoldable pub number_in : ℕ → ℕ → Option Text → ℕ
number_in fallback most v = parsed_or fallback most (given v)

-- `new Date(text).getTime()`; `none` is NaN.
abbrev pub Dates : Type 0
Dates = Text → Option ℤ

abbrev checked_date : Option ℤ → Option (Option ℤ)
checked_date none = none
checked_date (some t) = some (some t)

-- The outer `none` is a BadRequestException.
abbrev date_in : Dates → Option Text → Option (Option ℤ)
date_in dates none = some none
date_in dates (some s) = checked_date (dates s)

abbrev with_dates : Query → Option (Option ℤ) → Option (Option ℤ) → Option Filter
with_dates q (some gte) (some lte) =
    some (record { gte = gte; lte = lte; contains = given q.path; agent = given q.agent_id })
with_dates q _ _ = none

unfoldable pub filter_of : Dates → Query → Option Filter
filter_of dates q = with_dates q (date_in dates (given q.since)) (date_in dates (given q.until))

abbrev is_from : Option ℤ → ℕ → Bool
is_from none t = true
is_from (some (pos n)) t = leb n t
is_from (some (negsuc n)) t = true

abbrev is_until : Option ℤ → ℕ → Bool
is_until none t = true
is_until (some (pos n)) t = leb t n
is_until (some (negsuc n)) t = false

abbrev has_part : Option Text → Text → Bool
has_part none s = true
has_part (some part) s = includes s part

abbrev is_agent : Option Text → Option Text → Bool
is_agent none agent = true
is_agent (some id) none = false
is_agent (some id) (some agent) = agent == id

unfoldable pub matches : Filter → AuditLog → Bool
matches f row =
    is_from f.gte row.timestamp
    && is_until f.lte row.timestamp
    && has_part f.contains row.path
    && is_agent f.agent row.agent_id

unfoldable pub only {ℓ} : {A : Type ℓ} → (A → Bool) → List A → List A
only p [] = []
only p (x ∷ xs) = let rest = only p xs in if p x then x ∷ rest else rest

-- `where, orderBy: { seq: 'desc' }`
unfoldable pub newest_first : Filter → Text → Db → List AuditLog
newest_first f org db = reverse (only (matches f) (rows_of org db.audit_logs))

abbrev last_of : List AuditLog → Option Text
last_of [] = none
last_of (r ∷ rows) = some (last_id r rows)

-- The page, of the rows that `take: limit + 1` yields.
abbrev pub page_of : ℕ → List AuditLog → Page
page_of limit rows =
    let page = take limit rows in
    if ltb limit (length rows)
    then record { items = page; next_cursor = last_of page }
    else record { items = rows; next_cursor = none }

unfoldable pub page_at : ℕ → Option Text → List AuditLog → Page
page_at limit cursor rows = page_of limit (take (limit + 1) (from_cursor cursor rows))

abbrev listed : Text → Query → Db → Option Filter → Option Page
listed org q db none = none
listed org q db (some f) =
    some (page_at (number_in 100 1000 q.limit) q.cursor (newest_first f org db))

-- `none` is a BadRequestException.
unfoldable pub list : Dates → Text → Query → Db → Option Page
list dates org q db = listed org q db (filter_of dates q)

-- The loop of `export` on fuel, with the rows in the order in which they are written.
unfoldable pub export_pages : ℕ → ℕ → Option Text → List AuditLog → List AuditLog
export_pages size zero cursor rows = []
export_pages size (suc fuel) cursor rows = elim (take size (from_cursor cursor rows)) [
  | [] ↦ []
  | r ∷ page ↦
      let rest = export_pages size fuel (some (last_id r page)) rows in
      (r ∷ page) ++ (if ltb (length (r ∷ page)) size then [] else rest)
]

-- The lines that `export` writes.
unfoldable pub export_log : (AuditLog → Text) → Text → Db → List Text
export_log stringify org db =
    let rows = rows_of org db.audit_logs in
    map (λ row. stringify row ++ codes "\n") (export_pages 500 (suc (length rows)) none rows)
