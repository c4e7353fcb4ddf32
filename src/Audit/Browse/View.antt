-- ===== src/Audit/Browse/View.antt =====
-- The table of apps/web/src/pages/Audit.tsx, which shows the log page by page: `load` and `loadMore`.
pub mod Loading
use get_mcp.Base.{
  ℕ, zero, suc, ◌+◌, ◌*◌, ◌<◌, ◌≤◌, ◌≡◌, ◌↔◌, ◌⊎◌, refl, sym, ◌∙◌, ap, subst, inl, inr, Bool, true,
  false, Option, none, some, List, [], ◌∷◌, ◌++◌, length, take, drop, arith, ltb, if◌then◌else◌,
  Bool-cases, Text, codes, is_empty, is_space, includes,
}
use get_mcp.Access.Signature.{parse_int, skip_spaces, read_digits}
use get_mcp.Audit.Payload.{AuditLog}
use get_mcp.Audit.Store.{Db, from_cursor}
use get_mcp.Audit.Verify.{last_id}
use get_mcp.Audit.Chain.Paging.{HasIds, Resumes, HasIds-Resumes, Resumes-drop, from_cursor-last_id}
use get_mcp.Audit.Browse.Slices.{
  take-all, take-take, length-take, take-add, drop-drop, length-le_drop, length-drop_some,
}
use get_mcp.Audit.Browse.{
  Query, Filter, Page, Dates, given, filter_of, number_in, newest_first, page_of, page_at, list,
}

pub record View : Type 0 where
  pub rows : Option (List AuditLog)
  pub next_cursor : Option Text
  pub path_filter : Text

abbrev pub query_of : Text → Option Text → Query
query_of path_filter cursor = record {
  since = none;
  until = none;
  path = given (some path_filter);
  agent_id = none;
  cursor = cursor;
  limit = some (codes "50");
}

abbrev pub or_none : Option (List AuditLog) → List AuditLog
or_none none = []
or_none (some rows) = rows

-- The rows with a page, which follows those shown if a cursor was given.
abbrev pub shown : Option Text → Option (List AuditLog) → List AuditLog → List AuditLog
shown none rows items = items
shown (some c) rows items = or_none rows ++ items

-- Where the call throws, the rows stay.
abbrev pub received : Option Text → View → Option Page → View
received cursor v none = v
received cursor v (some page) = record v {
  rows = some (shown (given cursor) v.rows page.items);
  next_cursor = page.next_cursor;
}

abbrev cleared : Bool → View → View
cleared reset v = if reset then record v { rows = none } else v

unfoldable pub load : Dates → Text → Db → Option Text → Bool → View → View
load dates org db cursor reset v =
    received cursor (cleared reset v) (list dates org (query_of v.path_filter cursor) db)

abbrev more_at : Dates → Text → Db → View → Option Text → View
more_at dates org db v none = v
more_at dates org db v (some c) = load dates org db (some c) false v

unfoldable pub load_more : Dates → Text → Db → View → View
load_more dates org db v = more_at dates org db v (given v.next_cursor)

-- The table after it is loaded and `n` more pages are asked for.
abbrev pub loaded : Dates → Text → Db → View → ℕ → View
loaded dates org db v zero = load dates org db none true v
loaded dates org db v (suc n) = load_more dates org db (loaded dates org db v n)

abbrev pub filter_by : Text → Filter
filter_by path = record { gte = none; lte = none; contains = given (some path); agent = none }
