-- ===== src/Audit/Tests.antt =====
-- The audit chain on concrete rows: apps/api/src/audit/audit.service.ts.
use get_mcp.Base.{
  ◌≡◌, ◌≢◌, inl, inr, refl, none, some, List, [], ◌∷◌, ◌++◌, arith, Text, codes, ◌==◌, lookup,
  insert, decimal, decimal_of, padded, join, pos, Bool-cases, take, length, map, ◌≤◌, ◌↔◌, includes,
  starts_with,
}
use get_mcp.Audit.Canonical.{
  Value, Values, Members, canonical_json, quote, sort_members, print_member, print_object,
  print_array, precedes,
}
use get_mcp.Audit.Payload.{
  AuditLog, row_to_hashable, to_iso_string, payload_value, payload_members, members_of,
  compute_audit_hash,
}
use get_mcp.Audit.Store.{Head, Db, insert_row, rows_of, is_taken, from_cursor}
use get_mcp.Audit.Record.{
  AuditInput, Attempt, waiting, record_entry, record_loop, transaction, append_row, commit, advance,
  draft, sealed, is_retriable,
}
use get_mcp.Audit.Verify.{
  valid, broken, gap_in_seq, verify_chain, walk, result_of, verify_pages, check_row,
}
use get_mcp.Audit.Browse.{Dates, newest_first, matches, only, export_log}
use get_mcp.Audit.Browse.Pages.{export_log-rows}
use get_mcp.Audit.Browse.View.{View, loaded, filter_by}
use get_mcp.Audit.Browse.View.Loading.{loaded-rows}
use get_mcp.Audit.Chain.Extend.{IsSealed}
use get_mcp.Audit.Chain.Laws.{
  Reports, verify_chain-Reports, verify_chain-record_entry, record_entry-IsSealed,
}
use get_mcp.Audit.Chain.Effects.{Effect, record_entry-settles}

run_canonical : Unit {0}
unfolding canonical_json quote sort_members print_member print_object print_array precedes
    decimal_of decimal join padded to_iso_string row_to_hashable payload_value payload_members
    members_of
run_canonical = tt

-- The keys are sorted, and texts are escaped.
canonical_cases :
    (canonical_json (
        Value.object (
          Members.member (codes "b") (Value.number (pos 12)) (
            Members.member
              (codes "a")
              (Value.array (Values.cons Value.undefined Values.nil))
              Members.end)))
      ≡ some (codes "{\"a\":[null],\"b\":12}"))
    × (canonical_json (Value.array (Values.cons Value.non_finite Values.nil)) ≡ none)
    × (canonical_json (Value.string (codes "\n")) ≡ some (codes "\"\\n\""))
    × (to_iso_string 1717245296789 ≡ codes "2024-06-01T12:34:56.789Z")
unfolding run_canonical
canonical_cases = (refl, refl, refl, refl)

-- A stand-in for SHA-256.
abbrev short_hash : Text → Text
short_hash s = take 16 s

abbrev fresh_head : Head
fresh_head = record { last_audit_hash = codes "genesis"; last_audit_seq = 0 }

abbrev empty : Db
empty = record { organizations = (codes "o", fresh_head) ∷ []; audit_logs = [] }

abbrev input : AuditInput
input = record {
  organization_id = codes "o";
  api_key_id = none;
  agent_id = some (codes "a1");
  method = codes "GET";
  path = codes "/v1";
  source = codes "external_mcp";
  tenant_id = none;
  reasoning = none;
  reason = none;
  action_taken = codes "EXECUTED";
  upstream_status = some (pos 200);
  request_bytes = none;
  response_bytes = some 2;
  latency_ms = pos 7;
  anomaly_score = none;
}

-- The first try loses a race.
abbrev attempts : List Attempt
attempts =
    record { now = 5; new_id = codes "r1"; refusal = some (codes "P2034") }
    ∷ (record { now = 11; new_id = codes "r2"; refusal = none } ∷ [])

abbrev ready : Attempt
ready = record { now = 20; new_id = codes "r3"; refusal = none }

empty-IsSealed : (o : Text) → IsSealed short_hash empty o
unfolding rows_of lookup
empty-IsSealed o head at = elim (Bool-cases (codes "o" == o)) [
  | inl own ↦ let is : some fresh_head ≡ some head = rw own at at in (tt, (cc), (cc))
  | inr other ↦ let is : none ≡ some head = rw other at at in cc
]

record_entry-settles_example :
    ((record_entry short_hash input (attempts ++ ready ∷ ready ∷ ready ∷ ready ∷ []) empty).0
      ≢ waiting)
    × Effect empty
        (record_entry short_hash input (attempts ++ ready ∷ ready ∷ ready ∷ ready ∷ []) empty)
record_entry-settles_example =
    record_entry-settles short_hash input (attempts ++ ready ∷ ready ∷ ready ∷ ready ∷ []) empty
      (omega arith)

record_entry-IsSealed_example :
    IsSealed short_hash (record_entry short_hash input attempts empty).1 (codes "o")
record_entry-IsSealed_example =
    record_entry-IsSealed short_hash input attempts empty empty-IsSealed (codes "o")

abbrev after : Db
after = (record_entry short_hash input attempts empty).1

run_record : Unit {0}
unfolding run_canonical record_entry record_loop transaction append_row commit advance draft
    is_retriable compute_audit_hash rows_of insert_row lookup insert is_taken ◌==◌
run_record = tt

verify_chain-record_entry_example :
    verify_chain short_hash (codes "o") after ≡ valid 1 (codes "{\"actionTaken\":\"")
unfolding run_record
verify_chain-record_entry_example =
    verify_chain-record_entry short_hash input attempts empty (codes "o")
      (record { last_audit_hash = codes "{\"actionTaken\":\""; last_audit_seq = 1 }) empty-IsSealed
      (refl, tt, tt) refl

verify_chain-Reports_example :
    Reports short_hash
      (rows_of (codes "o") after.audit_logs)
      (verify_chain short_hash (codes "o") after)
unfolding run_record
verify_chain-Reports_example = verify_chain-Reports short_hash (codes "o") after (refl, tt, tt)

-- The row that `after` holds, and the same row with a score, which is not hashed.
abbrev row : AuditLog
row = sealed (draft input 1 (codes "genesis") (codes "r2") 11) (codes "{\"actionTaken\":\"")

-- A row whose number was changed after it was stored.
abbrev forged : Db
forged = record { organizations = after.organizations; audit_logs = record row { seq = 2 } ∷ [] }

verify_cases :
    (verify_chain short_hash (codes "o") forged ≡ broken 2 gap_in_seq (codes "1") (codes "2"))
    × (verify_chain short_hash (codes "p") forged ≡ valid 0 (codes "genesis"))
unfolding run_record verify_chain result_of verify_pages from_cursor walk check_row
verify_cases = (refl, refl)

export_log-rows_example :
    export_log (λ row. row.id) (codes "o") after
    ≡ map (λ row. row.id ++ codes "\n") (rows_of (codes "o") after.audit_logs)
unfolding run_record
export_log-rows_example = export_log-rows (λ row. row.id) (codes "o") after (refl, tt, tt)

abbrev no_dates : Dates
no_dates text = none

abbrev empty_view : View
empty_view = record { rows = none; next_cursor = none; path_filter = codes "/" }

loaded-rows_example :
    let shown = loaded no_dates (codes "o") after empty_view 1 in
    let matching = newest_first (filter_by (codes "/")) (codes "o") after in
    (shown.rows ≡ some (take 100 matching)) × ((shown.next_cursor ≡ none) ↔ (length matching ≤ 100))
unfolding run_record newest_first matches only includes starts_with
loaded-rows_example =
    loaded-rows no_dates (codes "o") after (codes "/") empty_view 1 (refl, tt, tt) refl
