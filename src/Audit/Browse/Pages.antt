-- ===== src/Audit/Browse/Pages.antt =====
-- The pages of apps/api/src/audit/audit.controller.ts together give every row once, in order.
use get_mcp.Base.{
  ℕ, zero, suc, ◌<◌, ◌≡◌, refl, sym, ◌∙◌, ap, inl, inr, Option, none, some, List, [], ◌∷◌, ◌++◌,
  length, take, drop, map, arith, ltb, if◌then◌else◌, Bool-cases, Text, codes,
}
use get_mcp.Audit.Payload.{AuditLog}
use get_mcp.Audit.Store.{Db, rows_of, from_cursor}
use get_mcp.Audit.Verify.{last_id}
use get_mcp.Audit.Chain.Paging.{
  HasIds, Resumes, HasIds-Resumes, Resumes-drop, length-drop, drop-short, from_cursor-last_id,
}
use get_mcp.Audit.Browse.Slices.{take-drop}
use get_mcp.Audit.Browse.{export_pages, export_log}

export_pages-rest :
    (size fuel : ℕ) (cursor : Option Text) (rows rest : List AuditLog)
    → length rest < fuel
    → Resumes rows rest
    → from_cursor cursor rows ≡ rest
    → export_pages (suc size) fuel cursor rows ≡ rest
unfolding export_pages
export_pages-rest size zero cursor rows rest f h e = ground arith
export_pages-rest size (suc fuel) cursor rows [] f h e = rw (e, export_pages) refl
export_pages-rest size (suc fuel) cursor rows (x ∷ rest) f h e =
    let more : (if ltb (suc (length (take size rest))) (suc size)
          then []
          else export_pages (suc size) fuel (some (last_id x (take size rest))) rows)
        ≡ drop size rest =
      elim (Bool-cases (ltb (suc (length (take size rest))) (suc size))) [
        | inl short ↦ rw short (sym (drop-short size rest (ground arith)))
        | inr full ↦ rw full (
            export_pages-rest size fuel (some (last_id x (take size rest))) rows (drop size rest)
              (omega (arith, length-drop size rest)) (Resumes-drop size rows rest h.2)
              (from_cursor-last_id size rows rest x h))
      ] in
    rw (e, export_pages)
      (ap (λ r. x ∷ (take size rest ++ r)) more ∙ ap (λ r. x ∷ r) (take-drop size rest))

-- The export writes a line for every row of the organisation, once and in the order of the chain, if
-- the ids of the rows are distinct and not empty.
pub export_log-rows :
    (stringify : AuditLog → Text) (org : Text) (db : Db)
    → HasIds (rows_of org db.audit_logs)
    → export_log stringify org db
      ≡ map (λ row. stringify row ++ codes "\n") (rows_of org db.audit_logs)
unfolding export_log from_cursor
export_log-rows stringify org db h =
    let rows : List AuditLog = rows_of org db.audit_logs in
    ap (map (λ row. stringify row ++ codes "\n")) (
      export_pages-rest 499 (suc (length rows)) none rows rows (omega arith) (HasIds-Resumes rows h)
        refl)
