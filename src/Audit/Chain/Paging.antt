-- ===== src/Audit/Chain/Paging.antt =====
-- `verifyChain` reads the rows in pages behind a cursor (apps/api/src/audit/audit.service.ts); its
-- result is that of one walk over all of them.
use get_mcp.Base.{
  ℕ, zero, suc, ◌+◌, ◌<◌, ◌≡◌, ◌≢◌, refl, sym, ◌∙◌, ap, inl, inr, true, false, Option, none, some,
  List, [], ◌∷◌, length, take, drop, arith, ltb, if◌then◌else◌, Bool-cases, All, Text, ◌==◌, eq_iff,
  eq_refl, is_empty,
}
use get_mcp.Audit.Payload.{AuditLog}
use get_mcp.Audit.Store.{Db, rows_of, rows_after, from_cursor}
use get_mcp.Audit.Verify.{
  Walk, Progress, stopped, walking, and_then, check_row, walk, last_id, verify_pages, start,
  result_of, verify_chain,
}

-- Ids are not empty, and no two rows have the same.
abbrev pub HasIds : List AuditLog → Type 0
HasIds [] = Unit
HasIds (r ∷ rows) = (is_empty r.id ≡ false) × All (λ s. s.id ≢ r.id) rows × HasIds rows

-- Reading on behind any of these rows gives those that follow it.
abbrev pub Resumes : List AuditLog → List AuditLog → Type 0
Resumes rows [] = Unit
Resumes rows (x ∷ rest) =
    (is_empty x.id ≡ false) × (rows_after x.id rows ≡ rest) × Resumes rows rest

rows_after-cons :
    (id : Text) (r : AuditLog) (rows : List AuditLog)
    → r.id ≢ id
    → rows_after id (r ∷ rows) ≡ rows_after id rows
unfolding rows_after
rows_after-cons id r rows h = ground (arith, eq_iff r.id id)

Resumes-cons :
    (r : AuditLog) (rows rest : List AuditLog)
    → All (λ s. s.id ≢ r.id) rest
    → Resumes rows rest
    → Resumes (r ∷ rows) rest
Resumes-cons r rows [] h k = tt
Resumes-cons r rows (x ∷ rest) (ne, h) (given, next, k) =
    (given, rows_after-cons x.id r rows (λ e. ne (sym e)) ∙ next, Resumes-cons r rows rest h k)

pub HasIds-Resumes : (rows : List AuditLog) → HasIds rows → Resumes rows rows
unfolding rows_after
HasIds-Resumes [] h = tt
HasIds-Resumes (r ∷ rows) (given, fresh, h) =
    let own : ((r.id == r.id) ≡ true) = eq_refl r.id in
    (given, rw own, Resumes-cons r rows rows fresh (HasIds-Resumes rows h))

pub Resumes-drop :
    (n : ℕ) (rows rest : List AuditLog) → Resumes rows rest → Resumes rows (drop n rest)
Resumes-drop zero rows rest h = h
Resumes-drop (suc n) rows [] h = tt
Resumes-drop (suc n) rows (x ∷ rest) (given, next, h) = Resumes-drop n rows rest h

-- Behind the last row of a page stand the rows that the page leaves.
pub from_cursor-last_id :
    (n : ℕ) (rows rest : List AuditLog) (x : AuditLog)
    → Resumes rows (x ∷ rest)
    → from_cursor (some (last_id x (take n rest))) rows ≡ drop n rest
unfolding from_cursor
from_cursor-last_id zero rows rest x (given, next, h) = rw given next
from_cursor-last_id (suc n) rows [] x (given, next, h) = rw given next
from_cursor-last_id (suc n) rows (y ∷ rest) x (given, next, h) = from_cursor-last_id n rows rest y h

and_then_assoc :
    (c : Progress) (f g : Walk → Progress)
    → and_then c (λ v. and_then (f v) g) ≡ and_then (and_then c f) g
and_then_assoc (stopped r) f g = refl
and_then_assoc (walking v) f g = refl

and_then_eq :
    (c : Progress) (f g : Walk → Progress) → ((v : Walk) → f v ≡ g v) → and_then c f ≡ and_then c g
and_then_eq (stopped r) f g h = refl
and_then_eq (walking v) f g h = h v

walk-take :
    (sha256 : Text → Text) (n : ℕ) (rows : List AuditLog) (w : Walk)
    → walk sha256 rows w ≡ and_then (walk sha256 (take n rows) w) (λ v. walk sha256 (drop n rows) v)
unfolding walk
walk-take sha256 zero rows w = refl
walk-take sha256 (suc n) [] w = refl
walk-take sha256 (suc n) (r ∷ rows) w =
    and_then_eq (check_row sha256 r w) _ _ (λ v. walk-take sha256 n rows v)
    ∙ and_then_assoc (check_row sha256 r w) _ _

pub length-drop :
    (n : ℕ) (rows : List AuditLog) → length (drop n rows) + length (take n rows) ≡ length rows
length-drop zero rows = omega arith
length-drop (suc n) [] = refl
length-drop (suc n) (r ∷ rows) = omega (arith, length-drop n rows)

pub drop-short : (n : ℕ) (rows : List AuditLog) → length (take n rows) < n → drop n rows ≡ []
drop-short zero rows h = ground arith
drop-short (suc n) [] h = refl
drop-short (suc n) (r ∷ rows) h = drop-short n rows (omega arith)

verify_pages-walk :
    (sha256 : Text → Text) (size fuel : ℕ) (cursor : Option Text) (rows rest : List AuditLog)
    (w : Walk)
    → length rest < fuel
    → Resumes rows rest
    → from_cursor cursor rows ≡ rest
    → verify_pages sha256 (suc size) fuel cursor rows w ≡ walk sha256 rest w
unfolding verify_pages walk
verify_pages-walk sha256 size zero cursor rows rest w f h e = ground arith
verify_pages-walk sha256 size (suc fuel) cursor rows [] w f h e = rw (e, verify_pages)
verify_pages-walk sha256 size (suc fuel) cursor rows (x ∷ rest) w f h e =
    let next : (v : Walk)
        → (if ltb (suc (length (take size rest))) (suc size)
            then walking v
            else verify_pages sha256 (suc size) fuel (some (last_id x (take size rest))) rows v)
          ≡ walk sha256 (drop size rest) v =
      λ v. elim (Bool-cases (ltb (suc (length (take size rest))) (suc size))) [
        | inl short ↦ rw short (rw (drop-short size rest (ground arith)) refl)
        | inr full ↦ rw full (
            verify_pages-walk sha256 size fuel (some (last_id x (take size rest))) rows
              (drop size rest) v (omega (arith, length-drop size rest))
              (Resumes-drop size rows rest h.2) (from_cursor-last_id size rows rest x h))
      ] in
    rw (e, verify_pages)
      (and_then_eq (walk sha256 (x ∷ take size rest) w) _ _ next
        ∙ sym (walk-take sha256 (suc size) (x ∷ rest) w))

-- The walk in pages has the result of one walk over all the rows, if their ids are distinct and not
-- empty.
pub verify_chain-walk :
    (sha256 : Text → Text) (org : Text) (db : Db)
    → HasIds (rows_of org db.audit_logs)
    → verify_chain sha256 org db ≡ result_of (walk sha256 (rows_of org db.audit_logs) start)
unfolding verify_chain from_cursor
verify_chain-walk sha256 org db h =
    let rows : List AuditLog = rows_of org db.audit_logs in
    ap result_of (
      verify_pages-walk sha256 499 (suc (length rows)) none rows rows start (omega arith)
        (HasIds-Resumes rows h) refl)
