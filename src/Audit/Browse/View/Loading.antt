-- ===== src/Audit/Browse/View/Loading.antt =====
-- What the table of apps/web/src/pages/Audit.tsx shows after any number of pages.
use get_mcp.Base.{
  ℕ, zero, suc, ◌+◌, ◌*◌, ◌<◌, ◌≤◌, ◌≡◌, ◌↔◌, ◌⊎◌, refl, sym, ◌∙◌, ap, subst, inl, inr, true, false,
  Option, none, some, List, [], ◌∷◌, ◌++◌, length, take, drop, arith, ltb, Bool-cases, Text,
  is_empty, is_space,
}
use get_mcp.Access.Signature.{parse_int, skip_spaces, read_digits}
use get_mcp.Audit.Payload.{AuditLog}
use get_mcp.Audit.Store.{Db, from_cursor}
use get_mcp.Audit.Verify.{last_id}
use get_mcp.Audit.Chain.Paging.{HasIds, Resumes, HasIds-Resumes, Resumes-drop, from_cursor-last_id}
use get_mcp.Audit.Browse.Slices.{
  take-all, take-take, length-take, take-add, drop-drop, length-le_drop, length-drop_some,
}
use get_mcp.Audit.Browse.{Dates, filter_of, number_in, newest_first, page_of, page_at, list}
use get_mcp.Audit.Browse.View.{View, query_of, load, load_more, loaded, filter_by}

list-query_of :
    (dates : Dates) (org : Text) (db : Db) (path : Text) (cursor : Option Text)
    → list dates org (query_of path cursor) db
      ≡ some (page_at 50 cursor (newest_first (filter_by path) org db))
unfolding list filter_of number_in parse_int skip_spaces read_digits is_space
list-query_of dates org db [] cursor = refl
list-query_of dates org db (c ∷ path) cursor = refl

-- A page holds what is left, or as much as is asked for and the id behind which the rest stands.
page_of-short :
    (limit : ℕ) (rest : List AuditLog)
    → length rest ≤ limit
    → page_of limit (take (limit + 1) rest) ≡ record { items = rest; next_cursor = none }
page_of-short limit rest h =
    let all : take (limit + 1) rest ≡ rest = take-all (limit + 1) rest (omega arith) in
    rw all (elim (Bool-cases (ltb limit (length rest))) [
      | inl more ↦ ground arith
      | inr no_more ↦ rw no_more refl
    ])

page_of-long :
    (limit : ℕ) (x : AuditLog) (rest : List AuditLog)
    → limit < length rest
    → page_of (suc limit) (take (suc limit + 1) (x ∷ rest))
      ≡ record { items = x ∷ take limit rest; next_cursor = some (last_id x (take limit rest)) }
page_of-long limit x rest h =
    let one_more : suc limit + 1 ≡ suc (suc limit) = omega arith in
    let longer : limit < length (take (suc limit) rest) = length-take limit rest h in
    rw one_more (elim (Bool-cases (ltb (suc limit) (suc (length (take (suc limit) rest))))) [
      | inl more ↦ rw (more, take-take limit rest) refl
      | inr no_more ↦ ground arith
    ])

last_id-given :
    (rows : List AuditLog) (n : ℕ) (x : AuditLog) (rest : List AuditLog)
    → Resumes rows (x ∷ rest)
    → is_empty (last_id x (take n rest)) ≡ false
last_id-given rows zero x rest (own, next, h) = own
last_id-given rows (suc n) x [] (own, next, h) = own
last_id-given rows (suc n) x (y ∷ rest) (own, next, h) = last_id-given rows n y rest h

-- It is known where the rows behind the first `k` stand, if there are any.
abbrev Continues : List AuditLog → ℕ → Option Text → Type 0
Continues rows k cursor =
    ((length rows ≤ k) × (cursor ≡ none))
    ⊎ ((k < length rows)
        × ((c : Text) × (cursor ≡ some c)
            × (is_empty c ≡ false)
            × (from_cursor (some c) rows ≡ drop k rows)))

-- The first `k` rows are shown, and the table can go on behind them.
pub record Shows (rows : List AuditLog) (path : Text) (k : ℕ) (v : View) : Type 0 where
  pub first : v.rows ≡ some (take k rows)
  pub by_path : v.path_filter ≡ path
  pub continues : Continues rows k v.next_cursor

-- The page of the rows behind the first `k`.
page_of-Continues :
    (rows : List AuditLog) (k : ℕ) (rest : List AuditLog)
    → HasIds rows
    → drop k rows ≡ rest
    → let page = page_of 50 (take 51 rest) in
      (page.items ≡ take 50 rest) × Continues rows (k + 50) page.next_cursor
page_of-Continues rows k [] ids is =
    let bound = length-le_drop k rows in
    let none_left : length (drop k rows) ≡ 0 = ap length is in (refl, inl (omega arith, refl))
page_of-Continues rows k (x ∷ rest) ids is = elim (Bool-cases (ltb 49 (length rest))) [
  | inl more ↦
      let left : length (drop k rows) ≡ suc (length rest) = ap length is in
      let bound = length-drop_some k rows (omega arith) in
      let resumes : Resumes rows (x ∷ rest) =
        subst (Resumes rows) is (Resumes-drop k rows rows (HasIds-Resumes rows ids)) in
      let behind : from_cursor (some (last_id x (take 49 rest))) rows ≡ drop (k + 50) rows =
        from_cursor-last_id 49 rows rest x resumes ∙ sym (ap (drop 50) is) ∙ drop-drop k 50 rows in
      rw (page_of-long 49 x rest (ground arith))
        (refl, inr (ground arith, (_, refl, last_id-given rows 49 x rest resumes, behind)))
  | inr no_more ↦
      let left : length (drop k rows) ≡ suc (length rest) = ap length is in
      let bound = length-le_drop k rows in
      let few : length (x ∷ rest) ≤ 50 = ground arith in
      rw (page_of-short 50 (x ∷ rest) few)
        (sym (take-all 50 (x ∷ rest) few), inl (omega arith, refl))
]

module _ (dates : Dates) (org : Text) (db : Db) (path : Text) where
  abbrev rows_by : List AuditLog
  rows_by = newest_first (filter_by path) org db

  load-Shows :
      (v : View)
      → HasIds rows_by
      → v.path_filter ≡ path
      → Shows rows_by path 50 (load dates org db none true v)
  unfolding load page_at from_cursor
  load-Shows v ids same =
      let (items, continues) = page_of-Continues rows_by 0 rows_by ids refl in
      rw (same, list-query_of dates org db path none)
        (record { first = ap some items; by_path = refl; continues = continues })

  -- The next page, or where all rows are shown the same view again.
  load_more-Shows :
      (k : ℕ) (v : View)
      → HasIds rows_by
      → Shows rows_by path k v
      → Shows rows_by path (k + 50) (load_more dates org db v)
  unfolding load_more load page_at
  load_more-Shows k v ids h = elim h.continues [
    | inl (all, ends) ↦
        let wider : length rows_by ≤ k + 50 = omega arith in
        simp ends (record {
          first =
              h.first ∙ ap some (take-all k rows_by all ∙ sym (take-all (k + 50) rows_by wider));
          by_path = h.by_path;
          continues = inl (wider, ends);
        })
    | inr (more, (c, next, full, behind)) ↦
        let (items, continues) = page_of-Continues rows_by k (drop k rows_by) ids refl in
        rw (next, full, h.by_path, list-query_of dates org db path (some c), full, h.first, behind)
          (record {
            first =
                ap some (ap (λ page. take k rows_by ++ page) items ∙ sym (take-add k 50 rows_by));
            by_path = refl;
            continues = continues;
          })
  ]

  loaded-Shows :
      (v : View) (n : ℕ)
      → HasIds rows_by
      → v.path_filter ≡ path
      → Shows rows_by path (50 * suc n) (loaded dates org db v n)
  loaded-Shows v zero ids same = load-Shows v ids same
  loaded-Shows v (suc n) ids same =
      let more : 50 * suc n + 50 ≡ 50 * suc (suc n) = omega arith in
      subst (λ k. Shows rows_by path k (loaded dates org db v (suc n))) more
        (load_more-Shows (50 * suc n) (loaded dates org db v n) ids (loaded-Shows v n ids same))

  Continues-ends :
      (rows : List AuditLog) (k : ℕ) (cursor : Option Text)
      → Continues rows k cursor
      → (cursor ≡ none) ↔ (length rows ≤ k)
  Continues-ends rows k cursor (inl (all, ends)) = ((λ e. all), λ le. ends)
  Continues-ends rows k cursor (inr (more, (c, next, full, behind))) =
      ((λ e. cc), λ le. absurd (omega arith))

  -- After the table is loaded and the next page is asked for `n` times, it shows the first 50 * (n + 1)
  -- rows of the organisation whose path holds the filter, newest first and each once, or all of them; and
  -- it has no cursor for a further page exactly when these are all. The ids of these rows are distinct
  -- and not empty, and the log does not change meanwhile.
  pub loaded-rows :
      (v : View) (n : ℕ)
      → HasIds (newest_first (filter_by path) org db)
      → v.path_filter ≡ path
      → let after = loaded dates org db v n in
        (after.rows ≡ some (take (50 * suc n) (newest_first (filter_by path) org db)))
        × ((after.next_cursor ≡ none)
            ↔ (length (newest_first (filter_by path) org db) ≤ 50 * suc n))
  loaded-rows v n ids same =
      let h = loaded-Shows v n ids same in
      (h.first, Continues-ends rows_by (50 * suc n) _ h.continues)
