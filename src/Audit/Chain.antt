-- ===== src/Audit/Chain.antt =====
-- What a valid chain is, and what the walk of `verifyChain` (apps/api/src/audit/audit.service.ts) over
-- the rows in order finds.
pub mod Paging
pub mod Extend
pub mod Laws
pub mod Effects
use get_mcp.Base.{
  ℕ, suc, ◌+◌, ◌≡◌, ◌≢◌, refl, sym, ◌∙◌, ap, subst, ◌⊎◌, inl, inr, Bool, true, false, not, Option,
  none, some, List, [], ◌∷◌, ◌++◌, length, arith, ltb, ◌=?◌, if◌then◌else◌, Bool-cases,
  Option-cases, Text, codes, ◌==◌, eq_iff, eq_refl, same_text, different_text, =?_iff, decimal,
}
use get_mcp.Audit.Payload.{AuditLog, row_to_hashable, compute_audit_hash}
use get_mcp.Audit.Verify.{
  Reason, prev_hash_mismatch, hash_mismatch, gap_in_seq, VerifyResult, valid, broken, thrown, Walk,
  Progress, stopped, walking, check_hash, check_row, and_then, walk,
}

same_seq : {a b : ℕ} → (a =? b) ≡ true → a ≡ b
same_seq {a} {b} h = ground arith

different_seq : {a b : ℕ} → (a =? b) ≡ false → a ≢ b
different_seq {a} {b} h = ground arith

abbrev pub row_hash : (Text → Text) → AuditLog → Option Text
row_hash sha256 row = compute_audit_hash sha256 (row_to_hashable row)

-- The rows are numbered from `n`, each holds the hash before it, `prev` for the first, and its own.
abbrev pub IsChain : (Text → Text) → Text → ℕ → List AuditLog → Type 0
IsChain sha256 prev n [] = Unit
IsChain sha256 prev n (r ∷ rows) =
    (r.seq ≡ n)
    × (r.prev_hash ≡ prev)
    × (row_hash sha256 r ≡ some r.hash)
    × IsChain sha256 r.hash (n + 1) rows

-- The hash at the end of the rows, `prev` if there are none.
abbrev pub end_hash : Text → List AuditLog → Text
end_hash prev [] = prev
end_hash prev (r ∷ rows) = end_hash r.hash rows

-- The walk's variables after a row that is right.
abbrev pub passed : AuditLog → Walk → Walk
passed row w = record {
  prev_hash = row.hash;
  expected_seq = w.expected_seq + 1;
  last_hash = row.hash;
  count = w.count + 1;
}

abbrev pub passed_all : List AuditLog → Walk → Walk
passed_all [] w = w
passed_all (r ∷ rows) w = passed_all rows (passed r w)

pub check_row-right :
    (sha256 : Text → Text) (row : AuditLog) (w : Walk)
    → row.seq ≡ w.expected_seq
    → row.prev_hash ≡ w.prev_hash
    → row_hash sha256 row ≡ some row.hash
    → check_row sha256 row w ≡ walking (passed row w)
unfolding check_row check_hash
check_row-right sha256 row w s p h =
    let number : ((row.seq =? w.expected_seq) ≡ true) = (=?_iff row.seq w.expected_seq).1 s in
    let link : ((row.prev_hash == w.prev_hash) ≡ true) = (eq_iff row.prev_hash w.prev_hash).1 p in
    let own : ((row.hash == row.hash) ≡ true) = eq_refl row.hash in rw (number, link, h, own)

pub walk-IsChain :
    (sha256 : Text → Text) (rows : List AuditLog) (w : Walk)
    → IsChain sha256 w.prev_hash w.expected_seq rows
    → walk sha256 rows w ≡ walking (passed_all rows w)
unfolding walk
walk-IsChain sha256 [] w h = refl
walk-IsChain sha256 (r ∷ rows) w (s, p, c, h) =
    rw (check_row-right sha256 r w s p c) (walk-IsChain sha256 rows (passed r w) h)

-- What a result other than `valid` says of the row at which the walk stops.
abbrev pub Diagnoses : (Text → Text) → Text → ℕ → AuditLog → VerifyResult → Type 0
Diagnoses sha256 prev n row (valid count h) = ⊥
Diagnoses sha256 prev n row (broken s gap_in_seq e a) =
    (s ≡ row.seq) × (row.seq ≢ n) × (e ≡ decimal n) × (a ≡ decimal row.seq)
Diagnoses sha256 prev n row (broken s prev_hash_mismatch e a) =
    (s ≡ row.seq) × (row.seq ≡ n) × (row.prev_hash ≢ prev) × (e ≡ prev) × (a ≡ row.prev_hash)
Diagnoses sha256 prev n row (broken s hash_mismatch e a) =
    (s ≡ row.seq)
    × (row.seq ≡ n)
    × (row.prev_hash ≡ prev)
    × (row_hash sha256 row ≡ some e)
    × (e ≢ row.hash)
    × (a ≡ row.hash)
Diagnoses sha256 prev n row thrown =
    (row.seq ≡ n) × (row.prev_hash ≡ prev) × (row_hash sha256 row ≡ none)

abbrev Checked : (Text → Text) → AuditLog → Walk → Progress → Type 0
Checked sha256 row w (stopped r) = Diagnoses sha256 w.prev_hash w.expected_seq row r
Checked sha256 row w (walking v) =
    (row.seq ≡ w.expected_seq)
    × (row.prev_hash ≡ w.prev_hash)
    × (row_hash sha256 row ≡ some row.hash)
    × (v ≡ passed row w)

check_row-Checked :
    (sha256 : Text → Text) (row : AuditLog) (w : Walk)
    → Checked sha256 row w (check_row sha256 row w)
unfolding check_row check_hash
check_row-Checked sha256 row w = elim (Bool-cases (row.seq =? w.expected_seq)) [
  | inr gap ↦ rw gap (refl, different_seq gap, refl, refl)
  | inl s ↦ rw s (elim (Bool-cases (row.prev_hash == w.prev_hash)) [
    | inr mismatch ↦ rw mismatch (refl, same_seq s, different_text mismatch, refl, refl)
    | inl p ↦ rw p (elim (Option-cases (row_hash sha256 row)) [
      | inl e ↦ rw e (same_seq s, same_text p, e)
      | inr (h, e) ↦ rw e (elim (Bool-cases (h == row.hash)) [
        | inl same ↦ rw same (same_seq s, same_text p, e ∙ ap some (same_text same), refl)
        | inr other ↦ rw other (refl, same_seq s, same_text p, e, different_text other, refl)
      ])
    ])
  ])
]

-- The rows go on from the walk with a chain and then a row that does not extend it.
abbrev pub StopsAt : (Text → Text) → Walk → List AuditLog → VerifyResult → Type 0
StopsAt sha256 w rows r =
    (good : List AuditLog) × (bad : AuditLog) × (rest : List AuditLog) × (rows ≡ good ++ bad ∷ rest)
    × IsChain sha256 w.prev_hash w.expected_seq good
    × Diagnoses sha256 (end_hash w.prev_hash good) (w.expected_seq + length good) bad r

stopped-injective : {q r : VerifyResult} → stopped q ≡ stopped r → q ≡ r
stopped-injective e = cc

walking-injective : {v w : Walk} → walking v ≡ walking w → v ≡ w
walking-injective e = cc

StopsAt-after :
    (sha256 : Text → Text) (row : AuditLog) (rows : List AuditLog) (w : Walk) (r : VerifyResult)
    → row.seq ≡ w.expected_seq
    → row.prev_hash ≡ w.prev_hash
    → row_hash sha256 row ≡ some row.hash
    → StopsAt sha256 (passed row w) rows r
    → StopsAt sha256 w (row ∷ rows) r
StopsAt-after sha256 row rows w r s p h (good, bad, rest, split, chain, why) =
    let count : (w.expected_seq + 1 + length good ≡ w.expected_seq + suc (length good)) =
      omega arith in
    (
      row ∷ good,
      bad,
      rest,
      ap (λ xs. row ∷ xs) split,
      (s, p, h, chain),
      subst (λ n. Diagnoses sha256 (end_hash row.hash good) n bad r) count why,
    )

stopped-cases :
    (sha256 : Text → Text) (row : AuditLog) (rows : List AuditLog) (w : Walk) (r : VerifyResult)
    (c : Progress)
    → Checked sha256 row w c
    → ((v : Walk) → walk sha256 rows v ≡ stopped r → StopsAt sha256 v rows r)
    → and_then c (λ v. walk sha256 rows v) ≡ stopped r
    → StopsAt sha256 w (row ∷ rows) r
stopped-cases sha256 row rows w r (stopped q) why ih e =
    let here : Diagnoses sha256 w.prev_hash w.expected_seq row r =
      subst (Diagnoses sha256 w.prev_hash w.expected_seq row) (stopped-injective e) why in
    let count : (w.expected_seq ≡ w.expected_seq + 0) = omega arith in
    ([], row, rows, refl, tt, subst (λ n. Diagnoses sha256 w.prev_hash n row r) count here)
stopped-cases sha256 row rows w r (walking v) (s, p, h, is) ih e =
    StopsAt-after sha256 row rows w r s p h (subst (λ u. StopsAt sha256 u rows r) is (ih v e))

-- The walk that stops has passed a chain and stands at a row that does not extend it.
pub walk-stopped :
    (sha256 : Text → Text) (rows : List AuditLog) (w : Walk) (r : VerifyResult)
    → walk sha256 rows w ≡ stopped r
    → StopsAt sha256 w rows r
unfolding walk
walk-stopped sha256 [] w r e = cc
walk-stopped sha256 (row ∷ rows) w r e =
    stopped-cases sha256 row rows w r (check_row sha256 row w) (check_row-Checked sha256 row w)
      (λ v. walk-stopped sha256 rows v r) e

walking-cases :
    (sha256 : Text → Text) (row : AuditLog) (rows : List AuditLog) (w v : Walk) (c : Progress)
    → Checked sha256 row w c
    → ((u : Walk)
        → walk sha256 rows u ≡ walking v
        → IsChain sha256 u.prev_hash u.expected_seq rows × (v ≡ passed_all rows u))
    → and_then c (λ u. walk sha256 rows u) ≡ walking v
    → IsChain sha256 w.prev_hash w.expected_seq (row ∷ rows) × (v ≡ passed_all (row ∷ rows) w)
walking-cases sha256 row rows w v (stopped q) why ih e = cc
walking-cases sha256 row rows w v (walking u) (s, p, h, is) ih e =
    let (chain, end) =
      subst (λ x. IsChain sha256 x.prev_hash x.expected_seq rows × (v ≡ passed_all rows x)) is
        (ih u e) in
    ((s, p, h, chain), end)

-- The walk that goes through has passed a chain.
pub walk-walking :
    (sha256 : Text → Text) (rows : List AuditLog) (w v : Walk)
    → walk sha256 rows w ≡ walking v
    → IsChain sha256 w.prev_hash w.expected_seq rows × (v ≡ passed_all rows w)
unfolding walk
walk-walking sha256 [] w v e = (tt, sym (walking-injective e))
walk-walking sha256 (row ∷ rows) w v e =
    walking-cases sha256 row rows w v (check_row sha256 row w) (check_row-Checked sha256 row w)
      (λ u. walk-walking sha256 rows u v) e
