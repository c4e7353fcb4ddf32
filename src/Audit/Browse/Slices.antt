-- ===== src/Audit/Browse/Slices.antt =====
-- The start and the rest of a list, in which apps/api/src/audit/audit.controller.ts gives the log.
use get_mcp.Base.{
  ℕ, zero, suc, ◌+◌, ◌<◌, ◌≤◌, ◌≡◌, refl, ap, List, [], ◌∷◌, ◌++◌, length, take, drop, arith,
}
use native.Mathlib.Numerals.{unary_clauses}

module _ {ℓ} {A : Type ℓ} where
  pub take-drop : (n : ℕ) (rows : List A) → take n rows ++ drop n rows ≡ rows
  take-drop zero rows = refl
  take-drop (suc n) [] = refl
  take-drop (suc n) (r ∷ rows) = ap (λ rest. r ∷ rest) (take-drop n rows)

  pub take-all : (n : ℕ) (rows : List A) → length rows ≤ n → take n rows ≡ rows
  take-all zero [] h = refl
  take-all zero (r ∷ rows) h = ground arith
  take-all (suc n) [] h = refl
  take-all (suc n) (r ∷ rows) h = ap (λ rest. r ∷ rest) (take-all n rows (omega arith))

  pub take-take : (n : ℕ) (rows : List A) → take n (take (suc n) rows) ≡ take n rows
  take-take zero rows = refl
  take-take (suc n) [] = refl
  take-take (suc n) (r ∷ rows) = ap (λ rest. r ∷ rest) (take-take n rows)

  pub length-take : (n : ℕ) (rows : List A) → n < length rows → n < length (take (suc n) rows)
  length-take zero [] h = h
  length-take zero (r ∷ rows) h = omega arith
  length-take (suc n) [] h = ground arith
  length-take (suc n) (r ∷ rows) h = omega (arith, length-take n rows (omega arith))

  pub take-add : (k n : ℕ) (rows : List A) → take (k + n) rows ≡ take k rows ++ take n (drop k rows)
  take-add zero n rows = let same : 0 + n ≡ n = omega arith in rw same refl
  take-add (suc k) zero [] = simp unary_clauses refl
  take-add (suc k) (suc n) [] = simp unary_clauses refl
  take-add (suc k) n (r ∷ rows) =
      let next : suc k + n ≡ suc (k + n) = omega arith in
      rw next (ap (λ rest. r ∷ rest) (take-add k n rows))

  pub drop-drop : (k n : ℕ) (rows : List A) → drop n (drop k rows) ≡ drop (k + n) rows
  drop-drop zero n rows = let same : 0 + n ≡ n = omega arith in rw same refl
  drop-drop (suc k) zero [] = simp unary_clauses refl
  drop-drop (suc k) (suc n) [] = simp unary_clauses refl
  drop-drop (suc k) n (r ∷ rows) =
      let next : suc k + n ≡ suc (k + n) = omega arith in rw next (drop-drop k n rows)

  pub length-le_drop : (k : ℕ) (rows : List A) → length rows ≤ k + length (drop k rows)
  length-le_drop zero rows = omega arith
  length-le_drop (suc k) [] = omega arith
  length-le_drop (suc k) (r ∷ rows) = omega (arith, length-le_drop k rows)

  pub length-drop_some :
      (k : ℕ) (rows : List A) → 0 < length (drop k rows) → k + length (drop k rows) ≡ length rows
  length-drop_some zero rows h = omega arith
  length-drop_some (suc k) [] h = ground arith
  length-drop_some (suc k) (r ∷ rows) h = omega (arith, length-drop_some k rows h)
