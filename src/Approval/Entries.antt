-- ===== src/Approval/Entries.antt =====
-- The audit entries of held requests, over any sequence of the operations of
-- apps/api/src/approval/approval.service.ts.
use get_mcp.Base.{
  none, ℕ, suc, ◌≡◌, refl, sym, ◌∙◌, ap, inl, inr, ◌⊎◌, true, false, Option, some, List, [], ◌∷◌,
  if◌then◌else◌, Bool-cases, Text, ◌==◌, same_text, lookup,
}
use get_mcp.Approval.Pending.{is_pending, PendingRequest}
use get_mcp.Approval.Service.{Replay}
use get_mcp.Approval.Store.{Note, Db}
use get_mcp.Approval.Quorum.{Configs}
use get_mcp.Approval.Moves.{IsUnstored, Moves}
use get_mcp.Approval.History.{
  Op, apply_all, Creates, Leads, stay, then_on, create_on, apply_all-Leads,
}

-- The entries that name a request.
unfoldable pub count_notes : Text → List Note → ℕ
count_notes id [] = 0
count_notes id (n ∷ notes) =
    let rest = count_notes id notes in if n.id == id then suc rest else rest

-- The entries that a request should have: a pending one and one that does not exist none, a decided one
-- one.
abbrev pub due : Option PendingRequest → ℕ
due none = 0
due (some r) = if is_pending r.status then 0 else 1

-- An approved request whose outcome the database refused has no entry.
abbrev pub IsUnnoted : (PendingRequest → Replay) → Text → Db → Type 0
IsUnnoted replay k db =
    (r : PendingRequest) × (lookup k db.requests ≡ some r)
    × IsUnstored replay r
    × (count_notes k db.notes ≡ 0)

abbrev pub IsNoted : (PendingRequest → Replay) → Db → Type 0
IsNoted replay db =
    (k : Text) → (count_notes k db.notes ≡ due (lookup k db.requests)) ⊎ IsUnnoted replay k db

count_notes-other :
    (k id : Text) (n : Note) (notes : List Note)
    → n.id ≡ id
    → (id == k) ≡ false
    → count_notes k (n ∷ notes) ≡ count_notes k notes
unfolding count_notes
count_notes-other k id n notes names other =
    let apart : ((n.id == k) ≡ false) = ap (λ x. x == k) names ∙ other in rw apart refl

count_notes-same :
    (k id : Text) (n : Note) (notes : List Note)
    → n.id ≡ id
    → (id == k) ≡ true
    → count_notes k (n ∷ notes) ≡ suc (count_notes k notes)
unfolding count_notes
count_notes-same k id n notes names same =
    let own : ((n.id == k) ≡ true) = ap (λ x. x == k) names ∙ same in rw own refl

due-pending : (r : PendingRequest) → is_pending r.status ≡ true → due (some r) ≡ 0
due-pending r h = rw h refl

due-decided : (r : PendingRequest) → is_pending r.status ≡ false → due (some r) ≡ suc 0
due-decided r h = rw h refl

module _ (replay : PendingRequest → Replay) where
  -- A request that is as it was, with as many entries.
  same-IsNoted :
      (k : Text) (a b : Db)
      → lookup k b.requests ≡ lookup k a.requests
      → count_notes k b.notes ≡ count_notes k a.notes
      → (count_notes k a.notes ≡ due (lookup k a.requests)) ⊎ IsUnnoted replay k a
      → (count_notes k b.notes ≡ due (lookup k b.requests)) ⊎ IsUnnoted replay k b
  same-IsNoted k a b looks counts (inl h) = inl (counts ∙ (h ∙ ap due (sym looks)))
  same-IsNoted k a b looks counts (inr (r, is, refused, none_yet)) =
      inr (r, looks ∙ is, refused, counts ∙ none_yet)

  -- A pending request has no entry.
  pending-IsNoted :
      (k : Text) (a : Db) (q : PendingRequest)
      → lookup k a.requests ≡ some q
      → is_pending q.status ≡ true
      → (count_notes k a.notes ≡ due (lookup k a.requests)) ⊎ IsUnnoted replay k a
      → count_notes k a.notes ≡ 0
  pending-IsNoted k a q is waits (inl h) = h ∙ (ap due is ∙ due-pending q waits)
  pending-IsNoted k a q is waits (inr (r, at, (done, refused), none_yet)) = none_yet

  decided-IsNoted :
      (k id : Text) (a b : Db) (q' : PendingRequest) (n : Note)
      → (id == k) ≡ true
      → lookup k b.requests ≡ some q'
      → is_pending q'.status ≡ false
      → n.id ≡ id
      → count_notes k a.notes ≡ 0
      → (b.notes ≡ n ∷ a.notes) ⊎ ((b.notes ≡ a.notes) × IsUnstored replay q')
      → (count_notes k b.notes ≡ due (lookup k b.requests)) ⊎ IsUnnoted replay k b
  decided-IsNoted k id a b q' n same after final names none_yet (inl notes) = inl (
      ap (count_notes k) notes
      ∙ (count_notes-same k id n a.notes names same
          ∙ (ap suc none_yet ∙ (sym (due-decided q' final) ∙ ap due (sym after)))))
  decided-IsNoted k id a b q' n same after final names none_yet (inr (notes, refused)) =
      inr (q', after, refused, ap (count_notes k) notes ∙ none_yet)

  -- The entries of another request.
  other-count :
      (k id : Text) (a b : Db) (q' : PendingRequest) (n : Note)
      → (id == k) ≡ false
      → n.id ≡ id
      → (b.notes ≡ n ∷ a.notes) ⊎ ((b.notes ≡ a.notes) × IsUnstored replay q')
      → count_notes k b.notes ≡ count_notes k a.notes
  other-count k id a b q' n other names (inl notes) =
      ap (count_notes k) notes ∙ count_notes-other k id n a.notes names other
  other-count k id a b q' n other names (inr (notes, refused)) = ap (count_notes k) notes

  Moves-IsNoted : (id : Text) (a b : Db) → Moves replay id a b → IsNoted replay a → IsNoted replay b
  Moves-IsNoted id a b (inl (same, notes)) h k =
      same-IsNoted k a b (ap (lookup k) same) (ap (count_notes k) notes) (h k)
  Moves-IsNoted id a b (inr (q, q', n, at, waits, final, looks, names, notes)) h k =
      elim (Bool-cases (id == k)) [
        | inr other ↦
            same-IsNoted k a b (looks k ∙ rw other refl)
              (other-count k id a b q' n other names notes) (h k)
        | inl same ↦
            let after : lookup k b.requests ≡ some q' = looks k ∙ rw same refl in
            let before : lookup k a.requests ≡ some q =
              ap (λ x. lookup x a.requests) (sym (same_text same)) ∙ at in
            decided-IsNoted k id a b q' n same after final names
              (pending-IsNoted k a q before waits (h k)) notes
      ]

  -- A request that does not exist has no entry.
  absent-IsNoted :
      (k : Text) (a : Db)
      → lookup k a.requests ≡ none
      → (count_notes k a.notes ≡ due (lookup k a.requests)) ⊎ IsUnnoted replay k a
      → count_notes k a.notes ≡ 0
  absent-IsNoted k a free (inl h) = h ∙ ap due free
  absent-IsNoted k a free (inr (r, at, refused, none_yet)) = none_yet

  Creates-IsNoted : (id : Text) (a b : Db) → Creates id a b → IsNoted replay a → IsNoted replay b
  Creates-IsNoted id a b (r, free, waits, looks, notes) h k = elim (Bool-cases (id == k)) [
    | inr other ↦ same-IsNoted k a b (looks k ∙ rw other refl) (ap (count_notes k) notes) (h k)
    | inl same ↦
        let after : lookup k b.requests ≡ some r = looks k ∙ rw same refl in
        let before : lookup k a.requests ≡ none =
          ap (λ x. lookup x a.requests) (sym (same_text same)) ∙ free in
        inl (
          ap (count_notes k) notes
          ∙ (absent-IsNoted k a before (h k) ∙ (sym (due-pending r waits) ∙ ap due (sym after))))
  ]

  Leads-IsNoted : (a b : Db) → Leads replay a b → IsNoted replay a → IsNoted replay b
  Leads-IsNoted a b (stay _) h = h
  Leads-IsNoted a b (then_on id _ b' _ m k) h = Leads-IsNoted b' b k (Moves-IsNoted id a b' m h)
  Leads-IsNoted a b (create_on id _ b' _ m k) h = Leads-IsNoted b' b k (Creates-IsNoted id a b' m h)

-- Say that every decided request has exactly one audit entry and no other request has any, but that an
-- approved request whose outcome the database refuses to store may have none. If this holds, it holds
-- after any sequence of operations, creations included. No other query fails.
pub apply_all-IsNoted :
    (configs : Configs) (replay : PendingRequest → Replay) (ops : List Op) (db : Db)
    → IsNoted replay db
    → IsNoted replay (apply_all configs replay ops db)
apply_all-IsNoted configs replay ops db h =
    Leads-IsNoted replay db _ (apply_all-Leads configs replay ops db) h
