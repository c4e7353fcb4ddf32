-- ===== src/Policy/Engine/Sorting.antt =====
-- The order of evaluation: `sortRules` of policy.engine.ts.
use mathlib.Core.List.{Memᴰ, Perm}
use mathlib.Core.List.Perm
use get_mcp.Base.{
  ◌≡◌, ◌≤◌, ◌<◌, ◌⊎◌, inl, inr, refl, true, false, List, [], ◌∷◌, arith, Bool-cases, All,
}
use get_mcp.Policy.Rule.{PolicyRule}
use get_mcp.Policy.Engine.Order.{not_after, insert_rule, sort_rules}

insert_rule-mem_self : (r : PolicyRule) (rules : List PolicyRule) → Memᴰ r (insert_rule r rules)
unfolding insert_rule
insert_rule-mem_self r [] = Memᴰ.head refl
insert_rule-mem_self r (s ∷ rules) = elim (Bool-cases (not_after r s)) [
  | inl here ↦ rw here (Memᴰ.head refl)
  | inr later ↦ rw later (Memᴰ.tail (insert_rule-mem_self r rules))
]

insert_rule-mem :
    (r b : PolicyRule) (rules : List PolicyRule) → Memᴰ b rules → Memᴰ b (insert_rule r rules)
unfolding insert_rule
insert_rule-mem r b [] h = elim h [ ]
insert_rule-mem r b (s ∷ rules) (Memᴰ.head e) = elim (Bool-cases (not_after r s)) [
  | inl here ↦ rw here (Memᴰ.tail (Memᴰ.head e))
  | inr later ↦ rw later (Memᴰ.head e)
]
insert_rule-mem r b (s ∷ rules) (Memᴰ.tail h) = elim (Bool-cases (not_after r s)) [
  | inl here ↦ rw here (Memᴰ.tail (Memᴰ.tail h))
  | inr later ↦ rw later (Memᴰ.tail (insert_rule-mem r b rules h))
]

pub sort_rules-mem :
    (b : PolicyRule) (rules : List PolicyRule) → Memᴰ b rules → Memᴰ b (sort_rules rules)
unfolding sort_rules
sort_rules-mem b [] h = elim h [ ]
sort_rules-mem b (r ∷ rules) (Memᴰ.head e) = rw e (insert_rule-mem_self r (sort_rules rules))
sort_rules-mem b (r ∷ rules) (Memᴰ.tail h) =
    insert_rule-mem r b (sort_rules rules) (sort_rules-mem b rules h)

-- `a` is evaluated before `b`, or their order is left as it was.
abbrev pub Precedes : PolicyRule → PolicyRule → Type 0
Precedes a b =
    (a.priority < b.priority) ⊎ ((a.priority ≡ b.priority) × (a.created_at ≤ b.created_at))

not_after_iff_true : (a b : PolicyRule) → not_after a b ≡ true → Precedes a b
unfolding not_after
not_after_iff_true a b h = ground arith

not_after_iff_false : (a b : PolicyRule) → not_after a b ≡ false → Precedes b a
unfolding not_after
not_after_iff_false a b h = ground arith

Precedes-trans : (a b c : PolicyRule) → Precedes a b → Precedes b c → Precedes a c
Precedes-trans a b c p q = ground arith

-- Each rule precedes all that follow it.
abbrev pub IsOrdered : List PolicyRule → Type 0
IsOrdered [] = Unit
IsOrdered (r ∷ rules) = All (Precedes r) rules × IsOrdered rules

All-Precedes :
    (a b : PolicyRule) (rules : List PolicyRule)
    → Precedes a b
    → All (Precedes b) rules
    → All (Precedes a) rules
All-Precedes a b [] p h = tt
All-Precedes a b (r ∷ rules) p (q, h) = (Precedes-trans a b r p q, All-Precedes a b rules p h)

All-insert_rule :
    (a r : PolicyRule) (rules : List PolicyRule)
    → Precedes a r
    → All (Precedes a) rules
    → All (Precedes a) (insert_rule r rules)
unfolding insert_rule
All-insert_rule a r [] p h = (p, tt)
All-insert_rule a r (s ∷ rules) p (q, h) = elim (Bool-cases (not_after r s)) [
  | inl here ↦ rw here (p, (q, h))
  | inr later ↦ rw later (q, All-insert_rule a r rules p h)
]

insert_rule-IsOrdered :
    (r : PolicyRule) (rules : List PolicyRule) → IsOrdered rules → IsOrdered (insert_rule r rules)
unfolding insert_rule
insert_rule-IsOrdered r [] h = (tt, tt)
insert_rule-IsOrdered r (s ∷ rules) (q, h) = elim (Bool-cases (not_after r s)) [
  | inl here ↦
      let p = not_after_iff_true r s here in rw here ((p, All-Precedes r s rules p q), (q, h))
  | inr later ↦
      rw later (
        All-insert_rule s r rules (not_after_iff_false r s later) q,
        insert_rule-IsOrdered r rules h,
      )
]

insert_rule-perm :
    (r : PolicyRule) (rules : List PolicyRule) → Perm (insert_rule r rules) (r ∷ rules)
unfolding insert_rule
insert_rule-perm r [] = Perm.refl (r ∷ [])
insert_rule-perm r (s ∷ rules) = elim (Bool-cases (not_after r s)) [
  | inl here ↦ rw here (Perm.refl (r ∷ s ∷ rules))
  | inr later ↦ rw later (Perm.trans (Perm.cons s (insert_rule-perm r rules)) (Perm.swap r s rules))
]

sort_rules-perm : (rules : List PolicyRule) → Perm (sort_rules rules) rules
unfolding sort_rules
sort_rules-perm [] = Perm.refl []
sort_rules-perm (r ∷ rules) =
    Perm.trans (insert_rule-perm r (sort_rules rules)) (Perm.cons r (sort_rules-perm rules))

sort_rules-IsOrdered : (rules : List PolicyRule) → IsOrdered (sort_rules rules)
unfolding sort_rules
sort_rules-IsOrdered [] = tt
sort_rules-IsOrdered (r ∷ rules) =
    insert_rule-IsOrdered r (sort_rules rules) (sort_rules-IsOrdered rules)

-- The rules that are evaluated are the rules given, by ascending priority and, within one priority,
-- from the oldest to the newest.
pub sort_rules_lem :
    (rules : List PolicyRule) → Perm (sort_rules rules) rules × IsOrdered (sort_rules rules)
sort_rules_lem rules = (sort_rules-perm rules, sort_rules-IsOrdered rules)
