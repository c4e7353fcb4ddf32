-- ===== src/Policy/Engine/Order.antt =====
-- `sortRules` of policy.engine.ts: by priority, then by creation time. `Array.prototype.sort` is
-- stable, so insertion before the first rule that is not smaller computes the same list.
use get_mcp.Base.{Bool, List, [], ◌∷◌, ltb, leb, ◌=?◌, if◌then◌else◌}
use get_mcp.Policy.Rule.{PolicyRule}

-- The comparison of `a` with `b` is not positive.
unfoldable pub not_after : PolicyRule → PolicyRule → Bool
not_after a b =
    if a.priority =? b.priority then leb a.created_at b.created_at else ltb a.priority b.priority

unfoldable pub insert_rule : PolicyRule → List PolicyRule → List PolicyRule
insert_rule r [] = r ∷ []
insert_rule r (s ∷ rules) = if not_after r s then r ∷ s ∷ rules else s ∷ insert_rule r rules

unfoldable pub sort_rules : List PolicyRule → List PolicyRule
sort_rules [] = []
sort_rules (r ∷ rules) = insert_rule r (sort_rules rules)
