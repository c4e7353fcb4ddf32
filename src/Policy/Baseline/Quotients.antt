-- ===== src/Policy/Baseline/Quotients.antt =====
-- Quotients of natural numbers, as apps/api/src/policy/baseline.service.ts computes with them.
use get_mcp.Base.{
  ℕ, suc, ◌+◌, ◌*◌, ◌/◌, ◌%◌, Bool, ◌++◌, ltb, ◌=?◌, if◌then◌else◌, Text, codes, decimal, padded,
}

pub record Ratio : Type 0 where
  pub num : ℕ
  pub den : ℕ

abbrev pub over : ℕ → ℕ → Ratio
over num den = record { num = num; den = den }

abbrev pub whole : ℕ → Ratio
whole n = over n 1

abbrev pub is_zero : Ratio → Bool
is_zero r = r.num =? 0

-- `Math.max(a, b)`
unfoldable pub greater_of : Ratio → Ratio → Ratio
greater_of a b = if ltb (a.num * b.den) (b.num * a.den) then b else a

-- `Math.max(0, Math.min(1, r))`
unfoldable pub at_most_one : Ratio → Ratio
at_most_one r = if ltb r.den r.num then whole 1 else r

abbrev power_of_ten : ℕ → ℕ
power_of_ten ℕ.zero = 1
power_of_ten (suc n) = 10 * power_of_ten n

-- `toFixed(places)`: the nearest decimal with that many places, the greater of two.
unfoldable pub fixed_text : ℕ → Ratio → Text
fixed_text places r =
    let n = (2 * r.num * power_of_ten places + r.den) / (2 * r.den) in
    decimal (n / power_of_ten places) ++ (codes "." ++ padded places (n % power_of_ten places))

-- `(r * 100).toFixed(1)`
unfoldable pub percent_text : Ratio → Text
percent_text r = fixed_text 1 (over (r.num * 100) r.den)
