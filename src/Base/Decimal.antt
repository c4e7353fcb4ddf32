-- ===== src/Base/Decimal.antt =====
-- Numbers in decimal: `String(n)`, and padded with zeros.
use Prim.Native.Nat.{ℕ, zero, suc, ◌+◌, ◌/◌, ◌%◌}
use mathlib.Core.List.{[], ◌∷◌, ◌++◌}
use get_mcp.Base.Tests.{ltb, if◌then◌else◌}
use get_mcp.Base.Int.{ℤ, pos, negsuc}
use get_mcp.Base.Strings.{Text}

unfoldable digits : ℕ → ℕ → Text
digits zero n = []
digits (suc fuel) n =
    let front = digits fuel (n / 10) in
    if ltb n 10 then (b'0' + n) ∷ [] else front ++ ((b'0' + n % 10) ∷ [])

-- A number has at most as many digits as it is, and at least one.
unfoldable pub decimal : ℕ → Text
unfolding digits
decimal n = digits (suc n) n

unfoldable pub decimal_of : ℤ → Text
decimal_of (pos n) = decimal n
decimal_of (negsuc n) = b'-' ∷ decimal (suc n)

-- `n` written with `width` digits, the leading ones dropped.
unfoldable pub padded : ℕ → ℕ → Text
padded zero n = []
padded (suc width) n = padded width (n / 10) ++ ((b'0' + n % 10) ∷ [])
