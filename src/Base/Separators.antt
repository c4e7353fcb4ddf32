-- ===== src/Base/Separators.antt =====
-- Texts that are joined by a separator which they do not hold.
use Prim.Native.Nat.{ℕ}
use mathlib.Core.Path.{◌≡◌, refl}
use mathlib.Core.Logic.{◌≢◌}
use mathlib.Core.List.{List, [], ◌∷◌, ◌++◌}
use get_mcp.Base.Lists.{All}

abbrev pub Lacks : ℕ → List ℕ → Type 0
Lacks c s = All (λ d. d ≢ c) s

pub split_at :
    (c : ℕ) (s s' t t' : List ℕ)
    → Lacks c s
    → Lacks c s'
    → s ++ c ∷ t ≡ s' ++ c ∷ t'
    → (s ≡ s') × (t ≡ t')
split_at c [] [] t t' h h' e = (refl, cc)
split_at c [] (d ∷ s') t t' h (n, h') e = absurd (n (cc))
split_at c (d ∷ s) [] t t' (n, h) h' e = absurd (n (cc))
split_at c (d ∷ s) (d' ∷ s') t t' (n, h) (n', h') e =
    let (same, rest) = split_at c s s' t t' h h' (cc) in (cc, rest)
