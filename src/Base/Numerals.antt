-- ===== src/Base/Numerals.antt =====
-- Decimal numerals as texts.
use Prim.Native.Nat.{ℕ, ◌+◌, ◌-◌, ◌*◌, ◌≤◌}
use mathlib.Core.Bool.{Bool, ◌&&◌}
use native.Mathlib.Omega.{arith}
use mathlib.Core.List.{[], ◌∷◌}
use iolink.Base.Tests.{leb}
use iolink.Base.Lists.{Text}

abbrev pub is_digit : ℕ → Bool
is_digit c = leb 48 c && leb c 57

abbrev pub value_from : ℕ → Text → ℕ
value_from n [] = n
value_from n (c ∷ s) = value_from (n * 10 + (c - 48)) s

-- `strconv.Atoi` and `strconv.ParseUint` on digits.
unfoldable pub value : Text → ℕ
value s = value_from 0 s

pub value_from-le : (n : ℕ) (s : Text) → n ≤ value_from n s
value_from-le n [] = omega arith
value_from-le n (c ∷ s) = omega (arith, value_from-le (n * 10 + (c - 48)) s)
