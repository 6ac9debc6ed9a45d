-- ===== src/Base/Counts.antt =====
-- How often a number stands in a list.
use Prim.Native.Nat.{ℕ, ◌+◌}
use mathlib.Core.Path.{◌≡◌}
use mathlib.Core.List.{List, [], ◌∷◌, ◌++◌}
use librediscxx.Base.Tests.{◌==◌, if◌then◌else◌}
use native.Mathlib.Omega.{arith}

abbrev pub count : ℕ → List ℕ → ℕ
count r [] = 0
count r (p ∷ ps) = (if p == r then 1 else 0) + count r ps

pub count-append : (r : ℕ) (xs ys : List ℕ) → count r (xs ++ ys) ≡ count r xs + count r ys
count-append r [] ys = omega arith
count-append r (x ∷ xs) ys = omega (arith, count-append r xs ys)
