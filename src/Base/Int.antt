-- ===== src/Base/Int.antt =====
-- Signed integers over the native numbers, under the library's names. `negsuc n` is -(n + 1).
use Prim.Native.Nat.{ℕ, suc, ◌<◌, ◌+◌, ◌-◌, ◌%◌, ◌^◌, ◌≤◌}
use mathlib.Core.Bool.{Bool, true, false}
use mathlib.Core.Path.{◌≡◌, ap}
use mathlib.Core.Logic.{inl, inr}
use native.Mathlib.Omega.{arith}
use librediscxx.Base.Tests.{ltb, leb, ◌==◌, if◌then◌else◌, lt→ltb, le→leb, ==_iff, Bool-cases}

pub data ℤ : Type 0 where
  pos : ℕ → ℤ
  negsuc : ℕ → ℤ

abbrev pub pos_part : ℤ → ℕ
pos_part (pos n) = n
pos_part (negsuc n) = 0

abbrev pub neg_part : ℤ → ℕ
neg_part (pos n) = 0
neg_part (negsuc n) = suc n

-- a - b, as an integer.
abbrev pub sub_ℕ : ℕ → ℕ → ℤ
sub_ℕ a b = if leb b a then pos (a - b) else negsuc (b - a - 1)

infixl 65 ◌+ℤ◌
unfoldable pub ◌+ℤ◌ : ℤ → ℤ → ℤ
a +ℤ b = sub_ℕ (pos_part a + pos_part b) (neg_part a + neg_part b)

abbrev pub ltb_ℤ : ℤ → ℤ → Bool
ltb_ℤ a b = ltb (pos_part a + neg_part b) (pos_part b + neg_part a)

-- The integers of an `int64_t`.
abbrev pub int64_max : ℕ
int64_max = 2 ^ 63 - 1

abbrev pub IsInt64 : ℤ → Type 0
IsInt64 z = (pos_part z ≤ int64_max) × (neg_part z ≤ int64_max + 1)

-- A size cast to a 32-bit `int`, and the negation of an integer.
abbrev pub to_int : ℕ → ℤ
to_int n = let m = n % 2 ^ 32 in if ltb m (2 ^ 31) then pos m else negsuc (2 ^ 32 - m - 1)

abbrev pub neg_ℤ : ℤ → ℤ
neg_ℤ a = sub_ℕ (neg_part a) (pos_part a)

abbrev pub same_int : ℤ → ℤ → Bool
same_int (pos m) (pos n) = m == n
same_int (negsuc m) (negsuc n) = m == n
same_int _ _ = false

-- A size that fits is cast to itself.
pub to_int_lem : (n : ℕ) → n < 2 ^ 31 → to_int n ≡ pos n
to_int_lem n h = let e : n % 2 ^ 32 ≡ n = omega arith in rw (e, lt→ltb n (2 ^ 31) h)

pub pos_add : (m n : ℕ) → pos m +ℤ pos n ≡ pos (m + n)
unfolding ◌+ℤ◌
pos_add m n =
    let e : m + n - (0 + 0) ≡ m + n = omega arith in
    rw (le→leb (0 + 0) (m + n) (omega arith)) (ap pos e)

-- A cast never makes a size larger.
pub to_int-bound : (n : ℕ) → pos_part (to_int n) ≤ n
to_int-bound n = elim (Bool-cases (ltb (n % 2 ^ 32) (2 ^ 31))) [
  | inl e ↦ rw e (omega arith)
  | inr e ↦ rw e (omega arith)
]

pub same_int_lem : (a b : ℤ) → same_int a b ≡ true → a ≡ b
same_int_lem (pos m) (pos n) h = ap pos (ground (arith, ==_iff m n))
same_int_lem (negsuc m) (negsuc n) h = ap negsuc (ground (arith, ==_iff m n))
same_int_lem (pos m) (negsuc n) h = cc
same_int_lem (negsuc m) (pos n) h = cc
