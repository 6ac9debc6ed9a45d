-- ===== src/Base/Text.antt =====
-- Byte strings: a `std::string` is the list of its bytes.
use Prim.Native.Nat.{ℕ}
use Prim.Native.Char.{code}
use Prim.Native.String.{String}
use mathlib.Core.Path.{◌≡◌, refl}
use mathlib.Core.Logic.{◌≢◌}
use mathlib.Core.Bool.{Bool, true, false, not, ◌&&◌}
use mathlib.Core.List.{List, [], ◌∷◌, ◌++◌}
use native.Mathlib.Omega.{arith}
use librediscxx.Base.Tests.{◌==◌}
use librediscxx.Base.Lists.{All}

abbrev pub Bytes : Type 0
Bytes = List ℕ

-- The bytes of an ASCII literal.
abbrev pub codes : String → Bytes
codes String.[] = []
codes (String.◌∷◌ c s) = code c ∷ codes s

unfoldable pub str_eq : Bytes → Bytes → Bool
str_eq [] [] = true
str_eq [] (y ∷ ys) = false
str_eq (x ∷ xs) [] = false
str_eq (x ∷ xs) (y ∷ ys) = (x == y) && str_eq xs ys

pub str_eq-eq : (xs ys : Bytes) → str_eq xs ys ≡ true → xs ≡ ys
unfolding str_eq
str_eq-eq [] [] h = refl
str_eq-eq [] (y ∷ ys) h = cc
str_eq-eq (x ∷ xs) [] h = cc
str_eq-eq (x ∷ xs) (y ∷ ys) h = ground (arith, str_eq-eq xs ys)

pub str_eq_refl : (xs : Bytes) → str_eq xs xs ≡ true
unfolding str_eq
str_eq_refl [] = refl
str_eq_refl (x ∷ xs) = ground (arith, str_eq_refl xs)

-- Does the text begin with the prefix (`memcmp` over the prefix's length, within bounds)?
unfoldable pub starts_with : Bytes → Bytes → Bool
starts_with [] s = true
starts_with (d ∷ ds) [] = false
starts_with (d ∷ ds) (c ∷ s) = (d == c) && starts_with ds s

pub starts_with-append : (d s : Bytes) → starts_with d (d ++ s) ≡ true
unfolding starts_with
starts_with-append [] s = refl
starts_with-append (x ∷ d) s = ground (arith, starts_with-append d s)

-- No byte of the text is `b`.
abbrev pub Lacks : ℕ → Bytes → Type 0
Lacks b = All (λ c. c ≢ b)

-- The test, for a given text.
abbrev pub lacks : ℕ → Bytes → Bool
lacks b [] = true
lacks b (c ∷ s) = not (c == b) && lacks b s

pub lacks-Lacks : (b : ℕ) (s : Bytes) → lacks b s ≡ true → Lacks b s
lacks-Lacks b [] h = tt
lacks-Lacks b (c ∷ s) h = (λ e. ground (arith, e), lacks-Lacks b s (ground (arith, h)))

pub All-append {ℓ κ} :
    {A : Type ℓ} (P : A → Type κ) (xs ys : List A) → All P xs → All P ys → All P (xs ++ ys)
All-append P [] ys hx hy = hy
All-append P (x ∷ xs) ys (p, hx) hy = (p, All-append P xs ys hx hy)
