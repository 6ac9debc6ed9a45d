-- ===== src/Redis2P/State/Spreading.antt =====
-- The hosts chosen for a key stand in different groups (`__get_key_client` of src/redis_partition.cpp).
use librediscxx.Base.{
  ℕ, zero, suc, ◌+◌, ◌*◌, ◌/◌, ◌%◌, ◌^◌, ◌≤◌, ◌<◌, ◌≡◌, ◌≢◌, ap, sym, ◌∙◌, List, [], ◌∷◌, Bytes,
  All, le_or_lt, inl, inr, arith,
}
use native.Mathlib.Nat.{mul-le-mul_left, div-add-mod}
use librediscxx.Redis2P.State.{Redis2P, Networks, host_num, get_key_client, rotated}
use librediscxx.Redis2P.State.Serving.{Grouped, host_num_pos}

-- No host stands twice in the list.
abbrev pub Distinct : List ℕ → Type 0
Distinct [] = Unit
Distinct (i ∷ is) = All (λ j. i ≢ j) is × Distinct is

mul-lt : (n a b : ℕ) → 0 < n → a < b → n * a + n ≤ n * b
mul-lt n a b pos less = let step : n * suc a ≤ n * b = mul-le-mul_left n less in grind arith

mul_cancel : (n a b : ℕ) → 0 < n → n * a ≡ n * b → a ≡ b
mul_cancel n a b pos e = elim (le_or_lt a b) [
  | inl le ↦ elim (le_or_lt b a) [
    | inl ge ↦ omega arith
    | inr lt ↦ absurd (omega (arith, mul-lt n a b pos lt))
  ]
  | inr gt ↦ absurd (omega (arith, mul-lt n b a pos gt))
]

mod-ne : (g a b : ℕ) → 0 < g → a < b → b < a + g → a % g ≢ b % g
mod-ne g a b pos lt close e = elim (le_or_lt (b / g) (a / g)) [
  | inl le ↦
      let step : g * (b / g) ≤ g * (a / g) = mul-le-mul_left g le in
      omega (arith, div-add-mod a g, div-add-mod b g)
  | inr more ↦ omega (arith, div-add-mod a g, div-add-mod b g, mul-lt g (a / g) (b / g) pos more)
]

index-ne :
    (n g h a b : ℕ)
    → 0 < n
    → 0 < g
    → a < b
    → b < a + g
    → b < 2 ^ 64
    → (h + n * (a % 2 ^ 64 % g)) ≢ (h + n * (b % 2 ^ 64 % g))
index-ne n g h a b n_pos g_pos lt close fits e =
    let a' : a % 2 ^ 64 ≡ a = omega arith in
    let b' : b % 2 ^ 64 ≡ b = omega arith in
    let e' : h + n * (a % g) ≡ h + n * (b % g) =
      ap (λ x. h + n * (x % g)) (sym a') ∙ e ∙ ap (λ x. h + n * (x % g)) b' in
    mod-ne g a b g_pos lt close (mul_cancel n (a % g) (b % g) n_pos (omega arith))

rotated-ne :
    (left i i₀ seed h : ℕ) (m : Redis2P)
    → Grouped m
    → i₀ < i
    → i + left ≤ i₀ + m.groups
    → seed + i + left ≤ 2 ^ 64
    → All (λ j. (h + host_num m * ((seed + i₀) % 2 ^ 64 % m.groups)) ≢ j) (rotated left i seed h m)
unfolding rotated
rotated-ne zero i i₀ seed h m g lt within fits = tt
rotated-ne (suc left) i i₀ seed h m g lt within fits = (
  index-ne (host_num m) m.groups h (seed + i₀) (seed + i) (host_num_pos m g) g.some_group
      (omega arith) (omega arith) (omega arith),
  rotated-ne left (suc i) i₀ seed h m g (omega arith) (omega arith) (omega arith),
)

rotated-Distinct :
    (left i seed h : ℕ) (m : Redis2P)
    → Grouped m
    → left ≤ m.groups
    → seed + i + left ≤ 2 ^ 64
    → Distinct (rotated left i seed h m)
unfolding rotated
rotated-Distinct zero i seed h m g within fits = tt
rotated-Distinct (suc left) i seed h m g within fits = (
  rotated-ne left (suc i) i seed h m g (omega arith) (omega arith) (omega arith),
  rotated-Distinct left (suc i) seed h m g (omega arith) (omega arith),
)

-- No host is chosen twice for a key, when there is at least one group, no more groups than clients, and
-- the number of the thread is at least the number of groups below 2^64.
pub get_key_client-Distinct :
    (key : Bytes) (m : Redis2P) (ns : Networks)
    → Grouped m
    → ns.thread_id + m.groups ≤ 2 ^ 64
    → Distinct (get_key_client key m ns)
unfolding get_key_client
get_key_client-Distinct key m ns g fits =
    rotated-Distinct m.groups 0 ns.thread_id _ m g (omega arith) (omega arith)
