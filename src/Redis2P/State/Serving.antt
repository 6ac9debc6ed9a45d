-- ===== src/Redis2P/State/Serving.antt =====
-- The hosts that serve a key (`__get_key_client` of src/redis_partition.cpp): they exist, and all hold
-- the key's partition.
use librediscxx.Base.{
  ℕ, zero, suc, ◌+◌, ◌*◌, ◌%◌, ◌^◌, ◌≤◌, ◌<◌, ◌≡◌, ◌∙◌, List, [], ◌∷◌, Bytes, length, arith,
}
use native.Mathlib.Nat.{
  mod-lt, mod-eq_of_lt, mul-le-mul_left, div-mul-le_self, le-div_iff_mul-le, add-mul-mod_self_left,
}
use librediscxx.Redis2P.State.{
  Redis2P, Networks, host_num, get_key_host_index, get_key_client, rotated,
}

-- The groups divide the hosts as `inner_init` leaves them.
pub record Grouped (m : Redis2P) : Type 0 where
  pub some_group : 0 < m.groups
  pub enough : m.groups ≤ length m.clients

-- The host is one of the clients, and its place in its group is `place`.
pub Serves : Redis2P → ℕ → ℕ → Type 0
Serves m place i = (i < length m.clients) × (i % host_num m ≡ place)

-- `n` hosts in a row, each of which serves the place.
pub data AllServe (m : Redis2P) (place : ℕ) : ℕ → List ℕ → Type 0 where
  none_left : AllServe m place 0 []
  serve :
      {n i : ℕ} {is : List ℕ}
      → Serves m place i
      → AllServe m place n is
      → AllServe m place (suc n) (i ∷ is)

pub host_num_pos : (m : Redis2P) → Grouped m → 0 < host_num m
host_num_pos m g = (le-div_iff_mul-le g.some_group).1 (omega arith)

below : (h n k g l : ℕ) → h < n → k < g → n * g ≤ l → h + n * k < l
below h n k g l h_lt k_lt fits =
    let step : n * suc k ≤ n * g = mul-le-mul_left n k_lt in omega arith

index-Serves :
    (m : Redis2P)
    → Grouped m
    → (h k : ℕ) → h < host_num m
    → Serves m h (h + host_num m * (k % m.groups))
unfolding Serves
index-Serves m g h k h_lt = (
  below h (host_num m) (k % m.groups) m.groups (length m.clients) h_lt (mod-lt k (g.some_group))
      (div-mul-le_self (length m.clients) m.groups),
  add-mul-mod_self_left h (host_num m) (k % m.groups) ∙ mod-eq_of_lt h_lt,
)

rotated-AllServe :
    (left i seed h : ℕ) (m : Redis2P)
    → Grouped m
    → h < host_num m
    → AllServe m h left (rotated left i seed h m)
unfolding rotated
rotated-AllServe zero i seed h m g h_lt = none_left
rotated-AllServe (suc left) i seed h m g h_lt =
    serve (index-Serves m g h ((seed + i) % 2 ^ 64) h_lt)
      (rotated-AllServe left (suc i) seed h m g h_lt)

-- When there is at least one group and no more groups than clients, the hosts chosen for a key are as
-- many as the groups, each of them is a client of the object, and the place of each within its group is
-- the one that the key's hash gives, whichever thread asks.
pub get_key_client-AllServe :
    (key : Bytes) (m : Redis2P) (ns : Networks)
    → Grouped m
    → AllServe m (get_key_host_index key m) m.groups (get_key_client key m ns)
unfolding get_key_client get_key_host_index
get_key_client-AllServe key m ns g =
    rotated-AllServe m.groups 0 ns.thread_id (m.hash_fn key % host_num m) m g
      (mod-lt (m.hash_fn key) (host_num_pos m g))
