-- ===== src/RedisBase/Helpers/Maps.antt =====
-- `std::map` of strings as `hgetall` fills it (src/redis_base.cpp).
use librediscxx.Base.{
  ◌≡◌, refl, ◌∙◌, Bool, true, false, List, [], ◌∷◌, Option, none, some, Bytes, if◌then◌else◌, arith,
}
use librediscxx.RedisBase.Helpers.{less, insert, insert_all}

less_irrefl : (s : Bytes) → less s s ≡ false
unfolding less
less_irrefl [] = refl
less_irrefl (c ∷ s) = ground (arith, less_irrefl s)

less_trans : (s t u : Bytes) → less s t ≡ true → less t u ≡ true → less s u ≡ true
unfolding less
less_trans s t [] h k = cc
less_trans s [] (e ∷ u) h k = cc
less_trans [] (d ∷ t) (e ∷ u) h k = refl
less_trans (c ∷ s) (d ∷ t) (e ∷ u) h k = ground (arith, less_trans s t u)

less_total : (s t : Bytes) → less s t ≡ false → less t s ≡ false → s ≡ t
unfolding less
less_total [] [] h k = refl
less_total [] (d ∷ t) h k = cc
less_total (c ∷ s) [] h k = cc
less_total (c ∷ s) (d ∷ t) h k = ground (arith, less_total s t)

-- Two keys that a `std::map` takes for one.
unfoldable pub same : Bytes → Bytes → Bool
same s t = if less s t then false else if less t s then false else true

same_iff : (s t : Bytes) → same s t ≡ true → s ≡ t
unfolding same
same_iff s t h = ground (arith, less_total s t)

same_refl : (s : Bytes) → same s s ≡ true
unfolding same
same_refl s = rw (less_irrefl s) refl

less→same : (s t : Bytes) → less s t ≡ true → same s t ≡ false
unfolding same
less→same s t h = rw h refl

less→same_sym : (s t : Bytes) → less s t ≡ true → same t s ≡ false
unfolding same
less→same_sym s t h = ground arith

-- The value of the first pair for a key.
pub lookup : Bytes → List (Bytes × Bytes) → Option Bytes
lookup k [] = none
lookup k ((j, v) ∷ m) = if same j k then some v else lookup k m

abbrev pub Above : Bytes → List (Bytes × Bytes) → Type 0
Above k [] = Unit {0}
Above k ((j, v) ∷ m) = (less k j ≡ true) × Above k m

-- The keys increase.
abbrev pub IsOrdered : List (Bytes × Bytes) → Type 0
IsOrdered [] = Unit {0}
IsOrdered ((k, v) ∷ m) = Above k m × IsOrdered m

-- The first value if there is one, or else the second.
abbrev pub first : Option Bytes → Option Bytes → Option Bytes
first none o = o
first (some v) o = some v

lookup-none : (k : Bytes) (m : List (Bytes × Bytes)) → Above k m → lookup k m ≡ none
unfolding lookup
lookup-none k [] a = refl
lookup-none k ((j, v) ∷ m) a = rw (less→same_sym k j a.0) (lookup-none k m a.1)

Above-trans : (k j : Bytes) (m : List (Bytes × Bytes)) → less k j ≡ true → Above j m → Above k m
Above-trans k j [] h a = tt
Above-trans k j ((i, v) ∷ m) h a = (less_trans k j i h a.0, Above-trans k j m h a.1)

Above-insert :
    (i k v : Bytes) (m : List (Bytes × Bytes))
    → less i k ≡ true
    → Above i m
    → Above i (insert (k, v) m)
unfolding insert
Above-insert i k v [] h a = (h, tt)
Above-insert i k v ((j, u) ∷ m) h a = ground (arith, Above-insert i k v m h)

insert-IsOrdered :
    (k v : Bytes) (m : List (Bytes × Bytes)) → IsOrdered m → IsOrdered (insert (k, v) m)
unfolding insert
insert-IsOrdered k v [] o = (tt, tt)
insert-IsOrdered k v ((j, u) ∷ m) o =
    ground (arith, insert-IsOrdered k v m, Above-insert j k v m, Above-trans k j m)

lookup-insert :
    (i k v : Bytes) (m : List (Bytes × Bytes))
    → IsOrdered m
    → lookup i (insert (k, v) m) ≡ (if same k i then first (lookup k m) (some v) else lookup i m)
unfolding insert lookup
lookup-insert i k v [] o = refl
lookup-insert i k v ((j, u) ∷ m) o = ground (
  arith,
  lookup-insert i k v m o.1,
  lookup-none k m,
  Above-trans k j m,
  less→same j k,
  less→same_sym k j,
  same_iff k i,
  same_iff j i,
  same_iff j k,
  less_total j k,
  same_refl k,
)

-- A `std::map` that `hgetall` fills has its keys in increasing order, and for each key the value that it
-- had before, or else the value of the first pair with that key.
pub insert_all_lem :
    (ps m : List (Bytes × Bytes))
    → IsOrdered m
    → IsOrdered (insert_all ps m)
      × ((k : Bytes) → lookup k (insert_all ps m) ≡ first (lookup k m) (lookup k ps))
unfolding insert_all lookup
insert_all_lem [] m o = (o, λ k. ground arith)
insert_all_lem ((k, v) ∷ ps) m o =
    let (ordered, found) = insert_all_lem ps (insert (k, v) m) (insert-IsOrdered k v m o) in
    (ordered, λ i. found i ∙ ground (arith, lookup-insert i k v m o, same_iff k i))
