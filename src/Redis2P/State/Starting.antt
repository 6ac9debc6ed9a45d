-- ===== src/Redis2P/State/Starting.antt =====
-- The groups that `inner_init` makes (src/redis_partition.cpp).
use librediscxx.Base.{
  ℕ, suc, ◌/◌, ◌%◌, ◌≤◌, ◌<◌, ◌≡◌, refl, ap, sym, subst, ◌∙◌, Bool, true, false, if◌then◌else◌, not,
  List, [], ◌∷◌, ◌++◌, ℤ, Bytes, length, ◌==◌, arith,
}
use native.Mathlib.Nat.{div-le_self}
use librediscxx.Redis2P.State.{Redis2P, inner_init, clients_of}
use librediscxx.Redis2P.State.Serving.{Grouped}

length-clients_of :
    (hs ps : List Bytes) (db timeout : ℤ)
    → length hs ≡ length ps
    → length (clients_of hs ps db timeout) ≡ length hs
unfolding clients_of
length-clients_of [] [] db timeout e = refl
length-clients_of [] (p ∷ ps) db timeout e = refl
length-clients_of (h ∷ hs) [] db timeout e = absurd (omega arith)
length-clients_of (h ∷ hs) (p ∷ ps) db timeout e =
    ap suc (length-clients_of hs ps db timeout (omega arith))

abbrev checked : Bool → Bool → Bool → Redis2P → Redis2P → Redis2P → Redis2P → Bool × Redis2P
checked a b c x y z w =
    if a then (false, x) else if b then (false, y) else if c then (false, z) else (true, w)

passed :
    (a b c : Bool) (x y z w : Redis2P)
    → (checked a b c x y z w).0 ≡ true
    → (a ≡ false) × (b ≡ false) × (c ≡ false) × ((checked a b c x y z w).1 ≡ w)
passed true b c x y z w e = absurd (ground arith)
passed false true c x y z w e = absurd (ground arith)
passed false false true x y z w e = absurd (ground arith)
passed false false false x y z w e = (refl, refl, refl, refl)

positive : (n : ℕ) → (n == 0) ≡ false → 0 < n
positive n e = ground arith

zero_of : (n : ℕ) → not (n == 0) ≡ false → n ≡ 0
zero_of n e = ground arith

-- When `inner_init` succeeds on an object without clients that has one port for each host, there is at
-- least one group, there are no more groups than clients, and the groups divide the clients.
pub inner_init-Grouped :
    (m : Redis2P)
    → m.clients ≡ []
    → length m.hosts ≡ length m.ports
    → (inner_init m).0 ≡ true
    → Grouped (inner_init m).1 × (length (inner_init m).1.clients % (inner_init m).1.groups ≡ 0)
unfolding inner_init
inner_init-Grouped m fresh matched ok =
    let groups = length m.hosts / m.partitions in
    let (some_partition, some_group, even, e) =
      passed (m.partitions == 0) (groups == 0) (not (length m.hosts % groups == 0)) _ _ _ _ ok in
    let made : length (m.clients ++ clients_of m.hosts m.ports m.db_index m.timeout_ms)
        ≡ length m.hosts =
      ap (λ l. length (l ++ clients_of m.hosts m.ports m.db_index m.timeout_ms)) fresh
      ∙ length-clients_of m.hosts m.ports m.db_index m.timeout_ms matched in
    subst (λ x. Grouped x × (length x.clients % x.groups ≡ 0)) (sym e)
      (
        record {
          some_group = positive groups some_group;
          enough =
              subst (λ n. length m.hosts / m.partitions ≤ n) (sym made)
                (div-le_self (length m.hosts) m.partitions);
        },
        ap (λ n. n % groups) made ∙ zero_of (length m.hosts % groups) even,
      )
