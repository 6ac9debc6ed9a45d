-- ===== src/RedisBase/Helpers.antt =====
-- The helpers that `RedisBase2` defines over the operations of any client (src/redis_base.cpp).
pub mod Maps
pub mod Pairs
use librediscxx.Base.{
  ℕ, ◌+◌, ◌-◌, ◌%◌, ◌^◌, ◌<◌, ltb, ℤ, pos, negsuc, to_int, Bool, true, false, List, [], ◌∷◌, ◌++◌,
  Option, none, some, Bytes, map, if◌then◌else◌,
}
use librediscxx.Cmd.Output.{MBulks, convert}
use librediscxx.Redis2.State.{Result, done, failed, thrown, Doubles}
use librediscxx.RedisBase.Interface.{RedisBase2, KeyCommands, StringCommands, HashCommands}

-- `static_cast<int>` of an `int64_t`
unfoldable pub int_of : ℤ → ℤ
int_of (pos n) = to_int n
int_of (negsuc n) = to_int (2 ^ 32 - 1 - n % 2 ^ 32)

-- A `std::map` of strings, in the order of its keys: the first pair for a key stays.
unfoldable pub less : Bytes → Bytes → Bool
less s [] = false
less [] (d ∷ t) = true
less (c ∷ s) (d ∷ t) = if ltb c d then true else if ltb d c then false else less s t

unfoldable pub insert : Bytes × Bytes → List (Bytes × Bytes) → List (Bytes × Bytes)
unfolding less
insert (k, v) [] = (k, v) ∷ []
insert (k, v) ((j, u) ∷ m) =
    if less k j
    then (k, v) ∷ (j, u) ∷ m
    else if less j k
    then (j, u) ∷ insert (k, v) m
    else (j, u) ∷ m

unfoldable pub insert_all : List (Bytes × Bytes) → List (Bytes × Bytes) → List (Bytes × Bytes)
unfolding insert
insert_all [] m = m
insert_all (p ∷ ps) m = insert_all ps (insert p m)

-- The replies two by two, the last of an odd number left out; `none` if one is nil, where the assertion
-- of the code fails.
unfoldable pub pairs : MBulks → Option (List (Bytes × Bytes))
pairs (some f ∷ some v ∷ mb) = elim (pairs mb) [ none ↦ none | some ps ↦ some ((f, v) ∷ ps) ]
pairs (some f ∷ none ∷ mb) = none
pairs (none ∷ b ∷ mb) = none
pairs (b ∷ []) = some []
pairs [] = some []

unfoldable pub firsts : List (Bytes × Bytes) → List Bytes
firsts ps = map (λ p. p.0) ps

unfoldable pub seconds : List (Bytes × Bytes) → List Bytes
seconds ps = map (λ p. p.1) ps

-- `_keys` after the call: it stays as it was when the inner call fails.
unfoldable pub converted : List Bytes → Result MBulks → Result (List Bytes)
unfolding convert
converted before (done mb) = done (convert mb)
converted before failed = done before
converted before thrown = thrown

-- The `int` is 1, 0 for nil, or -1 for a failure; with it goes the value where there is one.
abbrev pub found : Result (Option Bytes) → Result (ℤ × Option Bytes)
found (done (some v)) = done (pos 1, some v)
found (done none) = done (pos 0, none)
found failed = done (negsuc 0, none)
found thrown = thrown

abbrev pub counted : Result ℤ → Result ℤ
counted (done n) = done (int_of n)
counted failed = done (negsuc 0)
counted thrown = thrown

abbrev pub no_value : Result ℤ → Result (Unit {0})
no_value (done n) = done tt
no_value failed = failed
no_value thrown = thrown

-- A failed assertion ends the program: `thrown` here.
abbrev pub paired :
    (List (Bytes × Bytes) → List (Bytes × Bytes)) → Result MBulks → Result (List (Bytes × Bytes))
paired f (done mb) = elim (pairs mb) [ none ↦ thrown | some ps ↦ done (f ps) ]
paired f failed = failed
paired f thrown = thrown

-- What a helper makes of the result of an operation.
abbrev pub after {ℓ κ} :
    {A : Type ℓ} {B : Type κ} {C N : Type 0}
    → (Result A → Result B)
    → Result A × C × N
    → Result B × C × N
after f (r, c, n) = (f r, c, n)

module _ {D : Doubles} {C N : Type 0} (b : RedisBase2 D C N) where
  unfoldable pub get : Bytes → C → N → Result (ℤ × Option Bytes) × C × N
  get key c n = after found (b.strings.get key c n)

  unfoldable pub expire : Bytes → ℤ → C → N → Result ℤ × C × N
  unfolding int_of
  expire key seconds c n = after counted (b.keys.expire key seconds c n)

  unfoldable pub expireat : Bytes → ℤ → C → N → Result ℤ × C × N
  unfolding int_of
  expireat key abs_seconds c n = after counted (b.keys.expireat key abs_seconds c n)

  unfoldable pub keys : Bytes → List Bytes → C → N → Result (List Bytes) × C × N
  unfolding converted
  keys pattern before c n = after (converted before) (b.keys.keys pattern c n)

  unfoldable pub hget : Bytes → Bytes → C → N → Result (ℤ × Option Bytes) × C × N
  hget key field c n = after found (b.hashes.hget key field c n)

  unfoldable pub hset : Bytes → Bytes → Bytes → C → N → Result (Unit {0}) × C × N
  hset key field value c n = after no_value (b.hashes.hset key field value c n)

  unfoldable pub hdel : Bytes → Bytes → C → N → Result ℤ × C × N
  unfolding int_of
  hdel key field c n = after counted (b.hashes.hdel key field c n)

  -- The pairs are added to those that the caller's vector has.
  unfoldable pub hgetall_pairs :
      Bytes → List (Bytes × Bytes) → C → N → Result (List (Bytes × Bytes)) × C × N
  unfolding pairs
  hgetall_pairs key before c n = after (paired (λ ps. before ++ ps)) (b.hashes.hgetall key c n)

  unfoldable pub hgetall_map :
      Bytes → List (Bytes × Bytes) → C → N → Result (List (Bytes × Bytes)) × C × N
  unfolding pairs insert_all
  hgetall_map key before c n =
      after (paired (λ ps. insert_all ps before)) (b.hashes.hgetall key c n)

  -- A map gives its pairs in the order of the keys.
  unfoldable pub hmset_pairs : Bytes → List (Bytes × Bytes) → C → N → Result (Unit {0}) × C × N
  unfolding firsts seconds
  hmset_pairs key fields_and_values c n =
      b.hashes.hmset key (firsts fields_and_values) (seconds fields_and_values) c n
