-- ===== src/Redis2P/SplitCalls/Answers.antt =====
-- What the operations that are split over the hosts return (src/redis_partition.cpp).
use librediscxx.Base.{
  ℕ, suc, ◌+◌, ◌≡◌, refl, ap, subst, Option, List, [], ◌∷◌, ◌++◌, Bytes, length, arith,
}
use librediscxx.Cmd.Output.{MBulks}
use librediscxx.Redis2.State.{done, failed, thrown}
use librediscxx.Redis2P.State.{Redis2P, Networks, CallP}
use librediscxx.Redis2P.StringCalls
use librediscxx.Redis2P.SplitCalls.{mget, mget_loop}

-- A call that returns a list of so many values, or none at all.
pub Sized : ℕ → CallP MBulks → Type 0
Sized n (done values, m, ns) = length values ≡ n
Sized n (failed, m, ns) = Unit {0}
Sized n (thrown, m, ns) = Unit {0}

length_snoc : {A : Type 0} (xs : List A) (x : A) → length (xs ++ (x ∷ [])) ≡ suc (length xs)
length_snoc [] x = refl
length_snoc (y ∷ xs) x = ap suc (length_snoc xs x)

abbrev after_get : List Bytes → MBulks → CallP (Option Bytes) → CallP MBulks
after_get keys got (r, m', ns') = elim r [
  | done value ↦ mget_loop keys (got ++ (value ∷ [])) m' ns'
  | failed ↦ (failed, m', ns')
  | thrown ↦ (thrown, m', ns')
]

after_get-Sized :
    (keys : List Bytes) (got : MBulks) (n : ℕ)
    → ((value : Option Bytes) (m : Redis2P) (ns : Networks)
        → Sized n (mget_loop keys (got ++ (value ∷ [])) m ns))
    → (q : CallP (Option Bytes)) → Sized n (after_get keys got q)
unfolding Sized
after_get-Sized keys got n rest (done value, m, ns) = rest value m ns
after_get-Sized keys got n rest (failed, m, ns) = tt
after_get-Sized keys got n rest (thrown, m, ns) = tt

mget_loop-Sized :
    (keys : List Bytes) (got : MBulks) (m : Redis2P) (ns : Networks)
    → Sized (length got + length keys) (mget_loop keys got m ns)
unfolding Sized mget_loop
mget_loop-Sized [] got m ns = omega arith
mget_loop-Sized (key ∷ keys) got m ns =
    after_get-Sized keys got (length got + suc (length keys))
      (λ value m' ns'.
        subst (λ n. Sized n (mget_loop keys (got ++ (value ∷ [])) m' ns'))
          (let e : length (got ++ (value ∷ [])) ≡ suc (length got) = length_snoc got value in
            omega arith)
          (mget_loop-Sized keys (got ++ (value ∷ [])) m' ns'))
      (StringCalls.get key m ns)

-- When `mget` succeeds it returns one value for each key, as its assertion expects.
pub mget-Sized :
    (keys : List Bytes) (m : Redis2P) (ns : Networks) → Sized (length keys) (mget keys m ns)
unfolding mget
mget-Sized keys m ns =
    subst (λ n. Sized n (mget_loop keys [] m ns)) (omega arith) (mget_loop-Sized keys [] m ns)
