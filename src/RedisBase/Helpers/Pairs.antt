-- ===== src/RedisBase/Helpers/Pairs.antt =====
-- Fields and values, there and back (src/redis_base.cpp).
use librediscxx.Base.{◌≡◌, refl, ap, List, [], ◌∷◌, ◌++◌, some, Bytes, map}
use librediscxx.Cmd.Output.{MBulks}
use librediscxx.Redis2.State.{done, Doubles, interleave}
use librediscxx.RedisBase.Interface.{RedisBase2}
use librediscxx.RedisBase.Helpers.{pairs, firsts, seconds, hgetall_pairs, paired}

-- The reply to HGETALL of a server that has stored the arguments of HMSET in their order.
abbrev pub stored : List (Bytes × Bytes) → MBulks
stored ps = map some (interleave (firsts ps) (seconds ps))

pairs-stored : (ps : List (Bytes × Bytes)) → pairs (stored ps) ≡ some ps
unfolding pairs firsts seconds interleave
pairs-stored [] = refl
pairs-stored ((f, v) ∷ ps) = rw (pairs-stored ps)

paired-some :
    (f : List (Bytes × Bytes) → List (Bytes × Bytes)) (mb : MBulks) (ps : List (Bytes × Bytes))
    → pairs mb ≡ some ps
    → paired f (done mb) ≡ done (f ps)
paired-some f mb ps e = rw (e, paired) refl

-- With any client: when `hgetall` is answered by the fields and values that `hmset` was given as pairs,
-- one after another, then `hgetall` adds just these pairs, in their order, to the caller's.
pub hgetall_pairs-stored :
    {D : Doubles} {C N : Type 0} (b : RedisBase2 D C N) (key : Bytes)
    (before ps : List (Bytes × Bytes)) (c c' : C) (n n' : N)
    → b.hashes.hgetall key c n ≡ (done (stored ps), c', n')
    → hgetall_pairs b key before c n ≡ (done (before ++ ps), c', n')
unfolding hgetall_pairs
hgetall_pairs-stored b key before ps c c' n n' e =
    rw e
      (ap (λ r. (r, c', n')) (paired-some (λ ps'. before ++ ps') (stored ps) ps (pairs-stored ps)))
