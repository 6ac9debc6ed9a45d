-- ===== src/Tss/Usage.antt =====
-- What a program that keeps to the usages of src/redis_tss.h can rely on (src/redis_tss.cpp), and what
-- the destructor of the pool leaves.
use librediscxx.Base.{
  count, count-append, ℕ, ◌+◌, ◌<◌, ◌≡◌, ◌≢◌, refl, sym, ◌∙◌, subst, List, [], ◌∷◌, Option, none,
  some, Bytes, ℤ, length, lt→ltb, arith,
}
use librediscxx.ThreadSpecific
use librediscxx.ThreadSpecific.{Storage}
use librediscxx.Tss.{
  Tss, thread_specific, not_thread_specific, RedisClientType, tss, put_free_redis, popped,
  or_create, get_free_redis, get_free_or_create_redis, get, put, thread_exit, clear_free_redis,
  destroy,
}
use librediscxx.Tss.Owned.{Parts, slot, Owned}
use librediscxx.Tss.Stepping.{Steps, no_step, after, Steps-Owned}
use librediscxx.Tss.Calling.{
  get-Gets, Gets, Mine, Fetched, put-Steps, put-Steps_specific, thread_exit-Steps, cleaned-some,
}

module _ (boost : Storage) (split : Bytes → List Bytes) where
  open boost use {Slots, get-empty}

  -- The calls of threads that keep to the usages; `held` has what was got without a thread's pointer and
  -- was not put back.
  pub data Calls (m : Tss Slots) (held : List ℕ) : Tss Slots → List ℕ → Type 0 where
    no_call : Calls m held m held
    get_own :
        {m' : Tss Slots} {held' : List ℕ} {o : Option ℕ} {m'' : Tss Slots} (t : ℕ)
        → Calls m held m' held'
        → get boost split thread_specific t m' ≡ (o, m'')
        → Calls m held m'' held'
    get_free :
        {m' : Tss Slots} {held' : List ℕ} {p : ℕ} {m'' : Tss Slots} (t : ℕ)
        → Calls m held m' held'
        → get boost split not_thread_specific t m' ≡ (some p, m'')
        → Calls m held m'' (p ∷ held')
    get_throws :
        {m' : Tss Slots} {held' : List ℕ} {m'' : Tss Slots} (t : ℕ)
        → Calls m held m' held'
        → get boost split not_thread_specific t m' ≡ (none, m'')
        → Calls m held m'' held'
    put_own :
        {m' : Tss Slots} {held' : List ℕ} (t p : ℕ)
        → Calls m held m' held'
        → slot boost split m' t ≡ some p
        → Calls m held (put boost split (some p) thread_specific t m') held'
    put_back :
        {m' : Tss Slots} {held' held'' : List ℕ} (t p : ℕ)
        → Calls m held m' held'
        → Parts p held' held''
        → Calls m held (put boost split (some p) not_thread_specific t m') held''
    ends :
        {m' : Tss Slots} {held' : List ℕ} (t : ℕ)
        → Calls m held m' held'
        → Calls m held (thread_exit boost split t m') held'

  join :
      {m : Tss Slots} {held : List ℕ} {m' : Tss Slots} {held' : List ℕ} {m'' : Tss Slots}
      {held'' : List ℕ}
      → Steps boost split m held m' held'
      → Steps boost split m' held' m'' held''
      → Steps boost split m held m'' held''
  join first no_step = first
  join first (after more step) = after (join first more) step

  own-Steps :
      (t : ℕ) (m : Tss Slots) (held : List ℕ) (q : Option ℕ × Tss Slots)
      → Gets boost split thread_specific q t m held
      → Steps boost split m held q.1 held
  own-Steps t m held (some p, m') (steps, own) = steps
  own-Steps t m held (none, m') same =
      subst (λ x. Steps boost split m held x held) (sym same) no_step

  -- Every sequence of calls of `get`, `put` and ends of threads that keeps to the usages of the pool (a thread puts
  -- back as its own only the pointer it has, and otherwise only pointers that it got) is a sequence of the atomic
  -- steps of ownership, from the same pool to the same pool and with the same clients in hand.
  pub Calls-Steps :
      {m : Tss Slots} {held : List ℕ} {m' : Tss Slots} {held' : List ℕ}
      → Calls m held m' held'
      → Steps boost split m held m' held'
  Calls-Steps no_call = no_step
  Calls-Steps (get_own {m'} {held'} {o} {m''} t calls e) = join (Calls-Steps calls) (
      own-Steps t m' held' (o, m'')
        (subst (λ q. Mine boost split q t m' held') e
          (get-Gets boost split thread_specific t m' held')))
  Calls-Steps (get_free {m'} {held'} {p} t calls e) =
      join (Calls-Steps calls)
        (subst (λ q. Fetched boost split q m' held') e
          (get-Gets boost split not_thread_specific t m' held')).0
  Calls-Steps {m} {held} (get_throws {m'} {held'} t calls e) =
      subst (λ x. Steps boost split m held x held')
        (sym (
          subst (λ q. Fetched boost split q m' held') e
            (get-Gets boost split not_thread_specific t m' held')))
        (Calls-Steps calls)
  Calls-Steps (put_own {m'} {held'} t p calls own) =
      join (Calls-Steps calls) (put-Steps_specific boost split t p m' held' own)
  Calls-Steps (put_back {m'} {held'} {held''} t p calls parts) =
      join (Calls-Steps calls) (put-Steps boost split t p m' held' held'' parts)
  Calls-Steps (ends {m'} {held'} t calls) =
      join (Calls-Steps calls) (thread_exit-Steps boost split t m' held')

  -- A new pool owns no client.
  pub tss-Owned :
      (host port : Bytes) (db_index partitions timeout_ms : ℤ) (type : RedisClientType)
      (pool_size : ℕ)
      → Owned boost split
          (tss boost split host port db_index partitions timeout_ms type pool_size)
          []
  unfolding tss
  tss-Owned host port db_index partitions timeout_ms type pool_size = record {
    bounded = omega arith;
    once = λ r. omega arith;
    apart = λ t r e. ground (arith, get-empty t);
    alone = λ t u r e. ground (arith, get-empty t);
    fresh = λ r h. refl;
    fresh_slot = λ t r e. ground (arith, get-empty t);
    owner = λ r h. absurd (omega arith);
  }

  -- When every client has one owner and `get(kThreadSpecific)` returns a client, it is the calling thread's own, no
  -- other thread has it, and it is neither free, nor in the hands of other code, nor deleted.
  pub get-Exclusive :
      (t : ℕ) (m : Tss Slots) (held : List ℕ) (p : ℕ) (m' : Tss Slots)
      → Owned boost split m held
      → get boost split thread_specific t m ≡ (some p, m')
      → (slot boost split m' t ≡ some p)
        × ((u : ℕ) → t ≢ u → slot boost split m' u ≢ some p)
        × (count p m'.free_redis + count p held + count p m'.deleted ≡ 0)
  get-Exclusive t m held p m' o e =
      let (steps, own) =
        subst (λ q. Mine boost split q t m held) e
          (get-Gets boost split thread_specific t m held) in
      let o' : Owned boost split m' held = Steps-Owned boost split o steps in
      (own, λ u ne other. ne (o'.alone t u p own other), o'.apart t p own)

  -- A client that is put back while the vector of free clients is not full is the one that the next call of
  -- `get(kNotThreadSpecific)`, by any thread, returns, and the pool is then as it was before.
  pub put-get :
      (t u p : ℕ) (m : Tss Slots)
      → length m.free_redis < m.pool_size
      → get boost split not_thread_specific u (put boost split (some p) not_thread_specific t m)
        ≡ (some p, m)
  unfolding get put put_free_redis get_free_or_create_redis get_free_redis popped or_create
  put-get t u p m room = rw (lt→ltb (length m.free_redis) m.pool_size room) refl

  -- When every client has one owner, none is in hand, the pool has room for one, and the thread that destroys the
  -- pool has a client of its own, then after `~Impl` that client is the one in the vector of free clients, which is
  -- gone with the pool, and it was not deleted.
  pub destroy_leaks :
      (t p : ℕ) (m : Tss Slots)
      → Owned boost split m []
      → slot boost split m t ≡ some p
      → 0 < m.pool_size
      → ((destroy boost split t m).free_redis ≡ p ∷ [])
        × (count p (destroy boost split t m).deleted ≡ 0)
  unfolding destroy thread_exit clear_free_redis put_free_redis ThreadSpecific.finish
  destroy_leaks t p m o own room =
      rw (cleaned-some boost split (clear_free_redis boost split m) t p own) (
        rw (lt→ltb 0 m.pool_size room)
          (refl, count-append p m.free_redis m.deleted ∙ omega (arith, o.apart t p own)))
