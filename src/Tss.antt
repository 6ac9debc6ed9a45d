-- ===== src/Tss.antt =====
-- `RedisTss`, the pool of clients that a program's threads share, and `RedisScopedPtr`
-- (src/redis_tss.cpp and src/redis_tss.h). A client is known by its address: the number of clients made
-- before it. A vector is listed from its back.
pub mod Owned
pub mod Stepping
pub mod Calling
pub mod Usage
use librediscxx.Base.{
  ℕ, suc, ◌+◌, ltb, ℤ, Bool, List, [], ◌∷◌, ◌++◌, Option, none, some, Bytes, length, if◌then◌else◌,
}
use librediscxx.Cmd.Hash.{time33_hash_32}
use librediscxx.Redis2.State.{Redis2, redis2}
use librediscxx.Redis2P.State.{Redis2P}
use librediscxx.Redis2P.Constructor.{Created, created, refused, redis2p}
use librediscxx.ThreadSpecific
use librediscxx.ThreadSpecific.{Storage, same_pointer}

pub data RedisClientType : Type 0 where
  normal partition : RedisClientType

pub data TssFlag : Type 0 where
  thread_specific not_thread_specific : TssFlag

-- What a `RedisBase2 *` may point to.
pub data Client : Type 0 where
  single : Redis2 → Client
  multi : Redis2P → Client

pub record Tss (Slots : Type 0) : Type 0 where
  pub host : Bytes
  pub port : Bytes
  pub db_index : ℤ
  pub timeout_ms : ℤ
  pub partitions : ℤ
  pub type : RedisClientType
  pub pool_size : ℕ
  pub redis_hosts : List Bytes
  pub free_redis : List ℕ
  pub client : Slots
  -- The clients that `new` has made, and the addresses given to `delete`.
  pub made : List Client
  pub deleted : List ℕ

module _ (boost : Storage) (split : Bytes → List Bytes) where
  open boost use {Slots, empty}

  -- `Impl`, with `inner_init`
  unfoldable pub tss : Bytes → Bytes → ℤ → ℤ → ℤ → RedisClientType → ℕ → Tss Slots
  tss host port db_index partitions timeout_ms type pool_size = record {
    host = host;
    port = port;
    db_index = db_index;
    timeout_ms = timeout_ms;
    partitions = partitions;
    type = type;
    pool_size = pool_size;
    redis_hosts = split host;
    free_redis = [];
    client = empty;
    made = [];
    deleted = [];
  }

  -- A pointer that was taken, or NULL; the pool without it.
  popped : List ℕ → Tss Slots → Option ℕ × Tss Slots
  popped [] m = (none, m)
  popped (p ∷ free) m = (some p, record m { free_redis = free })

  unfoldable pub get_free_redis : Tss Slots → Option ℕ × Tss Slots
  unfolding popped
  get_free_redis m = popped m.free_redis m

  made_client : Created Redis2P → Option Client
  made_client (created m) = some (multi m)
  made_client (refused e) = none

  -- `new Redis2(…)` or `new Redis2P(…)`; `none` when the constructor throws.
  unfoldable pub new_client : RedisClientType → Tss Slots → Option Client
  unfolding redis2 redis2p made_client
  new_client normal m = some (single (redis2 m.host m.port m.db_index m.timeout_ms))
  new_client partition m =
      made_client (redis2p split m.host m.port m.db_index m.timeout_ms m.partitions time33_hash_32)

  -- The result is `none` when an exception leaves the function.
  added : Option Client → Tss Slots → Option ℕ × Tss Slots
  added none m = (none, m)
  added (some c) m = (some (length m.made), record m { made = m.made ++ (c ∷ []) })

  or_create : Option ℕ × Tss Slots → Option ℕ × Tss Slots
  unfolding new_client added
  or_create (some p, m) = (some p, m)
  or_create (none, m) = added (new_client m.type m) m

  unfoldable pub get_free_or_create_redis : Tss Slots → Option ℕ × Tss Slots
  unfolding or_create get_free_redis
  get_free_or_create_redis m = or_create (get_free_redis m)

  unfoldable pub put_free_redis : Option ℕ → Tss Slots → Tss Slots
  put_free_redis none m = m
  put_free_redis (some p) m =
      if ltb (length m.free_redis) m.pool_size
      then record m { free_redis = p ∷ m.free_redis }
      else record m { deleted = p ∷ m.deleted }

  -- The cleanup function that `client_` was made with is `put_free_redis`.
  pub cleaned : Slots × Option ℕ → Tss Slots → Tss Slots
  unfolding put_free_redis
  cleaned (s, old) m = put_free_redis old (record m { client = s })

  -- `client_.reset(redis_ptr)`, when there is one
  kept : ℕ → Option ℕ × Tss Slots → Option ℕ × Tss Slots
  unfolding cleaned ThreadSpecific.reset
  kept t (none, m) = (none, m)
  kept t (some p, m) = (some p, cleaned (ThreadSpecific.reset boost t (some p) m.client) m)

  get_specific : ℕ → Option ℕ → Tss Slots → Option ℕ × Tss Slots
  unfolding kept get_free_or_create_redis
  get_specific t (some p) m = (some p, m)
  get_specific t none m = kept t (get_free_or_create_redis m)

  -- `get`, called by the thread `t`
  unfoldable pub get : TssFlag → ℕ → Tss Slots → Option ℕ × Tss Slots
  unfolding get_specific get_free_or_create_redis ThreadSpecific.get
  get thread_specific t m = get_specific t (ThreadSpecific.get boost t m.client) m
  get not_thread_specific t m = get_free_or_create_redis m

  released : ℕ → Tss Slots → Tss Slots
  unfolding ThreadSpecific.release
  released t m = record m { client = (ThreadSpecific.release boost t m.client).1 }

  -- `put`, called by the thread `t`
  unfoldable pub put : Option ℕ → TssFlag → ℕ → Tss Slots → Tss Slots
  unfolding released put_free_redis ThreadSpecific.get
  put none flag t m = m
  put (some p) thread_specific t m =
      put_free_redis (some p)
        (if same_pointer (ThreadSpecific.get boost t m.client) (some p) then released t m else m)
  put (some p) not_thread_specific t m = put_free_redis (some p) m

  -- The thread `t` ends.
  unfoldable pub thread_exit : ℕ → Tss Slots → Tss Slots
  unfolding cleaned ThreadSpecific.finish
  thread_exit t m = cleaned (ThreadSpecific.finish boost t m.client) m

  unfoldable pub clear_free_redis : Tss Slots → Tss Slots
  clear_free_redis m = record m { free_redis = []; deleted = m.free_redis ++ m.deleted }

  -- `~Impl`, run by the thread `t`: its body, then the destructor of `client_`.
  unfoldable pub destroy : ℕ → Tss Slots → Tss Slots
  unfolding thread_exit clear_free_redis
  destroy t m = thread_exit t (clear_free_redis m)

  -- `RedisScopedPtr`: what the constructor makes and what the destructor does.
  unfoldable pub scoped : TssFlag → ℕ → Tss Slots → Option ℕ × Tss Slots
  unfolding get
  scoped flag t m = get flag t m

  unfoldable pub scope_end : Option ℕ → TssFlag → ℕ → Tss Slots → Tss Slots
  unfolding put
  scope_end p flag t m = put p flag t m
