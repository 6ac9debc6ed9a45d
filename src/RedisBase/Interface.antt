-- ===== src/RedisBase/Interface.antt =====
-- The interface of all clients (`RedisBase2` of src/redis_base.h): what an operation takes and gives, for
-- a client of type `C` on a network of type `N`. An overload has the name of its argument added.
use librediscxx.Base.{ℤ, Bool, List, Option, Bytes}
use librediscxx.Message.{Message}
use librediscxx.Cmd.Output.{MBulks}
use librediscxx.Redis2.State.{Result, Doubles}

pub record KeyCommands (C N : Type 0) : Type 0 where
  pub del : Bytes → C → N → Result ℤ × C × N
  pub del_keys : List Bytes → C → N → Result ℤ × C × N
  pub dump : Bytes → C → N → Result (Option Bytes) × C × N
  pub exists : Bytes → C → N → Result ℤ × C × N
  pub expire : Bytes → ℤ → C → N → Result ℤ × C × N
  pub expireat : Bytes → ℤ → C → N → Result ℤ × C × N
  pub keys : Bytes → C → N → Result MBulks × C × N
  pub move : Bytes → ℤ → C → N → Result ℤ × C × N
  pub persist : Bytes → C → N → Result ℤ × C × N
  pub pexpire : Bytes → ℤ → C → N → Result ℤ × C × N
  pub pexpireat : Bytes → ℤ → C → N → Result ℤ × C × N
  pub pttl : Bytes → C → N → Result ℤ × C × N
  pub restore : Bytes → ℤ → Bytes → C → N → Result (Unit {0}) × C × N
  pub randomkey : C → N → Result (Option Bytes) × C × N
  pub sort : Bytes → Option (List Bytes) → C → N → Result MBulks × C × N
  pub ttl : Bytes → C → N → Result ℤ × C × N
  pub type : Bytes → C → N → Result Bytes × C × N

pub record StringCommands (D : Doubles) (C N : Type 0) : Type 0 where
  pub append : Bytes → Bytes → C → N → Result ℤ × C × N
  pub decr : Bytes → C → N → Result ℤ × C × N
  pub decrby : Bytes → ℤ → C → N → Result ℤ × C × N
  pub get : Bytes → C → N → Result (Option Bytes) × C × N
  pub getbit : Bytes → ℤ → C → N → Result ℤ × C × N
  pub getrange : Bytes → ℤ → ℤ → C → N → Result (Option Bytes) × C × N
  pub getset : Bytes → Bytes → C → N → Result (Option Bytes) × C × N
  pub incr : Bytes → C → N → Result ℤ × C × N
  pub incrby : Bytes → ℤ → C → N → Result ℤ × C × N
  pub incrbyfloat : Bytes → D.Double → C → N → Result (D.Double) × C × N
  pub mget : List Bytes → C → N → Result MBulks × C × N
  pub mset : List Bytes → List Bytes → C → N → Result (Unit {0}) × C × N
  pub psetex : Bytes → ℤ → Bytes → C → N → Result (Unit {0}) × C × N
  pub set : Bytes → Bytes → C → N → Result (Unit {0}) × C × N
  pub setbit : Bytes → ℤ → ℤ → C → N → Result ℤ × C × N
  pub setex : Bytes → ℤ → Bytes → C → N → Result (Unit {0}) × C × N
  pub setnx : Bytes → Bytes → C → N → Result ℤ × C × N
  pub setrange : Bytes → ℤ → Bytes → C → N → Result ℤ × C × N
  pub strlen : Bytes → C → N → Result ℤ × C × N

pub record HashCommands (D : Doubles) (C N : Type 0) : Type 0 where
  pub hdel : Bytes → Bytes → C → N → Result ℤ × C × N
  pub hdel_fields : Bytes → List Bytes → C → N → Result ℤ × C × N
  pub hexists : Bytes → Bytes → C → N → Result ℤ × C × N
  pub hget : Bytes → Bytes → C → N → Result (Option Bytes) × C × N
  pub hgetall : Bytes → C → N → Result MBulks × C × N
  pub hincr : Bytes → Bytes → C → N → Result ℤ × C × N
  pub hincrby : Bytes → Bytes → ℤ → C → N → Result ℤ × C × N
  pub hincrbyfloat : Bytes → Bytes → D.Double → C → N → Result (D.Double) × C × N
  pub hkeys : Bytes → C → N → Result MBulks × C × N
  pub hlen : Bytes → C → N → Result ℤ × C × N
  pub hmget : Bytes → List Bytes → C → N → Result MBulks × C × N
  pub hmset : Bytes → List Bytes → List Bytes → C → N → Result (Unit {0}) × C × N
  pub hset : Bytes → Bytes → Bytes → C → N → Result ℤ × C × N
  pub hsetnx : Bytes → Bytes → Bytes → C → N → Result ℤ × C × N
  pub hvals : Bytes → C → N → Result MBulks × C × N

pub record ListCommands (C N : Type 0) : Type 0 where
  pub lindex : Bytes → ℤ → C → N → Result (Option Bytes) × C × N
  pub linsert : Bytes → Bool → Bytes → Bytes → C → N → Result ℤ × C × N
  pub llen : Bytes → C → N → Result ℤ × C × N
  pub lpop : Bytes → C → N → Result (Option Bytes) × C × N
  pub lpush : Bytes → Bytes → C → N → Result ℤ × C × N
  pub lpush_values : Bytes → List Bytes → C → N → Result ℤ × C × N
  pub lpushx : Bytes → Bytes → C → N → Result ℤ × C × N
  pub lrange : Bytes → ℤ → ℤ → C → N → Result MBulks × C × N
  pub lrem : Bytes → ℤ → Bytes → C → N → Result ℤ × C × N
  pub lset : Bytes → ℤ → Bytes → C → N → Result (Unit {0}) × C × N
  pub ltrim : Bytes → ℤ → ℤ → C → N → Result (Unit {0}) × C × N
  pub rpop : Bytes → C → N → Result (Option Bytes) × C × N
  pub rpush : Bytes → Bytes → C → N → Result ℤ × C × N
  pub rpush_values : Bytes → List Bytes → C → N → Result ℤ × C × N
  pub rpushx : Bytes → Bytes → C → N → Result ℤ × C × N

pub record SetCommands (C N : Type 0) : Type 0 where
  pub sadd : Bytes → Bytes → C → N → Result ℤ × C × N
  pub sadd_members : Bytes → List Bytes → C → N → Result ℤ × C × N
  pub scard : Bytes → C → N → Result ℤ × C × N
  pub sismember : Bytes → Bytes → C → N → Result ℤ × C × N
  pub smembers : Bytes → C → N → Result MBulks × C × N
  pub spop : Bytes → C → N → Result (Option Bytes) × C × N
  pub srandmember : Bytes → C → N → Result (Option Bytes) × C × N
  pub srem : Bytes → Bytes → C → N → Result ℤ × C × N
  pub srem_members : Bytes → List Bytes → C → N → Result ℤ × C × N

pub record SortedSetCommands (D : Doubles) (C N : Type 0) : Type 0 where
  pub zadd : Bytes → D.Double → Bytes → C → N → Result ℤ × C × N
  pub zadd_members : Bytes → List (D.Double) → List Bytes → C → N → Result ℤ × C × N
  pub zcard : Bytes → C → N → Result ℤ × C × N
  pub zcount : Bytes → Bytes → Bytes → C → N → Result ℤ × C × N
  pub zincrby : Bytes → D.Double → Bytes → C → N → Result (D.Double) × C × N
  pub zrange : Bytes → ℤ → ℤ → Bool → C → N → Result MBulks × C × N
  pub zrevrange : Bytes → ℤ → ℤ → Bool → C → N → Result MBulks × C × N
  pub zrangebyscore : Bytes → Bytes → Bytes → Bool → Option (ℤ × ℤ) → C → N → Result MBulks × C × N
  pub zrevrangebyscore :
      Bytes → Bytes → Bytes → Bool → Option (ℤ × ℤ) → C → N → Result MBulks × C × N
  pub zrank : Bytes → Bytes → C → N → Result (Option ℤ) × C × N
  pub zrevrank : Bytes → Bytes → C → N → Result (Option ℤ) × C × N
  pub zrem : Bytes → Bytes → C → N → Result ℤ × C × N
  pub zrem_members : Bytes → List Bytes → C → N → Result ℤ × C × N
  pub zremrangebyrank : Bytes → ℤ → ℤ → C → N → Result ℤ × C × N
  pub zremrangebyscore : Bytes → Bytes → Bytes → C → N → Result ℤ × C × N
  pub zscore : Bytes → Bytes → C → N → Result (Option (D.Double)) × C × N

pub record ServerCommands (C N : Type 0) : Type 0 where
  pub select : ℤ → C → N → Result (Unit {0}) × C × N
  pub flushall : C → N → Result (Unit {0}) × C × N
  pub flushdb : C → N → Result (Unit {0}) × C × N

pub record RedisBase2 (D : Doubles) (C N : Type 0) : Type 0 where
  pub set_last_error : Message → C → C
  pub last_error : C → Message
  pub keys : KeyCommands C N
  pub strings : StringCommands D C N
  pub hashes : HashCommands D C N
  pub lists : ListCommands C N
  pub sets : SetCommands C N
  pub sorted_sets : SortedSetCommands D C N
  pub server : ServerCommands C N
