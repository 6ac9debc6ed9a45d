-- ===== src/RedisBase/Single.antt =====
-- What a client of one server has besides (`RedisBase2Single` of src/redis_base.h).
use librediscxx.Base.{ℤ, Bool, List, Option, Bytes}
use librediscxx.Cmd.Output.{MBulks, RedisCommand}
use librediscxx.Redis2.State.{Result, Doubles}
use librediscxx.Redis2.SortedSets.{Aggregate}

pub record RedisBase2Single (D : Doubles) (C N : Type 0) : Type 0 where
  pub rename : Bytes → Bytes → C → N → Result (Unit {0}) × C × N
  pub renamenx : Bytes → Bytes → C → N → Result ℤ × C × N
  pub blpop : List Bytes → ℤ → C → N → Result (Option (Bytes × Bytes)) × C × N
  pub brpop : List Bytes → ℤ → C → N → Result (Option (Bytes × Bytes)) × C × N
  pub brpoplpush : Bytes → Bytes → ℤ → C → N → Result (Option Bytes) × C × N
  pub rpoplpush : Bytes → Bytes → C → N → Result (Option Bytes) × C × N
  pub sdiff : List Bytes → C → N → Result MBulks × C × N
  pub sdiffstore : Bytes → List Bytes → C → N → Result ℤ × C × N
  pub sinter : List Bytes → C → N → Result MBulks × C × N
  pub sinterstore : Bytes → List Bytes → C → N → Result ℤ × C × N
  pub smove : Bytes → Bytes → Bytes → C → N → Result ℤ × C × N
  pub sunion : List Bytes → C → N → Result MBulks × C × N
  pub sunionstore : Bytes → List Bytes → C → N → Result ℤ × C × N
  pub zinterstore :
      Bytes → List Bytes → Option (List (D.Double)) → Aggregate → C → N → Result ℤ × C × N
  pub zunionstore :
      Bytes → List Bytes → Option (List (D.Double)) → Aggregate → C → N → Result ℤ × C × N
  pub exec_command : RedisCommand → C → N → Bool × RedisCommand × C × N
  pub exec_formatted : Bytes → RedisCommand → C → N → Bool × RedisCommand × C × N
  pub exec_pipeline : List RedisCommand → C → N → Bool × List RedisCommand × C × N
  pub publish : Bytes → Bytes → C → N → Result ℤ × C × N
  pub multi : C → N → Result (Unit {0}) × C × N
  pub unwatch : C → N → Result (Unit {0}) × C × N
  pub watch : List Bytes → C → N → Result (Unit {0}) × C × N
  pub add_command : RedisCommand → C → N → Bool × RedisCommand × C × N
  pub add_formatted : Bytes → RedisCommand → C → N → Bool × RedisCommand × C × N
  pub exec_transaction : C → N → Result (List RedisCommand) × C × N
  pub discard : C → N → Result (Unit {0}) × C × N
  pub ping : C → N → Result (Unit {0}) × C × N
  pub bgrewriteaof : C → N → Result (Unit {0}) × C × N
  pub bgsave : C → N → Result (Unit {0}) × C × N
  pub dbsize : C → N → Result ℤ × C × N
  pub info : C → N → Result Bytes × C × N
  pub info_section : Bytes → C → N → Result Bytes × C × N
  pub lastsave : C → N → Result ℤ × C × N
  pub slaveof : Bytes → Bytes → C → N → Result (Unit {0}) × C × N
