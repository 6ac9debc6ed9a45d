-- ===== src/Redis2/Hashes.antt =====
-- The operations of `Redis2` on hashes (src/redis.cpp).
use librediscxx.Base.{ℤ, pos, List, [], ◌∷◌, Option, Bytes, length, ◌==◌}
use librediscxx.Os.World.{World}
use librediscxx.Cmd.Command.{KCommand}
use librediscxx.Cmd.Output.{MBulks, get_i, get_mbulks}
use librediscxx.Protocol.Decimal.{show_int}
use librediscxx.Redis2.State.{
  Redis2, Call, Doubles, ask, query, check_expr, status_ok, bulk_or_nil, double_of, interleave,
  command_of,
}

unfoldable pub hdel : Bytes → Bytes → Redis2 → World → Call ℤ
unfolding query get_i
hdel key field = query get_i KCommand.hdel (key ∷ field ∷ [])

unfoldable pub hdel_fields : Bytes → List Bytes → Redis2 → World → Call ℤ
unfolding query get_i
hdel_fields key fields = query get_i KCommand.hdel (key ∷ fields)

unfoldable pub hexists : Bytes → Bytes → Redis2 → World → Call ℤ
unfolding query get_i
hexists key field = query get_i KCommand.hexists (key ∷ field ∷ [])

unfoldable pub hget : Bytes → Bytes → Redis2 → World → Call (Option Bytes)
unfolding query bulk_or_nil
hget key field = query bulk_or_nil KCommand.hget (key ∷ field ∷ [])

unfoldable pub hgetall : Bytes → Redis2 → World → Call MBulks
unfolding query get_mbulks
hgetall key = query get_mbulks KCommand.hgetall (key ∷ [])

unfoldable pub hincr : Bytes → Bytes → Redis2 → World → Call ℤ
unfolding query get_i show_int
hincr key field = query get_i KCommand.hincrby (key ∷ field ∷ show_int (pos 1) ∷ [])

unfoldable pub hincrby : Bytes → Bytes → ℤ → Redis2 → World → Call ℤ
unfolding query get_i show_int
hincrby key field inc = query get_i KCommand.hincrby (key ∷ field ∷ show_int inc ∷ [])

unfoldable pub hincrbyfloat :
    (D : Doubles) → Bytes → Bytes → D.Double → Redis2 → World → Call (D.Double)
unfolding ask command_of double_of
hincrbyfloat D key field inc r w =
    double_of D (ask (command_of KCommand.hincrbyfloat (key ∷ field ∷ D.print inc ∷ [])) r w)

unfoldable pub hkeys : Bytes → Redis2 → World → Call MBulks
unfolding query get_mbulks
hkeys key = query get_mbulks KCommand.hkeys (key ∷ [])

unfoldable pub hlen : Bytes → Redis2 → World → Call ℤ
unfolding query get_i
hlen key = query get_i KCommand.hlen (key ∷ [])

unfoldable pub hmget : Bytes → List Bytes → Redis2 → World → Call MBulks
unfolding query get_mbulks
hmget key fields = query get_mbulks KCommand.hmget (key ∷ fields)

unfoldable pub hmset : Bytes → List Bytes → List Bytes → Redis2 → World → Call (Unit {0})
unfolding check_expr query status_ok interleave
hmset key fields values =
    check_expr (length fields == length values)
      (query status_ok KCommand.hmset (key ∷ interleave fields values))

unfoldable pub hset : Bytes → Bytes → Bytes → Redis2 → World → Call ℤ
unfolding query get_i
hset key field value = query get_i KCommand.hset (key ∷ field ∷ value ∷ [])

unfoldable pub hsetnx : Bytes → Bytes → Bytes → Redis2 → World → Call ℤ
unfolding query get_i
hsetnx key field value = query get_i KCommand.hsetnx (key ∷ field ∷ value ∷ [])

unfoldable pub hvals : Bytes → Redis2 → World → Call MBulks
unfolding query get_mbulks
hvals key = query get_mbulks KCommand.hvals (key ∷ [])
