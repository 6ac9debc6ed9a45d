-- ===== src/Redis2/Strings.antt =====
-- The operations of `Redis2` on strings (src/redis.cpp).
use librediscxx.Base.{ℤ, List, [], ◌∷◌, Option, Bytes, length, ◌==◌}
use librediscxx.Os.World.{World}
use librediscxx.Cmd.Command.{KCommand}
use librediscxx.Cmd.Output.{MBulks, get_i, get_mbulks}
use librediscxx.Protocol.Decimal.{show_int}
use librediscxx.Redis2.State.{
  Redis2, Call, Doubles, ask, query, check_expr, status_ok, bulk_or_nil, double_of, interleave,
  command_of,
}

unfoldable pub append : Bytes → Bytes → Redis2 → World → Call ℤ
unfolding query get_i
append key value = query get_i KCommand.append (key ∷ value ∷ [])

unfoldable pub decr : Bytes → Redis2 → World → Call ℤ
unfolding query get_i
decr key = query get_i KCommand.decr (key ∷ [])

unfoldable pub decrby : Bytes → ℤ → Redis2 → World → Call ℤ
unfolding query get_i show_int
decrby key dec = query get_i KCommand.decrby (key ∷ show_int dec ∷ [])

unfoldable pub get : Bytes → Redis2 → World → Call (Option Bytes)
unfolding query bulk_or_nil
get key = query bulk_or_nil KCommand.get (key ∷ [])

unfoldable pub getbit : Bytes → ℤ → Redis2 → World → Call ℤ
unfolding query get_i show_int
getbit key offset = query get_i KCommand.getbit (key ∷ show_int offset ∷ [])

unfoldable pub getrange : Bytes → ℤ → ℤ → Redis2 → World → Call (Option Bytes)
unfolding query bulk_or_nil show_int
getrange key start stop =
    query bulk_or_nil KCommand.getrange (key ∷ show_int start ∷ show_int stop ∷ [])

unfoldable pub getset : Bytes → Bytes → Redis2 → World → Call (Option Bytes)
unfolding query bulk_or_nil
getset key value = query bulk_or_nil KCommand.getset (key ∷ value ∷ [])

unfoldable pub incr : Bytes → Redis2 → World → Call ℤ
unfolding query get_i
incr key = query get_i KCommand.incr (key ∷ [])

unfoldable pub incrby : Bytes → ℤ → Redis2 → World → Call ℤ
unfolding query get_i show_int
incrby key inc = query get_i KCommand.incrby (key ∷ show_int inc ∷ [])

unfoldable pub incrbyfloat : (D : Doubles) → Bytes → D.Double → Redis2 → World → Call (D.Double)
unfolding ask command_of double_of
incrbyfloat D key inc r w =
    double_of D (ask (command_of KCommand.incrbyfloat (key ∷ D.print inc ∷ [])) r w)

unfoldable pub mget : List Bytes → Redis2 → World → Call MBulks
unfolding query get_mbulks
mget keys = query get_mbulks KCommand.mget keys

unfoldable pub mset : List Bytes → List Bytes → Redis2 → World → Call (Unit {0})
unfolding check_expr query status_ok interleave
mset keys values =
    check_expr (length keys == length values)
      (query status_ok KCommand.mset (interleave keys values))

unfoldable pub psetex : Bytes → ℤ → Bytes → Redis2 → World → Call (Unit {0})
unfolding query status_ok show_int
psetex key milliseconds value =
    query status_ok KCommand.psetex (key ∷ show_int milliseconds ∷ value ∷ [])

unfoldable pub set : Bytes → Bytes → Redis2 → World → Call (Unit {0})
unfolding query status_ok
set key value = query status_ok KCommand.set (key ∷ value ∷ [])

unfoldable pub setbit : Bytes → ℤ → ℤ → Redis2 → World → Call ℤ
unfolding query get_i show_int
setbit key offset value = query get_i KCommand.setbit (key ∷ show_int offset ∷ show_int value ∷ [])

unfoldable pub setex : Bytes → ℤ → Bytes → Redis2 → World → Call (Unit {0})
unfolding query status_ok show_int
setex key seconds value = query status_ok KCommand.setex (key ∷ show_int seconds ∷ value ∷ [])

unfoldable pub setnx : Bytes → Bytes → Redis2 → World → Call ℤ
unfolding query get_i
setnx key value = query get_i KCommand.setnx (key ∷ value ∷ [])

unfoldable pub setrange : Bytes → ℤ → Bytes → Redis2 → World → Call ℤ
unfolding query get_i show_int
setrange key offset value = query get_i KCommand.setrange (key ∷ show_int offset ∷ value ∷ [])

unfoldable pub strlen : Bytes → Redis2 → World → Call ℤ
unfolding query get_i
strlen key = query get_i KCommand.strlen (key ∷ [])
