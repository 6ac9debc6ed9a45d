-- ===== src/Redis2P/StringCalls.antt =====
-- The operations of `Redis2P` on strings (src/redis_partition.cpp): each goes to one host of every group by
-- its key, a write to all of them and a read to the first that answers.
use librediscxx.Base.{ℤ, Option, Bytes}
use librediscxx.Redis2.Strings
use librediscxx.Redis2.State.{Doubles}
use librediscxx.Redis2P.State.{Redis2P, Networks, CallP, for_each_group_write, for_each_group_read}

unfoldable pub append : Bytes → Bytes → Redis2P → Networks → CallP ℤ
unfolding for_each_group_write
append key value = for_each_group_write (Strings.append key value) key

unfoldable pub decr : Bytes → Redis2P → Networks → CallP ℤ
unfolding for_each_group_write
decr key = for_each_group_write (Strings.decr key) key

unfoldable pub decrby : Bytes → ℤ → Redis2P → Networks → CallP ℤ
unfolding for_each_group_write
decrby key dec = for_each_group_write (Strings.decrby key dec) key

unfoldable pub get : Bytes → Redis2P → Networks → CallP (Option Bytes)
unfolding for_each_group_read
get key = for_each_group_read (Strings.get key) key

unfoldable pub getbit : Bytes → ℤ → Redis2P → Networks → CallP ℤ
unfolding for_each_group_read
getbit key offset = for_each_group_read (Strings.getbit key offset) key

unfoldable pub getrange : Bytes → ℤ → ℤ → Redis2P → Networks → CallP (Option Bytes)
unfolding for_each_group_read
getrange key start stop = for_each_group_read (Strings.getrange key start stop) key

unfoldable pub getset : Bytes → Bytes → Redis2P → Networks → CallP (Option Bytes)
unfolding for_each_group_write
getset key value = for_each_group_write (Strings.getset key value) key

unfoldable pub incr : Bytes → Redis2P → Networks → CallP ℤ
unfolding for_each_group_write
incr key = for_each_group_write (Strings.incr key) key

unfoldable pub incrby : Bytes → ℤ → Redis2P → Networks → CallP ℤ
unfolding for_each_group_write
incrby key inc = for_each_group_write (Strings.incrby key inc) key

unfoldable pub incrbyfloat :
    (D : Doubles) → Bytes → D.Double → Redis2P → Networks → CallP (D.Double)
unfolding for_each_group_write
incrbyfloat D key inc = for_each_group_write (Strings.incrbyfloat D key inc) key

unfoldable pub psetex : Bytes → ℤ → Bytes → Redis2P → Networks → CallP (Unit {0})
unfolding for_each_group_write
psetex key milliseconds value = for_each_group_write (Strings.psetex key milliseconds value) key

unfoldable pub set : Bytes → Bytes → Redis2P → Networks → CallP (Unit {0})
unfolding for_each_group_write
set key value = for_each_group_write (Strings.set key value) key

unfoldable pub setbit : Bytes → ℤ → ℤ → Redis2P → Networks → CallP ℤ
unfolding for_each_group_write
setbit key offset value = for_each_group_write (Strings.setbit key offset value) key

unfoldable pub setex : Bytes → ℤ → Bytes → Redis2P → Networks → CallP (Unit {0})
unfolding for_each_group_write
setex key seconds value = for_each_group_write (Strings.setex key seconds value) key

unfoldable pub setnx : Bytes → Bytes → Redis2P → Networks → CallP ℤ
unfolding for_each_group_write
setnx key value = for_each_group_write (Strings.setnx key value) key

unfoldable pub setrange : Bytes → ℤ → Bytes → Redis2P → Networks → CallP ℤ
unfolding for_each_group_write
setrange key offset value = for_each_group_write (Strings.setrange key offset value) key

unfoldable pub strlen : Bytes → Redis2P → Networks → CallP ℤ
unfolding for_each_group_read
strlen key = for_each_group_read (Strings.strlen key) key
