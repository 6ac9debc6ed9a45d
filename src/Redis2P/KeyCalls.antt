-- ===== src/Redis2P/KeyCalls.antt =====
-- The operations of `Redis2P` on keys (src/redis_partition.cpp): each goes to one host of every group by
-- its key, a write to all of them and a read to the first that answers.
use librediscxx.Base.{ℤ, List, Option, Bytes}
use librediscxx.Cmd.Output.{MBulks}
use librediscxx.Redis2.Keys
use librediscxx.Redis2P.State.{Redis2P, Networks, CallP, for_each_group_write, for_each_group_read}

unfoldable pub del : Bytes → Redis2P → Networks → CallP ℤ
unfolding for_each_group_write
del key = for_each_group_write (Keys.del key) key

unfoldable pub dump : Bytes → Redis2P → Networks → CallP (Option Bytes)
unfolding for_each_group_read
dump key = for_each_group_read (Keys.dump key) key

unfoldable pub exists : Bytes → Redis2P → Networks → CallP ℤ
unfolding for_each_group_read
exists key = for_each_group_read (Keys.exists key) key

unfoldable pub expire : Bytes → ℤ → Redis2P → Networks → CallP ℤ
unfolding for_each_group_write
expire key seconds = for_each_group_write (Keys.expire key seconds) key

unfoldable pub expireat : Bytes → ℤ → Redis2P → Networks → CallP ℤ
unfolding for_each_group_write
expireat key abs_seconds = for_each_group_write (Keys.expireat key abs_seconds) key

unfoldable pub move : Bytes → ℤ → Redis2P → Networks → CallP ℤ
unfolding for_each_group_write
move key db = for_each_group_write (Keys.move key db) key

unfoldable pub persist : Bytes → Redis2P → Networks → CallP ℤ
unfolding for_each_group_write
persist key = for_each_group_write (Keys.persist key) key

unfoldable pub pexpire : Bytes → ℤ → Redis2P → Networks → CallP ℤ
unfolding for_each_group_write
pexpire key milliseconds = for_each_group_write (Keys.pexpire key milliseconds) key

unfoldable pub pexpireat : Bytes → ℤ → Redis2P → Networks → CallP ℤ
unfolding for_each_group_write
pexpireat key abs_milliseconds = for_each_group_write (Keys.pexpireat key abs_milliseconds) key

unfoldable pub pttl : Bytes → Redis2P → Networks → CallP ℤ
unfolding for_each_group_read
pttl key = for_each_group_read (Keys.pttl key) key

unfoldable pub restore : Bytes → ℤ → Bytes → Redis2P → Networks → CallP (Unit {0})
unfolding for_each_group_write
restore key ttl value = for_each_group_write (Keys.restore key ttl value) key

unfoldable pub sort : Bytes → Option (List Bytes) → Redis2P → Networks → CallP MBulks
unfolding for_each_group_read
sort key phrases = for_each_group_read (Keys.sort key phrases) key

unfoldable pub ttl : Bytes → Redis2P → Networks → CallP ℤ
unfolding for_each_group_read
ttl key = for_each_group_read (Keys.ttl key) key

unfoldable pub type : Bytes → Redis2P → Networks → CallP Bytes
unfolding for_each_group_read
type key = for_each_group_read (Keys.type key) key
