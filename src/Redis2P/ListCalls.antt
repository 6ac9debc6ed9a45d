-- ===== src/Redis2P/ListCalls.antt =====
-- The operations of `Redis2P` on lists (src/redis_partition.cpp): each goes to one host of every group by
-- its key, a write to all of them and a read to the first that answers.
use librediscxx.Base.{ℤ, Bool, List, Option, Bytes}
use librediscxx.Cmd.Output.{MBulks}
use librediscxx.Redis2.Lists
use librediscxx.Redis2P.State.{Redis2P, Networks, CallP, for_each_group_write, for_each_group_read}

unfoldable pub lindex : Bytes → ℤ → Redis2P → Networks → CallP (Option Bytes)
unfolding for_each_group_read
lindex key index = for_each_group_read (Lists.lindex key index) key

unfoldable pub linsert : Bytes → Bool → Bytes → Bytes → Redis2P → Networks → CallP ℤ
unfolding for_each_group_write
linsert key before pivot value = for_each_group_write (Lists.linsert key before pivot value) key

unfoldable pub llen : Bytes → Redis2P → Networks → CallP ℤ
unfolding for_each_group_read
llen key = for_each_group_read (Lists.llen key) key

unfoldable pub lpop : Bytes → Redis2P → Networks → CallP (Option Bytes)
unfolding for_each_group_write
lpop key = for_each_group_write (Lists.lpop key) key

unfoldable pub lpush : Bytes → Bytes → Redis2P → Networks → CallP ℤ
unfolding for_each_group_write
lpush key value = for_each_group_write (Lists.lpush key value) key

unfoldable pub lpush_values : Bytes → List Bytes → Redis2P → Networks → CallP ℤ
unfolding for_each_group_write
lpush_values key values = for_each_group_write (Lists.lpush_values key values) key

unfoldable pub lpushx : Bytes → Bytes → Redis2P → Networks → CallP ℤ
unfolding for_each_group_write
lpushx key value = for_each_group_write (Lists.lpushx key value) key

unfoldable pub lrange : Bytes → ℤ → ℤ → Redis2P → Networks → CallP MBulks
unfolding for_each_group_read
lrange key start stop = for_each_group_read (Lists.lrange key start stop) key

unfoldable pub lrem : Bytes → ℤ → Bytes → Redis2P → Networks → CallP ℤ
unfolding for_each_group_write
lrem key count value = for_each_group_write (Lists.lrem key count value) key

unfoldable pub lset : Bytes → ℤ → Bytes → Redis2P → Networks → CallP (Unit {0})
unfolding for_each_group_write
lset key index value = for_each_group_write (Lists.lset key index value) key

unfoldable pub ltrim : Bytes → ℤ → ℤ → Redis2P → Networks → CallP (Unit {0})
unfolding for_each_group_write
ltrim key start stop = for_each_group_write (Lists.ltrim key start stop) key

unfoldable pub rpop : Bytes → Redis2P → Networks → CallP (Option Bytes)
unfolding for_each_group_write
rpop key = for_each_group_write (Lists.rpop key) key

unfoldable pub rpush : Bytes → Bytes → Redis2P → Networks → CallP ℤ
unfolding for_each_group_write
rpush key value = for_each_group_write (Lists.rpush key value) key

unfoldable pub rpush_values : Bytes → List Bytes → Redis2P → Networks → CallP ℤ
unfolding for_each_group_write
rpush_values key values = for_each_group_write (Lists.rpush_values key values) key

unfoldable pub rpushx : Bytes → Bytes → Redis2P → Networks → CallP ℤ
unfolding for_each_group_write
rpushx key value = for_each_group_write (Lists.rpushx key value) key
