-- ===== src/Redis2P/SetCalls.antt =====
-- The operations of `Redis2P` on sets (src/redis_partition.cpp): each goes to one host of every group by
-- its key, a write to all of them and a read to the first that answers.
use librediscxx.Base.{ℤ, List, Option, Bytes}
use librediscxx.Cmd.Output.{MBulks}
use librediscxx.Redis2.Sets
use librediscxx.Redis2P.State.{Redis2P, Networks, CallP, for_each_group_write, for_each_group_read}

unfoldable pub sadd : Bytes → Bytes → Redis2P → Networks → CallP ℤ
unfolding for_each_group_write
sadd key member = for_each_group_write (Sets.sadd key member) key

unfoldable pub sadd_members : Bytes → List Bytes → Redis2P → Networks → CallP ℤ
unfolding for_each_group_write
sadd_members key members = for_each_group_write (Sets.sadd_members key members) key

unfoldable pub scard : Bytes → Redis2P → Networks → CallP ℤ
unfolding for_each_group_read
scard key = for_each_group_read (Sets.scard key) key

unfoldable pub sismember : Bytes → Bytes → Redis2P → Networks → CallP ℤ
unfolding for_each_group_read
sismember key member = for_each_group_read (Sets.sismember key member) key

unfoldable pub smembers : Bytes → Redis2P → Networks → CallP MBulks
unfolding for_each_group_read
smembers key = for_each_group_read (Sets.smembers key) key

unfoldable pub spop : Bytes → Redis2P → Networks → CallP (Option Bytes)
unfolding for_each_group_write
spop key = for_each_group_write (Sets.spop key) key

unfoldable pub srandmember : Bytes → Redis2P → Networks → CallP (Option Bytes)
unfolding for_each_group_read
srandmember key = for_each_group_read (Sets.srandmember key) key

unfoldable pub srem : Bytes → Bytes → Redis2P → Networks → CallP ℤ
unfolding for_each_group_write
srem key member = for_each_group_write (Sets.srem key member) key

unfoldable pub srem_members : Bytes → List Bytes → Redis2P → Networks → CallP ℤ
unfolding for_each_group_write
srem_members key members = for_each_group_write (Sets.srem_members key members) key
