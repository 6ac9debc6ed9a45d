-- ===== src/Redis2P/SortedSetCalls.antt =====
-- The operations of `Redis2P` on sorted sets (src/redis_partition.cpp): each goes to one host of every group by
-- its key, a write to all of them and a read to the first that answers.
use librediscxx.Base.{ℤ, Bool, List, Option, Bytes, ◌==◌, length}
use librediscxx.Cmd.Output.{MBulks}
use librediscxx.Redis2.SortedSets
use librediscxx.Redis2.State.{Doubles}
use librediscxx.Redis2P.State.{
  Redis2P, Networks, CallP, check_expr, for_each_group_write, for_each_group_read,
}

unfoldable pub zadd : (D : Doubles) → Bytes → D.Double → Bytes → Redis2P → Networks → CallP ℤ
unfolding for_each_group_write
zadd D key score member = for_each_group_write (SortedSets.zadd D key score member) key

unfoldable pub zadd_members :
    (D : Doubles) → Bytes → List (D.Double) → List Bytes → Redis2P → Networks → CallP ℤ
unfolding check_expr for_each_group_write
zadd_members D key scores members =
    check_expr (length scores == length members)
      (for_each_group_write (SortedSets.zadd_members D key scores members) key)

unfoldable pub zcard : Bytes → Redis2P → Networks → CallP ℤ
unfolding for_each_group_read
zcard key = for_each_group_read (SortedSets.zcard key) key

unfoldable pub zcount : Bytes → Bytes → Bytes → Redis2P → Networks → CallP ℤ
unfolding for_each_group_read
zcount key minimum maximum = for_each_group_read (SortedSets.zcount key minimum maximum) key

unfoldable pub zincrby :
    (D : Doubles) → Bytes → D.Double → Bytes → Redis2P → Networks → CallP (D.Double)
unfolding for_each_group_write
zincrby D key increment member =
    for_each_group_write (SortedSets.zincrby D key increment member) key

unfoldable pub zrange : Bytes → ℤ → ℤ → Bool → Redis2P → Networks → CallP MBulks
unfolding for_each_group_read
zrange key start stop withscores =
    for_each_group_read (SortedSets.zrange key start stop withscores) key

unfoldable pub zrevrange : Bytes → ℤ → ℤ → Bool → Redis2P → Networks → CallP MBulks
unfolding for_each_group_read
zrevrange key start stop withscores =
    for_each_group_read (SortedSets.zrevrange key start stop withscores) key

unfoldable pub zrangebyscore :
    Bytes → Bytes → Bytes → Bool → Option (ℤ × ℤ) → Redis2P → Networks → CallP MBulks
unfolding for_each_group_read
zrangebyscore key minimum maximum withscores limit =
    for_each_group_read (SortedSets.zrangebyscore key minimum maximum withscores limit) key

unfoldable pub zrevrangebyscore :
    Bytes → Bytes → Bytes → Bool → Option (ℤ × ℤ) → Redis2P → Networks → CallP MBulks
unfolding for_each_group_read
zrevrangebyscore key maximum minimum withscores limit =
    for_each_group_read (SortedSets.zrevrangebyscore key maximum minimum withscores limit) key

unfoldable pub zrank : Bytes → Bytes → Redis2P → Networks → CallP (Option ℤ)
unfolding for_each_group_read
zrank key member = for_each_group_read (SortedSets.zrank key member) key

unfoldable pub zrevrank : Bytes → Bytes → Redis2P → Networks → CallP (Option ℤ)
unfolding for_each_group_read
zrevrank key member = for_each_group_read (SortedSets.zrevrank key member) key

unfoldable pub zrem : Bytes → Bytes → Redis2P → Networks → CallP ℤ
unfolding for_each_group_write
zrem key member = for_each_group_write (SortedSets.zrem key member) key

unfoldable pub zrem_members : Bytes → List Bytes → Redis2P → Networks → CallP ℤ
unfolding for_each_group_write
zrem_members key members = for_each_group_write (SortedSets.zrem_members key members) key

unfoldable pub zremrangebyrank : Bytes → ℤ → ℤ → Redis2P → Networks → CallP ℤ
unfolding for_each_group_write
zremrangebyrank key start stop =
    for_each_group_write (SortedSets.zremrangebyrank key start stop) key

unfoldable pub zremrangebyscore : Bytes → Bytes → Bytes → Redis2P → Networks → CallP ℤ
unfolding for_each_group_write
zremrangebyscore key minimum maximum =
    for_each_group_write (SortedSets.zremrangebyscore key minimum maximum) key

unfoldable pub zscore :
    (D : Doubles) → Bytes → Bytes → Redis2P → Networks → CallP (Option (D.Double))
unfolding for_each_group_read
zscore D key member = for_each_group_read (SortedSets.zscore D key member) key
