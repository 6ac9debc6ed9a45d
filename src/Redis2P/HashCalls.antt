-- ===== src/Redis2P/HashCalls.antt =====
-- The operations of `Redis2P` on hashes (src/redis_partition.cpp): each goes to one host of every group by
-- its key, a write to all of them and a read to the first that answers.
use librediscxx.Base.{ℤ, List, Option, Bytes, ◌==◌, length}
use librediscxx.Cmd.Output.{MBulks}
use librediscxx.Redis2.Hashes
use librediscxx.Redis2.State.{Doubles}
use librediscxx.Redis2P.State.{
  Redis2P, Networks, CallP, check_expr, for_each_group_write, for_each_group_read,
}

unfoldable pub hdel : Bytes → Bytes → Redis2P → Networks → CallP ℤ
unfolding for_each_group_write
hdel key field = for_each_group_write (Hashes.hdel key field) key

unfoldable pub hdel_fields : Bytes → List Bytes → Redis2P → Networks → CallP ℤ
unfolding for_each_group_write
hdel_fields key fields = for_each_group_write (Hashes.hdel_fields key fields) key

unfoldable pub hexists : Bytes → Bytes → Redis2P → Networks → CallP ℤ
unfolding for_each_group_read
hexists key field = for_each_group_read (Hashes.hexists key field) key

unfoldable pub hget : Bytes → Bytes → Redis2P → Networks → CallP (Option Bytes)
unfolding for_each_group_read
hget key field = for_each_group_read (Hashes.hget key field) key

unfoldable pub hgetall : Bytes → Redis2P → Networks → CallP MBulks
unfolding for_each_group_read
hgetall key = for_each_group_read (Hashes.hgetall key) key

unfoldable pub hincr : Bytes → Bytes → Redis2P → Networks → CallP ℤ
unfolding for_each_group_write
hincr key field = for_each_group_write (Hashes.hincr key field) key

unfoldable pub hincrby : Bytes → Bytes → ℤ → Redis2P → Networks → CallP ℤ
unfolding for_each_group_write
hincrby key field inc = for_each_group_write (Hashes.hincrby key field inc) key

unfoldable pub hincrbyfloat :
    (D : Doubles) → Bytes → Bytes → D.Double → Redis2P → Networks → CallP (D.Double)
unfolding for_each_group_write
hincrbyfloat D key field inc = for_each_group_write (Hashes.hincrbyfloat D key field inc) key

unfoldable pub hkeys : Bytes → Redis2P → Networks → CallP MBulks
unfolding for_each_group_read
hkeys key = for_each_group_read (Hashes.hkeys key) key

unfoldable pub hlen : Bytes → Redis2P → Networks → CallP ℤ
unfolding for_each_group_read
hlen key = for_each_group_read (Hashes.hlen key) key

unfoldable pub hmget : Bytes → List Bytes → Redis2P → Networks → CallP MBulks
unfolding for_each_group_read
hmget key fields = for_each_group_read (Hashes.hmget key fields) key

unfoldable pub hmset : Bytes → List Bytes → List Bytes → Redis2P → Networks → CallP (Unit {0})
unfolding check_expr for_each_group_write
hmset key fields values =
    check_expr (length fields == length values)
      (for_each_group_write (Hashes.hmset key fields values) key)

unfoldable pub hset : Bytes → Bytes → Bytes → Redis2P → Networks → CallP ℤ
unfolding for_each_group_write
hset key field value = for_each_group_write (Hashes.hset key field value) key

unfoldable pub hsetnx : Bytes → Bytes → Bytes → Redis2P → Networks → CallP ℤ
unfolding for_each_group_write
hsetnx key field value = for_each_group_write (Hashes.hset key field value) key

unfoldable pub hvals : Bytes → Redis2P → Networks → CallP MBulks
unfolding for_each_group_read
hvals key = for_each_group_read (Hashes.hvals key) key
