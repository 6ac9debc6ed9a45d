-- ===== src/Cmd/Names.antt =====
-- `s_command_rev_map` of src/redis_cmd.cpp: from a name to its command, with the lookup.
use librediscxx.Base.{
  String, Option, none, some, List, [], ◌∷◌, Bytes, codes, str_eq, if◌then◌else◌,
}
use librediscxx.Cmd.Command.{KCommand}

abbrev name : String → KCommand → Bytes × KCommand
name s c = (codes s, c)

unfoldable pub s_command_rev_map : List (Bytes × KCommand)
s_command_rev_map =
    name "APPEND" KCommand.append
    ∷ name "AUTH" KCommand.auth
    ∷ name "BGREWRITEAOF" KCommand.bgrewriteaof
    ∷ name "BGSAVE" KCommand.bgsave
    ∷ name "BITCOUNT" KCommand.bitcount
    ∷ name "BITOP" KCommand.bitop
    ∷ name "BLPOP" KCommand.blpop
    ∷ name "BRPOP" KCommand.brpop
    ∷ name "BRPOPLPUSH" KCommand.brpoplpush
    ∷ name "CONFIG" KCommand.config
    ∷ name "DBSIZE" KCommand.dbsize
    ∷ name "DEBUG" KCommand.debug
    ∷ name "DECR" KCommand.decr
    ∷ name "DECRBY" KCommand.decrby
    ∷ name "DEL" KCommand.del
    ∷ name "DISCARD" KCommand.discard
    ∷ name "DUMP" KCommand.dump
    ∷ name "ECHO" KCommand.echo
    ∷ name "EVAL" KCommand.eval
    ∷ name "EVALSHA" KCommand.evalsha
    ∷ name "EXEC" KCommand.exec
    ∷ name "EXISTS" KCommand.exists
    ∷ name "EXPIRE" KCommand.expire
    ∷ name "EXPIREAT" KCommand.expireat
    ∷ name "FLUSHALL" KCommand.flushall
    ∷ name "FLUSHDB" KCommand.flushdb
    ∷ name "GET" KCommand.get
    ∷ name "GETBIT" KCommand.getbit
    ∷ name "GETRANGE" KCommand.getrange
    ∷ name "GETSET" KCommand.getset
    ∷ name "HDEL" KCommand.hdel
    ∷ name "HEXISTS" KCommand.hexists
    ∷ name "HGET" KCommand.hget
    ∷ name "HGETALL" KCommand.hgetall
    ∷ name "HINCRBY" KCommand.hincrby
    ∷ name "HINCRBYFLOAT" KCommand.hincrbyfloat
    ∷ name "HKEYS" KCommand.hkeys
    ∷ name "HLEN" KCommand.hlen
    ∷ name "HMGET" KCommand.hmget
    ∷ name "HMSET" KCommand.hmset
    ∷ name "HSET" KCommand.hset
    ∷ name "HSETNX" KCommand.hsetnx
    ∷ name "HVALS" KCommand.hvals
    ∷ name "INCR" KCommand.incr
    ∷ name "INCRBY" KCommand.incrby
    ∷ name "INCRBYFLOAT" KCommand.incrbyfloat
    ∷ name "INFO" KCommand.info
    ∷ name "KEYS" KCommand.keys
    ∷ name "LASTSAVE" KCommand.lastsave
    ∷ name "LINDEX" KCommand.lindex
    ∷ name "LINSERT" KCommand.linsert
    ∷ name "LLEN" KCommand.llen
    ∷ name "LPOP" KCommand.lpop
    ∷ name "LPUSH" KCommand.lpush
    ∷ name "LPUSHX" KCommand.lpushx
    ∷ name "LRANGE" KCommand.lrange
    ∷ name "LREM" KCommand.lrem
    ∷ name "LSET" KCommand.lset
    ∷ name "LTRIM" KCommand.ltrim
    ∷ name "MGET" KCommand.mget
    ∷ name "MIGRATE" KCommand.migrate
    ∷ name "MONITOR" KCommand.monitor
    ∷ name "MOVE" KCommand.move
    ∷ name "MSET" KCommand.mset
    ∷ name "MSETNX" KCommand.msetnx
    ∷ name "MULTI" KCommand.multi
    ∷ name "OBJECT" KCommand.object
    ∷ name "PERSIST" KCommand.persist
    ∷ name "PEXPIRE" KCommand.pexpire
    ∷ name "PEXPIREAT" KCommand.pexpireat
    ∷ name "PING" KCommand.ping
    ∷ name "PSETEX" KCommand.psetex
    ∷ name "PSUBSCRIBE" KCommand.psubscribe
    ∷ name "PTTL" KCommand.pttl
    ∷ name "PUBLISH" KCommand.publish
    ∷ name "PUNSUBSCRIBE" KCommand.punsubscribe
    ∷ name "QUIT" KCommand.quit
    ∷ name "RANDOMKEY" KCommand.randomkey
    ∷ name "RENAME" KCommand.rename
    ∷ name "RENAMENX" KCommand.renamenx
    ∷ name "RESTORE" KCommand.restore
    ∷ name "RPOP" KCommand.rpop
    ∷ name "RPOPLPUSH" KCommand.rpoplpush
    ∷ name "RPUSH" KCommand.rpush
    ∷ name "RPUSHX" KCommand.rpushx
    ∷ name "SADD" KCommand.sadd
    ∷ name "SAVE" KCommand.save
    ∷ name "SCARD" KCommand.scard
    ∷ name "SCRIPT" KCommand.script
    ∷ name "SDIFF" KCommand.sdiff
    ∷ name "SDIFFSTORE" KCommand.sdiffstore
    ∷ name "SELECT" KCommand.select
    ∷ name "SET" KCommand.set
    ∷ name "SETBIT" KCommand.setbit
    ∷ name "SETEX" KCommand.setex
    ∷ name "SETNX" KCommand.setnx
    ∷ name "SETRANGE" KCommand.setrange
    ∷ name "SHUTDOWN" KCommand.shutdown
    ∷ name "SINTER" KCommand.sinter
    ∷ name "SINTERSTORE" KCommand.sinterstore
    ∷ name "SISMEMBER" KCommand.sismember
    ∷ name "SLAVEOF" KCommand.slaveof
    ∷ name "SLOWLOG" KCommand.slowlog
    ∷ name "SMEMBERS" KCommand.smembers
    ∷ name "SMOVE" KCommand.smove
    ∷ name "SORT" KCommand.sort
    ∷ name "SPOP" KCommand.spop
    ∷ name "SRANDMEMBER" KCommand.srandmember
    ∷ name "SREM" KCommand.srem
    ∷ name "STRLEN" KCommand.strlen
    ∷ name "SUBSCRIBE" KCommand.subscribe
    ∷ name "SUNION" KCommand.sunion
    ∷ name "SUNIONSTORE" KCommand.sunionstore
    ∷ name "SYNC" KCommand.sync
    ∷ name "TTL" KCommand.ttl
    ∷ name "TIME" KCommand.time
    ∷ name "TYPE" KCommand.type
    ∷ name "UNSUBSCRIBE" KCommand.unsubscribe
    ∷ name "UNWATCH" KCommand.unwatch
    ∷ name "WATCH" KCommand.watch
    ∷ name "ZADD" KCommand.zadd
    ∷ name "ZCARD" KCommand.zcard
    ∷ name "ZCOUNT" KCommand.zcount
    ∷ name "ZINCRBY" KCommand.zincrby
    ∷ name "ZINTERSTORE" KCommand.zinterstore
    ∷ name "ZRANGE" KCommand.zrange
    ∷ name "ZRANGEBYSCORE" KCommand.zrangebyscore
    ∷ name "ZRANK" KCommand.zrank
    ∷ name "ZREM" KCommand.zrem
    ∷ name "ZREMRANGEBYRANK" KCommand.zremrangebyrank
    ∷ name "ZREMRANGEBYSCORE" KCommand.zremrangebyscore
    ∷ name "ZREVRANGE" KCommand.zrevrange
    ∷ name "ZREVRANGEBYSCORE" KCommand.zrevrangebyscore
    ∷ name "ZREVRANK" KCommand.zrevrank
    ∷ name "ZSCORE" KCommand.zscore
    ∷ name "ZUNIONSTORE" KCommand.zunionstore
    ∷ []

-- `std::map::find`.
unfoldable pub find_command : Bytes → List (Bytes × KCommand) → Option KCommand
unfolding str_eq
find_command k [] = none
find_command k ((j, c) ∷ m) = if str_eq k j then some c else find_command k m
