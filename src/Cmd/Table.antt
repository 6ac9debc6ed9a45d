-- ===== src/Cmd/Table.antt =====
-- `s_command_map` of src/redis_cmd.cpp: the row of each command, in the order of the enumeration.
use librediscxx.Base.{ℤ, pos, negsuc, String, List, [], ◌∷◌, codes}
use librediscxx.Cmd.Command.{KCommand, KReplyType, CommandInfo, argc_no_checking}

abbrev row : KCommand → String → ℤ → KReplyType → CommandInfo
row c name argc reply = record {
  command = c;
  command_str = codes name;
  argc = argc;
  reply_type = reply;
}

unfoldable pub s_command_map : List CommandInfo
s_command_map =
    row KCommand.noop "NOOP" argc_no_checking KReplyType.none_type
    ∷ row KCommand.append "APPEND" (pos 2) KReplyType.integer
    ∷ row KCommand.auth "AUTH" (pos 1) KReplyType.status
    ∷ row KCommand.bgrewriteaof "BGREWRITEAOF" (pos 0) KReplyType.status
    ∷ row KCommand.bgsave "BGSAVE" (pos 0) KReplyType.status
    ∷ row KCommand.bitcount "BITCOUNT" (negsuc 0) KReplyType.integer
    ∷ row KCommand.bitop "BITOP" (negsuc 2) KReplyType.integer
    ∷ row KCommand.blpop "BLPOP" (negsuc 1) KReplyType.multi_bulk
    ∷ row KCommand.brpop "BRPOP" (negsuc 1) KReplyType.multi_bulk
    ∷ row KCommand.brpoplpush "BRPOPLPUSH" (pos 3) KReplyType.depends
    ∷ row KCommand.config "CONFIG" (negsuc 0) KReplyType.depends
    ∷ row KCommand.dbsize "DBSIZE" (pos 0) KReplyType.integer
    ∷ row KCommand.debug "DEBUG" (negsuc 0) KReplyType.depends
    ∷ row KCommand.decr "DECR" (pos 1) KReplyType.integer
    ∷ row KCommand.decrby "DECRBY" (pos 2) KReplyType.integer
    ∷ row KCommand.del "DEL" (negsuc 0) KReplyType.integer
    ∷ row KCommand.discard "DISCARD" (pos 0) KReplyType.status
    ∷ row KCommand.dump "DUMP" (pos 1) KReplyType.bulk
    ∷ row KCommand.echo "ECHO" (pos 1) KReplyType.bulk
    ∷ row KCommand.eval "EVAL" (negsuc 1) KReplyType.depends
    ∷ row KCommand.evalsha "EVALSHA" (negsuc 1) KReplyType.depends
    ∷ row KCommand.exec "EXEC" (pos 0) KReplyType.special_multi_bulk
    ∷ row KCommand.exists "EXISTS" (pos 1) KReplyType.integer
    ∷ row KCommand.expire "EXPIRE" (pos 2) KReplyType.integer
    ∷ row KCommand.expireat "EXPIREAT" (pos 2) KReplyType.integer
    ∷ row KCommand.flushall "FLUSHALL" (pos 0) KReplyType.status
    ∷ row KCommand.flushdb "FLUSHDB" (pos 0) KReplyType.status
    ∷ row KCommand.get "GET" (pos 1) KReplyType.bulk
    ∷ row KCommand.getbit "GETBIT" (pos 2) KReplyType.integer
    ∷ row KCommand.getrange "GETRANGE" (pos 3) KReplyType.bulk
    ∷ row KCommand.getset "GETSET" (pos 2) KReplyType.bulk
    ∷ row KCommand.hdel "HDEL" (negsuc 1) KReplyType.integer
    ∷ row KCommand.hexists "HEXISTS" (pos 2) KReplyType.integer
    ∷ row KCommand.hget "HGET" (pos 2) KReplyType.bulk
    ∷ row KCommand.hgetall "HGETALL" (pos 1) KReplyType.multi_bulk
    ∷ row KCommand.hincrby "HINCRBY" (pos 3) KReplyType.integer
    ∷ row KCommand.hincrbyfloat "HINCRBYFLOAT" (pos 3) KReplyType.bulk
    ∷ row KCommand.hkeys "HKEYS" (pos 1) KReplyType.multi_bulk
    ∷ row KCommand.hlen "HLEN" (pos 1) KReplyType.integer
    ∷ row KCommand.hmget "HMGET" (negsuc 1) KReplyType.multi_bulk
    ∷ row KCommand.hmset "HMSET" (negsuc 2) KReplyType.status
    ∷ row KCommand.hset "HSET" (pos 3) KReplyType.integer
    ∷ row KCommand.hsetnx "HSETNX" (pos 3) KReplyType.integer
    ∷ row KCommand.hvals "HVALS" (pos 1) KReplyType.multi_bulk
    ∷ row KCommand.incr "INCR" (pos 1) KReplyType.integer
    ∷ row KCommand.incrby "INCRBY" (pos 2) KReplyType.integer
    ∷ row KCommand.incrbyfloat "INCRBYFLOAT" (pos 2) KReplyType.bulk
    ∷ row KCommand.info "INFO" argc_no_checking KReplyType.bulk
    ∷ row KCommand.keys "KEYS" (pos 1) KReplyType.multi_bulk
    ∷ row KCommand.lastsave "LASTSAVE" (pos 0) KReplyType.integer
    ∷ row KCommand.lindex "LINDEX" (pos 2) KReplyType.bulk
    ∷ row KCommand.linsert "LINSERT" (pos 4) KReplyType.integer
    ∷ row KCommand.llen "LLEN" (pos 1) KReplyType.integer
    ∷ row KCommand.lpop "LPOP" (pos 1) KReplyType.bulk
    ∷ row KCommand.lpush "LPUSH" (negsuc 1) KReplyType.integer
    ∷ row KCommand.lpushx "LPUSHX" (pos 2) KReplyType.integer
    ∷ row KCommand.lrange "LRANGE" (pos 3) KReplyType.multi_bulk
    ∷ row KCommand.lrem "LREM" (pos 3) KReplyType.integer
    ∷ row KCommand.lset "LSET" (pos 3) KReplyType.status
    ∷ row KCommand.ltrim "LTRIM" (pos 3) KReplyType.status
    ∷ row KCommand.mget "MGET" (negsuc 0) KReplyType.multi_bulk
    ∷ row KCommand.migrate "MIGRATE" (pos 5) KReplyType.status
    ∷ row KCommand.monitor "MONITOR" (pos 0) KReplyType.depends
    ∷ row KCommand.move "MOVE" (pos 2) KReplyType.integer
    ∷ row KCommand.mset "MSET" (negsuc 1) KReplyType.status
    ∷ row KCommand.msetnx "MSETNX" (negsuc 1) KReplyType.integer
    ∷ row KCommand.multi "MULTI" (pos 0) KReplyType.status
    ∷ row KCommand.object "OBJECT" (negsuc 0) KReplyType.depends
    ∷ row KCommand.persist "PERSIST" (pos 1) KReplyType.integer
    ∷ row KCommand.pexpire "PEXPIRE" (pos 2) KReplyType.integer
    ∷ row KCommand.pexpireat "PEXPIREAT" (pos 2) KReplyType.integer
    ∷ row KCommand.ping "PING" (pos 0) KReplyType.status
    ∷ row KCommand.psetex "PSETEX" (pos 3) KReplyType.status
    ∷ row KCommand.psubscribe "PSUBSCRIBE" (negsuc 0) KReplyType.special_multi_bulk
    ∷ row KCommand.pttl "PTTL" (pos 1) KReplyType.integer
    ∷ row KCommand.publish "PUBLISH" (pos 2) KReplyType.integer
    ∷ row KCommand.punsubscribe "PUNSUBSCRIBE" argc_no_checking KReplyType.special_multi_bulk
    ∷ row KCommand.quit "QUIT" (pos 0) KReplyType.status
    ∷ row KCommand.randomkey "RANDOMKEY" (pos 0) KReplyType.bulk
    ∷ row KCommand.rename "RENAME" (pos 2) KReplyType.status
    ∷ row KCommand.renamenx "RENAMENX" (pos 2) KReplyType.integer
    ∷ row KCommand.restore "RESTORE" (pos 3) KReplyType.status
    ∷ row KCommand.rpop "RPOP" (pos 1) KReplyType.bulk
    ∷ row KCommand.rpoplpush "RPOPLPUSH" (pos 2) KReplyType.bulk
    ∷ row KCommand.rpush "RPUSH" (negsuc 1) KReplyType.integer
    ∷ row KCommand.rpushx "RPUSHX" (pos 2) KReplyType.integer
    ∷ row KCommand.sadd "SADD" (negsuc 1) KReplyType.integer
    ∷ row KCommand.save "SAVE" (pos 0) KReplyType.depends
    ∷ row KCommand.scard "SCARD" (pos 1) KReplyType.integer
    ∷ row KCommand.script "SCRIPT" (negsuc 0) KReplyType.depends
    ∷ row KCommand.sdiff "SDIFF" (negsuc 0) KReplyType.multi_bulk
    ∷ row KCommand.sdiffstore "SDIFFSTORE" (negsuc 1) KReplyType.integer
    ∷ row KCommand.select "SELECT" (pos 1) KReplyType.status
    ∷ row KCommand.set "SET" (pos 2) KReplyType.status
    ∷ row KCommand.setbit "SETBIT" (pos 3) KReplyType.integer
    ∷ row KCommand.setex "SETEX" (pos 3) KReplyType.status
    ∷ row KCommand.setnx "SETNX" (pos 2) KReplyType.integer
    ∷ row KCommand.setrange "SETRANGE" (pos 3) KReplyType.integer
    ∷ row KCommand.shutdown "SHUTDOWN" argc_no_checking KReplyType.status
    ∷ row KCommand.sinter "SINTER" (negsuc 0) KReplyType.multi_bulk
    ∷ row KCommand.sinterstore "SINTERSTORE" (negsuc 1) KReplyType.integer
    ∷ row KCommand.sismember "SISMEMBER" (pos 2) KReplyType.integer
    ∷ row KCommand.slaveof "SLAVEOF" (pos 2) KReplyType.status
    ∷ row KCommand.slowlog "SLOWLOG" (pos 1) KReplyType.depends
    ∷ row KCommand.smembers "SMEMBERS" (pos 1) KReplyType.multi_bulk
    ∷ row KCommand.smove "SMOVE" (pos 3) KReplyType.integer
    ∷ row KCommand.sort "SORT" (negsuc 0) KReplyType.multi_bulk
    ∷ row KCommand.spop "SPOP" (pos 1) KReplyType.bulk
    ∷ row KCommand.srandmember "SRANDMEMBER" (pos 1) KReplyType.bulk
    ∷ row KCommand.srem "SREM" (negsuc 1) KReplyType.integer
    ∷ row KCommand.strlen "STRLEN" (pos 1) KReplyType.integer
    ∷ row KCommand.subscribe "SUBSCRIBE" (negsuc 0) KReplyType.special_multi_bulk
    ∷ row KCommand.sunion "SUNION" (negsuc 0) KReplyType.multi_bulk
    ∷ row KCommand.sunionstore "SUNIONSTORE" (negsuc 1) KReplyType.integer
    ∷ row KCommand.sync "SYNC" argc_no_checking KReplyType.depends
    ∷ row KCommand.time "TIME" (pos 0) KReplyType.multi_bulk
    ∷ row KCommand.ttl "TTL" (pos 1) KReplyType.integer
    ∷ row KCommand.type "TYPE" (pos 1) KReplyType.status
    ∷ row KCommand.unsubscribe "UNSUBSCRIBE" argc_no_checking KReplyType.special_multi_bulk
    ∷ row KCommand.unwatch "UNWATCH" (pos 0) KReplyType.status
    ∷ row KCommand.watch "WATCH" (negsuc 0) KReplyType.status
    ∷ row KCommand.zadd "ZADD" (negsuc 2) KReplyType.integer
    ∷ row KCommand.zcard "ZCARD" (pos 1) KReplyType.integer
    ∷ row KCommand.zcount "ZCOUNT" (pos 3) KReplyType.integer
    ∷ row KCommand.zincrby "ZINCRBY" (pos 3) KReplyType.bulk
    ∷ row KCommand.zinterstore "ZINTERSTORE" (negsuc 2) KReplyType.integer
    ∷ row KCommand.zrange "ZRANGE" (negsuc 2) KReplyType.multi_bulk
    ∷ row KCommand.zrangebyscore "ZRANGEBYSCORE" (negsuc 2) KReplyType.multi_bulk
    ∷ row KCommand.zrank "ZRANK" (pos 2) KReplyType.depends
    ∷ row KCommand.zrem "ZREM" (negsuc 1) KReplyType.integer
    ∷ row KCommand.zremrangebyrank "ZREMRANGEBYRANK" (pos 3) KReplyType.integer
    ∷ row KCommand.zremrangebyscore "ZREMRANGEBYSCORE" (pos 3) KReplyType.integer
    ∷ row KCommand.zrevrange "ZREVRANGE" (negsuc 2) KReplyType.multi_bulk
    ∷ row KCommand.zrevrangebyscore "ZREVRANGEBYSCORE" (negsuc 2) KReplyType.multi_bulk
    ∷ row KCommand.zrevrank "ZREVRANK" (pos 2) KReplyType.depends
    ∷ row KCommand.zscore "ZSCORE" (pos 2) KReplyType.bulk
    ∷ row KCommand.zunionstore "ZUNIONSTORE" (negsuc 2) KReplyType.integer
    ∷ row KCommand.command_max "COMMAND_MAX" argc_no_checking KReplyType.none_type
    ∷ []
