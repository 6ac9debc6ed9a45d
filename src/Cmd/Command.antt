-- ===== src/Cmd/Command.antt =====
-- The command enumeration and the reply types of src/redis_cmd.h.
use librediscxx.Base.{ℕ, ℤ, negsuc, Bytes}

pub data KCommand : Type 0 where
  noop append auth bgrewriteaof bgsave bitcount bitop blpop : KCommand
  brpop brpoplpush config dbsize debug decr decrby del : KCommand
  discard dump echo eval evalsha exec exists expire : KCommand
  expireat flushall flushdb get getbit getrange getset hdel : KCommand
  hexists hget hgetall hincrby hincrbyfloat hkeys hlen hmget : KCommand
  hmset hset hsetnx hvals incr incrby incrbyfloat info : KCommand
  keys lastsave lindex linsert llen lpop lpush lpushx : KCommand
  lrange lrem lset ltrim mget migrate monitor move : KCommand
  mset msetnx multi object persist pexpire pexpireat ping : KCommand
  psetex psubscribe pttl publish punsubscribe quit randomkey rename : KCommand
  renamenx restore rpop rpoplpush rpush rpushx sadd save : KCommand
  scard script sdiff sdiffstore select set setbit setex : KCommand
  setnx setrange shutdown sinter sinterstore sismember slaveof slowlog : KCommand
  smembers smove sort spop srandmember srem strlen subscribe : KCommand
  sunion sunionstore sync time ttl type unsubscribe unwatch : KCommand
  watch zadd zcard zcount zincrby zinterstore zrange zrangebyscore : KCommand
  zrank zrem zremrangebyrank zremrangebyscore zrevrange zrevrangebyscore zrevrank zscore : KCommand
  zunionstore command_max : KCommand

pub data KReplyType : Type 0 where
  none_type status error integer bulk multi_bulk special_multi_bulk depends : KReplyType

-- The value of an enumerator: its position, from NOOP = 0.
unfoldable pub index : KCommand → ℕ
index KCommand.noop = 0
index KCommand.append = 1
index KCommand.auth = 2
index KCommand.bgrewriteaof = 3
index KCommand.bgsave = 4
index KCommand.bitcount = 5
index KCommand.bitop = 6
index KCommand.blpop = 7
index KCommand.brpop = 8
index KCommand.brpoplpush = 9
index KCommand.config = 10
index KCommand.dbsize = 11
index KCommand.debug = 12
index KCommand.decr = 13
index KCommand.decrby = 14
index KCommand.del = 15
index KCommand.discard = 16
index KCommand.dump = 17
index KCommand.echo = 18
index KCommand.eval = 19
index KCommand.evalsha = 20
index KCommand.exec = 21
index KCommand.exists = 22
index KCommand.expire = 23
index KCommand.expireat = 24
index KCommand.flushall = 25
index KCommand.flushdb = 26
index KCommand.get = 27
index KCommand.getbit = 28
index KCommand.getrange = 29
index KCommand.getset = 30
index KCommand.hdel = 31
index KCommand.hexists = 32
index KCommand.hget = 33
index KCommand.hgetall = 34
index KCommand.hincrby = 35
index KCommand.hincrbyfloat = 36
index KCommand.hkeys = 37
index KCommand.hlen = 38
index KCommand.hmget = 39
index KCommand.hmset = 40
index KCommand.hset = 41
index KCommand.hsetnx = 42
index KCommand.hvals = 43
index KCommand.incr = 44
index KCommand.incrby = 45
index KCommand.incrbyfloat = 46
index KCommand.info = 47
index KCommand.keys = 48
index KCommand.lastsave = 49
index KCommand.lindex = 50
index KCommand.linsert = 51
index KCommand.llen = 52
index KCommand.lpop = 53
index KCommand.lpush = 54
index KCommand.lpushx = 55
index KCommand.lrange = 56
index KCommand.lrem = 57
index KCommand.lset = 58
index KCommand.ltrim = 59
index KCommand.mget = 60
index KCommand.migrate = 61
index KCommand.monitor = 62
index KCommand.move = 63
index KCommand.mset = 64
index KCommand.msetnx = 65
index KCommand.multi = 66
index KCommand.object = 67
index KCommand.persist = 68
index KCommand.pexpire = 69
index KCommand.pexpireat = 70
index KCommand.ping = 71
index KCommand.psetex = 72
index KCommand.psubscribe = 73
index KCommand.pttl = 74
index KCommand.publish = 75
index KCommand.punsubscribe = 76
index KCommand.quit = 77
index KCommand.randomkey = 78
index KCommand.rename = 79
index KCommand.renamenx = 80
index KCommand.restore = 81
index KCommand.rpop = 82
index KCommand.rpoplpush = 83
index KCommand.rpush = 84
index KCommand.rpushx = 85
index KCommand.sadd = 86
index KCommand.save = 87
index KCommand.scard = 88
index KCommand.script = 89
index KCommand.sdiff = 90
index KCommand.sdiffstore = 91
index KCommand.select = 92
index KCommand.set = 93
index KCommand.setbit = 94
index KCommand.setex = 95
index KCommand.setnx = 96
index KCommand.setrange = 97
index KCommand.shutdown = 98
index KCommand.sinter = 99
index KCommand.sinterstore = 100
index KCommand.sismember = 101
index KCommand.slaveof = 102
index KCommand.slowlog = 103
index KCommand.smembers = 104
index KCommand.smove = 105
index KCommand.sort = 106
index KCommand.spop = 107
index KCommand.srandmember = 108
index KCommand.srem = 109
index KCommand.strlen = 110
index KCommand.subscribe = 111
index KCommand.sunion = 112
index KCommand.sunionstore = 113
index KCommand.sync = 114
index KCommand.time = 115
index KCommand.ttl = 116
index KCommand.type = 117
index KCommand.unsubscribe = 118
index KCommand.unwatch = 119
index KCommand.watch = 120
index KCommand.zadd = 121
index KCommand.zcard = 122
index KCommand.zcount = 123
index KCommand.zincrby = 124
index KCommand.zinterstore = 125
index KCommand.zrange = 126
index KCommand.zrangebyscore = 127
index KCommand.zrank = 128
index KCommand.zrem = 129
index KCommand.zremrangebyrank = 130
index KCommand.zremrangebyscore = 131
index KCommand.zrevrange = 132
index KCommand.zrevrangebyscore = 133
index KCommand.zrevrank = 134
index KCommand.zscore = 135
index KCommand.zunionstore = 136
index KCommand.command_max = 137

pub record CommandInfo : Type 0 where
  pub command : KCommand
  pub command_str : Bytes
  pub argc : ℤ
  pub reply_type : KReplyType

-- ARGC_NO_CHECKING is -65535.
abbrev pub argc_no_checking : ℤ
argc_no_checking = negsuc 65534
