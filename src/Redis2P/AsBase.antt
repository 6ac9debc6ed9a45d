-- ===== src/Redis2P/AsBase.antt =====
-- `Redis2P` as a client (src/redis_partition.h): each operation of the interface is the one of the class.
use librediscxx.Redis2P.State.{Redis2P, Networks}
use librediscxx.Redis2P.KeyCalls
use librediscxx.Redis2P.StringCalls
use librediscxx.Redis2P.HashCalls
use librediscxx.Redis2P.ListCalls
use librediscxx.Redis2P.SetCalls
use librediscxx.Redis2P.SortedSetCalls
use librediscxx.Redis2P.SplitCalls
use librediscxx.Redis2.State.{Doubles}
use librediscxx.Redis2P.State.{with_error}
use librediscxx.RedisBase.Interface.{
  RedisBase2, KeyCommands, StringCommands, HashCommands, ListCommands, SetCommands,
  SortedSetCommands, ServerCommands,
}

abbrev pub redis2p_keys : KeyCommands Redis2P Networks
redis2p_keys = record {
  del = KeyCalls.del;
  del_keys = SplitCalls.del_keys;
  dump = KeyCalls.dump;
  exists = KeyCalls.exists;
  expire = KeyCalls.expire;
  expireat = KeyCalls.expireat;
  keys = SplitCalls.keys;
  move = KeyCalls.move;
  persist = KeyCalls.persist;
  pexpire = KeyCalls.pexpire;
  pexpireat = KeyCalls.pexpireat;
  pttl = KeyCalls.pttl;
  restore = KeyCalls.restore;
  randomkey = SplitCalls.randomkey;
  sort = KeyCalls.sort;
  ttl = KeyCalls.ttl;
  type = KeyCalls.type;
}

abbrev pub redis2p_strings : (D : Doubles) → StringCommands D Redis2P Networks
redis2p_strings D = record {
  append = StringCalls.append;
  decr = StringCalls.decr;
  decrby = StringCalls.decrby;
  get = StringCalls.get;
  getbit = StringCalls.getbit;
  getrange = StringCalls.getrange;
  getset = StringCalls.getset;
  incr = StringCalls.incr;
  incrby = StringCalls.incrby;
  incrbyfloat = StringCalls.incrbyfloat D;
  mget = SplitCalls.mget;
  mset = SplitCalls.mset;
  psetex = StringCalls.psetex;
  set = StringCalls.set;
  setbit = StringCalls.setbit;
  setex = StringCalls.setex;
  setnx = StringCalls.setnx;
  setrange = StringCalls.setrange;
  strlen = StringCalls.strlen;
}

abbrev pub redis2p_hashes : (D : Doubles) → HashCommands D Redis2P Networks
redis2p_hashes D = record {
  hdel = HashCalls.hdel;
  hdel_fields = HashCalls.hdel_fields;
  hexists = HashCalls.hexists;
  hget = HashCalls.hget;
  hgetall = HashCalls.hgetall;
  hincr = HashCalls.hincr;
  hincrby = HashCalls.hincrby;
  hincrbyfloat = HashCalls.hincrbyfloat D;
  hkeys = HashCalls.hkeys;
  hlen = HashCalls.hlen;
  hmget = HashCalls.hmget;
  hmset = HashCalls.hmset;
  hset = HashCalls.hset;
  hsetnx = HashCalls.hsetnx;
  hvals = HashCalls.hvals;
}

abbrev pub redis2p_lists : ListCommands Redis2P Networks
redis2p_lists = record {
  lindex = ListCalls.lindex;
  linsert = ListCalls.linsert;
  llen = ListCalls.llen;
  lpop = ListCalls.lpop;
  lpush = ListCalls.lpush;
  lpush_values = ListCalls.lpush_values;
  lpushx = ListCalls.lpushx;
  lrange = ListCalls.lrange;
  lrem = ListCalls.lrem;
  lset = ListCalls.lset;
  ltrim = ListCalls.ltrim;
  rpop = ListCalls.rpop;
  rpush = ListCalls.rpush;
  rpush_values = ListCalls.rpush_values;
  rpushx = ListCalls.rpushx;
}

abbrev pub redis2p_sets : SetCommands Redis2P Networks
redis2p_sets = record {
  sadd = SetCalls.sadd;
  sadd_members = SetCalls.sadd_members;
  scard = SetCalls.scard;
  sismember = SetCalls.sismember;
  smembers = SetCalls.smembers;
  spop = SetCalls.spop;
  srandmember = SetCalls.srandmember;
  srem = SetCalls.srem;
  srem_members = SetCalls.srem_members;
}

abbrev pub redis2p_sorted_sets : (D : Doubles) → SortedSetCommands D Redis2P Networks
redis2p_sorted_sets D = record {
  zadd = SortedSetCalls.zadd D;
  zadd_members = SortedSetCalls.zadd_members D;
  zcard = SortedSetCalls.zcard;
  zcount = SortedSetCalls.zcount;
  zincrby = SortedSetCalls.zincrby D;
  zrange = SortedSetCalls.zrange;
  zrevrange = SortedSetCalls.zrevrange;
  zrangebyscore = SortedSetCalls.zrangebyscore;
  zrevrangebyscore = SortedSetCalls.zrevrangebyscore;
  zrank = SortedSetCalls.zrank;
  zrevrank = SortedSetCalls.zrevrank;
  zrem = SortedSetCalls.zrem;
  zrem_members = SortedSetCalls.zrem_members;
  zremrangebyrank = SortedSetCalls.zremrangebyrank;
  zremrangebyscore = SortedSetCalls.zremrangebyscore;
  zscore = SortedSetCalls.zscore D;
}

abbrev pub redis2p_server : ServerCommands Redis2P Networks
redis2p_server = record {
  select = SplitCalls.select;
  flushall = SplitCalls.flushall;
  flushdb = SplitCalls.flushdb;
}

abbrev pub redis2p_base : (D : Doubles) → RedisBase2 D Redis2P Networks
redis2p_base D = record {
  set_last_error = with_error;
  last_error = λ m. m.error;
  keys = redis2p_keys;
  strings = redis2p_strings D;
  hashes = redis2p_hashes D;
  lists = redis2p_lists;
  sets = redis2p_sets;
  sorted_sets = redis2p_sorted_sets D;
  server = redis2p_server;
}
