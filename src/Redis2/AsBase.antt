-- ===== src/Redis2/AsBase.antt =====
-- `Redis2` as a client (src/redis.h): each operation of the interface is the one of the class.
use librediscxx.Base.{List, Bytes}
use librediscxx.Os.World.{World}
use librediscxx.Redis2.Keys
use librediscxx.Redis2.Strings
use librediscxx.Redis2.Hashes
use librediscxx.Redis2.Lists
use librediscxx.Redis2.Sets
use librediscxx.Redis2.SortedSets
use librediscxx.Redis2.Server
use librediscxx.Redis2.Transactions
use librediscxx.Redis2.State
use librediscxx.Redis2.State.{Redis2, Doubles}
use librediscxx.RedisBase.Interface.{
  RedisBase2, KeyCommands, StringCommands, HashCommands, ListCommands, SetCommands,
  SortedSetCommands, ServerCommands,
}
use librediscxx.RedisBase.Single.{RedisBase2Single}

abbrev pub redis2_keys : KeyCommands Redis2 World
redis2_keys = record {
  del = Keys.del;
  del_keys = Keys.del_keys;
  dump = Keys.dump;
  exists = Keys.exists;
  expire = Keys.expire;
  expireat = Keys.expireat;
  keys = Keys.keys;
  move = Keys.move;
  persist = Keys.persist;
  pexpire = Keys.pexpire;
  pexpireat = Keys.pexpireat;
  pttl = Keys.pttl;
  restore = Keys.restore;
  randomkey = Keys.randomkey;
  sort = Keys.sort;
  ttl = Keys.ttl;
  type = Keys.type;
}

abbrev pub redis2_strings : (D : Doubles) → StringCommands D Redis2 World
redis2_strings D = record {
  append = Strings.append;
  decr = Strings.decr;
  decrby = Strings.decrby;
  get = Strings.get;
  getbit = Strings.getbit;
  getrange = Strings.getrange;
  getset = Strings.getset;
  incr = Strings.incr;
  incrby = Strings.incrby;
  incrbyfloat = Strings.incrbyfloat D;
  mget = Strings.mget;
  mset = Strings.mset;
  psetex = Strings.psetex;
  set = Strings.set;
  setbit = Strings.setbit;
  setex = Strings.setex;
  setnx = Strings.setnx;
  setrange = Strings.setrange;
  strlen = Strings.strlen;
}

abbrev pub redis2_hashes : (D : Doubles) → HashCommands D Redis2 World
redis2_hashes D = record {
  hdel = Hashes.hdel;
  hdel_fields = Hashes.hdel_fields;
  hexists = Hashes.hexists;
  hget = Hashes.hget;
  hgetall = Hashes.hgetall;
  hincr = Hashes.hincr;
  hincrby = Hashes.hincrby;
  hincrbyfloat = Hashes.hincrbyfloat D;
  hkeys = Hashes.hkeys;
  hlen = Hashes.hlen;
  hmget = Hashes.hmget;
  hmset = Hashes.hmset;
  hset = Hashes.hset;
  hsetnx = Hashes.hsetnx;
  hvals = Hashes.hvals;
}

abbrev pub redis2_lists : ListCommands Redis2 World
redis2_lists = record {
  lindex = Lists.lindex;
  linsert = Lists.linsert;
  llen = Lists.llen;
  lpop = Lists.lpop;
  lpush = Lists.lpush;
  lpush_values = Lists.lpush_values;
  lpushx = Lists.lpushx;
  lrange = Lists.lrange;
  lrem = Lists.lrem;
  lset = Lists.lset;
  ltrim = Lists.ltrim;
  rpop = Lists.rpop;
  rpush = Lists.rpush;
  rpush_values = Lists.rpush_values;
  rpushx = Lists.rpushx;
}

abbrev pub redis2_sets : SetCommands Redis2 World
redis2_sets = record {
  sadd = Sets.sadd;
  sadd_members = Sets.sadd_members;
  scard = Sets.scard;
  sismember = Sets.sismember;
  smembers = Sets.smembers;
  spop = Sets.spop;
  srandmember = Sets.srandmember;
  srem = Sets.srem;
  srem_members = Sets.srem_members;
}

abbrev pub redis2_sorted_sets : (D : Doubles) → SortedSetCommands D Redis2 World
redis2_sorted_sets D = record {
  zadd = SortedSets.zadd D;
  zadd_members = SortedSets.zadd_members D;
  zcard = SortedSets.zcard;
  zcount = SortedSets.zcount;
  zincrby = SortedSets.zincrby D;
  zrange = SortedSets.zrange;
  zrevrange = SortedSets.zrevrange;
  zrangebyscore = SortedSets.zrangebyscore;
  zrevrangebyscore = SortedSets.zrevrangebyscore;
  zrank = SortedSets.zrank;
  zrevrank = SortedSets.zrevrank;
  zrem = SortedSets.zrem;
  zrem_members = SortedSets.zrem_members;
  zremrangebyrank = SortedSets.zremrangebyrank;
  zremrangebyscore = SortedSets.zremrangebyscore;
  zscore = SortedSets.zscore D;
}

abbrev pub redis2_server : ServerCommands Redis2 World
redis2_server = record {
  select = State.select;
  flushall = Server.flushall;
  flushdb = Server.flushdb;
}

abbrev pub redis2_base : (D : Doubles) → RedisBase2 D Redis2 World
redis2_base D = record {
  set_last_error = State.last_error;
  last_error = λ r. r.proto.error;
  keys = redis2_keys;
  strings = redis2_strings D;
  hashes = redis2_hashes D;
  lists = redis2_lists;
  sets = redis2_sets;
  sorted_sets = redis2_sorted_sets D;
  server = redis2_server;
}

abbrev pub redis2_single :
    (D : Doubles) (trim : Bytes → Bytes) (split : Bytes → List Bytes)
    → RedisBase2Single D Redis2 World
redis2_single D trim split = record {
  rename = Keys.rename;
  renamenx = Keys.renamenx;
  blpop = Lists.blpop;
  brpop = Lists.brpop;
  brpoplpush = Lists.brpoplpush;
  rpoplpush = Lists.rpoplpush;
  sdiff = Sets.sdiff;
  sdiffstore = Sets.sdiffstore;
  sinter = Sets.sinter;
  sinterstore = Sets.sinterstore;
  smove = Sets.smove;
  sunion = Sets.sunion;
  sunionstore = Sets.sunionstore;
  zinterstore = SortedSets.zinterstore D;
  zunionstore = SortedSets.zunionstore D;
  exec_command = Transactions.exec_command;
  exec_formatted = Transactions.exec_formatted trim split;
  exec_pipeline = Transactions.exec_pipeline;
  publish = Transactions.publish;
  multi = Transactions.multi;
  unwatch = Transactions.unwatch;
  watch = Transactions.watch;
  add_command = Transactions.add_command;
  add_formatted = Transactions.add_formatted trim split;
  exec_transaction = Transactions.exec_transaction;
  discard = Transactions.discard;
  ping = Server.ping;
  bgrewriteaof = Server.bgrewriteaof;
  bgsave = Server.bgsave;
  dbsize = Server.dbsize;
  info = Server.info;
  info_section = Server.info_section;
  lastsave = Server.lastsave;
  slaveof = Server.slaveof;
}
