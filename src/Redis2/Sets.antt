-- ===== src/Redis2/Sets.antt =====
-- The operations of `Redis2` on sets (src/redis.cpp).
use librediscxx.Base.{ℤ, List, [], ◌∷◌, Option, Bytes}
use librediscxx.Os.World.{World}
use librediscxx.Cmd.Command.{KCommand}
use librediscxx.Cmd.Output.{MBulks, get_i, get_mbulks}
use librediscxx.Redis2.State.{Redis2, Call, query, bulk_or_nil}

unfoldable pub sadd : Bytes → Bytes → Redis2 → World → Call ℤ
unfolding query get_i
sadd key member = query get_i KCommand.sadd (key ∷ member ∷ [])

unfoldable pub sadd_members : Bytes → List Bytes → Redis2 → World → Call ℤ
unfolding query get_i
sadd_members key members = query get_i KCommand.sadd (key ∷ members)

unfoldable pub scard : Bytes → Redis2 → World → Call ℤ
unfolding query get_i
scard key = query get_i KCommand.scard (key ∷ [])

unfoldable pub sismember : Bytes → Bytes → Redis2 → World → Call ℤ
unfolding query get_i
sismember key member = query get_i KCommand.sismember (key ∷ member ∷ [])

unfoldable pub smembers : Bytes → Redis2 → World → Call MBulks
unfolding query get_mbulks
smembers key = query get_mbulks KCommand.smembers (key ∷ [])

unfoldable pub spop : Bytes → Redis2 → World → Call (Option Bytes)
unfolding query bulk_or_nil
spop key = query bulk_or_nil KCommand.spop (key ∷ [])

unfoldable pub srandmember : Bytes → Redis2 → World → Call (Option Bytes)
unfolding query bulk_or_nil
srandmember key = query bulk_or_nil KCommand.srandmember (key ∷ [])

unfoldable pub srem : Bytes → Bytes → Redis2 → World → Call ℤ
unfolding query get_i
srem key member = query get_i KCommand.srem (key ∷ member ∷ [])

unfoldable pub srem_members : Bytes → List Bytes → Redis2 → World → Call ℤ
unfolding query get_i
srem_members key members = query get_i KCommand.srem (key ∷ members)

unfoldable pub sdiff : List Bytes → Redis2 → World → Call MBulks
unfolding query get_mbulks
sdiff keys = query get_mbulks KCommand.sdiff keys

unfoldable pub sdiffstore : Bytes → List Bytes → Redis2 → World → Call ℤ
unfolding query get_i
sdiffstore destination keys = query get_i KCommand.sdiffstore (destination ∷ keys)

unfoldable pub sinter : List Bytes → Redis2 → World → Call MBulks
unfolding query get_mbulks
sinter keys = query get_mbulks KCommand.sinter keys

unfoldable pub sinterstore : Bytes → List Bytes → Redis2 → World → Call ℤ
unfolding query get_i
sinterstore destination keys = query get_i KCommand.sinterstore (destination ∷ keys)

unfoldable pub smove : Bytes → Bytes → Bytes → Redis2 → World → Call ℤ
unfolding query get_i
smove source destination member = query get_i KCommand.smove (source ∷ destination ∷ member ∷ [])

unfoldable pub sunion : List Bytes → Redis2 → World → Call MBulks
unfolding query get_mbulks
sunion keys = query get_mbulks KCommand.sunion keys

unfoldable pub sunionstore : Bytes → List Bytes → Redis2 → World → Call ℤ
unfolding query get_i
sunionstore destination keys = query get_i KCommand.sunionstore (destination ∷ keys)
