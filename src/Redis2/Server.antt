-- ===== src/Redis2/Server.antt =====
-- The operations of `Redis2` on the server and the connection (src/redis.cpp).
use librediscxx.Base.{ℤ, [], ◌∷◌, none, some, Bytes, if◌then◌else◌}
use librediscxx.Os.World.{World}
use librediscxx.Cmd.Command.{KCommand}
use librediscxx.Cmd.Output.{is_status, get_i, get_bulk}
use librediscxx.Redis2.State.{
  Redis2, done, failed, Call, Answer, ask, query, status_ok, status_pong, command_of,
}

unfoldable pub flushall : Redis2 → World → Call (Unit {0})
unfolding query status_ok
flushall = query status_ok KCommand.flushall []

unfoldable pub flushdb : Redis2 → World → Call (Unit {0})
unfolding query status_ok
flushdb = query status_ok KCommand.flushdb []

unfoldable pub ping : Redis2 → World → Call (Unit {0})
unfolding query status_pong
ping = query status_pong KCommand.ping []

-- Any status will do, and no error is set if there is none.
is_any_status : Answer → Call (Unit {0})
unfolding is_status
is_any_status (none, r, w) = (failed, r, w)
is_any_status (some c, r, w) = if is_status c.out then (done tt, r, w) else (failed, r, w)

unfoldable pub bgrewriteaof : Redis2 → World → Call (Unit {0})
unfolding ask command_of is_any_status
bgrewriteaof r w = is_any_status (ask (command_of KCommand.bgrewriteaof []) r w)

unfoldable pub bgsave : Redis2 → World → Call (Unit {0})
unfolding query status_ok
bgsave = query status_ok KCommand.bgsave []

unfoldable pub dbsize : Redis2 → World → Call ℤ
unfolding query get_i
dbsize = query get_i KCommand.dbsize []

unfoldable pub info : Redis2 → World → Call Bytes
unfolding query get_bulk
info = query get_bulk KCommand.info []

unfoldable pub info_section : Bytes → Redis2 → World → Call Bytes
unfolding query get_bulk
info_section section = query get_bulk KCommand.info (section ∷ [])

unfoldable pub lastsave : Redis2 → World → Call ℤ
unfolding query get_i
lastsave = query get_i KCommand.lastsave []

unfoldable pub slaveof : Bytes → Bytes → Redis2 → World → Call (Unit {0})
unfolding query status_ok
slaveof host port = query status_ok KCommand.slaveof (host ∷ port ∷ [])
