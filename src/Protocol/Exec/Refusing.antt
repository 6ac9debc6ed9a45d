-- ===== src/Protocol/Exec/Refusing.antt =====
-- What is left after `read_reply` of src/redis_protocol.cpp has failed, and replies that it refuses.
use librediscxx.Base.{◌≡◌, true, false, suc}
use librediscxx.Os.World.{World}
use librediscxx.Cmd.Output.{RedisCommand}
use librediscxx.Protocol.Conn.{Protocol}
use librediscxx.Protocol.Reply.Closing.{Shut, ErrorSent, read_reply_at-Safe}
use librediscxx.Protocol.Exec.{bytes_left, read_reply}

-- When `read_reply` returns false, whatever the network and the server do, the connection is closed, or the server has
-- sent an error and the last error is its text: the first line read is that error, or it is the head of a special
-- multi-bulk of which some items were read and the next one is such an error. No other failure leaves the connection
-- open with half a reply on it.
pub read_reply-Shut :
    (c : RedisCommand) (p : Protocol) (w : World)
    → (read_reply c p w).0 ≡ false
    → Shut (ErrorSent (suc (bytes_left p w)) c.inp p w) (read_reply c p w).2 (read_reply c p w).3
unfolding read_reply
read_reply-Shut c p w h = read_reply_at-Safe (suc (bytes_left p w)) true true c.inp c.out p w h
