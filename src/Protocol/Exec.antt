-- ===== src/Protocol/Exec.antt =====
-- The operations of a `RedisProtocol` (src/redis_protocol.cpp) that read a reply, and those that write
-- and read.
pub mod Replying
pub mod Refusing
use librediscxx.Base.{
  ℕ, zero, suc, ◌+◌, ℤ, pos, negsuc, Bool, true, false, not, ◌&&◌, ◌||◌, List, [], ◌∷◌, ◌++◌,
  Option, none, some, Bytes, codes, ◌==◌, length, drop, get_or, if◌then◌else◌,
}
use librediscxx.Message.{
  Message, text, reply_type_error, integer_error, unexpected_reply, unexpected_integer,
}
use librediscxx.Os.World.{World}
use librediscxx.Os.Socket.Delivery.{delivered}
use librediscxx.Cmd.Command.{KCommand, KReplyType, CommandInfo, index}
use librediscxx.Cmd.Input.{RedisInput}
use librediscxx.Cmd.Output.{
  MBulks, RedisOutput, none_type, set_status, set_error, set_i, set_bulk, set_nil_bulk, set_mbulks,
  set_nil_mbulks, set_smbulks, set_nil_smbulks, RedisCommand,
}
use librediscxx.Tcp.Client
use librediscxx.Tcp.Buffer.{view}
use librediscxx.Protocol.Decimal.{parse_integer}
use librediscxx.Protocol.Conn.{Protocol, disconnect, close, read_line, read}
use librediscxx.Protocol.Request.{write_command, write_commandv}
use librediscxx.Protocol.Reply.{read_reply_at}

-- The bytes that can still be read.
abbrev pub bytes_left : Protocol → World → ℕ
bytes_left p w = length (view p.tcp.buffer) + length (delivered w.recvs)

unfoldable pub read_reply : RedisCommand → Protocol → World → Bool × RedisCommand × Protocol × World
unfolding read_reply_at
read_reply c p w =
    let (ok, o, p', w') = read_reply_at (suc (bytes_left p w)) true true c.inp c.out p w in
    (ok, record c { out = o }, p', w')

-- `if (!write…) return false; if (!read_reply(command)) return false; return true;`
pub then_read : Bool × RedisCommand × Protocol × World → Bool × RedisCommand × Protocol × World
then_read (true, c, p, w) = read_reply c p w
then_read (false, c, p, w) = (false, c, p, w)

unfoldable pub exec_command :
    RedisCommand → Protocol → World → Bool × RedisCommand × Protocol × World
unfolding then_read
exec_command c p w = then_read (write_command c p w)

unfoldable pub exec_commandv :
    (trim : Bytes → Bytes) (split : Bytes → List Bytes)
    → Bytes
    → RedisCommand
    → Protocol
    → World
    → Bool × RedisCommand × Protocol × World
unfolding then_read
exec_commandv trim split formatted c p w = then_read (write_commandv trim split formatted c p w)

broken : Message
broken = text (codes "connection has been broken during this pipeline operation")

-- `if (!tcp_client_->is_open())`, between two operations of a pipeline.
unfoldable pub still_open : Protocol → World → Bool × Protocol × World
unfolding Client.is_open close broken
still_open p w =
    let (alive, t, w') = Client.is_open p.tcp w in
    let p' = record p { tcp = t } in
    let (p'', w'') = close p' w' in
    if alive then (true, p', w') else (false, record p'' { error = broken }, w'')

abbrev pub Pipeline : Type 0
Pipeline = Bool × List RedisCommand × Protocol × World

-- One of the two loops: the operation on each command in turn, up to the first failure.
unfoldable pub pipeline_loop :
    (RedisCommand → Protocol → World → Bool × RedisCommand × Protocol × World)
    → List RedisCommand
    → Protocol
    → World
    → Pipeline
unfolding still_open
pipeline_loop op [] p w = (true, [], p, w)
pipeline_loop op (c ∷ cs) p w =
    let (ok, c', p₁, w₁) = op c p w in
    let (alive, p₂, w₂) = still_open p₁ w₁ in
    let (ok₃, cs₃, p₃, w₃) = pipeline_loop op cs p₂ w₂ in
    if not ok
    then (false, c' ∷ cs, p₁, w₁)
    else if alive
    then (ok₃, c' ∷ cs₃, p₃, w₃)
    else (false, c' ∷ cs, p₂, w₂)

read_replies : Pipeline → Pipeline
unfolding pipeline_loop
read_replies (true, cs, p, w) = pipeline_loop read_reply cs p w
read_replies (false, cs, p, w) = (false, cs, p, w)

unfoldable pub exec_pipeline : List RedisCommand → Protocol → World → Pipeline
unfolding read_replies
exec_pipeline cs p w = read_replies (pipeline_loop write_command cs p w)
