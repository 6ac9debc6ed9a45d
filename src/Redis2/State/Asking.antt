-- ===== src/Redis2/State/Asking.antt =====
-- A whole operation of `Redis2` (src/redis.cpp) against a server that follows the protocol.
use librediscxx.Base.{
  true, false, inl, inr, ap, ◌∙◌, ltb, ◌-◌, Bool-cases, arith, not, ◌&&◌, ◌≡◌, refl, List, [], ◌++◌,
  Option, some, Bytes,
}
use librediscxx.Os.World.{World}
use librediscxx.Os.Connect.{is_open_fast}
use librediscxx.Cmd.Command.{KCommand}
use librediscxx.Cmd.Output.{RedisOutput}
use librediscxx.Tcp.Client
use librediscxx.Protocol.Conn
use librediscxx.Protocol.Conn.{Protocol, was_open}
use librediscxx.Protocol.Conn.Lines.{Holds}
use librediscxx.Protocol.Request.Sending.{CanSend, text_of}
use librediscxx.Protocol.Reply.Wire.{put_output}
use librediscxx.Protocol.Exec.Replying.{
  Accepts, exec_command-Replies, exec_command-Exchanged, Exchanged, mode_after,
}
use librediscxx.Redis2.State.{
  Redis2, done, is_zero, command_of, is_not_open, is_now_connected, ensure_selected, assure_connect,
  exec, ask, value_or_error, query,
}

-- A connection that is open and was tested not long ago, on the client's database.
pub record Healthy (r : Redis2) (w : World) : Type 0 where
  pub is_open : Client.is_open r.proto.tcp w ≡ (true, r.proto.tcp, w)
  pub selected : (not (is_zero r.db_index) && r.db_index_select_failure) ≡ false

was_open-Healthy :
    (r : Redis2) (w : World) → Healthy r w → Conn.assure_connect r.proto w ≡ (was_open, r.proto, w)
unfolding Conn.assure_connect
was_open-Healthy r w h = rw h.is_open refl

ensure_selected-Healthy :
    (r : Redis2) (w : World) → Healthy r w → ensure_selected r w ≡ (true, r, w)
unfolding ensure_selected
ensure_selected-Healthy r w h = rw h.selected

pub assure_connect-Healthy :
    (r : Redis2) (w : World) → Healthy r w → assure_connect r w ≡ (true, r, w)
unfolding assure_connect is_not_open is_now_connected
assure_connect-Healthy r w h = rw (was_open-Healthy r w h) (ensure_selected-Healthy r w h)

-- An operation on a healthy connection (open, tested not long ago, and on the client's database) sends
-- its command with its arguments, returns the value that the operation takes from the server's reply,
-- when it takes one from it, and leaves what follows the reply. The command has as many arguments as
-- its row asks for, its request has fewer than 2^31 bytes, and the socket accepts every write. The
-- reply is one that the command takes: its mark is of the type of the command's row, or a status in a
-- transaction for the commands that are queued; it is not an error; a status has no carriage return, an
-- integer has 64 bits, and no bulk in it is empty (`$0`, which the code refuses). In a special
-- multi-bulk stands no error, every array is a special multi-bulk too, and the command is not one with
-- a flat type, MULTI or DISCARD. The client's buffer is well-formed, no poll fails or times out,
-- `errno` is neither EINVAL nor ERANGE (`parse_integer` fails on a stale one), and the bytes that are
-- to be read are the reply and what follows it, together shorter than 2^63 - 512.
pub query-done {ℓ} :
    {A : Type ℓ} (get : RedisOutput → Option A) (cmd : KCommand) (args : List Bytes)
    (o : RedisOutput) (a : A) (rest : Bytes) (r : Redis2) (w : World)
    → Healthy r w
    → w.sends ≡ []
    → CanSend (command_of cmd args)
    → Accepts (command_of cmd args).inp r.proto.transaction_mode o
    → Holds r.proto w (put_output o rest)
    → get o ≡ some a
    → let (v, r', w') = query get cmd args r w in
      (v ≡ done a)
      × Holds r'.proto w' rest
      × (w'.sent ≡ w.sent ++ text_of (command_of cmd args))
      × (r'.proto.tcp.fd ≡ r.proto.tcp.fd)
unfolding query ask exec value_or_error
query-done get cmd args o a rest r w healthy no_sends argc accepts holds e =
    let (ok, same, holds', fd, sent) =
      exec_command-Replies (command_of cmd args) o rest r.proto w argc no_sends accepts holds in
    rw (assure_connect-Healthy r w healthy, ok, same, e) (refl, holds', sent, fd)

fast_of :
    (c : Client.TcpClient) (w : World)
    → Client.is_open c w ≡ (true, c, w)
    → is_open_fast c.fd ≡ true
unfolding Client.is_open
fast_of c w e = elim (Bool-cases (is_open_fast c.fd)) [
  | inl yes_open ↦ yes_open
  | inr shut ↦ let bad : (false, c, w) ≡ (true, c, w) = rw shut at e in cc bad
]

soon_of :
    (c : Client.TcpClient) (w : World)
    → Client.is_open c w ≡ (true, c, w)
    → ltb 180 (w.clock - c.last_check_open_time) ≡ false
unfolding Client.is_open
soon_of c w e = elim (Bool-cases (ltb 180 (w.clock - c.last_check_open_time))) [
  | inr soon ↦ soon
  | inl late ↦
      let bad = rw (fast_of c w e, late) at e in
      let same : w.clock ≡ c.last_check_open_time = ap (λ q. q.1.last_check_open_time) bad in
      absurd (ground arith)
]

-- What else the process does between two calls leaves the connection healthy, as long as no time passes.
pub Healthy-shared : (r : Redis2) (w w' : World) → w'.clock ≡ w.clock → Healthy r w → Healthy r w'
unfolding Client.is_open
Healthy-shared r w w' clock h =
    let fast : is_open_fast r.proto.tcp.fd ≡ true = fast_of r.proto.tcp w h.is_open in
    let soon : ltb 180 (w'.clock - r.proto.tcp.last_check_open_time) ≡ false =
      rw clock (soon_of r.proto.tcp w h.is_open) in
    record { is_open = rw (fast, soon) refl; selected = h.selected }

open_after :
    (c c' : Client.TcpClient) (w w' : World)
    → Client.is_open c w ≡ (true, c, w)
    → c'.fd ≡ c.fd
    → w'.clock ≡ w.clock
    → c'.last_check_open_time ≡ w.clock
    → Client.is_open c' w' ≡ (true, c', w')
unfolding Client.is_open
open_after c c' w w' e fd clock check =
    let fast : is_open_fast c'.fd ≡ true = ap is_open_fast fd ∙ fast_of c w e in
    let soon : ltb 180 (w'.clock - c'.last_check_open_time) ≡ false = ground arith in
    rw (fast, soon) refl

pub Healthy-after :
    (r : Redis2) (p' : Conn.Protocol) (w w' : World)
    → Healthy r w
    → Exchanged r.proto w p' w'
    → Healthy (record r { proto = p' }) w'
Healthy-after r p' w w' h x = record {
  is_open = open_after r.proto.tcp p'.tcp w w' h.is_open x.fd x.clock x.check;
  selected = h.selected;
}

-- The same with the state that the operation leaves, in which the next one finds the connection healthy.
pub query-Healthy {ℓ} :
    {A : Type ℓ} (get : RedisOutput → Option A) (cmd : KCommand) (args : List Bytes)
    (o : RedisOutput) (a : A) (rest : Bytes) (r : Redis2) (w : World)
    → Healthy r w
    → w.sends ≡ []
    → CanSend (command_of cmd args)
    → Accepts (command_of cmd args).inp r.proto.transaction_mode o
    → Holds r.proto w (put_output o rest)
    → get o ≡ some a
    → let (v, r', w') = query get cmd args r w in
      (v ≡ done a)
      × Holds r'.proto w' rest
      × (w'.sent ≡ w.sent ++ text_of (command_of cmd args))
      × (r'.proto.transaction_mode
          ≡ mode_after (command_of cmd args).inp o r.proto.transaction_mode)
      × Healthy r' w'
      × (w'.sends ≡ [])
      × (r'.transaction_cmds ≡ r.transaction_cmds)
      × (w'.clock ≡ w.clock)
unfolding query ask exec value_or_error
query-Healthy get cmd args o a rest r w healthy no_sends argc accepts holds e =
    let (ok, same, holds', mode, sent, x) =
      exec_command-Exchanged (command_of cmd args) o rest r.proto w argc no_sends accepts holds in
    rw (assure_connect-Healthy r w healthy, ok, same, e)
      (refl, holds', sent, mode, Healthy-after r _ w _ healthy x, x.sends, refl, x.clock)
