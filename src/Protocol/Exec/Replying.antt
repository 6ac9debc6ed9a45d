-- ===== src/Protocol/Exec/Replying.antt =====
-- `read_reply` and `exec_command` of src/redis_protocol.cpp against a server that follows the protocol.
use librediscxx.Base.{
  ℕ, suc, ◌≤◌, pos, IsInt64, ◌≡◌, sym, ap, subst, ◌∙◌, Bool, true, [], ◌++◌, none, some, Bytes,
  Lacks, arith, length, length-append,
}
use librediscxx.Os.World.{World}
use librediscxx.Os.Socket.Delivery.{delivered}
use librediscxx.Cmd.Command.{KReplyType}
use librediscxx.Cmd.Input.{RedisInput}
use librediscxx.Cmd.Output.{
  RedisOutput, none_type, status, error, integer, bulk, mbulks, smbulks, nil_smbulks, to_list,
  RedisCommand,
}
use librediscxx.Tcp.Buffer.{view}
use librediscxx.Protocol.Decimal.{show_int}
use librediscxx.Protocol.Conn.{Protocol}
use librediscxx.Protocol.Conn.Lines.{Holds, Still}
use librediscxx.Protocol.Bulk.Wire.{NotEmpty, NotEmptys}
use librediscxx.Protocol.Request.{write_command}
use librediscxx.Protocol.Request.Sending.{CanSend, text_of, write_command-all}
use librediscxx.Protocol.Reply.{checks_type, expected_type, mode_after_status, read_reply_at}
use librediscxx.Protocol.Reply.Wire.{
  put_output, put_outputs, Readables, Replies, Special, mode_after_special,
}
use librediscxx.Protocol.Reply.Nested.{
  Fits, Plain, status_line, integer_line, bulk_line, mbulks_line, nil_line, smbulks_line,
}
use librediscxx.Protocol.Reply.Depth.{length-put_outputs, children-Gives, length-put_line}
use librediscxx.Protocol.Exec.{bytes_left, read_reply, then_read, exec_command}

-- A reply that a command takes: its mark is of the expected type, and its parts are readable.
abbrev pub Accepts : RedisInput → Bool → RedisOutput → Type 0
Accepts inp m none_type = ⊥
Accepts inp m (status none) = ⊥
Accepts inp m (status (some s)) = Fits KReplyType.status true inp m × Lacks 13 s
Accepts inp m (error e) = ⊥
Accepts inp m (integer none) = ⊥
Accepts inp m (integer (some i)) = Fits KReplyType.integer true inp m × IsInt64 i
Accepts inp m (bulk b) = Fits KReplyType.bulk true inp m × NotEmpty b
Accepts inp m (mbulks bs) = (expected_type true inp m ≡ KReplyType.multi_bulk) × NotEmptys bs
Accepts inp m (smbulks os) =
    Special (checks_type true inp) (expected_type true inp m) × Plain inp × Readables os
Accepts inp m nil_smbulks = Special (checks_type true inp) (expected_type true inp m)

-- The transaction mode after a reply: MULTI enters it, DISCARD and EXEC leave it.
abbrev pub mode_after : RedisInput → RedisOutput → Bool → Bool
mode_after inp (status s) m = mode_after_status inp.command m
mode_after inp (smbulks os) m = mode_after_special true inp m
mode_after inp nil_smbulks m = mode_after_special true inp m
mode_after inp _ m = m

top_line :
    (f : ℕ) (inp : RedisInput) (o₀ o : RedisOutput) (rest : Bytes) (p : Protocol) (w : World)
    → Accepts inp p.transaction_mode o
    → length (put_output o rest) ≤ suc f
    → Holds p w (put_output o rest)
    → Replies p w rest o
        (mode_after inp o p.transaction_mode)
        (read_reply_at (suc f) true true inp o₀ p w)
unfolding put_output to_list
top_line f inp o₀ none_type rest p w h enough holds = elim h [ ]
top_line f inp o₀ (status none) rest p w h enough holds = elim h [ ]
top_line f inp o₀ (status (some s)) rest p w (fits, lacks) enough holds =
    status_line f true true inp o₀ s rest p w fits lacks holds
top_line f inp o₀ (error e) rest p w h enough holds = elim h [ ]
top_line f inp o₀ (integer none) rest p w h enough holds = elim h [ ]
top_line f inp o₀ (integer (some i)) rest p w (fits, small) enough holds =
    integer_line f true true inp o₀ i rest p w fits small holds
top_line f inp o₀ (bulk b) rest p w (fits, full) enough holds =
    bulk_line f true true inp o₀ b rest p w fits full holds
top_line f inp o₀ (mbulks bs) rest p w (flat, full) enough holds =
    mbulks_line f true true inp o₀ bs rest p w flat full holds
top_line f inp o₀ (smbulks os) rest p w (fits, plain, ready) enough holds =
    smbulks_line f true true inp o₀ os rest p w fits
      (omega (arith, length-put_outputs os rest ready))
      (λ q v holds'.
        children-Gives os f inp rest q v plain ready
          (omega (
            arith,
            length-put_line b'*' (show_int (pos (length (to_list os)))) (put_outputs os rest),
          ))
          holds')
      holds
top_line f inp o₀ nil_smbulks rest p w fits enough holds =
    nil_line f true true inp o₀ rest p w fits holds

-- The same with all that reading leaves as it is.
pub read_reply-Still :
    (c : RedisCommand) (o : RedisOutput) (rest : Bytes) (p : Protocol) (w : World)
    → Accepts c.inp p.transaction_mode o
    → Holds p w (put_output o rest)
    → let (ok, c', p', w') = read_reply c p w in
      (ok ≡ true)
      × (c' ≡ record c { out = o })
      × Holds p' w' rest
      × (p'.tcp.fd ≡ p.tcp.fd)
      × (p'.transaction_mode ≡ mode_after c.inp o p.transaction_mode)
      × Still p w p' w'
unfolding read_reply
read_reply-Still c o rest p w h holds =
    let whole : length (put_output o rest) ≡ bytes_left p w =
      sym (ap length holds.bytes) ∙ length-append (view p.tcp.buffer) (delivered w.recvs) in
    let (ok, e, holds', fd, mode, still) =
      top_line (bytes_left p w) c.inp c.out o rest p w h (omega (arith, whole)) holds in
    (ok, ap (λ x. record c { out = x }) e, holds', fd, mode, still)

-- A server's reply is read as the value that it stands for, whatever pieces the network delivers it in;
-- nothing of what follows it is taken, the connection stays open, and the transaction mode is the one
-- that the command and its reply lead to. The reply is one that the command takes: its mark is of the
-- type of the command's row, or a status in a transaction for the commands that are queued; it is not
-- an error; a status has no carriage return, an integer has 64 bits, and no bulk in it is empty (`$0`,
-- which the code refuses). In a special multi-bulk stands no error, every array is a special multi-bulk
-- too, and the command is not one with a flat type, MULTI or DISCARD. The client's buffer is
-- well-formed, no poll fails or times out, `errno` is neither EINVAL nor ERANGE (`parse_integer` fails
-- on a stale one), and the bytes that are to be read are the reply and what follows it, together
-- shorter than 2^63 - 512.
pub read_reply-Replies :
    (c : RedisCommand) (o : RedisOutput) (rest : Bytes) (p : Protocol) (w : World)
    → Accepts c.inp p.transaction_mode o
    → Holds p w (put_output o rest)
    → let (ok, c', p', w') = read_reply c p w in
      (ok ≡ true)
      × (c' ≡ record c { out = o })
      × Holds p' w' rest
      × (p'.tcp.fd ≡ p.tcp.fd)
      × (p'.transaction_mode ≡ mode_after c.inp o p.transaction_mode)
      × (w'.sent ≡ w.sent)
read_reply-Replies c o rest p w h holds =
    let (ok, e, holds', fd, mode, still) = read_reply-Still c o rest p w h holds in
    (ok, e, holds', fd, mode, still.sent)

Holds-after_write :
    (p p' : Protocol) (w w' : World) (s : Bytes)
    → p'.tcp.buffer ≡ p.tcp.buffer
    → w'.recvs ≡ w.recvs
    → w'.polls ≡ []
    → w'.errno ≡ w.errno
    → Holds p w s
    → Holds p' w' s
Holds-after_write p p' w w' s buffer recvs polls errno h = record {
  inv = rw buffer h.inv;
  polls = polls;
  not_einval = λ bad. h.not_einval (sym errno ∙ bad);
  not_erange = λ bad. h.not_erange (sym errno ∙ bad);
  bytes =
      ap (λ b. view b ++ delivered w'.recvs) buffer
      ∙ ap (λ r. view p.tcp.buffer ++ delivered r) recvs
      ∙ h.bytes;
  short = h.short;
}

-- What an exchange leaves of the network and the time of the last check.
pub record Exchanged (p : Protocol) (w : World) (p' : Protocol) (w' : World) : Type 0 where
  pub fd : p'.tcp.fd ≡ p.tcp.fd
  pub sends : w'.sends ≡ []
  pub clock : w'.clock ≡ w.clock
  pub check : p'.tcp.last_check_open_time ≡ w.clock

pub exec_command-Exchanged :
    (c : RedisCommand) (o : RedisOutput) (rest : Bytes) (p : Protocol) (w : World)
    → CanSend c
    → w.sends ≡ []
    → Accepts c.inp p.transaction_mode o
    → Holds p w (put_output o rest)
    → let (ok, c', p', w') = exec_command c p w in
      (ok ≡ true)
      × (c' ≡ record c { out = o })
      × Holds p' w' rest
      × (p'.transaction_mode ≡ mode_after c.inp o p.transaction_mode)
      × (w'.sent ≡ w.sent ++ text_of c)
      × Exchanged p w p' w'
unfolding exec_command then_read
exec_command-Exchanged c o rest p w argc no_sends h holds =
    let (ok, same, fd, buffer, mode, sent, recvs, polls, errno, sends, clock, check) =
      write_command-all c p w argc holds.polls no_sends in
    let q = (write_command c p w).2 in
    let v = (write_command c p w).3 in
    let (ok', e, holds', fd', mode', still) =
      read_reply-Still c o rest q v (subst (λ m. Accepts c.inp m o) (sym mode) h)
        (Holds-after_write p q w v _ buffer recvs polls errno holds) in
    rw (ok, same)
      (
        ok',
        e,
        holds',
        mode' ∙ ap (mode_after c.inp o) mode,
        still.sent ∙ sent,
        record {
          fd = fd' ∙ fd;
          sends = still.sends ∙ sends;
          clock = still.clock ∙ clock;
          check = still.check ∙ check;
        },
      )

-- A whole exchange: the request goes out, and the reply comes back into the command, with nothing of
-- what follows it taken and the connection still open. The command has as many arguments as its row
-- asks for, its request has fewer than 2^31 bytes, and the socket accepts every write. The reply is one
-- that the command takes: its mark is of the type of the command's row, or a status in a transaction
-- for the commands that are queued; it is not an error; a status has no carriage return, an integer has
-- 64 bits, and no bulk in it is empty (`$0`, which the code refuses). In a special multi-bulk stands no
-- error, every array is a special multi-bulk too, and the command is not one with a flat type, MULTI or
-- DISCARD. The client's buffer is well-formed, no poll fails or times out, `errno` is neither EINVAL
-- nor ERANGE (`parse_integer` fails on a stale one), and the bytes that are to be read are the reply
-- and what follows it, together shorter than 2^63 - 512.
pub exec_command-Replies :
    (c : RedisCommand) (o : RedisOutput) (rest : Bytes) (p : Protocol) (w : World)
    → CanSend c
    → w.sends ≡ []
    → Accepts c.inp p.transaction_mode o
    → Holds p w (put_output o rest)
    → let (ok, c', p', w') = exec_command c p w in
      (ok ≡ true)
      × (c' ≡ record c { out = o })
      × Holds p' w' rest
      × (p'.tcp.fd ≡ p.tcp.fd)
      × (w'.sent ≡ w.sent ++ text_of c)
exec_command-Replies c o rest p w argc no_sends h holds =
    let (ok, e, holds', mode, sent, x) =
      exec_command-Exchanged c o rest p w argc no_sends h holds in
    (ok, e, holds', x.fd, sent)
