-- ===== src/Protocol/Request/Sending.antt =====
-- What has gone out after `write_command` of src/redis_protocol.cpp.
use librediscxx.Base.{
  ◌+◌, ◌-◌, ◌^◌, ◌<◌, pos, to_int, ◌+ℤ◌, to_int_lem, pos_add, ◌≡◌, refl, sym, ap, ◌∙◌, ◌⊎◌, inl,
  inr, true, false, ◌==◌, List, [], ◌∷◌, ◌++◌, append-nil, none, some, Bytes, arith, length,
  Bool-cases,
}
use librediscxx.Os.World.{World}
use librediscxx.Cmd.Output.{RedisCommand}
use librediscxx.Tcp.Client
use librediscxx.Tcp.Client.Writing.{write-AllOrClosed, write-all}
use librediscxx.Protocol.Conn.{Protocol}
use librediscxx.Protocol.Request.{request_text, send_text, argc_error, check_argc, write_command}
use librediscxx.Protocol.Request.Server.{parse_request, parse_request-request_text}

-- The text has gone out, when it has fewer than 2^31 bytes, or the call failed.
send_text-true :
    (s : Bytes) (c : RedisCommand) (p : Protocol) (w : World)
    → length s < 2 ^ 31
    → let (ok, c', p', w') = send_text s c p w in
      ok ≡ true → ((w'.sent ≡ w.sent ++ s) ⊎ (p'.tcp.fd ≡ none)) × (c' ≡ c)
unfolding send_text
send_text-true s c p w small =
    let (ec, t, w') = Client.write s p.timeout p.tcp w in
    let h = write-AllOrClosed s p.timeout p.tcp w small in
    elim (Bool-cases (ec == 0)) [ inl e ↦ rw e (λ _. (h, refl)) | inr e ↦ rw e (λ bad. cc) ]

abbrev pub words : RedisCommand → List Bytes
words c = c.inp.info.command_str ∷ c.inp.args

count_lem :
    (c : RedisCommand)
    → length c.inp.args < 2 ^ 31 - 1
    → to_int (length c.inp.args) +ℤ pos 1 ≡ pos (length (words c))
count_lem c small =
    let e : length c.inp.args + 1 ≡ length (words c) = omega arith in
    ap (λ i. i +ℤ pos 1) (to_int_lem (length c.inp.args) (omega arith))
    ∙ pos_add (length c.inp.args) 1
    ∙ ap pos e

-- The text of a command is read by a server as its words.
text_lem :
    (c : RedisCommand)
    → length c.inp.args < 2 ^ 31 - 1
    → parse_request (request_text (to_int (length c.inp.args) +ℤ pos 1) (words c))
      ≡ some (words c, [])
text_lem c small =
    ap (λ i. parse_request (request_text i (words c))) (count_lem c small)
    ∙ ap parse_request (sym (append-nil (request_text (pos (length (words c))) (words c))))
    ∙ parse_request-request_text (words c) []

abbrev pub ArgcFits : RedisCommand → Type 0
ArgcFits c = argc_error c.inp.info.argc (to_int (length c.inp.args)) ≡ false

abbrev pub text_of : RedisCommand → Bytes
text_of c = request_text (to_int (length c.inp.args) +ℤ pos 1) (words c)

-- The command has as many arguments as its row asks for, and its text has fewer than 2^31 bytes: the size is cast to
-- an `int` when it is written.
pub record CanSend (c : RedisCommand) : Type 0 where
  pub argc : ArgcFits c
  pub short : length (text_of c) < 2 ^ 31

write_command-bad :
    (c : RedisCommand) (p : Protocol) (w : World)
    → argc_error c.inp.info.argc (to_int (length c.inp.args)) ≡ true
    → (write_command c p w).0 ≡ false
unfolding write_command check_argc
write_command-bad c p w h = rw h

write_command-fits :
    (c : RedisCommand) (p : Protocol) (w : World)
    → ArgcFits c
    → write_command c p w ≡ send_text (text_of c) c p w
unfolding write_command check_argc
write_command-fits c p w h = rw h

-- If `write_command` returns true, whatever the network answers, then the connection has been closed or
-- what has gone out is one request that a server reads as the command's name and its arguments, with
-- nothing left over. The command has fewer than 2^31 - 1 arguments, and its request has fewer than 2^31 bytes.
pub write_command-sent :
    (c : RedisCommand) (p : Protocol) (w : World)
    → length c.inp.args < 2 ^ 31 - 1
    → length (text_of c) < 2 ^ 31
    → (write_command c p w).0 ≡ true
    → let (ok, c', p', w') = write_command c p w in
      (p'.tcp.fd ≡ none)
      ⊎ ((s : Bytes) × (w'.sent ≡ w.sent ++ s) × (parse_request s ≡ some (words c, [])))
write_command-sent c p w small short ok =
    elim (Bool-cases (argc_error c.inp.info.argc (to_int (length c.inp.args)))) [
      | inl bad ↦ let no = write_command-bad c p w bad in cc
      | inr fits ↦
          let e = write_command-fits c p w fits in
          let sent = (send_text-true (text_of c) c p w short (ap (λ r. r.0) (sym e) ∙ ok)).0 in
          rw e (elim sent [
            | inl all ↦ inr (text_of c, all, text_lem c small)
            | inr closed ↦ inl closed
          ])
    ]

-- With nothing to hinder it, a command that can be sent goes out, and the
-- connection stays as it is.
pub write_command-all :
    (c : RedisCommand) (p : Protocol) (w : World)
    → CanSend c
    → w.polls ≡ []
    → w.sends ≡ []
    → let (ok, c', p', w') = write_command c p w in
      (ok ≡ true)
      × (c' ≡ c)
      × (p'.tcp.fd ≡ p.tcp.fd)
      × (p'.tcp.buffer ≡ p.tcp.buffer)
      × (p'.transaction_mode ≡ p.transaction_mode)
      × (w'.sent ≡ w.sent ++ text_of c)
      × (w'.recvs ≡ w.recvs)
      × (w'.polls ≡ [])
      × (w'.errno ≡ w.errno)
      × (w'.sends ≡ [])
      × (w'.clock ≡ w.clock)
      × (p'.tcp.last_check_open_time ≡ w.clock)
unfolding send_text
write_command-all c p w can no_polls no_sends =
    let (ec, fd, buffer, sent, recvs, polls, errno, sends, clock, check) =
      write-all (text_of c) p.timeout p.tcp w can.short no_polls no_sends in
    rw (write_command-fits c p w can.argc, ec)
      (refl, refl, fd, buffer, refl, sent, recvs, polls, errno, sends, clock, check)
