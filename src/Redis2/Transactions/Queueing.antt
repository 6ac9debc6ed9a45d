-- ===== src/Redis2/Transactions/Queueing.antt =====
-- Commands that are queued in a transaction: `multi` and `add_command` (src/redis.cpp).
use librediscxx.Base.{
  ℕ, zero, suc, ◌≡◌, refl, sym, ap, ◌∙◌, subst, Bool, true, false, List, [], ◌∷◌, ◌++◌,
  append_assoc, append-nil, map, some, Bytes, codes, arith, All, length, flatten, str_eq, ◌+ℤ◌,
}
use librediscxx.Os.World.{World}
use librediscxx.Cmd.Command.{KCommand}
use librediscxx.Cmd.Output.{RedisOutput, RedisOutputs, RedisCommand, status, smbulks}
use librediscxx.Cmd.Input.{redis_input, command_info}
use librediscxx.Protocol.Exec
use librediscxx.Protocol.Conn.Lines.{Holds}
use librediscxx.Protocol.Reply.{
  checks_type, expected_type, wrong_type, same_type, mode_after_status,
}
use librediscxx.Protocol.Reply.Wire.{put_output}
use librediscxx.Protocol.Request.{argc_error, request_text}
use librediscxx.Protocol.Request.Sending.{CanSend, text_of}
use librediscxx.Protocol.Exec.Replying.{Accepts, exec_command-Exchanged}
use librediscxx.Redis2.State.{Redis2, command_of, status_ok}
use librediscxx.Redis2.State.Asking.{Healthy, Healthy-after, query-Healthy}
use librediscxx.Redis2.Transactions.{multi, add_command, queue}

-- The calls of a program.
unfoldable pub add_all : List RedisCommand → Redis2 → World → Redis2 × World
unfolding add_command
add_all [] r w = (r, w)
add_all (c ∷ cs) r w = let (_, _, r', w') = add_command c r w in add_all cs r' w'

-- What the server writes: OK, QUEUED for each command, and the replies to all of them.
abbrev pub queued : RedisOutput
queued = status (some (codes "QUEUED"))

unfoldable pub put_queued : ℕ → Bytes → Bytes
put_queued zero rest = rest
put_queued (suc n) rest = put_output queued (put_queued n rest)

unfoldable pub put_transaction : ℕ → RedisOutputs → Bytes → Bytes
unfolding put_queued
put_transaction n os rest =
    put_output (status (some (codes "OK"))) (put_queued n (put_output (smbulks os) rest))

-- A command that a server queues within a transaction, and that does not end it.
pub record Queues (c : RedisCommand) : Type 0 where
  pub can_send : CanSend c
  pub accepts : Accepts c.inp true queued
  pub stays : mode_after_status c.inp.command true ≡ true

-- A client that is ready for the next operation, with its mode, its queue and the bytes it will read.
pub record Ready (r : Redis2) (w : World) (mode : Bool) (cmds : List RedisCommand) (s : Bytes)
    : Type 0 where
  pub healthy : Healthy r w
  pub sends : w.sends ≡ []
  pub in_mode : r.proto.transaction_mode ≡ mode
  pub queue : r.transaction_cmds ≡ cmds
  pub holds : Holds r.proto w s

multi-CanSend : CanSend (command_of KCommand.multi [])
unfolding command_of redis_input command_info argc_error request_text ◌+ℤ◌
multi-CanSend = record { argc = refl; short = omega arith }

pub multi-Ready :
    (r : Redis2) (w : World) (cmds : List RedisCommand) (rest : Bytes)
    → Ready r w false cmds (put_output (status (some (codes "OK"))) rest)
    → let (v, r', w') = multi r w in
      Ready r' w' true cmds rest × (w'.sent ≡ w.sent ++ text_of (command_of KCommand.multi []))
unfolding multi command_of redis_input command_info argc_error same_type checks_type expected_type
    wrong_type status_ok mode_after_status str_eq
multi-Ready r w cmds rest h =
    let (v, holds, sent, mode, healthy, sends, same, _) =
      query-Healthy status_ok KCommand.multi [] (status (some (codes "OK"))) tt rest r w h.healthy
        h.sends multi-CanSend
        (subst (λ m. Accepts (command_of KCommand.multi []).inp m (status (some (codes "OK"))))
          (sym h.in_mode) (refl, omega arith))
        h.holds refl in
    (
      record {
        healthy = healthy;
        sends = sends;
        in_mode = mode ∙ ap (mode_after_status KCommand.multi) h.in_mode;
        queue = same ∙ h.queue;
        holds = holds;
      },
      sent,
    )

pub add_command-Ready :
    (c : RedisCommand) (r : Redis2) (w : World) (cmds : List RedisCommand) (rest : Bytes)
    → Queues c
    → Ready r w true cmds (put_output queued rest)
    → let (_, _, r', w') = add_command c r w in
      Ready r' w' true (cmds ++ (record c { out = queued } ∷ [])) rest
      × (w'.sent ≡ w.sent ++ text_of c)
unfolding add_command queue
add_command-Ready c r w cmds rest q h =
    let (ok, same, holds, mode, sent, x) =
      exec_command-Exchanged c queued rest r.proto w q.can_send h.sends
        (subst (λ m. Accepts c.inp m queued) (sym h.in_mode) q.accepts) h.holds in
    let after : Healthy (record r { proto = (Exec.exec_command c r.proto w).2 })
        (Exec.exec_command c r.proto w).3 =
      Healthy-after r _ w _ h.healthy x in
    rw (h.healthy.is_open, ok)
      (
        record {
          healthy = record { is_open = after.is_open; selected = after.selected };
          sends = x.sends;
          in_mode = mode ∙ ap (mode_after_status c.inp.command) h.in_mode ∙ q.stays;
          queue =
              ap (λ l. l ++ ((Exec.exec_command c r.proto w).1 ∷ [])) h.queue
              ∙ ap (λ d. cmds ++ (d ∷ [])) same;
          holds = holds;
        },
        sent,
      )

-- How a command stands in the queue.
abbrev pub in_queue : RedisCommand → RedisCommand
in_queue c = record c { out = queued }

pub add_all-Ready :
    (cs : List RedisCommand) (r : Redis2) (w : World) (cmds : List RedisCommand) (rest : Bytes)
    → All Queues cs
    → Ready r w true cmds (put_queued (length cs) rest)
    → let (r', w') = add_all cs r w in
      Ready r' w' true (cmds ++ map in_queue cs) rest
      × (w'.sent ≡ w.sent ++ flatten (map text_of cs))
unfolding add_all put_queued
add_all-Ready [] r w cmds rest qs h =
    (subst (λ l. Ready r w true l rest) (sym (append-nil cmds)) h, sym (append-nil w.sent))
add_all-Ready (c ∷ cs) r w cmds rest (q, qs) h =
    let (h', sent) = add_command-Ready c r w cmds (put_queued (length cs) rest) q h in
    let (h'', sent') =
      add_all-Ready cs (add_command c r w).2 (add_command c r w).3 (cmds ++ (in_queue c ∷ [])) rest
        qs h' in
    (
      subst (λ l. Ready (add_all (c ∷ cs) r w).0 (add_all (c ∷ cs) r w).1 true l rest)
          (append_assoc cmds (in_queue c ∷ []) (map in_queue cs)) h'',
      sent'
          ∙ ap (λ t. t ++ flatten (map text_of cs)) sent
          ∙ append_assoc w.sent (text_of c) (flatten (map text_of cs)),
    )
