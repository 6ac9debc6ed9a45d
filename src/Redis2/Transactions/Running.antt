-- ===== src/Redis2/Transactions/Running.antt =====
-- A whole transaction: `multi`, `add_command` for each command, `exec` (src/redis.cpp).
use librediscxx.Base.{
  ==_refl, ◌≡◌, refl, sym, ap, ◌∙◌, subst, true, false, List, [], ◌∷◌, ◌++◌, append_assoc, map,
  Option, some, Bytes, arith, All, length, length-map, flatten, ◌+ℤ◌,
}
use librediscxx.Os.World.{World}
use librediscxx.Cmd.Command.{KCommand}
use librediscxx.Cmd.Output.{RedisOutput, RedisOutputs, RedisCommand, smbulks, to_list, get_smbulks}
use librediscxx.Cmd.Input.{redis_input, command_info}
use librediscxx.Protocol.Exec
use librediscxx.Protocol.Reply.{checks_type, expected_type, wrong_type, same_type, same_command}
use librediscxx.Protocol.Reply.Wire.{put_output, Readables}
use librediscxx.Protocol.Request.{argc_error, request_text}
use librediscxx.Protocol.Request.Sending.{CanSend, text_of}
use librediscxx.Protocol.Exec.Replying.{Accepts, mode_after, exec_command-Exchanged}
use librediscxx.Redis2.State.{Redis2, done, Call, command_of, exec, value_or_error}
use librediscxx.Redis2.State.Asking.{Healthy, Healthy-after}
use librediscxx.Redis2.Transactions.{
  multi, exec_transaction, asked_open, distribute, distributed, flattened, emptied,
}
use librediscxx.Redis2.Transactions.Queueing.{
  Ready, add_all, put_queued, put_transaction, Queues, multi-Ready, in_queue, add_all-Ready,
}

unfoldable pub run_transaction : List RedisCommand → Redis2 → World → Call (List RedisCommand)
unfolding multi add_all exec_transaction
run_transaction cs r w =
    let (_, r₁, w₁) = multi r w in let (r₂, w₂) = add_all cs r₁ w₁ in exec_transaction r₂ w₂

-- The commands that the caller gets: those that were queued, each with its reply.
distribute_lem :
    (os : List RedisOutput) (cs : List RedisCommand)
    → length os ≡ length cs
    → (map (λ c. c.inp) (distribute os (map in_queue cs)) ≡ map (λ c. c.inp) cs)
      × (map (λ c. c.out) (distribute os (map in_queue cs)) ≡ map flattened os)
unfolding distribute
distribute_lem [] [] e = (refl, refl)
distribute_lem [] (c ∷ cs) e = absurd (omega arith)
distribute_lem (o ∷ os) [] e = absurd (omega arith)
distribute_lem (o ∷ os) (c ∷ cs) e =
    let (ins, outs) = distribute_lem os cs (omega arith) in
    (ap (λ l. c.inp ∷ l) ins, ap (λ l. flattened o ∷ l) outs)

exec-CanSend : CanSend (command_of KCommand.exec [])
unfolding command_of redis_input command_info argc_error request_text ◌+ℤ◌
exec-CanSend = record { argc = refl; short = omega arith }

exec-Accepts :
    (os : RedisOutputs) → Readables os → Accepts (command_of KCommand.exec []).inp true (smbulks os)
unfolding command_of redis_input command_info same_type same_command checks_type expected_type
    wrong_type
exec-Accepts os readable =
    ((refl, refl), record { not_flat = refl; not_multi = refl; not_discard = refl }, readable)

exec_mode :
    (os : RedisOutputs) → mode_after (command_of KCommand.exec []).inp (smbulks os) true ≡ false
unfolding command_of redis_input command_info same_command
exec_mode os = refl

distributed_lem :
    (cmds : List RedisCommand) (os : RedisOutputs)
    → length (to_list os) ≡ length cmds
    → distributed cmds (smbulks os) ≡ some (distribute (to_list os) cmds)
unfolding distributed get_smbulks
distributed_lem cmds os same = rw (same, ==_refl (length cmds)) refl

value_or_error-done :
    {A : Type 0} (get : RedisOutput → Option A) (c : RedisCommand) (a : A) (r : Redis2) (w : World)
    → get c.out ≡ some a
    → value_or_error get (some c, r, w) ≡ (done a, r, w)
unfolding value_or_error
value_or_error-done get c a r w e = rw (e, value_or_error) refl

exec_end :
    (c : RedisCommand) (cmds : List RedisCommand) (os : RedisOutputs) (r : Redis2) (w : World)
    → c.out ≡ smbulks os
    → length (to_list os) ≡ length cmds
    → emptied (value_or_error (distributed cmds) (some c, r, w))
      ≡ (done (distribute (to_list os) cmds), record r { transaction_cmds = [] }, w)
unfolding emptied
exec_end c cmds os r w e same = ap emptied (
    value_or_error-done (distributed cmds) c (distribute (to_list os) cmds) r w
      (ap (distributed cmds) e ∙ distributed_lem cmds os same))

exec_start :
    (r : Redis2) (w : World)
    → Healthy r w
    → (Exec.exec_command (command_of KCommand.exec []) r.proto w).0 ≡ true
    → let (_, c, p, w') = Exec.exec_command (command_of KCommand.exec []) r.proto w in
      exec_transaction r w
      ≡ emptied
          (value_or_error (distributed r.transaction_cmds) (some c, record r { proto = p }, w'))
unfolding exec_transaction asked_open exec
exec_start r w h ok = rw (h.is_open, ok) refl

exec-Ready :
    (r : Redis2) (w : World) (cs : List RedisCommand) (os : RedisOutputs) (rest : Bytes)
    → Readables os
    → length (to_list os) ≡ length cs
    → Ready r w true (map in_queue cs) (put_output (smbulks os) rest)
    → let (v, r', w') = exec_transaction r w in
      (v ≡ done (distribute (to_list os) (map in_queue cs)))
      × Ready r' w' false [] rest
      × (w'.sent ≡ w.sent ++ text_of (command_of KCommand.exec []))
exec-Ready r w cs os rest readable e h =
    let c = command_of KCommand.exec [] in
    let (ok, same, holds, mode, sent, x) =
      exec_command-Exchanged (command_of KCommand.exec []) (smbulks os) rest r.proto w exec-CanSend
        h.sends
        (subst (λ m. Accepts (command_of KCommand.exec []).inp m (smbulks os)) (sym h.in_mode)
          (exec-Accepts os readable))
        h.holds in
    let after : Healthy (record r { proto = (Exec.exec_command c r.proto w).2 })
        (Exec.exec_command c r.proto w).3 =
      Healthy-after r _ w _ h.healthy x in
    let found : exec_transaction r w ≡ (
      done (distribute (to_list os) (map in_queue cs)),
      record r { proto = (Exec.exec_command c r.proto w).2; transaction_cmds = [] },
      (Exec.exec_command c r.proto w).3,
    ) =
      exec_start r w h.healthy ok
      ∙ ap
          (λ l. emptied (
            value_or_error (distributed l) (
              some (Exec.exec_command c r.proto w).1,
              record r { proto = (Exec.exec_command c r.proto w).2 },
              (Exec.exec_command c r.proto w).3,
            )))
          h.queue
      ∙ exec_end _ (map in_queue cs) os _ _ (ap (λ d. d.out) same)
          (e ∙ sym (length-map in_queue cs)) in
    rw found (
      refl,
      record {
        healthy = record { is_open = after.is_open; selected = after.selected };
        sends = x.sends;
        in_mode = mode ∙ ap (mode_after c.inp (smbulks os)) h.in_mode ∙ exec_mode os;
        queue = refl;
        holds = holds;
      },
      sent,
    )

regrouped : (a b c d : Bytes) → ((a ++ b) ++ c) ++ d ≡ a ++ (b ++ (c ++ d))
regrouped a b c d = append_assoc (a ++ b) c d ∙ append_assoc a b (c ++ d)

-- When the server answers OK to MULTI, QUEUED to each command and a multi-bulk with one reply for each
-- command to EXEC, the transaction succeeds: the caller gets the commands in order, each with its own
-- reply, exactly MULTI, the commands and EXEC were written, and the client is again out of the
-- transaction, with an empty queue, healthy, and about to read the bytes after those replies. At first
-- the client is healthy (its connection open, tested not long ago, and on the client's database), out
-- of a transaction and with an empty queue, and its socket accepts every write. Each command has as
-- many arguments as its row asks for and a request of fewer than 2^31 bytes, takes a status within a
-- transaction, and does not end the transaction. Within EXEC's reply stand no error and no empty bulk
-- (`$0`), either of which makes the code fail, no status with a carriage return and no integer of more
-- than 64 bits, and every array is a special multi-bulk. The client's buffer is well-formed, no poll
-- fails or times out, `errno` is neither EINVAL nor ERANGE (`parse_integer` fails on a stale one), and
-- the bytes that are to be read are those replies and what follows them, together shorter than 2^63 -
-- 512.
pub run_transaction_lem :
    (cs : List RedisCommand) (os : RedisOutputs) (rest : Bytes) (r : Redis2) (w : World)
    → All Queues cs
    → Readables os
    → length (to_list os) ≡ length cs
    → Ready r w false [] (put_transaction (length cs) os rest)
    → (commands : List RedisCommand) × ((run_transaction cs r w).0 ≡ done commands)
      × (map (λ c. c.inp) commands ≡ map (λ c. c.inp) cs)
      × (map (λ c. c.out) commands ≡ map flattened (to_list os))
      × Ready (run_transaction cs r w).1 (run_transaction cs r w).2 false [] rest
      × ((run_transaction cs r w).2.sent
          ≡ w.sent
            ++ (text_of (command_of KCommand.multi [])
                ++ (flatten (map text_of cs) ++ text_of (command_of KCommand.exec []))))
unfolding run_transaction put_transaction
run_transaction_lem cs os rest r w qs readable e h =
    let (h₁, sent₁) =
      multi-Ready r w [] (put_queued (length cs) (put_output (smbulks os) rest)) h in
    let (h₂, sent₂) =
      add_all-Ready cs (multi r w).1 (multi r w).2 [] (put_output (smbulks os) rest) qs h₁ in
    let (v, h₃, sent₃) =
      exec-Ready (add_all cs (multi r w).1 (multi r w).2).0
        (add_all cs (multi r w).1 (multi r w).2).1 cs os rest readable e h₂ in
    let (ins, outs) = distribute_lem (to_list os) cs e in
    (
      distribute (to_list os) (map in_queue cs),
      v,
      ins,
      outs,
      h₃,
      sent₃
          ∙ ap (λ t. t ++ text_of (command_of KCommand.exec []))
              (sent₂ ∙ ap (λ t. t ++ flatten (map text_of cs)) sent₁)
          ∙ regrouped w.sent (text_of (command_of KCommand.multi [])) (flatten (map text_of cs))
              (text_of (command_of KCommand.exec [])),
    )
