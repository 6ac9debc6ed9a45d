-- ===== src/Tests/Programs.antt =====
-- The theorems on whole programs and transactions at concrete inputs.
use librediscxx.Redis2.Session.Calling.{Allowed}
use librediscxx.Base.{
  ◌+ℤ◌, ◌≡◌, refl, false, List, [], ◌∷◌, ◌++◌, none, some, codes, arith, lacks-Lacks, map, flatten,
  All,
}
use librediscxx.Os.World.{World, received}
use librediscxx.Os.Connect.{is_open_fast}
use librediscxx.Tcp.Client
use librediscxx.Cmd.Command.{KCommand}
use librediscxx.Cmd.Input.{redis_input, command_info, push_arg}
use librediscxx.Cmd.Output.{RedisOutputs, RedisCommand, status, bulk, output, no_outputs, to_list}
use librediscxx.Protocol.Decimal.{show_int}
use librediscxx.Protocol.Request.{request_text, argc_error}
use librediscxx.Protocol.Request.Sending.{text_of}
use librediscxx.Protocol.Reply.{
  same_type, expected_type, checks_type, wrong_type, mode_after_status,
}
use librediscxx.Protocol.Reply.Wire.{put_output, Readables}
use librediscxx.Redis2.State.{done, command_of, is_zero}
use librediscxx.Redis2.Transactions.{flattened}
use librediscxx.Redis2.Transactions.Queueing
use librediscxx.Redis2.Transactions.Running.{run_transaction, run_transaction_lem}
use librediscxx.Redis2.Transactions.Queueing.{Queues, put_transaction, put_queued}
use librediscxx.Redis2.Session.{
  request, Op, gets, sets, dels, exists, setnxs, getsets, mgets, Store, answers, calls, requests,
  replies, reply_to, answer, next, is_some,
}
use librediscxx.Redis2.Session.Calling
use librediscxx.Redis2.Session.Refining.{calls-Refines}
use librediscxx.RedisBase.Helpers.{less}
use librediscxx.RedisBase.Helpers.Maps.{same}
use librediscxx.Tests.{test_world, test_buffer-Inv, test_redis2}

abbrev no_keys : Store
no_keys = λ key. none

abbrev program : List Op
program =
    sets (codes "k") (codes "v")
    ∷ gets (codes "k")
    ∷ mgets (codes "k" ∷ codes "l" ∷ [])
    ∷ setnxs (codes "k") (codes "w")
    ∷ dels (codes "k")
    ∷ exists (codes "k")
    ∷ getsets (codes "k") (codes "x")
    ∷ []

abbrev program_world : World
program_world = test_world (received (replies program no_keys (codes "+x")) ∷ [])

program-Ready : Calling.Ready test_redis2 program_world (replies program no_keys (codes "+x"))
unfolding replies reply_to answer next is_some put_output show_int less same Client.is_open
    is_open_fast is_zero
program-Ready = record {
  healthy = record { is_open = refl; selected = refl };
  sends = refl;
  mode = refl;
  holds = record {
    inv = test_buffer-Inv;
    polls = refl;
    not_einval = λ e. omega (arith, e);
    not_erange = λ e. omega (arith, e);
    bytes = refl;
    short = omega arith;
  };
}

program-Allowed : All Allowed program
unfolding request command_of redis_input push_arg command_info request_text show_int ◌+ℤ◌
program-Allowed = (
  (omega arith, omega arith),
  (
    (tt, omega arith),
    (
      ((omega arith, omega arith), omega arith),
      (
        (omega arith, omega arith),
        ((tt, omega arith), ((tt, omega arith), ((omega arith, omega arith), tt))),
      ),
    ),
  ),
)

calls-Refines_example :
    let (as_, r', w') = calls program test_redis2 program_world in
    (as_ ≡ map done (answers program no_keys))
    × Calling.Ready r' w' (codes "+x")
    × (w'.sent ≡ [] ++ requests program)
calls-Refines_example =
    calls-Refines program no_keys (codes "+x") test_redis2 program_world program-Allowed (λ key. tt)
      program-Ready

abbrev queue_commands : List RedisCommand
queue_commands =
    command_of KCommand.set (codes "k" ∷ codes "v" ∷ [])
    ∷ command_of KCommand.get (codes "k" ∷ [])
    ∷ []

abbrev exec_outputs : RedisOutputs
exec_outputs = output (status (some (codes "OK"))) (output (bulk (some (codes "v"))) no_outputs)

abbrev transaction_world : World
transaction_world = test_world (received (put_transaction 2 exec_outputs (codes "+x")) ∷ [])

transaction-Ready :
    Queueing.Ready test_redis2 transaction_world false []
      (put_transaction 2 exec_outputs (codes "+x"))
unfolding put_transaction put_queued put_output to_list show_int Client.is_open is_open_fast is_zero
transaction-Ready = record {
  healthy = record { is_open = refl; selected = refl };
  sends = refl;
  in_mode = refl;
  queue = refl;
  holds = record {
    inv = test_buffer-Inv;
    polls = refl;
    not_einval = λ e. omega (arith, e);
    not_erange = λ e. omega (arith, e);
    bytes = refl;
    short = omega arith;
  };
}

queue_commands-Queues : All Queues queue_commands
unfolding same_type checks_type expected_type wrong_type command_of redis_input command_info
    push_arg argc_error mode_after_status request_text show_int ◌+ℤ◌
queue_commands-Queues = (
  record {
    can_send = record { argc = refl; short = omega arith };
    accepts = (refl, lacks-Lacks 13 (codes "QUEUED") refl);
    stays = refl;
  },
  (
    record {
      can_send = record { argc = refl; short = omega arith };
      accepts = (refl, lacks-Lacks 13 (codes "QUEUED") refl);
      stays = refl;
    },
    tt,
  ),
)

exec_outputs-Readables : Readables exec_outputs
unfolding Readables
exec_outputs-Readables = (lacks-Lacks 13 (codes "OK") refl, (omega arith, tt))

run_transaction_lem_example :
    (commands : List RedisCommand) × ((run_transaction queue_commands test_redis2
        transaction_world).0
      ≡ done commands)
    × (map (λ c. c.inp) commands ≡ map (λ c. c.inp) queue_commands)
    × (map (λ c. c.out) commands ≡ map flattened (to_list exec_outputs))
    × Queueing.Ready
        (run_transaction queue_commands test_redis2 transaction_world).1
        (run_transaction queue_commands test_redis2 transaction_world).2
        false
        []
        (codes "+x")
    × ((run_transaction queue_commands test_redis2 transaction_world).2.sent
        ≡ []
          ++ (text_of (command_of KCommand.multi [])
              ++ (flatten (map text_of queue_commands) ++ text_of (command_of KCommand.exec []))))
unfolding to_list
run_transaction_lem_example =
    run_transaction_lem queue_commands exec_outputs (codes "+x") test_redis2 transaction_world
      queue_commands-Queues exec_outputs-Readables refl transaction-Ready
