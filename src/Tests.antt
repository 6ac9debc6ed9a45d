-- ===== src/Tests.antt =====
-- Each theorem of the development's results at a concrete input.
mod Partitioned
mod Interface
mod Memory
mod Monitored
mod Pooled
mod Programs
use librediscxx.Protocol.Exec.{bytes_left}
use librediscxx.Base.{
  IsInt64, ◌+ℤ◌, suc, ◌%◌, ◌↔◌, ◌≤◌, ◌<◌, ◌^◌, pos, negsuc, true, false, ◌≡◌, ◌⊎◌, inr, refl, ap,
  List, [], ◌∷◌, ◌++◌, none, some, Bytes, codes, arith, length, take, drop, map, lacks-Lacks,
  starts_with,
}
use librediscxx.Message.{Message}
use librediscxx.Os.World.{erange, World, RecvAnswer, received, PollAnswer, accepted}
use librediscxx.Os.Socket.{timed_read, timed_writen}
use librediscxx.Os.Socket.Writing.{timed_writen-sent}
use librediscxx.Tcp.Buffer
use librediscxx.Tcp.Buffer.{Buffer, view, read_size}
use librediscxx.Tcp.Buffer.Laws.{Inv, Prepared, prepare-Prepared, consume_lem}
use librediscxx.Tcp.Client
use librediscxx.Tcp.Client.{TcpClient, read_loop, read_line_loop}
use librediscxx.Tcp.Client.Reading.{Reads, read_line-Reads}
use librediscxx.Tcp.Client.Counting.{read-Reads}
use librediscxx.Tcp.Client.Ending.{loops-end}
use librediscxx.Tcp.Search.{search_delim}
use librediscxx.Tcp.Resolver.{resolve, resolve_again}
use librediscxx.Cmd.Command.{KCommand}
use librediscxx.Cmd.Input.{redis_input, push_arg, set_command_name, toupper, command_info}
use librediscxx.Cmd.Lookup.{set_command_name_iff}
use librediscxx.Cmd.Hash.{time33_hash_32, times33, time33_hash_32-times33}
use librediscxx.Cmd.Output.{
  RedisOutput, RedisCommand, status, bulk, output, no_outputs, to_list, get_bulk,
}
use librediscxx.Protocol.Decimal.{show_int, strtol, is_digit, parse_integer}
use librediscxx.Protocol.Decimal.RoundTrip.{parse_integer-prints}
use librediscxx.Protocol.Conn.{Protocol, line_end}
use librediscxx.Protocol.Conn.Lines.{Holds, IsFirst-line_end}
use librediscxx.Protocol.Conn
use librediscxx.Protocol.Conn.Closing.{assure_connect-modes}
use librediscxx.Protocol.Request.{request_text, write_command, argc_error}
use librediscxx.Protocol.Request.Server.{parse_request, parse_request-request_text}
use librediscxx.Protocol.Request.Sending.{write_command-sent, text_of, CanSend, write_command-all}
use librediscxx.Protocol.Reply.{same_type, same_command, expected_type, checks_type, wrong_type}
use librediscxx.Protocol.Reply.Wire.{put_output, Readable}
use librediscxx.Protocol.Reply.Closing.{Shut, ErrorSent}
use librediscxx.Protocol.Exec.Refusing.{read_reply-Shut}
use librediscxx.Protocol.Exec
use librediscxx.Protocol.Exec.Replying.{Accepts, read_reply-Replies, exec_command-Replies}
use librediscxx.Redis2.State.{Redis2, done, query, assure_connect, command_of, is_zero}
use librediscxx.Redis2.State.Selecting.{Selected, Reselects, assure_connect-Selected}
use librediscxx.Redis2.State.Asking.{Healthy, assure_connect-Healthy, query-done}
use librediscxx.Os.Connect.{is_open_fast}

abbrev test_world : List RecvAnswer → World
test_world rs = record {
  errno = 0;
  polls = [];
  recvs = rs;
  sends = [];
  peeks = [];
  calls = [];
  lookups = [];
  clock = 0;
  sent = [];
  waits = [];
  dns_cache = [];
}

abbrev test_buffer : Buffer
test_buffer = record { bytes = 0 ∷ 0 ∷ 0 ∷ 0 ∷ []; read = 0; to_read = 0 }

test_buffer-Inv : Inv test_buffer
test_buffer-Inv = record { ordered = omega arith; within = omega arith; nonempty = omega arith }

abbrev test_client : TcpClient
test_client = record { fd = some 3; buffer = test_buffer; last_check_open_time = 0 }

-- A line in two pieces.
abbrev pieces : List RecvAnswer
pieces = received (codes "+PO") ∷ received (codes "NG" ++ (line_end ++ codes ":1")) ∷ []

read_line-Reads_example :
    Reads test_client
      (test_world pieces)
      (codes "+PONG")
      7
      (Client.read_line line_end (pos 50) test_client (test_world pieces))
read_line-Reads_example =
    read_line-Reads line_end (pos 50) test_client (test_world pieces) 5 test_buffer-Inv refl
      (IsFirst-line_end (codes "+PONG") (codes ":1") (lacks-Lacks 13 (codes "+PONG") refl))
      (omega arith)

read-Reads_example :
    Reads test_client
      (test_world pieces)
      (codes "+PONG")
      7
      (Client.read 5 line_end (pos 50) test_client (test_world pieces))
read-Reads_example =
    read-Reads 5 line_end (pos 50) test_client (test_world pieces) test_buffer-Inv refl
      (omega arith) (omega arith)

prepare-Prepared_example : Prepared 9 test_buffer (Buffer.prepare 9 false test_buffer)
prepare-Prepared_example = prepare-Prepared 9 false test_buffer test_buffer-Inv (omega arith)

consume_lem_example :
    let b = record test_buffer { bytes = 7 ∷ 8 ∷ 9 ∷ 0 ∷ []; to_read = 3 } in
    let (s, b') = Buffer.consume 2 b in (s ≡ take 2 (view b)) × Inv b' × (view b' ≡ drop 2 (view b))
consume_lem_example =
    consume_lem 2 (record test_buffer { bytes = 7 ∷ 8 ∷ 9 ∷ 0 ∷ []; to_read = 3 })
      (record { ordered = omega arith; within = omega arith; nonempty = omega arith }) (omega arith)

loops-end_example :
    (read_line_loop 40 line_end 0 (pos 50) test_client (test_world pieces)
      ≡ read_line_loop 9 line_end 0 (pos 50) test_client (test_world pieces))
    × (read_loop 40 7 5 7 (pos 50) test_client (test_world pieces)
        ≡ read_loop 9 7 5 7 (pos 50) test_client (test_world pieces))
loops-end_example =
    loops-end 40 line_end 0 7 5 7 (pos 50) test_client (test_world pieces) (omega arith)

-- A short write, then a timeout.
abbrev slow_world : World
slow_world = record (test_world []) {
  polls = PollAnswer.ready ∷ PollAnswer.timed_out ∷ [];
  sends = accepted 2 ∷ [];
}

timed_writen-sent_example :
    (2 ≤ 4)
    × (2 ≤ 4)
    × ((timed_writen (codes "PING") (pos 50) slow_world).1.sent ≡ [] ++ take 2 (codes "PING"))
unfolding timed_writen
timed_writen-sent_example = timed_writen-sent (codes "PING") (pos 50) slow_world 2 refl

-- The socket is ready at the second poll: the first one is interrupted.
abbrev interrupted_world : World
interrupted_world = record (test_world pieces) {
  polls = PollAnswer.poll_failed 4 ∷ PollAnswer.ready ∷ PollAnswer.timed_out ∷ [];
}

resolve_again_example :
    resolve (codes "h") (codes "1") (resolve (codes "h") (codes "1") (test_world [])).1 ≡ (
      (resolve (codes "h") (codes "1") (test_world [])).0,
      (resolve (codes "h") (codes "1") (test_world [])).1,
    )
resolve_again_example =
    resolve_again (codes "h") (codes "1") (test_world [])
      (resolve (codes "h") (codes "1") (test_world [])).1 refl

time33_hash_32-times33_example :
    time33_hash_32 (codes "foobar-baz") ≡ times33 5381 (codes "foobar-baz") % 2 ^ 32
time33_hash_32-times33_example = time33_hash_32-times33 (codes "foobar-baz")

set_command_name_iff_example :
    (set_command_name (codes "gEt") (redis_input KCommand.noop)
      ≡ record { command = KCommand.get; info = command_info KCommand.get; args = [] })
    ↔ (map toupper (codes "gEt") ≡ (command_info KCommand.get).command_str)
unfolding redis_input
set_command_name_iff_example =
    set_command_name_iff (codes "gEt") (redis_input KCommand.noop) KCommand.get (λ e. cc, λ e. cc)

parse_integer-prints_example :
    let w = test_world [] in
    (IsInt64 (negsuc 41) × (parse_integer (b':' ∷ show_int (negsuc 41)) w ≡ (some (negsuc 41), w)))
    ⊎ ((¬ IsInt64 (negsuc 41))
        × (parse_integer (b':' ∷ show_int (negsuc 41)) w ≡ (none, record w { errno = erange })))
parse_integer-prints_example =
    parse_integer-prints b':' (negsuc 41) (test_world []) (λ e. omega (arith, e))
      (λ e. omega (arith, e))

abbrev test_protocol : Protocol
test_protocol = record {
  host = codes "h";
  port = codes "1";
  error = Message.text [];
  tcp = test_client;
  timeout = pos 50;
  blocking_mode = false;
  transaction_mode = true;
}

-- A command of a transaction, its reply, and what follows the reply.
abbrev exec_command : RedisCommand
exec_command = command_of KCommand.exec []

abbrev exec_reply : RedisOutput
exec_reply = RedisOutput.smbulks (
    output (status (some (codes "OK"))) (
      output (bulk (some (codes "bar")))
        (output (RedisOutput.integer (some (negsuc 6))) (output (bulk none) no_outputs))))

abbrev exec_world : World
exec_world = test_world (received (put_output exec_reply (codes "+x")) ∷ [])

exec_world-Holds : Holds test_protocol exec_world (put_output exec_reply (codes "+x"))
unfolding put_output to_list show_int
exec_world-Holds = record {
  inv = test_buffer-Inv;
  polls = refl;
  not_einval = λ e. omega (arith, e);
  not_erange = λ e. omega (arith, e);
  bytes = refl;
  short = omega arith;
}

exec_reply-Accepts : Accepts exec_command.inp true exec_reply
unfolding Readable same_type checks_type expected_type wrong_type same_command command_of
    redis_input command_info push_arg
exec_reply-Accepts = (
  (refl, refl),
  record { not_flat = refl; not_multi = refl; not_discard = refl },
  (lacks-Lacks 13 (codes "OK") refl, (omega arith, ((omega arith, omega arith), (tt, tt)))),
)

read_reply-Replies_example :
    let (ok, c', p', w') = Exec.read_reply exec_command test_protocol exec_world in
    (ok ≡ true)
    × (c' ≡ record exec_command { out = exec_reply })
    × Holds p' w' (codes "+x")
    × (p'.tcp.fd ≡ some 3)
    × (p'.transaction_mode ≡ false)
    × (w'.sent ≡ [])
unfolding same_command command_of redis_input
read_reply-Replies_example =
    read_reply-Replies exec_command exec_reply (codes "+x") test_protocol exec_world
      exec_reply-Accepts exec_world-Holds

-- A request, and the bulk that answers it.
abbrev get_command : RedisCommand
get_command = command_of KCommand.get (codes "k" ∷ [])

abbrev open_protocol : Protocol
open_protocol = record test_protocol { transaction_mode = false }

abbrev get_world : World
get_world = test_world (
    received (codes "$3" ++ (line_end ++ codes "ba"))
    ∷ received (codes "r" ++ (line_end ++ codes "+x"))
    ∷ [])

get_world-Holds :
    Holds open_protocol get_world (put_output (bulk (some (codes "bar"))) (codes "+x"))
unfolding put_output show_int
get_world-Holds = record {
  inv = test_buffer-Inv;
  polls = refl;
  not_einval = λ e. omega (arith, e);
  not_erange = λ e. omega (arith, e);
  bytes = refl;
  short = omega arith;
}

get_reply-Accepts : Accepts get_command.inp false (bulk (some (codes "bar")))
unfolding same_type checks_type expected_type wrong_type command_of redis_input command_info
    push_arg
get_reply-Accepts = (refl, omega arith)

get_fits : CanSend get_command
unfolding command_of redis_input push_arg command_info argc_error request_text ◌+ℤ◌
get_fits = record { argc = refl; short = omega arith }

exec_command-Replies_example :
    let (ok, c', p', w') = Exec.exec_command get_command open_protocol get_world in
    (ok ≡ true)
    × (c' ≡ record get_command { out = bulk (some (codes "bar")) })
    × Holds p' w' (codes "+x")
    × (p'.tcp.fd ≡ some 3)
    × (w'.sent ≡ text_of get_command)
exec_command-Replies_example =
    exec_command-Replies get_command (bulk (some (codes "bar"))) (codes "+x") open_protocol
      get_world (get_fits) refl get_reply-Accepts get_world-Holds

parse_request-request_text_example :
    parse_request (request_text (pos 2) (codes "GET" ∷ codes "a b" ∷ []) ++ codes "*")
    ≡ some (codes "GET" ∷ codes "a b" ∷ [], codes "*")
parse_request-request_text_example =
    parse_request-request_text (codes "GET" ∷ codes "a b" ∷ []) (codes "*")

write_command-sent_example :
    let (ok, c', p', w') = write_command get_command open_protocol get_world in
    (p'.tcp.fd ≡ none)
    ⊎ ((s : Bytes) × (w'.sent ≡ s) × (parse_request s ≡ some (codes "GET" ∷ codes "k" ∷ [], [])))
unfolding command_of push_arg redis_input command_info
write_command-sent_example =
    write_command-sent get_command open_protocol get_world (omega arith) get_fits.short
      (write_command-all get_command open_protocol get_world get_fits refl refl).0

abbrev error_world : World
error_world = test_world (received (codes "-ERR" ++ line_end) ∷ [])

read_reply_fails : (Exec.read_reply get_command open_protocol error_world).0 ≡ false
unfolding Exec.read_reply Conn.read_line search_delim timed_read Buffer.prepare Buffer.produce
    starts_with Buffer.consume
read_reply_fails = refl

read_reply-Shut_example :
    let (_, _, p', w') = Exec.read_reply get_command open_protocol error_world in
    Shut
      (ErrorSent
        (suc (bytes_left open_protocol error_world))
        get_command.inp
        open_protocol
        error_world)
      p'
      w'
read_reply-Shut_example = read_reply-Shut get_command open_protocol error_world read_reply_fails

abbrev test_redis2 : Redis2
test_redis2 = record {
  db_index = pos 0;
  db_index_select_failure = true;
  transaction_cmds = [];
  proto = open_protocol;
}

test_redis2-Healthy : Healthy test_redis2 get_world
unfolding Client.is_open is_open_fast is_zero
test_redis2-Healthy = record { is_open = refl; selected = refl }

assure_connect-Selected_example :
    let (found, p, w) = Conn.assure_connect open_protocol get_world in
    Selected (assure_connect test_redis2 get_world).1
    × ((is_zero (pos 0) ≡ true)
        ⊎ ((found ≡ Conn.was_open) × (true ≡ false))
        ⊎ Reselects (pos 0) p w (assure_connect test_redis2 get_world))
assure_connect-Selected_example =
    assure_connect-Selected test_redis2 get_world
      (ap (λ r. r.0) (assure_connect-Healthy test_redis2 get_world test_redis2-Healthy))

query-done_example :
    let (v, r', w') = query get_bulk KCommand.get (codes "k" ∷ []) test_redis2 get_world in
    (v ≡ done (codes "bar"))
    × Holds r'.proto w' (codes "+x")
    × (w'.sent ≡ text_of get_command)
    × (r'.proto.tcp.fd ≡ some 3)
unfolding get_bulk
query-done_example =
    query-done get_bulk KCommand.get (codes "k" ∷ []) (bulk (some (codes "bar"))) (codes "bar")
      (codes "+x") test_redis2 get_world test_redis2-Healthy refl get_fits get_reply-Accepts
      get_world-Holds refl

assure_connect-modes_example :
    let (got, p', w') = Conn.assure_connect test_protocol (test_world []) in
    ((got ≡ Conn.not_open)
      × (p'.tcp.fd ≡ none)
      × (p'.transaction_mode ≡ false)
      × (p'.blocking_mode ≡ false))
    ⊎ ((p'.transaction_mode ≡ true)
        × (p'.blocking_mode ≡ false)
        × ((got ≡ Conn.was_open) ⊎ (got ≡ Conn.now_connected)))
assure_connect-modes_example = assure_connect-modes test_protocol (test_world [])
