-- ===== src/Tests/Partitioned.antt =====
-- The theorems on partitioned servers at concrete inputs.
use librediscxx.Protocol.Decimal.{show_int}
use librediscxx.Protocol.Request.{request_text}
use librediscxx.Cmd.Input.{command_info, push_arg, redis_input}
use librediscxx.Base.{
  ◌^◌, ◌<◌, ◌+ℤ◌, ℕ, some, All, Bytes, ◌%◌, arith, ◌≡◌, refl, pos, true, [], ◌∷◌, codes, length,
}
use librediscxx.Message.{text}
use librediscxx.Redis2.Strings
use librediscxx.Redis2.State.{failed}
use librediscxx.Redis2P.State.{
  Redis2P, Networks, inner_init, get_key_host_index, get_key_client, write_loop, read_loop,
}
use librediscxx.Redis2P.State.Serving.{Grouped, AllServe, get_key_client-AllServe}
use librediscxx.Redis2P.State.Spreading.{Distinct, get_key_client-Distinct}
use librediscxx.Os.World.{World, received}
use librediscxx.Os.Connect.{is_open_fast}
use librediscxx.Tcp.Client
use librediscxx.Cmd.Command.{KCommand}
use librediscxx.Cmd.Output.{status}
use librediscxx.Protocol.Reply.Wire.{put_output}
use librediscxx.Protocol.Request.Sending.{text_of}
use librediscxx.Redis2.State.{command_of, is_zero}
use librediscxx.Redis2.Session.Calling.{Ready}
use librediscxx.Redis2P.StringCalls
use librediscxx.Redis2P.State.Replicating.{HostReady, AllCalled, set-AllCalled}
use librediscxx.Redis2P.State.Starting.{inner_init-Grouped}
use librediscxx.Redis2P.State.Trying.{Written, ReadFrom, write_loop-Written, read_loop-ReadFrom}
use librediscxx.Redis2P.SplitCalls.{mget}
use librediscxx.Redis2P.SplitCalls.Answers.{Sized, mget-Sized}
use librediscxx.Tests.{test_world, test_buffer-Inv, test_redis2, error_world, get_world}

-- Four hosts for two partitions, and a hash that is a key's length.
abbrev new_client : Redis2P
new_client = record {
  hosts = codes "a" ∷ codes "b" ∷ codes "c" ∷ codes "d" ∷ [];
  ports = codes "1" ∷ codes "2" ∷ codes "3" ∷ codes "4" ∷ [];
  db_index = pos 0;
  timeout_ms = pos 50;
  partitions = 2;
  hash_fn = length;
  groups = 0;
  error = text [];
  clients = [];
}

new_client-ok : (inner_init new_client).0 ≡ true
unfolding inner_init
new_client-ok = refl

abbrev networks : Networks
networks = record {
  worlds = error_world ∷ get_world ∷ [];
  errno = 0;
  clock = 0;
  dns_cache = [];
  thread_id = 7;
}

-- Two groups of one host: the first host answers with an error, the second with a value.
abbrev connected : Redis2P
connected = record new_client {
  partitions = 1;
  groups = 2;
  clients = test_redis2 ∷ test_redis2 ∷ [];
}

inner_init-Grouped_example :
    Grouped (inner_init new_client).1
    × (length (inner_init new_client).1.clients % (inner_init new_client).1.groups ≡ 0)
inner_init-Grouped_example = inner_init-Grouped new_client refl refl new_client-ok

get_key_client-AllServe_example :
    AllServe
      (inner_init new_client).1
      (get_key_host_index (codes "key") (inner_init new_client).1)
      (inner_init new_client).1.groups
      (get_key_client (codes "key") (inner_init new_client).1 networks)
get_key_client-AllServe_example =
    get_key_client-AllServe (codes "key") (inner_init new_client).1 networks
      (inner_init-Grouped new_client refl refl new_client-ok).0

write_loop-Written_example :
    Written
      (Strings.set (codes "k") (codes "v"))
      (write_loop (Strings.set (codes "k") (codes "v")) (1 ∷ 0 ∷ []) failed connected networks)
      (1 ∷ 0 ∷ [])
      connected
      networks
write_loop-Written_example =
    write_loop-Written (Strings.set (codes "k") (codes "v")) 1 (0 ∷ []) failed connected networks

read_loop-ReadFrom_example :
    ReadFrom
      (Strings.get (codes "k"))
      (read_loop (Strings.get (codes "k")) (0 ∷ 1 ∷ []) connected networks)
      (0 ∷ 1 ∷ [])
      connected
      networks
read_loop-ReadFrom_example =
    read_loop-ReadFrom (Strings.get (codes "k")) (0 ∷ 1 ∷ []) connected networks

mget-Sized_example : Sized 2 (mget (codes "k" ∷ codes "l" ∷ []) connected networks)
mget-Sized_example = mget-Sized (codes "k" ∷ codes "l" ∷ []) connected networks

get_key_client-Distinct_example :
    Distinct (get_key_client (codes "key") (inner_init new_client).1 networks)
unfolding inner_init
get_key_client-Distinct_example =
    get_key_client-Distinct (codes "key") (inner_init new_client).1 networks
      (inner_init-Grouped new_client refl refl new_client-ok).0 (omega arith)

-- Two groups of one host, each of which will answer OK.
abbrev ok_world : World
ok_world = test_world (received (put_output (status (some (codes "OK"))) []) ∷ [])

abbrev ok_networks : Networks
ok_networks = record networks { worlds = ok_world ∷ ok_world ∷ [] }

abbrev no_bytes : ℕ → Bytes
no_bytes i = []

ok-Ready : Ready test_redis2 ok_world (put_output (status (some (codes "OK"))) [])
unfolding put_output Client.is_open is_open_fast is_zero
ok-Ready = record {
  healthy = record { is_open = refl; selected = refl };
  sends = refl;
  mode = refl;
  holds = record {
    inv = test_buffer-Inv;
    polls = refl;
    not_einval = λ e. omega (arith, e);
    not_erange = λ e. omega (arith, e);
    bytes = refl;
    short = omega arith;
  };
}

hosts-Ready :
    All
      (λ i.
        HostReady i connected ok_networks
          (no_bytes i)
          (put_output (status (some (codes "OK"))) (no_bytes i)))
      (get_key_client (codes "k") connected ok_networks)
unfolding get_key_client get_key_host_index
hosts-Ready = (
  record {
    client = test_redis2;
    world = ok_world;
    client_at = refl;
    world_at = refl;
    ready = ok-Ready;
    sends = refl;
  },
  (
    record {
      client = test_redis2;
      world = ok_world;
      client_at = refl;
      world_at = refl;
      ready = ok-Ready;
      sends = refl;
    },
    tt,
  ),
)

short_set : length (text_of (command_of KCommand.set (codes "k" ∷ codes "v" ∷ []))) < 2 ^ 31
unfolding command_of redis_input push_arg command_info request_text show_int ◌+ℤ◌
short_set = omega arith

set-AllCalled_example :
    AllCalled
      (get_key_client (codes "k") connected ok_networks)
      (text_of (command_of KCommand.set (codes "k" ∷ codes "v" ∷ [])))
      no_bytes
      tt
      connected
      ok_networks
      (StringCalls.set (codes "k") (codes "v") connected ok_networks)
      no_bytes
set-AllCalled_example =
    set-AllCalled (codes "k") (codes "v") connected ok_networks no_bytes no_bytes short_set
      (record { some_group = omega arith; enough = omega arith }) (omega arith) hosts-Ready
