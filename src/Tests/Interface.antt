-- ===== src/Tests/Interface.antt =====
-- The theorems on the helpers of the interface at concrete inputs.
use librediscxx.Base.{◌+ℤ◌, ◌≡◌, refl, List, [], ◌∷◌, ◌++◌, some, Bytes, codes, arith, ap}
use librediscxx.Os.World.{World, received}
use librediscxx.Os.Connect.{is_open_fast}
use librediscxx.Tcp.Client
use librediscxx.Cmd.Command.{KCommand}
use librediscxx.Cmd.Input.{redis_input, command_info, push_arg}
use librediscxx.Cmd.Output.{get_mbulks, mbulks}
use librediscxx.Protocol.Decimal.{show_int}
use librediscxx.Protocol.Request.{request_text, argc_error}
use librediscxx.Protocol.Reply.{same_type, expected_type, checks_type, wrong_type}
use librediscxx.Protocol.Reply.Wire.{put_output}
use librediscxx.Redis2.State.{done, is_zero, command_of, interleave, Doubles}
use librediscxx.Redis2.State.Asking.{query-done}
use librediscxx.Redis2.Hashes
use librediscxx.Redis2.AsBase.{redis2_base}
use librediscxx.RedisBase.Helpers.{hgetall_pairs, insert_all, firsts, seconds}
use librediscxx.RedisBase.Helpers.Pairs.{hgetall_pairs-stored, stored}
use librediscxx.RedisBase.Helpers.Maps.{IsOrdered, lookup, first, insert_all_lem}
use librediscxx.Tests.{test_world, test_redis2, test_buffer-Inv}

abbrev two_pairs : List (Bytes × Bytes)
two_pairs = (codes "f", codes "1") ∷ (codes "a", codes "2") ∷ (codes "f", codes "3") ∷ []

insert_all_lem_example :
    IsOrdered (insert_all two_pairs [])
    × ((k : Bytes) → lookup k (insert_all two_pairs []) ≡ first (lookup k []) (lookup k two_pairs))
insert_all_lem_example = insert_all_lem two_pairs [] tt

abbrev bytes_doubles : Doubles
bytes_doubles = record { Double = Bytes; print = λ d. d; parse = λ s. some s }

abbrev hash_world : World
hash_world = test_world (received (put_output (mbulks (some (stored two_pairs))) (codes "+x")) ∷ [])

hash_world-stored : (Hashes.hgetall (codes "h") test_redis2 hash_world).0 ≡ done (stored two_pairs)
unfolding Hashes.hgetall get_mbulks put_output show_int Client.is_open is_open_fast is_zero firsts
    seconds interleave command_of redis_input push_arg command_info argc_error same_type checks_type
    expected_type wrong_type request_text ◌+ℤ◌
hash_world-stored =
    (query-done get_mbulks KCommand.hgetall (codes "h" ∷ []) (mbulks (some (stored two_pairs)))
      (stored two_pairs) (codes "+x") test_redis2 hash_world
      (record { is_open = refl; selected = refl }) refl
      (record { argc = refl; short = omega arith })
      (
        refl,
        (
          omega arith,
          (omega arith, (omega arith, (omega arith, (omega arith, (omega arith, tt))))),
        ),
      )
      (record {
        inv = test_buffer-Inv;
        polls = refl;
        not_einval = λ e. omega (arith, e);
        not_erange = λ e. omega (arith, e);
        bytes = refl;
        short = omega arith;
      })
      refl).0

hgetall_pairs-stored_example :
    hgetall_pairs (redis2_base bytes_doubles) (codes "h") [] test_redis2 hash_world ≡ (
      done ([] ++ two_pairs),
      (Hashes.hgetall (codes "h") test_redis2 hash_world).1,
      (Hashes.hgetall (codes "h") test_redis2 hash_world).2,
    )
hgetall_pairs-stored_example =
    hgetall_pairs-stored (redis2_base bytes_doubles) (codes "h") [] two_pairs test_redis2
      (Hashes.hgetall (codes "h") test_redis2 hash_world).1 hash_world
      (Hashes.hgetall (codes "h") test_redis2 hash_world).2
      (ap
        (λ v. (
          v,
          (Hashes.hgetall (codes "h") test_redis2 hash_world).1,
          (Hashes.hgetall (codes "h") test_redis2 hash_world).2,
        ))
        hash_world-stored)
