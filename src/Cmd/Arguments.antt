-- ===== src/Cmd/Arguments.antt =====
-- Arguments that are numbers, and the rest of `RedisInput` and `RedisCommand` (src/redis_cmd.h and
-- src/redis_cmd.cpp). What boost::lexical_cast makes of a double is a parameter.
use librediscxx.Base.{ℕ, ℤ, pos, List, [], ◌∷◌, Option, none, some, Bytes, codes}
use librediscxx.Cmd.Command.{KCommand, KReplyType}
use librediscxx.Cmd.Input.{RedisInput, redis_input, set_command_name, push_arg}
use librediscxx.Cmd.Output.{RedisCommand, none_type}
use librediscxx.Protocol.Decimal.{show_int}

-- `push_arg(const char *)`, where the pointer may be NULL.
unfoldable pub push_c_string : Option Bytes → RedisInput → RedisInput
unfolding push_arg
push_c_string none r = r
push_c_string (some s) r = push_arg s r

-- `push_arg(int64_t)` and `push_arg(int)`.
unfoldable pub push_int : ℤ → RedisInput → RedisInput
unfolding push_arg show_int
push_int i r = push_arg (show_int i) r

-- `push_arg(size_t)`
unfoldable pub push_size : ℕ → RedisInput → RedisInput
unfolding push_arg show_int
push_size i r = push_arg (show_int (pos i)) r

unfoldable pub push_ints : List ℤ → RedisInput → RedisInput
unfolding push_int
push_ints [] r = r
push_ints (i ∷ iv) r = push_ints iv (push_int i r)

module _ {Double : Type 0} (print : Double → Bytes) where
  unfoldable pub push_double : Double → RedisInput → RedisInput
  unfolding push_arg
  push_double d r = push_arg (print d) r

  unfoldable pub push_doubles : List Double → RedisInput → RedisInput
  unfolding push_double
  push_doubles [] r = r
  push_doubles (d ∷ dv) r = push_doubles dv (push_double d r)

-- `RedisInput(const std::string&)`
unfoldable pub redis_input_named : Bytes → RedisInput
unfolding redis_input set_command_name
redis_input_named cmd = set_command_name cmd (redis_input KCommand.noop)

-- `RedisCommand(const std::string&)`
unfoldable pub redis_command_named : Bytes → RedisCommand
unfolding redis_input_named
redis_command_named cmd = record { inp = redis_input_named cmd; out = none_type }

unfoldable pub swap_inputs : RedisInput → RedisInput → RedisInput × RedisInput
swap_inputs r other = (
  record { command = other.command; info = other.info; args = other.args },
  record { command = r.command; info = r.info; args = r.args },
)

unfoldable pub swap_commands : RedisCommand → RedisCommand → RedisCommand × RedisCommand
unfolding swap_inputs
swap_commands c other =
    let (i, j) = swap_inputs c.inp other.inp in
    (record { inp = i; out = other.out }, record { inp = j; out = c.out })

-- `to_string` of a reply's type
unfoldable pub type_text : KReplyType → Bytes
type_text KReplyType.status = codes "status reply"
type_text KReplyType.error = codes "error reply"
type_text KReplyType.integer = codes "integer reply"
type_text KReplyType.bulk = codes "bulk reply"
type_text KReplyType.multi_bulk = codes "multi-bulk reply"
type_text KReplyType.special_multi_bulk = codes "special multi-bulk reply"
type_text KReplyType.depends = codes "non-defined reply"
type_text KReplyType.none_type = codes "none type reply"

-- The calls that a `RedisCommand` passes on to its input: `clear_arg` and each `push_arg`.
unfoldable pub on_input : (RedisInput → RedisInput) → RedisCommand → RedisCommand
on_input f c = record c { inp = f c.inp }
