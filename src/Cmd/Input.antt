-- ===== src/Cmd/Input.antt =====
-- `RedisInput` of src/redis_cmd.h and src/redis_cmd.cpp: a command, its row, and its arguments.
use librediscxx.Base.{
  ℕ, ◌-◌, ◌&&◌, List, [], ◌∷◌, ◌++◌, map, Option, none, some, Bytes, leb, get_or, if◌then◌else◌,
}
use librediscxx.Cmd.Command.{KCommand, KReplyType, CommandInfo, argc_no_checking, index}
use librediscxx.Cmd.Table.{s_command_map}
use librediscxx.Cmd.Names.{s_command_rev_map, find_command}

-- What a read past the table's end would give; no command's index is past it.
abbrev no_row : CommandInfo
no_row = record {
  command = KCommand.noop;
  command_str = [];
  argc = argc_no_checking;
  reply_type = KReplyType.none_type;
}

-- `&s_command_map[cmd]`.
unfoldable pub command_info : KCommand → CommandInfo
unfolding s_command_map index
command_info c = get_or s_command_map (index c) no_row

pub record RedisInput : Type 0 where
  pub command : KCommand
  pub info : CommandInfo
  pub args : List Bytes

-- `RedisInput(kCommand cmd)`; the default constructor is the one at NOOP.
unfoldable pub redis_input : KCommand → RedisInput
redis_input c = record { command = c; info = command_info c; args = [] }

unfoldable pub set_command : KCommand → RedisInput → RedisInput
set_command c r = record r { command = c; info = command_info c }

-- `toupper` in the C locale.
unfoldable pub toupper : ℕ → ℕ
toupper c = if leb b'a' c && leb c b'z' then c - 32 else c

found_or_noop : Option KCommand → KCommand
found_or_noop none = KCommand.noop
found_or_noop (some c) = c

-- `set_command(const std::string&)`: the name in upper case is looked up, or NOOP is set.
unfoldable pub set_command_name : Bytes → RedisInput → RedisInput
unfolding set_command found_or_noop
set_command_name s r =
    set_command (found_or_noop (find_command (map toupper s) s_command_rev_map)) r

unfoldable pub push_arg : Bytes → RedisInput → RedisInput
push_arg s r = record r { args = r.args ++ s ∷ [] }

-- `push_arg(const string_vector_t&)`: one at a time.
unfoldable pub push_args : List Bytes → RedisInput → RedisInput
push_args [] r = r
push_args (s ∷ ss) r = push_args ss (push_arg s r)

unfoldable pub clear_arg : RedisInput → RedisInput
clear_arg r = record r { args = [] }
