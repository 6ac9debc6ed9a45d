-- ===== src/Message.antt =====
-- What the last error is set to. The texts that boost::format builds are kept as the format's name with
-- its arguments; every other text, one sent by a server among them, is kept as it is.
use librediscxx.Base.{ℕ, ℤ, Bytes, codes}
use librediscxx.Cmd.Command.{KReplyType}

pub data Message : Type 0 where
  text : Bytes → Message
  -- host, port and error number
  connect_failed write_failed read_failed : Bytes → Bytes → ℕ → Message
  -- host and port
  not_connected empty_line : Bytes → Bytes → Message
  -- host, port and the byte that marks the reply
  reply_type_error : Bytes → Bytes → ℕ → Message
  -- host, port and the line
  integer_error unexpected_reply : Bytes → Bytes → Bytes → Message
  unexpected_integer : Bytes → Bytes → ℤ → Message
  invalid_command : Bytes → Message
  -- the expected and the given number of arguments
  argc_not_matched : ℤ → ℤ → Message
  -- the expected and the received type of reply
  expect_but_got : KReplyType → KReplyType → Message
  -- an error of one host of several
  on_host : Bytes → Bytes → Message → Message
  -- the numbers of hosts and of ports
  hosts_ports_mismatch : ℕ → ℕ → Message
  -- the numbers of hosts, groups and partitions
  invalid_group_number : ℕ → ℕ → ℕ → Message

abbrev pub einval : Message
einval = Message.text (codes "EINVAL")
