-- ===== src/Protocol/Reply.antt =====
-- `RedisProtocol::__read_reply` of src/redis_protocol.cpp.
pub mod Wire
pub mod Closing
pub mod Nested
pub mod Depth
use librediscxx.Base.{
  ℕ, zero, suc, ◌+◌, ℤ, pos, negsuc, Bool, true, false, not, ◌&&◌, ◌||◌, List, [], ◌∷◌, ◌++◌,
  Option, none, some, Bytes, codes, ◌==◌, length, drop, get_or, if◌then◌else◌,
}
use librediscxx.Message.{
  Message, text, empty_line, reply_type_error, integer_error, unexpected_reply, unexpected_integer,
}
use librediscxx.Os.World.{World}
use librediscxx.Os.Socket.Delivery.{delivered}
use librediscxx.Cmd.Command.{KCommand, KReplyType, CommandInfo, index}
use librediscxx.Cmd.Input.{RedisInput}
use librediscxx.Cmd.Output.{
  MBulks, RedisOutput, none_type, set_status, set_error, set_i, set_bulk, set_nil_bulk, set_mbulks,
  set_nil_mbulks, set_smbulks, set_nil_smbulks, RedisCommand,
}
use librediscxx.Tcp.Client
use librediscxx.Tcp.Buffer.{view}
use librediscxx.Protocol.Decimal.{parse_integer}
use librediscxx.Protocol.Conn.{Protocol, disconnect, close, read_line, read}
use librediscxx.Protocol.Bulk.{BulkRead, BulksRead, read_bulk_2, read_multi_bulk_2}

type_index : KReplyType → ℕ
type_index KReplyType.none_type = 0
type_index KReplyType.status = 1
type_index KReplyType.error = 2
type_index KReplyType.integer = 3
type_index KReplyType.bulk = 4
type_index KReplyType.multi_bulk = 5
type_index KReplyType.special_multi_bulk = 6
type_index KReplyType.depends = 7

unfoldable pub same_type : KReplyType → KReplyType → Bool
unfolding type_index
same_type a b = type_index a == type_index b

unfoldable pub same_command : KCommand → KCommand → Bool
unfolding index
same_command a b = index a == index b

-- What a read of a reply returns: success, the reply, and the state.
abbrev pub Reply : Type 0
Reply = Bool × RedisOutput × Protocol × World

-- A hard error: disconnect, and store the error.
unfoldable pub refuse : (Bytes → Bytes → Message) → RedisOutput → Protocol → World → Reply
unfolding disconnect set_error
refuse m o p w = let (p', w') = disconnect m p w in (false, set_error p'.error o, p', w')

-- A failed call that has set the error and disconnected already.
failed_reply : RedisOutput → Protocol → World → Reply
unfolding set_error
failed_reply o p w = (false, set_error p.error o, p, w)

keeps_type : KCommand → Bool
unfolding same_command
keeps_type cmd =
    same_command cmd KCommand.multi
    || same_command cmd KCommand.discard
    || same_command cmd KCommand.exec

-- `check_reply_type` and `exp_reply_type` after the two first tests of `__read_reply`.
unfoldable pub checks_type : Bool → RedisInput → Bool
unfolding same_type
checks_type check inp = check && not (same_type inp.info.reply_type KReplyType.depends)

unfoldable pub expected_type : Bool → RedisInput → Bool → KReplyType
unfolding keeps_type checks_type
expected_type check inp transaction_mode =
    if checks_type check inp && transaction_mode && not (keeps_type inp.command)
    then KReplyType.status
    else inp.info.reply_type

-- What a status reply does to the transaction mode.
unfoldable pub mode_after_status : KCommand → Bool → Bool
unfolding same_command
mode_after_status cmd mode =
    if not mode && same_command cmd KCommand.multi
    then true
    else if mode && same_command cmd KCommand.discard
    then false
    else mode

unfoldable pub status_reply : RedisInput → RedisOutput → Bytes → Protocol → World → Reply
unfolding set_status mode_after_status
status_reply inp o line p w = (
  true,
  set_status (drop 1 line) o,
  record p { transaction_mode = mode_after_status inp.command p.transaction_mode },
  w,
)

unfoldable pub integer_reply : RedisOutput → Bytes → Option ℤ → Protocol → World → Reply
unfolding set_i refuse
integer_reply o line none p w = refuse (λ h q. integer_error h q line) o p w
integer_reply o line (some i) p w = (true, set_i i o, p, w)

unfoldable pub bulk_reply : RedisOutput → BulkRead → Reply
unfolding set_bulk set_nil_bulk failed_reply
bulk_reply o (none, p, w) = failed_reply o p w
bulk_reply o (some none, p, w) = (true, set_nil_bulk o, p, w)
bulk_reply o (some (some b), p, w) = (true, set_bulk b o, p, w)

unfoldable pub multi_bulk_reply : RedisOutput → BulksRead → Reply
unfolding set_mbulks set_nil_mbulks failed_reply
multi_bulk_reply o (none, p, w) = failed_reply o p w
multi_bulk_reply o (some none, p, w) = (true, set_nil_mbulks o, p, w)
multi_bulk_reply o (some (some bs), p, w) = (true, set_mbulks bs o, p, w)

pub push_output :
    RedisOutput
    → Option (List RedisOutput) × Protocol × World
    → Option (List RedisOutput) × Protocol × World
push_output o (none, p, w) = (none, p, w)
push_output o (some os, p, w) = (some (o ∷ os), p, w)

-- `for (int64_t i=0; i<bulk_size; i++)`, for a reader of one reply.
unfoldable pub read_all :
    (Protocol → World → Reply) → ℕ → Protocol → World → Option (List RedisOutput) × Protocol × World
unfolding push_output
read_all child zero p w = (some [], p, w)
read_all child (suc n) p w =
    let (ok, o, p', w') = child p w in
    let rest = read_all child n p' w' in if ok then push_output o rest else (none, p', w')

-- The end of EXEC: the reply of the command itself, not the one of a child.
unfoldable pub end_transaction : Bool → RedisInput → Protocol → Protocol
unfolding same_command
end_transaction top inp p =
    if p.transaction_mode && same_command inp.command KCommand.exec && top
    then record p { transaction_mode = false }
    else p

special_end : Bool → RedisInput → RedisOutput → Option (List RedisOutput) × Protocol × World → Reply
unfolding set_smbulks end_transaction
special_end top inp o (none, p, w) = (false, o, p, w)
special_end top inp o (some os, p, w) = (true, set_smbulks os o, end_transaction top inp p, w)

unfoldable pub special_reply :
    (Protocol → World → Reply)
    → Bool
    → RedisInput
    → RedisOutput
    → Bytes
    → Option ℤ
    → Protocol
    → World
    → Reply
unfolding refuse set_nil_smbulks end_transaction special_end
special_reply child top inp o line none p w = refuse (λ h q. integer_error h q line) o p w
special_reply child top inp o line (some (negsuc zero)) p w =
    (true, set_nil_smbulks o, end_transaction top inp p, w)
special_reply child top inp o line (some (negsuc (suc n))) p w =
    special_end top inp o (some [], p, w)
special_reply child top inp o line (some (pos n)) p w = special_end top inp o (read_all child n p w)

-- Does the mark of a line not fit what the command expects?
unfoldable pub wrong_type : Bool → KReplyType → KReplyType → Bool
wrong_type check exp got = check && not (same_type exp got)

-- The case '*' of the switch.
on_array :
    (Protocol → World → Reply)
    → Bool
    → Bool
    → RedisInput
    → RedisOutput
    → KReplyType
    → Bytes
    → Protocol
    → World
    → Reply
unfolding wrong_type refuse multi_bulk_reply special_reply
on_array child top check inp o exp line p w =
    let (i, w') = parse_integer line w in
    if wrong_type check exp KReplyType.multi_bulk
      && wrong_type check exp KReplyType.special_multi_bulk
    then refuse (λ h q. reply_type_error h q b'*') o p w
    else if same_type exp KReplyType.multi_bulk
    then multi_bulk_reply o (read_multi_bulk_2 line p w)
    else special_reply child top inp o line i p w'

-- The switch of `__read_reply`, with a reader for the replies within a reply.
pub on_line :
    (Protocol → World → Reply)
    → Bool
    → Bool
    → RedisInput
    → RedisOutput
    → KReplyType
    → Bytes
    → Protocol
    → World
    → Reply
unfolding set_error wrong_type refuse failed_reply status_reply integer_reply bulk_reply on_array
on_line child top check inp o exp line p w =
    let mark = get_or line 0 0 in
    let error = text (drop 1 line) in
    let type_error = refuse (λ h q. reply_type_error h q mark) o p w in
    let (i, w') = parse_integer line w in
    if mark == b'-'
    then (false, set_error error o, record p { error = error }, w)
    else if mark == b'+'
    then (if wrong_type check exp KReplyType.status
        then type_error
        else status_reply inp o line p w)
    else if mark == b':'
    then (if wrong_type check exp KReplyType.integer
        then type_error
        else integer_reply o line i p w')
    else if mark == b'$'
    then (if wrong_type check exp KReplyType.bulk
        then type_error
        else bulk_reply o (read_bulk_2 line p w))
    else if mark == b'*'
    then on_array child top check inp o exp line p w
    else refuse (λ h q. unexpected_reply h q line) o p w

after_line :
    (Protocol → World → Reply)
    → Bool
    → Bool
    → RedisInput
    → RedisOutput
    → KReplyType
    → Option Bytes
    → Protocol
    → World
    → Reply
unfolding failed_reply on_line
after_line child top check inp o exp none p w = failed_reply o p w
after_line child top check inp o exp (some line) p w = on_line child top check inp o exp line p w

-- `__read_reply`, on fuel for the depth of replies within replies. Every reply takes a line off the
-- bytes that are left, so as much fuel as there are bytes, and one more, is enough. `top` says whether the
-- reply is the command's own.
unfoldable pub read_reply_at : ℕ → Bool → Bool → RedisInput → RedisOutput → Protocol → World → Reply
unfolding refuse checks_type expected_type after_line
read_reply_at zero top check inp o p w = refuse empty_line o p w
read_reply_at (suc f) top check inp o p w =
    let (line, p', w') = read_line p w in
    after_line (read_reply_at f false false inp none_type) top (checks_type check inp) inp o
      (expected_type check inp p.transaction_mode) line p' w'
