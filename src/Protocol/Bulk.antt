-- ===== src/Protocol/Bulk.antt =====
-- Bulks and multi-bulks: `read_bulk_2`, `read_bulk` and `read_multi_bulk_2` of
-- src/redis_protocol.cpp.
pub mod Wire
pub mod Closing
use librediscxx.Base.{
  ℕ, zero, suc, ◌+◌, ℤ, pos, negsuc, Bool, true, false, not, ◌&&◌, ◌||◌, List, [], ◌∷◌, ◌++◌,
  Option, none, some, Bytes, codes, ◌==◌, length, drop, get_or, if◌then◌else◌,
}
use librediscxx.Message.{
  Message, text, reply_type_error, integer_error, unexpected_reply, unexpected_integer,
}
use librediscxx.Os.World.{World}
use librediscxx.Os.Socket.Delivery.{delivered}
use librediscxx.Cmd.Command.{KCommand, KReplyType, CommandInfo, index}
use librediscxx.Cmd.Input.{RedisInput}
use librediscxx.Cmd.Output.{
  MBulks, RedisOutput, none_type, set_status, set_error, set_i, set_bulk, set_nil_bulk, set_mbulks,
  set_nil_mbulks, set_smbulks, set_nil_smbulks, RedisCommand,
}
use librediscxx.Tcp.Client
use librediscxx.Tcp.Buffer.{view}
use librediscxx.Protocol.Decimal.{parse_integer}
use librediscxx.Protocol.Conn.{Protocol, fail, read_line, read}

abbrev pub BulkRead : Type 0
BulkRead = Option (Option Bytes) × Protocol × World

-- The bulk of size `i`, after its header: `none` is the failure, `some none` a nil bulk.
sized : ℕ → Option Bytes × Protocol × World → BulkRead
unfolding fail
sized i (none, p, w) = (none, p, w)
sized i (some b, p, w) =
    if i == length b then (some (some b), p, w) else fail (λ h q. unexpected_reply h q b) p w

bulk_of_size : Bytes → Option ℤ → Protocol → World → BulkRead
unfolding fail sized
bulk_of_size header none p w = fail (λ h q. integer_error h q header) p w
bulk_of_size header (some (negsuc zero)) p w = (some none, p, w)
bulk_of_size header (some (negsuc (suc n))) p w =
    fail (λ h q. unexpected_integer h q (negsuc (suc n))) p w
bulk_of_size header (some (pos zero)) p w = fail (λ h q. unexpected_integer h q (pos zero)) p w
bulk_of_size header (some (pos (suc n))) p w = sized (suc n) (read (suc n) p w)

unfoldable pub read_bulk_2 : Bytes → Protocol → World → BulkRead
unfolding parse_integer bulk_of_size
read_bulk_2 header p w = let (i, w') = parse_integer header w in bulk_of_size header i p w'

after_header : Option Bytes → Protocol → World → BulkRead
unfolding fail
after_header none p w = (none, p, w)
after_header (some header) p w =
    if get_or header 0 0 == b'$'
    then read_bulk_2 header p w
    else fail (λ h q. reply_type_error h q b'$') p w

unfoldable pub read_bulk : Protocol → World → BulkRead
unfolding after_header
read_bulk p w = let (line, p', w') = read_line p w in after_header line p' w'

abbrev pub BulksRead : Type 0
BulksRead = Option (Option MBulks) × Protocol × World

push_bulk : Option Bytes → Option (Option MBulks) × Protocol × World → BulksRead
push_bulk b (some (some bs), p, w) = (some (some (b ∷ bs)), p, w)
push_bulk b (r, p, w) = (r, p, w)

-- `for (int64_t j=0; j<i; j++)`
unfoldable pub read_bulks : ℕ → Protocol → World → BulksRead
unfolding push_bulk
read_bulks zero p w = (some (some []), p, w)
read_bulks (suc n) p w =
    let (b, p', w') = read_bulk p w in
    let rest = read_bulks n p' w' in elim b [ none ↦ (none, p', w') | some s ↦ push_bulk s rest ]

multi_bulk_of_size : Bytes → Option ℤ → Protocol → World → BulksRead
unfolding fail read_bulks
multi_bulk_of_size header none p w = fail (λ h q. integer_error h q header) p w
multi_bulk_of_size header (some (negsuc zero)) p w = (some none, p, w)
multi_bulk_of_size header (some (negsuc (suc n))) p w =
    fail (λ h q. unexpected_integer h q (negsuc (suc n))) p w
multi_bulk_of_size header (some (pos n)) p w = read_bulks n p w

unfoldable pub read_multi_bulk_2 : Bytes → Protocol → World → BulksRead
unfolding parse_integer multi_bulk_of_size
read_multi_bulk_2 header p w =
    let (i, w') = parse_integer header w in multi_bulk_of_size header i p w'
