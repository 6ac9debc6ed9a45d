-- ===== src/Protocol/Reply/Wire.antt =====
-- Replies as a server writes them, and what `__read_reply` of src/redis_protocol.cpp reads of them.
use librediscxx.Base.{
  ℤ, pos, negsuc, IsInt64, ◌≡◌, refl, Bool, true, false, ◌&&◌, ◌∷◌, Option, none, some, Bytes,
  Lacks, length, if◌then◌else◌, Bool-cases, inl, inr,
}
use librediscxx.Os.World.{World}
use librediscxx.Cmd.Command.{KCommand, KReplyType}
use librediscxx.Cmd.Input.{RedisInput}
use librediscxx.Cmd.Output.{
  MBulks, RedisOutput, RedisOutputs, none_type, status, error, integer, bulk, mbulks, smbulks,
  nil_smbulks, no_outputs, output, to_list, set_status, set_i, set_bulk, set_nil_bulk, set_mbulks,
  set_nil_mbulks,
}
use librediscxx.Protocol.Decimal.{show_int}
use librediscxx.Protocol.Conn.{Protocol}
use librediscxx.Protocol.Conn.Lines.{Holds, Kept, Gives, Still, Still-refl}
use librediscxx.Protocol.Bulk.{BulkRead, BulksRead}
use librediscxx.Protocol.Bulk.Wire.{
  put_line, bulk_header, bulk_body, NotEmpty, bulks_size, bulks_body, NotEmptys,
  parse_integer-Holds, read_bulk_2-Gives, read_multi_bulk_2-Gives,
}
use librediscxx.Protocol.Reply.{
  Reply, same_type, same_command, wrong_type, mode_after_status, status_reply, integer_reply,
  bulk_reply, multi_bulk_reply, end_transaction, special_reply, on_array, on_line,
}

-- A server's writer of successful replies.
unfoldable mutual
  pub put_output : RedisOutput → Bytes → Bytes
  put_output none_type rest = rest
  put_output (status none) rest = rest
  put_output (status (some s)) rest = put_line (b'+' ∷ s) rest
  put_output (error e) rest = rest
  put_output (integer none) rest = rest
  put_output (integer (some i)) rest = put_line (b':' ∷ show_int i) rest
  put_output (bulk b) rest = put_line (bulk_header b) (bulk_body b rest)
  put_output (mbulks bs) rest = put_line (b'*' ∷ show_int (bulks_size bs)) (bulks_body bs rest)
  put_output (smbulks os) rest =
      put_line (b'*' ∷ show_int (pos (length (to_list os)))) (put_outputs os rest)
  put_output nil_smbulks rest = put_line (b'*' ∷ show_int (negsuc 0)) rest

  pub put_outputs : RedisOutputs → Bytes → Bytes
  put_outputs no_outputs rest = rest
  put_outputs (output o os) rest = put_output o (put_outputs os rest)

-- The replies that the client reads: texts without CR, integers of 64 bits, bulks that are not empty.
-- Within a reply stand no flat multi-bulks: there every array is read as a special one.
unfoldable mutual
  pub Readable : RedisOutput → Type 0
  Readable none_type = ⊥
  Readable (status none) = ⊥
  Readable (status (some s)) = Lacks 13 s
  Readable (error e) = ⊥
  Readable (integer none) = ⊥
  Readable (integer (some i)) = IsInt64 i
  Readable (bulk b) = NotEmpty b
  Readable (mbulks bs) = ⊥
  Readable (smbulks os) = Readables os
  Readable nil_smbulks = Unit

  pub Readables : RedisOutputs → Type 0
  Readables no_outputs = Unit
  Readables (output o os) = Readable o × Readables os

-- A read that succeeds with the reply `o`, leaves `rest`, and ends in the transaction mode `m`.
abbrev pub Replies : Protocol → World → Bytes → RedisOutput → Bool → Reply → Type 0
Replies p w rest o m (ok, o', p', w') =
    (ok ≡ true)
    × (o' ≡ o)
    × Holds p' w' rest
    × (p'.tcp.fd ≡ p.tcp.fd)
    × (p'.transaction_mode ≡ m)
    × Still p w p' w'

Still-modes :
    (n m : Bool) {p : Protocol} {w : World} {p' : Protocol} {w' : World}
    → Still p w p' w'
    → Still (record p { transaction_mode = n }) w (record p' { transaction_mode = m }) w'
Still-modes n m s = record { sent = s.sent; sends = s.sends; clock = s.clock; check = s.check }

Holds-mode :
    (m : Bool) (p : Protocol) (w : World) (s : Bytes)
    → Holds p w s
    → Holds (record p { transaction_mode = m }) w s
Holds-mode m p w s h = record {
  inv = h.inv;
  polls = h.polls;
  not_einval = h.not_einval;
  not_erange = h.not_erange;
  bytes = h.bytes;
  short = h.short;
}

pub on_status :
    (child : Protocol → World → Reply) (top check : Bool) (inp : RedisInput) (o : RedisOutput)
    (exp : KReplyType) (s rest : Bytes) (p : Protocol) (w : World)
    → wrong_type check exp KReplyType.status ≡ false
    → Holds p w rest
    → Replies p w rest
        (status (some s))
        (mode_after_status inp.command p.transaction_mode)
        (on_line child top check inp o exp (b'+' ∷ s) p w)
unfolding on_line status_reply set_status
on_status child top check inp o exp s rest p w fits h = rw fits (
  refl,
  refl,
  Holds-mode _ p w rest h,
  refl,
  refl,
  Still-modes p.transaction_mode _ (Still-refl p w),
)

pub on_integer :
    (child : Protocol → World → Reply) (top check : Bool) (inp : RedisInput) (o : RedisOutput)
    (exp : KReplyType) (i : ℤ) (rest : Bytes) (p : Protocol) (w : World)
    → wrong_type check exp KReplyType.integer ≡ false
    → IsInt64 i
    → Holds p w rest
    → Replies p w rest
        (integer (some i))
        p.transaction_mode
        (on_line child top check inp o exp (b':' ∷ show_int i) p w)
unfolding on_line integer_reply set_i
on_integer child top check inp o exp i rest p w fits small h =
    rw (fits, parse_integer-Holds b':' i p w rest h small)
      (refl, refl, h, refl, refl, Still-refl p w)

bulk_reply-Replies :
    (o : RedisOutput) (b : Option Bytes) (rest : Bytes) (p : Protocol) (w : World) (r : BulkRead)
    → Gives p w rest (some b) r
    → Replies p w rest (bulk b) p.transaction_mode (bulk_reply o r)
unfolding bulk_reply set_bulk set_nil_bulk
bulk_reply-Replies o none rest p w (r, p', w') (e, h, k) =
    rw e (refl, refl, h, k.fd, k.mode, k.still)
bulk_reply-Replies o (some b) rest p w (r, p', w') (e, h, k) =
    rw e (refl, refl, h, k.fd, k.mode, k.still)

pub on_bulk :
    (child : Protocol → World → Reply) (top check : Bool) (inp : RedisInput) (o : RedisOutput)
    (exp : KReplyType) (b : Option Bytes) (rest : Bytes) (p : Protocol) (w : World)
    → wrong_type check exp KReplyType.bulk ≡ false
    → NotEmpty b
    → Holds p w (bulk_body b rest)
    → Replies p w rest
        (bulk b)
        p.transaction_mode
        (on_line child top check inp o exp (bulk_header b) p w)
unfolding on_line
on_bulk child top check inp o exp b rest p w fits full h =
    rw fits (bulk_reply-Replies o b rest p w _ (read_bulk_2-Gives b rest p w full h))

multi_bulk_reply-Replies :
    (o : RedisOutput) (bs : Option MBulks) (rest : Bytes) (p : Protocol) (w : World) (r : BulksRead)
    → Gives p w rest (some bs) r
    → Replies p w rest (mbulks bs) p.transaction_mode (multi_bulk_reply o r)
unfolding multi_bulk_reply set_mbulks set_nil_mbulks
multi_bulk_reply-Replies o none rest p w (r, p', w') (e, h, k) =
    rw e (refl, refl, h, k.fd, k.mode, k.still)
multi_bulk_reply-Replies o (some bs) rest p w (r, p', w') (e, h, k) =
    rw e (refl, refl, h, k.fd, k.mode, k.still)

pub on_mbulks :
    (child : Protocol → World → Reply) (top check : Bool) (inp : RedisInput) (o : RedisOutput)
    (bs : Option MBulks) (rest : Bytes) (p : Protocol) (w : World)
    → NotEmptys bs
    → Holds p w (bulks_body bs rest)
    → Replies p w rest
        (mbulks bs)
        p.transaction_mode
        (on_line child top check inp o KReplyType.multi_bulk (b'*' ∷ show_int (bulks_size bs)) p w)
unfolding on_line on_array wrong_type same_type
on_mbulks child top true inp o bs rest p w full h =
    multi_bulk_reply-Replies o bs rest p w _ (read_multi_bulk_2-Gives bs rest p w full h)
on_mbulks child top false inp o bs rest p w full h =
    multi_bulk_reply-Replies o bs rest p w _ (read_multi_bulk_2-Gives bs rest p w full h)

-- What the end of a special multi-bulk does to the transaction mode.
abbrev pub mode_after_special : Bool → RedisInput → Bool → Bool
mode_after_special top inp m =
    if m && same_command inp.command KCommand.exec && top then false else m

pub end_transaction-Replies :
    (top : Bool) (inp : RedisInput) (o : RedisOutput) (rest : Bytes) (p : Protocol) (w : World)
    (p' : Protocol) (w' : World)
    → Holds p' w' rest
    → Kept p w p' w'
    → Replies p w rest o
        (mode_after_special top inp p.transaction_mode)
        (true, o, end_transaction top inp p', w')
unfolding end_transaction
end_transaction-Replies top inp o rest p w p' w' h k =
    elim (Bool-cases (p'.transaction_mode && same_command inp.command KCommand.exec && top)) [
      | inl e ↦
          rw (← k.mode, e)
            (refl, refl, Holds-mode _ p' w' rest h, k.fd, refl, Still-modes _ false k.still)
      | inr e ↦
          rw (← k.mode, e) (refl, refl, h, k.fd, refl, Still-modes _ p'.transaction_mode k.still)
    ]

-- A line of a special multi-bulk: the mark fits, and the type is not the flat one.
abbrev pub Special : Bool → KReplyType → Type 0
Special check exp =
    ((wrong_type check exp KReplyType.multi_bulk
        && wrong_type check exp KReplyType.special_multi_bulk)
      ≡ false)
    × (same_type exp KReplyType.multi_bulk ≡ false)

pub on_special :
    (child : Protocol → World → Reply) (top check : Bool) (inp : RedisInput) (o : RedisOutput)
    (exp : KReplyType) (i : ℤ) (s : Bytes) (p : Protocol) (w : World)
    → Special check exp
    → IsInt64 i
    → Holds p w s
    → on_line child top check inp o exp (b'*' ∷ show_int i) p w
      ≡ special_reply child top inp o (b'*' ∷ show_int i) (some i) p w
unfolding on_line on_array
on_special child top check inp o exp i s p w (fits, flat) small h =
    rw (fits, flat, parse_integer-Holds b'*' i p w s h small)
