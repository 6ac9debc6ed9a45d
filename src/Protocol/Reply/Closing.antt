-- ===== src/Protocol/Reply/Closing.antt =====
-- When `__read_reply` of src/redis_protocol.cpp fails, the connection is closed, or the server has sent an
-- error.
use librediscxx.Base.{
  ℕ, zero, suc, ℤ, pos, negsuc, Bool, true, false, ◌<◌, arith, ◌&&◌, ◌≡◌, refl, ◌⊎◌, inl, inr, List,
  [], ◌∷◌, ap, ==_iff, Option, none, some, Bytes, ◌==◌, get_or, drop, Bool-cases,
}
use librediscxx.Message.{text}
use librediscxx.Os.World.{World}
use librediscxx.Cmd.Command.{KReplyType}
use librediscxx.Cmd.Input.{RedisInput}
use librediscxx.Cmd.Output.{RedisOutput, none_type}
use librediscxx.Tcp.Client
use librediscxx.Protocol.Decimal.{parse_integer}
use librediscxx.Protocol.Conn.{Protocol, disconnect, close, read_line}
use librediscxx.Protocol.Conn.Closing.{ClosesOn, read_line-ClosesOn}
use librediscxx.Protocol.Bulk.{BulkRead, BulksRead, read_bulk_2, read_multi_bulk_2}
use librediscxx.Protocol.Bulk.Closing.{read_bulk_2-ClosesOn, read_multi_bulk_2-ClosesOn}
use librediscxx.Protocol.Reply.{
  Reply, same_type, wrong_type, checks_type, expected_type, refuse, failed_reply, status_reply,
  integer_reply, bulk_reply, multi_bulk_reply, read_all, push_output, special_end, special_reply,
  on_array, on_line, after_line, read_reply_at,
}

-- The states from which the items of a reply are read: the first one, and after an item that was read the next.
pub data Items (child : Protocol → World → Reply)
    : Protocol → World → Protocol → World → Type 0 where
  first : (p : Protocol) (w : World) → Items child p w p w
  next :
      (p : Protocol) (w : World) (q : Protocol) (v : World)
      → (child p w).0 ≡ true
      → Items child (child p w).2 (child p w).3 q v
      → Items child p w q v

-- How a failed read ended: from a state to a state.
abbrev pub Ends : Type 1
Ends = Protocol → World → Protocol → World → Type 0

-- An item ended so.
abbrev pub InItems : (Protocol → World → Reply) → Ends → Ends
InItems child E p w p' w' = (q : Protocol) × (v : World) × Items child p w q v × E q v p' w'

-- After the line has been read, the failure is the error that it holds, whose text is kept as the last error, or
-- the line is the head of a special multi-bulk, and one of its items, read in turn, ended so.
abbrev pub LineError : (Protocol → World → Reply) → Ends → Bytes → Ends
LineError child E line p w p' w' =
    ((s : Bytes) × (line ≡ b'-' ∷ s) × (p' ≡ record p { error = text s }) × (w' ≡ w))
    ⊎ ((get_or line 0 0 ≡ b'*') × InItems child E p (parse_integer line w).1 p' w')

-- The server has sent an error, as the reply or within it, and its text is the last error.
unfoldable pub ErrorSent : ℕ → RedisInput → Ends
ErrorSent zero inp p w p' w' = ⊥
ErrorSent (suc f) inp p w p' w' =
    (line : Bytes) × ((read_line p w).0 ≡ some line)
    × LineError (read_reply_at f false false inp none_type) (ErrorSent f inp) line (read_line p w).1
        (read_line p w).2 p' w'

-- The state after a failure: closed, or with a server's error.
abbrev pub Shut : (Protocol → World → Type 0) → Protocol → World → Type 0
Shut E p w = (p.tcp.fd ≡ none) ⊎ E p w

abbrev Safe : (Protocol → World → Type 0) → Reply → Type 0
Safe E (ok, o, p, w) = ok ≡ false → Shut E p w

bulk_reply-Safe :
    (E : Protocol → World → Type 0) (o : RedisOutput) (r : BulkRead)
    → ClosesOn r
    → Safe E (bulk_reply o r)
unfolding bulk_reply failed_reply
bulk_reply-Safe E o (none, p, w) h = λ _. inl (h refl)
bulk_reply-Safe E o (some none, p, w) h = λ bad. cc
bulk_reply-Safe E o (some (some b), p, w) h = λ bad. cc

multi_bulk_reply-Safe :
    (E : Protocol → World → Type 0) (o : RedisOutput) (r : BulksRead)
    → ClosesOn r
    → Safe E (multi_bulk_reply o r)
unfolding multi_bulk_reply failed_reply
multi_bulk_reply-Safe E o (none, p, w) h = λ _. inl (h refl)
multi_bulk_reply-Safe E o (some none, p, w) h = λ bad. cc
multi_bulk_reply-Safe E o (some (some b), p, w) h = λ bad. cc

SafeAll : (Protocol → World → Type 0) → Option (List RedisOutput) × Protocol × World → Type 0
SafeAll E (r, p, w) = r ≡ none → Shut E p w

push_output-SafeAll :
    {E F : Protocol → World → Type 0} (o : RedisOutput)
    (r : Option (List RedisOutput) × Protocol × World)
    → ((p : Protocol) (w : World) → E p w → F p w)
    → SafeAll E r
    → SafeAll F (push_output o r)
unfolding push_output SafeAll
push_output-SafeAll o (none, p, w) f h =
    λ e. elim (h e) [ inl shut ↦ inl shut | inr sent ↦ inr (f p w sent) ]
push_output-SafeAll o (some os, p, w) f h = λ bad. cc

read_all-SafeAll :
    (child : Protocol → World → Reply) (E : Ends) (n : ℕ) (p : Protocol) (w : World)
    → ((q : Protocol) (v : World) → Safe (E q v) (child q v))
    → SafeAll (InItems child E p w) (read_all child n p w)
unfolding read_all SafeAll
read_all-SafeAll child E zero p w h = λ bad. cc
read_all-SafeAll child E (suc n) p w h =
    let (ok, o, p', w') = child p w in
    elim (Bool-cases ok) [
      | inl e ↦ rw e (
          push_output-SafeAll {E = InItems child E p' w'} {F = InItems child E p w} o
            (read_all child n p' w')
            (λ q' v' (q, v, items, sent). (q, v, Items.next p w q v e items, sent))
            (read_all-SafeAll child E n p' w' h))
      | inr e ↦ rw e (λ _. elim (h p w e) [
        | inl shut ↦ inl shut
        | inr sent ↦ inr (p, w, Items.first p w, sent)
      ])
    ]

special_end-Safe :
    (E : Protocol → World → Type 0) (top : Bool) (inp : RedisInput) (o : RedisOutput)
    (r : Option (List RedisOutput) × Protocol × World)
    → SafeAll E r
    → Safe E (special_end top inp o r)
unfolding special_end SafeAll
special_end-Safe E top inp o (none, p, w) h = λ _. h refl
special_end-Safe E top inp o (some os, p, w) h = λ bad. cc

special_reply-Safe :
    (child : Protocol → World → Reply) (E : Ends) (top : Bool) (inp : RedisInput) (o : RedisOutput)
    (line : Bytes) (i : Option ℤ) (p : Protocol) (w : World)
    → ((q : Protocol) (v : World) → Safe (E q v) (child q v))
    → Safe (InItems child E p w) (special_reply child top inp o line i p w)
unfolding special_reply refuse disconnect close Client.close
special_reply-Safe child E top inp o line none p w h = λ _. inl refl
special_reply-Safe child E top inp o line (some (negsuc zero)) p w h = λ bad. cc
special_reply-Safe child E top inp o line (some (negsuc (suc n))) p w h = λ bad. cc
special_reply-Safe child E top inp o line (some (pos n)) p w h =
    special_end-Safe _ top inp o _ (read_all-SafeAll child E n p w h)

integer_reply-Safe :
    (E : Protocol → World → Type 0) (o : RedisOutput) (line : Bytes) (i : Option ℤ) (p : Protocol)
    (w : World)
    → Safe E (integer_reply o line i p w)
unfolding integer_reply refuse disconnect close Client.close
integer_reply-Safe E o line none p w = λ _. inl refl
integer_reply-Safe E o line (some i) p w = λ bad. cc

status_reply-Safe :
    (E : Protocol → World → Type 0) (inp : RedisInput) (o : RedisOutput) (line : Bytes)
    (p : Protocol) (w : World)
    → Safe E (status_reply inp o line p w)
unfolding status_reply
status_reply-Safe E inp o line p w = λ bad. cc

on_array-Safe :
    (child : Protocol → World → Reply) (E : Ends) (top check : Bool) (inp : RedisInput)
    (o : RedisOutput) (exp : KReplyType) (line : Bytes) (p : Protocol) (w : World)
    → ((q : Protocol) (v : World) → Safe (E q v) (child q v))
    → get_or line 0 0 ≡ b'*'
    → Safe (LineError child E line p w) (on_array child top check inp o exp line p w)
unfolding on_array refuse disconnect close Client.close
on_array-Safe child E top check inp o exp line p w h star =
    let (i, v) = parse_integer line w in
    elim (Bool-cases (
      wrong_type check exp KReplyType.multi_bulk
      && wrong_type check exp KReplyType.special_multi_bulk)) [
        | inl bad ↦ rw bad (λ _. inl refl)
        | inr ok ↦ rw ok (elim (Bool-cases (same_type exp KReplyType.multi_bulk)) [
          | inl flat ↦ rw flat (
              multi_bulk_reply-Safe (LineError child E line p w) o (read_multi_bulk_2 line p w)
                (read_multi_bulk_2-ClosesOn line p w))
          | inr deep ↦ rw deep (λ no. elim (special_reply-Safe child E top inp o line i p v h no) [
            | inl shut ↦ inl shut
            | inr sent ↦ inr (inr (star, sent))
          ])
        ])
      ]

marked : (line : Bytes) (c : ℕ) → 0 < c → get_or line 0 0 ≡ c → line ≡ c ∷ drop 1 line
marked [] c some_mark e = absurd (omega (arith, e))
marked (b ∷ line) c some_mark e = ap (λ x. x ∷ line) e

on_line-Safe :
    (child : Protocol → World → Reply) (E : Ends) (top check : Bool) (inp : RedisInput)
    (o : RedisOutput) (exp : KReplyType) (line : Bytes) (p : Protocol) (w : World)
    → ((q : Protocol) (v : World) → Safe (E q v) (child q v))
    → Safe (LineError child E line p w) (on_line child top check inp o exp line p w)
unfolding on_line refuse disconnect close Client.close
on_line-Safe child E top check inp o exp line p w h =
    let mark = get_or line 0 0 in
    let i = (parse_integer line w).0 in
    let v = (parse_integer line w).1 in
    elim (Bool-cases (mark == b'-')) [
      | inl e ↦ rw e (λ _.
          inr (
            inl (drop 1 line, marked line b'-' (omega arith) ((==_iff mark b'-').0 e), refl, refl)))
      | inr e ↦ rw e (elim (Bool-cases (mark == b'+')) [
        | inl e ↦ rw e (elim (Bool-cases (wrong_type check exp KReplyType.status)) [
          | inl bad ↦ rw bad (λ _. inl refl)
          | inr ok ↦ rw ok (status_reply-Safe (LineError child E line p w) inp o line p w)
        ])
        | inr e ↦ rw e (elim (Bool-cases (mark == b':')) [
          | inl e ↦ rw e (elim (Bool-cases (wrong_type check exp KReplyType.integer)) [
            | inl bad ↦ rw bad (λ _. inl refl)
            | inr ok ↦ rw ok (integer_reply-Safe (LineError child E line p w) o line i p v)
          ])
          | inr e ↦ rw e (elim (Bool-cases (mark == b'$')) [
            | inl e ↦ rw e (elim (Bool-cases (wrong_type check exp KReplyType.bulk)) [
              | inl bad ↦ rw bad (λ _. inl refl)
              | inr ok ↦ rw ok (
                  bulk_reply-Safe (LineError child E line p w) o (read_bulk_2 line p w)
                    (read_bulk_2-ClosesOn line p w))
            ])
            | inr e ↦ rw e (elim (Bool-cases (mark == b'*')) [
              | inl e ↦
                  rw e
                    (on_array-Safe child E top check inp o exp line p w h ((==_iff mark b'*').0 e))
              | inr e ↦ rw e (λ _. inl refl)
            ])
          ])
        ])
      ])
    ]

-- What `after_line` is safe for: a line was read, and the failure is one of that line.
AfterLine : (Protocol → World → Reply) → Ends → Option Bytes → Ends
AfterLine child E read p w p' w' =
    (line : Bytes) × (read ≡ some line) × LineError child E line p w p' w'

after_line-Safe :
    (child : Protocol → World → Reply) (E : Ends) (top check : Bool) (inp : RedisInput)
    (o : RedisOutput) (exp : KReplyType) (line : Option Bytes) (p : Protocol) (w : World)
    → (line ≡ none → p.tcp.fd ≡ none)
    → ((q : Protocol) (v : World) → Safe (E q v) (child q v))
    → Safe (AfterLine child E line p w) (after_line child top check inp o exp line p w)
unfolding after_line failed_reply AfterLine
after_line-Safe child E top check inp o exp none p w closed h = λ _. inl (closed refl)
after_line-Safe child E top check inp o exp (some line) p w closed h = λ no.
    elim (on_line-Safe child E top check inp o exp line p w h no) [
      | inl shut ↦ inl shut
      | inr sent ↦ inr (line, refl, sent)
    ]

-- `__read_reply` at any depth: when it returns false, whatever the network does, the connection is closed
-- or the server has sent an error whose text is the last error.
pub read_reply_at-Safe :
    (f : ℕ) (top check : Bool) (inp : RedisInput) (o : RedisOutput) (p : Protocol) (w : World)
    → Safe (ErrorSent f inp p w) (read_reply_at f top check inp o p w)
unfolding read_reply_at refuse disconnect close Client.close ErrorSent AfterLine
read_reply_at-Safe zero top check inp o p w = λ _. inl refl
read_reply_at-Safe (suc f) top check inp o p w =
    let (line, p', w') = read_line p w in
    after_line-Safe (read_reply_at f false false inp none_type) (ErrorSent f inp) top
      (checks_type check inp) inp o (expected_type check inp p.transaction_mode) line p' w'
      (read_line-ClosesOn p w) (read_reply_at-Safe f false false inp none_type)
