-- ===== src/Protocol/Reply/Nested.antt =====
-- Whole replies, with the replies within them, as `__read_reply` of src/redis_protocol.cpp reads them.
use librediscxx.Base.{
  ℕ, suc, ◌≤◌, ℤ, pos, negsuc, IsInt64, ◌≡◌, refl, ap, subst, ◌∙◌, Bool, true, false, List, ◌∷◌,
  Option, some, Bytes, Lacks, arith, length,
}
use librediscxx.Os.World.{World}
use librediscxx.Cmd.Command.{KCommand, KReplyType}
use librediscxx.Cmd.Input.{RedisInput}
use librediscxx.Cmd.Output.{
  MBulks, RedisOutput, RedisOutputs, none_type, status, integer, bulk, mbulks, smbulks, nil_smbulks,
  no_outputs, output, of_list, to_list, set_smbulks, set_nil_smbulks,
}
use librediscxx.Protocol.Decimal.{show_int}
use librediscxx.Protocol.Conn.{Protocol, read_line}
use librediscxx.Protocol.Conn.Lines.{Holds, Kept, Kept-trans, Gives, Still-trans, read_line-Gives}
use librediscxx.Protocol.Bulk.Wire.{
  put_line, bulk_header, bulk_size, bulk_body, NotEmpty, bulks_size, bulks_body, NotEmptys,
  IsInt64-length, Lacks-show_int,
}
use librediscxx.Protocol.Reply.{
  Reply, same_type, same_command, wrong_type, checks_type, expected_type, mode_after_status,
  read_all, push_output, special_end, special_reply, on_line, after_line, read_reply_at,
}
use librediscxx.Protocol.Reply.Wire.{
  put_outputs, Replies, Special, on_status, on_integer, on_bulk, on_mbulks, on_special,
  end_transaction-Replies, mode_after_special,
}

-- The first line of a reply, and where its reading goes on.
AfterLine : ℕ → Bool → Bool → RedisInput → RedisOutput → Bytes → Bytes → Protocol → World → Type 0
AfterLine f top check inp o line rest p w =
    (p' : Protocol) × (w' : World) × (read_reply_at (suc f) top check inp o p w
      ≡ on_line (read_reply_at f false false inp none_type) top (checks_type check inp) inp o
          (expected_type check inp p.transaction_mode) line p' w')
    × Holds p' w' rest
    × Kept p w p' w'

reply_line :
    (f : ℕ) (top check : Bool) (inp : RedisInput) (o : RedisOutput) (c : ℕ) (b rest : Bytes)
    (p : Protocol) (w : World)
    → Lacks 13 (c ∷ b)
    → Holds p w (put_line (c ∷ b) rest)
    → AfterLine f top check inp o (c ∷ b) rest p w
unfolding read_reply_at after_line AfterLine
reply_line f top check inp o c b rest p w lacks h =
    let (e, h', k) = read_line-Gives c b rest p w lacks h in
    ((read_line p w).1, (read_line p w).2, rw e refl, h', k)

-- After a step that keeps everything a reply is the one of the later state.
later :
    (p p' : Protocol) (w w' : World) (rest : Bytes) (o : RedisOutput) (m : Bool) (r : Reply)
    → Kept p w p' w'
    → Replies p' w' rest o m r
    → Replies p w rest o m r
later p p' w w' rest o m (ok, o', q, v) k (e, e', h, fd, mode, still) =
    (e, e', h, fd ∙ k.fd, mode, Still-trans k.still still)

pub Replies-mode :
    (p : Protocol) (w : World) (rest : Bytes) (o : RedisOutput) (m m' : Bool) (r : Reply)
    → m ≡ m'
    → Replies p w rest o m r
    → Replies p w rest o m' r
Replies-mode p w rest o m m' r e h = subst (λ x. Replies p w rest o x r) e h

-- A command within whose reply other replies may stand, and that does not change the transaction mode.
pub record Plain (inp : RedisInput) : Type 0 where
  pub not_flat : same_type inp.info.reply_type KReplyType.multi_bulk ≡ false
  pub not_multi : same_command inp.command KCommand.multi ≡ false
  pub not_discard : same_command inp.command KCommand.discard ≡ false

pub mode_after_status-Plain :
    (inp : RedisInput) (m : Bool) → Plain inp → mode_after_status inp.command m ≡ m
unfolding mode_after_status
mode_after_status-Plain inp true h = rw h.not_discard
mode_after_status-Plain inp false h = rw h.not_multi

GivesAll :
    Protocol → World → Bytes → RedisOutputs → Option (List RedisOutput) × Protocol × World → Type 0
GivesAll p w rest os r = Gives p w rest (some (to_list os)) r

pub read_all-step :
    (child : Protocol → World → Reply) (n : ℕ) (p : Protocol) (w : World)
    → (child p w).0 ≡ true
    → let (ok, o, p', w') = child p w in
      read_all child (suc n) p w ≡ push_output o (read_all child n p' w')
unfolding read_all
read_all-step child n p w e = rw e

pub push_output-Gives :
    (o o' : RedisOutput) (os : List RedisOutput) (rest : Bytes) (p : Protocol) (w : World)
    (r : Option (List RedisOutput) × Protocol × World)
    → o' ≡ o
    → Gives p w rest (some os) r
    → Gives p w rest (some (o ∷ os)) (push_output o' r)
unfolding push_output
push_output-Gives o o' os rest p w (r, p', w') same (e, h, k) = rw (e, same) (refl, h, k)

special_end-Replies :
    (top : Bool) (inp : RedisInput) (o : RedisOutput) (os : RedisOutputs) (rest : Bytes)
    (p : Protocol) (w : World) (r : Option (List RedisOutput) × Protocol × World)
    → Gives p w rest (some (to_list os)) r
    → Replies p w rest
        (smbulks os)
        (mode_after_special top inp p.transaction_mode)
        (special_end top inp o r)
unfolding special_end set_smbulks to_list
special_end-Replies top inp o os rest p w (r, p', w') (e, h, k) =
    rw (e, of_list-to_list os) (end_transaction-Replies top inp (smbulks os) rest p w p' w' h k)
  where
    of_list-to_list : (os : RedisOutputs) → of_list (to_list os) ≡ os
    of_list-to_list no_outputs = refl
    of_list-to_list (output o os) = ap (output o) (of_list-to_list os)

abbrev pub Child : ℕ → RedisInput → Protocol → World → Reply
Child f inp p w = read_reply_at f false false inp none_type p w

-- What the mark `got` of a line is for a command: not of the wrong type.
abbrev pub Fits : KReplyType → Bool → RedisInput → Bool → Type 0
Fits got check inp m = wrong_type (checks_type check inp) (expected_type check inp m) got ≡ false

pub status_line :
    (f : ℕ) (top check : Bool) (inp : RedisInput) (o : RedisOutput) (s rest : Bytes) (p : Protocol)
    (w : World)
    → Fits KReplyType.status check inp p.transaction_mode
    → Lacks 13 s
    → Holds p w (put_line (b'+' ∷ s) rest)
    → Replies p w rest
        (status (some s))
        (mode_after_status inp.command p.transaction_mode)
        (read_reply_at (suc f) top check inp o p w)
unfolding AfterLine
status_line f top check inp o s rest p w fits lacks h =
    let (p', w', e, h', k) =
      reply_line f top check inp o b'+' s rest p w (λ x. omega (arith, x), lacks) h in
    rw e (
      later p p' w w' rest _ _ _ k (
        Replies-mode p' w' rest _ _ _ _ (ap (mode_after_status inp.command) k.mode) (
          on_status (Child f inp) top (checks_type check inp) inp o
            (expected_type check inp p.transaction_mode) s rest p' w' fits h')))

pub integer_line :
    (f : ℕ) (top check : Bool) (inp : RedisInput) (o : RedisOutput) (i : ℤ) (rest : Bytes)
    (p : Protocol) (w : World)
    → Fits KReplyType.integer check inp p.transaction_mode
    → IsInt64 i
    → Holds p w (put_line (b':' ∷ show_int i) rest)
    → Replies p w rest
        (integer (some i))
        p.transaction_mode
        (read_reply_at (suc f) top check inp o p w)
unfolding AfterLine
integer_line f top check inp o i rest p w fits small h =
    let (p', w', e, h', k) =
      reply_line f top check inp o b':' (show_int i) rest p w
        (λ x. omega (arith, x), Lacks-show_int i) h in
    rw e (
      later p p' w w' rest _ _ _ k (
        Replies-mode p' w' rest _ _ _ _ k.mode (
          on_integer (Child f inp) top (checks_type check inp) inp o
            (expected_type check inp p.transaction_mode) i rest p' w' fits small h')))

pub bulk_line :
    (f : ℕ) (top check : Bool) (inp : RedisInput) (o : RedisOutput) (b : Option Bytes)
    (rest : Bytes) (p : Protocol) (w : World)
    → Fits KReplyType.bulk check inp p.transaction_mode
    → NotEmpty b
    → Holds p w (put_line (bulk_header b) (bulk_body b rest))
    → Replies p w rest (bulk b) p.transaction_mode (read_reply_at (suc f) top check inp o p w)
unfolding AfterLine
bulk_line f top check inp o b rest p w fits full h =
    let (p', w', e, h', k) =
      reply_line f top check inp o b'$' (show_int (bulk_size b)) (bulk_body b rest) p w
        (λ x. omega (arith, x), Lacks-show_int (bulk_size b)) h in
    rw e (
      later p p' w w' rest _ _ _ k (
        Replies-mode p' w' rest _ _ _ _ k.mode (
          on_bulk (Child f inp) top (checks_type check inp) inp o
            (expected_type check inp p.transaction_mode) b rest p' w' fits full h')))

pub mbulks_line :
    (f : ℕ) (top check : Bool) (inp : RedisInput) (o : RedisOutput) (bs : Option MBulks)
    (rest : Bytes) (p : Protocol) (w : World)
    → expected_type check inp p.transaction_mode ≡ KReplyType.multi_bulk
    → NotEmptys bs
    → Holds p w (put_line (b'*' ∷ show_int (bulks_size bs)) (bulks_body bs rest))
    → Replies p w rest (mbulks bs) p.transaction_mode (read_reply_at (suc f) top check inp o p w)
unfolding AfterLine
mbulks_line f top check inp o bs rest p w flat full h =
    let (p', w', e, h', k) =
      reply_line f top check inp o b'*' (show_int (bulks_size bs)) (bulks_body bs rest) p w
        (λ x. omega (arith, x), Lacks-show_int (bulks_size bs)) h in
    rw (e, flat)
      (later p p' w w' rest _ _ _ k (
        Replies-mode p' w' rest _ _ _ _ k.mode
          (on_mbulks (Child f inp) top (checks_type check inp) inp o bs rest p' w' full h')))

pub nil_line :
    (f : ℕ) (top check : Bool) (inp : RedisInput) (o : RedisOutput) (rest : Bytes) (p : Protocol)
    (w : World)
    → Special (checks_type check inp) (expected_type check inp p.transaction_mode)
    → Holds p w (put_line (b'*' ∷ show_int (negsuc 0)) rest)
    → Replies p w rest nil_smbulks
        (mode_after_special top inp p.transaction_mode)
        (read_reply_at (suc f) top check inp o p w)
unfolding AfterLine special_reply set_nil_smbulks
nil_line f top check inp o rest p w fits h =
    let (p', w', e, h', k) =
      reply_line f top check inp o b'*' (show_int (negsuc 0)) rest p w
        (λ x. omega (arith, x), Lacks-show_int (negsuc 0)) h in
    rw
      (
        e,
        on_special (Child f inp) top (checks_type check inp) inp o
            (expected_type check inp p.transaction_mode) (negsuc 0) rest p' w' fits
            (omega arith, omega arith) h',
      )
      (end_transaction-Replies top inp nil_smbulks rest p w p' w' h' k)

pub smbulks_line :
    (f : ℕ) (top check : Bool) (inp : RedisInput) (o : RedisOutput) (os : RedisOutputs)
    (rest : Bytes) (p : Protocol) (w : World)
    → Special (checks_type check inp) (expected_type check inp p.transaction_mode)
    → length (to_list os) ≤ length (put_outputs os rest)
    → ((q : Protocol) (v : World)
        → Holds q v (put_outputs os rest)
        → Gives q v rest (some (to_list os)) (read_all (Child f inp) (length (to_list os)) q v))
    → Holds p w (put_line (b'*' ∷ show_int (pos (length (to_list os)))) (put_outputs os rest))
    → Replies p w rest
        (smbulks os)
        (mode_after_special top inp p.transaction_mode)
        (read_reply_at (suc f) top check inp o p w)
unfolding AfterLine special_reply
smbulks_line f top check inp o os rest p w fits le all h =
    let i = pos (length (to_list os)) in
    let (p', w', e, h', k) =
      reply_line f top check inp o b'*' (show_int i) (put_outputs os rest) p w
        (λ x. omega (arith, x), Lacks-show_int i) h in
    let (e', h'', k') = all p' w' h' in
    rw
      (
        e,
        on_special (Child f inp) top (checks_type check inp) inp o
            (expected_type check inp p.transaction_mode) i (put_outputs os rest) p' w' fits
            (IsInt64-length (to_list os) p' w' _ h' le) h',
      )
      (special_end-Replies top inp o os rest p w _ (e', h'', Kept-trans k k'))
