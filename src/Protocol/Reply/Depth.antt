-- ===== src/Protocol/Reply/Depth.antt =====
-- Replies within replies, by induction on what the server sends: `__read_reply` of
-- src/redis_protocol.cpp with `check_reply_type` false.
use librediscxx.Base.{
  ℕ, zero, suc, ◌+◌, ◌≤◌, pos, ◌≡◌, refl, Bool, true, false, ◌&&◌, ◌∷◌, ◌++◌, Option, none, some,
  Bytes, arith, length, length-append, if◌then◌else◌,
}
use librediscxx.Os.World.{World}
use librediscxx.Cmd.Command.{KCommand, KReplyType}
use librediscxx.Cmd.Input.{RedisInput}
use librediscxx.Cmd.Output.{
  RedisOutput, RedisOutputs, none_type, status, error, integer, bulk, mbulks, smbulks, nil_smbulks,
  no_outputs, output, to_list,
}
use librediscxx.Protocol.Decimal.{show_int}
use librediscxx.Protocol.Conn.{Protocol, line_end}
use librediscxx.Protocol.Conn.Lines.{Holds, Kept-refl, Kept-trans, Gives}
use librediscxx.Protocol.Bulk.Wire.{put_line, bulk_body}
use librediscxx.Protocol.Reply.{same_command, wrong_type, checks_type, expected_type, read_all}
use librediscxx.Protocol.Reply.Wire.{
  put_output, put_outputs, Readable, Readables, Replies, Special, mode_after_special,
}
use librediscxx.Protocol.Reply.Nested.{
  Child, Fits, Plain, status_line, integer_line, bulk_line, nil_line, smbulks_line, read_all-step,
  push_output-Gives, mode_after_status-Plain, Replies-mode,
}

pub length-put_line : (c : ℕ) (s rest : Bytes) → 3 + length rest ≤ length (put_line (c ∷ s) rest)
length-put_line c s rest = omega (arith, length-append s (line_end ++ rest))

length-bulk_body : (b : Option Bytes) (s : Bytes) → length s ≤ length (bulk_body b s)
length-bulk_body none s = omega arith
length-bulk_body (some b) s = omega (arith, length-append b (line_end ++ s))

-- Every reply takes a byte of the stream at least.
mutual
  unfolding to_list put_output put_outputs Readable Readables

  pub length-put_output :
      (o : RedisOutput) (rest : Bytes) → Readable o → suc (length rest) ≤ length (put_output o rest)
  length-put_output none_type rest h = elim h [ ]
  length-put_output (status none) rest h = elim h [ ]
  length-put_output (status (some s)) rest h = omega (arith, length-put_line b'+' s rest)
  length-put_output (error e) rest h = elim h [ ]
  length-put_output (integer none) rest h = elim h [ ]
  length-put_output (integer (some i)) rest h =
      omega (arith, length-put_line b':' (show_int i) rest)
  length-put_output (bulk b) rest h =
      omega (arith, length-put_line b'$' (show_int _) (bulk_body b rest), length-bulk_body b rest)
  length-put_output (mbulks bs) rest h = elim h [ ]
  length-put_output (smbulks os) rest h =
      omega (
        arith,
        length-put_line b'*' (show_int _) (put_outputs os rest),
        length-put_outputs os rest h,
      )
  length-put_output nil_smbulks rest h = omega (arith, length-put_line b'*' (show_int _) rest)

  pub length-put_outputs :
      (os : RedisOutputs) (rest : Bytes)
      → Readables os
      → length (to_list os) + length rest ≤ length (put_outputs os rest)
  length-put_outputs no_outputs rest h = omega arith
  length-put_outputs (output o os) rest (h, hs) =
      omega (arith, length-put_output o (put_outputs os rest) h, length-put_outputs os rest hs)

-- A command's row that has no flat multi-bulk takes arrays as special ones within a reply.
Special-Plain :
    (inp : RedisInput) (p : Protocol)
    → Plain inp
    → Special (checks_type false inp) (expected_type false inp p.transaction_mode)
unfolding checks_type expected_type wrong_type
Special-Plain inp p plain = (refl, plain.not_flat)

Fits-false :
    (got : KReplyType) (inp : RedisInput) (p : Protocol) → Fits got false inp p.transaction_mode
unfolding checks_type wrong_type
Fits-false got inp p = refl

mode_within : (inp : RedisInput) (m : Bool) → mode_after_special false inp m ≡ m
mode_within inp true = go (same_command inp.command KCommand.exec)
  where
    go : (b : Bool) → (if b && false then false else true) ≡ true
    go true = refl
    go false = refl
mode_within inp false = refl

mutual
  unfolding to_list read_all put_output put_outputs Readable Readables

  child-Replies :
      (o : RedisOutput) (f : ℕ) (inp : RedisInput) (rest : Bytes) (p : Protocol) (w : World)
      → Plain inp
      → Readable o
      → length (put_output o rest) ≤ suc f
      → Holds p w (put_output o rest)
      → Replies p w rest o p.transaction_mode (Child (suc f) inp p w)
  child-Replies none_type f inp rest p w plain h enough holds = elim h [ ]
  child-Replies (status none) f inp rest p w plain h enough holds = elim h [ ]
  child-Replies (status (some s)) f inp rest p w plain h enough holds =
      Replies-mode p w rest _ _ _ _ (mode_after_status-Plain inp p.transaction_mode plain) (
        status_line f false false inp none_type s rest p w (Fits-false KReplyType.status inp p) h
          holds)
  child-Replies (error e) f inp rest p w plain h enough holds = elim h [ ]
  child-Replies (integer none) f inp rest p w plain h enough holds = elim h [ ]
  child-Replies (integer (some i)) f inp rest p w plain h enough holds =
      integer_line f false false inp none_type i rest p w (Fits-false KReplyType.integer inp p) h
        holds
  child-Replies (bulk b) f inp rest p w plain h enough holds =
      bulk_line f false false inp none_type b rest p w (Fits-false KReplyType.bulk inp p) h holds
  child-Replies (mbulks bs) f inp rest p w plain h enough holds = elim h [ ]
  child-Replies (smbulks os) f inp rest p w plain h enough holds =
      Replies-mode p w rest _ _ _ _ (mode_within inp p.transaction_mode) (
        smbulks_line f false false inp none_type os rest p w (Special-Plain inp p plain)
          (omega (arith, length-put_outputs os rest h))
          (λ q v holds'.
            children-Gives os f inp rest q v plain h
              (omega (
                arith,
                length-put_line b'*' (show_int (pos (length (to_list os)))) (put_outputs os rest),
              ))
              holds')
          holds)
  child-Replies nil_smbulks f inp rest p w plain h enough holds =
      Replies-mode p w rest _ _ _ _ (mode_within inp p.transaction_mode)
        (nil_line f false false inp none_type rest p w (Special-Plain inp p plain) holds)

  pub children-Gives :
      (os : RedisOutputs) (f : ℕ) (inp : RedisInput) (rest : Bytes) (p : Protocol) (w : World)
      → Plain inp
      → Readables os
      → length (put_outputs os rest) ≤ f
      → Holds p w (put_outputs os rest)
      → Gives p w rest (some (to_list os)) (read_all (Child f inp) (length (to_list os)) p w)
  children-Gives no_outputs f inp rest p w plain h enough holds = (refl, holds, Kept-refl p w)
  children-Gives (output o os) zero inp rest p w plain (h, hs) enough holds =
      absurd (omega (arith, length-put_output o (put_outputs os rest) h))
  children-Gives (output o os) (suc f) inp rest p w plain (h, hs) enough holds =
      let (ok, e, holds', fd, mode, still) =
        child-Replies o f inp (put_outputs os rest) p w plain h enough holds in
      let (e', holds'', k) =
        children-Gives os (suc f) inp rest _ _ plain hs
          (omega (arith, length-put_output o (put_outputs os rest) h)) holds' in
      rw (read_all-step (Child (suc f) inp) (length (to_list os)) p w ok) (
        push_output-Gives o _ (to_list os) rest p w _ e
          (e', holds'', Kept-trans (record { fd = fd; mode = mode; still = still }) k))
