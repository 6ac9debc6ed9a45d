-- ===== src/Protocol/Bulk/Wire.antt =====
-- Bulks and multi-bulks as a server writes them, and what src/redis_protocol.cpp reads of them.
use librediscxx.Base.{
  ℕ, suc, ◌+◌, ◌≤◌, ◌<◌, ◌^◌, ℤ, pos, negsuc, IsInt64, ◌≡◌, refl, true, List, [], ◌∷◌, ◌++◌, Option,
  none, some, Bytes, Lacks, All, arith, ==_refl, length, length-append,
}
use librediscxx.Os.World.{World}
use librediscxx.Cmd.Output.{MBulks}
use librediscxx.Protocol.Decimal.{show_nat, show_int, is_digit, parse_integer}
use librediscxx.Protocol.Decimal.RoundTrip.{show_nat-All, parse_integer-show_int}
use librediscxx.Protocol.Conn.{Protocol, line_end}
use librediscxx.Protocol.Conn.Lines.{
  Holds, Kept-refl, Kept-trans, Gives, read_line-Gives, read-Gives,
}
use librediscxx.Protocol.Bulk.{
  BulksRead, sized, bulk_of_size, after_header, read_bulk_2, read_bulk, push_bulk, read_bulks,
  multi_bulk_of_size, read_multi_bulk_2,
}

-- A server's writer: what it writes goes before what follows.
abbrev pub put_line : Bytes → Bytes → Bytes
put_line s rest = s ++ (line_end ++ rest)

abbrev pub bulk_size : Option Bytes → ℤ
bulk_size none = negsuc 0
bulk_size (some b) = pos (length b)

abbrev pub bulk_header : Option Bytes → Bytes
bulk_header b = b'$' ∷ show_int (bulk_size b)

abbrev pub bulk_body : Option Bytes → Bytes → Bytes
bulk_body none rest = rest
bulk_body (some b) rest = put_line b rest

abbrev pub put_bulks : MBulks → Bytes → Bytes
put_bulks [] rest = rest
put_bulks (b ∷ bs) rest = put_line (bulk_header b) (bulk_body b (put_bulks bs rest))

-- The bulks that the client reads: those that are not empty.
abbrev pub NotEmpty : Option Bytes → Type 0
NotEmpty none = Unit
NotEmpty (some b) = 0 < length b

Lacks-digits : (s : Bytes) → All (λ c. is_digit c ≡ true) s → Lacks 13 s
unfolding is_digit
Lacks-digits [] h = tt
Lacks-digits (c ∷ s) (h, hs) = (λ e. ground arith, Lacks-digits s hs)

-- A printed number holds no CR.
pub Lacks-show_int : (i : ℤ) → Lacks 13 (show_int i)
unfolding show_int
Lacks-show_int (pos n) = Lacks-digits (show_nat n) (show_nat-All n)
Lacks-show_int (negsuc n) =
    (λ e. omega (arith, e), Lacks-digits (show_nat (suc n)) (show_nat-All (suc n)))

-- A line that holds an integer is parsed as it, and nothing changes.
pub parse_integer-Holds :
    (mark : ℕ) (i : ℤ) (p : Protocol) (w : World) (s : Bytes)
    → Holds p w s
    → IsInt64 i
    → parse_integer (mark ∷ show_int i) w ≡ (some i, w)
parse_integer-Holds mark i p w s h fits =
    parse_integer-show_int mark i w fits h.not_einval h.not_erange

-- A size that comes with as many bytes fits an `int64_t`.
pub IsInt64-length {ℓ} :
    {A : Type ℓ} (b : List A) (p : Protocol) (w : World) (s : Bytes)
    → Holds p w s
    → length b ≤ length s
    → IsInt64 (pos (length b))
IsInt64-length b p w s h le =
    let short : length s + 512 < 2 ^ 63 = h.short in (omega arith, omega arith)

bulk_of_size-Gives :
    (b : Option Bytes) (header rest : Bytes) (p : Protocol) (w : World)
    → NotEmpty b
    → Holds p w (bulk_body b rest)
    → Gives p w rest (some b) (bulk_of_size header (some (bulk_size b)) p w)
unfolding bulk_of_size sized
bulk_of_size-Gives none header rest p w full h = (refl, h, Kept-refl p w)
bulk_of_size-Gives (some []) header rest p w full h = absurd (omega arith)
bulk_of_size-Gives (some (c ∷ b)) header rest p w full h =
    let (e, h', k) = read-Gives c b rest p w h in rw (e, ==_refl (length (c ∷ b))) (refl, h', k)

-- After its header a bulk is read as it is, nil and not nil.
pub read_bulk_2-Gives :
    (b : Option Bytes) (rest : Bytes) (p : Protocol) (w : World)
    → NotEmpty b
    → Holds p w (bulk_body b rest)
    → Gives p w rest (some b) (read_bulk_2 (bulk_header b) p w)
unfolding read_bulk_2
read_bulk_2-Gives none rest p w full h =
    rw (parse_integer-Holds b'$' (negsuc 0) p w _ h (omega arith, omega arith))
      (bulk_of_size-Gives none (bulk_header none) rest p w full h)
read_bulk_2-Gives (some b) rest p w full h =
    rw
      (parse_integer-Holds b'$' (pos (length b)) p w _ h
        (IsInt64-length b p w _ h (omega (arith, length-append b (line_end ++ rest)))))
      (bulk_of_size-Gives (some b) (bulk_header (some b)) rest p w full h)

read_bulk-Gives :
    (b : Option Bytes) (rest : Bytes) (p : Protocol) (w : World)
    → NotEmpty b
    → Holds p w (put_line (bulk_header b) (bulk_body b rest))
    → Gives p w rest (some b) (read_bulk p w)
unfolding read_bulk after_header
read_bulk-Gives b rest p w full h =
    let lacks : Lacks 13 (bulk_header b) = (λ e. omega (arith, e), Lacks-show_int (bulk_size b)) in
    let (e, h', k) = read_line-Gives b'$' (show_int (bulk_size b)) (bulk_body b rest) p w lacks h in
    let (e', h'', k') = read_bulk_2-Gives b rest _ _ full h' in rw e (e', h'', Kept-trans k k')

push_bulk-Gives :
    (b : Option Bytes) (bs : MBulks) (rest : Bytes) (p : Protocol) (w : World) (r : BulksRead)
    → Gives p w rest (some (some bs)) r
    → Gives p w rest (some (some (b ∷ bs))) (push_bulk b r)
unfolding push_bulk
push_bulk-Gives b bs rest p w (r, p', w') (e, h, k) = rw e (refl, h, k)

read_bulks-step :
    (n : ℕ) (b : Option Bytes) (p : Protocol) (w : World)
    → (read_bulk p w).0 ≡ some b
    → let (r, p', w') = read_bulk p w in read_bulks (suc n) p w ≡ push_bulk b (read_bulks n p' w')
unfolding read_bulks
read_bulks-step n b p w e = rw (read_bulks, e)

pub read_bulks-Gives :
    (bs : MBulks) (rest : Bytes) (p : Protocol) (w : World)
    → All NotEmpty bs
    → Holds p w (put_bulks bs rest)
    → Gives p w rest (some (some bs)) (read_bulks (length bs) p w)
unfolding read_bulks
read_bulks-Gives [] rest p w full h = (refl, h, Kept-refl p w)
read_bulks-Gives (b ∷ bs) rest p w (full, all) h =
    let (e, h', k) = read_bulk-Gives b (put_bulks bs rest) p w full h in
    let (e', h'', k') = read_bulks-Gives bs rest _ _ all h' in
    rw (read_bulks-step (length bs) b p w e)
      (push_bulk-Gives b bs rest p w _ (e', h'', Kept-trans k k'))

-- The size of a multi-bulk, nil or not.
abbrev pub bulks_size : Option MBulks → ℤ
bulks_size none = negsuc 0
bulks_size (some bs) = pos (length bs)

abbrev pub bulks_body : Option MBulks → Bytes → Bytes
bulks_body none rest = rest
bulks_body (some bs) rest = put_bulks bs rest

abbrev pub NotEmptys : Option MBulks → Type 0
NotEmptys none = Unit
NotEmptys (some bs) = All NotEmpty bs

-- Every bulk takes a byte of the stream at least.
length-put_bulks : (bs : MBulks) (rest : Bytes) → length bs ≤ length (put_bulks bs rest)
length-put_bulks [] rest = omega arith
length-put_bulks (b ∷ bs) rest = omega (
  arith,
  length-append (bulk_header b) (line_end ++ bulk_body b (put_bulks bs rest)),
  length-bulk_body b (put_bulks bs rest),
  length-put_bulks bs rest,
)
  where
    length-bulk_body : (b : Option Bytes) (s : Bytes) → length s ≤ length (bulk_body b s)
    length-bulk_body none s = omega arith
    length-bulk_body (some b) s = omega (arith, length-append b (line_end ++ s))

-- After its header a multi-bulk is read as it is, nil and not nil.
pub read_multi_bulk_2-Gives :
    (bs : Option MBulks) (rest : Bytes) (p : Protocol) (w : World)
    → NotEmptys bs
    → Holds p w (bulks_body bs rest)
    → Gives p w rest (some bs) (read_multi_bulk_2 (b'*' ∷ show_int (bulks_size bs)) p w)
unfolding read_multi_bulk_2 multi_bulk_of_size
read_multi_bulk_2-Gives none rest p w full h =
    rw (parse_integer-Holds b'*' (negsuc 0) p w _ h (omega arith, omega arith))
      (refl, h, Kept-refl p w)
read_multi_bulk_2-Gives (some bs) rest p w full h =
    rw
      (parse_integer-Holds b'*' (pos (length bs)) p w _ h
        (IsInt64-length bs p w _ h (length-put_bulks bs rest)))
      (read_bulks-Gives bs rest p w full h)
