-- ===== src/Monitor/Line.antt =====
-- A line of the server's MONITOR as `monitor` of tools/redis_monitor.cpp reads it.
use librediscxx.Base.{
  ℕ, ◌-◌, ◌%◌, ◌^◌, ℤ, Bool, true, false, not, ◌||◌, Option, none, some, [], ◌∷◌, Bytes, length,
  drop, get_or, ltb, leb, ◌==◌, to_int, if◌then◌else◌,
}
use librediscxx.Os.World.{erange}
use librediscxx.Protocol.Decimal.{is_digit, skip_space, digits_value}

-- Whether there is a minus, and what follows the sign.
unfoldable pub signed : Bytes → Bool × Bytes
signed [] = (false, [])
signed (c ∷ s) = if c == b'-' then (true, s) else if c == b'+' then (false, s) else (false, c ∷ s)

unfoldable pub skip_digits : Bytes → Bytes
unfolding is_digit
skip_digits [] = []
skip_digits (c ∷ s) = if is_digit c then skip_digits s else c ∷ s

unfoldable pub starts_number : Bytes → Bool
unfolding is_digit
starts_number [] = false
starts_number (c ∷ s) = is_digit c

-- `strtoul` in base 10 of a 64-bit system: the value, whether it is out of range, and the rest.
unfoldable pub strtoul : Bytes → ℕ × Bool × Bytes
unfolding signed skip_digits starts_number skip_space digits_value
strtoul s =
    let (minus, t) = signed (skip_space s) in
    let n = digits_value 0 t in
    if not (starts_number t)
    then (0, false, s)
    else if leb (2 ^ 64) n
    then (2 ^ 64 - 1, true, skip_digits t)
    else ((if minus then (2 ^ 64 - n) % 2 ^ 64 else n), false, skip_digits t)

-- `strchr(s, '"')`: what stands before the quote, if there is one before the end of the C string.
unfoldable pub before_quote : Bytes → Option Bytes
before_quote [] = none
before_quote (c ∷ s) =
    let rest = before_quote s in
    if c == b'"'
    then some []
    else if c == 0
    then none
    else elim rest [ none ↦ none | some t ↦ some (c ∷ t) ]

-- A line is counted, passed over, or read past its end.
pub data Parsed : Type 0 where
  counted : Bytes → ℤ → Parsed
  passed : Parsed
  past_end : Parsed

counted_if : Option Bytes → ℤ → Parsed
counted_if none db = passed
counted_if (some cmd) db = counted cmd db

-- `enddb += 3`, and the command up to the quote.
unfoldable pub after_number : ℤ → Bytes → Parsed
unfolding before_quote counted_if
after_number db rest =
    if ltb (length rest) 3 then past_end else counted_if (before_quote (drop 3 rest)) db

-- The outcome, and `errno`, which is not cleared before `strtoul` is called.
unfoldable pub parse_line : Bytes → ℕ → Parsed × ℕ
unfolding strtoul after_number
parse_line line errno =
    let (n, far, rest) = strtoul (drop 23 line) in
    let errno' = if far then erange else errno in
    if ltb (length line) 24 || not (get_or line 20 0 == b'd')
    then (passed, errno)
    else if errno' == erange
    then (passed, errno')
    else (after_number (to_int n) rest, errno')
