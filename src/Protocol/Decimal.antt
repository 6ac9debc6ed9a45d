-- ===== src/Protocol/Decimal.antt =====
-- Numbers as text: what `std::stringstream` prints of an integer, and `strtol` of the C library in base 10
-- as `RedisProtocol::parse_integer` of src/redis_protocol.cpp calls it.
pub mod RoundTrip
use librediscxx.Base.{
  ℕ, zero, suc, ◌+◌, ◌-◌, ◌*◌, ◌/◌, ◌%◌, ◌^◌, ℤ, pos, negsuc, int64_max, Bool, true, false, ◌&&◌,
  ◌||◌, Option, none, some, [], ◌∷◌, ◌++◌, Bytes, leb, ltb, ◌==◌, drop, if◌then◌else◌,
}
use librediscxx.Os.World.{World, einval_no, erange}

-- `n + 1` digits of fuel are enough for `n`.
pub digits : ℕ → ℕ → Bytes
digits zero n = []
digits (suc f) n =
    let rest = digits f (n / 10) in if ltb n 10 then (48 + n) ∷ [] else rest ++ (48 + n % 10) ∷ []

unfoldable pub show_nat : ℕ → Bytes
unfolding digits
show_nat n = digits (suc n) n

unfoldable pub show_int : ℤ → Bytes
unfolding show_nat
show_int (pos n) = show_nat n
show_int (negsuc n) = b'-' ∷ show_nat (suc n)

-- `isspace` in the C locale.
unfoldable pub is_space : ℕ → Bool
is_space c = (c == 32) || (leb 9 c && leb c 13)

unfoldable pub is_digit : ℕ → Bool
is_digit c = leb 48 c && leb c 57

unfoldable pub skip_space : Bytes → Bytes
unfolding is_space
skip_space [] = []
skip_space (c ∷ s) = if is_space c then skip_space s else c ∷ s

-- The value of the digits up to the first other byte.
unfoldable pub digits_value : ℕ → Bytes → ℕ
unfolding is_digit
digits_value acc [] = acc
digits_value acc (c ∷ s) =
    let more = digits_value (acc * 10 + (c - 48)) s in if is_digit c then more else acc

negate : ℕ → ℤ
negate zero = pos zero
negate (suc n) = negsuc n

-- The value, and whether it is out of the range of `long`: then the nearest bound is returned.
signed : Bool → ℕ → ℤ × Bool
unfolding negate
signed true n = if leb n (int64_max + 1) then (negate n, false) else (negate (int64_max + 1), true)
signed false n = if leb n int64_max then (pos n, false) else (pos int64_max, true)

after_space : Bytes → ℤ × Bool
unfolding signed digits_value
after_space [] = (pos 0, false)
after_space (c ∷ s) =
    if c == b'-'
    then signed true (digits_value 0 s)
    else if c == b'+'
    then signed false (digits_value 0 s)
    else signed false (digits_value 0 (c ∷ s))

-- `strtol(s, NULL, 10)`; a text that does not begin with a number gives 0 and no error.
unfoldable pub strtol : Bytes → ℤ × Bool
unfolding after_space skip_space
strtol s = after_space (skip_space s)

-- `parse_integer`: the integer after the first byte. `errno` is set by `strtol` only out of range, is
-- not reset before, and is tested after.
unfoldable pub parse_integer : Bytes → World → Option ℤ × World
unfolding strtol
parse_integer line w =
    let (i, far) = strtol (drop 1 line) in
    let errno = if far then erange else w.errno in
    let w' = record w { errno = errno } in
    if (errno == einval_no) || (errno == erange) then (none, w') else (some i, w')
