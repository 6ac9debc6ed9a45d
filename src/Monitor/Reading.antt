-- ===== src/Monitor/Reading.antt =====
-- What the server writes under MONITOR is counted (tools/redis_monitor.cpp).
use librediscxx.Base.{
  ℕ, suc, ◌^◌, ◌≤◌, ◌<◌, ◌≡◌, ◌≢◌, refl, ap, sym, ◌∙◌, ℤ, pos, true, false, ◌||◌, ◌&&◌, some, [],
  ◌∷◌, ◌++◌, Bytes, codes, length, length-append, drop, drop-append, append_assoc, get_or, ltb, leb,
  ◌==◌, to_int, to_int_lem, Lacks, All, arith, ne→==,
}
use librediscxx.Os.World.{erange}
use librediscxx.Protocol.Decimal.{is_digit, is_space, skip_space, digits_value, show_nat}
use librediscxx.Protocol.Decimal.RoundTrip.{
  Ends, digits_value-Ends, digits_value-digits, digits-Begins, show_nat-All,
}
use librediscxx.Monitor.Line.{
  signed, skip_digits, starts_number, strtoul, before_quote, counted, after_number, parse_line,
}

-- A line of MONITOR: 20 bytes of time and a parenthesis, the database, and the command in quotes.
unfoldable pub monitor_line : Bytes → ℕ → Bytes → Bytes → Bytes
unfolding show_nat
monitor_line stamp db cmd more =
    stamp ++ (codes "db " ++ (show_nat db ++ (codes ") \"" ++ (cmd ++ (b'"' ∷ more)))))

before_quote-append :
    (cmd more : Bytes) → Lacks 34 cmd → Lacks 0 cmd → before_quote (cmd ++ (34 ∷ more)) ≡ some cmd
unfolding before_quote
before_quote-append [] more q z = refl
before_quote-append (c ∷ cmd) more (q, qs) (z, zs) =
    rw (before_quote-append cmd more qs zs, ne→== c 34 q, ne→== c 0 z) refl

get_or-append : (xs ys : Bytes) (c : ℕ) → get_or (xs ++ (c ∷ ys)) (length xs) 0 ≡ c
get_or-append [] ys c = refl
get_or-append (x ∷ xs) ys c = get_or-append xs ys c

skip_digits-append :
    (t rest : Bytes) → All (λ c. is_digit c ≡ true) t → Ends rest → skip_digits (t ++ rest) ≡ rest
unfolding skip_digits
skip_digits-append [] [] all h = refl
skip_digits-append [] (c ∷ rest) all h = rw h refl
skip_digits-append (c ∷ t) rest (d, all) h = rw (d, skip_digits-append t rest all h) refl

digit_start : (c : ℕ) (s : Bytes) → is_digit c ≡ true → signed (skip_space (c ∷ s)) ≡ (false, c ∷ s)
unfolding skip_space is_space is_digit signed
digit_start c s h =
    let low : 48 ≤ c = ground arith in
    let a : ((c == 32) || (leb 9 c && leb c 13)) ≡ false = ground arith in
    let b : (c == b'-') ≡ false = ground arith in
    let d : (c == b'+') ≡ false = ground arith in rw (a, b, d) refl

strtoul_lem :
    (t u rest : Bytes) (n : ℕ)
    → signed (skip_space t) ≡ (false, u)
    → starts_number u ≡ true
    → digits_value 0 u ≡ n
    → n < 2 ^ 64
    → skip_digits u ≡ rest
    → strtoul t ≡ (n, false, rest)
unfolding strtoul
strtoul_lem t u rest n start number value small skipped =
    let in_range : leb (2 ^ 64) n ≡ false = ground arith in
    rw (start, number, value, in_range, skipped) refl

strtoul-digit :
    (c : ℕ) (s rest : Bytes) (n : ℕ)
    → is_digit c ≡ true
    → digits_value 0 (c ∷ s) ≡ n
    → n < 2 ^ 64
    → skip_digits (c ∷ s) ≡ rest
    → strtoul (c ∷ s) ≡ (n, false, rest)
unfolding starts_number
strtoul-digit c s rest n d = strtoul_lem (c ∷ s) (c ∷ s) rest n (digit_start c s d) d

strtoul-show_nat :
    (n : ℕ) (rest : Bytes)
    → Ends rest
    → n < 2 ^ 64
    → strtoul (show_nat n ++ rest) ≡ (n, false, rest)
unfolding show_nat
strtoul-show_nat n rest h small =
    let (c, s, e, d) = digits-Begins (suc n) n (omega arith) in
    let value = digits_value-digits (suc n) n rest (omega arith) ∙ digits_value-Ends n rest h in
    let skipped = skip_digits-append (show_nat n) rest (show_nat-All n) h in
    ap (λ t. strtoul (t ++ rest)) e
    ∙ strtoul-digit c (s ++ rest) rest n d (ap (λ t. digits_value 0 (t ++ rest)) (sym e) ∙ value)
        small (ap (λ t. skip_digits (t ++ rest)) (sym e) ∙ skipped)

-- The guards hold, and the number was read.
parse_line_lem :
    (line : Bytes) (n : ℕ) (rest : Bytes) (errno : ℕ)
    → 24 ≤ length line
    → get_or line 20 0 ≡ b'd'
    → strtoul (drop 23 line) ≡ (n, false, rest)
    → errno ≢ erange
    → parse_line line errno ≡ (after_number (to_int n) rest, errno)
unfolding parse_line
parse_line_lem line n rest errno long mark read err =
    let enough : ltb (length line) 24 ≡ false = ground arith in
    rw (read, enough, mark, ne→== errno erange err) refl

after_number_lem :
    (db : ℤ) (rest cmd : Bytes)
    → 3 ≤ length rest
    → before_quote (drop 3 rest) ≡ some cmd
    → after_number db rest ≡ counted cmd db
unfolding after_number
after_number_lem db rest cmd long found =
    let enough : ltb (length rest) 3 ≡ false = ground arith in rw (enough, found) refl

-- A line that the server writes under MONITOR is counted for its command and its database, whatever follows the
-- command, when errno is not ERANGE, the database's number fits an int, and the command has no quote and no NUL.
pub parse_line-monitor_line :
    (stamp : Bytes) (db : ℕ) (cmd more : Bytes) (errno : ℕ)
    → length stamp ≡ 20
    → db < 2 ^ 31
    → Lacks 34 cmd
    → Lacks 0 cmd
    → errno ≢ erange
    → parse_line (monitor_line stamp db cmd more) errno ≡ (counted cmd (pos db), errno)
unfolding monitor_line is_digit
parse_line-monitor_line stamp db cmd more errno e small q z err =
    let tail = codes ") \"" ++ (cmd ++ (b'"' ∷ more)) in
    let t = show_nat db ++ tail in
    let long : 24 ≤ length (stamp ++ (codes "db " ++ t)) =
      omega (arith, length-append stamp (codes "db " ++ t), length-append (show_nat db) tail) in
    let at_23 : drop 23 (stamp ++ (codes "db " ++ t)) ≡ t =
      ap (drop 23) (sym (append_assoc stamp (codes "db ") t))
      ∙ drop-append (stamp ++ codes "db ") t 23
          (omega (arith, length-append stamp (codes "db "))) in
    let read = ap strtoul at_23 ∙ strtoul-show_nat db tail refl (omega arith) in
    parse_line_lem (stamp ++ (codes "db " ++ t)) db tail errno long
      (ap (λ i. get_or (stamp ++ (codes "db " ++ t)) i 0) (sym e) ∙ get_or-append stamp _ b'd') read
      err
    ∙ ap (λ i. (after_number i tail, errno)) (to_int_lem db small)
    ∙ ap (λ r. (r, errno))
        (after_number_lem (pos db) tail cmd (omega arith) (before_quote-append cmd more q z))
