-- ===== src/Protocol/Request/Server.antt =====
-- What a server makes of a request: an independent reader of the format that src/redis_protocol.cpp
-- documents, and what it reads of the text that the client writes.
use librediscxx.Base.{
  ℕ, zero, suc, ◌+◌, ◌-◌, ◌*◌, ◌<◌, pos, ◌≡◌, refl, ap, ◌∙◌, List, [], ◌∷◌, ◌++◌, map, Option, none,
  some, append_assoc, Bytes, arith, ◌==◌, length, take, drop, flatten, starts_with, if◌then◌else◌,
  take-append, drop-append,
}
use librediscxx.Protocol.Decimal.{show_nat, show_int, is_digit}
use librediscxx.Protocol.Decimal.RoundTrip.{digits-read, digit_true}
use librediscxx.Protocol.Conn.{line_end}
use librediscxx.Protocol.Request.{bulk_text, request_text}

-- Digits up to the end of the line.
take_number : ℕ → Bytes → Option (ℕ × Bytes)
take_number acc [] = none
take_number acc (c ∷ s) =
    let more = take_number (acc * 10 + (c - 48)) s in
    if is_digit c
    then more
    else if starts_with line_end (c ∷ s)
    then some (acc, drop 2 (c ∷ s))
    else none

-- `n` bytes and the end of the line.
take_data : Option (ℕ × Bytes) → Option (Bytes × Bytes)
take_data none = none
take_data (some (n, s)) =
    if starts_with line_end (drop n s) then some (take n s, drop 2 (drop n s)) else none

take_bulk : Bytes → Option (Bytes × Bytes)
unfolding take_number take_data
take_bulk [] = none
take_bulk (c ∷ s) = if c == b'$' then take_data (take_number 0 s) else none

cons_bulk : Bytes → Option (List Bytes × Bytes) → Option (List Bytes × Bytes)
cons_bulk b none = none
cons_bulk b (some (bs, s)) = some (b ∷ bs, s)

take_bulks : ℕ → Bytes → Option (List Bytes × Bytes)
unfolding take_bulk cons_bulk
take_bulks zero s = some ([], s)
take_bulks (suc n) s = elim (take_bulk s) [
  | none ↦ none
  | some (b, r) ↦ cons_bulk b (take_bulks n r)
]

counted : Option (ℕ × Bytes) → Option (List Bytes × Bytes)
unfolding take_bulks
counted none = none
counted (some (n, s)) = take_bulks n s

-- A request: its words, and the bytes after it.
unfoldable pub parse_request : Bytes → Option (List Bytes × Bytes)
unfolding take_number counted
parse_request [] = none
parse_request (c ∷ s) = if c == b'*' then counted (take_number 0 s) else none

take_number-digit :
    (acc d : ℕ) (s : Bytes) → d < 10 → take_number acc ((48 + d) ∷ s) ≡ take_number (acc * 10 + d) s
unfolding take_number
take_number-digit acc d s small =
    let e : acc * 10 + (48 + d - 48) ≡ acc * 10 + d = omega arith in
    rw (digit_true d small) (ap (λ k. take_number k s) e)

take_number-end : (n : ℕ) (s : Bytes) → take_number n (line_end ++ s) ≡ some (n, s)
unfolding take_number starts_with is_digit
take_number-end n s = refl

take_number-show_nat :
    (n : ℕ) (s : Bytes) → take_number 0 (show_nat n ++ (line_end ++ s)) ≡ some (n, s)
unfolding show_nat
take_number-show_nat n s =
    digits-read take_number take_number-digit (suc n) n (line_end ++ s) (omega arith)
    ∙ take_number-end n s

take_data-append : (b s : Bytes) → take_data (some (length b, b ++ (line_end ++ s))) ≡ some (b, s)
unfolding take_data starts_with
take_data-append b s =
    rw
      (drop-append b (line_end ++ s) (length b) refl, take-append b (line_end ++ s) (length b) refl)

bulk_text-append :
    (b s : Bytes)
    → (show_nat (length b) ++ (line_end ++ (b ++ line_end))) ++ s
      ≡ show_nat (length b) ++ (line_end ++ (b ++ (line_end ++ s)))
bulk_text-append b s =
    append_assoc (show_nat (length b)) (line_end ++ (b ++ line_end)) s
    ∙ ap (λ t. show_nat (length b) ++ (line_end ++ t)) (append_assoc b line_end s)

take_bulk-bulk_text : (b s : Bytes) → take_bulk (bulk_text b ++ s) ≡ some (b, s)
unfolding take_bulk bulk_text
take_bulk-bulk_text b s =
    ap (λ t. take_data (take_number 0 t)) (bulk_text-append b s)
    ∙ ap take_data (take_number-show_nat (length b) (b ++ (line_end ++ s)))
    ∙ take_data-append b s

take_bulks-step :
    (n : ℕ) (b r s : Bytes)
    → take_bulk s ≡ some (b, r)
    → take_bulks (suc n) s ≡ cons_bulk b (take_bulks n r)
unfolding take_bulks
take_bulks-step n b r s e = rw (take_bulks, e)

take_bulks-flatten :
    (bs : List Bytes) (s : Bytes)
    → take_bulks (length bs) (flatten (map bulk_text bs) ++ s) ≡ some (bs, s)
unfolding take_bulks cons_bulk
take_bulks-flatten [] s = refl
take_bulks-flatten (b ∷ bs) s =
    ap (take_bulks (suc (length bs))) (append_assoc (bulk_text b) (flatten (map bulk_text bs)) s)
    ∙ take_bulks-step (length bs) b (flatten (map bulk_text bs) ++ s)
        (bulk_text b ++ (flatten (map bulk_text bs) ++ s))
        (take_bulk-bulk_text b (flatten (map bulk_text bs) ++ s))
    ∙ ap (cons_bulk b) (take_bulks-flatten bs s)

-- The server reads the words that the client has written, whatever bytes they hold, and leaves what follows.
pub parse_request-request_text :
    (bs : List Bytes) (s : Bytes)
    → parse_request (request_text (pos (length bs)) bs ++ s) ≡ some (bs, s)
unfolding parse_request request_text show_int counted
parse_request-request_text bs s =
    ap (λ t. counted (take_number 0 t))
      (append_assoc (show_nat (length bs)) (line_end ++ flatten (map bulk_text bs)) s)
    ∙ ap counted (take_number-show_nat (length bs) (flatten (map bulk_text bs) ++ s))
    ∙ take_bulks-flatten bs s
