-- ===== src/Protocol/Decimal/RoundTrip.antt =====
-- A number that is printed is read back by `parse_integer` of src/redis_protocol.cpp.
use librediscxx.Base.{
  ℕ, zero, suc, ◌+◌, ◌-◌, ◌*◌, ◌/◌, ◌%◌, ◌≤◌, ◌<◌, ℤ, pos, negsuc, IsInt64, int64_max, true, false,
  ◌&&◌, ◌||◌, none, some, ◌≡◌, refl, sym, ap, ◌∙◌, ◌≢◌, ◌⊎◌, inl, inr, append-nil, [], ◌∷◌, ◌++◌,
  append_assoc, Bytes, arith, leb, ltb, ◌==◌, le_or_lt, le→leb, lt→leb_false, lt→ltb, ne→==, All,
  All-append,
}
use librediscxx.Os.World.{World, einval_no, erange}
use librediscxx.Protocol.Decimal.{
  digits, show_nat, show_int, is_space, is_digit, skip_space, digits_value, after_space, signed,
  negate, strtol, parse_integer,
}

-- What follows a number does not go on with a digit.
abbrev pub Ends : Bytes → Type 0
Ends [] = Unit
Ends (c ∷ s) = is_digit c ≡ false

pub digits_value-Ends : (n : ℕ) (rest : Bytes) → Ends rest → digits_value n rest ≡ n
unfolding digits_value
digits_value-Ends n [] h = refl
digits_value-Ends n (c ∷ s) h = rw h

pub digit_true : (d : ℕ) → d < 10 → is_digit (48 + d) ≡ true
unfolding is_digit
digit_true d h = ground arith

ge→ltb_false : (n : ℕ) → 10 ≤ n → ltb n 10 ≡ false
ge→ltb_false n h = ground arith

-- A reader that takes a digit into its accumulator takes a printed number so.
pub digits-read {ℓ} :
    {A : Type ℓ} (g : ℕ → Bytes → A)
    → ((acc d : ℕ) (s : Bytes) → d < 10 → g acc ((48 + d) ∷ s) ≡ g (acc * 10 + d) s)
    → (f n : ℕ) (rest : Bytes) → n < f
    → g 0 (digits f n ++ rest) ≡ g n rest
unfolding digits
digits-read g step zero n rest h = absurd (omega arith)
digits-read g step (suc f) n rest h = elim (le_or_lt 10 n) [
  | inr lt ↦
      let e : 0 * 10 + n ≡ n = omega arith in
      rw (lt→ltb n 10 lt) (step 0 n rest lt ∙ ap (λ k. g k rest) e)
  | inl ge ↦
      let e : n / 10 * 10 + n % 10 ≡ n = omega arith in
      rw (ge→ltb_false n ge, append_assoc (digits f (n / 10)) ((48 + n % 10) ∷ []) rest)
        (digits-read g step f (n / 10) ((48 + n % 10) ∷ rest) (omega arith)
          ∙ step (n / 10) (n % 10) rest (omega arith)
          ∙ ap (λ k. g k rest) e)
]

digits_value-digit :
    (acc d : ℕ) (s : Bytes)
    → d < 10
    → digits_value acc ((48 + d) ∷ s) ≡ digits_value (acc * 10 + d) s
unfolding digits_value
digits_value-digit acc d s small =
    let e : acc * 10 + (48 + d - 48) ≡ acc * 10 + d = omega arith in
    rw (digit_true d small) (ap (λ k. digits_value k s) e)

pub digits_value-digits :
    (f n : ℕ) (rest : Bytes) → n < f → digits_value 0 (digits f n ++ rest) ≡ digits_value n rest
digits_value-digits = digits-read digits_value digits_value-digit

-- A text that begins with a digit.
abbrev pub Begins : Bytes → Type 0
Begins t = (c : ℕ) × (s : Bytes) × (t ≡ c ∷ s) × (is_digit c ≡ true)

Begins-append : (t s : Bytes) → Begins t → Begins (t ++ s)
Begins-append t s (c, r, e, d) = (c, r ++ s, ap (λ q. q ++ s) e, d)

-- A printed number begins with a digit.
pub digits-Begins : (f n : ℕ) → n < f → Begins (digits f n)
unfolding digits
digits-Begins zero n h = absurd (omega arith)
digits-Begins (suc f) n h = elim (le_or_lt 10 n) [
  | inr lt ↦ rw (lt→ltb n 10 lt) (48 + n, [], refl, digit_true n lt)
  | inl ge ↦ rw (ge→ltb_false n ge) (
      Begins-append (digits f (n / 10)) ((48 + n % 10) ∷ [])
        (digits-Begins f (n / 10) (omega arith)))
]

digits-All : (f m : ℕ) → All (λ c. is_digit c ≡ true) (digits f m)
unfolding digits
digits-All zero m = tt
digits-All (suc f) m = elim (le_or_lt 10 m) [
  | inr lt ↦ rw (lt→ltb m 10 lt) (digit_true m lt, tt)
  | inl ge ↦ rw (ge→ltb_false m ge) (
      All-append (λ c. is_digit c ≡ true) (digits f (m / 10)) _ (digits-All f (m / 10))
        (digit_true (m % 10) (omega arith), tt))
]

-- The digits of a number are bytes from '0' to '9'.
pub show_nat-All : (n : ℕ) → All (λ c. is_digit c ≡ true) (show_nat n)
unfolding show_nat
show_nat-All n = digits-All (suc n) n

strtol-digit :
    (c : ℕ) (s : Bytes) → is_digit c ≡ true → strtol (c ∷ s) ≡ signed false (digits_value 0 (c ∷ s))
unfolding strtol skip_space is_space after_space is_digit
strtol-digit c s h =
    let low : 48 ≤ c = ground arith in
    let a : ((c == 32) || (leb 9 c && leb c 13)) ≡ false = ground arith in
    let b : (c == b'-') ≡ false = ground arith in
    let d : (c == b'+') ≡ false = ground arith in rw (a, b, d)

strtol-show_nat : (n : ℕ) (rest : Bytes) → Ends rest → strtol (show_nat n ++ rest) ≡ signed false n
unfolding show_nat
strtol-show_nat n rest h =
    let (c, s, e, d) = digits-Begins (suc n) n (omega arith) in
    let value = digits_value-digits (suc n) n rest (omega arith) ∙ digits_value-Ends n rest h in
    ap (λ t. strtol (t ++ rest)) e
    ∙ strtol-digit c (s ++ rest) d
    ∙ ap (λ t. signed false (digits_value 0 (t ++ rest))) (sym e)
    ∙ ap (signed false) value

strtol-minus :
    (n : ℕ) (rest : Bytes)
    → Ends rest
    → strtol (b'-' ∷ show_nat (suc n) ++ rest) ≡ signed true (suc n)
unfolding strtol skip_space is_space after_space show_nat
strtol-minus n rest h = ap (signed true) (
    digits_value-digits (suc (suc n)) (suc n) rest (omega arith) ∙ digits_value-Ends (suc n) rest h)

-- What `strtol` makes of a printed integer: that integer, or that it is out of range.
strtol-show_int :
    (i : ℤ)
    → (IsInt64 i × (strtol (show_int i) ≡ (i, false)))
      ⊎ ((¬ IsInt64 i) × ((strtol (show_int i)).1 ≡ true))
unfolding show_int signed negate
strtol-show_int (pos n) =
    let e = ap strtol (sym (append-nil (show_nat n))) ∙ strtol-show_nat n [] tt in
    elim (le_or_lt n int64_max) [
      | inl small ↦ inl ((small, omega arith), e ∙ rw (le→leb n int64_max small))
      | inr far ↦
          inr (λ h. omega (arith, h.0, far), ap (λ r. r.1) e ∙ rw (lt→leb_false n int64_max far))
    ]
strtol-show_int (negsuc n) =
    let e = ap strtol (sym (append-nil (b'-' ∷ show_nat (suc n)))) ∙ strtol-minus n [] tt in
    elim (le_or_lt (suc n) (int64_max + 1)) [
      | inl small ↦ inl ((omega arith, small), e ∙ rw (le→leb (suc n) (int64_max + 1) small))
      | inr far ↦ inr (
        λ h. omega (arith, h.1, far),
        ap (λ r. r.1) e ∙ rw (lt→leb_false (suc n) (int64_max + 1) far),
      )
    ]

-- A line that holds a printed integer after its mark is read as that integer, and nothing changes, when it is an
-- `int64_t`; otherwise there is no integer, and `errno` is ERANGE. The `errno` before is neither EINVAL nor ERANGE.
pub parse_integer-prints :
    (mark : ℕ) (i : ℤ) (w : World)
    → w.errno ≢ einval_no
    → w.errno ≢ erange
    → (IsInt64 i × (parse_integer (mark ∷ show_int i) w ≡ (some i, w)))
      ⊎ ((¬ IsInt64 i)
          × (parse_integer (mark ∷ show_int i) w ≡ (none, record w { errno = erange })))
unfolding parse_integer
parse_integer-prints mark i w p q = elim (strtol-show_int i) [
  | inl (h, e) ↦ inl (h, rw (e, ne→== w.errno einval_no p, ne→== w.errno erange q) refl)
  | inr (h, e) ↦ inr (h, rw e refl)
]

-- The first half.
pub parse_integer-show_int :
    (mark : ℕ) (i : ℤ) (w : World)
    → IsInt64 i
    → w.errno ≢ einval_no
    → w.errno ≢ erange
    → parse_integer (mark ∷ show_int i) w ≡ (some i, w)
parse_integer-show_int mark i w h p q = elim (parse_integer-prints mark i w p q) [
  | inl (_, e) ↦ e
  | inr (far, _) ↦ absurd (far h)
]
