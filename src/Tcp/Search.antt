-- ===== src/Tcp/Search.antt =====
-- The search for the delimiter in `TcpClient::Impl::read_line`, and what it finds.
use librediscxx.Base.{
  ℕ, zero, suc, ◌+◌, ◌-◌, ◌≤◌, ◌<◌, ◌≡◌, refl, sym, ap, subst, ◌∙◌, ◌⊎◌, ◌==◌, ==_iff, true, false,
  ◌&&◌, [], ◌∷◌, ◌++◌, Bytes, arith, leb, le→leb, leb→le, length, drop, length-drop, drop-append_le,
  drop-drop, starts_with, Bool-cases, inl, inr, if◌then◌else◌,
}

-- The offset of the delimiter, or where the next search goes on.
pub data Found : Type 0 where
  found missed : ℕ → Found

-- `for (; search_curr<=search_end; search_curr++, search_offset++)`, over the positions that are left.
scan : ℕ → Bytes → ℕ → Bytes → Found
scan zero delim offset s = missed offset
scan (suc n) delim offset s =
    let next = scan n delim (offset + 1) (drop 1 s) in
    if starts_with delim s then found offset else next

-- One search of the unread bytes: none while they are fewer than the delimiter has.
unfoldable pub search_delim : Bytes → ℕ → Bytes → Found
unfolding scan
search_delim delim offset s =
    if leb (length delim) (length s)
    then scan (length s - length delim + 1 - offset) delim offset (drop offset s)
    else missed offset

-- The delimiter stands at `k` in `s`, and nowhere before.
pub record IsFirst (delim s : Bytes) (k : ℕ) : Type 0 where
  pub hit : starts_with delim (drop k s) ≡ true
  pub before : (j : ℕ) → j < k → starts_with delim (drop j s) ≡ false

pub length-starts_with : (d s : Bytes) → starts_with d s ≡ true → length d ≤ length s
unfolding starts_with
length-starts_with [] s h = omega arith
length-starts_with (x ∷ d) [] h = cc
length-starts_with (x ∷ d) (c ∷ s) h = ground (arith, length-starts_with d s)

starts_with-append_le :
    (d s t : Bytes) → length d ≤ length s → starts_with d (s ++ t) ≡ starts_with d s
unfolding starts_with
starts_with-append_le [] s t h = refl
starts_with-append_le (x ∷ d) [] t h = absurd (omega arith)
starts_with-append_le (x ∷ d) (c ∷ s) t h =
    ap (λ b. (x == c) && b) (starts_with-append_le d s t (omega arith))

-- A delimiter that lies within the first part is seen there.
pub starts_with-drop :
    (d s t : Bytes) (j : ℕ)
    → j + length d ≤ length s
    → starts_with d (drop j (s ++ t)) ≡ starts_with d (drop j s)
starts_with-drop d s t j h =
    rw (drop-append_le s t j (omega arith))
      (starts_with-append_le d (drop j s) t (omega (arith, length-drop j s)))

scan-found :
    (n i k : ℕ) (d s : Bytes) → IsFirst d s k → i ≤ k → k < i + n → scan n d i (drop i s) ≡ found k
unfolding scan
scan-found zero i k d s f le lt = absurd (omega arith)
scan-found (suc n) i k d s f le lt = elim (Bool-cases (i == k)) [
  | inl e ↦
      let here : i ≡ k = (==_iff i k).0 e in
      rw (subst (λ j. starts_with d (drop j s) ≡ true) (sym here) f.hit) (ap found here)
  | inr ne ↦ rw (f.before i (ground arith)) (
      ap (scan n d (i + 1)) (drop-drop i 1 (i + 1) s refl)
      ∙ scan-found n (i + 1) k d s f (ground arith) (omega arith))
]

scan_missed :
    (n i : ℕ) (d s : Bytes)
    → ((j : ℕ) → i ≤ j → j < i + n → starts_with d (drop j s) ≡ false)
    → scan n d i (drop i s) ≡ missed (i + n)
unfolding scan
scan_missed zero i d s h = let e : i ≡ i + zero = omega arith in ap missed e
scan_missed (suc n) i d s h =
    let e : i + 1 + n ≡ i + suc n = omega arith in
    rw (h i (omega arith) (omega arith)) (
      ap (scan n d (i + 1)) (drop-drop i 1 (i + 1) s refl)
      ∙ scan_missed n (i + 1) d s (λ j le lt. h j (omega arith) (omega arith))
      ∙ ap missed e)

-- The delimiter lies whole within the bytes that have come: the search stops at it.
pub search_found :
    (d : Bytes) (offset : ℕ) (s t : Bytes) (k : ℕ)
    → IsFirst d (s ++ t) k
    → offset ≤ k
    → k + length d ≤ length s
    → search_delim d offset s ≡ found k
unfolding search_delim
search_found d offset s t k f le fits =
    rw (le→leb (length d) (length s) (omega arith))
      (scan-found (length s - length d + 1 - offset) offset k d s within le (omega arith))
  where
    within : IsFirst d s k
    within = record {
      hit = sym (starts_with-drop d s t k fits) ∙ f.hit;
      before = λ j lt. sym (starts_with-drop d s t j (omega arith)) ∙ f.before j lt;
    }

-- None of the positions that the bytes so far decide is a hit: the next search goes on behind them.
pub search_missed :
    (d : Bytes) (offset : ℕ) (s : Bytes)
    → ((j : ℕ) → j + length d ≤ length s → starts_with d (drop j s) ≡ false)
    → (o : ℕ) × (search_delim d offset s ≡ missed o)
      × ((o ≡ offset) ⊎ (o + length d ≡ length s + 1))
unfolding search_delim
search_missed d offset s h = elim (Bool-cases (leb (length d) (length s))) [
  | inr short ↦ (offset, rw short, inl refl)
  | inl long ↦ (
    offset + (length s - length d + 1 - offset),
    rw long (
        scan_missed (length s - length d + 1 - offset) offset d s
          (λ j le lt. h j (omega (arith, leb→le (length d) (length s) long)))),
    ends (leb→le (length d) (length s) long),
  )
]
  where
    ends :
        length d ≤ length s
        → (offset + (length s - length d + 1 - offset) ≡ offset)
          ⊎ (offset + (length s - length d + 1 - offset) + length d ≡ length s + 1)
    ends le = grind arith
