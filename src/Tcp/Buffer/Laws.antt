-- ===== src/Tcp/Buffer/Laws.antt =====
-- The buffer seen as the queue of its unread bytes.
use native.Mathlib.Nat.{pow-suc}
use librediscxx.Base.{
  ℕ, zero, suc, ◌+◌, ◌-◌, ◌*◌, ◌%◌, ◌^◌, ◌≤◌, ◌<◌, ◌≡◌, refl, sym, ap, subst, ◌∙◌, Bool, not, ◌&&◌,
  true, [], ◌++◌, append_assoc, none, some, Bytes, arith, leb, le→leb, leb→le, lt→leb_false, ◌==◌,
  ==_iff, length, take, drop, replicate, length-append, length-take, length-drop, length-replicate,
  take-append, take-take_le, drop-take, drop-append_le, drop-drop, Bool-cases, inl, inr,
}
use librediscxx.Tcp.Buffer.{
  Buffer, view, total_size, read_size, free_size, clear, grow, move_to, prepare, produce, drain,
  settle, consume, default_buffer_size, max_buffer_size, resize,
}

-- `begin <= read <= to_read <= end`, and the vector is never empty.
pub record Inv (b : Buffer) : Type 0 where
  pub ordered : b.read ≤ b.to_read
  pub within : b.to_read ≤ length b.bytes
  pub nonempty : 0 < length b.bytes

pub length-view : (b : Buffer) → Inv b → length (view b) ≡ read_size b
length-view b v =
    omega (arith, length-take (read_size b) (drop b.read b.bytes), length-drop b.read b.bytes)

length-resize : (n : ℕ) (bs : Bytes) → length (resize n bs) ≡ n
unfolding resize
length-resize n bs = omega (
  arith,
  length-append (take n bs) (replicate (n - length bs) 0),
  length-take n bs,
  length-replicate (n - length bs) (zero),
)

pub clear-Inv : (b : Buffer) → Inv (clear b)
unfolding clear
clear-Inv b = record {
  ordered = omega arith;
  within = omega arith;
  nonempty = omega (arith, length-resize default_buffer_size b.bytes);
}

view-clear : (b : Buffer) → view (clear b) ≡ []
unfolding clear
view-clear b = refl

-- Doubling reaches any bound below 2^63 within the fuel, without a wrap-around.
grow_total :
    (f n m : ℕ)
    → 0 < n
    → m < 2 ^ 63
    → m < n * 2 ^ f
    → (r : ℕ) × (grow f n m ≡ some r) × (m < r) × (n ≤ r)
unfolding grow
grow_total zero n m pos small enough =
    (n, rw (lt→leb_false n m (omega arith)), omega arith, omega arith)
grow_total (suc f) n m pos small enough = elim (Bool-cases (leb n m)) [
  | inl more ↦
      let le : n ≤ m = leb→le n m more in
      let e : n * 2 % 2 ^ 64 ≡ n * 2 = omega arith in
      let spread : n * 2 ^ suc f ≡ n * 2 * 2 ^ f =
        omega (arith, ap (λ (t : ℕ). n * t) (pow-suc 2 f)) in
      let (r, g, lt, ge) = grow_total f (n * 2) m (omega arith) small (omega (arith, spread)) in
      (r, rw more (subst (λ k. grow f k m ≡ some r) (sym e) g), lt, omega arith)
  | inr done ↦ (n, rw done, ground arith, omega arith)
]

-- From 2^63 on no fuel is enough: the size wraps to 0 and stays there, and the loop never ends.
grow_zero : (f m : ℕ) → grow f 0 m ≡ none
unfolding grow
grow_zero zero m = rw (le→leb 0 m (omega arith))
grow_zero (suc f) m = rw (le→leb 0 m (omega arith)) (grow_zero f m)

length-moved :
    (b : Buffer) (n : ℕ)
    → Inv b
    → read_size b ≤ n
    → length (view b ++ replicate (n - read_size b) 0) ≡ n
length-moved b n v le = omega (
  arith,
  length-append (view b) (replicate (n - read_size b) 0),
  length-view b v,
  length-replicate (n - read_size b) zero,
)

-- What `prepare` promises: the same unread bytes, and room for `m` more.
abbrev pub Prepared : ℕ → Buffer → Buffer → Type 0
Prepared m b b' = Inv b' × (view b' ≡ view b) × (m ≤ free_size b') × (total_size b ≤ total_size b')

move_to-Prepared :
    (b : Buffer) (m n : ℕ)
    → Inv b
    → read_size b + m < n
    → total_size b ≤ n
    → Prepared m b (move_to (some n) b)
unfolding move_to
move_to-Prepared b m n v lt le = (
  record {
    ordered = omega arith;
    within = omega (arith, length-moved b n v);
    nonempty = omega (arith, length-moved b n v);
  },
  take-append (view b) _ (read_size b - 0) (omega (arith, length-view b v)),
  omega (arith, length-moved b n v),
  omega (arith, length-moved b n v),
)

-- With sizes below 2^63 `prepare` returns with room for `size` bytes behind the unread ones, which it
-- keeps, and never makes the buffer smaller, not even when it is asked to drain it.
pub prepare-Prepared :
    (size : ℕ) (is_drain : Bool) (b : Buffer)
    → Inv b
    → read_size b + size < 2 ^ 63
    → Prepared size b (prepare size is_drain b)
unfolding prepare
prepare-Prepared size is_drain b v small =
    let (n, g, lt, le) =
      grow_total 64 (total_size b) (read_size b + size) v.nonempty small (omega (arith, v)) in
    elim (Bool-cases (size == 0)) [
      | inl z ↦ rw z (v, refl, ground arith, omega arith)
      | inr nz ↦ elim (Bool-cases (not is_drain && leb size (free_size b))) [
        | inl fits ↦ rw (nz, fits) (v, refl, ground arith, omega arith)
        | inr full ↦ rw (nz, full, g) (move_to-Prepared b size n v lt le)
      ]
    ]

-- Bytes that fit are appended to the unread ones.
pub produce_lem :
    (got : Bytes) (b : Buffer)
    → Inv b
    → length got ≤ free_size b
    → Inv (produce got b) × (view (produce got b) ≡ view b ++ got)
unfolding produce
produce_lem got b v fits = (
  record { ordered = omega arith; within = omega (arith, size); nonempty = omega (arith, size) },
  seen,
)
  where
    front : length (take b.to_read b.bytes) ≡ b.to_read
    front = omega (arith, length-take b.to_read b.bytes, v.within)

    size :
        length (take b.to_read b.bytes ++ (got ++ drop (b.to_read + length got) b.bytes))
        ≡ length b.bytes
    size = omega (
      arith,
      front,
      v.within,
      length-append (take b.to_read b.bytes) (got ++ drop (b.to_read + length got) b.bytes),
      length-append got (drop (b.to_read + length got) b.bytes),
      length-drop (b.to_read + length got) b.bytes,
    )

    seen : view (produce got b) ≡ view b ++ got
    seen =
        ap (take (b.to_read + length got - b.read)) (
          drop-append_le (take b.to_read b.bytes) _ b.read (omega (arith, front))
          ∙ ap (λ s. s ++ (got ++ drop (b.to_read + length got) b.bytes))
              (drop-take b.read b.to_read b.bytes)
          ∙ sym (append_assoc (view b) got _))
        ∙ take-append (view b ++ got) _ _
            (omega (arith, v.ordered, length-append (view b) got, length-view b v))

take-view : (n : ℕ) (b : Buffer) → n ≤ read_size b → take n (drop b.read b.bytes) ≡ take n (view b)
take-view n b le = sym (take-take_le n (read_size b) (drop b.read b.bytes) le)

settle_lem : (b : Buffer) → Inv b → Inv (settle b) × (view (settle b) ≡ view b)
unfolding settle drain
settle_lem b v = elim (Bool-cases (read_size b == 0)) [
  | inr some_left ↦ rw some_left (v, refl)
  | inl emptied ↦
      let none_left : read_size b ≡ 0 = (==_iff _ _).0 emptied in
      elim (Bool-cases (leb max_buffer_size (total_size b))) [
        | inl large ↦
            let (w, e, _, _) = prepare-Prepared default_buffer_size true b v (omega arith) in
            rw (emptied, large) (w, e)
        | inr small ↦
            rw (emptied, small)
              (
                record { ordered = omega arith; within = omega arith; nonempty = v.nonempty },
                sym (ap (λ k. take k (drop b.read b.bytes)) none_left),
              )
      ]
]

-- `consume` takes the bytes off the front of the queue.
pub consume_lem :
    (n : ℕ) (b : Buffer)
    → Inv b
    → n ≤ read_size b
    → let (s, b') = consume n b in (s ≡ take n (view b)) × Inv b' × (view b' ≡ drop n (view b))
unfolding consume
consume_lem n b v le =
    let (w, e) = settle_lem (record b { read = b.read + n }) moved in
    (take-view n b le, w, e ∙ seen)
  where
    moved : Inv (record b { read = b.read + n })
    moved = record { ordered = omega arith; within = v.within; nonempty = v.nonempty }

    seen : view (record b { read = b.read + n }) ≡ drop n (view b)
    seen =
        let e : read_size b - n ≡ b.to_read - (b.read + n) = omega arith in
        sym (
          drop-take n (read_size b) (drop b.read b.bytes)
          ∙ ap (take (read_size b - n)) (drop-drop b.read n (b.read + n) b.bytes refl)
          ∙ ap (λ k. take k (drop (b.read + n) b.bytes)) e)
