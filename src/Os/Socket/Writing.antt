-- ===== src/Os/Socket/Writing.antt =====
-- What `timed_writen` has sent.
use librediscxx.Base.{
  pos, pos_part, to_int, to_int_lem, to_int-bound, ◌^◌, ◌<◌, ◌-◌, length-take, take-length, ℕ, zero,
  suc, ◌+◌, ◌≤◌, ℤ, ◌≡◌, refl, sym, ap, ◌∙◌, List, [], ◌∷◌, ◌++◌, Option, none, some, Bytes, arith,
  length, take, drop, take-append-drop, append_assoc, append-nil, length-append, take-append,
  Bool-cases, ◌==◌, inl, inr,
}
use librediscxx.Os.World.{World, PollAnswer, SendAnswer, accepted, send_failed, eintr}
use librediscxx.Os.Socket.{poll_loop, poll_loop-nil, poll_write, writen_loop, written, timed_writen}

poll_loop-sent :
    (ps : List PollAnswer) (timeout : ℤ) (w : World) → (poll_loop ps timeout w).1.sent ≡ w.sent
unfolding poll_loop
poll_loop-sent [] timeout w = refl
poll_loop-sent (PollAnswer.ready ∷ ps) timeout w = refl
poll_loop-sent (PollAnswer.timed_out ∷ ps) timeout w = refl
poll_loop-sent (PollAnswer.poll_failed e ∷ ps) timeout w = elim (Bool-cases (e == eintr)) [
  | inl h ↦ rw h (poll_loop-sent ps timeout _)
  | inr h ↦ rw h
]

-- What is gone from the buffer has been sent, whatever the answers were.
abbrev Progress : Bytes → Bytes → Option Bytes × World → Type 0
Progress buf sent (none, w') = (done : Bytes) × (w'.sent ≡ sent ++ done)
Progress buf sent (some left, w') = (done : Bytes) × (done ++ left ≡ buf) × (w'.sent ≡ sent ++ done)

Progress-after :
    (done buf left sent sent' : Bytes) (r : Option Bytes × World)
    → done ++ left ≡ buf
    → sent' ≡ sent ++ done
    → Progress left sent' r
    → Progress buf sent r
Progress-after done buf left sent sent' (none, w') e f (more, g) =
    (done ++ more, g ∙ ap (λ s. s ++ more) f ∙ append_assoc _ done more)
Progress-after done buf left sent sent' (some rest, w') e f (more, g, h) = (
  done ++ more,
  append_assoc done more rest ∙ ap (◌++◌ done) g ∙ e,
  h ∙ ap (λ s. s ++ more) f ∙ append_assoc _ done more,
)

poll_write-sent : (timeout : ℤ) (w : World) → (poll_write timeout w).1.sent ≡ w.sent ++ []
unfolding poll_write
poll_write-sent timeout w = poll_loop-sent w.polls timeout w ∙ sym (append-nil _)

writen_loop-Progress :
    (ss : List SendAnswer) (timeout : ℤ) (buf : Bytes) (w : World)
    → Progress buf w.sent (writen_loop ss timeout buf w)
unfolding writen_loop
writen_loop-Progress ss timeout [] w = ([], refl, sym (append-nil _))
writen_loop-Progress [] timeout (c ∷ buf) w = elim (Bool-cases (poll_write timeout w).0) [
  | inl e ↦ rw e (
    c ∷ buf,
    append-nil _,
    ap (λ s. s ++ c ∷ buf) (poll_write-sent timeout w) ∙ ap (λ s. s ++ c ∷ buf) (append-nil _),
  )
  | inr e ↦ rw e ([], refl, poll_write-sent timeout w)
]
writen_loop-Progress (send_failed e ∷ ss) timeout (c ∷ buf) w =
    elim (Bool-cases (poll_write timeout w).0) [
      | inl ok ↦ elim (Bool-cases (e == eintr)) [
        | inl h ↦
            rw (ok, h)
              (Progress-after [] _ (c ∷ buf) w.sent _ _ refl (poll_write-sent timeout w)
                (writen_loop-Progress ss timeout (c ∷ buf) _))
        | inr h ↦ rw (ok, h) ([], poll_write-sent timeout w)
      ]
      | inr ko ↦ rw ko ([], refl, poll_write-sent timeout w)
    ]
writen_loop-Progress (accepted zero ∷ ss) timeout (c ∷ buf) w =
    elim (Bool-cases (poll_write timeout w).0) [
      | inl ok ↦ rw ok ([], refl, poll_write-sent timeout w)
      | inr ko ↦ rw ko ([], refl, poll_write-sent timeout w)
    ]
writen_loop-Progress (accepted (suc n) ∷ ss) timeout (c ∷ buf) w =
    elim (Bool-cases (poll_write timeout w).0) [
      | inl ok ↦ rw ok (
          Progress-after (c ∷ take n buf) _ (drop n buf) w.sent _ _
            (ap (◌∷◌ c) (take-append-drop n buf))
            (ap (λ s. s ++ c ∷ take n buf) (poll_write-sent timeout w ∙ append-nil _))
            (writen_loop-Progress ss timeout (drop n buf) _))
      | inr ko ↦ rw ko ([], refl, poll_write-sent timeout w)
    ]

-- The count that `timed_writen` returns is the number of bytes that have gone out, and these are the
-- front of the buffer: a
-- buffer of fewer than 2^31 bytes went out as a whole exactly when the count is its length, and of a larger one at most
-- the bytes that its size cast to an `int` counts went out. This holds
-- whatever polls and sends answer: short writes, interrupts, timeouts and failures; a count of -1 is not
-- included.
pub timed_writen-sent :
    (buf : Bytes) (timeout : ℤ) (w : World) (n : ℕ)
    → (timed_writen buf timeout w).0 ≡ pos n
    → (n ≤ pos_part (to_int (length buf)))
      × (n ≤ length buf)
      × ((timed_writen buf timeout w).1.sent ≡ w.sent ++ take n buf)
unfolding timed_writen
timed_writen-sent buf timeout w n h =
    go (writen_loop w.sends timeout (take k buf) w)
      (writen_loop-Progress w.sends timeout (take k buf) w) h
  where
    k : ℕ
    k = pos_part (to_int (length buf))

    go :
        (r : Option Bytes × World)
        → Progress (take k buf) w.sent r
        → written (to_int (length buf)) r.0 ≡ pos n
        → (n ≤ k) × (n ≤ length buf) × (r.1.sent ≡ w.sent ++ take n buf)
    go (none, w') p e = cc
    go (some left, w') (done, e₁, e₂) e = (
      omega (arith, same_count),
      omega (arith, same_count, to_int-bound (length buf)),
      e₂
          ∙ ap (λ s. w.sent ++ s)
              (sym (rw (sym all) (take-append done (left ++ drop k buf) n count))),
    )
      where
        same_count : n ≡ k - length left
        same_count = sym (ap pos_part e)

        whole : length done + length left ≡ k
        whole =
            sym (length-append done left)
            ∙ ap length e₁
            ∙ length-take k buf
            ∙ omega (arith, to_int-bound (length buf))

        count : n ≡ length done
        count = omega (arith, whole, same_count)

        all : done ++ (left ++ drop k buf) ≡ buf
        all =
            sym (append_assoc done left (drop k buf))
            ∙ ap (λ s. s ++ drop k buf) e₁
            ∙ take-append-drop k buf

writen_loop-nil :
    (ss : List SendAnswer) (timeout : ℤ) (c : ℕ) (buf : Bytes) (w : World)
    → w.polls ≡ []
    → ss ≡ []
    → writen_loop ss timeout (c ∷ buf) w
      ≡ (some [], record w { polls = []; waits = timeout ∷ w.waits; sent = w.sent ++ c ∷ buf })
unfolding writen_loop poll_write
writen_loop-nil [] timeout c buf w p e = rw (poll_loop-nil w.polls timeout w p)
writen_loop-nil (s ∷ ss) timeout c buf w p e = cc

-- With nothing to hinder it the whole buffer goes out, when it has fewer than 2^31 bytes.
pub timed_writen-all :
    (buf : Bytes) (timeout : ℤ) (w : World)
    → length buf < 2 ^ 31
    → w.polls ≡ []
    → w.sends ≡ []
    → let (r, w') = timed_writen buf timeout w in
      (r ≡ pos (length buf))
      × (w'.sent ≡ w.sent ++ buf)
      × (w'.recvs ≡ w.recvs)
      × (w'.polls ≡ [])
      × (w'.sends ≡ [])
      × (w'.errno ≡ w.errno)
      × (w'.calls ≡ w.calls)
      × (w'.clock ≡ w.clock)
unfolding timed_writen
timed_writen-all [] timeout w small p e = (refl, sym (append-nil _), refl, p, e, refl, refl, refl)
timed_writen-all (c ∷ buf) timeout w small p e =
    let size = to_int_lem (length (c ∷ buf)) small in
    rw
      (
        size,
        take-length buf (length buf) (omega arith),
        writen_loop-nil w.sends timeout c buf w p e,
      )
      (ap pos (omega arith), refl, refl, refl, e, refl, refl, refl)
