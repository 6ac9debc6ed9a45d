-- ===== src/Os/Socket/Delivery.antt =====
-- The bytes that are still to come on a socket, and what a read takes of them.
use librediscxx.Base.{
  ℕ, zero, suc, ◌≤◌, ◌<◌, ℤ, ◌≡◌, refl, ap, ◌∙◌, ◌⊎◌, inl, inr, List, [], ◌∷◌, ◌++◌, Option, none,
  some, Bytes, arith, length, take, drop, take-append-drop, append_assoc, length-take, length-drop,
  length-append, Bool-cases, ◌==◌,
}
use librediscxx.Os.World.{World, PollAnswer, RecvAnswer, received, recv_failed, eintr}
use librediscxx.Os.Socket.{remain, recv_from, poll_loop, poll_loop-nil, poll_read, recv, timed_read}

-- The bytes up to the end of the stream or the first failure.
abbrev pub delivered : List RecvAnswer → Bytes
delivered [] = []
delivered (received [] ∷ rs) = []
delivered (received (c ∷ bs) ∷ rs) = c ∷ bs ++ delivered rs
delivered (recv_failed e ∷ rs) = []

-- Reading changes nothing of the world but the answers of `recv` and the record of the waits.
pub record Quiet (w w' : World) : Type 0 where
  pub polls : w'.polls ≡ []
  pub errno : w'.errno ≡ w.errno
  pub sends : w'.sends ≡ w.sends
  pub sent : w'.sent ≡ w.sent
  pub calls : w'.calls ≡ w.calls
  pub clock : w'.clock ≡ w.clock
  pub dns_cache : w'.dns_cache ≡ w.dns_cache

pub Quiet-refl : (w : World) → w.polls ≡ [] → Quiet w w
Quiet-refl w h = record {
  polls = h;
  errno = refl;
  sends = refl;
  sent = refl;
  calls = refl;
  clock = refl;
  dns_cache = refl;
}

pub Quiet-trans : {u v w : World} → Quiet u v → Quiet v w → Quiet u w
Quiet-trans p q = record {
  polls = q.polls;
  errno = q.errno ∙ p.errno;
  sends = q.sends ∙ p.sends;
  sent = q.sent ∙ p.sent;
  calls = q.calls ∙ p.calls;
  clock = q.clock ∙ p.clock;
  dns_cache = q.dns_cache ∙ p.dns_cache;
}

-- A read takes a non-empty front of the bytes to come, or finds that there are none.
abbrev pub Takes : ℕ → World → Option Bytes → World → Type 0
Takes len w r w' =
    ((delivered w.recvs ≡ []) × ((r ≡ none) ⊎ (r ≡ some [])))
    ⊎ ((c : ℕ) × (bs : Bytes) × (r ≡ some (c ∷ bs))
        × (c ∷ bs ++ delivered w'.recvs ≡ delivered w.recvs)
        × (length (c ∷ bs) ≤ len)
        × Quiet w w')

delivered-remain :
    (bs : Bytes) (rs : List RecvAnswer) → delivered (remain bs rs) ≡ bs ++ delivered rs
unfolding remain
delivered-remain [] rs = refl
delivered-remain (c ∷ bs) rs = refl

recv_from-Takes :
    (rs : List RecvAnswer) (len : ℕ) (w : World)
    → w.polls ≡ []
    → w.recvs ≡ rs
    → let (r, w') = recv_from rs (suc len) w in Takes (suc len) w r w'
unfolding recv_from
recv_from-Takes [] len w p e = inl (ap delivered e, inr refl)
recv_from-Takes (recv_failed n ∷ rs) len w p e = inl (ap delivered e, inl refl)
recv_from-Takes (received [] ∷ rs) len w p e = inl (ap delivered e, inr refl)
recv_from-Takes (received (c ∷ bs) ∷ rs) len w p e = inr (
  c,
  take len bs,
  refl,
  seam,
  small,
  record {
    polls = p;
    errno = refl;
    sends = refl;
    sent = refl;
    calls = refl;
    clock = refl;
    dns_cache = refl;
  },
)
  where
    small : suc (length (take len bs)) ≤ suc len
    small = omega (arith, length-take len bs)

    seam : c ∷ take len bs ++ delivered (remain (drop len bs) rs) ≡ delivered w.recvs
    seam = rw (e, delivered-remain (drop len bs) rs, ← append_assoc, take-append-drop len bs)

-- A read of at least one byte, with no poll failing: it takes a front of what is to come, and changes
-- nothing else, or finds that nothing is to come.
pub timed_read-Takes :
    (len : ℕ) (timeout : ℤ) (w : World)
    → w.polls ≡ []
    → let (r, w') = timed_read (suc len) timeout w in Takes (suc len) w r w'
unfolding timed_read poll_loop recv
timed_read-Takes len timeout w p = rw (poll_loop-nil w.polls timeout w p) (
    after
      (recv_from-Takes w.recvs len (record w { polls = []; waits = timeout ∷ w.waits }) refl refl))
  where
    after :
        {r : Option Bytes} {w' : World}
        → Takes (suc len) (record w { polls = []; waits = timeout ∷ w.waits }) r w'
        → Takes (suc len) w r w'
    after (inl t) = inl t
    after (inr (c, bs, e, seam, small, q)) = inr (
      c,
      bs,
      e,
      seam,
      small,
      record {
        polls = q.polls;
        errno = q.errno;
        sends = q.sends;
        sent = q.sent;
        calls = q.calls;
        clock = q.clock;
        dns_cache = q.dns_cache;
      },
    )

pub timed_read-Takes_pos :
    (len : ℕ) (timeout : ℤ) (w : World)
    → 0 < len
    → w.polls ≡ []
    → let (r, w') = timed_read len timeout w in Takes len w r w'
timed_read-Takes_pos zero timeout w h p = elim h [ ]
timed_read-Takes_pos (suc len) timeout w h p = timed_read-Takes len timeout w p

recv_from-shrinks :
    (rs : List RecvAnswer) (len : ℕ) (w : World)
    → w.recvs ≡ rs
    → let (r, w') = recv_from rs len w in
      (r ≡ none) ⊎ (r ≡ some []) ⊎ (length (delivered w'.recvs) < length (delivered w.recvs))
unfolding recv_from
recv_from-shrinks [] len w e = inr (inl refl)
recv_from-shrinks (recv_failed n ∷ rs) len w e = inl refl
recv_from-shrinks (received [] ∷ rs) zero w e = inr (inl refl)
recv_from-shrinks (received [] ∷ rs) (suc len) w e = inr (inl refl)
recv_from-shrinks (received (c ∷ bs) ∷ rs) zero w e = inr (inl refl)
recv_from-shrinks (received (c ∷ bs) ∷ rs) (suc len) w e = inr (
    inr (
      omega (
        arith,
        ap (λ r. length (delivered r)) e,
        ap length (delivered-remain (drop len bs) rs),
        length-append (drop len bs) (delivered rs),
        length-append bs (delivered rs),
        length-drop len bs,
      )))

poll_loop-recvs :
    (ps : List PollAnswer) (timeout : ℤ) (w : World) → (poll_loop ps timeout w).1.recvs ≡ w.recvs
unfolding poll_loop
poll_loop-recvs [] timeout w = refl
poll_loop-recvs (PollAnswer.ready ∷ ps) timeout w = refl
poll_loop-recvs (PollAnswer.timed_out ∷ ps) timeout w = refl
poll_loop-recvs (PollAnswer.poll_failed e ∷ ps) timeout w = elim (Bool-cases (e == eintr)) [
  | inl h ↦ rw h (poll_loop-recvs ps timeout _)
  | inr h ↦ rw h
]

-- Whatever the polls answer, a read brings nothing, or fewer bytes are to come.
pub timed_read-shrinks :
    (len : ℕ) (timeout : ℤ) (w : World)
    → let (r, w') = timed_read len timeout w in
      (r ≡ none) ⊎ (r ≡ some []) ⊎ (length (delivered w'.recvs) < length (delivered w.recvs))
unfolding timed_read recv poll_read
timed_read-shrinks len timeout w = elim (Bool-cases (poll_loop w.polls timeout w).0) [
  | inr e ↦ rw e (inl refl)
  | inl e ↦
      let same = poll_loop-recvs w.polls timeout w in
      let h =
        recv_from-shrinks (poll_loop w.polls timeout w).1.recvs len (poll_loop w.polls timeout w).1
          refl in
      elim h [
        | inl a ↦ rw (e, a) (inl refl)
        | inr (inl a) ↦ rw (e, a) (inr (inl refl))
        | inr (inr lt) ↦ rw e (inr (inr (omega (arith, ap (λ r. length (delivered r)) same))))
      ]
]
