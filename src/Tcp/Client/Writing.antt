-- ===== src/Tcp/Client/Writing.antt =====
-- What has gone out after `TcpClient::Impl::write` of src/tcp_client.cpp.
use librediscxx.Base.{
  pos, to_int, to_int_lem, same_int, same_int_lem, ◌^◌, ◌<◌, sym, ℕ, ◌≤◌, ℤ, ◌≡◌, refl, ap, ◌∙◌,
  ◌⊎◌, inl, inr, [], ==_refl, ◌++◌, none, Bytes, arith, length, take, take-length, Bool-cases,
  if◌then◌else◌,
}
use librediscxx.Os.World.{World}
use librediscxx.Os.Socket.{timed_writen}
use librediscxx.Os.Socket.Writing.{timed_writen-sent, timed_writen-all}
use librediscxx.Tcp.Client.{TcpClient, write, close, give_up, all_written}

-- All of the text has gone out, when it has fewer than 2^31 bytes, or the connection is closed.
abbrev pub AllOrClosed : Bytes → World → ℕ × TcpClient × World → Type 0
AllOrClosed s w (ec, c, w') = (w'.sent ≡ w.sent ++ s) ⊎ (c.fd ≡ none)

write_end : Bytes → TcpClient → ℤ → World → ℕ × TcpClient × World
unfolding give_up all_written
write_end s c n w =
    if all_written n (length s)
    then (0, record c { last_check_open_time = w.clock }, w)
    else give_up c w

write_end_lem :
    (s : Bytes) (c : TcpClient) (w w' : World) (r : ℤ)
    → length s < 2 ^ 31
    → ((n : ℕ) → r ≡ pos n → (n ≤ length s) × (w'.sent ≡ w.sent ++ take n s))
    → AllOrClosed s w (write_end s c r w')
unfolding write_end close
write_end_lem s c w w' r small h = elim (Bool-cases (same_int r (to_int (length s)))) [
  | inr e ↦ rw e (inr refl)
  | inl e ↦
      let whole : r ≡ pos (length s) =
        same_int_lem r (pos (length s)) (ap (same_int r) (sym (to_int_lem (length s) small)) ∙ e) in
      rw e (
        inl
          ((h (length s) whole).1 ∙ ap (λ t. w.sent ++ t) (take-length s (length s) (omega arith))))
]

pub write-AllOrClosed :
    (s : Bytes) (timeout : ℤ) (c : TcpClient) (w : World)
    → length s < 2 ^ 31
    → AllOrClosed s w (write s timeout c w)
unfolding write write_end
write-AllOrClosed s timeout c w small =
    write_end_lem s c w (timed_writen s timeout w).1 (timed_writen s timeout w).0 small
      (λ n e. let (_, few, sent) = timed_writen-sent s timeout w n e in (few, sent))

-- With nothing to hinder it all of it goes out, and nothing else changes.
pub write-all :
    (s : Bytes) (timeout : ℤ) (c : TcpClient) (w : World)
    → length s < 2 ^ 31
    → w.polls ≡ []
    → w.sends ≡ []
    → let (ec, c', w') = write s timeout c w in
      (ec ≡ 0)
      × (c'.fd ≡ c.fd)
      × (c'.buffer ≡ c.buffer)
      × (w'.sent ≡ w.sent ++ s)
      × (w'.recvs ≡ w.recvs)
      × (w'.polls ≡ [])
      × (w'.errno ≡ w.errno)
      × (w'.sends ≡ [])
      × (w'.clock ≡ w.clock)
      × (c'.last_check_open_time ≡ w.clock)
unfolding write write_end
write-all s timeout c w small p q =
    let (e, sent, recvs, polls, sends, errno, _, clock) = timed_writen-all s timeout w small p q in
    rw (e, to_int_lem (length s) small, ==_refl (length s))
      (refl, refl, refl, sent, recvs, polls, errno, sends, clock, clock)
