-- ===== src/Os/Socket.antt =====
-- Polling, reading from and writing to a socket.
pub mod Delivery
pub mod Polling
pub mod Writing
use librediscxx.Base.{
  ℕ, zero, suc, ◌-◌, ℤ, pos, negsuc, pos_part, to_int, Bool, true, false, ◌||◌, ◌&&◌, not, List, [],
  ◌∷◌, ◌++◌, Option, none, some, Bytes, ◌==◌, if◌then◌else◌, ◌≡◌, refl, length, take, drop,
}
use librediscxx.Os.World.{
  World, PollAnswer, ready, timed_out, poll_failed, RecvAnswer, received, recv_failed, SendAnswer,
  accepted, send_failed, CallAnswer, returned, failed, eintr, eagain, etimedout,
}

-- One poll, retried while a signal interrupts it: is the socket ready?
poll_loop : List PollAnswer → ℤ → World → Bool × World
poll_loop [] timeout w = (true, record w { polls = []; waits = timeout ∷ w.waits })
poll_loop (ready ∷ ps) timeout w = (true, record w { polls = ps; waits = timeout ∷ w.waits })
poll_loop (timed_out ∷ ps) timeout w =
    (false, record w { polls = ps; waits = timeout ∷ w.waits; errno = etimedout })
poll_loop (poll_failed e ∷ ps) timeout w =
    let w' = record w { polls = ps; waits = timeout ∷ w.waits; errno = e } in
    if e == eintr then poll_loop ps timeout w' else (false, w')

poll_loop-nil :
    (ps : List PollAnswer) (timeout : ℤ) (w : World)
    → ps ≡ []
    → poll_loop ps timeout w ≡ (true, record w { polls = []; waits = timeout ∷ w.waits })
unfolding poll_loop
poll_loop-nil [] timeout w h = refl
poll_loop-nil (p ∷ ps) timeout w h = cc

-- `poll_read(fd, timeout)==1` and `poll_write(fd, timeout)==1`: every use tests for 1.
unfoldable pub poll_read : ℤ → World → Bool × World
unfolding poll_loop
poll_read timeout w = poll_loop w.polls timeout w

unfoldable pub poll_write : ℤ → World → Bool × World
unfolding poll_loop
poll_write timeout w = poll_loop w.polls timeout w

-- The bytes of an answer that do not fit stay with the system.
remain : Bytes → List RecvAnswer → List RecvAnswer
remain [] rs = rs
remain (c ∷ bs) rs = received (c ∷ bs) ∷ rs

recv_from : List RecvAnswer → ℕ → World → Option Bytes × World
unfolding remain
recv_from [] len w = (some [], w)
recv_from (received bs ∷ rs) len w =
    (some (take len bs), record w { recvs = remain (drop len bs) rs })
recv_from (recv_failed e ∷ rs) len w = (none, record w { recvs = rs; errno = e })

-- `recv`: `none` is -1, and `some []` is 0.
unfoldable pub recv : ℕ → World → Option Bytes × World
unfolding recv_from
recv len w = recv_from w.recvs len w

unfoldable pub timed_read : ℕ → ℤ → World → Option Bytes × World
unfolding poll_read recv
timed_read len timeout w =
    let (is_ready, w') = poll_read timeout w in if is_ready then recv len w' else (none, w')

-- The loop of `timed_readn`, over the answers of `recv`: what was read, or `none` for -1.
readn_loop : List RecvAnswer → ℕ → ℤ → Bytes → World → Option Bytes × World
unfolding poll_read remain
readn_loop rs zero timeout got w = (some got, w)
readn_loop [] (suc left) timeout got w =
    let (is_ready, w') = poll_read timeout w in
    if is_ready then (some got, record w' { errno = 0 }) else (some got, w')
readn_loop (recv_failed e ∷ rs) (suc left) timeout got w =
    let (is_ready, w') = poll_read timeout w in
    let w'' = record w' { recvs = rs; errno = e } in
    let again = readn_loop rs (suc left) timeout got w'' in
    if is_ready then (if e == eintr then again else (none, w'')) else (some got, w')
readn_loop (received [] ∷ rs) (suc left) timeout got w =
    let (is_ready, w') = poll_read timeout w in
    if is_ready then (some got, record w' { recvs = rs; errno = 0 }) else (some got, w')
readn_loop (received (c ∷ bs) ∷ rs) (suc left) timeout got w =
    let (is_ready, w') = poll_read timeout w in
    let w'' = record w' { recvs = remain (drop (suc left) (c ∷ bs)) rs } in
    let more =
      readn_loop rs (suc left - length (c ∷ bs)) timeout (got ++ take (suc left) (c ∷ bs)) w'' in
    if is_ready then more else (some got, w')

unfoldable pub timed_readn : ℕ → ℤ → World → Option Bytes × World
unfolding readn_loop
timed_readn len timeout w = readn_loop w.recvs (pos_part (to_int len)) timeout [] w

-- The loop of `timed_writen`, over the answers of `send`: the bytes left, or `none` for -1.
writen_loop : List SendAnswer → ℤ → Bytes → World → Option Bytes × World
unfolding poll_write
writen_loop ss timeout [] w = (some [], w)
writen_loop [] timeout (c ∷ buf) w =
    let (is_ready, w') = poll_write timeout w in
    if is_ready then (some [], record w' { sent = w'.sent ++ c ∷ buf }) else (some (c ∷ buf), w')
writen_loop (send_failed e ∷ ss) timeout (c ∷ buf) w =
    let (is_ready, w') = poll_write timeout w in
    let w'' = record w' { sends = ss; errno = e } in
    let again = writen_loop ss timeout (c ∷ buf) w'' in
    if is_ready then (if e == eintr then again else (none, w'')) else (some (c ∷ buf), w')
writen_loop (accepted zero ∷ ss) timeout (c ∷ buf) w =
    let (is_ready, w') = poll_write timeout w in
    if is_ready then (some (c ∷ buf), record w' { sends = ss; errno = 0 }) else (some (c ∷ buf), w')
writen_loop (accepted (suc n) ∷ ss) timeout (c ∷ buf) w =
    let (is_ready, w') = poll_write timeout w in
    let w'' = record w' { sends = ss; sent = w'.sent ++ take (suc n) (c ∷ buf) } in
    let more = writen_loop ss timeout (drop n buf) w'' in
    if is_ready then more else (some (c ∷ buf), w')

-- `-1`, or `(int)len - left`: a size that is a negative `int` is left as it is, so that gives 0.
written : ℤ → Option Bytes → ℤ
written size none = negsuc 0
written size (some left) = pos (pos_part size - length left)

-- `timed_writen`: the size is cast to an `int`, and the loop is not entered when that is not positive.
unfoldable pub timed_writen : Bytes → ℤ → World → ℤ × World
unfolding writen_loop written
timed_writen buf timeout w =
    let size = to_int (length buf) in
    let (left, w') = writen_loop w.sends timeout (take (pos_part size) buf) w in
    (written size left, w')
