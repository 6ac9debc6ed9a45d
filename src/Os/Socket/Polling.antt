-- ===== src/Os/Socket/Polling.antt =====
-- What `timed_read` of src/os.cpp makes of the answers of `poll`.
use librediscxx.Base.{ℕ, suc, ℤ, ◌≡◌, ◌≢◌, ◌⊎◌, Bool, true, false, List, ◌++◌, replicate}
use librediscxx.Os.World.{World, PollAnswer, ready}

-- What is left after a poll that was interrupted `n` times, and whether the socket is ready.
Settles : ℕ → PollAnswer → List PollAnswer → ℤ → World → Bool × World → Type 0
Settles n p ps timeout w (is_ready, w') =
    (w'.polls ≡ ps)
    × (w'.waits ≡ replicate (suc n) timeout ++ w.waits)
    × (w'.recvs ≡ w.recvs)
    × (((p ≡ ready) × (is_ready ≡ true)) ⊎ ((p ≢ ready) × (is_ready ≡ false)))
