-- ===== src/Tcp/Client/Counting.antt =====
-- `TcpClient::read`: a counted read and the delimiter behind it.
use librediscxx.Base.{
  ℕ, zero, suc, ◌+◌, ◌-◌, ◌%◌, ◌^◌, ◌≤◌, ◌<◌, ℤ, ◌≡◌, refl, ap, ◌∙◌, false, [], ◌∷◌, some, Bytes,
  arith, le→leb, lt→leb_false, le_or_lt, length, take, length-append, inl, inr,
}
use librediscxx.Os.World.{World}
use librediscxx.Os.Socket.{timed_read}
use librediscxx.Os.Socket.Delivery.{delivered}
use librediscxx.Tcp.Buffer
use librediscxx.Tcp.Buffer.{read_size, free_size, view}
use librediscxx.Tcp.Buffer.Laws.{Inv, length-view}
use librediscxx.Tcp.Client.{TcpClient, read_loop, read}
use librediscxx.Tcp.Client.Reading.{
  stream, Reads, IsShort, More, after, world_after, read_done_lem, read-More, stream-after,
  Reads-after, fewer, pos→==,
}

-- The round of the loop that reads on: the count that is left falls by what came.
read_round :
    (f expect size to_read : ℕ) (timeout : ℤ) (c : TcpClient) (w : World) (x : ℕ) (bs : Bytes)
    → read_size c.buffer < expect
    → (timed_read (free_size (Buffer.prepare to_read false c.buffer)) timeout w).0 ≡ some (x ∷ bs)
    → read_loop (suc f) expect size to_read timeout c w
      ≡ read_loop f expect size
          ((to_read + 2 ^ 64 - length (x ∷ bs)) % 2 ^ 64)
          timeout
          (after to_read timeout c w (x ∷ bs))
          (world_after to_read timeout c w)
unfolding read_loop
read_round f expect size to_read timeout c w x bs lt g =
    rw (lt→leb_false expect (read_size c.buffer) lt, g, pos→== (length bs))

full_lem :
    (f expect size to_read : ℕ) (timeout : ℤ) (c : TcpClient) (w : World)
    → Inv c.buffer
    → w.polls ≡ []
    → expect ≤ read_size c.buffer
    → size ≤ expect
    → Reads c w (take size (stream c w)) expect (read_loop f expect size to_read timeout c w)
unfolding read_loop
full_lem zero expect size to_read timeout c w v p le fits =
    rw (le→leb expect (read_size c.buffer) le) (read_done_lem expect size c w v p le fits)
full_lem (suc f) expect size to_read timeout c w v p le fits =
    rw (le→leb expect (read_size c.buffer) le) (read_done_lem expect size c w v p le fits)

-- The count that is left stays what the buffer lacks.
shrunk :
    (m : ℕ) (timeout : ℤ) (c : TcpClient) (w : World) (expect : ℕ)
    → Inv c.buffer
    → (more : More m timeout c w) → m ≡ expect - read_size c.buffer
    → expect < 2 ^ 63
    → read_size (after m timeout c w (more.0 ∷ more.1)).buffer < expect
    → (m + 2 ^ 64 - length (more.0 ∷ more.1)) % 2 ^ 64
      ≡ expect - read_size (after m timeout c w (more.0 ∷ more.1)).buffer
shrunk m timeout c w expect v (x, bs, e, v', grown, seam, q) rest small lt =
    let now : read_size (after m timeout c w (x ∷ bs)).buffer
        ≡ read_size c.buffer + length (x ∷ bs) =
      omega (
        arith,
        length-view (after m timeout c w (x ∷ bs)).buffer v',
        ap length grown,
        length-append (view c.buffer) (x ∷ bs),
        length-view c.buffer v,
      ) in
    omega arith

read_loop_lem :
    (f expect size to_read : ℕ) (timeout : ℤ) (c : TcpClient) (w : World) (s : Bytes)
    → stream c w ≡ s
    → Inv c.buffer
    → w.polls ≡ []
    → (read_size c.buffer < expect → to_read ≡ expect - read_size c.buffer)
    → size ≤ expect
    → expect ≤ length s
    → length (delivered w.recvs) ≤ f
    → IsShort s
    → Reads c w (take size s) expect (read_loop f expect size to_read timeout c w)
read_loop_lem zero expect size to_read timeout c w s same v p left fits enough fuel short =
    elim (le_or_lt expect (read_size c.buffer)) [
      | inl full ↦ rw (← same) (full_lem zero expect size to_read timeout c w v p full fits)
      | inr far ↦ absurd (
          omega (
            arith,
            ap length same,
            length-append (view c.buffer) (delivered w.recvs),
            length-view c.buffer v,
          ))
    ]
read_loop_lem (suc f) expect size to_read timeout c w s same v p left fits enough fuel short =
    elim (le_or_lt expect (read_size c.buffer)) [
      | inl full ↦ rw (← same) (full_lem (suc f) expect size to_read timeout c w v p full fits)
      | inr far ↦
          let whole = length-append (view c.buffer) (delivered w.recvs) in
          let seen = length-view c.buffer v in
          let total = ap length same in
          let rest : to_read ≡ expect - read_size c.buffer = left far in
          let more = read-More to_read timeout c w v p (omega arith) (omega arith) (omega arith) in
          rw (read_round f expect size to_read timeout c w more.0 more.1 far more.2) (
            Reads-after to_read timeout c w (take size s) expect more _ (
              read_loop_lem f expect size _ timeout _ _ s
                (stream-after to_read timeout c w more ∙ same) more.3 more.6.polls
                (λ lt. shrunk to_read timeout c w expect v more rest (omega arith) lt) fits enough
                (omega (arith, fewer to_read timeout c w more)) short))
    ]

-- With no poll failing, and with `size` bytes and a delimiter's worth of bytes in the stream, `read`
-- returns the first `size` bytes and takes them and as many more as the delimiter has off the stream,
-- however the network cuts the stream into pieces.
pub read-Reads :
    (size : ℕ) (d : Bytes) (timeout : ℤ) (c : TcpClient) (w : World)
    → Inv c.buffer
    → w.polls ≡ []
    → size + length d ≤ length (stream c w)
    → IsShort (stream c w)
    → Reads c w (take size (stream c w)) (size + length d) (read size d timeout c w)
unfolding read
read-Reads size d timeout c w v p enough short =
    let e : (size + length d) % 2 ^ 64 ≡ size + length d = omega arith in
    rw e (
      read_loop_lem (length (delivered w.recvs)) (size + length d) size _ timeout c w (stream c w)
        refl v p (λ lt. omega arith) (omega arith) enough (omega arith) short)
