-- ===== src/Tcp/Client/Ending.antt =====
-- The read loops end: as much fuel as there are bytes to come is enough, whatever polls answer.
use librediscxx.Base.{
  ℕ, zero, suc, ◌+◌, ◌-◌, ◌%◌, ◌^◌, ◌≤◌, ◌<◌, ℤ, ◌≡◌, ap, ◌∙◌, ◌⊎◌, inl, inr, true, false, Bytes,
  arith, leb, ◌==◌, length, le_or_lt, if◌then◌else◌,
}
use librediscxx.Os.World.{World}
use librediscxx.Os.Socket.{timed_read}
use librediscxx.Os.Socket.Delivery.{delivered, timed_read-shrinks}
use librediscxx.Tcp.Buffer
use librediscxx.Tcp.Buffer.{default_buffer_size, read_size, free_size, view}
use librediscxx.Tcp.Search.{search_delim}
use librediscxx.Tcp.Client.{
  TcpClient, read_done, read_loop, read_line_loop, is_found, offset_of, got_bytes, read_failed,
}

-- A read brings nothing, or fewer bytes are to come.
dry_or_fewer :
    (len : ℕ) (timeout : ℤ) (w : World)
    → ((length (got_bytes (timed_read len timeout w).0) == 0) ≡ true)
      ⊎ (length (delivered (timed_read len timeout w).1.recvs) < length (delivered w.recvs))
unfolding got_bytes
dry_or_fewer len timeout w = elim (timed_read-shrinks len timeout w) [
  | inl e ↦ inl (rw e)
  | inr (inl e) ↦ inl (rw e)
  | inr (inr lt) ↦ inr lt
]

read_line_loop_fuel :
    (f : ℕ) (d : Bytes) (offset : ℕ) (timeout : ℤ) (c : TcpClient) (w : World)
    → length (delivered w.recvs) ≤ f
    → read_line_loop (suc f) d offset timeout c w ≡ read_line_loop f d offset timeout c w
unfolding read_line_loop
read_line_loop_fuel zero d offset timeout c w enough =
    elim (dry_or_fewer (free_size (Buffer.prepare default_buffer_size false c.buffer)) timeout w) [
      | inl dry ↦ rw dry
      | inr lt ↦ absurd (omega arith)
    ]
read_line_loop_fuel (suc f) d offset timeout c w enough =
    elim (dry_or_fewer (free_size (Buffer.prepare default_buffer_size false c.buffer)) timeout w) [
      | inl dry ↦ rw dry
      | inr lt ↦
          let s = search_delim d offset (view c.buffer) in
          let b = Buffer.prepare default_buffer_size false c.buffer in
          let r = timed_read (free_size b) timeout w in
          ap
            (λ m.
              if is_found s
              then read_done (offset_of s + length d) (offset_of s) c w
              else if length (got_bytes r.0) == 0
              then read_failed (record c { buffer = b }) r.1
              else m)
            (read_line_loop_fuel f d (offset_of s) timeout
              (record c { buffer = Buffer.produce (got_bytes r.0) b }) r.1 (omega arith))
    ]

read_loop_fuel :
    (f expect size to_read : ℕ) (timeout : ℤ) (c : TcpClient) (w : World)
    → length (delivered w.recvs) ≤ f
    → read_loop (suc f) expect size to_read timeout c w
      ≡ read_loop f expect size to_read timeout c w
unfolding read_loop
read_loop_fuel zero expect size to_read timeout c w enough =
    elim (dry_or_fewer (free_size (Buffer.prepare to_read false c.buffer)) timeout w) [
      | inl dry ↦ rw dry
      | inr lt ↦ absurd (omega arith)
    ]
read_loop_fuel (suc f) expect size to_read timeout c w enough =
    elim (dry_or_fewer (free_size (Buffer.prepare to_read false c.buffer)) timeout w) [
      | inl dry ↦ rw dry
      | inr lt ↦
          let b = Buffer.prepare to_read false c.buffer in
          let r = timed_read (free_size b) timeout w in
          ap
            (λ m.
              if leb expect (read_size c.buffer)
              then read_done expect size c w
              else if length (got_bytes r.0) == 0
              then read_failed (record c { buffer = b }) r.1
              else m)
            (read_loop_fuel f expect size ((to_read + 2 ^ 64 - length (got_bytes r.0)) % 2 ^ 64)
              timeout (record c { buffer = Buffer.produce (got_bytes r.0) b }) r.1 (omega arith))
    ]

-- More fuel than there are bytes to come changes no result of the loop of `read_line`, nor of the one of
-- `read`.
pub loops-end :
    (f : ℕ) (d : Bytes) (offset expect size to_read : ℕ) (timeout : ℤ) (c : TcpClient) (w : World)
    → length (delivered w.recvs) ≤ f
    → let bytes = length (delivered w.recvs) in
      (read_line_loop f d offset timeout c w ≡ read_line_loop bytes d offset timeout c w)
      × (read_loop f expect size to_read timeout c w
          ≡ read_loop bytes expect size to_read timeout c w)
loops-end zero d offset expect size to_read timeout c w enough =
    let e : zero ≡ length (delivered w.recvs) = omega arith in
    (
      ap (λ g. read_line_loop g d offset timeout c w) e,
      ap (λ g. read_loop g expect size to_read timeout c w) e,
    )
loops-end (suc f) d offset expect size to_read timeout c w enough =
    elim (le_or_lt (length (delivered w.recvs)) f) [
      | inl le ↦
          let (p, q) = loops-end f d offset expect size to_read timeout c w le in
          (
            read_line_loop_fuel f d offset timeout c w le ∙ p,
            read_loop_fuel f expect size to_read timeout c w le ∙ q,
          )
      | inr lt ↦
          let e : suc f ≡ length (delivered w.recvs) = omega arith in
          (
            ap (λ g. read_line_loop g d offset timeout c w) e,
            ap (λ g. read_loop g expect size to_read timeout c w) e,
          )
    ]
