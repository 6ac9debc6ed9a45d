-- ===== src/Tcp/Client/Reading.antt =====
-- Reading gives the bytes of the stream, however the network cuts it into pieces.
use librediscxx.Base.{
  ℕ, zero, suc, ◌+◌, ◌^◌, ◌≤◌, ◌<◌, ℤ, ◌≡◌, refl, sym, ap, ◌∙◌, false, [], ◌∷◌, ◌++◌, append_assoc,
  some, Bytes, arith, le_or_lt, ◌==◌, length, take, drop, take-take_le, take-append_le,
  drop-append_le, length-append, length-drop, starts_with-append, inl, inr,
}
use librediscxx.Os.World.{World}
use librediscxx.Os.Socket.{timed_read}
use librediscxx.Os.Socket.Delivery.{delivered, Quiet, Quiet-refl, Quiet-trans, timed_read-Takes_pos}
use librediscxx.Tcp.Buffer
use librediscxx.Tcp.Buffer.{Buffer, default_buffer_size, read_size, free_size, view}
use librediscxx.Tcp.Buffer.Laws.{Inv, prepare-Prepared, produce_lem, consume_lem, length-view}
use librediscxx.Tcp.Search.{
  missed, search_delim, IsFirst, search_found, search_missed, length-starts_with, starts_with-drop,
}
use librediscxx.Tcp.Client.{TcpClient, read_done, read_line_loop, read_line}

-- The bytes that a client will read: those that it holds, and those that are to come.
abbrev pub stream : TcpClient → World → Bytes
stream c w = view c.buffer ++ delivered w.recvs

-- The client and the world after a call that took `k` bytes off the stream, and nothing else.
pub record Took (c : TcpClient) (w : World) (k : ℕ) (c' : TcpClient) (w' : World) : Type 0 where
  pub inv : Inv c'.buffer
  pub rest : stream c' w' ≡ drop k (stream c w)
  pub fd : c'.fd ≡ c.fd
  pub check : c'.last_check_open_time ≡ c.last_check_open_time
  pub quiet : Quiet w w'

-- What a successful read returns.
abbrev pub Reads : TcpClient → World → Bytes → ℕ → Bytes × ℕ × TcpClient × World → Type 0
Reads c w line k (s, ec, c', w') = (s ≡ line) × (ec ≡ 0) × Took c w k c' w'

-- The buffer holds what a read needs to be taken off it.
pub read_done_lem :
    (expect size : ℕ) (c : TcpClient) (w : World)
    → Inv c.buffer
    → w.polls ≡ []
    → expect ≤ read_size c.buffer
    → size ≤ expect
    → Reads c w (take size (stream c w)) expect (read_done expect size c w)
unfolding read_done
read_done_lem expect size c w v p fits le =
    let (s, v', e) = consume_lem expect c.buffer v fits in
    (
      ap (take size) s
          ∙ take-take_le size expect (view c.buffer) le
          ∙ sym (take-append_le (view c.buffer) _ size (omega (arith, whole))),
      refl,
      record {
        inv = v';
        rest =
            ap (λ q. q ++ delivered w.recvs) e
            ∙ sym (drop-append_le (view c.buffer) _ expect (omega (arith, whole)));
        fd = refl;
        check = refl;
        quiet = Quiet-refl w p;
      },
    )
  where
    whole : length (view c.buffer) ≡ read_size c.buffer
    whole = length-view c.buffer v

-- One round that reads on: at least one byte comes, and the stream stays the same.
abbrev pub More : ℕ → ℤ → TcpClient → World → Type 0
More m timeout c w =
    let b = Buffer.prepare m false c.buffer in
    let (got, w') = timed_read (free_size b) timeout w in
    (x : ℕ) × (bs : Bytes) × (got ≡ some (x ∷ bs))
    × Inv (Buffer.produce (x ∷ bs) b)
    × (view (Buffer.produce (x ∷ bs) b) ≡ view c.buffer ++ x ∷ bs)
    × (x ∷ bs ++ delivered w'.recvs ≡ delivered w.recvs)
    × Quiet w w'

pub read-More :
    (m : ℕ) (timeout : ℤ) (c : TcpClient) (w : World)
    → Inv c.buffer
    → w.polls ≡ []
    → 0 < m
    → read_size c.buffer + m < 2 ^ 63
    → 0 < length (delivered w.recvs)
    → More m timeout c w
read-More m timeout c w v p pos small some_left =
    let (v', same, room, _) = prepare-Prepared m false c.buffer v small in
    let b = Buffer.prepare m false c.buffer in
    elim (timed_read-Takes_pos (free_size b) timeout w (omega (arith, room)) p) [
      | inl (none_left, _) ↦ absurd (omega (arith, ap length none_left))
      | inr (x, bs, e, seam, fits, q) ↦
          let (v'', grown) = produce_lem (x ∷ bs) b v' fits in
          (x, bs, e, v'', grown ∙ ap (λ s. s ++ x ∷ bs) same, seam, q)
    ]

-- The client and the world after such a round.
abbrev pub after : ℕ → ℤ → TcpClient → World → Bytes → TcpClient
after m timeout c w got = record c { buffer = Buffer.produce got (Buffer.prepare m false c.buffer) }

abbrev pub world_after : ℕ → ℤ → TcpClient → World → World
world_after m timeout c w = (timed_read (free_size (Buffer.prepare m false c.buffer)) timeout w).1

pub stream-after :
    (m : ℕ) (timeout : ℤ) (c : TcpClient) (w : World) (more : More m timeout c w)
    → stream (after m timeout c w (more.0 ∷ more.1)) (world_after m timeout c w) ≡ stream c w
stream-after m timeout c w (x, bs, e, v, grown, seam, q) =
    ap (λ s. s ++ delivered (world_after m timeout c w).recvs) grown
    ∙ append_assoc (view c.buffer) (x ∷ bs) _
    ∙ ap (◌++◌ (view c.buffer)) seam

pub fewer :
    (m : ℕ) (timeout : ℤ) (c : TcpClient) (w : World) (more : More m timeout c w)
    → length (delivered (world_after m timeout c w).recvs) < length (delivered w.recvs)
fewer m timeout c w (x, bs, e, v, grown, seam, q) =
    omega
      (arith, ap length seam, length-append (x ∷ bs) (delivered (world_after m timeout c w).recvs))

-- What a read does after such a round, it does from the start.
pub Reads-after :
    (m : ℕ) (timeout : ℤ) (c : TcpClient) (w : World) (line : Bytes) (k : ℕ)
    (more : More m timeout c w) (r : Bytes × ℕ × TcpClient × World)
    → Reads (after m timeout c w (more.0 ∷ more.1)) (world_after m timeout c w) line k r
    → Reads c w line k r
Reads-after m timeout c w line k more (s, ec, c', w') (e, z, t) = (
  e,
  z,
  record {
    inv = t.inv;
    rest = t.rest ∙ ap (drop k) (stream-after m timeout c w more);
    fd = t.fd;
    check = t.check;
    quiet = Quiet-trans more.6 t.quiet;
  },
)

-- The streams on which the sizes stay below 2^63.
abbrev pub IsShort : Bytes → Type 0
IsShort s = length s + 512 < 2 ^ 63

here_lem :
    (f : ℕ) (d : Bytes) (offset : ℕ) (timeout : ℤ) (c : TcpClient) (w : World) (k : ℕ)
    → Inv c.buffer
    → w.polls ≡ []
    → IsFirst d (stream c w) k
    → offset ≤ k
    → k + length d ≤ length (view c.buffer)
    → Reads c w (take k (stream c w)) (k + length d) (read_line_loop f d offset timeout c w)
unfolding read_line_loop
here_lem zero d offset timeout c w k v p first le fits =
    rw (search_found d offset (view c.buffer) _ k first le fits)
      (read_done_lem (k + length d) k c w v p (omega (arith, length-view c.buffer v)) (omega arith))
here_lem (suc f) d offset timeout c w k v p first le fits =
    rw (search_found d offset (view c.buffer) _ k first le fits)
      (read_done_lem (k + length d) k c w v p (omega (arith, length-view c.buffer v)) (omega arith))

-- The delimiter is not there yet: the search ends in vain, short of it.
not_yet :
    (d : Bytes) (offset : ℕ) (c : TcpClient) (w : World) (k : ℕ)
    → IsFirst d (stream c w) k
    → offset ≤ k
    → length (view c.buffer) < k + length d
    → (o : ℕ) × (search_delim d offset (view c.buffer) ≡ missed o) × (o ≤ k)
not_yet d offset c w k first le short =
    let (o, e, place) =
      search_missed d offset (view c.buffer)
        (λ j h. sym (starts_with-drop d (view c.buffer) _ j h) ∙ first.before j (omega arith)) in
    (o, e, omega arith)

-- The whole delimiter lies in the stream.
IsFirst-within : (d s : Bytes) (k : ℕ) → IsFirst d s k → k + length d ≤ length s
IsFirst-within [] s zero first = omega arith
IsFirst-within [] s (suc k) first = cc (first.before 0 (omega arith), starts_with-append [] s)
IsFirst-within (x ∷ d) s k first =
    omega (arith, length-starts_with (x ∷ d) (drop k s) first.hit, length-drop k s)

pub pos→== : (n : ℕ) → (suc n == 0) ≡ false
pos→== n = ground arith

-- The round of the loop that reads on.
read_line_round :
    (f : ℕ) (d : Bytes) (offset o : ℕ) (timeout : ℤ) (c : TcpClient) (w : World) (x : ℕ)
    (bs : Bytes)
    → search_delim d offset (view c.buffer) ≡ missed o
    → (timed_read (free_size (Buffer.prepare default_buffer_size false c.buffer)) timeout w).0
      ≡ some (x ∷ bs)
    → read_line_loop (suc f) d offset timeout c w
      ≡ read_line_loop f d o timeout
          (after default_buffer_size timeout c w (x ∷ bs))
          (world_after default_buffer_size timeout c w)
unfolding read_line_loop
read_line_round f d offset o timeout c w x bs e g = rw (e, g, pos→== (length bs))

read_line_loop_lem :
    (f : ℕ) (d : Bytes) (offset : ℕ) (timeout : ℤ) (c : TcpClient) (w : World) (s : Bytes) (k : ℕ)
    → stream c w ≡ s
    → Inv c.buffer
    → w.polls ≡ []
    → IsFirst d s k
    → offset ≤ k
    → length (delivered w.recvs) ≤ f
    → IsShort s
    → Reads c w (take k s) (k + length d) (read_line_loop f d offset timeout c w)
unfolding read_line_loop
read_line_loop_lem zero d offset timeout c w s k same v p first le enough short =
    let first' : IsFirst d (stream c w) k = rw same first in
    rw (← same) (
      here_lem zero d offset timeout c w k v p first' le (
        omega
          (arith, IsFirst-within d _ k first', length-append (view c.buffer) (delivered w.recvs))))
read_line_loop_lem (suc f) d offset timeout c w s k same v p first le enough short =
    let first' : IsFirst d (stream c w) k = rw same first in
    elim (le_or_lt (k + length d) (length (view c.buffer))) [
      | inl fits ↦ rw (← same) (here_lem (suc f) d offset timeout c w k v p first' le fits)
      | inr far ↦
          let whole = length-append (view c.buffer) (delivered w.recvs) in
          let total = ap length same in
          let (o, e, le') = not_yet d offset c w k first' le far in
          let more =
            read-More default_buffer_size timeout c w v p (omega arith)
              (omega (arith, whole, total, length-view c.buffer v))
              (omega (arith, whole, IsFirst-within d _ k first')) in
          rw (read_line_round f d offset o timeout c w more.0 more.1 e more.2) (
            Reads-after default_buffer_size timeout c w (take k s) (k + length d) more _ (
              read_line_loop_lem f d o timeout _ _ s k
                (stream-after default_buffer_size timeout c w more ∙ same) more.3 more.6.polls first
                le' (omega (arith, fewer default_buffer_size timeout c w more)) short))
    ]

-- With no poll failing, `read_line` returns the bytes in front of the first delimiter of the stream and
-- takes them and the delimiter off it, however the network cuts the stream into pieces: nothing of what
-- follows is lost, and the connection stays open.
pub read_line-Reads :
    (d : Bytes) (timeout : ℤ) (c : TcpClient) (w : World) (k : ℕ)
    → Inv c.buffer
    → w.polls ≡ []
    → IsFirst d (stream c w) k
    → IsShort (stream c w)
    → Reads c w (take k (stream c w)) (k + length d) (read_line d timeout c w)
unfolding read_line
read_line-Reads d timeout c w k v p first short =
    read_line_loop_lem (length (delivered w.recvs)) d 0 timeout c w (stream c w) k refl v p first
      (omega arith) (omega arith) short
