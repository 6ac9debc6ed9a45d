-- ===== src/Tcp/Client.antt =====
-- `TcpClient::Impl` of src/tcp_client.cpp. A call takes and returns the client and the world. The
-- error number `ec` that it sets is a result.
pub mod Reading
pub mod Counting
pub mod Ending
pub mod Writing
use librediscxx.Base.{
  ℕ, zero, suc, ◌+◌, ◌-◌, ◌*◌, ◌/◌, ◌%◌, ◌^◌, ℤ, pos, negsuc, same_int, to_int, Bool, true, false,
  not, List, [], ◌∷◌, ◌++◌, Option, none, some, Bytes, ltb, leb, ◌==◌, if◌then◌else◌, length, take,
  drop,
}
use librediscxx.Os.World.{World, RecvAnswer}
use librediscxx.Os.Socket.{timed_read, timed_writen}
use librediscxx.Os.Socket.Delivery.{delivered}
use librediscxx.Os.Connect.{
  call, safe_close, timed_connect, is_open_fast, is_open_slow, available_bytes,
}
use librediscxx.Tcp.Buffer
use librediscxx.Tcp.Buffer.{Buffer, default_buffer_size, read_size, free_size, view}
use librediscxx.Tcp.Search.{Found, found, missed, search_delim}
use librediscxx.Tcp.Resolver.{resolve}

pub record TcpClient : Type 0 where
  -- `none` is -1
  pub fd : Option ℕ
  pub buffer : Buffer
  pub last_check_open_time : ℕ

unfoldable pub tcp_client : TcpClient
tcp_client = record {
  fd = none;
  buffer = Buffer.init default_buffer_size;
  last_check_open_time = 0;
}

close_fd : Option ℕ → World → World
close_fd none w = w
close_fd (some fd) w = safe_close w

unfoldable pub close : TcpClient → World → TcpClient × World
unfolding close_fd
close c w = (record c { fd = none; buffer = Buffer.clear c.buffer }, close_fd c.fd w)

-- A fifth of the timeout, and 10 at least.
unfoldable pub connect_timeout : ℤ → ℤ
connect_timeout (pos n) = if ltb (n / 5) 10 then pos 10 else pos (n / 5)
connect_timeout (negsuc n) = pos 10

open_socket : Option ℕ → ℤ → TcpClient → World → ℕ × TcpClient × World
open_socket none timeout c w = (w.errno, c, w)
open_socket (some fd) timeout c w =
    let (done, w') = timed_connect (connect_timeout timeout) w in
    let failed = safe_close w' in
    if done
    then (0, record c { fd = some fd; last_check_open_time = w'.clock }, w')
    else (failed.errno, c, failed)

unfoldable pub connect : Bytes → Bytes → ℤ → TcpClient → World → ℕ × TcpClient × World
unfolding open_socket
connect host port timeout c w =
    let (c₁, w₁) = close c w in
    let (e, w₂) = resolve host port w₁ in
    let (fd, w₃) = call w₂ in if e.ec == 0 then open_socket fd timeout c₁ w₃ else (e.ec, c₁, w₂)

-- The end of a call that failed: `close(); *ec = errno;`.
give_up : TcpClient → World → ℕ × TcpClient × World
give_up c w = let (c', w') = close c w in (w'.errno, c', w')

-- Both sides of the comparison are an `int`.
all_written : ℤ → ℕ → Bool
all_written n size = same_int n (to_int size)

unfoldable pub write : Bytes → ℤ → TcpClient → World → ℕ × TcpClient × World
unfolding give_up all_written
write line timeout c w =
    let (n, w') = timed_writen line timeout w in
    if all_written n (length line)
    then (0, record c { last_check_open_time = w'.clock }, w')
    else give_up c w'

-- The failing end of a read: an empty string, and the error number.
pub read_failed : TcpClient → World → Bytes × ℕ × TcpClient × World
unfolding give_up
read_failed c w = let (ec, c', w') = give_up c w in ([], ec, c', w')

pub got_bytes : Option Bytes → Bytes
got_bytes none = []
got_bytes (some got) = got

-- What a read returns of the buffer: the bytes but the delimiter.
pub read_done : ℕ → ℕ → TcpClient → World → Bytes × ℕ × TcpClient × World
read_done expect size c w =
    let (s, b) = Buffer.consume expect c.buffer in (take size s, 0, record c { buffer = b }, w)

-- The loop of `read`. A round that goes on has read a byte at least, so as much fuel as there are
-- bytes to come is enough: with no fuel no byte can come, and the round ends the call.
unfoldable pub read_loop : ℕ → ℕ → ℕ → ℕ → ℤ → TcpClient → World → Bytes × ℕ × TcpClient × World
unfolding read_failed read_done got_bytes
read_loop zero expect size to_read timeout c w =
    let b = Buffer.prepare to_read false c.buffer in
    let fail = read_failed (record c { buffer = b }) (timed_read (free_size b) timeout w).1 in
    if leb expect (read_size c.buffer) then read_done expect size c w else fail
read_loop (suc f) expect size to_read timeout c w =
    let b = Buffer.prepare to_read false c.buffer in
    let (got, w') = timed_read (free_size b) timeout w in
    let n = length (got_bytes got) in
    let fail = read_failed (record c { buffer = b }) w' in
    let more =
      read_loop f expect size ((to_read + 2 ^ 64 - n) % 2 ^ 64) timeout
        (record c { buffer = Buffer.produce (got_bytes got) b }) w' in
    if leb expect (read_size c.buffer)
    then read_done expect size c w
    else if n == 0
    then fail
    else more

-- `read(size, delim, …)`; the sizes are in size_t.
unfoldable pub read : ℕ → Bytes → ℤ → TcpClient → World → Bytes × ℕ × TcpClient × World
unfolding read_loop
read size delim timeout c w =
    let expect = (size + length delim) % 2 ^ 64 in
    read_loop (length (delivered w.recvs)) expect size
      ((expect + 2 ^ 64 - read_size c.buffer) % 2 ^ 64) timeout c w

pub offset_of : Found → ℕ
offset_of (found k) = k
offset_of (missed o) = o

pub is_found : Found → Bool
is_found (found k) = true
is_found (missed o) = false

-- The loop of `read_line`, with the same fuel: search, and read on if the delimiter is not there yet.
unfoldable pub read_line_loop :
    ℕ → Bytes → ℕ → ℤ → TcpClient → World → Bytes × ℕ × TcpClient × World
unfolding read_failed read_done got_bytes offset_of is_found
read_line_loop zero delim offset timeout c w =
    let s = search_delim delim offset (view c.buffer) in
    let b = Buffer.prepare default_buffer_size false c.buffer in
    let fail = read_failed (record c { buffer = b }) (timed_read (free_size b) timeout w).1 in
    if is_found s then read_done (offset_of s + length delim) (offset_of s) c w else fail
read_line_loop (suc f) delim offset timeout c w =
    let s = search_delim delim offset (view c.buffer) in
    let b = Buffer.prepare default_buffer_size false c.buffer in
    let (got, w') = timed_read (free_size b) timeout w in
    let fail = read_failed (record c { buffer = b }) w' in
    let more =
      read_line_loop f delim (offset_of s) timeout
        (record c { buffer = Buffer.produce (got_bytes got) b }) w' in
    if is_found s
    then read_done (offset_of s + length delim) (offset_of s) c w
    else if length (got_bytes got) == 0
    then fail
    else more

unfoldable pub read_line : Bytes → ℤ → TcpClient → World → Bytes × ℕ × TcpClient × World
unfolding read_line_loop
read_line delim timeout c w = read_line_loop (length (delivered w.recvs)) delim 0 timeout c w

check_open_interval : ℕ
check_open_interval = 180

-- `is_open`: the slow test is made once in `kCheckOpenInterval` seconds.
unfoldable pub is_open : TcpClient → World → Bool × TcpClient × World
unfolding check_open_interval
is_open c w =
    let slow = is_open_slow w in
    if not (is_open_fast c.fd)
    then (false, c, w)
    else if ltb check_open_interval (w.clock - c.last_check_open_time)
    then (slow.0, record c { last_check_open_time = w.clock }, slow.1)
    else (true, c, w)

is_positive : Option ℕ → Bool
is_positive none = false
is_positive (some n) = not (n == 0)

unfoldable pub available : TcpClient → World → Bool × World
unfolding is_positive
available c w =
    let (n, w') = available_bytes w in
    if not (read_size c.buffer == 0) then (true, w) else (is_positive n, w')
