-- ===== src/Os/Connect.antt =====
-- Names, connecting, closing and the tests of an open socket, of src/os.cpp.
use librediscxx.Base.{
  ℕ, zero, suc, ◌/◌, ◌%◌, ℤ, Bool, true, false, not, List, [], ◌∷◌, Option, none, some, ◌==◌,
  if◌then◌else◌,
}
use librediscxx.Os.World.{
  World, CallAnswer, returned, failed, LookupAnswer, address, bad_flags, bad_family, bad_socktype,
  other_error, system_error, eintr, eagain, einval_no, eprotonosupport, esocktnosupport,
  ehostunreach, einprogress,
}
use librediscxx.Os.Socket.{poll_read}

answer_from : List CallAnswer → World → Option ℕ × World
answer_from [] w = (some 0, w)
answer_from (returned n ∷ answers) w = (some n, record w { calls = answers })
answer_from (failed e ∷ answers) w = (none, record w { calls = answers; errno = e })

-- The next answer of a call that is none of those with a list of their own; `none` is -1.
unfoldable pub call : World → Option ℕ × World
unfolding answer_from
call w = answer_from w.calls w

retry_from : List CallAnswer → World → Option ℕ × World
retry_from [] w = (some 0, w)
retry_from (returned n ∷ answers) w = (some n, record w { calls = answers })
retry_from (failed e ∷ answers) w =
    let w' = record w { calls = answers; errno = e } in
    if e == eintr then retry_from answers w' else (none, w')

-- `do ret = call(...); while (ret==-1 && errno==EINTR)`.
unfoldable pub call_retry : World → Option ℕ × World
unfolding retry_from
call_retry w = retry_from w.calls w

-- `ioctl(fd, FIONREAD, &value)`.
unfoldable pub available_bytes : World → Option ℕ × World
unfolding call
available_bytes w = call w

-- Is O_NONBLOCK (04000) among the flags?
is_nonblock : ℕ → Bool
is_nonblock flags = flags / 2048 % 2 == 1

is_as_wanted : Bool → Bool → Bool
is_as_wanted true b = b
is_as_wanted false b = not b

is_done : Option ℕ → Bool
is_done none = false
is_done (some r) = true

-- F_SETFL is called only if the flag is not yet as wanted.
change_flag : Bool → Option ℕ → World → Bool × World
unfolding call is_nonblock is_as_wanted is_done
change_flag wanted none w = (false, w)
change_flag wanted (some flags) w =
    let (r, w') = call w in
    if is_as_wanted wanted (is_nonblock flags) then (true, w) else (is_done r, w')

-- `set_nonblock(fd)==0` and `set_block(fd)==0`.
unfoldable pub set_nonblock : World → Bool × World
unfolding call change_flag
set_nonblock w = let (flags, w') = call w in change_flag true flags w'

unfoldable pub set_block : World → Bool × World
unfolding call change_flag
set_block w = let (flags, w') = call w in change_flag false flags w'

-- The tests of a peeked `recv`: 0 is the end of the stream, and no error but EAGAIN leaves it open.
peek_from : List CallAnswer → World → Bool × World
peek_from [] w = (true, record w { errno = eagain })
peek_from (returned n ∷ ps) w = (not (n == 0), record w { peeks = ps })
peek_from (failed e ∷ ps) w =
    let w' = record w { peeks = ps; errno = e } in
    if e == eintr then peek_from ps w' else (e == eagain, w')

unfoldable pub is_open_slow : World → Bool × World
unfolding peek_from
is_open_slow w = peek_from w.peeks w

-- A client with no socket has `fd` -1.
unfoldable pub is_open_fast : Option ℕ → Bool
is_open_fast none = false
is_open_fast (some fd) = true

-- `getsockopt(SO_ERROR)` returns the pending error, or fails.
socket_error : Option ℕ → World → Bool × World
socket_error none w = (false, w)
socket_error (some zero) w = (true, w)
socket_error (some (suc e)) w = (false, record w { errno = suc e })

-- `connect` has begun: wait until the socket answers.
await_connect : ℤ → World → Bool × World
unfolding poll_read call socket_error
await_connect timeout w =
    let (is_ready, w') = poll_read timeout w in
    let (err, w'') = call w' in if is_ready then socket_error err w'' else (false, w')

begin_connect : ℤ → Option ℕ → World → Bool × World
unfolding await_connect
begin_connect timeout (some r) w = (true, w)
begin_connect timeout none w =
    if w.errno == einprogress then await_connect timeout w else (false, w)

-- `timed_connect(fd, addr, addrlen, timeout)==0`.
unfoldable pub timed_connect : ℤ → World → Bool × World
unfolding set_nonblock call_retry begin_connect
timed_connect timeout w =
    let (done, w₁) = set_nonblock w in
    let (r, w₂) = call_retry w₁ in if done then begin_connect timeout r w₂ else (false, w₁)

unfoldable pub safe_close : World → World
unfolding call_retry
safe_close w = (call_retry w).1

resolve_from : List LookupAnswer → World → Option ℕ × World
resolve_from [] w = (none, record w { errno = ehostunreach })
resolve_from (address a ∷ ls) w = (some a, record w { lookups = ls })
resolve_from (bad_flags ∷ ls) w = (none, record w { lookups = ls; errno = einval_no })
resolve_from (bad_family ∷ ls) w = (none, record w { lookups = ls; errno = eprotonosupport })
resolve_from (bad_socktype ∷ ls) w = (none, record w { lookups = ls; errno = esocktnosupport })
resolve_from (other_error ∷ ls) w = (none, record w { lookups = ls; errno = ehostunreach })
resolve_from (system_error e ∷ ls) w = (none, record w { lookups = ls; errno = e })

-- `resolve_host`: the first address, or `none` for -1.
unfoldable pub resolve_host : World → Option ℕ × World
unfolding resolve_from
resolve_host w = resolve_from w.lookups w
