-- ===== src/Os/World.antt =====
-- What lies outside a client. Each list holds the answers of a system call to come, in the order in
-- which the calls are made; `sent`, `waits` and `errno` are what the calls leave behind. Past the end
-- of its list a poll finds the socket ready, a `recv` finds the end of the stream, a `send` takes
-- everything, a peek finds no data yet, a name is not resolved and any other call returns 0.
use librediscxx.Base.{ℕ, ℤ, List, Bytes}

pub data PollAnswer : Type 0 where
  ready timed_out : PollAnswer
  poll_failed : ℕ → PollAnswer

-- `received []` is the end of the stream.
pub data RecvAnswer : Type 0 where
  received : Bytes → RecvAnswer
  recv_failed : ℕ → RecvAnswer

pub data SendAnswer : Type 0 where
  accepted : ℕ → SendAnswer
  send_failed : ℕ → SendAnswer

pub data CallAnswer : Type 0 where
  returned : ℕ → CallAnswer
  failed : ℕ → CallAnswer

-- What `getaddrinfo` says: an address, or an error that is one of the four which the code tells apart.
pub data LookupAnswer : Type 0 where
  address : ℕ → LookupAnswer
  bad_flags bad_family bad_socktype other_error : LookupAnswer
  system_error : ℕ → LookupAnswer

-- An entry of the resolver's cache: the endpoint and the error number.
pub record HostEntry : Type 0 where
  pub endpoint : ℕ
  pub ec : ℕ

pub record World : Type 0 where
  pub errno : ℕ
  pub polls : List PollAnswer
  pub recvs : List RecvAnswer
  pub sends : List SendAnswer
  pub peeks : List CallAnswer
  pub calls : List CallAnswer
  pub lookups : List LookupAnswer
  pub clock : ℕ
  -- the bytes that `send` has taken, and the timeouts that `poll` was given, newest first
  pub sent : Bytes
  pub waits : List ℤ
  -- the cache of the one resolver that all clients share
  pub dns_cache : List ((Bytes × Bytes) × HostEntry)

abbrev pub eintr : ℕ
eintr = 4

abbrev pub eagain : ℕ
eagain = 11

abbrev pub einval_no : ℕ
einval_no = 22

abbrev pub erange : ℕ
erange = 34

abbrev pub eprotonosupport : ℕ
eprotonosupport = 93

abbrev pub esocktnosupport : ℕ
esocktnosupport = 94

abbrev pub etimedout : ℕ
etimedout = 110

abbrev pub ehostunreach : ℕ
ehostunreach = 113

abbrev pub einprogress : ℕ
einprogress = 115
