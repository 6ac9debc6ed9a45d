-- ===== src/Redis2/State.antt =====
-- The state of a `Redis2` client and what its operations share (src/redis.cpp). An operation takes
-- and returns the client and the world.
pub mod Selecting
pub mod Asking
use librediscxx.Base.{
  ℕ, zero, suc, ℤ, pos, negsuc, Bool, true, false, not, ◌&&◌, List, [], ◌∷◌, ◌++◌, Option, none,
  some, Bytes, if◌then◌else◌,
}
use librediscxx.Message.{Message, expect_but_got, einval}
use librediscxx.Os.World.{World}
use librediscxx.Cmd.Command.{KCommand, CommandInfo}
use librediscxx.Cmd.Input.{push_args}
use librediscxx.Cmd.Output.{
  RedisOutput, RedisCommand, redis_command, reply_type, is_status_ok, is_status_pong, is_nil_bulk,
  get_bulk,
}
use librediscxx.Protocol.Decimal.{show_int}
use librediscxx.Protocol.Conn
use librediscxx.Protocol.Conn.{Protocol, ConnectStatus, was_open, now_connected, not_open, protocol}
use librediscxx.Protocol.Conn.{Protocol}
use librediscxx.Protocol.Exec

pub record Redis2 : Type 0 where
  pub db_index : ℤ
  pub db_index_select_failure : Bool
  pub transaction_cmds : List RedisCommand
  pub proto : Protocol

-- An operation succeeds, returns false, or throws `boost::bad_lexical_cast`.
pub data Result {ℓ} (A : Type ℓ) : Type ℓ where
  done : A → Result A
  failed thrown : Result A

abbrev pub Call {ℓ} : Type ℓ → Type ℓ
Call A = Result A × Redis2 × World

-- What boost::lexical_cast makes of doubles and their texts.
pub record Doubles : Type 1 where
  pub Double : Type 0
  pub print : Double → Bytes
  pub parse : Bytes → Option Double

-- The constructor.
unfoldable pub redis2 : Bytes → Bytes → ℤ → ℤ → Redis2
unfolding protocol
redis2 host port db_index timeout_ms = record {
  db_index = db_index;
  db_index_select_failure = true;
  transaction_cmds = [];
  proto = protocol host port timeout_ms;
}

unfoldable pub is_zero : ℤ → Bool
is_zero (pos zero) = true
is_zero _ = false

unfoldable pub on_reset : Redis2 → Redis2
unfolding is_zero
on_reset r = record r {
  db_index_select_failure = if is_zero r.db_index then r.db_index_select_failure else true;
  transaction_cmds = [];
}

unfoldable pub last_error : Message → Redis2 → Redis2
last_error m r = record r { proto = record r.proto { error = m } }

unfoldable pub on_reply_type_error : RedisCommand → Redis2 → Redis2
unfolding last_error reply_type
on_reply_type_error c r = last_error (expect_but_got c.inp.info.reply_type (reply_type c.out)) r

-- `RedisCommand c(…); c.push_arg(…); …`
unfoldable pub command_of : KCommand → List Bytes → RedisCommand
unfolding redis_command push_args
command_of cmd args = let c = redis_command cmd in record c { inp = push_args args c.inp }

is_not_open : ConnectStatus → Bool
is_not_open not_open = true
is_not_open _ = false

is_now_connected : ConnectStatus → Bool
is_now_connected now_connected = true
is_now_connected _ = false

-- `select`, once the command has been executed.
pub after_select : ℤ → RedisCommand → Redis2 → World → Call (Unit {0})
unfolding on_reply_type_error is_status_ok
after_select index c r w =
    let r' = record r { db_index = index } in
    if is_status_ok c.out
    then (done tt, record r' { db_index_select_failure = false }, w)
    else (failed, on_reply_type_error c (record r' { db_index_select_failure = true }), w)

unfoldable pub select : ℤ → Redis2 → World → Call (Unit {0})
unfolding Conn.assure_connect Exec.exec_command command_of is_not_open after_select show_int
select index r w =
    let (status, p₁, w₁) = Conn.assure_connect r.proto w in
    let (ok, c, p₂, w₂) =
      Exec.exec_command (command_of KCommand.select (show_int index ∷ [])) p₁ w₁ in
    if is_not_open status
    then (failed, record r { proto = p₁ }, w₁)
    else if ok
    then after_select index c (record r { proto = p₂ }) w₂
    else (failed, record r { proto = p₂ }, w₂)

unfoldable pub succeeded {ℓ} : {A : Type ℓ} → Result A → Bool
succeeded (done a) = true
succeeded _ = false

-- `if (db_index_ && db_index_select_failure_)`
unfoldable pub ensure_selected : Redis2 → World → Bool × Redis2 × World
unfolding is_zero select succeeded
ensure_selected r w =
    let (selected, r', w') = select r.db_index r w in
    if not (is_zero r.db_index) && r.db_index_select_failure
    then (succeeded selected, r', w')
    else (true, r, w)

unfoldable pub assure_connect : Redis2 → World → Bool × Redis2 × World
unfolding Conn.assure_connect on_reset is_not_open is_now_connected ensure_selected
assure_connect r w =
    let (status, p, w₁) = Conn.assure_connect r.proto w in
    let r₁ = record r { proto = p } in
    if is_not_open status
    then (false, r₁, w₁)
    else ensure_selected (if is_now_connected status then on_reset r₁ else r₁) w₁

abbrev pub Answer : Type 0
Answer = Option RedisCommand × Redis2 × World

-- `if (!proto_->exec_command(&c)) return false;`
unfoldable pub exec : RedisCommand → Redis2 → World → Answer
unfolding Exec.exec_command
exec c r w =
    let (ok, c', p, w') = Exec.exec_command c r.proto w in
    (if ok then some c' else none, record r { proto = p }, w')

-- The beginning of an operation: connect, then execute the command.
unfoldable pub ask : RedisCommand → Redis2 → World → Answer
unfolding assure_connect exec
ask c r w =
    let (ok, r₁, w₁) = assure_connect r w in
    let (a, r₂, w₂) = exec c r₁ w₁ in if ok then (a, r₂, w₂) else (none, r₁, w₁)

-- The end of an operation: the value that the reply holds, or the error that it holds none.
unfoldable pub value_or_error {ℓ} : {A : Type ℓ} → (RedisOutput → Option A) → Answer → Call A
unfolding on_reply_type_error
value_or_error get (none, r, w) = (failed, r, w)
value_or_error get (some c, r, w) = elim (get c.out) [
  | none ↦ (failed, on_reply_type_error c r, w)
  | some a ↦ (done a, r, w)
]

unfoldable pub query {ℓ} :
    {A : Type ℓ} → (RedisOutput → Option A) → KCommand → List Bytes → Redis2 → World → Call A
unfolding ask value_or_error command_of
query get cmd args r w = value_or_error get (ask (command_of cmd args) r w)

-- `CHECK_EXPR`
unfoldable pub check_expr {ℓ} :
    {A : Type ℓ} → Bool → (Redis2 → World → Call A) → Redis2 → World → Call A
unfolding last_error
check_expr ok op r w = if ok then op r w else (failed, last_error einval r, w)

-- `CHECK_STATUS_OK`, `CHECK_STATUS_PONG` and `GET_BULK_REPLY`, which tells a nil bulk from an error.
unfoldable pub status_ok : RedisOutput → Option (Unit {0})
unfolding is_status_ok
status_ok o = if is_status_ok o then some tt else none

unfoldable pub status_pong : RedisOutput → Option (Unit {0})
unfolding is_status_pong
status_pong o = if is_status_pong o then some tt else none

unfoldable pub bulk_or_nil : RedisOutput → Option (Option Bytes)
unfolding get_bulk is_nil_bulk
bulk_or_nil o = elim (get_bulk o) [
  | some s ↦ some (some s)
  | none ↦ if is_nil_bulk o then some none else none
]

-- A bulk that holds a double.
unfoldable pub double_of : (D : Doubles) → Answer → Call (D.Double)
unfolding get_bulk on_reply_type_error
double_of D (none, r, w) = (failed, r, w)
double_of D (some c, r, w) = elim (get_bulk c.out) [
  | none ↦ (failed, on_reply_type_error c r, w)
  | some s ↦ elim (D.parse s) [ none ↦ (thrown, r, w) | some d ↦ (done d, r, w) ]
]

-- One key or member and one value in turn.
unfoldable pub interleave {ℓ} : {A : Type ℓ} → List A → List A → List A
interleave (x ∷ xs) (y ∷ ys) = x ∷ y ∷ interleave xs ys
interleave _ _ = []

-- What the other operations pass on to the protocol object.
unfoldable pub connect : Redis2 → World → Bool × Redis2 × World
unfolding Conn.connect
connect r w = let (ok, p, w') = Conn.connect r.proto w in (ok, record r { proto = p }, w')

unfoldable pub close : Redis2 → World → Redis2 × World
unfolding Conn.close
close r w = let (p, w') = Conn.close r.proto w in (record r { proto = p }, w')

unfoldable pub is_open : Redis2 → World → Bool × Redis2 × World
unfolding Conn.is_open
is_open r w = let (b, p, w') = Conn.is_open r.proto w in (b, record r { proto = p }, w')

unfoldable pub check_connect : Redis2 → World → Bool × Redis2 × World
unfolding Conn.check_connect
check_connect r w = let (b, p, w') = Conn.check_connect r.proto w in (b, record r { proto = p }, w')

unfoldable pub available : Redis2 → World → Bool × World
unfolding Conn.available
available r w = Conn.available r.proto w

unfoldable pub set_blocking_mode : Bool → Redis2 → Redis2
set_blocking_mode b r = record r { proto = record r.proto { blocking_mode = b } }
