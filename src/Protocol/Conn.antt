-- ===== src/Protocol/Conn.antt =====
-- The connection of a `RedisProtocol` (src/redis_protocol.cpp): its state, how it is opened and closed, and
-- how a line or a counted text is read. A call takes and returns the protocol object and the world.
pub mod Lines
pub mod Closing
use librediscxx.Base.{
  ℕ, ℤ, negsuc, Bool, true, false, not, ◌&&◌, [], ◌∷◌, Option, none, some, Bytes, ◌==◌,
  if◌then◌else◌,
}
use librediscxx.Message.{Message, connect_failed, read_failed, not_connected, empty_line}
use librediscxx.Os.World.{World}
use librediscxx.Tcp.Client
use librediscxx.Tcp.Client.{TcpClient, tcp_client}

pub record Protocol : Type 0 where
  pub host : Bytes
  pub port : Bytes
  pub error : Message
  pub tcp : TcpClient
  pub timeout : ℤ
  pub blocking_mode : Bool
  pub transaction_mode : Bool

-- `s_redis_line_end`
abbrev pub line_end : Bytes
line_end = 13 ∷ 10 ∷ []

-- The constructor.
unfoldable pub protocol : Bytes → Bytes → ℤ → Protocol
unfolding tcp_client
protocol host port timeout = record {
  host = host;
  port = port;
  error = Message.text [];
  tcp = tcp_client;
  timeout = timeout;
  blocking_mode = false;
  transaction_mode = false;
}

unfoldable pub close : Protocol → World → Protocol × World
unfolding Client.close
close p w =
    let (c, w') = Client.close p.tcp w in
    (record p { tcp = c; blocking_mode = false; transaction_mode = false }, w')

-- The end of every hard error: `close(); error_ = …;`.
unfoldable pub disconnect : (Bytes → Bytes → Message) → Protocol → World → Protocol × World
unfolding close
disconnect m p w = let (p', w') = close p w in (record p' { error = m p.host p.port }, w')

unfoldable pub connect : Protocol → World → Bool × Protocol × World
unfolding Client.connect disconnect
connect p w =
    let (ec, c, w') = Client.connect p.host p.port p.timeout p.tcp w in
    let p' = record p { tcp = c } in
    let (p'', w'') = disconnect (λ h q. connect_failed h q ec) p' w' in
    if ec == 0 then (true, p', w') else (false, p'', w'')

-- What `assure_connect` sets `*status` to: 0, 1 and -1.
pub data ConnectStatus : Type 0 where
  was_open now_connected not_open : ConnectStatus

unfoldable pub assure_connect : Protocol → World → ConnectStatus × Protocol × World
unfolding Client.is_open connect
assure_connect p w =
    let (alive, c, w₁) = Client.is_open p.tcp w in
    let (ok, p₂, w₂) = connect (record p { tcp = c }) w₁ in
    if alive
    then (was_open, record p { tcp = c }, w₁)
    else if ok
    then (now_connected, p₂, w₂)
    else (not_open, p₂, w₂)

unfoldable pub is_open : Protocol → World → Bool × Protocol × World
unfolding Client.is_open
is_open p w = let (b, c, w') = Client.is_open p.tcp w in (b, record p { tcp = c }, w')

unfoldable pub available : Protocol → World → Bool × World
unfolding Client.available
available p w = Client.available p.tcp w

unfoldable pub check_connect : Protocol → World → Bool × Protocol × World
unfolding is_open
check_connect p w =
    let (b, p', w') = is_open p w in
    if b then (true, p', w') else (false, record p' { error = not_connected p.host p.port }, w')

-- `blocking_mode_ ? (-1) : timeout_`
pub read_timeout : Protocol → ℤ
read_timeout p = if p.blocking_mode then negsuc 0 else p.timeout

is_empty : Bytes → Bool
is_empty [] = true
is_empty (c ∷ s) = false

-- A call that fails with a hard error.
unfoldable pub fail {ℓ} :
    {A : Type ℓ} → (Bytes → Bytes → Message) → Protocol → World → Option A × Protocol × World
unfolding disconnect
fail m p w = let (p', w') = disconnect m p w in (none, p', w')

-- The two tests that follow every read.
pub checked : Bytes → ℕ → Protocol → World → Option Bytes × Protocol × World
unfolding fail is_empty
checked line ec p w =
    if not (ec == 0)
    then fail (λ h q. read_failed h q ec) p w
    else if is_empty line
    then fail empty_line p w
    else (some line, p, w)

unfoldable pub read_line : Protocol → World → Option Bytes × Protocol × World
unfolding Client.read_line read_timeout checked
read_line p w =
    let (line, ec, c, w') = Client.read_line line_end (read_timeout p) p.tcp w in
    checked line ec (record p { tcp = c }) w'

unfoldable pub read : ℕ → Protocol → World → Option Bytes × Protocol × World
unfolding Client.read read_timeout checked
read count p w =
    let (line, ec, c, w') = Client.read count line_end (read_timeout p) p.tcp w in
    checked line ec (record p { tcp = c }) w'
