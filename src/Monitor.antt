-- ===== src/Monitor.antt =====
-- The monitor of a server (tools/redis_monitor.cpp): two connections, the counts of commands, and what is
-- printed.
pub mod Line
pub mod Reading
use librediscxx.Base.{
  ◌==◌, neg_ℤ, not, ℕ, zero, suc, ◌+◌, ◌%◌, ◌^◌, ◌/◌, ℤ, pos, Bool, true, false, Option, none, some,
  List, [], ◌∷◌, ◌++◌, Bytes, codes, map, ltb, ◌||◌, ◌&&◌, to_int, if◌then◌else◌,
}
use librediscxx.Os.World.{World}
use librediscxx.Cmd.Command.{KCommand}
use librediscxx.Cmd.Output.{
  RedisOutput, RedisCommand, redis_command, get_status, get_bulk, is_status_ok, is_status_pong,
}
use librediscxx.Protocol.Conn
use librediscxx.Protocol.Conn.{Protocol, ConnectStatus, protocol}
use librediscxx.Protocol.Exec.{exec_commandv}
use librediscxx.Protocol.Decimal.{show_int}
use librediscxx.RedisBase.Helpers.{less}
use librediscxx.Monitor.Line.{Parsed, counted, passed, past_end, parse_line}

-- The globals. A count is the 32 bits of an `int`; `out` and `err` have the lines printed.
pub record Monitor : Type 0 where
  pub redis_host : Bytes
  pub redis_port : Bytes
  pub redis_timeout : ℤ
  pub monitoring : Option Protocol
  pub informing : Option Protocol
  pub cmd_db_map : List ((Bytes × ℤ) × ℕ)
  pub cmd_map : List (Bytes × ℕ)
  pub out : List Bytes
  pub err : List Bytes

-- The order of `int`.
unfoldable pub less_int : ℤ → ℤ → Bool
less_int (ℤ.negsuc m) (pos n) = true
less_int (ℤ.negsuc m) (ℤ.negsuc n) = ltb n m
less_int (pos m) (pos n) = ltb m n
less_int (pos m) (ℤ.negsuc n) = false

-- The order of pairs.
unfoldable pub less_cmd_db : Bytes × ℤ → Bytes × ℤ → Bool
unfolding less less_int
less_cmd_db (c, d) (c', d') = if less c c' then true else if less c' c then false else less_int d d'

-- `map[key]++`
unfoldable pub increment {ℓ} : {K : Type ℓ} → (K → K → Bool) → K → List (K × ℕ) → List (K × ℕ)
increment lt k [] = (k, 1) ∷ []
increment lt k ((j, n) ∷ m) =
    let rest = increment lt k m in
    if lt k j
    then (k, 1) ∷ (j, n) ∷ m
    else if lt j k
    then (j, n) ∷ rest
    else (j, (n + 1) % 2 ^ 32) ∷ m

unfoldable pub count_command : Bytes → ℤ → Monitor → Monitor
unfolding increment less less_cmd_db
count_command cmd db m = record m {
  cmd_db_map = increment less_cmd_db (cmd, db) m.cmd_db_map;
  cmd_map = increment less cmd m.cmd_map;
}

-- `none` where the code reads past the end of the line.
unfoldable pub apply_parsed : Parsed → Monitor → Option Monitor
unfolding count_command
apply_parsed (counted cmd db) m = some (count_command cmd db m)
apply_parsed passed m = some m
apply_parsed past_end m = none

-- `s_monitor.reset()` and `s_info.reset()`: the destructor closes the connection.
unfoldable pub closed : Protocol → World → World
unfolding Conn.close
closed p w = (Conn.close p w).1

unfoldable pub say : Bytes → Monitor → Monitor
say line m = record m { out = m.out ++ (line ∷ []) }

unfoldable pub complain : Bytes → Monitor → Monitor
complain line m = record m { err = m.err ++ (line ∷ []) }

-- What `<<` prints of `c_str()`: the bytes before the first NUL.
unfoldable pub c_string : Bytes → Bytes
c_string [] = []
c_string (c ∷ s) = let rest = c_string s in if c == 0 then [] else c ∷ rest

is_connected : ConnectStatus → Bool
is_connected Conn.not_open = false
is_connected _ = true

-- `/ 3` on `int`
third : ℤ → ℤ
third (pos n) = pos (n / 3)
third (ℤ.negsuc n) = neg_ℤ (pos ((n + 1) / 3))

module _ (trim : Bytes → Bytes) (split : Bytes → List Bytes) where
  -- What a call of `exec_command(&command, name, ap)` gives.
  unfoldable pub ask : Bytes → Protocol → World → Bool × RedisCommand × Protocol × World
  unfolding exec_commandv redis_command
  ask name p w = exec_commandv trim split name (redis_command KCommand.noop) p w

  -- A new connection, or none.
  unfoldable pub connected : Monitor → World → Option Protocol × Monitor × World
  unfolding Conn.assure_connect is_connected complain closed
  connected m w =
      let (status, p, w') =
        Conn.assure_connect (protocol m.redis_host m.redis_port m.redis_timeout) w in
      if is_connected status
      then (some p, m, w')
      else (none, complain (codes "connection failed") m, closed p w')

  monitored : Option Protocol × Monitor × World → Bool × Monitor × World
  unfolding ask closed complain is_status_ok get_status
  monitored (none, m, w) = (false, record m { monitoring = none }, w)
  monitored (some p, m, w) =
      let (ok, c, p', w') = ask (codes "MONITOR") p w in
      if not ok
      then (false, complain (codes "MONITOR failed") (record m { monitoring = none }), closed p' w')
      else if not (is_status_ok c.out)
      then (
        false,
        complain (codes "MONITOR response is not OK") (record m { monitoring = none }),
        closed p' w',
      )
      else (true, complain (codes "OK") (record m { monitoring = some p' }), w')

  unfoldable pub init_monitor : Monitor → World → Monitor × World
  unfolding connected monitored
  init_monitor m w = let (ok, m', w') = monitored (connected m w) in (m', w')

  -- The loop of `monitor`: the signal handler sets the stop flag before the test number `rounds`.
  unfoldable pub monitor_loop : ℕ → Protocol → Monitor → World → Option (Monitor × World)
  unfolding Conn.available Conn.read_line apply_parsed parse_line closed
  monitor_loop zero p m w =
      let (_, w') = Conn.available p w in some (record m { monitoring = some p }, w')
  monitor_loop (suc rounds) p m w =
      let (more, w₁) = Conn.available p w in
      let (line, p₂, w₂) = Conn.read_line p w₁ in
      elim more [
        | false ↦ some (record m { monitoring = some p }, w₁)
        | true ↦ elim line [
          | none ↦ some (record m { monitoring = none }, closed p₂ w₂)
          | some l ↦
              let (parsed, errno) = parse_line l w₂.errno in
              elim (apply_parsed parsed m) [
                | none ↦ none
                | some m' ↦ monitor_loop rounds p₂ m' (record w₂ { errno = errno })
              ]
        ]
      ]

  -- `if (!s_monitor) init_monitor();`
  unfoldable pub with_monitor : Monitor → World → Monitor × World
  unfolding init_monitor
  with_monitor m w = elim m.monitoring [ none ↦ init_monitor m w | some p ↦ (m, w) ]

  monitor_with : ℕ → Option Protocol → Monitor → World → Option (Monitor × World)
  unfolding monitor_loop
  monitor_with rounds none m w = some (m, w)
  monitor_with rounds (some p) m w = monitor_loop rounds p m w

  unfoldable pub monitor : ℕ → Monitor → World → Option (Monitor × World)
  unfolding with_monitor monitor_with
  monitor rounds m w = let (m', w') = with_monitor m w in monitor_with rounds m'.monitoring m' w'

  unfoldable pub print_monitor : Monitor → Monitor
  unfolding show_int
  print_monitor m = record m {
    out =
        m.out
        ++ (map
              (λ e.
                b'['
                ∷ (e.0.0 ++ (b' ' ∷ (show_int e.0.1 ++ (codes "]:" ++ show_int (to_int e.1))))))
              m.cmd_db_map
            ++ map (λ e. b'[' ∷ (e.0 ++ (codes "]:" ++ show_int (to_int e.1)))) m.cmd_map);
    cmd_db_map = [];
    cmd_map = [];
  }

  unfoldable pub init_info : Monitor → World → Monitor × World
  unfolding connected
  init_info m w = let (p, m', w') = connected m w in (record m' { informing = p }, w')

  -- `if (!s_info) init_info();`
  unfoldable pub with_info : Monitor → World → Monitor × World
  unfolding init_info
  with_info m w = elim m.informing [ none ↦ init_info m w | some p ↦ (m, w) ]

  drop_info : Bytes → Protocol → Monitor → World → Monitor × World
  unfolding complain closed
  drop_info why p m w = (complain why (record m { informing = none }), closed p w)

  info_of : Option Protocol → Monitor → World → Monitor × World
  unfolding ask drop_info say get_bulk c_string
  info_of none m w = (m, w)
  info_of (some p) m w =
      let (ok, c, p', w') = ask (codes "INFO") p w in
      if not ok then drop_info (codes "INFO failed") p' m w' else elim (get_bulk c.out) [
        | none ↦ drop_info (codes "INFO response is not OK") p' m w'
        | some text ↦ (say (c_string text) (record m { informing = some p' }), w')
      ]

  unfoldable pub info : Monitor → World → Monitor × World
  unfolding with_info info_of
  info m w = let (m', w') = with_info m w in info_of m'.informing m' w'

  -- The loop of `ping`: whether all rounds were answered by PONG.
  unfoldable pub ping_loop : ℕ → RedisCommand → Protocol → Monitor → World → Bool × Monitor × World
  unfolding exec_commandv drop_info is_status_pong
  ping_loop zero c p m w = (true, record m { informing = some p }, w)
  ping_loop (suc left) c₀ p m w =
      let (ok, c, p', w') = exec_commandv trim split (codes "PING") c₀ p w in
      let rest = ping_loop left c p' m w' in
      let (failed, w₁) = drop_info (codes "PING failed") p' m w' in
      let (refused, w₂) = drop_info (codes "PING response is not PONG") p' m w' in
      if not ok
      then (false, failed, w₁)
      else if not (is_status_pong c.out)
      then (false, refused, w₂)
      else rest

  ping_of : ℕ → Option Protocol → Monitor → World → Monitor × World
  unfolding ping_loop say show_int redis_command third
  ping_of elapsed none m w = (m, w)
  ping_of elapsed (some p) m w =
      let (ok, m', w') = ping_loop 3 (redis_command KCommand.noop) p m w in
      if ok then (say (codes "[PING]:" ++ show_int (third (to_int elapsed))) m', w') else (m', w')

  -- `elapsed` is what the clock says of the three rounds, in milliseconds.
  unfoldable pub ping : ℕ → Monitor → World → Monitor × World
  unfolding with_info ping_of
  ping elapsed m w = let (m', w') = with_info m w in ping_of elapsed m'.informing m' w'

  -- `if (redis_monitor) { monitor(); print_monitor(); }`
  watched : Bool → ℕ → Monitor → World → Option (Monitor × World)
  unfolding monitor print_monitor
  watched false rounds m w = some (m, w)
  watched true rounds m w = elim (monitor rounds m w) [
    | none ↦ none
    | some (m', w') ↦ some (print_monitor m', w')
  ]

  -- One cycle, up to the timer: `now` is `time(NULL)`.
  unfoldable pub update : Bool → ℕ → ℕ → ℕ → Monitor → World → Option (Monitor × World)
  unfolding watched info ping say show_int
  update redis_monitor now rounds elapsed m w =
      let started =
        say (m.redis_host ++ (b':' ∷ m.redis_port))
          (say (show_int (pos now)) (say (codes "{begin}") m)) in
      elim (watched redis_monitor rounds started w) [
        | none ↦ none
        | some (m₁, w₁) ↦
            let (m₂, w₂) = info m₁ w₁ in
            let (m₃, w₃) = ping elapsed m₂ w₂ in some (say (codes "{end}") m₃, w₃)
      ]
