-- ===== src/Redis2/Lists.antt =====
-- The operations of `Redis2` on lists (src/redis.cpp).
use librediscxx.Base.{
  ℤ, Bool, true, false, List, [], ◌∷◌, ◌++◌, Option, none, some, Bytes, codes, if◌then◌else◌,
}
use librediscxx.Os.World.{World}
use librediscxx.Cmd.Command.{KCommand}
use librediscxx.Cmd.Output.{
  MBulks, RedisOutput, RedisCommand, is_nil_mbulks, is_nil_smbulks, get_i, get_bulk, get_mbulks,
}
use librediscxx.Protocol.Decimal.{show_int}
use librediscxx.Redis2.State.{
  Redis2, Call, Answer, exec, value_or_error, query, status_ok, bulk_or_nil, command_of,
  set_blocking_mode, assure_connect,
}

-- A command that may block: the blocking mode is set for it, and set back.
blocking : RedisCommand → Redis2 → World → Answer
unfolding assure_connect exec set_blocking_mode
blocking c r w =
    let (ok, r₁, w₁) = assure_connect r w in
    let blocked = r₁.proto.blocking_mode in
    let (a, r₂, w₂) = exec c (set_blocking_mode true r₁) w₁ in
    if ok then (a, set_blocking_mode blocked r₂, w₂) else (none, r₁, w₁)

-- A key and a member: `none` if the time has expired.
popped_pair : RedisOutput → MBulks → Option (Option (Bytes × Bytes))
popped_pair o (some key ∷ some member ∷ []) = some (some (key, member))
popped_pair o _ = none

popped : RedisOutput → Option (Option (Bytes × Bytes))
unfolding get_mbulks is_nil_mbulks popped_pair
popped o = elim (get_mbulks o) [
  | some mb ↦ popped_pair o mb
  | none ↦ if is_nil_mbulks o then some none else none
]

pop_command : Bool → KCommand
pop_command true = KCommand.blpop
pop_command false = KCommand.brpop

unfoldable pub bxpop : Bool → List Bytes → ℤ → Redis2 → World → Call (Option (Bytes × Bytes))
unfolding blocking popped command_of value_or_error show_int pop_command
bxpop is_blpop keys timeout r w =
    value_or_error popped
      (blocking (command_of (pop_command is_blpop) (keys ++ show_int timeout ∷ [])) r w)

unfoldable pub lindex : Bytes → ℤ → Redis2 → World → Call (Option Bytes)
unfolding query bulk_or_nil show_int
lindex key index = query bulk_or_nil KCommand.lindex (key ∷ show_int index ∷ [])

unfoldable pub linsert : Bytes → Bool → Bytes → Bytes → Redis2 → World → Call ℤ
unfolding query get_i
linsert key before pivot value =
    query get_i KCommand.linsert
      (key ∷ (if before then codes "BEFORE" else codes "AFTER") ∷ pivot ∷ value ∷ [])

unfoldable pub llen : Bytes → Redis2 → World → Call ℤ
unfolding query get_i
llen key = query get_i KCommand.llen (key ∷ [])

unfoldable pub lpop : Bytes → Redis2 → World → Call (Option Bytes)
unfolding query bulk_or_nil
lpop key = query bulk_or_nil KCommand.lpop (key ∷ [])

unfoldable pub lpush : Bytes → Bytes → Redis2 → World → Call ℤ
unfolding query get_i
lpush key value = query get_i KCommand.lpush (key ∷ value ∷ [])

unfoldable pub lpush_values : Bytes → List Bytes → Redis2 → World → Call ℤ
unfolding query get_i
lpush_values key values = query get_i KCommand.lpush (key ∷ values)

unfoldable pub lpushx : Bytes → Bytes → Redis2 → World → Call ℤ
unfolding query get_i
lpushx key value = query get_i KCommand.lpushx (key ∷ value ∷ [])

unfoldable pub lrange : Bytes → ℤ → ℤ → Redis2 → World → Call MBulks
unfolding query get_mbulks show_int
lrange key start stop = query get_mbulks KCommand.lrange (key ∷ show_int start ∷ show_int stop ∷ [])

unfoldable pub lrem : Bytes → ℤ → Bytes → Redis2 → World → Call ℤ
unfolding query get_i show_int
lrem key count value = query get_i KCommand.lrem (key ∷ show_int count ∷ value ∷ [])

unfoldable pub lset : Bytes → ℤ → Bytes → Redis2 → World → Call (Unit {0})
unfolding query status_ok show_int
lset key index value = query status_ok KCommand.lset (key ∷ show_int index ∷ value ∷ [])

unfoldable pub ltrim : Bytes → ℤ → ℤ → Redis2 → World → Call (Unit {0})
unfolding query status_ok show_int
ltrim key start stop = query status_ok KCommand.ltrim (key ∷ show_int start ∷ show_int stop ∷ [])

unfoldable pub rpop : Bytes → Redis2 → World → Call (Option Bytes)
unfolding query bulk_or_nil
rpop key = query bulk_or_nil KCommand.rpop (key ∷ [])

unfoldable pub rpush : Bytes → Bytes → Redis2 → World → Call ℤ
unfolding query get_i
rpush key value = query get_i KCommand.rpush (key ∷ value ∷ [])

unfoldable pub rpush_values : Bytes → List Bytes → Redis2 → World → Call ℤ
unfolding query get_i
rpush_values key values = query get_i KCommand.rpush (key ∷ values)

unfoldable pub rpushx : Bytes → Bytes → Redis2 → World → Call ℤ
unfolding query get_i
rpushx key value = query get_i KCommand.rpushx (key ∷ value ∷ [])

unfoldable pub blpop : List Bytes → ℤ → Redis2 → World → Call (Option (Bytes × Bytes))
unfolding bxpop
blpop keys timeout = bxpop true keys timeout

unfoldable pub brpop : List Bytes → ℤ → Redis2 → World → Call (Option (Bytes × Bytes))
unfolding bxpop
brpop keys timeout = bxpop false keys timeout

popped_bulk : RedisOutput → Option (Option Bytes)
unfolding get_bulk is_nil_smbulks
popped_bulk o = elim (get_bulk o) [
  | some s ↦ some (some s)
  | none ↦ if is_nil_smbulks o then some none else none
]

unfoldable pub brpoplpush : Bytes → Bytes → ℤ → Redis2 → World → Call (Option Bytes)
unfolding blocking popped_bulk command_of value_or_error show_int
brpoplpush source destination timeout r w =
    value_or_error popped_bulk
      (blocking (command_of KCommand.brpoplpush (source ∷ destination ∷ show_int timeout ∷ [])) r w)

unfoldable pub rpoplpush : Bytes → Bytes → Redis2 → World → Call (Option Bytes)
unfolding query bulk_or_nil
rpoplpush source destination = query bulk_or_nil KCommand.rpoplpush (source ∷ destination ∷ [])
