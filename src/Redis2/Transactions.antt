-- ===== src/Redis2/Transactions.antt =====
-- The operations of `Redis2` on any command, pipelines, messages and transactions (src/redis.cpp).
pub mod Queueing
pub mod Running
use librediscxx.Base.{
  ℤ, Bool, true, false, not, List, [], ◌∷◌, ◌++◌, Option, none, some, Bytes, length, ◌==◌,
  if◌then◌else◌,
}
use librediscxx.Os.World.{World}
use librediscxx.Cmd.Command.{KCommand}
use librediscxx.Cmd.Output.{
  RedisOutput, RedisCommand, smbulks, to_list, get_i, get_smbulks, convert_smbulks, set_mbulks,
  redis_command,
}
use librediscxx.Protocol.Conn.{Protocol}
use librediscxx.Protocol.Exec
use librediscxx.Redis2.State.{
  Redis2, done, failed, thrown, Call, Answer, exec, value_or_error, query, status_ok, command_of,
  check_connect, assure_connect,
}

-- An operation of the protocol object on the caller's own commands, after the connection is assured.
on_commands :
    {A : Type 0}
    → (A → Protocol → World → Bool × A × Protocol × World)
    → A
    → Redis2
    → World
    → Bool × A × Redis2 × World
unfolding assure_connect
on_commands op a r w =
    let (ok, r₁, w₁) = assure_connect r w in
    let (ok₂, a', p, w₂) = op a r₁.proto w₁ in
    if ok then (ok₂, a', record r₁ { proto = p }, w₂) else (false, a, r₁, w₁)

unfoldable pub exec_command : RedisCommand → Redis2 → World → Bool × RedisCommand × Redis2 × World
unfolding on_commands Exec.exec_command
exec_command c = on_commands Exec.exec_command c

unfoldable pub exec_formatted :
    (trim : Bytes → Bytes) (split : Bytes → List Bytes)
    → Bytes
    → RedisCommand
    → Redis2
    → World
    → Bool × RedisCommand × Redis2 × World
unfolding on_commands Exec.exec_commandv
exec_formatted trim split formatted c = on_commands (Exec.exec_commandv trim split formatted) c

unfoldable pub exec_pipeline :
    List RedisCommand → Redis2 → World → Bool × List RedisCommand × Redis2 × World
unfolding on_commands Exec.exec_pipeline
exec_pipeline cs = on_commands Exec.exec_pipeline cs

unfoldable pub publish : Bytes → Bytes → Redis2 → World → Call ℤ
unfolding query get_i
publish channel message = query get_i KCommand.publish (channel ∷ message ∷ [])

unfoldable pub multi : Redis2 → World → Call (Unit {0})
unfolding query status_ok
multi = query status_ok KCommand.multi []

unfoldable pub unwatch : Redis2 → World → Call (Unit {0})
unfolding query status_ok
unwatch = query status_ok KCommand.unwatch []

unfoldable pub watch : List Bytes → Redis2 → World → Call (Unit {0})
unfolding query status_ok
watch keys = query status_ok KCommand.watch keys

-- `inner_command->swap(*command)`: what the caller is left with.
swapped : RedisCommand
unfolding redis_command
swapped = redis_command KCommand.noop

queue : RedisCommand → Redis2 → Redis2
queue c r = record r { transaction_cmds = r.transaction_cmds ++ c ∷ [] }

-- It returns false, even when the command has been queued.
unfoldable pub add_command : RedisCommand → Redis2 → World → Bool × RedisCommand × Redis2 × World
unfolding check_connect Exec.exec_command swapped queue
add_command c r w =
    let (ok, r₁, w₁) = check_connect r w in
    let (ok₂, c', p, w₂) = Exec.exec_command c r₁.proto w₁ in
    let r₂ = record r₁ { proto = p } in
    if not ok
    then (false, c, r₁, w₁)
    else if ok₂
    then (false, swapped, queue c' r₂, w₂)
    else (false, swapped, r₂, w₂)

unfoldable pub add_formatted :
    (trim : Bytes → Bytes) (split : Bytes → List Bytes)
    → Bytes
    → RedisCommand
    → Redis2
    → World
    → Bool × RedisCommand × Redis2 × World
unfolding check_connect Exec.exec_commandv swapped queue
add_formatted trim split formatted c r w =
    let (ok, r₁, w₁) = check_connect r w in
    let (ok₂, c', p, w₂) = Exec.exec_commandv trim split formatted c r₁.proto w₁ in
    let r₂ = record r₁ { proto = p } in
    if not ok
    then (false, c, r₁, w₁)
    else if ok₂
    then (true, swapped, queue c' r₂, w₂)
    else (false, swapped, r₂, w₂)

-- A reply of EXEC in its command: a special multi-bulk of bulks becomes a flat one.
unfoldable pub flattened : RedisOutput → RedisOutput
unfolding to_list convert_smbulks set_mbulks
flattened (smbulks os) = elim (convert_smbulks (to_list os)) [
  | some mb ↦ set_mbulks mb (smbulks os)
  | none ↦ smbulks os
]
flattened o = o

distribute : List RedisOutput → List RedisCommand → List RedisCommand
unfolding flattened
distribute (o ∷ os) (c ∷ cs) = record c { out = flattened o } ∷ distribute os cs
distribute _ _ = []

-- The replies in the commands, which go to the caller; `none` if they are not as many as the commands.
distributed : List RedisCommand → RedisOutput → Option (List RedisCommand)
unfolding get_smbulks distribute
distributed cs o = elim (get_smbulks o) [
  | none ↦ none
  | some os ↦ if length os == length cs then some (distribute os cs) else none
]

-- A command of a transaction, on a connection that must be open already.
asked_open : RedisCommand → Redis2 → World → Answer
unfolding check_connect exec
asked_open c r w =
    let (ok, r₁, w₁) = check_connect r w in
    let (a, r₂, w₂) = exec c r₁ w₁ in if ok then (a, r₂, w₂) else (none, r₁, w₁)

emptied {ℓ} : {A : Type ℓ} → Call A → Call A
emptied (done a, r, w) = (done a, record r { transaction_cmds = [] }, w)
emptied (failed, r, w) = (failed, r, w)
emptied (thrown, r, w) = (thrown, r, w)

unfoldable pub exec_transaction : Redis2 → World → Call (List RedisCommand)
unfolding asked_open distributed value_or_error command_of emptied
exec_transaction r w =
    let a = asked_open (command_of KCommand.exec []) r w in
    emptied (value_or_error (distributed (a.1).transaction_cmds) a)

unfoldable pub discard : Redis2 → World → Call (Unit {0})
unfolding asked_open value_or_error command_of status_ok emptied
discard r w = emptied (value_or_error status_ok (asked_open (command_of KCommand.discard []) r w))
