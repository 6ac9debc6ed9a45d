-- ===== src/Redis2P/SplitCalls.antt =====
-- The operations of `Redis2P` that are split over its hosts (src/redis_partition.cpp).
pub mod Answers
use librediscxx.Base.{
  ℕ, zero, suc, ◌&&◌, ℤ, pos, ◌+ℤ◌, Bool, true, false, List, [], ◌∷◌, ◌++◌, Option, none, some,
  Bytes, ◌==◌, length, get_elem?, if◌then◌else◌,
}
use librediscxx.Message.{Message, text, on_host}
use librediscxx.Os.World.{World}
use librediscxx.Cmd.Output.{MBulks}
use librediscxx.Redis2.Keys
use librediscxx.Redis2.Server
use librediscxx.Redis2.State
use librediscxx.Redis2.State.{Redis2, Result, done, failed, thrown, Call, succeeded}
use librediscxx.Redis2P.State.{
  Redis2P, Networks, CallP, with_error, no_server, last_error_of, call_at, write_loop, read_loop,
  set_index_error, get_keys_client, get_group_client, check_expr,
}
use librediscxx.Redis2P.StringCalls

-- The loop over the keys: `deleted` is what the last host of the key's groups answered.
unfoldable pub del_each : List Bytes → List (List ℕ) → ℤ → ℤ → Redis2P → Networks → CallP ℤ
unfolding write_loop
del_each (key ∷ keys) (is ∷ iss) deleted total m ns =
    let (r, m', ns') = write_loop (Keys.del key) is (done deleted) m ns in
    elim r [
      | done d ↦ del_each keys iss d (total +ℤ d) m' ns'
      | failed ↦ (failed, m', ns')
      | thrown ↦ (thrown, m', ns')
    ]
del_each _ _ deleted total m ns = (done total, m, ns)

unfoldable pub del_keys : List Bytes → Redis2P → Networks → CallP ℤ
unfolding del_each get_keys_client
del_keys [] m ns = (failed, with_error no_server m, ns)
del_keys (key ∷ keys) m ns =
    del_each (key ∷ keys) (get_keys_client (key ∷ keys) m) (pos 0) (pos 0) m ns

-- The loop of `keys` over the hosts of a group.
unfoldable pub keys_loop : Bytes → List ℕ → MBulks → Redis2P → Networks → CallP MBulks
unfolding call_at set_index_error
keys_loop pattern [] got m ns = (done got, m, ns)
keys_loop pattern (i ∷ is) got m ns =
    let (r, m', ns') = call_at (Keys.keys pattern) i m ns in
    elim r [
      | done mb ↦ keys_loop pattern is (got ++ mb) m' ns'
      | failed ↦ (failed, set_index_error i m', ns')
      | thrown ↦ (thrown, m', ns')
    ]

in_group :
    {A : Type 0} → List ℕ → (List ℕ → Redis2P → Networks → CallP A) → Redis2P → Networks → CallP A
in_group [] loop m ns = (failed, with_error no_server m, ns)
in_group (i ∷ is) loop m ns = loop (i ∷ is) m ns

unfoldable pub keys : Bytes → Redis2P → Networks → CallP MBulks
unfolding in_group keys_loop get_group_client
keys pattern m ns = in_group (get_group_client m ns) (λ is. keys_loop pattern is []) m ns

unfoldable pub randomkey : Redis2P → Networks → CallP (Option Bytes)
unfolding in_group read_loop get_group_client
randomkey m ns = in_group (get_group_client m ns) (read_loop Keys.randomkey) m ns

unfoldable pub mget_loop : List Bytes → MBulks → Redis2P → Networks → CallP MBulks
unfolding StringCalls.get
mget_loop [] got m ns = (done got, m, ns)
mget_loop (key ∷ keys) got m ns =
    let (r, m', ns') = StringCalls.get key m ns in
    elim r [
      | done value ↦ mget_loop keys (got ++ (value ∷ [])) m' ns'
      | failed ↦ (failed, m', ns')
      | thrown ↦ (thrown, m', ns')
    ]

unfoldable pub mget : List Bytes → Redis2P → Networks → CallP MBulks
unfolding mget_loop
mget keys = mget_loop keys []

unfoldable pub mset_loop : List Bytes → List Bytes → Redis2P → Networks → CallP (Unit {0})
unfolding StringCalls.set
mset_loop (key ∷ keys) (value ∷ values) m ns =
    let (r, m', ns') = StringCalls.set key value m ns in
    let rest = mset_loop keys values m' ns' in
    elim r [ done a ↦ rest | failed ↦ (failed, m', ns') | thrown ↦ (thrown, m', ns') ]
mset_loop _ _ m ns = (done tt, m, ns)

unfoldable pub mset : List Bytes → List Bytes → Redis2P → Networks → CallP (Unit {0})
unfolding check_expr mset_loop
mset keys values = check_expr (length keys == length values) (mset_loop keys values)

-- `__set_host_error`, for the client of the host
unfoldable pub set_host_error : Option Redis2 → Redis2P → Redis2P
set_host_error none m = m
set_host_error (some c) m = with_error (on_host c.proto.host c.proto.port c.proto.error) m

told : {A : Type 0} → Result A → ℕ → Redis2P → Redis2P
unfolding set_host_error
told failed i m = set_host_error (get_elem? m.clients i) m
told _ i m = m

-- The loop of `select`, `flushall` and `flushdb` over all clients: a failure does not end it.
unfoldable pub each_host :
    (Redis2 → World → Call (Unit {0})) → ℕ → ℕ → Bool → Redis2P → Networks → CallP (Unit {0})
unfolding call_at told succeeded
each_host op zero i ret m ns = ((if ret then done tt else failed), m, ns)
each_host op (suc left) i ret m ns =
    let (r, m', ns') = call_at op i m ns in
    let rest = each_host op left (suc i) (ret && succeeded r) (told r i m') ns' in
    elim r [ done a ↦ rest | failed ↦ rest | thrown ↦ (thrown, m', ns') ]

unfoldable pub select : ℤ → Redis2P → Networks → CallP (Unit {0})
unfolding each_host
select index m ns = each_host (State.select index) (length m.clients) 0 true m ns

unfoldable pub flushall : Redis2P → Networks → CallP (Unit {0})
unfolding each_host
flushall m ns = each_host Server.flushall (length m.clients) 0 true m ns

unfoldable pub flushdb : Redis2P → Networks → CallP (Unit {0})
unfolding each_host
flushdb m ns = each_host Server.flushdb (length m.clients) 0 true m ns
