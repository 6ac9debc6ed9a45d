-- ===== src/Redis2P/State.antt =====
-- The state of a `Redis2P` client, the hosts that serve a key, and the loops over them
-- (src/redis_partition.cpp). Each host has a client of its own and a network of its own; `errno`, the
-- clock and the resolver's cache are the process's.
pub mod Serving
pub mod Trying
pub mod Starting
pub mod Spreading
pub mod Replicating
use librediscxx.Base.{
  ℕ, zero, suc, ◌+◌, ◌-◌, ◌*◌, ◌/◌, ◌%◌, ◌^◌, ◌&&◌, leb, ℤ, Bool, true, false, not, List, [], ◌∷◌,
  ◌++◌, Option, none, some, Bytes, codes, ◌==◌, map, length, get_elem?, get_or, set, replicate,
  if◌then◌else◌,
}
use librediscxx.Message.{Message, text, on_host, invalid_group_number, einval}
use librediscxx.Os.World.{World, HostEntry}
use librediscxx.Redis2.State.{Redis2, Result, done, failed, thrown, Call, redis2}

pub record Redis2P : Type 0 where
  pub hosts : List Bytes
  pub ports : List Bytes
  pub db_index : ℤ
  pub timeout_ms : ℤ
  pub partitions : ℕ
  pub hash_fn : Bytes → ℕ
  pub groups : ℕ
  pub error : Message
  pub clients : List Redis2

-- The network of each host, what the process shares, and the thread that calls.
pub record Networks : Type 0 where
  pub worlds : List World
  pub errno : ℕ
  pub clock : ℕ
  pub dns_cache : List ((Bytes × Bytes) × HostEntry)
  pub thread_id : ℕ

abbrev pub CallP {ℓ} : Type ℓ → Type ℓ
CallP A = Result A × Redis2P × Networks

abbrev pub with_error : Message → Redis2P → Redis2P
with_error e m = record m { error = e }

-- `RedisBase2Multi::__inner_init`, after the two lists have been split: one port serves for all hosts.
unfoldable pub match_ports : List Bytes → List Bytes → Option (List Bytes)
match_ports hosts ports =
    if not (length hosts == length ports) && not (length ports == 1)
    then none
    else if (length ports == 1) && not (length hosts == 1)
    then some (ports ++ replicate (length hosts - 1) (get_or ports 0 []))
    else some ports

clients_of : List Bytes → List Bytes → ℤ → ℤ → List Redis2
unfolding redis2
clients_of (h ∷ hs) (p ∷ ps) db timeout = redis2 h p db timeout ∷ clients_of hs ps db timeout
clients_of _ _ db timeout = []

-- `inner_init`
unfoldable pub inner_init : Redis2P → Bool × Redis2P
unfolding clients_of
inner_init m =
    let hosts = length m.hosts in
    let groups = hosts / m.partitions in
    let m' = record m { groups = groups } in
    if m.partitions == 0
    then (false, with_error (text (codes "the number of partition must be not zero")) m)
    else if groups == 0
    then (false, with_error (text (codes "the number of group must be not zero")) m')
    else if not (hosts % groups == 0)
    then (false, with_error (invalid_group_number hosts groups m.partitions) m')
    else (
      true,
      record m' { clients = m.clients ++ clients_of m.hosts m.ports m.db_index m.timeout_ms },
    )

-- The number of hosts in a group.
abbrev pub host_num : Redis2P → ℕ
host_num m = length m.clients / m.groups

-- `__get_key_host_index`
unfoldable pub get_key_host_index : Bytes → Redis2P → ℕ
get_key_host_index key m = m.hash_fn key % host_num m

-- `for (size_t i=0; i<groups_; i++)` of `__get_key_client`: `left` groups are left, from the `i`th on.
rotated : ℕ → ℕ → ℕ → ℕ → Redis2P → List ℕ
rotated zero i seed host_index m = []
rotated (suc left) i seed host_index m =
    (host_index + host_num m * ((seed + i) % 2 ^ 64 % m.groups))
    ∷ rotated left (suc i) seed host_index m

-- `__get_key_client`, with `write` true: a host of each group, beginning with one that depends on the
-- thread.
unfoldable pub get_key_client : Bytes → Redis2P → Networks → List ℕ
unfolding get_key_host_index rotated
get_key_client key m ns = rotated m.groups 0 ns.thread_id (get_key_host_index key m) m

-- The loop over the groups of `__get_keys_client` and of `get_index_client`.
in_groups : ℕ → ℕ → ℕ → Redis2P → List ℕ
in_groups zero i host_index m = []
in_groups (suc left) i host_index m =
    (host_index + host_num m * i) ∷ in_groups left (suc i) host_index m

unfoldable pub get_keys_client : List Bytes → Redis2P → List (List ℕ)
unfolding in_groups get_key_host_index
get_keys_client keys m = map (λ key. in_groups m.groups 0 (get_key_host_index key m) m) keys

unfoldable pub get_index_client : ℕ → Redis2P → List ℕ
unfolding in_groups
get_index_client host_index m = in_groups m.groups 0 host_index m

consecutive : ℕ → ℕ → List ℕ
consecutive zero i = []
consecutive (suc n) i = i ∷ consecutive n (suc i)

-- `__get_group_client`: the hosts of one group.
unfoldable pub get_group_client : Redis2P → Networks → List ℕ
unfolding consecutive
get_group_client m ns =
    consecutive (host_num m) (if leb m.groups 1 then 0 else ns.thread_id % m.groups * host_num m)

call_on :
    {A : Type 0}
    → (Redis2 → World → Call A)
    → ℕ
    → Option Redis2
    → Option World
    → Redis2P
    → Networks
    → CallP A
call_on op i (some c) (some w) m ns =
    let (r, c', w') =
      op c (record w { errno = ns.errno; clock = ns.clock; dns_cache = ns.dns_cache }) in
    (
      r,
      record m { clients = set m.clients i c' },
      record ns {
        worlds = set ns.worlds i w';
        errno = w'.errno;
        clock = w'.clock;
        dns_cache = w'.dns_cache;
      },
    )
call_on op i _ _ m ns = (failed, m, ns)

-- `redis2_sp_vector_[host_index]->func(…)`; an index past the end, which no loop has, is a failure.
unfoldable pub call_at : {A : Type 0} → (Redis2 → World → Call A) → ℕ → Redis2P → Networks → CallP A
unfolding call_on
call_at op i m ns = call_on op i (get_elem? m.clients i) (get_elem? ns.worlds i) m ns

unfoldable pub last_error_of : Option Redis2 → Message
last_error_of none = text []
last_error_of (some c) = c.proto.error

-- `__set_index_error`
unfoldable pub set_index_error : ℕ → Redis2P → Redis2P
unfolding last_error_of
set_index_error i m =
    with_error
      (on_host (get_or m.hosts i []) (get_or m.ports i []) (last_error_of (get_elem? m.clients i)))
      m

-- The loop of `FOR_EACH_GROUP_WRITE`: every host in turn, up to the first that fails.
unfoldable pub write_loop :
    {A : Type 0} → (Redis2 → World → Call A) → List ℕ → Result A → Redis2P → Networks → CallP A
unfolding call_at set_index_error
write_loop op [] last m ns = (last, m, ns)
write_loop op (i ∷ is) last m ns =
    let (r, m', ns') = call_at op i m ns in
    let rest = write_loop op is r m' ns' in
    elim r [
      | done a ↦ rest
      | failed ↦ (failed, set_index_error i m', ns')
      | thrown ↦ (thrown, m', ns')
    ]

-- The loop of `FOR_EACH_GROUP_READ`: every host in turn, up to the first that answers.
unfoldable pub read_loop :
    {A : Type 0} → (Redis2 → World → Call A) → List ℕ → Redis2P → Networks → CallP A
unfolding call_at set_index_error
read_loop op [] m ns = (failed, m, ns)
read_loop op (i ∷ is) m ns =
    let (r, m', ns') = call_at op i m ns in
    let rest = read_loop op is (set_index_error i m') ns' in
    elim r [ done a ↦ (done a, m', ns') | failed ↦ rest | thrown ↦ (thrown, m', ns') ]

abbrev pub no_server : Message
no_server = text (codes "no available redis server")

-- The test that ends the choice of hosts.
available_or :
    {A : Type 0} → List ℕ → (List ℕ → Redis2P → Networks → CallP A) → Redis2P → Networks → CallP A
available_or [] loop m ns = (failed, with_error no_server m, ns)
available_or (i ∷ is) loop m ns = loop (i ∷ is) m ns

-- `FOR_EACH_GROUP_WRITE(func, key, …)` and `FOR_EACH_GROUP_READ(func, key, …)`.
unfoldable pub for_each_group_write :
    {A : Type 0} → (Redis2 → World → Call A) → Bytes → Redis2P → Networks → CallP A
unfolding get_key_client write_loop available_or
for_each_group_write op key m ns =
    available_or (get_key_client key m ns) (λ is. write_loop op is failed) m ns

unfoldable pub for_each_group_read :
    {A : Type 0} → (Redis2 → World → Call A) → Bytes → Redis2P → Networks → CallP A
unfolding get_key_client read_loop available_or
for_each_group_read op key m ns = available_or (get_key_client key m ns) (read_loop op) m ns

-- `CHECK_EXPR`
unfoldable pub check_expr :
    {A : Type 0} → Bool → (Redis2P → Networks → CallP A) → Redis2P → Networks → CallP A
check_expr ok op m ns = if ok then op m ns else (failed, with_error einval m, ns)
