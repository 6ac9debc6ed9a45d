-- ===== src/Redis2P/Constructor.antt =====
-- The constructors of `RedisBase2Multi` (src/redis_base.cpp) and `Redis2P` (src/redis_partition.cpp).
-- What boost::split makes of a text and "," is a parameter.
use librediscxx.Base.{
  ℕ, ◌+◌, ◌-◌, ◌%◌, ◌^◌, ℤ, pos, negsuc, Bool, true, false, List, Option, none, some, Bytes, length,
}
use librediscxx.Message.{Message, text, hosts_ports_mismatch}
use librediscxx.Redis2P.State.{Redis2P, match_ports, inner_init}

-- An object, or the text of the `RedisException` that is thrown.
pub data Created {ℓ} (A : Type ℓ) : Type ℓ where
  created : A → Created A
  refused : Message → Created A

-- `static_cast<size_t>` of an `int`
unfoldable pub to_size : ℤ → ℕ
to_size (pos n) = n % 2 ^ 64
to_size (negsuc n) = (2 ^ 64 - (n + 1)) % 2 ^ 64

-- `if (!inner_init()) throw`
unfoldable pub initialised : Bool × Redis2P → Created Redis2P
initialised (true, m) = created m
initialised (false, m) = refused m.error

unfoldable pub with_hosts :
    List Bytes → Option (List Bytes) → List Bytes → ℤ → ℤ → ℤ → (Bytes → ℕ) → Created Redis2P
unfolding initialised inner_init to_size
with_hosts hosts none ports db_index timeout_ms partitions fn =
    refused (hosts_ports_mismatch (length hosts) (length ports))
with_hosts hosts (some ports) _ db_index timeout_ms partitions fn = initialised (
    inner_init (record {
      hosts = hosts;
      ports = ports;
      db_index = db_index;
      timeout_ms = timeout_ms;
      partitions = to_size partitions;
      hash_fn = fn;
      groups = 0;
      error = text List.[];
      clients = List.[];
    }))

unfoldable pub redis2p :
    (Bytes → List Bytes) → Bytes → Bytes → ℤ → ℤ → ℤ → (Bytes → ℕ) → Created Redis2P
unfolding with_hosts match_ports
redis2p split host_list port_list db_index timeout_ms partitions fn =
    with_hosts (split host_list) (match_ports (split host_list) (split port_list)) (split port_list)
      db_index timeout_ms partitions fn
