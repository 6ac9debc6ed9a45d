-- ===== src/Lib.antt =====
-- A verification library for librediscxx, a Redis client for C++. A client (`Redis2`) turns a call
-- such as `get(key)` into a command, the protocol object (`RedisProtocol`) writes the command as a
-- request and reads the reply, the TCP client (`TcpClient`) moves bytes through a buffer, and the
-- socket helpers of src/os.cpp wrap the system calls with timeouts. Each layer is a module here,
-- and each operation is a function that takes and returns the object's state and the world.
--
-- - Base: shared names; lists measured by native numbers, Boolean tests, integers of 64 bits, byte
--   strings.
-- - Message: what the last error can be. The texts that boost::format builds are kept as the
--   format's name with its arguments.
-- - Cmd, for src/redis_cmd.h and src/redis_cmd.cpp: Command (`kCommand`, `kReplyType`,
--   `CommandInfo`), Table (`s_command_map`), Names (`s_command_rev_map`), Input (`RedisInput`),
--   Output (`RedisOutput`, `RedisCommand`), Hash (`time33_hash_32`), Lookup (what a name finds),
--   Arguments (numbers as arguments, the swaps, `to_string`), Predicates (the remaining
--   questions), Memory (the pointers of replies: setters, getters, `clear`, `convert`, the guards,
--   with the heap they change). Memory/Program has the calls of a function on its variables,
--   Memory/Values what they mean for plain values.
-- - Os, for src/os.cpp: World (the answers of the system calls to come, and what the calls leave),
--   Socket (`poll_read`, `poll_write`, `timed_read`, `timed_readn`, `timed_writen`; Socket/Polling
--   has what a poll decides, Socket/Writing what has been sent), Connect (`timed_connect`,
--   `set_nonblock`, `is_open_slow`, `resolve_host` and the rest).
-- - Tcp, for src/tcp_client.cpp: Buffer (`TcpClientBuffer`), Search (the search for a delimiter),
--   Resolver (`HostResolver`), Client (`TcpClient::Impl`).
-- - Protocol, for src/redis_protocol.cpp: Decimal (numbers as text, `parse_integer`), Conn (the
--   connection, `read_line`, `read`), Request (`check_argc`, `write_command`, `write_commandv`),
--   Bulk (`read_bulk_2`, `read_bulk`, `read_multi_bulk_2`), Reply (`__read_reply`), Exec
--   (`read_reply`, `exec_command`, `exec_commandv`, `exec_pipeline`).
-- - Redis2, for src/redis.cpp: State (the client, `select`, `assure_connect`, the macros that end
--   an operation), then one module for each group of commands: Keys, Strings, Hashes, Lists, Sets,
--   SortedSets, Server, Transactions.
-- - Redis2P, for src/redis_partition.cpp: State (the client of partitioned servers, `inner_init`,
--   the choice of hosts, `FOR_EACH_GROUP_WRITE` and `FOR_EACH_GROUP_READ`), then the operations by
--   the kind of key: KeyCalls, StringCalls, HashCalls, ListCalls, SetCalls, SortedSetCalls;
--   SplitCalls (those that visit several hosts). Each host has a network of its own; `errno`, the
--   clock and the resolver's cache are the process's, and the thread that calls has a number.
--   State/Replicating has the write that reaches a host of each group. Constructor has the
--   constructors of `RedisBase2Multi` and `Redis2P`.
-- - Redis2/Session, a program of `get`, `set`, `del`, `exists`, `setnx`, `getset` and `mget`
--   against the store that a server keeps; Redis2/Transactions/Running, a transaction from `multi`
--   to `exec`.
-- - RedisBase, for src/redis_base.h and src/redis_base.cpp: Interface (`RedisBase2`, as records of
--   operations), Single (`RedisBase2Single`), Helpers (the helpers that `RedisBase2` defines over
--   any client). Redis2/AsBase and Redis2P/AsBase fill the interface with the operations of the
--   two classes.
-- - ThreadSpecific, for src/tss.h (`thread_specific_ptr`), over boost's storage for each thread.
-- - Tss, for src/redis_tss.h and src/redis_tss.cpp (`RedisTss::Impl`, `RedisScopedPtr`): the pool
--   of clients that threads share. Tss/Owned has the owners of clients, Tss/Stepping the steps
--   that threads take in any order, Tss/Usage the calls of threads that keep to the usages that
--   the header lists.
-- - Monitor, for tools/redis_monitor.cpp: Line (a line of MONITOR), and the connections, the
--   counts and what is printed. `none` is where the code reads past the end of a line.
-- - Tests: the theorems at concrete inputs.
--
-- The world lists what each system call will answer: polls, receives, sends, peeks and the others,
-- in the order of the calls, with `errno`, the clock and the cache of the resolver. A theorem that
-- holds for every list of answers holds for every behaviour of the network. Where a theorem asks
-- that no poll fails, the pieces in which bytes come are still arbitrary.
--
-- A pointer parameter is taken to be not NULL, and memory is taken to suffice. Outside Cmd/Memory,
-- values are copied: there, each pointer stands with the object it owns, an object is known by the
-- number of objects made before it, and the heap counts what `new` made and lists what `delete`
-- was given. A `size_t` keeps its modulus 2^64 where the code adds or subtracts; where a size is
-- cast to an `int` (`timed_readn`, `timed_writen`, `TcpClient::write`, the number of arguments)
-- the cast is `to_int`, so that a size of 2^31 and more may turn negative or lose its upper bits;
-- the growth of the buffer has 64 rounds, after which a size has left `size_t`. The loops of
-- `read` and `read_line` have as much fuel as there are bytes to come, since each round takes one
-- at least. The replies within a reply have as much depth as there are bytes left, and one more,
-- since each reply begins with a line of its own.
--
-- The hash of a key is a field of the partitioned client, as it is in the code. Parameters stand
-- for code that is not in the repository: what `vsnprintf`, boost::trim and boost::split make of a
-- format, and what boost::lexical_cast makes of doubles. `strtol` is the one of the C library in
-- base 10. The locks of the resolver are not modelled: a call of its cache is one step.
--
-- A client in the pool is known by the number of clients made before it, and `delete` records that
-- number. The locks of the pool make each critical section one step; an access to a thread's own
-- pointer is a step too. An exception of a constructor leaves the pool as it was. What boost keeps
-- for each thread is the interface `Storage`, with the laws that boost documents.
--
-- Not modelled: the tests and tools/redis_hash_test.cpp, which are drivers of the library; of
-- tools/redis_monitor.cpp, the options, the signal handler and the timer. The number of rounds
-- after which the signal handler stops the loop of `monitor` is an argument.
pub mod Base
pub mod Message
pub mod Cmd
pub mod Os
pub mod Tcp
pub mod Protocol
pub mod Redis2
pub mod Redis2P
pub mod RedisBase
pub mod ThreadSpecific
pub mod Tss
pub mod Monitor
pub mod Tests
