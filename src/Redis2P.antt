-- ===== src/Redis2P.antt =====
-- `Redis2P`, the client of partitioned servers (src/redis_partition.h and src/redis_partition.cpp).
pub mod State
pub mod Constructor
pub mod KeyCalls
pub mod StringCalls
pub mod HashCalls
pub mod ListCalls
pub mod SetCalls
pub mod SortedSetCalls
pub mod SplitCalls
pub mod AsBase
