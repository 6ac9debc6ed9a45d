-- ===== src/Redis2.antt =====
-- `Redis2`, the client of one server (src/redis.h and src/redis.cpp).
pub mod State
pub mod Keys
pub mod Strings
pub mod Hashes
pub mod Lists
pub mod Sets
pub mod SortedSets
pub mod Server
pub mod Transactions
pub mod AsBase
pub mod Session
