-- ===== src/Cmd.antt =====
-- Commands: src/redis_cmd.h and src/redis_cmd.cpp.
pub mod Command
pub mod Table
pub mod Names
pub mod Input
pub mod Output
pub mod Arguments
pub mod Predicates
pub mod Memory
pub mod Hash
pub mod Lookup
