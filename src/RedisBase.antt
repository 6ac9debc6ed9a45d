-- ===== src/RedisBase.antt =====
-- The interface of the clients and its helpers (src/redis_base.h and src/redis_base.cpp).
pub mod Interface
pub mod Single
pub mod Helpers
