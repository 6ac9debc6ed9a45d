-- ===== src/Protocol.antt =====
-- `RedisProtocol` of src/redis_protocol.h and src/redis_protocol.cpp: decimal numbers, the connection,
-- requests and replies.
pub mod Decimal
pub mod Conn
pub mod Request
pub mod Bulk
pub mod Reply
pub mod Exec
