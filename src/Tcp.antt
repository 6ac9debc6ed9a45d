-- ===== src/Tcp.antt =====
-- src/tcp_client.cpp: the TCP client with its buffer and the resolver's cache.
pub mod Buffer
pub mod Search
pub mod Resolver
pub mod Client
