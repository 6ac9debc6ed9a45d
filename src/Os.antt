-- ===== src/Os.antt =====
-- src/os.cpp: the socket calls with a timeout, over the answers that the system gives.
pub mod World
pub mod Socket
pub mod Connect
