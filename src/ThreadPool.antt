-- ===== src/ThreadPool.antt =====
-- threadpool.c and threadpool.h: workers that run tasks out of a bounded ring.
pub mod Ring
pub mod Pool
pub mod Submit
pub mod Worker
pub mod Control
pub mod Outcome
pub mod System
pub mod Calls
