-- ===== src/Concurrency.antt =====
-- src/concurrency: the queues and the thread pool that the simulator is built on.
pub mod Fifo
pub mod Spsc
pub mod Mpsc
pub mod ThreadPool
