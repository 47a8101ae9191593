-- ===== src/Worker.antt =====
-- worker/: the tasks, their queue, the extraction of pages and the delivery of webhooks.
pub mod Tasks
pub mod Pool
pub mod Extract
pub mod Deliver
pub mod Watchdog
pub mod Enqueuer
pub mod Journey
