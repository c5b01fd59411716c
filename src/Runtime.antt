-- ===== src/Runtime.antt =====
-- services/runtime_manager.py: the two queues that hold the latest value of a key, what they promise,
-- and the manager's record of what the workers report.
pub mod Queues
pub mod Latest
pub mod Waiting
pub mod Manager
pub mod Draining
pub mod Registry
pub mod Starting
pub mod Threads
pub mod Lifecycle
pub mod Tracking
pub mod Stopping
pub mod Restarting
