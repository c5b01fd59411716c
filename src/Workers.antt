-- ===== src/Workers.antt =====
-- workers.py, `DriverPoller` and `OpcUaSubscriptionWorker`: the threads that read the devices.
pub mod Protocol
pub mod Poller
pub mod Polling
pub mod Rate
pub mod Subscription
pub mod Closing
