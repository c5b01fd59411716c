-- ===== src/Publisher.antt =====
-- workers.py, `SinkPublisher`: the messages and their routes, the state and its operations, and what
-- they keep.
pub mod Messages
pub mod State
pub mod Rounds
pub mod Statuses
pub mod Routing
pub mod Outcome
pub mod Honest
pub mod Sending
pub mod Fresh
pub mod Routes
