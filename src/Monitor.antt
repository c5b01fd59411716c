-- ===== src/Monitor.antt =====
-- drivers/modbus_rtu_monitor.py: frames, the search for them in captured bytes, the matching of
-- responses with requests, and the results of tags.
pub mod Frame
pub mod Parsing
pub mod Sent
pub mod Search
pub mod Spans
pub mod Draining
pub mod Results
pub mod Observed
