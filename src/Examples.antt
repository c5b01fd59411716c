-- ===== src/Examples.antt =====
-- The theorems at concrete inputs, and runs of the code.
mod ModbusRuns
mod MonitorRuns
mod RuntimeRuns
mod PublisherRuns
mod StoreRuns
mod LoggingRuns
mod WorkerRuns
mod ServiceRuns
mod LifecycleRuns
mod TopicRuns
