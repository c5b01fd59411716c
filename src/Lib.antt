-- ===== src/Lib.antt =====
-- A model of the industrial gateway, which reads devices (Modbus, OPC UA, MQTT), caches what they say and
-- publishes it to a sink, and of theorems about it.
--
-- The program. Drivers (src/industrial_gateway/drivers) turn the configuration of a device and its tags into
-- tag results. Workers (src/industrial_gateway/workers.py) run the drivers and put the results in a queue
-- that keeps the latest of each tag; `SinkPublisher` takes them from there, keeps a status for each device
-- and publishes measurements and status messages along routes. `RuntimeManager`
-- (src/industrial_gateway/services/runtime_manager.py) owns the queues and tells the web pages what
-- happened. `ConfigStore` (src/industrial_gateway/store.py) holds devices, tags, routes and sinks in SQLite, and
-- `ConfigService` (src/industrial_gateway/services/config_service.py) is what the web pages change it by.
--
-- The model.
-- - Common: names that the modules share; Python's integers, slices, texts, JSON values and dictionaries
--   (association lists in insertion order), and exceptions as values (`Result`).
-- - Models: models.py, its records (Models/Defs) and the validation of tags (Models/Validation), which
--   Models/Accepted describes without its tests.
-- - Modbus: drivers/modbus.py. Blocks plans the requests (`_plan_blocks`), Decode turns registers into
--   values, Reading answers a read with the client as an argument (`_read_tags_grouped`). Partition, Requests,
--   Total, Numbers, Strings, Named and Collision hold the theorems.
-- - Monitor: drivers/modbus_rtu_monitor.py. Frame parses (`parse_rtu_frame`), Search finds frames in captured
--   bytes and drains buffers, Results makes the results of tags. Parsing, Sent, Spans, Draining and Observed
--   hold the theorems.
-- - Runtime: the two queues of services/runtime_manager.py (Queues), the manager's record of events
--   (Manager), what it reads from the configuration (Starting), its threads (Threads), start and stop
--   (Lifecycle), and registry.py (Registry). Latest, Waiting, Draining, Tracking, Stopping and Restarting hold the theorems.
-- - Publisher: `SinkPublisher` of workers.py: its messages (Messages) and their routes (Routes), its state and
--   the operations on a status (State), its rounds (Rounds). Routing, Statuses, Outcome, Fresh, Honest and
--   Sending hold the theorems.
-- - Store: store.py: its tables and statements (Tables, Configs). Unique, Consistent, Saving, Reach and
--   Sinks hold the theorems; `Step` is the relation of the operations that change it.
-- - Workers: `DriverPoller` (Poller) and `OpcUaSubscriptionWorker` (Subscription) of workers.py, with the driver
--   as what its calls answer. Protocol is the order in which a driver may be called; Polling, Rate and
--   Closing hold the theorems.
-- - Config: config_schema.py (Tables, Schema) and `ConfigService` of services/config_service.py. Service is the
--   monad of an operation that changes the store and may raise; Payloads, Devices, Plugins, Routes,
--   RouteService, Resolving, Cells, Imports, DeviceImports and Exports are its operations. Normal, Keeping,
--   Refining, Importing, Served, Topics, Upserting and Again hold the theorems.
-- - TopicExchange: services/topic_responder.py (Responder, and its `run` in Running) and
--   services/topic_request_client.py (Client). Answers holds the theorem of the two together.
-- - Logging: logging_worker.py (Worker). Shown describes a record, Kept holds the theorems.
-- - Examples: runs of the code and the theorems at concrete inputs.
--
-- Conventions. A name is the source's without a leading underscore. A float is the bit pattern of its
-- binary64, and the arithmetic of floats is an argument (`Floats`). A time is a number of microseconds; the text
-- of a time is not modelled. The Modbus client, the drivers of the workers, the resolver of topics, the queries
-- of the responder, the clock and the sink are arguments: what they answer; the broker is what is delivered. How Python prints a number and reads a float is an argument too
-- (`Conversions`). Locks are held for a whole operation, so an operation of a queue is one step.
--
-- Bounds. The drains of captured bytes run on fuel, the length of the buffer; each round but the last consumes
-- four bytes at least, and the theorems of Monitor.Draining show that the fuel is enough. All other loops
-- are structural recursion.
--
-- Not modelled: the serial port with its deadlines, the MQTT, OPC UA and database
-- clients, the web pages, the text of a CSV file (its rows are), the migrations of an old SQLite file, and the
-- data of a log record of the workers.
-- In the rules for the tag group of a node and the route topic, letters are ASCII.
pub mod Common
pub mod Models
pub mod Modbus
pub mod Monitor
pub mod Runtime
pub mod Publisher
pub mod Store
pub mod Workers
pub mod Config
pub mod TopicExchange
pub mod Logging
pub mod Examples
