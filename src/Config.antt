-- ===== src/Config.antt =====
-- config_schema.py and services/config_service.py: the configurations and the operations on the store.
pub mod Tables
pub mod Schema
pub mod Normal
pub mod Payloads
pub mod Service
pub mod Devices
pub mod Plugins
pub mod Routes
pub mod RouteService
pub mod Resolving
pub mod Cells
pub mod Imports
pub mod DeviceImports
pub mod Exports
pub mod Keeping
pub mod Refining
pub mod Importing
pub mod Served
pub mod Topics
pub mod Upserting
pub mod Again
