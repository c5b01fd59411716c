-- ===== src/Store.antt =====
-- store.py: the tables of `ConfigStore`, its operations, and what they keep.
pub mod Tables
pub mod Unique
pub mod Consistent
pub mod Saving
pub mod Reach
pub mod Sinks
pub mod Configs
pub mod Ordered
