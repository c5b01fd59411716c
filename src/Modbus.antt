-- ===== src/Modbus.antt =====
-- drivers/modbus.py: planning of the read requests, decoding of the replies, and the two together.
pub mod Blocks
pub mod Partition
pub mod Requests
pub mod Decode
pub mod Numbers
pub mod Strings
pub mod Reading
pub mod Named
pub mod Collision
pub mod Total
