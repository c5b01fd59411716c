-- ===== src/Models.antt =====
-- models.py, in two parts: the records, and the validation of tags.
mod Defs
pub mod Validation
pub mod Accepted
pub use Defs.{
  DeviceSpec, TagSpec, MqttConfig, SinkConfig, OutputRouteConfig, Quality, good, bad, TagResult,
  ReadResult,
}
