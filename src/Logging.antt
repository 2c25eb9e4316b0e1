-- ===== src/Logging.antt =====
-- The logging system of src/logging: `Record` and `Sinks` are what is logged and where it goes,
-- `Config` and `Manager` read the configuration, `Watcher` waits for it to change, and `System` and
-- `Stream` are what the program calls.
pub mod Record
pub mod Sinks
pub mod Config
pub mod Manager
pub mod Watcher
pub mod System
pub mod Stream
pub mod Syslog
mod Examples
