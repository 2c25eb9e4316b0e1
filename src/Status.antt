-- ===== src/Status.antt =====
-- The status codes of src/common: HTTP statuses, result codes and log levels, one module each.
pub mod Codes
pub mod RetCodes
pub mod LogLevels
pub mod Mapping
