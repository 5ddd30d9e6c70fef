-- ===== src/Log.antt =====
-- src/system/log.cc: levels, patterns, formatters, appenders and loggers.
pub mod Define
pub mod Items
pub mod Level
pub mod Loggers
pub mod Manager
pub mod Pattern
mod Tests
