-- ===== src/Config.antt =====
-- config.cpp, config.h: the JSON parser and load_config.
pub mod Outcome
pub mod Json
pub mod Number
pub mod Parser
pub mod Load
pub mod Fuel
pub mod Describes
pub mod Faults
pub mod Checks
pub mod Print
