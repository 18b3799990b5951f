-- ===== src/Config/Checks.antt =====
-- config.cpp: the checks of load_config accept what Describes says, and their messages are true.
pub mod Fields
pub mod Server
pub mod Balancer
pub mod Root
