-- ===== src/Config/Print/Values.antt =====
-- A printed value is read back by class Parser of config.cpp.
pub mod Lists
pub mod First
pub mod Rounds
