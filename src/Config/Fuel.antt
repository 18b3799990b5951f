-- ===== src/Config/Fuel.antt =====
-- config.cpp: the parser uses up its input, so that its fuel is enough.
pub mod Numbers
pub mod Strings
pub mod Values
