-- ===== src/Server.antt =====
-- server.h, server.cpp: one scheduling round of a GET or of a PUT. `Get` and `Put` hold the two
-- handlers, and their children the proofs.
pub mod Get
pub mod Put
