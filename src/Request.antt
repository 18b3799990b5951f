-- ===== src/Request.antt =====
-- queue.h: enum class Operation and struct Request. The 64-bit counters are natural numbers that
-- the operations keep below 2 ^ 64; an int is kept as its 32-bit pattern.
use link_scheduling.Prelude.{ℕ, ◌-◌, ◌^◌, ◌≤◌, ◌<◌, Bool, ltb, if◌then◌else◌}
use link_scheduling.Prelude.Text.{Bytes}

pub data Operation : Type 0 where
  get put health : Operation

pub record Request : Type 0 where
  pub request_id : ℕ
  pub client_fd : ℕ
  pub op : Operation
  pub filename : Bytes
  pub total_bytes : ℕ
  pub offset : ℕ
  pub rounds : ℕ
  pub forfeited_bytes : ℕ
  pub deficit : ℕ
  pub a14_events : ℕ
  pub arrival_ns : ℕ
  pub start_ns : ℕ
  pub finish_ns : ℕ
  pub pending_bytes : Bytes
  pub pending_offset : ℕ
  pub staging_filename : Bytes
  pub response_sent : Bool

-- `(request.total_bytes > request.offset) ? (request.total_bytes - request.offset) : 0`
abbrev pub remaining : Request → ℕ
remaining r = if ltb r.offset r.total_bytes then r.total_bytes - r.offset else 0

-- The progress counters fit their words, and the offset has not passed the end.
pub record IsSound (r : Request) : Type 0 where
  pub total_fits : r.total_bytes < 2 ^ 64
  pub offset_le : r.offset ≤ r.total_bytes
