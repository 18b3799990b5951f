-- ===== src/Metrics.antt =====
-- metrics.h, metrics.cpp: the record of each served request.
pub mod Sort
pub mod Summary
pub mod Rank
pub mod Csv
use link_scheduling.Prelude.{ℕ, List, [], ◌∷◌, ◌++◌, length}
use link_scheduling.Prelude.Text.{Bytes}
use link_scheduling.Request.{Operation, Request}

pub record RequestMetrics : Type 0 where
  pub request_id : ℕ
  pub op : Operation
  pub filename : Bytes
  pub total_bytes : ℕ
  pub arrival_ns : ℕ
  pub start_ns : ℕ
  pub finish_ns : ℕ
  pub rounds : ℕ
  pub forfeited_bytes : ℕ
  pub a14_events : ℕ

-- The row that Metrics::record keeps of a request.
abbrev pub metrics_of : Request → RequestMetrics
metrics_of r = record {
  request_id = r.request_id;
  op = r.op;
  filename = r.filename;
  total_bytes = r.total_bytes;
  arrival_ns = r.arrival_ns;
  start_ns = r.start_ns;
  finish_ns = r.finish_ns;
  rounds = r.rounds;
  forfeited_bytes = r.forfeited_bytes;
  a14_events = r.a14_events;
}

-- Metrics::record appends to `records_`.
unfoldable pub record_request : List RequestMetrics → Request → List RequestMetrics
record_request records r = records ++ metrics_of r ∷ []

unfoldable pub completed_requests : List RequestMetrics → ℕ
completed_requests records = length records
