-- ===== src/Examples.antt =====
-- Inputs of the size of a small run: jobs, a queue, and a directory with one file.
mod Queueing
mod Rounds
mod Texts
mod Threads
mod Uploading
mod Admitting
mod Configuring
mod Fetching
mod Calling
mod Delivering
mod Launching
mod Measuring
use link_scheduling.Prelude.{ℕ, false, none, some, [], ◌∷◌}
use link_scheduling.Prelude.Text.{Bytes, codes}
use link_scheduling.Request.{get, Request}
use link_scheduling.Queue.{RequestQueue}
use link_scheduling.Protocol.{header_request}
use link_scheduling.World.{World, at_path}

abbrev pub job : ℕ → ℕ → ℕ → Request
job id total arrival = record (header_request 4 get (codes "a.txt") total) {
  request_id = id;
  arrival_ns = arrival;
}

-- A long job in front of a short one and one as short that came later.
abbrev pub three_jobs : RequestQueue
three_jobs = record {
  queue = job 1 90 10 ∷ job 2 20 11 ∷ job 3 20 12 ∷ [];
  closed = false;
  inflight = 0;
}

-- Three lines, of 3, 4 and 2 bytes.
abbrev pub text : Bytes
text = codes "ab\ncde\nf\n"

abbrev pub directory : Bytes
directory = codes "srv"

abbrev pub disk : World
disk = record {
  files = at_path (λ _. none) (codes "srv/a.txt") (some text);
  unreadable = λ _. false;
  faults = [];
  unflushed = [];
  vanishings = [];
  sends = [];
  arrivals = λ _. [];
  sent = λ _. [];
  closed = [];
  clock = λ n. (n, 0);
  ticks = 1;
}
