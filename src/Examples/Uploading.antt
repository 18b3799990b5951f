-- ===== src/Examples/Uploading.antt =====
-- A round of a PUT of five bytes, two of which came with the header.
use link_scheduling.Prelude.{◌+◌, ◌-◌, ◌≡◌, refl, arith, true, [], ◌∷◌, min, if◌then◌else◌, ◌==◌}
use link_scheduling.Prelude.Text.{Bytes, codes, eq_bytes}
use link_scheduling.Request.{Request, put, IsSound}
use link_scheduling.Protocol.{header_request}
use link_scheduling.World.{World, arrives}
use link_scheduling.FileIo.{is_valid_filename, contains}
use link_scheduling.Server.Put.{staged, serve_put}
use link_scheduling.Server.Put.Stream.{Uploads}
use link_scheduling.Server.Put.Upload.{Receiving, not_begun, serve_put-Uploads}
use link_scheduling.Server.Put.Receives.{Flows, serve_put-receives}
use link_scheduling.Scheduling.{rr}
use link_scheduling.Worker.{Setup, worker_round}
use link_scheduling.Worker.Commit.{IsUpload, CommitOutcome}
use link_scheduling.Worker.Commit.Round.{worker_round-CommitOutcome}
use link_scheduling.Examples.{directory, disk}

abbrev upload : Bytes
upload = codes "hello"

abbrev put_job : Request
put_job = record (header_request 4 put (codes "b.txt") 5) {
  request_id = 6;
  pending_bytes = codes "he";
}

abbrev arriving : World
arriving = record disk {
  arrivals = λ fd. if fd == 4 then arrives (codes "l") ∷ arrives (codes "lo") ∷ [] else [];
}

put_job-IsSound : IsSound put_job
put_job-IsSound = record { total_fits = omega arith; offset_le = omega arith }

put_job-Receiving : Receiving upload directory put_job arriving
put_job-Receiving = not_begun refl refl (omega arith)

put_job-Flows : Flows put_job 5 arriving
put_job-Flows = record {
  no_fault = refl;
  none_lost = refl;
  seekable = omega arith;
  pending_fits = omega arith;
  delivers = refl;
}

is_valid_name : is_valid_filename (codes "b.txt") ≡ true
unfolding is_valid_filename contains eq_bytes
is_valid_name = refl

serve_put-receives_example :
    ((serve_put put_job directory 5 arriving).0.success ≡ true)
    × Uploads upload directory
        (staged put_job)
        (serve_put put_job directory 5 arriving).0.request
        (0 + (serve_put put_job directory 5 arriving).0.bytes_processed)
        (serve_put put_job directory 5 arriving).1
    × ((serve_put put_job directory 5 arriving).0.bytes_processed ≡ min 5 (5 - 0))
serve_put-receives_example =
    serve_put-receives upload directory put_job 5 arriving is_valid_name put_job-IsSound
      (omega arith) put_job-Receiving put_job-Flows

put_job_succeeds : (serve_put put_job directory 5 arriving).0.success ≡ true
put_job_succeeds =
    (serve_put-receives upload directory put_job 5 arriving is_valid_name put_job-IsSound
      (omega arith) put_job-Receiving put_job-Flows).0

serve_put-Uploads_example :
    Uploads upload directory
      (staged put_job)
      (serve_put put_job directory 5 arriving).0.request
      (0 + (serve_put put_job directory 5 arriving).0.bytes_processed)
      (serve_put put_job directory 5 arriving).1
    × ((serve_put put_job directory 5 arriving).0.bytes_processed ≡ min 5 (5 - 0))
serve_put-Uploads_example =
    serve_put-Uploads upload directory put_job 5 arriving put_job-IsSound refl (omega arith)
      put_job-Receiving put_job_succeeds

abbrev setup : Setup
setup = record {
  file_dir = directory;
  scheduler = record { policy = rr; quantum = 5 };
  packetization = 1;
}

put_job-IsUpload : IsUpload upload directory put_job arriving
put_job-IsUpload = record {
  op = refl;
  part = put_job-IsSound;
  unfinished = omega arith;
  none_lost = refl;
  receiving = put_job-Receiving;
}

worker_round-CommitOutcome_example :
    CommitOutcome upload directory (worker_round setup put_job 5 arriving)
worker_round-CommitOutcome_example =
    worker_round-CommitOutcome setup upload put_job 5 arriving (omega arith) put_job-IsUpload
