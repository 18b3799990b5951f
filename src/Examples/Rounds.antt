-- ===== src/Examples/Rounds.antt =====
-- Rounds of a GET on a file of three lines.
use link_scheduling.Prelude.{
  ◌≡◌, refl, arith, true, none, some, List, [], ◌∷◌, ◌++◌, length, concat,
}
use link_scheduling.Prelude.Text.{Bytes, codes, eq_bytes}
use link_scheduling.Request.{Request}
use link_scheduling.Scheduling.{rr}
use link_scheduling.World.{World, send_all, send_loop, at_fd}
use link_scheduling.World.Send.{SentPart, send_all-SentPart, delivered}
use link_scheduling.FileIo.{is_valid_filename, contains}
use link_scheduling.Server.Get.{served, serve_get}
use link_scheduling.Server.Get.Lines.{IsRound}
use link_scheduling.Server.Get.Round.{IsAbout, left_lines, after_round, header}
use link_scheduling.Server.Get.Budget.{serve_get-IsRound}
use link_scheduling.Worker.{Setup, worker_round}
use link_scheduling.Worker.Deliver.{IsDownload, nothing_sent, DeliverOutcome}
use link_scheduling.Worker.Deliver.Round.{worker_round-DeliverOutcome}
use link_scheduling.Worker.Keeps.{Same, about, worker_round-Same}
use link_scheduling.Examples.{job, directory, disk, text}
use link_scheduling.Examples.Texts.{text-Holds}

-- A socket that takes two bytes, then one, and then fails.
abbrev slow : World
slow = record disk { sends = some 2 ∷ some 1 ∷ none ∷ [] }

send_all-SentPart_example :
    (part : Bytes) × ((send_all 4 text slow).1.sent ≡ at_fd slow.sent 4 (slow.sent 4 ++ part))
    × SentPart (send_all 4 text slow).0 text part
send_all-SentPart_example = send_all-SentPart 4 text slow

cut_short : (send_all 4 text slow).1.sent 4 ≡ codes "ab\n"
unfolding send_all send_loop
cut_short = refl

abbrev pub whole_file : Request
whole_file = job 1 9 10

whole_file-IsAbout : IsAbout whole_file text
whole_file-IsAbout = record { total = refl; reached = omega arith }

is_valid_name : is_valid_filename (codes "a.txt") ≡ true
unfolding is_valid_filename contains eq_bytes
is_valid_name = refl

-- A budget of eight bytes holds the first two lines.
serve_get-IsRound_example :
    (ts : List Bytes) × IsRound 8 true (left_lines whole_file text) ts
    × (serve_get whole_file directory 8 true 1 disk ≡ (
      served true
          (record (after_round 8 true whole_file text) { response_sent = true })
          (length (concat ts)),
      delivered 4 (header whole_file ++ concat ts) disk,
    ))
serve_get-IsRound_example =
    serve_get-IsRound whole_file directory text 8 true 1 disk is_valid_name text-Holds refl
      whole_file-IsAbout (omega arith) (omega arith)

abbrev pub round_robin : Setup
round_robin = record {
  file_dir = directory;
  scheduler = record { policy = rr; quantum = 8 };
  packetization = 1;
}

worker_round-Same_example : Same whole_file (about (worker_round round_robin whole_file 8 disk).0)
worker_round-Same_example = worker_round-Same round_robin whole_file 8 disk

pub whole_file-IsDownload : IsDownload [] text directory whole_file disk
whole_file-IsDownload = record {
  op = refl;
  valid_name = is_valid_name;
  holds = text-Holds;
  sends_all = refl;
  about = whole_file-IsAbout;
  has_sent = nothing_sent refl refl refl;
}

worker_round-DeliverOutcome_example :
    DeliverOutcome [] text directory (worker_round round_robin whole_file 8 disk)
worker_round-DeliverOutcome_example =
    worker_round-DeliverOutcome round_robin [] text 8 (omega arith) whole_file disk
      whole_file-IsDownload
