-- ===== src/Examples/Delivering.antt =====
-- All the rounds of a GET, and the client at the other end.
use link_scheduling.Prelude.{
  refl, true, sym, ap, ◌∙◌, arith, some, [], ◌++◌, ◌<◌, ◌≡◌, append-nil, length,
}
use link_scheduling.Prelude.Text.{codes}
use link_scheduling.Protocol.{ok_line}
use link_scheduling.Server.Put.Stream.{stream}
use link_scheduling.Scheduling.{rr, drr, make_scheduler}
use link_scheduling.Client.Requests.{get_file}
use link_scheduling.Client.Download.{IsDownloaded}
use link_scheduling.Worker.{Setup}
use link_scheduling.Worker.Deliver.Progress.{distance}
use link_scheduling.Worker.Deliver.Whole.{run_rounds, IsServed, run_rounds-IsServed}
use link_scheduling.Worker.Deliver.Received.{run_rounds-sent, get_file-run_rounds}
use link_scheduling.Examples.{directory, disk, text}
use link_scheduling.Examples.Fetching.{answering, whole_answer}
use link_scheduling.Examples.Rounds.{whole_file, whole_file-IsDownload, round_robin}

rr_accepted : make_scheduler rr 8 ≡ some round_robin.scheduler
unfolding make_scheduler
rr_accepted = refl

abbrev deficit_round_robin : Setup
deficit_round_robin = record {
  file_dir = directory;
  scheduler = record { policy = drr; quantum = 2 };
  packetization = 4;
}

drr_accepted : make_scheduler drr 2 ≡ some deficit_round_robin.scheduler
unfolding make_scheduler
drr_accepted = refl

enough : distance text whole_file < 100
enough = omega arith

run_rounds-IsServed_example : IsServed [] text (run_rounds 100 deficit_round_robin whole_file disk)
run_rounds-IsServed_example =
    run_rounds-IsServed deficit_round_robin [] text drr 2 drr_accepted (omega arith) (omega arith)
      100 whole_file disk whole_file-IsDownload (omega arith) enough

-- What the server sends comes to the client in three parts.
sent_answer : stream (answering.arrivals 5) ≡ (run_rounds 100 round_robin whole_file disk).1.sent 4
sent_answer =
    whole_answer
    ∙ ap (◌++◌ (ok_line (length text))) (append-nil text)
    ∙ sym (
        run_rounds-sent round_robin text rr 8 100 whole_file disk rr_accepted (omega arith)
          (omega arith) whole_file-IsDownload (omega arith) enough)

get_file-run_rounds_example :
    IsDownloaded 5 (codes "a.txt") text answering (get_file (some 5) (codes "a.txt") true answering)
get_file-run_rounds_example =
    get_file-run_rounds round_robin text rr 8 100 whole_file disk rr_accepted (omega arith)
      (omega arith) whole_file-IsDownload (omega arith) enough 5 answering refl refl refl tt
      sent_answer
