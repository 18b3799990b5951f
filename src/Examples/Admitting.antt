-- ===== src/Examples/Admitting.antt =====
-- A PUT header that arrives in two pieces, with the first bytes of its upload.
use link_scheduling.Prelude.{◌≡◌, refl, true, false, List, [], ◌∷◌, ◌==◌, if◌then◌else◌}
use link_scheduling.Prelude.Text.{codes}
use link_scheduling.World.{World, arrives, recv_data_with_timeout}
use link_scheduling.FileIo.{getline}
use link_scheduling.Socket.{steady_now, header_loop, read_header_line}
use link_scheduling.Socket.Header.{HeaderOutcome, read_header_line-HeaderOutcome}
use link_scheduling.Server.Put.Stream.{stream}
use link_scheduling.Queue.Fd.{FdQueue}
use link_scheduling.Acceptor.{
  Turn, times_out, accepts, acceptor_loop, with_accepted, acceptor_loop-with_accepted,
}
use link_scheduling.Admission.{Entry, parser_turn}
use link_scheduling.Admission.Accepts.{ParserOutcome, parser_turn-ParserOutcome}
use link_scheduling.Examples.{directory, disk, three_jobs}

abbrev connected : World
connected = record disk {
  clock = λ n. (0, n);
  arrivals =
      λ fd. if fd == 4 then arrives (codes "PUT b.t") ∷ arrives (codes "xt 5\nhe") ∷ [] else [];
}

split_header : (read_header_line 4 1000 connected).0 ≡ (codes "PUT b.txt 5\n", codes "he")
unfolding read_header_line header_loop steady_now recv_data_with_timeout getline
split_header = refl

read_header_line-HeaderOutcome_example :
    HeaderOutcome 4 (stream (connected.arrivals 4)) (read_header_line 4 1000 connected)
read_header_line-HeaderOutcome_example = read_header_line-HeaderOutcome 4 1000 connected

abbrev entry : Entry
entry = record { requests = three_jobs; next_request_id = 4 }

parser_turn-ParserOutcome_example :
    ParserOutcome directory 4 entry connected (parser_turn directory 4 entry connected)
parser_turn-ParserOutcome_example = parser_turn-ParserOutcome directory 4 entry connected

abbrev turns : List Turn
turns =
    record { flag = false; poll = accepts 5; flag_after = false }
    ∷ record { flag = false; poll = times_out; flag_after = false }
    ∷ record { flag = false; poll = accepts 6; flag_after = true }
    ∷ record { flag = true; poll = accepts 7; flag_after = true }
    ∷ []

abbrev one_socket : FdQueue
one_socket = record { queue = 4 ∷ []; closed = false }

acceptor_loop-with_accepted_example :
    acceptor_loop turns one_socket connected ≡ (with_accepted one_socket turns, connected)
acceptor_loop-with_accepted_example = acceptor_loop-with_accepted turns one_socket connected refl

three_sockets : with_accepted one_socket turns ≡ record { queue = 4 ∷ 5 ∷ 6 ∷ []; closed = true }
three_sockets = refl
