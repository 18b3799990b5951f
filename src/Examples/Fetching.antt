-- ===== src/Examples/Fetching.antt =====
-- The client: a download and an upload, cut up and delayed.
use link_scheduling.Prelude.{ℕ, ◌≡◌, refl, true, none, some, List, [], ◌∷◌, ◌++◌, arith, length}
use link_scheduling.Prelude.Text.{codes, eq_bytes}
use link_scheduling.Prelude.Decimal.{to_string, decimal_onto, digits_value}
use link_scheduling.World.{
  World, Arrival, arrives, pauses, breaks, at_path, draw_fault, send_all, send_loop, close_socket,
}
use link_scheduling.FileIo.{close_stream, open_input, getline}
use link_scheduling.Protocol.{ok_line, skip_space}
use link_scheduling.Server.Put.{create_file, write_bytes, overwrite}
use link_scheduling.Server.Put.Stream.{stream}
use link_scheduling.Config.Number.{read_digits}
use link_scheduling.Client.{
  recv_from, recv, status_loop, read_status_line, write_out, prefix_loop, exact_by, exact_loop,
  exact_rest, recv_exact,
}
use link_scheduling.Client.Requests.{
  read_stoull, signed_value, open_output, get_data, get_answer, get_file, path_filename, put_final,
  put_data, put_connected, put_content, put_file,
}
use link_scheduling.Client.Got.{GotOutcome, get_file-GotOutcome}
use link_scheduling.Client.Download.{IsDownloaded, get_file-IsDownloaded}
use link_scheduling.Examples.{disk, text}

abbrev with_arrivals : List Arrival → World
with_arrivals queued = record disk {
  arrivals = λ _. queued;
  files = at_path (λ _. none) (codes "out/up.txt") (some (codes "abc"));
}

-- The answer to a GET comes in three parts.
abbrev pub answering : World
answering =
    with_arrivals
      (arrives (codes "OK 9") ∷ pauses ∷ arrives (codes "\nab\ncd") ∷ arrives (codes "e\nf\n") ∷ [])

pub whole_answer : stream (answering.arrivals 5) ≡ ok_line (length text) ++ (text ++ [])
unfolding to_string decimal_onto
whole_answer = refl

get_file-IsDownloaded_example :
    IsDownloaded 5 (codes "a.txt") text answering (get_file (some 5) (codes "a.txt") true answering)
get_file-IsDownloaded_example =
    get_file-IsDownloaded 5 (codes "a.txt") text [] answering refl refl refl tt (omega arith)
      whole_answer

-- An answer that breaks off.
abbrev cut : World
cut = with_arrivals (arrives (codes "OK 9\nab") ∷ breaks ∷ [])

get_file-GotOutcome_example :
    GotOutcome
      (stream (cut.arrivals 5))
      (codes "a.txt")
      (get_file (some 5) (codes "a.txt") true cut)
get_file-GotOutcome_example = get_file-GotOutcome 5 (codes "a.txt") cut refl

cut_fails : (get_file (some 5) (codes "a.txt") true cut).0 ≡ 1
unfolding get_file send_all send_loop read_status_line status_loop recv recv_from getline get_answer
    get_data open_output create_file draw_fault read_stoull signed_value skip_space read_digits
    digits_value eq_bytes recv_exact prefix_loop write_out write_bytes overwrite exact_loop exact_by
    exact_rest close_socket
cut_fails = refl

-- The last byte is lost when the output is closed, and the exit status is 0 all the same.
abbrev cut_run : ℕ × World
cut_run =
    get_file (some 5) (codes "a.txt") true
      (record (with_arrivals (arrives (codes "OK 3\nabc") ∷ [])) { unflushed = 1 ∷ [] })

cut_short : (cut_run.0 ≡ 0) × (cut_run.1.files (codes "a.txt") ≡ some (codes "ab"))
unfolding get_file send_all send_loop read_status_line status_loop recv recv_from getline get_answer
    get_data open_output create_file draw_fault read_stoull signed_value skip_space read_digits
    digits_value eq_bytes recv_exact prefix_loop write_out write_bytes overwrite exact_loop exact_by
    exact_rest close_socket close_stream
cut_short = (refl, refl)

-- The server accepts an upload and confirms it.
abbrev accepting : World
accepting = with_arrivals (arrives (codes "OK 3\n") ∷ arrives (codes "OK 0\n") ∷ [])

upload_succeeds :
    let run = put_file (some 5) (codes "out/up.txt") accepting in
    (run.0 ≡ 0) × (run.1.sent 5 ≡ codes "PUT up.txt 3\nabc")
unfolding put_file put_content put_connected put_data put_final path_filename open_input send_all
    send_loop read_status_line status_loop recv recv_from getline eq_bytes close_socket to_string
    decimal_onto
upload_succeeds = (refl, refl)
