-- ===== src/Admission.antt =====
-- main.cpp: parser_thread, from a socket to a request in the queue. A turn of its loop calls the
-- RequestQueue once at most, size() or push(), so it is given the queue as it is at that call.
pub mod Accepts
use link_scheduling.Prelude.{
  ℕ, ◌+◌, ◌^◌, ◌%◌, Bool, true, false, not, Option, none, some, List, [], ◌∷◌, if◌then◌else◌,
}
use link_scheduling.Prelude.Text.{Bytes, codes}
use link_scheduling.Request.{Operation, get, put, health, Request}
use link_scheduling.Queue.{RequestQueue, is_empty, push, size}
use link_scheduling.World.{M, World, at_path, pure, ◌>>=◌, ◌>>◌, monotonic_ns, close_socket}
use link_scheduling.FileIo.{is_valid_filename, path_in, file_exists, get_file_size}
use link_scheduling.Protocol.{Result, ok, throws, parse_request_header, send_response, send_error}
use link_scheduling.Socket.{read_header_line}

-- What the threads share: the queue, and the number of the next request, an int.
pub record Entry : Type 0 where
  pub requests : RequestQueue
  pub next_request_id : ℕ

-- `send_error(…); close_socket(…); continue;`.
unfoldable pub reject : ℕ → Bytes → Entry → M Entry
reject fd reason entry = do send_error fd reason; close_socket fd; pure entry

-- The request gets its number and its arrival time, and is pushed.
unfoldable pub enqueue : ℕ → Request → Entry → M Entry
enqueue fd req entry = do
  now ← monotonic_ns
  let numbered = record req { request_id = entry.next_request_id; arrival_ns = now }
  let pushed = push entry.requests numbered
  let entry' : Entry = record {
    requests = pushed.0;
    next_request_id = (entry.next_request_id + 1) % 2 ^ 32;
  }
  if pushed.1 then pure entry' else reject fd (codes "server shutting down") entry'

-- get_file_size, a second look at a file that may have gone since the first one.
abbrev pub vanish : List Bool → Bytes → M ℕ
vanish [] path w = (get_file_size w path, w)
vanish (false ∷ later) path w = (get_file_size w path, record w { vanishings = later })
vanish (true ∷ later) path w =
    let v : World = record w { vanishings = later; files = at_path w.files path none } in
    (get_file_size v path, v)

unfoldable pub look_again : Bytes → M ℕ
look_again path w = vanish w.vanishings path w

-- The size of the file that a GET asks for.
unfoldable pub measure : Bytes → ℕ → Request → Entry → M Entry
measure file_dir fd req entry w =
    let path = path_in file_dir req.filename in
    if file_exists w path
    then (do size ← look_again path; enqueue fd (record req { total_bytes = size }) entry) w
    else reject fd (codes "file not found") entry w

unfoldable pub admit : Operation → Bytes → ℕ → Request → Entry → M Entry
admit health file_dir fd req entry = do
  send_response fd (size entry.requests)
  close_socket fd
  pure entry
admit get file_dir fd req entry =
    if is_valid_filename req.filename
    then measure file_dir fd req entry
    else reject fd (codes "invalid filename") entry
admit put file_dir fd req entry =
    if is_valid_filename req.filename
    then enqueue fd req entry
    else reject fd (codes "invalid filename") entry

-- The try block; an exception is answered with its text.
unfoldable pub admit_parsed : Bytes → ℕ → Bytes → Result Request → Entry → M Entry
admit_parsed file_dir fd leftover (throws reason) entry = reject fd reason entry
admit_parsed file_dir fd leftover (ok req) entry =
    admit req.op file_dir fd (record req { pending_bytes = leftover }) entry

-- A turn of the loop, for a socket that FdQueue has handed over.
unfoldable pub parser_turn : Bytes → ℕ → Entry → M Entry
parser_turn file_dir fd entry = do
  got ← read_header_line fd 1000
  if is_empty got.0
      then reject fd (codes "timeout or invalid request") entry
      else admit_parsed file_dir fd got.1 (parse_request_header got.0 fd) entry
