-- ===== src/Client/Requests.antt =====
-- client.cpp: get_file, put_file and health.
use link_scheduling.Prelude.{
  ℕ, ◌-◌, ◌%◌, Bool, true, false, not, ◌||◌, Option, none, some, [], ◌∷◌, ◌++◌, ltb, ◌==◌,
  if◌then◌else◌, length, take, drop, u64_mod,
}
use link_scheduling.Prelude.Text.{Bytes, codes, eq_bytes}
use link_scheduling.Prelude.Decimal.{digits_value}
use link_scheduling.Queue.{is_empty}
use link_scheduling.World.{M, pure, ◌>>=◌, ◌>>◌, send_all, close_socket}
use link_scheduling.FileIo.{open_input}
use link_scheduling.Protocol.{skip_space}
use link_scheduling.Protocol.Header.{get_header, put_header}
use link_scheduling.Server.Put.{create_file}
use link_scheduling.FileIo.{close_stream}
use link_scheduling.Config.Number.{starts, read_digits}
use link_scheduling.Client.{read_status_line, recv_exact}

-- `close(sock); return 1;`
unfoldable pub close_failed : ℕ → M ℕ
unfolding close_socket
close_failed sock = do close_socket sock; pure 1

-- `response.rfind("OK ", 0) == 0`.
abbrev pub is_ok : Bytes → Bool
is_ok response = eq_bytes (take 3 response) (codes "OK ")

-- std::stoull; `none` is an exception. Space, a sign and digits are read, and the rest is not.
unfoldable pub signed_value : Bool → Bytes → Option ℕ
unfolding read_digits digits_value
signed_value minus s =
    let digits = (read_digits s).0 in
    let value = digits_value 0 digits in
    if is_empty digits || not (ltb value u64_mod)
    then none
    else some (if minus then (u64_mod - value) % u64_mod else value)

unfoldable pub read_stoull : Bytes → Option ℕ
unfolding skip_space signed_value
read_stoull text =
    let s = skip_space text in
    if starts b'-' s
    then signed_value true (drop 1 s)
    else if starts b'+' s
    then signed_value false (drop 1 s)
    else signed_value false s

-- The output file, if one is wanted.
unfoldable pub open_output : Bool → Bytes → M Bool
unfolding create_file
open_output write_to_disk filename = if write_to_disk then create_file filename else pure true

abbrev pub sink : Bool → Bytes → Option Bytes
sink write_to_disk filename = if write_to_disk then some filename else none

-- get_file behind the status line and its number. Nobody asks whether `output.close()` has failed.
unfoldable pub get_data : ℕ → Bytes → Bool → Bytes → Option ℕ → M ℕ
unfolding close_failed open_output recv_exact close_socket
get_data sock filename write_to_disk leftover none = close_failed sock
get_data sock filename write_to_disk leftover (some file_size) = do
  opened ← open_output write_to_disk filename
  if not opened then close_failed sock else (do
    received ← recv_exact sock file_size leftover (sink write_to_disk filename)
    flushed ← (if write_to_disk then close_stream filename 0 else pure tt)
    close_socket sock
    pure (if received then 0 else 1))

unfoldable pub get_answer : ℕ → Bytes → Bool → Option (Bytes × Bytes) → M ℕ
unfolding close_failed get_data read_stoull
get_answer sock filename write_to_disk none = close_failed sock
get_answer sock filename write_to_disk (some (response, leftover)) =
    if is_ok response
    then get_data sock filename write_to_disk leftover (read_stoull (drop 3 response))
    else close_failed sock

unfoldable pub get_file : Option ℕ → Bytes → Bool → M ℕ
unfolding send_all close_failed read_status_line get_answer
get_file none filename write_to_disk = pure 1
get_file (some sock) filename write_to_disk = do
  sent ← send_all sock (get_header filename)
  if not sent
      then close_failed sock
      else (do answer ← read_status_line sock; get_answer sock filename write_to_disk answer)

-- fs::path(…).filename() on what is left of a path: what stands behind the last slash.
unfoldable pub path_filename : Bytes → Bytes → Bytes
path_filename name [] = name
path_filename name (c ∷ s) = path_filename (if c == b'/' then [] else name ++ c ∷ []) s

abbrev pub is_wire_name : Bytes → Bool
is_wire_name name = not (is_empty name || (eq_bytes name (codes ".") || eq_bytes name (codes "..")))

abbrev pub put_line : Bytes → Bytes → Bytes
put_line name content = put_header name (length content)

-- put_file behind its data: the final status line.
unfoldable pub put_final : Option (Bytes × Bytes) → M ℕ
put_final none = pure 1
put_final (some (response, leftover)) = pure (if eq_bytes response (codes "OK 0\n") then 0 else 1)

unfoldable pub put_data : ℕ → Bytes → Option (Bytes × Bytes) → M ℕ
unfolding close_failed send_all read_status_line put_final close_socket
put_data sock content none = close_failed sock
put_data sock content (some (initial, leftover)) =
    if is_ok initial
    then (do
      sent ← (if is_empty content then pure true else send_all sock content)
      if not sent
          then close_failed sock
          else (do answer ← read_status_line sock; close_socket sock; put_final answer))
    else close_failed sock

unfoldable pub put_connected : Option ℕ → Bytes → Bytes → M ℕ
unfolding send_all close_failed read_status_line put_data
put_connected none name content = pure 1
put_connected (some sock) name content = do
  sent ← send_all sock (put_line name content)
  if not sent
      then close_failed sock
      else (do answer ← read_status_line sock; put_data sock content answer)

unfoldable pub put_content : Option ℕ → Bytes → Option Bytes → M ℕ
unfolding path_filename put_connected
put_content sock local_path none = pure 1
put_content sock local_path (some content) =
    let name = path_filename [] local_path in
    if is_wire_name name then put_connected sock name content else pure 1

unfoldable pub put_file : Option ℕ → Bytes → M ℕ
unfolding open_input put_content
put_file sock local_path w = put_content sock local_path (open_input w local_path) w

-- health: the line that it shows, or none with exit status 1.
unfoldable pub health : Option ℕ → M (Option Bytes)
unfolding send_all close_socket read_status_line
health none = pure none
health (some sock) = do
  sent ← send_all sock (codes "HEALTH\n")
  if not sent then (do close_socket sock; pure none) else (do
    answer ← read_status_line sock
    close_socket sock
    pure (elim answer [ none ↦ none | some (response, leftover) ↦ some response ]))
