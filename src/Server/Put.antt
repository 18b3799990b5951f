-- ===== src/Server/Put.antt =====
-- server.cpp: serve_put, a scheduling round of a PUT. The upload goes to a staging file, which the
-- worker renames once the last byte is there. A write may fail at once, or when the stream is closed.
pub mod Stream
pub mod Unflushed
pub mod Loops
pub mod Upload
pub mod Success
pub mod Receives
use link_scheduling.Prelude.{
  ℕ, zero, suc, ◌+◌, ◌-◌, min, max, List, Bool, true, false, not, ◌&&◌, Option, none, some, [], ◌∷◌,
  ◌++◌, ltb, ◌==◌, if◌then◌else◌, length, take, drop, add64, sub64,
}
use link_scheduling.Prelude.Text.{Bytes, codes}
use link_scheduling.Prelude.Decimal.{to_string_int}
use link_scheduling.Request.{Request}
use link_scheduling.World.{M, pure, ◌>>=◌, ◌>>◌, at_path, draw_fault, recv_data_with_timeout}
use link_scheduling.FileIo.{close_stream, is_valid_filename, path_in, is_streamoff, store}
use link_scheduling.Server.Get.{Served, served, refuse}

-- `CHUNK_SIZE`.
abbrev pub chunk_size : ℕ
chunk_size = 8192

-- `req.filename + ".upload." + std::to_string(req.request_id)`.
unfoldable pub staging_name : Request → Bytes
staging_name req = req.filename ++ (codes ".upload." ++ to_string_int req.request_id)

-- Zeros up to a position behind the end, as a write there leaves them.
abbrev pub pad_to : ℕ → Bytes → Bytes
pad_to zero s = []
pad_to (suc n) [] = 0 ∷ pad_to n []
pad_to (suc n) (c ∷ cs) = c ∷ pad_to n cs

-- A file's content after `bytes` have been written at `pos`.
unfoldable pub overwrite : Bytes → ℕ → Bytes → Bytes
overwrite content pos bytes = pad_to pos content ++ (bytes ++ drop (pos + length bytes) content)

abbrev pub content_or_empty : Option Bytes → Bytes
content_or_empty none = []
content_or_empty (some content) = content

-- `file.write(…)` at the stream's position; `true` means that the stream is still good.
unfoldable pub write_bytes : Bytes → ℕ → Bytes → M Bool
unfolding draw_fault overwrite
write_bytes path pos bytes = do
  fails ← draw_fault
  (λ w. (
    not fails,
    if fails then w else store w path (overwrite (content_or_empty (w.files path)) pos bytes),
  ))

-- `std::ofstream` with trunc: creates the file, or empties it.
unfoldable pub create_file : Bytes → M Bool
unfolding draw_fault
create_file path = do fails ← draw_fault; (λ w. (not fails, if fails then w else store w path []))

-- `std::fstream` for reading and writing: needs the file to be there.
abbrev pub is_there : Option Bytes → Bool
is_there none = false
is_there (some content) = true

unfoldable pub open_update : Bytes → M Bool
unfolding draw_fault
open_update path = do fails ← draw_fault; (λ w. (not fails && is_there (w.files path), w))

-- The first loop: bytes that arrived with the header. It stops with no bytes of the round left, or
-- with none pending, in one turn; `none` is a failed write.
pub record Progress : Type 0 where
  pub good : Bool
  pub request : Request
  pub processed : ℕ
  pub left : ℕ

unfoldable pub pending_loop : ℕ → Bytes → Request → ℕ → ℕ → ℕ → M Progress
pending_loop zero path req pos processed remaining_round w =
    (record { good = true; request = req; processed = processed; left = remaining_round }, w)
pending_loop (suc fuel) path req pos processed remaining_round w =
    elim (ltb 0 remaining_round && ltb req.pending_offset (length req.pending_bytes)) [
      | false ↦
          (record { good = true; request = req; processed = processed; left = remaining_round }, w)
      | true ↦
          let chunk = min remaining_round (length req.pending_bytes - req.pending_offset) in
          let wrote =
            write_bytes path pos (take chunk (drop req.pending_offset req.pending_bytes)) w in
          let req' = record req { pending_offset = add64 req.pending_offset chunk } in
          let more =
            pending_loop fuel path req' (pos + chunk) (add64 processed chunk)
              (remaining_round - chunk) wrote.1 in
          if wrote.0 then more else (
            record { good = false; request = req; processed = processed; left = remaining_round },
            wrote.1,
          )
    ]

-- `file.close(); send_error(…); return false;`.
abbrev pub abandon : Bytes → Request → Bytes → ℕ → M Served
abandon path req reason processed = do close_stream path req.offset; refuse req reason processed

-- The second loop: bytes from the socket, a chunk at most at a time. recv gives a byte at least,
-- or the loop ends, so one turn more than the round has bytes is enough.
unfoldable pub receive_loop : ℕ → Bytes → Request → ℕ → ℕ → ℕ → ℕ → M Served
receive_loop zero path req buffer_size pos processed remaining_round w =
    (served false req processed, w)
receive_loop (suc fuel) path req buffer_size pos processed remaining_round w =
    elim (ltb 0 remaining_round) [
      | false ↦ (served true req processed, w)
      | true ↦
          let got = recv_data_with_timeout req.client_fd (min buffer_size remaining_round) w in
          elim got.0 [
            | none ↦ abandon path req (codes "receive error") processed got.1
            | some [] ↦ abandon path req (codes "incomplete upload") processed got.1
            | some (c ∷ cs) ↦
                let received = suc (length cs) in
                let wrote = write_bytes path pos (c ∷ cs) got.1 in
                let more =
                  receive_loop fuel path req buffer_size (pos + received) (add64 processed received)
                    (sub64 remaining_round received) wrote.1 in
                if wrote.0
                then more
                else abandon path req (codes "file write error") processed wrote.1
          ]
    ]

-- The two loops, on the opened stream.
unfoldable pub put_loops : Request → Bytes → ℕ → M Served
put_loops req path budget w =
    let to_receive = min budget (sub64 req.total_bytes req.offset) in
    let pending = pending_loop (suc to_receive) path req req.offset 0 to_receive w in
    if pending.0.good
    then receive_loop (suc to_receive) path pending.0.request (min chunk_size to_receive)
        (req.offset + pending.0.processed) pending.0.processed pending.0.left pending.1
    else abandon path pending.0.request (codes "file write error") pending.0.processed pending.1

-- The round behind the opened stream, with its end: `file.close(); return true;`.
unfoldable pub put_bytes : Request → Bytes → ℕ → M Served
put_bytes req path budget = do
  result ← put_loops req path budget
  closed ← (if result.success then close_stream path req.offset else pure tt)
  pure result

unfoldable pub put_round : Request → Bytes → ℕ → M Served
put_round req path budget = do
  opened ← open_update path
  if not opened
      then refuse req (codes "cannot open file") 0
      else if not (is_streamoff req.offset)
      then refuse req (codes "file seek error") 0
      else put_bytes req path budget

-- In the first round the request is given its staging file.
unfoldable pub staged : Request → Request
staged req = if req.offset == 0 then record req { staging_filename = staging_name req } else req

-- The round of a request whose staging file is `path`: an upload of no bytes is only created.
unfoldable pub put_staged : Request → Bytes → ℕ → M Served
put_staged req path budget =
    if req.total_bytes == 0
    then (do created ← create_file path; pure (served created req 0))
    else if req.offset == 0
    then (do
      created ← create_file path
      if created then put_round req path budget else refuse req (codes "cannot create file") 0)
    else put_round req path budget

unfoldable pub serve_put : Request → Bytes → ℕ → M Served
serve_put req file_dir budget =
    if not (is_valid_filename req.filename)
    then refuse req (codes "invalid filename") 0
    else let req' = staged req in put_staged req' (path_in file_dir req'.staging_filename) budget
