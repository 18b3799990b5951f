-- ===== src/FileIo.antt =====
-- file_io.h, file_io.cpp: names of files, and reading them line by line. A path is its bytes, and
-- the files are the regular files of the World.
pub mod Lines
use link_scheduling.Prelude.{
  ℕ, zero, suc, ◌+◌, ◌-◌, ◌^◌, max, Bool, true, false, not, ◌||◌, Option, none, some, List, [], ◌∷◌,
  ◌++◌, ltb, ◌==◌, if◌then◌else◌, length, take, drop,
}
use link_scheduling.Prelude.Text.{Bytes, codes, eq_bytes}
use link_scheduling.Queue.{is_empty}
use link_scheduling.World.{World, M, pure, ◌>>=◌, draw_fault, at_path}

-- `find(c) != npos`.
unfoldable pub contains : ℕ → Bytes → Bool
contains c [] = false
contains c (x ∷ xs) = x == c || contains c xs

unfoldable pub is_valid_filename : Bytes → Bool
is_valid_filename name =
    if is_empty name
    then false
    else if eq_bytes name (codes ".") || eq_bytes name (codes "..")
    then false
    else if contains b'/' name
    then false
    else true

unfoldable pub is_path_safe : Bytes → Bool
unfolding is_valid_filename
is_path_safe name = is_valid_filename name

-- `file_dir + "/" + name`.
abbrev pub path_in : Bytes → Bytes → Bytes
path_in dir name = dir ++ b'/' ∷ name

abbrev pub is_some {ℓ} : {A : Type ℓ} → Option A → Bool
is_some none = false
is_some (some a) = true

abbrev pub size_or_zero : Option Bytes → ℕ
size_or_zero none = 0
size_or_zero (some content) = length content

unfoldable pub file_exists : World → Bytes → Bool
file_exists w path = is_some (w.files path)

unfoldable pub get_file_size : World → Bytes → ℕ
get_file_size w path = size_or_zero (w.files path)

-- An input stream on the file: its content, if it can be opened.
unfoldable pub open_input : World → Bytes → Option Bytes
open_input w path = if w.unreadable path then none else w.files path

-- `static_cast<std::streamoff>(offset)` is not negative.
abbrev pub is_streamoff : ℕ → Bool
is_streamoff offset = ltb offset (2 ^ 63)

-- A seek that fails leaves the stream with nothing to read.
unfoldable pub read_file_chunk : World → Bytes → ℕ → ℕ → Bytes
unfolding open_input
read_file_chunk w path offset bytes = elim (open_input w path) [
  | none ↦ []
  | some content ↦ if is_streamoff offset then take bytes (drop offset content) else []
]

-- std::getline: the line without its end, what is behind it, and whether a line end was found.
unfoldable pub getline : Bytes → Bytes × Bytes × Bool
getline [] = ([], [], false)
getline (c ∷ cs) =
    let rest = getline cs in if c == b'\n' then ([], cs, true) else (c ∷ rest.0, rest.1, rest.2)

-- getline at a place with something left to read, and the new offset: tellg, or the size of the
-- file once the stream is at its end.
unfoldable pub line_from : Bytes → ℕ → ℕ → Bytes × ℕ
unfolding getline
line_from rest offset file_size =
    let got = getline rest in
    if got.2 then (got.0 ++ b'\n' ∷ [], offset + length got.0 + 1) else (got.0, file_size)

-- getline fails where nothing is left to read.
abbrev pub next_line : Bytes → ℕ → ℕ → Option (Bytes × ℕ)
next_line [] offset file_size = none
next_line (c ∷ cs) offset file_size = some (line_from (c ∷ cs) offset file_size)

unfoldable pub read_file_line : World → Bytes → ℕ → Option (Bytes × ℕ)
unfolding open_input get_file_size
read_file_line w path offset = elim (open_input w path) [
  | none ↦ none
  | some content ↦
      if is_streamoff offset
      then next_line (drop offset content) offset (get_file_size w path)
      else none
]

-- The file system after `path` has been given `content`.
abbrev pub store : World → Bytes → Bytes → World
store w path content = record w { files = at_path w.files path (some content) }

-- What is left of a file whose stream has written from `start` on and loses its last `n` bytes.
abbrev pub cut : ℕ → ℕ → Option Bytes → Option Bytes
cut start n none = none
cut start n (some content) = some (take (max start (length content - n)) content)

abbrev pub lose : Bytes → ℕ → List ℕ → M (Unit {0})
lose path start [] w = (tt, w)
lose path start (n ∷ later) w =
    (tt, record w { unflushed = later; files = at_path w.files path (cut start n (w.files path)) })

-- `file.close()`, or the destructor, of a stream that has written at the end of the file, from `start`
-- on: it writes out its buffer, and nobody asks whether that has failed.
unfoldable pub close_stream : Bytes → ℕ → M (Unit {0})
close_stream path start w = lose path start w.unflushed w

-- The write of write_file_data, if there is one, and `file.good()`.
unfoldable pub write_opened_data : Bytes → Bytes → M Bool
unfolding draw_fault
write_opened_data path bytes = if is_empty bytes then (λ w. (true, store w path [])) else (do
  cannot_write ← draw_fault
  (λ w. (not cannot_write, store w path (if cannot_write then [] else bytes))))

unfoldable pub write_file_data : Bytes → Bytes → M Bool
unfolding draw_fault
write_file_data path bytes = do
  cannot_open ← draw_fault
  if cannot_open
      then pure false
      else (do good ← write_opened_data path bytes; closed ← close_stream path 0; pure good)
