-- ===== src/Protocol.antt =====
-- protocol.h, protocol.cpp: the request header, and the two kinds of response.
pub mod Tokens
pub mod Header
pub mod Fresh
use link_scheduling.Prelude.{
  ℕ, ◌+◌, ◌-◌, Bool, true, false, not, ◌&&◌, ◌||◌, Option, none, some, List, [], ◌∷◌, ◌++◌, ltb,
  leb, ◌==◌, if◌then◌else◌, map,
}
use link_scheduling.Prelude.Text.{Bytes, codes, eq_bytes}
use link_scheduling.Prelude.Decimal.{is_digit, to_string, stoull}
use link_scheduling.Request.{Operation, get, put, health, Request}
use link_scheduling.Queue.{is_empty}
use link_scheduling.World.{M, pure, ◌>>=◌, ◌>>◌, send_all}

-- A value, or the text of the std::runtime_error that was thrown.
pub data Result {ℓ} (A : Type ℓ) : Type ℓ where
  ok : A → Result A
  throws : Bytes → Result A

abbrev is_line_end : ℕ → Bool
is_line_end c = c == b'\n' || c == b'\r'

-- The loop of pop_back calls: line ends at the end of the line.
unfoldable pub strip_line_end : Bytes → Bytes
strip_line_end [] = []
strip_line_end (c ∷ cs) =
    let rest = strip_line_end cs in if is_empty rest && is_line_end c then [] else c ∷ rest

-- std::isspace.
abbrev pub is_space : ℕ → Bool
is_space c = c == b' ' || (leb 9 c && leb c 13)

unfoldable pub skip_space : Bytes → Bytes
skip_space [] = []
skip_space (c ∷ cs) = if is_space c then skip_space cs else c ∷ cs

-- A word, up to the next space, and what stands behind it.
unfoldable pub read_word : Bytes → Bytes × Bytes
read_word [] = ([], [])
read_word (c ∷ cs) =
    let rest = read_word cs in if is_space c then ([], c ∷ cs) else (c ∷ rest.0, rest.1)

abbrev word_or_none : Bytes → Option (Bytes × Bytes)
word_or_none [] = none
word_or_none (c ∷ cs) = some (read_word (c ∷ cs))

-- `iss >> token`, on what is left in the stream.
unfoldable pub extract : Bytes → Option (Bytes × Bytes)
unfolding skip_space read_word
extract s = word_or_none (skip_space s)

-- std::toupper.
abbrev pub to_upper : ℕ → ℕ
to_upper c = if leb b'a' c && leb c b'z' then c - 32 else c

abbrev pub all_digits : Bytes → Bool
all_digits [] = true
all_digits (c ∷ cs) = is_digit c && all_digits cs

-- A Request with its default values, but for what the header says.
abbrev pub header_request : ℕ → Operation → Bytes → ℕ → Request
header_request fd op filename total = record {
  request_id = 0;
  client_fd = fd;
  op = op;
  filename = filename;
  total_bytes = total;
  offset = 0;
  rounds = 0;
  forfeited_bytes = 0;
  deficit = 0;
  a14_events = 0;
  arrival_ns = 0;
  start_ns = 0;
  finish_ns = 0;
  pending_bytes = [];
  pending_offset = 0;
  staging_filename = [];
  response_sent = false;
}

-- The branch of each operation, on what stands behind it in the line.
unfoldable pub parse_health : ℕ → Bytes → Result Request
parse_health fd s = elim (extract s) [
  | some extra ↦ throws (codes "HEALTH takes no arguments")
  | none ↦ ok (header_request fd health [] 0)
]

unfoldable pub parse_get : ℕ → Bytes → Result Request
parse_get fd s = elim (extract s) [
  | none ↦ throws (codes "GET requires filename")
  | some (filename, s') ↦ elim (extract s') [
    | some extra ↦ throws (codes "GET takes exactly one filename")
    | none ↦ ok (header_request fd get filename 0)
  ]
]

abbrev pub count_or_throw : ℕ → Bytes → Option ℕ → Result Request
count_or_throw fd filename none = throws (codes "invalid byte count")
count_or_throw fd filename (some bytes) = ok (header_request fd put filename bytes)

unfoldable pub put_count : ℕ → Bytes → Bytes → Result Request
unfolding stoull
put_count fd filename byte_string =
    if is_empty byte_string || not (all_digits byte_string)
    then throws (codes "invalid byte count")
    else count_or_throw fd filename (stoull byte_string)

unfoldable pub parse_put : ℕ → Bytes → Result Request
unfolding put_count
parse_put fd s = elim (extract s) [
  | none ↦ throws (codes "PUT requires filename")
  | some (filename, s') ↦ elim (extract s') [
    | none ↦ throws (codes "PUT requires byte count")
    | some (byte_string, s'') ↦ elim (extract s'') [
      | some extra ↦ throws (codes "PUT takes filename and byte count only")
      | none ↦ put_count fd filename byte_string
    ]
  ]
]

unfoldable pub parse_operation : ℕ → Bytes → Bytes → Result Request
unfolding parse_health parse_get parse_put
parse_operation fd op s =
    if eq_bytes op (codes "HEALTH")
    then parse_health fd s
    else if eq_bytes op (codes "GET")
    then parse_get fd s
    else if eq_bytes op (codes "PUT")
    then parse_put fd s
    else throws (codes "unknown operation: " ++ op)

unfoldable pub parse_request_header : Bytes → ℕ → Result Request
unfolding parse_operation
parse_request_header header_line fd =
    let line = strip_line_end header_line in
    if is_empty line then throws (codes "empty request") else elim (extract line) [
      | none ↦ throws (codes "missing operation")
      | some (op, s) ↦ parse_operation fd (map to_upper op) s
    ]

-- The text of a response; a failure of send_all is only reported on the server's console.
abbrev pub ok_line : ℕ → Bytes
ok_line value = codes "OK " ++ (to_string value ++ b'\n' ∷ [])

abbrev pub err_line : Bytes → Bytes
err_line reason = codes "ERR " ++ (reason ++ b'\n' ∷ [])

unfoldable pub send_response : ℕ → ℕ → M (Unit {0})
unfolding send_all
send_response fd value = do sent ← send_all fd (ok_line value); pure tt

unfoldable pub send_error : ℕ → Bytes → M (Unit {0})
unfolding send_all
send_error fd reason = do sent ← send_all fd (err_line reason); pure tt
