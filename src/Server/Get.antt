-- ===== src/Server/Get.antt =====
-- server.cpp: serve_get, a scheduling round of a GET. The loops are functions of their own: the
-- one that selects the lines of the round, the one that fills a packet, and the one that sends the
-- packets. `packetization` is an int; 0 stands for any value that is not positive.
pub mod Lines
pub mod Select
pub mod Packets
pub mod Round
pub mod Budget
use link_scheduling.Prelude.{
  ℕ, zero, suc, ◌+◌, ◌-◌, Bool, true, false, not, ◌&&◌, ◌||◌, Option, none, some, List, [], ◌∷◌,
  ◌++◌, ltb, leb, ◌==◌, if◌then◌else◌, length, add64,
}
use link_scheduling.Prelude.Text.{Bytes, codes}
use link_scheduling.Request.{Request}
use link_scheduling.World.{World, M, pure, ◌>>=◌, ◌>>◌, send_all}
use link_scheduling.FileIo.{
  is_valid_filename, path_in, file_exists, open_input, is_streamoff, read_file_line,
}
use link_scheduling.Protocol.{send_response, send_error}

-- The result of a round, the request as the round leaves it, and the out parameter.
pub record Served : Type 0 where
  pub success : Bool
  pub request : Request
  pub bytes_processed : ℕ

abbrev pub served : Bool → Request → ℕ → Served
served success request n = record { success = success; request = request; bytes_processed = n }

-- `send_error(…); return false`.
abbrev pub refuse : Request → Bytes → ℕ → M Served
refuse req reason processed = do send_error req.client_fd reason; pure (served false req processed)

-- The loop that selects complete lines for the round: the bytes of the round, and the count of
-- lines that were let through although they are longer than the budget (A14). Each line has a
-- byte, so one round more than the budget has bytes is enough.
unfoldable pub select_loop : ℕ → World → Bytes → ℕ → Bool → ℕ → ℕ → ℕ → ℕ × ℕ
select_loop zero w path budget allow line_offset round_bytes a14 = (round_bytes, a14)
select_loop (suc fuel) w path budget allow line_offset round_bytes a14 =
    elim (ltb round_bytes budget) [
      | false ↦ (round_bytes, a14)
      | true ↦ elim (read_file_line w path line_offset) [
        | none ↦ (round_bytes, a14)
        | some (line, line_offset') ↦
            let line_size = length line in
            let more =
              select_loop fuel w path budget allow line_offset' (add64 round_bytes line_size) a14 in
            if round_bytes == 0 && ltb budget line_size
            then (if allow then (line_size, add64 a14 1) else (round_bytes, a14))
            else if ltb budget (add64 round_bytes line_size)
            then (round_bytes, a14)
            else more
      ]
    ]

-- What the inner loop comes to: one of its two errors, or a packet with the line offset and the
-- bytes of the round that are left behind it.
pub data Gathered : Type 0 where
  read_error too_long : Gathered
  gathered : Bytes → ℕ → ℕ → Gathered

-- The inner loop, by the lines that the packet may still take.
unfoldable pub gather : ℕ → World → Bytes → ℕ → ℕ → Bytes → Gathered
gather zero w path line_offset remaining_round packet = gathered packet line_offset remaining_round
gather (suc room) w path line_offset remaining_round packet = elim (ltb 0 remaining_round) [
  | false ↦ gathered packet line_offset remaining_round
  | true ↦ elim (read_file_line w path line_offset) [
    | none ↦ read_error
    | some (line, line_offset') ↦
        let more =
          gather room w path line_offset' (remaining_round - length line) (packet ++ line) in
        if ltb remaining_round (length line) then too_long else more
  ]
]

-- The outer loop: packet after packet, until the bytes of the round are sent. A packet has a byte
-- at least, so one turn more than the round has bytes is enough.
unfoldable pub send_packets : ℕ → ℕ → Request → Bytes → ℕ → ℕ → ℕ → M Served
send_packets zero packetization req path line_offset remaining_round processed w =
    (served false req processed, w)
send_packets (suc fuel) packetization req path line_offset remaining_round processed w =
    elim (ltb 0 remaining_round) [
      | false ↦ (served true req processed, w)
      | true ↦ elim (gather packetization w path line_offset remaining_round []) [
        | read_error ↦ refuse req (codes "file read error") processed w
        | too_long ↦ refuse req (codes "packetization error") processed w
        | gathered packet line_offset' remaining' ↦
            let sent = send_all req.client_fd packet w in
            let more =
              send_packets fuel packetization req path line_offset' remaining'
                (add64 processed (length packet)) sent.1 in
            if sent.0 then more else (served false req processed, sent.1)
      ]
    ]

-- The stream is opened and moved to the offset before any packet is read.
unfoldable pub transfer : Request → Bytes → ℕ → ℕ → M Served
transfer req path round_bytes packetization w = elim (open_input w path) [
  | none ↦ refuse req (codes "cannot open file") 0 w
  | some _ ↦
      if not (is_streamoff req.offset)
      then refuse req (codes "file seek error") 0 w
      else send_packets (suc round_bytes) packetization req path req.offset round_bytes 0 w
]

-- `round_bytes` and `a14_events`, as the selection leaves them.
unfoldable pub round_choice : World → Request → Bytes → ℕ → Bool → ℕ × ℕ
round_choice w req path budget allow =
    let remaining = req.total_bytes - req.offset in
    if leb remaining budget
    then (remaining, req.a14_events)
    else select_loop (suc budget) w path budget allow req.offset 0 req.a14_events

-- The round behind the response header.
unfoldable pub get_round : Request → Bytes → ℕ → Bool → ℕ → M Served
get_round req path budget allow packetization w =
    if leb req.total_bytes req.offset || budget == 0
    then (served true req 0, w)
    else if packetization == 0
    then refuse req (codes "invalid packetization") 0 w
    else let choice = round_choice w req path budget allow in
      let req' = record req { a14_events = choice.1 } in
      if choice.0 == 0 then (served true req' 0, w) else transfer req' path choice.0 packetization w

-- The response header is sent only once.
unfoldable pub send_header : Request → M Request
send_header req = if req.response_sent then pure req else (do
  send_response req.client_fd req.total_bytes
  pure (record req { response_sent = true }))

unfoldable pub serve_get : Request → Bytes → ℕ → Bool → ℕ → M Served
serve_get req file_dir budget allow_long_line_overrun packetization w =
    let path = path_in file_dir req.filename in
    if not (is_valid_filename req.filename)
    then refuse req (codes "invalid filename") 0 w
    else if not (file_exists w path)
    then refuse req (codes "file not found") 0 w
    else (do
      req' ← send_header req
      get_round req' path budget allow_long_line_overrun packetization)
        w
