-- ===== src/Socket.antt =====
-- socket.cpp: read_header_line, which reads the first line of a connection and keeps what came
-- behind it.
pub mod Header
use link_scheduling.Prelude.{
  ℕ, zero, suc, ◌+◌, ◌*◌, Bool, true, false, Option, none, some, List, [], ◌∷◌, ◌++◌, ltb, leb,
  if◌then◌else◌, length,
}
use link_scheduling.Prelude.Text.{Bytes}
use link_scheduling.World.{World, M, recv_data_with_timeout}
use link_scheduling.FileIo.{getline}

-- std::chrono::steady_clock::now, in nanoseconds.
unfoldable pub steady_now : M ℕ
steady_now w =
    let (sec, nsec) = w.clock w.ticks in (sec * 1000000000 + nsec, record w { ticks = w.ticks + 1 })

-- The header line and the leftover; an empty line is a failure.
abbrev pub no_header : Bytes × Bytes
no_header = ([], [])

-- The loop. A turn that goes on has added a byte to the line at least, and stops at 8192.
unfoldable pub header_loop : ℕ → ℕ → ℕ → Bytes → M (Bytes × Bytes)
header_loop zero fd deadline line w = (no_header, w)
header_loop (suc fuel) fd deadline line w = elim (ltb (length line) 8192) [
  | false ↦ (no_header, w)
  | true ↦
      let now = steady_now w in
      elim (leb deadline now.0) [
        | true ↦ (no_header, now.1)
        | false ↦
            let got = recv_data_with_timeout fd 4096 now.1 in
            elim got.0 [
              | none ↦ (no_header, got.1)
              | some [] ↦ (no_header, got.1)
              | some (c ∷ cs) ↦
                  let piece = getline (c ∷ cs) in
                  let more = header_loop fuel fd deadline (line ++ piece.0) got.1 in
                  if piece.2 then ((line ++ (piece.0 ++ b'\n' ∷ []), piece.1), got.1) else more
            ]
      ]
]

unfoldable pub read_header_line : ℕ → ℕ → M (Bytes × Bytes)
read_header_line fd timeout_ms w =
    let now = steady_now w in header_loop 8193 fd (now.0 + timeout_ms * 1000000) [] now.1
