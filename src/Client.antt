-- ===== src/Client.antt =====
-- client.cpp: what the client receives. A World is here the client's machine. connect_to_server calls
-- the operating system only:
-- `sock` is the socket that it gives, if it gives one.
pub mod Requests
pub mod Receive
pub mod Status
pub mod Unflushed
pub mod Exact
pub mod Got
pub mod Download
pub mod Sent
pub mod Options
pub mod Run
use link_scheduling.Prelude.{
  ℕ, zero, suc, ◌+◌, ◌-◌, ◌%◌, ◌^◌, min, Bool, true, false, not, ◌&&◌, ◌||◌, Option, none, some,
  List, [], ◌∷◌, ◌++◌, ltb, ◌==◌, if◌then◌else◌, length, take, drop, u64_mod,
}
use link_scheduling.Prelude.Text.{Bytes, codes, eq_bytes}
use link_scheduling.Prelude.Decimal.{to_string, digits_value}
use link_scheduling.Queue.{is_empty}
use link_scheduling.World.{
  World, M, pure, ◌>>=◌, ◌>>◌, Arrival, arrives, pauses, breaks, leave_behind, at_fd, send_all,
  close_socket,
}
use link_scheduling.FileIo.{getline, open_input}
use link_scheduling.Protocol.{skip_space}
use link_scheduling.Server.Put.{write_bytes, create_file}
use link_scheduling.Config.Number.{starts, read_digits}

-- recv on a socket that blocks: it waits through a pause. Behind the last arrival the peer has closed.
unfoldable pub recv_from : List Arrival → ℕ → Option Bytes × List Arrival
recv_from [] n = (some [], [])
recv_from (arrives bytes ∷ later) n = (some (take n bytes), leave_behind (drop n bytes) later)
recv_from (pauses ∷ later) n = recv_from later n
recv_from (breaks ∷ later) n = (none, later)

unfoldable pub recv : ℕ → ℕ → M (Option Bytes)
unfolding recv_from
recv sock n w =
    let got = recv_from (w.arrivals sock) n in
    (got.0, record w { arrivals = at_fd w.arrivals sock got.1 })

-- What read_status_line makes of the bytes of a recv: the line and the leftover, or another turn.
abbrev pub status_by :
    Bytes → (Bytes → M (Option (Bytes × Bytes))) → Option Bytes → M (Option (Bytes × Bytes))
status_by line again none = pure none
status_by line again (some []) = pure none
status_by line again (some (c ∷ cs)) =
    let piece = getline (c ∷ cs) in
    if piece.2
    then pure (some (line ++ (piece.0 ++ b'\n' ∷ []), piece.1))
    else again (line ++ piece.0)

-- The loop of read_status_line. A turn that goes on has added a byte to the line at least.
unfoldable pub status_loop : ℕ → ℕ → Bytes → M (Option (Bytes × Bytes))
unfolding recv
status_loop zero sock line w = (none, w)
status_loop (suc fuel) sock line w = elim (ltb (length line) 8192) [
  | false ↦ (none, w)
  | true ↦ (do got ← recv sock 4096; status_by line (status_loop fuel sock) got) w
]

-- The line and the leftover, or `none` for false.
unfoldable pub read_status_line : ℕ → M (Option (Bytes × Bytes))
unfolding status_loop
read_status_line sock = status_loop 8193 sock []

-- `out->write(…)`, if there is a file to write to; `true` means that the stream is still good.
unfoldable pub write_out : Option Bytes → ℕ → Bytes → M Bool
unfolding write_bytes
write_out none pos bytes = pure true
write_out (some path) pos bytes = write_bytes path pos bytes

-- The first loop of recv_exact, on what is left of `prefix`: how much has been received, or `none` for
-- a failed write.
unfoldable pub prefix_loop : ℕ → Option Bytes → ℕ → Bytes → ℕ → M (Option ℕ)
unfolding write_out
prefix_loop zero out size prefix received w = (some received, w)
prefix_loop (suc fuel) out size prefix received w =
    let chunk = min (size - received) (length prefix) in
    elim (ltb received size && ltb 0 (length prefix)) [
      | false ↦ (some received, w)
      | true ↦
          (do
            good ← write_out out received (take chunk prefix)
            let again = prefix_loop fuel out size (drop chunk prefix) (received + chunk)
            if good then again else pure none)
            w
    ]

-- What the second loop makes of the bytes of a recv.
unfoldable pub exact_by : Option Bytes → ℕ → (ℕ → M Bool) → Option Bytes → M Bool
unfolding write_out
exact_by out received again none = pure false
exact_by out received again (some []) = pure false
exact_by out received again (some (c ∷ cs)) = do
  good ← write_out out received (c ∷ cs)
  if good then again (received + length (c ∷ cs)) else pure false

-- The second loop of recv_exact; a turn that goes on has received a byte at least.
unfoldable pub exact_loop : ℕ → ℕ → Option Bytes → ℕ → ℕ → M Bool
unfolding recv exact_by
exact_loop zero sock out size received w = (false, w)
exact_loop (suc fuel) sock out size received w = elim (ltb received size) [
  | false ↦ (true, w)
  | true ↦
      (do
        got ← recv sock (min (size - received) 8192)
        exact_by out received (exact_loop fuel sock out size) got)
        w
]

unfoldable pub exact_rest : ℕ → Option Bytes → ℕ → Option ℕ → M Bool
unfolding exact_loop
exact_rest sock out size none = pure false
exact_rest sock out size (some received) = exact_loop (suc size) sock out size received

unfoldable pub recv_exact : ℕ → ℕ → Bytes → Option Bytes → M Bool
unfolding prefix_loop exact_loop
recv_exact sock size prefix out = do
  received ← prefix_loop (suc (length prefix)) out size prefix 0
  exact_rest sock out size received
