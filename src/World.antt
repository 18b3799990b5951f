-- ===== src/World.antt =====
-- What the server's threads see of the machine: the served directory, the sockets and the clock.
-- The operating system is not part of the repository. Its answers are scripts that stand in the
-- state and are used up call by call: whether a call that writes a file fails, how many bytes a
-- send takes, what arrives on a socket, what the clock shows.
pub mod Send
use link_scheduling.Prelude.{
  ℕ, suc, ◌+◌, ◌*◌, ◌%◌, Bool, true, false, Option, none, some, List, [], ◌∷◌, ◌++◌, ◌==◌,
  if◌then◌else◌, length, take, drop, u64_mod,
}
use link_scheduling.Prelude.Text.{Bytes, codes, eq_bytes}

-- One arrival on a socket: bytes (none of them if the peer has closed), a pause that outlasts the
-- timeout, or an error of select or recv.
pub data Arrival : Type 0 where
  arrives : Bytes → Arrival
  pauses breaks : Arrival

pub record World : Type 0 where
  -- The regular files by their paths, and those that cannot be opened for reading.
  pub files : Bytes → Option Bytes
  pub unreadable : Bytes → Bool
  -- For each later call that writes a file: does it fail? None of them does behind the end.
  pub faults : List Bool
  -- For each later close of a stream that was written: how many of its last bytes are lost, because
  -- the write of what is still in its buffer fails. None are, behind the end. No caller looks.
  pub unflushed : List ℕ
  -- For each later second look at a file: has the file gone in between? It has not, behind the end.
  pub vanishings : List Bool
  -- For each later send: an error, or the most bytes that it takes. All, behind the end.
  pub sends : List (Option ℕ)
  pub arrivals : ℕ → List Arrival
  pub sent : ℕ → Bytes
  pub closed : List ℕ
  -- The readings (tv_sec, tv_nsec) of CLOCK_MONOTONIC, and how many have been taken.
  pub clock : ℕ → ℕ × ℕ
  pub ticks : ℕ

abbrev pub M : Type 0 → Type 0
M A = World → A × World

abbrev pub pure : {A : Type 0} → A → M A
pure a w = (a, w)

infixl 5 ◌>>=◌ ◌>>◌
abbrev pub ◌>>=◌ : {A B : Type 0} → M A → (A → M B) → M B
◌>>=◌ m f w = f (m w).0 (m w).1

abbrev pub ◌>>◌ : {A B : Type 0} → M A → M B → M B
◌>>◌ m k w = k (m w).1

-- Whether the next call that writes a file fails.
abbrev pub next_fault : List Bool → Bool × List Bool
next_fault [] = (false, [])
next_fault (f ∷ fs) = (f, fs)

unfoldable pub draw_fault : M Bool
draw_fault w = ((next_fault w.faults).0, record w { faults = (next_fault w.faults).1 })

-- A table of values by socket or by path, changed in one place.
abbrev pub at_fd {ℓ} : {A : Type ℓ} → (ℕ → A) → ℕ → A → ℕ → A
at_fd f fd a k = if fd == k then a else f k

abbrev pub at_path {ℓ} : {A : Type ℓ} → (Bytes → A) → Bytes → A → Bytes → A
at_path f path a k = if eq_bytes path k then a else f k

-- clock_ns.h: monotonic_ns.
unfoldable pub monotonic_ns : M ℕ
monotonic_ns w =
    let (sec, nsec) = w.clock w.ticks in
    ((sec * 1000000000 + nsec) % u64_mod, record w { ticks = w.ticks + 1 })

-- The loop of send_all: what is left of the data goes to one send after another.
unfoldable pub send_loop : List (Option ℕ) → Bytes → Bool × Bytes × List (Option ℕ)
send_loop answers [] = (true, [], answers)
send_loop [] (c ∷ rest) = (true, c ∷ rest, [])
send_loop (none ∷ answers) (c ∷ rest) = (false, [], answers)
send_loop (some n ∷ answers) (c ∷ rest) =
    let later = send_loop answers (drop n (c ∷ rest)) in
    (later.0, take n (c ∷ rest) ++ later.1, later.2)

-- socket.cpp: send_all.
unfoldable pub send_all : ℕ → Bytes → M Bool
send_all fd bytes w =
    let run = send_loop w.sends bytes in
    (run.0, record w { sent = at_fd w.sent fd (w.sent fd ++ run.1); sends = run.2 })

-- What recv takes of the arrived bytes, and what it leaves for the next call.
abbrev pub leave_behind : Bytes → List Arrival → List Arrival
leave_behind [] later = later
leave_behind (c ∷ rest) later = arrives (c ∷ rest) ∷ later

abbrev pub receive_from : List Arrival → ℕ → Option Bytes × List Arrival
receive_from [] n = (some [], [])
receive_from (arrives bytes ∷ later) n = (some (take n bytes), leave_behind (drop n bytes) later)
receive_from (pauses ∷ later) n = (some [], later)
receive_from (breaks ∷ later) n = (none, later)

-- socket.cpp: recv_data_with_timeout. `none` is the result -1, and no bytes the result 0.
unfoldable pub recv_data_with_timeout : ℕ → ℕ → M (Option Bytes)
recv_data_with_timeout fd n w =
    let got = receive_from (w.arrivals fd) n in
    (got.0, record w { arrivals = at_fd w.arrivals fd got.1 })

-- socket.cpp: close_socket, on a descriptor, which is not negative.
unfoldable pub close_socket : ℕ → M (Unit {0})
close_socket fd w = (tt, record w { closed = fd ∷ w.closed })
