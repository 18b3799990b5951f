-- ===== src/Client/Sent.antt =====
-- put_file of client.cpp reports success only for a file that has been sent whole.
use link_scheduling.Prelude.{ℕ, zero, suc, ◌≡◌, Bool, true, false, Option, none, some, [], ◌++◌}
use link_scheduling.Prelude.Text.{Bytes, codes}
use link_scheduling.World.{World, ◌>>=◌, ◌>>◌}
use link_scheduling.Server.Put.Stream.{stream}
use link_scheduling.Client.Got.{IsLine}
use link_scheduling.Client.Requests.{is_ok, path_filename, is_wire_name, put_line}

-- What send_all has done on a socket.
abbrev SendOutcome : ℕ → Bytes → World → Bool × World → Type 0
SendOutcome sock bytes w (false, w') = Unit
SendOutcome sock bytes w (true, w') =
    (w'.sent sock ≡ w.sent sock ++ bytes) × (w'.arrivals ≡ w.arrivals)

-- What arrives is a line that accepts the upload, bytes that came with it, and the line "OK 0"; and the header
-- and the content have been sent.
pub record IsSent (sock : ℕ) (name content : Bytes) (w w' : World) : Type 0 where
  pub line : Bytes
  pub response : Bytes
  pub is_line : IsLine line response
  pub dropped : Bytes
  pub later : Bytes
  pub whole : response ++ (dropped ++ (codes "OK 0\n" ++ later)) ≡ stream (w.arrivals sock)
  pub accepted : is_ok response ≡ true
  pub sent : w'.sent sock ≡ w.sent sock ++ (put_line name content ++ content)

abbrev SentOutcome : ℕ → Bytes → Bytes → World → ℕ × World → Type 0
SentOutcome sock name content w (zero, w') = IsSent sock name content w w'
SentOutcome sock name content w (suc status, w') = Unit

-- An exit status of 0 promises that, for the name behind the last slash of the path.
abbrev pub PutOutcome : Option ℕ → Bytes → Option Bytes → World → ℕ × World → Type 0
PutOutcome o path content w (suc status, w') = Unit
PutOutcome none path content w (zero, w') = ⊥
PutOutcome (some sock) path none w (zero, w') = ⊥
PutOutcome (some sock) path (some content) w (zero, w') =
    (is_wire_name (path_filename [] path) ≡ true) × IsSent sock (path_filename [] path) content w w'
