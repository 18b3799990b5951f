-- ===== src/Client/Run.antt =====
-- What an exit status of 0 of the client's main promises (client.cpp).
use link_scheduling.Prelude.{ℕ, zero, suc, ◌≡◌, false, Option, none, some, List}
use link_scheduling.Prelude.Text.{Bytes}
use link_scheduling.World.{World}
use link_scheduling.FileIo.{open_input}
use link_scheduling.Server.Put.Stream.{stream}
use link_scheduling.Config.Outcome.{Outcome}
use link_scheduling.Config.Load.{Config}
use link_scheduling.Config.Checks.Root.{FileDescribes}
use link_scheduling.Client.Got.{GotOutcome}
use link_scheduling.Client.Sent.{PutOutcome}
use link_scheduling.Client.Options.{
  Args, no_args, read_args, Command, refuses, checks_health, gets, puts, loads, choose, Ran, exited,
  loading,
}

-- The promise of each command on its socket.
abbrev pub CommandOutcome : Option ℕ → Command → World → ℕ × World → Type 0
CommandOutcome sock refuses w (zero, w') = ⊥
CommandOutcome sock refuses w (suc status, w') = Unit
CommandOutcome none (gets name) w (zero, w') = ⊥
CommandOutcome none (gets name) w (suc status, w') = Unit
CommandOutcome (some sock) (gets name) w x = GotOutcome (stream (w.arrivals sock)) name x
CommandOutcome sock (puts path) w x = PutOutcome sock path (open_input w path) w x
CommandOutcome sock checks_health w x = Unit
CommandOutcome sock (loads dir requests) w x = ⊥

-- A configuration was read, and the command has kept its promise.
pub record IsDone (connects : Config → Option ℕ) (args : List Bytes) (w w' : World) : Type 0 where
  pub options : Args
  pub config : Config
  pub read : read_args args no_args ≡ some options
  pub described : FileDescribes false (open_input w options.config_path) config
  pub done : CommandOutcome (connects config) (choose options options.positional) w (0, w')

abbrev pub RunOutcome : (Config → Option ℕ) → List Bytes → World → Ran × World → Type 0
RunOutcome connects args w (exited zero, w') = IsDone connects args w w'
RunOutcome connects args w (exited (suc status), w') = Unit
RunOutcome connects args w (loading config dir requests, w') = Unit

abbrev RanOutcome : Option ℕ → Command → World → Ran × World → Type 0
RanOutcome sock command w (exited status, w') = CommandOutcome sock command w (status, w')
RanOutcome sock command w (loading config dir requests, w') = Unit
