-- ===== src/Client/Options.antt =====
-- client.cpp: main, without the loop of load_workload and what it prints.
use link_scheduling.Prelude.{
  ℕ, Bool, true, false, not, ◌&&◌, ◌||◌, Option, none, some, List, [], ◌∷◌, ◌++◌, if◌then◌else◌,
}
use link_scheduling.Prelude.Text.{Bytes, codes, eq_bytes}
use link_scheduling.World.{M, pure, ◌>>=◌}
use link_scheduling.Config.Outcome.{Outcome, ok, throws, out_of_fuel}
use link_scheduling.Config.Number.{starts}
use link_scheduling.Config.Load.{Config, not_positive, load_config}
use link_scheduling.Client.Requests.{get_file, put_file, health}
use link_scheduling.Launch.{read_stoi}

-- The variables that main fills from its arguments; `requests` is the bit pattern of an int.
pub record Args : Type 0 where
  pub config_path : Bytes
  pub positional : List Bytes
  pub requests : ℕ
  pub requests_set : Bool

abbrev pub no_args : Args
no_args = record {
  config_path = codes "config.json";
  positional = [];
  requests = 4294967295;
  requests_set = false;
}

abbrev pub with_requests : Args → Option ℕ → Option Args
with_requests a none = none
with_requests a (some n) = some (record a { requests = n; requests_set = true })

abbrev pub more_args : (Args → Option Args) → Option Args → Option Args
more_args more none = none
more_args more (some a) = more a

-- The loop over the arguments; `none` is an error.
unfoldable pub read_args : List Bytes → Args → Option Args
read_args [] a = some a
read_args (arg ∷ []) a =
    if eq_bytes arg (codes "--config") || (eq_bytes arg (codes "--requests") || starts b'-' arg)
    then none
    else some (record a { positional = a.positional ++ arg ∷ [] })
read_args (arg ∷ value ∷ rest) a =
    if eq_bytes arg (codes "--config")
    then read_args rest (record a { config_path = value })
    else if eq_bytes arg (codes "--requests")
    then more_args (read_args rest) (with_requests a (read_stoi value))
    else if starts b'-' arg
    then none
    else read_args (value ∷ rest) (record a { positional = a.positional ++ arg ∷ [] })

-- What main is asked to do; `refuses` is an error.
pub data Command : Type 0 where
  refuses : Command
  checks_health : Command
  gets : Bytes → Command
  puts : Bytes → Command
  loads : Bytes → ℕ → Command

abbrev pub with_one : (Bytes → Command) → List Bytes → Command
with_one f [] = refuses
with_one f (x ∷ []) = f x
with_one f (x ∷ y ∷ more) = refuses

abbrev pub load_command : Args → Bytes → Command
load_command a dir =
    if not a.requests_set || not_positive a.requests then refuses else loads dir a.requests

unfoldable pub choose : Args → List Bytes → Command
choose a [] = refuses
choose a (command ∷ operands) =
    if a.requests_set && not (eq_bytes command (codes "load"))
    then refuses
    else if eq_bytes command (codes "health")
    then checks_health
    else if eq_bytes command (codes "get")
    then with_one gets operands
    else if eq_bytes command (codes "put")
    then with_one puts operands
    else if eq_bytes command (codes "load")
    then with_one (load_command a) operands
    else refuses

-- main ends with a status, or goes on in load_workload.
pub data Ran : Type 0 where
  exited : ℕ → Ran
  loading : Config → Bytes → ℕ → Ran

abbrev pub health_status : Option Bytes → ℕ
health_status none = 1
health_status (some response) = 0

-- The command, on the socket that connect_to_server gives for the configuration.
abbrev pub run_command : Config → Option ℕ → Command → M Ran
run_command config sock refuses = pure (exited 1)
run_command config sock checks_health = do
  response ← health sock
  pure (exited (health_status response))
run_command config sock (gets name) = do status ← get_file sock name true; pure (exited status)
run_command config sock (puts path) = do status ← put_file sock path; pure (exited status)
run_command config sock (loads dir requests) = pure (loading config dir requests)

-- The messages of the errors are left out, and so is their order.
abbrev pub run_with : (Config → Option ℕ) → Command → Outcome Config → M Ran
run_with connects command (ok config) = run_command config (connects config) command
run_with connects command (throws message) = pure (exited 1)
run_with connects command out_of_fuel = pure (exited 1)

abbrev pub run_args : (Config → Option ℕ) → Option Args → M Ran
run_args connects none w = pure (exited 1) w
run_args connects (some a) w =
    run_with connects (choose a a.positional) (load_config w a.config_path false) w

unfoldable pub run_client : (Config → Option ℕ) → List Bytes → M Ran
run_client connects args = run_args connects (read_args args no_args)
