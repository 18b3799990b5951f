-- ===== src/Launch.antt =====
-- main.cpp: the options of the server, and what main makes of them before it starts the threads.
pub mod Accepts
use link_scheduling.Prelude.{
  ℕ, ◌-◌, ◌^◌, Bool, true, false, not, ◌&&◌, ◌||◌, Option, none, some, List, [], ◌∷◌, ltb, leb,
  ◌==◌, if◌then◌else◌, drop,
}
use link_scheduling.Prelude.Text.{Bytes, codes, eq_bytes}
use link_scheduling.Prelude.Decimal.{digits_value}
use link_scheduling.Queue.{is_empty}
use link_scheduling.World.{World}
use link_scheduling.Protocol.{skip_space}
use link_scheduling.Scheduling.{SchedulingPolicy, fcfs, sjf, rr, drr, Scheduler, make_scheduler}
use link_scheduling.Config.Outcome.{Outcome, ok, throws, out_of_fuel}
use link_scheduling.Config.Number.{starts, read_digits}
use link_scheduling.Config.Load.{Config, not_positive, load_config}
use link_scheduling.Client.Requests.{read_stoull}
use link_scheduling.Worker.{Setup}

-- The variables that main fills from its arguments; packetization is the bit pattern of an int.
pub record Options : Type 0 where
  pub config_path : Bytes
  pub sched_policy : Bytes
  pub file_dir : Bytes
  pub metrics_out : Bytes
  pub quantum : ℕ
  pub packetization : ℕ
  pub quantum_set : Bool

abbrev pub no_options : Options
no_options = record {
  config_path = codes "config.json";
  sched_policy = [];
  file_dir = [];
  metrics_out = codes "metrics.csv";
  quantum = 0;
  packetization = 1;
  quantum_set = false;
}

-- std::stoi, as a bit pattern; `none` is an exception. Space, a sign and digits are read, and the rest
-- is not.
unfoldable pub int_value : Bool → Bytes → Option ℕ
int_value minus s =
    let digits = (read_digits s).0 in
    let value = digits_value 0 digits in
    if is_empty digits
    then none
    else if minus
    then (if leb value (2 ^ 31) then some (if value == 0 then 0 else 2 ^ 32 - value) else none)
    else if ltb value (2 ^ 31)
    then some value
    else none

unfoldable pub read_stoi : Bytes → Option ℕ
read_stoi text =
    let s = skip_space text in
    if starts b'-' s
    then int_value true (drop 1 s)
    else if starts b'+' s
    then int_value false (drop 1 s)
    else int_value false s

-- A number that does not parse ends the program.
abbrev pub with_quantum : Options → Option ℕ → Option Options
with_quantum o none = none
with_quantum o (some n) = some (record o { quantum = n; quantum_set = true })

abbrev pub with_packetization : Options → Option ℕ → Option Options
with_packetization o none = none
with_packetization o (some n) = some (record o { packetization = n })

-- A flag and its value; `none` is an error.
unfoldable pub set_option : Options → Bytes → Bytes → Option Options
set_option o flag value =
    if eq_bytes flag (codes "--config")
    then some (record o { config_path = value })
    else if eq_bytes flag (codes "--sched")
    then some (record o { sched_policy = value })
    else if eq_bytes flag (codes "--file")
    then some (record o { file_dir = value })
    else if eq_bytes flag (codes "--quantum")
    then with_quantum o (read_stoull value)
    else if eq_bytes flag (codes "--p")
    then with_packetization o (read_stoi value)
    else if eq_bytes flag (codes "--metrics-out")
    then some (record o { metrics_out = value })
    else none

abbrev pub go_on : (Options → Option Options) → Option Options → Option Options
go_on more none = none
go_on more (some o) = more o

-- The loop over the arguments. The last one has no value: an unknown flag and a known one are errors.
unfoldable pub read_options : List Bytes → Options → Option Options
read_options [] o = some o
read_options (flag ∷ []) o = none
read_options (flag ∷ value ∷ rest) o = go_on (read_options rest) (set_option o flag value)

unfoldable pub parse_scheduling_policy : Bytes → Option SchedulingPolicy
parse_scheduling_policy policy =
    if eq_bytes policy (codes "fcfs")
    then some fcfs
    else if eq_bytes policy (codes "sjf")
    then some sjf
    else if eq_bytes policy (codes "rr")
    then some rr
    else if eq_bytes policy (codes "drr")
    then some drr
    else none

-- Does the quantum fit the policy?
unfoldable pub quantum_fits : Options → Bool
quantum_fits o =
    let named = eq_bytes o.sched_policy in
    not ((named (codes "rr") || named (codes "drr")) && (not o.quantum_set || o.quantum == 0))
    && not ((named (codes "fcfs") || named (codes "sjf")) && o.quantum_set)

-- The checks before the configuration is read.
abbrev pub check_quantum : Options → Option SchedulingPolicy → Option SchedulingPolicy
check_quantum o none = none
check_quantum o (some policy) = if quantum_fits o then some policy else none

unfoldable pub check_options : Options → Option SchedulingPolicy
check_options o =
    if is_empty o.sched_policy || (is_empty o.file_dir || not_positive o.packetization)
    then none
    else check_quantum o (parse_scheduling_policy o.sched_policy)

-- What the threads are started with.
pub record Launch : Type 0 where
  pub setup : Setup
  pub config : Config
  pub metrics_out : Bytes

-- main returns 1, ends by an exception, or goes on.
pub data Launched : Type 0 where
  exits : Launched
  aborts : Launched
  starts_with : Launch → Launched

-- `Scheduler scheduler(policy, quantum);` stands outside of the try blocks.
abbrev pub with_scheduler : Options → Config → Option Scheduler → Launched
with_scheduler o config none = aborts
with_scheduler o config (some s) = starts_with (record {
  setup = record { file_dir = o.file_dir; scheduler = s; packetization = o.packetization };
  config = config;
  metrics_out = o.metrics_out;
})

abbrev pub with_loaded : Options → SchedulingPolicy → Outcome Config → Launched
with_loaded o policy (ok config) = with_scheduler o config (make_scheduler policy o.quantum)
with_loaded o policy (throws message) = exits
with_loaded o policy out_of_fuel = aborts

abbrev pub checked : World → Options → Option SchedulingPolicy → Launched
checked w o none = exits
checked w o (some policy) = with_loaded o policy (load_config w o.config_path false)

abbrev pub with_options : World → Option Options → Launched
with_options w none = exits
with_options w (some o) = checked w o (check_options o)

unfoldable pub launch : World → List Bytes → Launched
launch w args = with_options w (read_options args no_options)
