-- ===== src/Launch/Accepts.antt =====
-- What main has made sure of when it starts the threads (main.cpp).
use link_scheduling.Prelude.{
  ℕ, ◌^◌, ◌<◌, ◌≡◌, refl, Bool, true, false, ◌&&◌, Option, none, some, List, [], ◌∷◌, arith, ◌==◌,
  drop, u64_mod,
}
use link_scheduling.Prelude.Text.{Bytes}
use link_scheduling.Queue.{is_empty}
use link_scheduling.World.{World}
use link_scheduling.FileIo.{open_input}
use link_scheduling.Protocol.{skip_space}
use link_scheduling.Scheduling.{
  SchedulingPolicy, fcfs, sjf, rr, drr, is_round_based, make_scheduler,
}
use link_scheduling.Config.Outcome.{Outcome, Ensures, holds, refused}
use link_scheduling.Config.Checks.Root.{FileDescribes}
use link_scheduling.Config.Load.{Config, load_config}
use link_scheduling.Config.Checks.Root.{FileFault, load_config-Ensures}
use link_scheduling.Client.Requests.{read_stoull, signed_value}
use link_scheduling.Launch.{
  Options, no_options, set_option, read_options, parse_scheduling_policy, quantum_fits,
  check_options, check_quantum, Launch, Launched, exits, aborts, starts_with, with_quantum,
  with_packetization, go_on, with_loaded, checked, with_options, launch, read_stoi,
}

-- The constructor accepts the scheduler, and the configuration is that of a file.
pub record IsLaunch (w : World) (l : Launch) : Type 0 where
  pub policy : SchedulingPolicy
  pub quantum : ℕ
  pub accepted : make_scheduler policy quantum ≡ some l.setup.scheduler
  pub small : quantum < u64_mod
  pub positive : 0 < l.setup.packetization
  pub is_int : l.setup.packetization < 2 ^ 31
  pub some_dir : is_empty l.setup.file_dir ≡ false
  pub config_path : Bytes
  pub described : FileDescribes false (open_input w config_path) l.config

abbrev pub LaunchOutcome : World → Launched → Type 0
LaunchOutcome w exits = Unit
LaunchOutcome w aborts = ⊥
LaunchOutcome w (starts_with l) = IsLaunch w l

signed_value-lt : (minus : Bool) (s : Bytes) (n : ℕ) → signed_value minus s ≡ some n → n < u64_mod
unfolding signed_value
signed_value-lt minus s n e = ground arith

read_stoull-lt : (text : Bytes) (n : ℕ) → read_stoull text ≡ some n → n < u64_mod
unfolding read_stoull
read_stoull-lt text n e =
    let s = skip_space text in
    ground (
      arith,
      signed_value-lt true (drop 1 s) n,
      signed_value-lt false (drop 1 s) n,
      signed_value-lt false s n,
    )

with_quantum-lt :
    (o o' : Options) (n : Option ℕ)
    → ((k : ℕ) → n ≡ some k → k < u64_mod)
    → with_quantum o n ≡ some o'
    → o'.quantum < u64_mod
with_quantum-lt o o' none h e = ground arith
with_quantum-lt o o' (some n) h e = let k : n < u64_mod = h n refl in ground arith

with_packetization-lt :
    (o o' : Options) (n : Option ℕ)
    → o.quantum < u64_mod
    → with_packetization o n ≡ some o'
    → o'.quantum < u64_mod
with_packetization-lt o o' none h e = ground arith
with_packetization-lt o o' (some n) h e = ground arith

set_option-lt :
    (o o' : Options) (flag value : Bytes)
    → o.quantum < u64_mod
    → set_option o flag value ≡ some o'
    → o'.quantum < u64_mod
unfolding set_option
set_option-lt o o' flag value h e = ground (
  arith,
  with_quantum-lt o o' (read_stoull value) (read_stoull-lt value),
  with_packetization-lt o o' (read_stoi value) h,
)

go_on-lt :
    (more : Options → Option Options) (x : Option Options) (o' : Options)
    → ((o : Options) → x ≡ some o → more o ≡ some o' → o'.quantum < u64_mod)
    → go_on more x ≡ some o'
    → o'.quantum < u64_mod
go_on-lt more none o' k e = ground arith
go_on-lt more (some o) o' k e = k o refl e

read_options-lt :
    (args : List Bytes) (o o' : Options)
    → o.quantum < u64_mod
    → read_options args o ≡ some o'
    → o'.quantum < u64_mod
unfolding read_options
read_options-lt [] o o' h e = ground arith
read_options-lt (flag ∷ []) o o' h e = ground arith
read_options-lt (flag ∷ value ∷ rest) o o' h e =
    go_on-lt (read_options rest) (set_option o flag value) o'
      (λ p q. read_options-lt rest p o' (set_option-lt o p flag value h q)) e

quantum_fits-make_scheduler :
    (o : Options) (p : SchedulingPolicy)
    → parse_scheduling_policy o.sched_policy ≡ some p
    → quantum_fits o ≡ true
    → (is_round_based p && o.quantum == 0) ≡ false
unfolding parse_scheduling_policy quantum_fits
quantum_fits-make_scheduler o fcfs e f = refl
quantum_fits-make_scheduler o sjf e f = refl
quantum_fits-make_scheduler o rr e f = ground arith
quantum_fits-make_scheduler o drr e f = ground arith

-- The scheduler that the checked options give.
make_scheduler-some :
    (p : SchedulingPolicy) (q : ℕ)
    → (is_round_based p && q == 0) ≡ false
    → make_scheduler p q ≡ some (record { policy = p; quantum = q })
unfolding make_scheduler
make_scheduler-some p q e = rw (e, make_scheduler) refl

record IsChecked (o : Options) (p : SchedulingPolicy) : Type 0 where
  pub fits : (is_round_based p && o.quantum == 0) ≡ false
  pub positive : 0 < o.packetization
  pub is_int : o.packetization < 2 ^ 31
  pub some_dir : is_empty o.file_dir ≡ false

check_quantum-fits :
    (o : Options) (x : Option SchedulingPolicy) (p : SchedulingPolicy)
    → check_quantum o x ≡ some p
    → (x ≡ some p) × (quantum_fits o ≡ true)
check_quantum-fits o none p e = ground arith
check_quantum-fits o (some q) p e = ground arith

check_options-IsChecked :
    (o : Options) (p : SchedulingPolicy) → check_options o ≡ some p → IsChecked o p
unfolding check_options
check_options-IsChecked o p e =
    let q : check_quantum o (parse_scheduling_policy o.sched_policy) ≡ some p = ground arith in
    let (named, fits) = check_quantum-fits o (parse_scheduling_policy o.sched_policy) p q in
    record {
      fits = quantum_fits-make_scheduler o p named fits;
      positive = ground arith;
      is_int = ground arith;
      some_dir = ground arith;
    }

with_loaded-LaunchOutcome :
    (w : World) (o : Options) (p : SchedulingPolicy) (x : Outcome Config)
    → IsChecked o p
    → o.quantum < u64_mod
    → Ensures
        (FileDescribes false (open_input w o.config_path))
        (FileFault o.config_path false (open_input w o.config_path))
        x
    → LaunchOutcome w (with_loaded o p x)
with_loaded-LaunchOutcome w o p _ c small (holds d) =
    let made = make_scheduler-some p o.quantum c.fits in
    rw made (record {
      policy = p;
      quantum = o.quantum;
      accepted = made;
      small = small;
      positive = c.positive;
      is_int = c.is_int;
      some_dir = c.some_dir;
      config_path = o.config_path;
      described = d;
    })
with_loaded-LaunchOutcome w o p _ c small (refused h) = tt

checked-LaunchOutcome :
    (w : World) (o : Options) (x : Option SchedulingPolicy)
    → ((p : SchedulingPolicy) → x ≡ some p → IsChecked o p)
    → o.quantum < u64_mod
    → LaunchOutcome w (checked w o x)
checked-LaunchOutcome w o none c small = tt
checked-LaunchOutcome w o (some p) c small =
    with_loaded-LaunchOutcome w o p (load_config w o.config_path false) (c p refl) small
      (load_config-Ensures w o.config_path false)

with_options-LaunchOutcome :
    (w : World) (x : Option Options)
    → ((o : Options) → x ≡ some o → o.quantum < u64_mod)
    → LaunchOutcome w (with_options w x)
with_options-LaunchOutcome w none h = tt
with_options-LaunchOutcome w (some o) h =
    checked-LaunchOutcome w o (check_options o) (check_options-IsChecked o) (h o refl)

-- Whatever its arguments are, main ends with status 1 or starts the threads: the constructor of the
-- scheduler, outside of any try block, does not throw. Where it starts them, the scheduler is one that
-- the constructor accepts with a quantum below 2^64, the packetization is a positive int, the directory
-- is named, and the configuration is the one that a readable file describes.
pub launch-LaunchOutcome : (w : World) (args : List Bytes) → LaunchOutcome w (launch w args)
unfolding launch
launch-LaunchOutcome w args =
    with_options-LaunchOutcome w (read_options args no_options)
      (λ o. read_options-lt args no_options o (omega arith))
