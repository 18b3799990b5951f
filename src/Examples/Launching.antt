-- ===== src/Examples/Launching.antt =====
-- main on its arguments.
use link_scheduling.Prelude.{◌≡◌, refl, true, some, List, [], ◌∷◌}
use link_scheduling.Prelude.Text.{Bytes, codes, eq_bytes}
use link_scheduling.Prelude.Decimal.{digits_value}
use link_scheduling.Protocol.{skip_space}
use link_scheduling.Config.Number.{read_digits}
use link_scheduling.Client.Requests.{read_stoull, signed_value}
use link_scheduling.Launch.{
  no_options, exits, launch, read_options, set_option, read_stoi, int_value, check_options,
  parse_scheduling_policy, quantum_fits,
}
use link_scheduling.Launch.Accepts.{LaunchOutcome, launch-LaunchOutcome}
use link_scheduling.Examples.Configuring.{with_config, small_file}

abbrev deficit_args : List Bytes
deficit_args =
    codes "--sched"
    ∷ codes "drr"
    ∷ codes "--file"
    ∷ codes "srv"
    ∷ codes "--quantum"
    ∷ codes "8"
    ∷ codes "--p"
    ∷ codes "4"
    ∷ []

launch-LaunchOutcome_example :
    LaunchOutcome (with_config small_file) (launch (with_config small_file) deficit_args)
launch-LaunchOutcome_example = launch-LaunchOutcome (with_config small_file) deficit_args

quantum_missing :
    launch
      (with_config small_file)
      (codes "--sched" ∷ codes "rr" ∷ codes "--file" ∷ codes "srv" ∷ [])
    ≡ exits
unfolding launch read_options set_option check_options parse_scheduling_policy quantum_fits eq_bytes
quantum_missing = refl

read_deficit :
    read_options deficit_args no_options
    ≡ some (record {
      config_path = codes "config.json";
      sched_policy = codes "drr";
      file_dir = codes "srv";
      metrics_out = codes "metrics.csv";
      quantum = 8;
      packetization = 4;
      quantum_set = true;
    })
unfolding read_options set_option eq_bytes read_stoi int_value read_stoull signed_value read_digits
    digits_value skip_space
read_deficit = refl
