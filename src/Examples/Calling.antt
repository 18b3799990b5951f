-- ===== src/Examples/Calling.antt =====
-- The client's main on its arguments.
use link_scheduling.Prelude.{◌≡◌, refl, true, some, List, [], ◌∷◌, ℕ, Option}
use link_scheduling.Prelude.Text.{Bytes, codes, eq_bytes}
use link_scheduling.Prelude.Decimal.{digits_value}
use link_scheduling.World.{World}
use link_scheduling.Protocol.{skip_space}
use link_scheduling.Config.Number.{read_digits}
use link_scheduling.Config.Load.{Config}
use link_scheduling.Launch.{read_stoi, int_value}
use link_scheduling.Client.Options.{loads, no_args, read_args, choose}
use link_scheduling.Examples.Configuring.{with_config, small_file}
use link_scheduling.Examples.Fetching.{answering}

abbrev get_args : List Bytes
get_args = codes "get" ∷ codes "a.txt" ∷ []

-- The configuration of one machine, and what comes in of the other.
abbrev calling : World
calling = record (with_config small_file) { arrivals = answering.arrivals }

abbrev always_five : Config → Option ℕ
always_five config = some 5

load_args :
    read_args (codes "load" ∷ codes "--requests" ∷ codes "20" ∷ codes "files" ∷ []) no_args
    ≡ some (record {
      config_path = codes "config.json";
      positional = codes "load" ∷ codes "files" ∷ [];
      requests = 20;
      requests_set = true;
    })
unfolding read_args eq_bytes read_stoi int_value read_digits digits_value skip_space
load_args = refl

load_chosen :
    choose
      (record {
        config_path = codes "config.json";
        positional = [];
        requests = 20;
        requests_set = true;
      })
      (codes "load" ∷ codes "files" ∷ [])
    ≡ loads (codes "files") 20
unfolding choose eq_bytes
load_chosen = refl
