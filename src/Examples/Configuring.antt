-- ===== src/Examples/Configuring.antt =====
-- Configuration files: the one of the repository, one with a load balancer, and broken ones.
use link_scheduling.Prelude.{
  ◌≡◌, ◌↔◌, refl, ℕ, ◌-◌, ◌^◌, ◌<◌, true, false, none, some, [], ◌∷◌, arith,
}
use link_scheduling.Prelude.Text.{Bytes, codes, eq_bytes}
use link_scheduling.Prelude.Decimal.{digits_value}
use link_scheduling.World.{World, at_path}
use link_scheduling.FileIo.{open_input}
use link_scheduling.Config.Outcome.{ok, throws, Ensures, malformed_text}
use link_scheduling.Config.Json.{
  Json, null, integer, str, object, array, no_items, item, no_fields, field, find, lookup, emplace,
  push_back,
}
use link_scheduling.Config.Number.{
  skip_ws, read_digits, some_digits, read_sign, whole_part, fraction_part, exponent_sign,
  exponent_digits, exponent_part, stoll, stod, out_of_range, number_value, number_here,
  parse_number,
}
use link_scheduling.Config.Parser.{
  consume, expect, peek, read_escape, read_chars, parse_string, value_by, or_close, expect_quote,
  object_by, array_by, field_round, item_round, parse_value, at_end, parse,
}
use link_scheduling.Config.Load.{
  ServerConfig, BackendConfig, LoadBalancerConfig, Config, no_load_balancer, required, string_of,
  int_of, string_field, int_field, load_server, with_load_balancer, config_of, load_config,
}
use link_scheduling.Config.Checks.Root.{
  FileDescribes, FileFault, load_config-Ensures, load_config-FileDescribes,
}
use link_scheduling.Config.Fuel.Values.{parse-Ensures}
use link_scheduling.Config.Print.{print, all_printable-IsText}
use link_scheduling.Config.Print.Values.Rounds.{parse-print}
use link_scheduling.Config.Print.Saved.{
  config_json, IsServer, IsBackend, IsBalancer, load_config-print,
}
use link_scheduling.Examples.{disk}

-- config.json of the repository.
abbrev pub small_file : Bytes
small_file =
    codes
      "{\n  \"server\": {\n    \"ip\": \"127.0.0.1\",\n    \"port\": 9000,\n    \"server_threads\": 4,\n    \"client_threads\": 8\n  }\n}\n"

abbrev pub with_config : Bytes → World
with_config content = record disk {
  files = at_path (λ _. none) (codes "config.json") (some content);
}

abbrev small_server : ServerConfig
small_server = record {
  ip = codes "127.0.0.1";
  port = 9000;
  server_threads = 4;
  client_threads = 8;
}

parses_file :
    load_config (with_config small_file) (codes "config.json") false
    ≡ ok (record {
      server = small_server;
      load_balancer = no_load_balancer;
      has_load_balancer = false;
    })
unfolding load_config config_of load_server string_field int_field required string_of int_of
    with_load_balancer lookup find open_input eq_bytes parse at_end parse_value value_by object_by
    field_round expect_quote read_escape parse_string or_close read_chars emplace number_here
    parse_number skip_ws consume expect peek read_digits some_digits read_sign whole_part
    fraction_part exponent_part number_value stoll digits_value
parses_file = refl

-- A number past the largest double is refused, one with an exponent is kept, and \u is not read.
some_numbers :
    parse (codes " [1.5e3, -7, 0, \"a\\u0041\\n\"] ")
    ≡ ok (
        array (
          item
            (Json.real (codes "1.5e3"))
            (item (integer (2 ^ 64 - 7)) (item (integer 0) (item (str (codes "a?\n")) no_items)))))
unfolding parse at_end parse_value value_by array_by item_round read_escape parse_string or_close
    read_chars push_back number_here parse_number skip_ws consume expect peek read_digits
    some_digits read_sign whole_part fraction_part exponent_part exponent_digits exponent_sign
    number_value stoll stod out_of_range digits_value
some_numbers = refl

too_large : parse (codes "1e309") ≡ throws malformed_text
unfolding parse at_end parse_value value_by number_here parse_number skip_ws peek read_digits
    some_digits read_sign whole_part fraction_part exponent_part exponent_digits exponent_sign
    number_value stod out_of_range digits_value
too_large = refl

leading_zero : parse (codes "01") ≡ throws malformed_text
unfolding parse at_end parse_value value_by number_here parse_number skip_ws peek read_digits
    some_digits read_sign whole_part fraction_part exponent_part exponent_digits exponent_sign
    number_value stoll digits_value
leading_zero = refl

-- A port of 2 ^ 32 + 80 is taken for port 80.
abbrev wrapped_file : Bytes
wrapped_file =
    codes
      "{\"server\": {\"ip\": \"::\", \"port\": 4294967376, \"server_threads\": 1, \"client_threads\": 1}}"

abbrev wrapped_server : ServerConfig
wrapped_server = record { ip = codes "::"; port = 80; server_threads = 1; client_threads = 1 }

wrapped_port :
    load_config (with_config wrapped_file) (codes "config.json") false
    ≡ ok (record {
      server = wrapped_server;
      load_balancer = no_load_balancer;
      has_load_balancer = false;
    })
unfolding load_config config_of load_server string_field int_field required string_of int_of
    with_load_balancer lookup find open_input eq_bytes parse at_end parse_value value_by object_by
    field_round expect_quote read_escape parse_string or_close read_chars emplace number_here
    parse_number skip_ws consume expect peek read_digits some_digits read_sign whole_part
    fraction_part exponent_part number_value stoll digits_value
wrapped_port = refl

abbrev backend : ℕ → BackendConfig
backend port = record { ip = codes "10.0.0.1"; port = port }

abbrev balancer : LoadBalancerConfig
balancer = record {
  ip = codes "10.0.0.9";
  port = 8000;
  health_interval_ms = 500;
  backends = backend 9001 ∷ backend 9002 ∷ backend 9003 ∷ backend 9004 ∷ [];
}

small_server-IsServer : IsServer small_server
small_server-IsServer = record {
  ip = all_printable-IsText (codes "127.0.0.1") refl;
  port = omega arith;
  server_threads = omega arith;
  client_threads = omega arith;
}

backend-IsBackend : (port : ℕ) → 0 < port → port < 65536 → IsBackend (backend port)
backend-IsBackend port h k = (all_printable-IsText (codes "10.0.0.1") refl, (h, k))

balancer-IsBalancer : IsBalancer balancer
balancer-IsBalancer = record {
  ip = all_printable-IsText (codes "10.0.0.9") refl;
  port = omega arith;
  health_interval_ms = omega arith;
  four = refl;
  backends = (
    backend-IsBackend 9001 (omega arith) (omega arith),
    (
      backend-IsBackend 9002 (omega arith) (omega arith),
      (
        backend-IsBackend 9003 (omega arith) (omega arith),
        (backend-IsBackend 9004 (omega arith) (omega arith), tt),
      ),
    ),
  );
}

abbrev saved : World
saved = with_config (print (config_json small_server balancer))

load_config-print_example :
    load_config saved (codes "config.json") true
    ≡ ok (record { server = small_server; load_balancer = balancer; has_load_balancer = true })
unfolding open_input eq_bytes
load_config-print_example =
    load_config-print saved (codes "config.json") true small_server balancer small_server-IsServer
      balancer-IsBalancer refl

abbrev nested : Json
nested = object (
    field (codes "a\n\"") (array (item null (item (integer (2 ^ 64 - 12)) no_items)))
      (field (codes "b") (object no_fields) no_fields))

parse-print_example : parse (print nested) ≡ ok nested
unfolding find eq_bytes
parse-print_example = parse-print nested (
  all_printable-IsText (codes "a\n\"") refl,
  (tt, (omega arith, tt)),
  refl,
  (all_printable-IsText (codes "b") refl, tt, refl, tt),
)

parse-Ensures_example :
    Ensures (λ v. Unit {0}) (λ m. m ≡ malformed_text) (parse (codes "{\"a\": [1, }"))
parse-Ensures_example = parse-Ensures (codes "{\"a\": [1, }")

load_config-Ensures_example :
    let w = with_config wrapped_file in
    Ensures
      (FileDescribes true (open_input w (codes "config.json")))
      (FileFault (codes "config.json") true (open_input w (codes "config.json")))
      (load_config w (codes "config.json") true)
load_config-Ensures_example =
    load_config-Ensures (with_config wrapped_file) (codes "config.json") true

load_config-FileDescribes_example :
    let c : Config = record {
      server = wrapped_server;
      load_balancer = no_load_balancer;
      has_load_balancer = false;
    } in
    let w = with_config wrapped_file in
    (load_config w (codes "config.json") false ≡ ok c)
    ↔ FileDescribes false (open_input w (codes "config.json")) c
load_config-FileDescribes_example =
    load_config-FileDescribes (with_config wrapped_file) (codes "config.json") false (record {
      server = wrapped_server;
      load_balancer = no_load_balancer;
      has_load_balancer = false;
    })
