-- ===== src/Config/Load.antt =====
-- config.cpp, config.h: load_config. An int field is its bit pattern; the casts from long long keep
-- the low 32 bits.
use link_scheduling.Prelude.{
  ℕ, suc, ◌%◌, ◌^◌, Bool, true, false, not, ◌||◌, Option, none, some, List, [], ◌∷◌, ◌++◌, ltb, leb,
  ◌==◌, if◌then◌else◌,
}
use link_scheduling.Prelude.Text.{Bytes, codes}
use link_scheduling.Prelude.Decimal.{to_string}
use link_scheduling.World.{World}
use link_scheduling.FileIo.{open_input}
use link_scheduling.Config.Outcome.{Outcome, ok, throws, and_then}
use link_scheduling.Config.Json.{
  Json, Items, null, boolean, integer, real, str, object, array, no_items, item, size, lookup,
}
use link_scheduling.Config.Parser.{parse}

pub record ServerConfig : Type 0 where
  pub ip : Bytes
  pub port : ℕ
  pub server_threads : ℕ
  pub client_threads : ℕ

pub record BackendConfig : Type 0 where
  pub ip : Bytes
  pub port : ℕ

pub record LoadBalancerConfig : Type 0 where
  pub ip : Bytes
  pub port : ℕ
  pub health_interval_ms : ℕ
  pub backends : List BackendConfig

pub record Config : Type 0 where
  pub server : ServerConfig
  pub load_balancer : LoadBalancerConfig
  pub has_load_balancer : Bool

module _ {ℓ κ} {A : Type ℓ} {B : Type κ} where
  infixl 1 ◌>>=◌ ◌>>◌
  abbrev ◌>>=◌ : Outcome A → (A → Outcome B) → Outcome B
  p >>= f = and_then p f

  abbrev ◌>>◌ : Outcome A → Outcome B → Outcome B
  p >> q = and_then p λ _. q

abbrev pure {ℓ} : {A : Type ℓ} → A → Outcome A
pure a = ok a

-- The three kinds of message about a field.
abbrev pub missing {ℓ} : {A : Type ℓ} → Bytes → Outcome A
missing name = throws (codes "error: missing required field '" ++ (name ++ b'\'' ∷ []))

abbrev pub invalid_type {ℓ} : {A : Type ℓ} → Bytes → Outcome A
invalid_type name = throws (codes "error: invalid type for field '" ++ (name ++ b'\'' ∷ []))

abbrev pub invalid_value {ℓ} : {A : Type ℓ} → Bytes → Outcome A
invalid_value name = throws (codes "error: invalid value for field '" ++ (name ++ b'\'' ∷ []))

-- `if (bad) throw ...;`
abbrev pub unless_bad : Bool → Outcome (Unit {0}) → Outcome (Unit {0})
unless_bad bad error = if bad then error else ok tt

abbrev pub present : Bytes → Option Json → Outcome Json
present name none = missing name
present name (some v) = ok v

-- `contains` and `at` on the field that the messages call `name`.
unfoldable pub required : Json → Bytes → Bytes → Outcome Json
unfolding lookup
required v key name = present name (lookup v key)

unfoldable pub string_of : Bytes → Json → Outcome Bytes
string_of name (str s) = ok s
string_of name null = invalid_type name
string_of name (boolean b) = invalid_type name
string_of name (integer w) = invalid_type name
string_of name (real token) = invalid_type name
string_of name (object fs) = invalid_type name
string_of name (array items) = invalid_type name

-- static_cast<int> of a long long.
unfoldable pub int_of : Bytes → Json → Outcome ℕ
int_of name (integer w) = ok (w % 2 ^ 32)
int_of name null = invalid_type name
int_of name (boolean b) = invalid_type name
int_of name (real token) = invalid_type name
int_of name (str s) = invalid_type name
int_of name (object fs) = invalid_type name
int_of name (array items) = invalid_type name

unfoldable pub string_field : Json → Bytes → Bytes → Outcome Bytes
unfolding required string_of
string_field v key name = do s ← required v key name; string_of name s

unfoldable pub int_field : Json → Bytes → Bytes → Outcome ℕ
unfolding required int_of
int_field v key name = do n ← required v key name; int_of name n

abbrev pub is_object : Json → Bool
is_object (object fs) = true
is_object null = false
is_object (boolean b) = false
is_object (integer w) = false
is_object (real token) = false
is_object (str s) = false
is_object (array items) = false

-- `n <= 0` on an int.
abbrev pub not_positive : ℕ → Bool
not_positive n = n == 0 || leb (2 ^ 31) n

-- `port <= 0 || port > 65535` on an int.
abbrev pub not_a_port : ℕ → Bool
not_a_port port = not_positive port || ltb 65535 port

unfoldable pub load_server : Json → Outcome ServerConfig
unfolding string_field int_field
load_server server = do
  ip ← string_field server (codes "ip") (codes "server.ip")
  port ← int_field server (codes "port") (codes "server.port")
  server_threads ← int_field server (codes "server_threads") (codes "server.server_threads")
  client_threads ← int_field server (codes "client_threads") (codes "server.client_threads")
  unless_bad (not_a_port port) (invalid_type (codes "server.port"))
  unless_bad (not_positive server_threads) (invalid_type (codes "server.server_threads"))
  unless_bad (not_positive client_threads) (invalid_type (codes "server.client_threads"))
  pure (record {
    ip = ip;
    port = port;
    server_threads = server_threads;
    client_threads = client_threads;
  })

-- `"load_balancer.backends[" + std::to_string(i) + "]"`.
abbrev pub backend_prefix : ℕ → Bytes
backend_prefix i = codes "load_balancer.backends[" ++ (to_string i ++ b']' ∷ [])

-- The body of the loop over the backends.
unfoldable pub load_backend : Bytes → Json → Outcome BackendConfig
unfolding string_field int_field
load_backend prefix backend = do
  unless_bad (not (is_object backend)) (invalid_type prefix)
  ip ← string_field backend (codes "ip") (prefix ++ codes ".ip")
  port ← int_field backend (codes "port") (prefix ++ codes ".port")
  unless_bad (not_a_port port) (invalid_value (prefix ++ codes ".port"))
  pure (record { ip = ip; port = port })

unfoldable pub load_backends : ℕ → Items → Outcome (List BackendConfig)
unfolding load_backend
load_backends i no_items = ok []
load_backends i (item backend items) = do
  parsed ← load_backend (backend_prefix i) backend
  rest ← load_backends (suc i) items
  pure (parsed ∷ rest)

abbrev pub not_four {ℓ} : {A : Type ℓ} → Outcome A
not_four = throws (codes "error: field 'load_balancer.backends' must contain exactly four entries")

-- The array of the backends, if it has four entries.
unfoldable pub four_backends : Json → Outcome Items
four_backends (array items) = if size items == 4 then ok items else not_four
four_backends null = not_four
four_backends (boolean b) = not_four
four_backends (integer w) = not_four
four_backends (real token) = not_four
four_backends (str s) = not_four
four_backends (object fs) = not_four

unfoldable pub backends_of : Json → Outcome Items
unfolding required four_backends
backends_of lb = do
  field ← required lb (codes "backends") (codes "load_balancer.backends")
  four_backends field

unfoldable pub load_load_balancer : Json → Outcome LoadBalancerConfig
unfolding string_field int_field backends_of load_backends
load_load_balancer lb = do
  unless_bad (not (is_object lb)) (invalid_type (codes "load_balancer"))
  ip ← string_field lb (codes "ip") (codes "load_balancer.ip")
  port ← int_field lb (codes "port") (codes "load_balancer.port")
  interval ← int_field lb (codes "health_interval_ms") (codes "load_balancer.health_interval_ms")
  items ← backends_of lb
  backends ← load_backends 0 items
  unless_bad (not_a_port port) (invalid_value (codes "load_balancer.port"))
  unless_bad (not_positive interval) (invalid_value (codes "load_balancer.health_interval_ms"))
  pure (record { ip = ip; port = port; health_interval_ms = interval; backends = backends })

-- A load balancer that no one has configured.
abbrev pub no_load_balancer : LoadBalancerConfig
no_load_balancer = record { ip = []; port = 0; health_interval_ms = 0; backends = [] }

-- What is done about the field "load_balancer".
unfoldable pub with_load_balancer : Bool → ServerConfig → Option Json → Outcome Config
unfolding load_load_balancer
with_load_balancer require server none =
    if require
    then missing (codes "load_balancer")
    else ok
        (record { server = server; load_balancer = no_load_balancer; has_load_balancer = false })
with_load_balancer require server (some lb) = do
  load_balancer ← load_load_balancer lb
  pure (record { server = server; load_balancer = load_balancer; has_load_balancer = true })

-- load_config past the parser.
unfoldable pub config_of : Bool → Json → Outcome Config
unfolding required lookup load_server with_load_balancer
config_of require root = do
  field ← required root (codes "server") (codes "server")
  unless_bad (not (is_object field)) (invalid_type (codes "server"))
  server ← load_server field
  with_load_balancer require server (lookup root (codes "load_balancer"))

unfoldable pub load_config : World → Bytes → Bool → Outcome Config
unfolding open_input parse config_of
load_config w config_path require_load_balancer = elim (open_input w config_path) [
  | none ↦ throws (codes "error: could not open config file '" ++ (config_path ++ b'\'' ∷ []))
  | some text ↦ do root ← parse text; config_of require_load_balancer root
]
