-- ===== src/Config/Describes.antt =====
-- config.cpp, config.h: what a configuration file says, stated of the JSON value without an order
-- of checks.
use link_scheduling.Prelude.{
  ℕ, ◌%◌, ◌^◌, ◌<◌, ◌≡◌, Bool, true, false, Option, none, some, List, [], ◌∷◌,
}
use link_scheduling.Prelude.Text.{Bytes, codes}
use link_scheduling.Config.Json.{Json, Items, integer, str, array, no_items, item, size, lookup}
use link_scheduling.Config.Load.{
  ServerConfig, BackendConfig, LoadBalancerConfig, Config, no_load_balancer,
}

abbrev pub StringField : Json → Bytes → Bytes → Type 0
StringField v key s = lookup v key ≡ some (str s)

-- The int is the low half of the long long in the file.
abbrev pub IntField : Json → Bytes → ℕ → Type 0
IntField v key n = (w : ℕ) × (lookup v key ≡ some (integer w)) × (n ≡ w % 2 ^ 32)

abbrev pub IsPort : ℕ → Type 0
IsPort n = (0 < n) × (n < 65536)

-- A positive int.
abbrev pub IsPositive : ℕ → Type 0
IsPositive n = (0 < n) × (n < 2 ^ 31)

pub record DescribesServer (v : Json) (c : ServerConfig) : Type 0 where
  pub ip : StringField v (codes "ip") c.ip
  pub port : IntField v (codes "port") c.port
  pub server_threads : IntField v (codes "server_threads") c.server_threads
  pub client_threads : IntField v (codes "client_threads") c.client_threads
  pub is_port : IsPort c.port
  pub has_server_threads : IsPositive c.server_threads
  pub has_client_threads : IsPositive c.client_threads

pub record DescribesBackend (v : Json) (c : BackendConfig) : Type 0 where
  pub ip : StringField v (codes "ip") c.ip
  pub port : IntField v (codes "port") c.port
  pub is_port : IsPort c.port

abbrev pub DescribesBackends : Items → List BackendConfig → Type 0
DescribesBackends no_items [] = Unit
DescribesBackends no_items (c ∷ cs) = ⊥
DescribesBackends (item v items) [] = ⊥
DescribesBackends (item v items) (c ∷ cs) = DescribesBackend v c × DescribesBackends items cs

-- Exactly four backends.
abbrev pub DescribesFour : Json → List BackendConfig → Type 0
DescribesFour v cs =
    (items : Items) × (lookup v (codes "backends") ≡ some (array items))
    × (size items ≡ 4)
    × DescribesBackends items cs

pub record DescribesLoadBalancer (v : Json) (c : LoadBalancerConfig) : Type 0 where
  pub ip : StringField v (codes "ip") c.ip
  pub port : IntField v (codes "port") c.port
  pub health_interval_ms : IntField v (codes "health_interval_ms") c.health_interval_ms
  pub backends : DescribesFour v c.backends
  pub is_port : IsPort c.port
  pub is_interval : IsPositive c.health_interval_ms

-- The load balancer may be left out where it is not required.
abbrev pub DescribesOptional : Bool → Option Json → Config → Type 0
DescribesOptional require none c =
    (require ≡ false) × (c.has_load_balancer ≡ false) × (c.load_balancer ≡ no_load_balancer)
DescribesOptional require (some v) c =
    (c.has_load_balancer ≡ true) × DescribesLoadBalancer v c.load_balancer

abbrev pub Describes : Bool → Json → Config → Type 0
Describes require root c =
    (server : Json) × (lookup root (codes "server") ≡ some server)
    × DescribesServer server c.server
    × DescribesOptional require (lookup root (codes "load_balancer")) c
