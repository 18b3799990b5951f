-- ===== src/Config/Print/Saved.antt =====
-- A configuration written as the text of a file, which load_config of config.cpp reads back.
use link_scheduling.Prelude.{
  ◌≡◌, refl, ap, suc, Bool, true, some, List, [], ◌∷◌, length, All, arith,
}
use link_scheduling.Prelude.Text.{Bytes, codes, eq_bytes}
use link_scheduling.World.{World}
use link_scheduling.FileIo.{open_input}
use link_scheduling.Config.Outcome.{ok}
use link_scheduling.Config.Json.{
  Json, Items, integer, str, object, array, no_items, item, no_fields, field, size, find, lookup,
}
use link_scheduling.Config.Load.{
  ServerConfig, BackendConfig, LoadBalancerConfig, Config, load_config,
}
use link_scheduling.Config.Describes.{
  IsPort, IsPositive, DescribesServer, DescribesBackends, DescribesLoadBalancer, Describes,
}
use link_scheduling.Config.Checks.Root.{load_config-FileDescribes}
use link_scheduling.Config.Print.{print, all_printable-IsText, IsText, IsPlain, ArePlainItems}
use link_scheduling.Config.Print.Values.Rounds.{parse-print}

abbrev pub server_json : ServerConfig → Json
server_json c = object (
    field (codes "ip") (str c.ip) (
      field (codes "port") (integer c.port) (
        field (codes "server_threads") (integer c.server_threads)
          (field (codes "client_threads") (integer c.client_threads) no_fields))))

abbrev pub backend_json : BackendConfig → Json
backend_json c =
    object (field (codes "ip") (str c.ip) (field (codes "port") (integer c.port) no_fields))

abbrev pub backends_json : List BackendConfig → Items
backends_json [] = no_items
backends_json (c ∷ cs) = item (backend_json c) (backends_json cs)

abbrev pub balancer_json : LoadBalancerConfig → Json
balancer_json c = object (
    field (codes "ip") (str c.ip) (
      field (codes "port") (integer c.port) (
        field (codes "health_interval_ms") (integer c.health_interval_ms)
          (field (codes "backends") (array (backends_json c.backends)) no_fields))))

-- The file of a server with a load balancer.
abbrev pub config_json : ServerConfig → LoadBalancerConfig → Json
config_json s b = object (
    field (codes "server") (server_json s)
      (field (codes "load_balancer") (balancer_json b) no_fields))

-- What a configuration that can be saved is like.
pub record IsServer (c : ServerConfig) : Type 0 where
  pub ip : IsText c.ip
  pub port : IsPort c.port
  pub server_threads : IsPositive c.server_threads
  pub client_threads : IsPositive c.client_threads

abbrev pub IsBackend : BackendConfig → Type 0
IsBackend c = IsText c.ip × IsPort c.port

pub record IsBalancer (c : LoadBalancerConfig) : Type 0 where
  pub ip : IsText c.ip
  pub port : IsPort c.port
  pub health_interval_ms : IsPositive c.health_interval_ms
  pub four : length c.backends ≡ 4
  pub backends : All IsBackend c.backends

server_json-Describes : (c : ServerConfig) → IsServer c → DescribesServer (server_json c) c
unfolding lookup find eq_bytes
server_json-Describes c h = record {
  ip = refl;
  port = (c.port, refl, omega (arith, h.port));
  server_threads = (c.server_threads, refl, omega (arith, h.server_threads));
  client_threads = (c.client_threads, refl, omega (arith, h.client_threads));
  is_port = h.port;
  has_server_threads = h.server_threads;
  has_client_threads = h.client_threads;
}

backends_json-Describes :
    (cs : List BackendConfig) → All IsBackend cs → DescribesBackends (backends_json cs) cs
unfolding lookup find eq_bytes
backends_json-Describes [] h = tt
backends_json-Describes (c ∷ cs) ((ht, hp), hs) = (
  record { ip = refl; port = (c.port, refl, omega (arith, hp)); is_port = hp },
  backends_json-Describes cs hs,
)

size-backends_json : (cs : List BackendConfig) → size (backends_json cs) ≡ length cs
size-backends_json [] = refl
size-backends_json (c ∷ cs) = ap suc (size-backends_json cs)

balancer_json-Describes :
    (c : LoadBalancerConfig) → IsBalancer c → DescribesLoadBalancer (balancer_json c) c
unfolding lookup find eq_bytes
balancer_json-Describes c h = record {
  ip = refl;
  port = (c.port, refl, omega (arith, h.port));
  health_interval_ms = (c.health_interval_ms, refl, omega (arith, h.health_interval_ms));
  backends = (
    backends_json c.backends,
    refl,
    omega (arith, size-backends_json c.backends, h.four),
    backends_json-Describes c.backends h.backends,
  );
  is_port = h.port;
  is_interval = h.health_interval_ms;
}

-- What the keys are like.
server_json-IsPlain : (c : ServerConfig) → IsServer c → IsPlain (server_json c)
unfolding find eq_bytes
server_json-IsPlain c h = (
  all_printable-IsText (codes "ip") refl,
  h.ip,
  refl,
  (
    all_printable-IsText (codes "port") refl,
    omega (arith, h.port),
    refl,
    (
      all_printable-IsText (codes "server_threads") refl,
      omega (arith, h.server_threads),
      refl,
      (
        all_printable-IsText (codes "client_threads") refl,
        omega (arith, h.client_threads),
        refl,
        tt,
      ),
    ),
  ),
)

backends_json-ArePlainItems :
    (cs : List BackendConfig) → All IsBackend cs → ArePlainItems (backends_json cs)
unfolding find eq_bytes
backends_json-ArePlainItems [] h = tt
backends_json-ArePlainItems (c ∷ cs) ((ht, hp), hs) = (
  (
    all_printable-IsText (codes "ip") refl,
    ht,
    refl,
    (all_printable-IsText (codes "port") refl, omega (arith, hp), refl, tt),
  ),
  backends_json-ArePlainItems cs hs,
)

balancer_json-IsPlain : (c : LoadBalancerConfig) → IsBalancer c → IsPlain (balancer_json c)
unfolding find eq_bytes
balancer_json-IsPlain c h = (
  all_printable-IsText (codes "ip") refl,
  h.ip,
  refl,
  (
    all_printable-IsText (codes "port") refl,
    omega (arith, h.port),
    refl,
    (
      all_printable-IsText (codes "health_interval_ms") refl,
      omega (arith, h.health_interval_ms),
      refl,
      (
        all_printable-IsText (codes "backends") refl,
        backends_json-ArePlainItems c.backends h.backends,
        refl,
        tt,
      ),
    ),
  ),
)

-- A configuration with four backends, whose texts can be written, is loaded from its file as it is.
pub load_config-print :
    (w : World) (path : Bytes) (require : Bool) (s : ServerConfig) (b : LoadBalancerConfig)
    → IsServer s
    → IsBalancer b
    → open_input w path ≡ some (print (config_json s b))
    → load_config w path require
      ≡ ok (record { server = s; load_balancer = b; has_load_balancer = true })
unfolding lookup find eq_bytes
load_config-print w path require s b hs hb file =
    let plain : IsPlain (config_json s b) = (
      all_printable-IsText (codes "server") refl,
      server_json-IsPlain s hs,
      refl,
      (all_printable-IsText (codes "load_balancer") refl, balancer_json-IsPlain b hb, refl, tt),
    ) in
    let c : Config = record { server = s; load_balancer = b; has_load_balancer = true } in
    let described : Describes require (config_json s b) c =
      (server_json s, refl, server_json-Describes s hs, (refl, balancer_json-Describes b hb)) in
    (load_config-FileDescribes w path require c).1
      (rw (file, parse-print (config_json s b) plain) described)
