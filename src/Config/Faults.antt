-- ===== src/Config/Faults.antt =====
-- config.cpp: what a message of load_config says is wrong with the file, stated of the JSON value.
use link_scheduling.Prelude.{
  ℕ, suc, ◌%◌, ◌^◌, ◌≡◌, ◌≢◌, ◌⊎◌, Bool, true, false, Option, none, some, [], ◌∷◌, ◌++◌,
}
use link_scheduling.Prelude.Text.{Bytes, codes}
use link_scheduling.Config.Json.{Json, Items, integer, str, array, no_items, item, size, lookup}
use link_scheduling.Config.Load.{backend_prefix, not_positive, not_a_port, is_object}

-- The texts of the messages about a field.
abbrev pub missing_text : Bytes → Bytes
missing_text name = codes "error: missing required field '" ++ (name ++ b'\'' ∷ [])

abbrev pub type_text : Bytes → Bytes
type_text name = codes "error: invalid type for field '" ++ (name ++ b'\'' ∷ [])

abbrev pub value_text : Bytes → Bytes
value_text name = codes "error: invalid value for field '" ++ (name ++ b'\'' ∷ [])

abbrev pub four_text : Bytes
four_text = codes "error: field 'load_balancer.backends' must contain exactly four entries"

-- What is found under a key is not a string, and the message says so.
abbrev pub StringFault : Bytes → Option Json → Bytes → Type 0
StringFault name none m = m ≡ missing_text name
StringFault name (some (str s)) m = ⊥
StringFault name (some v) m = m ≡ type_text name

-- It is not an int that passes the test `bad`; `range` is the message about a bad one.
abbrev pub IntFault : (ℕ → Bool) → Bytes → Bytes → Option Json → Bytes → Type 0
IntFault bad range name none m = m ≡ missing_text name
IntFault bad range name (some (integer w)) m = (bad (w % 2 ^ 32) ≡ true) × (m ≡ range)
IntFault bad range name (some v) m = m ≡ type_text name

-- An int field of the server; all its messages speak of the type.
abbrev pub ServerIntFault : (ℕ → Bool) → Bytes → Json → Bytes → Type 0
ServerIntFault bad key v m =
    IntFault bad (type_text (codes "server." ++ key)) (codes "server." ++ key) (lookup v key) m

pub data ServerFault (v : Json) (m : Bytes) : Type 0 where
  ip_fault : StringFault (codes "server.ip") (lookup v (codes "ip")) m → ServerFault v m
  port_fault : ServerIntFault not_a_port (codes "port") v m → ServerFault v m
  server_threads_fault : ServerIntFault not_positive (codes "server_threads") v m → ServerFault v m
  client_threads_fault : ServerIntFault not_positive (codes "client_threads") v m → ServerFault v m

-- An int field of a part that the messages call `prefix`; a bad value has a message of its own.
abbrev pub ValueFault : (ℕ → Bool) → Bytes → Bytes → Json → Bytes → Type 0
ValueFault bad prefix key v m =
    IntFault bad (value_text (prefix ++ b'.' ∷ key)) (prefix ++ b'.' ∷ key) (lookup v key) m

pub data BackendFault (prefix : Bytes) (v : Json) (m : Bytes) : Type 0 where
  not_object : is_object v ≡ false → m ≡ type_text prefix → BackendFault prefix v m
  ip_fault : StringFault (prefix ++ codes ".ip") (lookup v (codes "ip")) m → BackendFault prefix v m
  port_fault : ValueFault not_a_port prefix (codes "port") v m → BackendFault prefix v m

-- One of the backends, counted from `i`, is at fault.
abbrev pub BackendsFault : ℕ → Items → Bytes → Type 0
BackendsFault i no_items m = ⊥
BackendsFault i (item v items) m =
    BackendFault (backend_prefix i) v m ⊎ BackendsFault (suc i) items m

-- There are not four of them.
abbrev pub FourFault : Option Json → Bytes → Type 0
FourFault none m = m ≡ missing_text (codes "load_balancer.backends")
FourFault (some (array items)) m = (size items ≢ 4) × (m ≡ four_text)
FourFault (some v) m = m ≡ four_text

pub data BalancerFault (v : Json) (m : Bytes) : Type 0 where
  not_object : is_object v ≡ false → m ≡ type_text (codes "load_balancer") → BalancerFault v m
  ip_fault : StringFault (codes "load_balancer.ip") (lookup v (codes "ip")) m → BalancerFault v m
  port_fault : ValueFault not_a_port (codes "load_balancer") (codes "port") v m → BalancerFault v m
  interval_fault :
      ValueFault not_positive (codes "load_balancer") (codes "health_interval_ms") v m
      → BalancerFault v m
  four_fault : FourFault (lookup v (codes "backends")) m → BalancerFault v m
  backend_fault :
      (items : Items)
      → lookup v (codes "backends") ≡ some (array items)
      → BackendsFault 0 items m
      → BalancerFault v m

pub data RootFault (require : Bool) (root : Json) (m : Bytes) : Type 0 where
  no_server :
      lookup root (codes "server") ≡ none
      → m ≡ missing_text (codes "server")
      → RootFault require root m
  server_not_object :
      (v : Json)
      → lookup root (codes "server") ≡ some v
      → is_object v ≡ false
      → m ≡ type_text (codes "server")
      → RootFault require root m
  server_fault :
      (v : Json)
      → lookup root (codes "server") ≡ some v
      → ServerFault v m
      → RootFault require root m
  no_balancer :
      require ≡ true
      → lookup root (codes "load_balancer") ≡ none
      → m ≡ missing_text (codes "load_balancer")
      → RootFault require root m
  balancer_fault :
      (v : Json)
      → lookup root (codes "load_balancer") ≡ some v
      → BalancerFault v m
      → RootFault require root m
