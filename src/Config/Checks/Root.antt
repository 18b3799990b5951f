-- ===== src/Config/Checks/Root.antt =====
-- config.cpp: load_config as a whole.
use mathlib.Core.Path.{subst}
use link_scheduling.Prelude.{
  ◌≡◌, ◌↔◌, refl, sym, Bool, true, false, not, Option, none, some, [], ◌∷◌, ◌++◌,
}
use link_scheduling.Prelude.Text.{Bytes, codes}
use link_scheduling.World.{World}
use link_scheduling.FileIo.{open_input}
use link_scheduling.Config.Outcome.{
  Outcome, ok, throws, out_of_fuel, and_then, Ensures, holds, refused, Ensures-then, Ensures-ok,
  Ensures-weaken, malformed_text,
}
use link_scheduling.Config.Json.{Json, lookup}
use link_scheduling.Config.Parser.{parse}
use link_scheduling.Config.Load.{
  ServerConfig, Config, required, is_object, with_load_balancer, config_of, load_config,
}
use link_scheduling.Config.Describes.{DescribesServer, DescribesOptional, Describes}
use link_scheduling.Config.Faults.{missing_text, type_text, RootFault}
use link_scheduling.Config.Fuel.Values.{parse-Ensures}
use link_scheduling.Config.Checks.Fields.{unless_bad-Ensures, lookup-is_object}
use link_scheduling.Config.Checks.Server.{load_server-Ensures, load_server-ok}
use link_scheduling.Config.Checks.Balancer.{
  not-object, load_load_balancer-Ensures, load_load_balancer-ok,
}

required-Ensures :
    (v : Json) (key name : Bytes)
    → Ensures
        (λ x. lookup v key ≡ some x)
        (λ m. (lookup v key ≡ none) × (m ≡ missing_text name))
        (required v key name)
unfolding required
required-Ensures v key name = go (lookup v key)
  where
    go :
        (o : Option Json)
        → Ensures
            (λ x. o ≡ some x)
            (λ m. (o ≡ none) × (m ≡ missing_text name))
            (elim o [ none ↦ throws (missing_text name) | some x ↦ ok x ])
    go none = refused (refl, refl)
    go (some x) = holds refl

with_load_balancer-Ensures :
    (require : Bool) (root : Json) (server : ServerConfig) (o : Option Json)
    → lookup root (codes "load_balancer") ≡ o
    → Ensures
        (λ c. (c.server ≡ server) × DescribesOptional require o c)
        (RootFault require root)
        (with_load_balancer require server o)
unfolding with_load_balancer
with_load_balancer-Ensures true root server none h = refused (RootFault.no_balancer refl h refl)
with_load_balancer-Ensures false root server none h = holds (refl, (refl, refl, refl))
with_load_balancer-Ensures require root server (some v) h =
    Ensures-then (load_load_balancer-Ensures v) (λ m. RootFault.balancer_fault v h)
      λ c d. holds (refl, (refl, d))

pub config_of-Ensures :
    (require : Bool) (root : Json)
    → Ensures (Describes require root) (RootFault require root) (config_of require root)
unfolding config_of
config_of-Ensures require root =
    Ensures-then (required-Ensures root (codes "server") (codes "server"))
      (λ m (h, e). RootFault.no_server h e)
      λ v hv.
        Ensures-then
          (unless_bad-Ensures {P = Unit} (not (is_object v)) (type_text (codes "server"))
            (λ t. RootFault.server_not_object v hv (not-object v t) refl) (λ t. tt))
          (λ m f. f)
          λ u ku.
            Ensures-then (load_server-Ensures v) (λ m. RootFault.server_fault v hv)
              λ server ds.
                Ensures-weaken
                  (with_load_balancer-Ensures require root server
                    (lookup root (codes "load_balancer")) refl)
                  λ c (hs, dl). (v, hv, subst (DescribesServer v) (sym hs) ds, dl)

with_load_balancer-ok :
    (require : Bool) (o : Option Json) (c : Config)
    → DescribesOptional require o c
    → with_load_balancer require c.server o ≡ ok c
unfolding with_load_balancer
with_load_balancer-ok require none c (r, h, e) = rw r (λ i.
    ok (record { server = c.server; load_balancer = (sym e) i; has_load_balancer = (sym h) i }))
with_load_balancer-ok require (some v) c (h, d) =
    rw (load_load_balancer-ok v c.load_balancer d)
      (λ i. ok (record c { has_load_balancer = (sym h) i }))

-- A document is accepted with exactly the configuration that it describes.
pub config_of-ok :
    (require : Bool) (root : Json) (c : Config)
    → Describes require root c
    → config_of require root ≡ ok c
unfolding config_of required
config_of-ok require root c (v, hv, ds, dl) =
    rw (hv, lookup-is_object v (codes "ip") ds.ip, load_server-ok v c.server ds)
      (with_load_balancer-ok require (lookup root (codes "load_balancer")) c dl)

abbrev pub open_text : Bytes → Bytes
open_text path = codes "error: could not open config file '" ++ (path ++ b'\'' ∷ [])

-- What was read describes the configuration.
abbrev pub ParsedDescribes : Bool → Outcome Json → Config → Type 0
ParsedDescribes require (ok root) c = Describes require root c
ParsedDescribes require (throws m) c = ⊥
ParsedDescribes require out_of_fuel c = ⊥

abbrev pub FileDescribes : Bool → Option Bytes → Config → Type 0
FileDescribes require none c = ⊥
FileDescribes require (some text) c = ParsedDescribes require (parse text) c

-- What is wrong with the file, as the message says it.
abbrev pub ParsedFault : Bool → Outcome Json → Bytes → Type 0
ParsedFault require (ok root) m = RootFault require root m
ParsedFault require (throws m') m = m ≡ malformed_text
ParsedFault require out_of_fuel m = ⊥

abbrev pub FileFault : Bytes → Bool → Option Bytes → Bytes → Type 0
FileFault path require none m = m ≡ open_text path
FileFault path require (some text) m = ParsedFault require (parse text) m

parsed-Ensures :
    (require : Bool) (p : Outcome Json)
    → Ensures (λ v. Unit) (λ m. m ≡ malformed_text) p
    → Ensures (ParsedDescribes require p) (ParsedFault require p) (and_then p (config_of require))
parsed-Ensures require _ (holds {a} h) = config_of-Ensures require a
parsed-Ensures require _ (refused h) = refused h

-- load_config always ends. A configuration that it returns is the one that the file describes, and
-- a message that it throws is true of the file.
pub load_config-Ensures :
    (w : World) (path : Bytes) (require : Bool)
    → Ensures
        (FileDescribes require (open_input w path))
        (FileFault path require (open_input w path))
        (load_config w path require)
unfolding load_config
load_config-Ensures w path require = go (open_input w path)
  where
    go :
        (o : Option Bytes)
        → Ensures (FileDescribes require o) (FileFault path require o) (elim o [
          | none ↦ throws (open_text path)
          | some text ↦ and_then (parse text) (config_of require)
        ])
    go none = refused refl
    go (some text) = parsed-Ensures require (parse text) (parse-Ensures text)

-- A file is accepted with exactly the configurations that it describes.
pub load_config-FileDescribes :
    (w : World) (path : Bytes) (require : Bool) (c : Config)
    → (load_config w path require ≡ ok c) ↔ FileDescribes require (open_input w path) c
unfolding load_config
load_config-FileDescribes w path require c =
    (λ h. Ensures-ok (load_config-Ensures w path require) h, λ d. go (open_input w path) d)
  where
    parsed :
        (p : Outcome Json) → ParsedDescribes require p c → and_then p (config_of require) ≡ ok c
    parsed (ok root) d = config_of-ok require root c d
    parsed (throws m) d = elim d [ ]
    parsed out_of_fuel d = elim d [ ]

    go :
        (o : Option Bytes)
        → FileDescribes require o c
        → elim o as (λ o. Outcome Config) [
          | none ↦ throws (open_text path)
          | some text ↦ and_then (parse text) (config_of require)
        ]
          ≡ ok c
    go none d = elim d [ ]
    go (some text) d = parsed (parse text) d
