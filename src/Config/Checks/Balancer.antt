-- ===== src/Config/Checks/Balancer.antt =====
-- config.cpp: the checks of the object "load_balancer" and its backends.
use link_scheduling.Prelude.{
  ◌≡◌, refl, ℕ, suc, inl, inr, true, false, not, Option, none, some, List, [], ◌∷◌, ◌++◌, ◌==◌,
  Bool-cases, ==→eq, ==→ne, eq→==, arith,
}
use link_scheduling.Prelude.Text.{Bytes, codes}
use link_scheduling.Config.Outcome.{ok, throws, and_then, Ensures, holds, refused, Ensures-then}
use link_scheduling.Config.Json.{
  Json, Items, null, boolean, integer, real, str, object, array, no_items, item, size, lookup,
}
use link_scheduling.Config.Load.{
  BackendConfig, LoadBalancerConfig, required, not_positive, not_a_port, is_object, backend_prefix,
  load_backend, load_backends, four_backends, backends_of, load_load_balancer,
}
use link_scheduling.Config.Describes.{DescribesBackend, DescribesBackends, DescribesLoadBalancer}
use link_scheduling.Config.Faults.{
  missing_text, type_text, value_text, BackendFault, BackendsFault, FourFault, BalancerFault,
}
use link_scheduling.Config.Checks.Fields.{
  string_field-Ensures, int_field-Ensures, IntFault-bad, unless_bad-Ensures, string_field-ok,
  int_field-ok, not_a_port→IsPort, not_positive→IsPositive, IsPort→not_a_port,
  IsPositive→not_positive, lookup-is_object,
}

pub not-object : (v : Json) → not (is_object v) ≡ true → is_object v ≡ false
not-object v h = elim (Bool-cases (is_object v)) [
  | inl e ↦ absurd (ground (arith, e, h))
  | inr e ↦ e
]

load_backend-Ensures :
    (prefix : Bytes) (v : Json)
    → Ensures (DescribesBackend v) (BackendFault prefix v) (load_backend prefix v)
unfolding load_backend
load_backend-Ensures prefix v =
    let at_port = prefix ++ codes ".port" in
    Ensures-then
      (unless_bad-Ensures {P = Unit} (not (is_object v)) (type_text prefix)
        (λ t. BackendFault.not_object (not-object v t) refl) (λ t. tt))
      (λ m f. f)
      λ u ku.
        Ensures-then (string_field-Ensures v (codes "ip") (prefix ++ codes ".ip"))
          (λ m. BackendFault.ip_fault)
          λ ip hip.
            Ensures-then
              (int_field-Ensures not_a_port (value_text at_port) v (codes "port") at_port)
              (λ m. BackendFault.port_fault)
              λ port hport.
                Ensures-then
                  (unless_bad-Ensures (not_a_port port) (value_text at_port)
                    (λ t.
                      BackendFault.port_fault (IntFault-bad not_a_port _ v _ at_port port hport t))
                    (not_a_port→IsPort port))
                  (λ m f. f) λ u kport. holds (record { ip = hip; port = hport; is_port = kport })

load_backends-Ensures :
    (i : ℕ) (items : Items)
    → Ensures (DescribesBackends items) (BackendsFault i items) (load_backends i items)
unfolding load_backends
load_backends-Ensures i no_items = holds tt
load_backends-Ensures i (item v items) =
    Ensures-then (load_backend-Ensures (backend_prefix i) v) (λ m. inl)
      λ c hc.
        Ensures-then (load_backends-Ensures (suc i) items) (λ m. inr) λ cs hcs. holds (hc, hcs)

-- The array under "backends", in one step with its field.
four-Ensures :
    (v : Json)
    → Ensures
        (λ items. (lookup v (codes "backends") ≡ some (array items)) × (size items ≡ 4))
        (FourFault (lookup v (codes "backends")))
        (backends_of v)
unfolding backends_of required four_backends
four-Ensures v = go (lookup v (codes "backends"))
  where
    go :
        (o : Option Json)
        → Ensures
            (λ items. (o ≡ some (array items)) × (size items ≡ 4))
            (FourFault o)
            (and_then
              (elim o [
                | none ↦ throws (missing_text (codes "load_balancer.backends"))
                | some x ↦ ok x
              ])
              four_backends)
    go none = refused refl
    go (some null) = refused refl
    go (some (boolean b)) = refused refl
    go (some (integer w)) = refused refl
    go (some (real token)) = refused refl
    go (some (str s)) = refused refl
    go (some (object fs)) = refused refl
    go (some (array items)) = elim (Bool-cases (size items == 4)) [
      | inl e ↦ rw e (holds (refl, ==→eq (size items) 4 e))
      | inr e ↦ rw e (refused (==→ne (size items) 4 e, refl))
    ]

pub load_load_balancer-Ensures :
    (v : Json) → Ensures (DescribesLoadBalancer v) (BalancerFault v) (load_load_balancer v)
unfolding load_load_balancer
load_load_balancer-Ensures v =
    let at_port = codes "load_balancer.port" in
    let at_interval = codes "load_balancer.health_interval_ms" in
    Ensures-then
      (unless_bad-Ensures {P = Unit} (not (is_object v)) (type_text (codes "load_balancer"))
        (λ t. BalancerFault.not_object (not-object v t) refl) (λ t. tt))
      (λ m f. f)
      λ u ku.
        Ensures-then (string_field-Ensures v (codes "ip") (codes "load_balancer.ip"))
          (λ m. BalancerFault.ip_fault)
          λ ip hip.
            Ensures-then
              (int_field-Ensures not_a_port (value_text at_port) v (codes "port") at_port)
              (λ m. BalancerFault.port_fault)
              λ port hport.
                Ensures-then
                  (int_field-Ensures not_positive (value_text at_interval) v
                    (codes "health_interval_ms") at_interval)
                  (λ m. BalancerFault.interval_fault)
                  λ interval hinterval.
                    Ensures-then (four-Ensures v) (λ m. BalancerFault.four_fault)
                      λ items (hitems, four).
                        Ensures-then (load_backends-Ensures 0 items)
                          (λ m f. BalancerFault.backend_fault items hitems f)
                          λ backends hbackends.
                            Ensures-then
                              (unless_bad-Ensures (not_a_port port) (value_text at_port)
                                (λ t.
                                  BalancerFault.port_fault
                                    (IntFault-bad not_a_port _ v _ at_port port hport t))
                                (not_a_port→IsPort port))
                              (λ m f. f)
                              λ u kport.
                                Ensures-then
                                  (unless_bad-Ensures (not_positive interval)
                                    (value_text at_interval)
                                    (λ t. BalancerFault.interval_fault (
                                      IntFault-bad not_positive _ v _ at_interval interval hinterval
                                        t))
                                    (not_positive→IsPositive interval))
                                  (λ m f. f)
                                  λ u kinterval. holds (record {
                                    ip = hip;
                                    port = hport;
                                    health_interval_ms = hinterval;
                                    backends = (items, hitems, four, hbackends);
                                    is_port = kport;
                                    is_interval = kinterval;
                                  })

load_backend-ok :
    (prefix : Bytes) (v : Json) (c : BackendConfig)
    → DescribesBackend v c
    → load_backend prefix v ≡ ok c
unfolding load_backend
load_backend-ok prefix v c d =
    rw
      (
        lookup-is_object v (codes "ip") d.ip,
        string_field-ok v (codes "ip") (prefix ++ codes ".ip") c.ip d.ip,
        int_field-ok v (codes "port") (prefix ++ codes ".port") c.port d.port,
        IsPort→not_a_port c.port d.is_port,
      )
      refl

load_backends-ok :
    (i : ℕ) (items : Items) (cs : List BackendConfig)
    → DescribesBackends items cs
    → load_backends i items ≡ ok cs
unfolding load_backends
load_backends-ok i no_items [] d = refl
load_backends-ok i no_items (c ∷ cs) d = elim d [ ]
load_backends-ok i (item v items) [] d = elim d [ ]
load_backends-ok i (item v items) (c ∷ cs) (d, ds) =
    rw (load_backend-ok (backend_prefix i) v c d, load_backends-ok (suc i) items cs ds) refl

pub load_load_balancer-ok :
    (v : Json) (c : LoadBalancerConfig) → DescribesLoadBalancer v c → load_load_balancer v ≡ ok c
unfolding load_load_balancer backends_of required four_backends
load_load_balancer-ok v c d =
    let (items, hitems, four, hbackends) = d.backends in
    rw
      (
        lookup-is_object v (codes "ip") d.ip,
        string_field-ok v (codes "ip") (codes "load_balancer.ip") c.ip d.ip,
        int_field-ok v (codes "port") (codes "load_balancer.port") c.port d.port,
        int_field-ok v (codes "health_interval_ms") (codes "load_balancer.health_interval_ms")
            c.health_interval_ms d.health_interval_ms,
        hitems,
        eq→== (size items) 4 four,
        load_backends-ok 0 items c.backends hbackends,
        IsPort→not_a_port c.port d.is_port,
        IsPositive→not_positive c.health_interval_ms d.is_interval,
      )
      refl
