-- ===== src/Config/Checks/Server.antt =====
-- config.cpp: the checks of the object "server".
use link_scheduling.Prelude.{◌≡◌, refl}
use link_scheduling.Prelude.Text.{codes}
use link_scheduling.Config.Outcome.{ok, Ensures, holds, Ensures-then}
use link_scheduling.Config.Json.{Json}
use link_scheduling.Config.Load.{ServerConfig, not_positive, not_a_port, load_server}
use link_scheduling.Config.Describes.{DescribesServer}
use link_scheduling.Config.Faults.{type_text, ServerFault}
use link_scheduling.Config.Checks.Fields.{
  string_field-Ensures, int_field-Ensures, IntFault-bad, unless_bad-Ensures, string_field-ok,
  int_field-ok, not_a_port→IsPort, not_positive→IsPositive, IsPort→not_a_port,
  IsPositive→not_positive,
}

pub load_server-Ensures : (v : Json) → Ensures (DescribesServer v) (ServerFault v) (load_server v)
unfolding load_server
load_server-Ensures v =
    let at_port = codes "server.port" in
    let at_threads = codes "server.server_threads" in
    let at_clients = codes "server.client_threads" in
    Ensures-then (string_field-Ensures v (codes "ip") (codes "server.ip"))
      (λ m. ServerFault.ip_fault)
      λ ip hip.
        Ensures-then (int_field-Ensures not_a_port (type_text at_port) v (codes "port") at_port)
          (λ m. ServerFault.port_fault)
          λ port hport.
            Ensures-then
              (int_field-Ensures not_positive (type_text at_threads) v (codes "server_threads")
                at_threads)
              (λ m. ServerFault.server_threads_fault)
              λ st hst.
                Ensures-then
                  (int_field-Ensures not_positive (type_text at_clients) v (codes "client_threads")
                    at_clients)
                  (λ m. ServerFault.client_threads_fault)
                  λ ct hct.
                    Ensures-then
                      (unless_bad-Ensures (not_a_port port) (type_text at_port)
                        (λ t.
                          ServerFault.port_fault
                            (IntFault-bad not_a_port _ v _ at_port port hport t))
                        (not_a_port→IsPort port))
                      (λ m f. f)
                      λ u kport.
                        Ensures-then
                          (unless_bad-Ensures (not_positive st) (type_text at_threads)
                            (λ t.
                              ServerFault.server_threads_fault
                                (IntFault-bad not_positive _ v _ at_threads st hst t))
                            (not_positive→IsPositive st))
                          (λ m f. f)
                          λ u kst.
                            Ensures-then
                              (unless_bad-Ensures (not_positive ct) (type_text at_clients)
                                (λ t.
                                  ServerFault.client_threads_fault
                                    (IntFault-bad not_positive _ v _ at_clients ct hct t))
                                (not_positive→IsPositive ct))
                              (λ m f. f)
                              λ u kct. holds (record {
                                ip = hip;
                                port = hport;
                                server_threads = hst;
                                client_threads = hct;
                                is_port = kport;
                                has_server_threads = kst;
                                has_client_threads = kct;
                              })

pub load_server-ok : (v : Json) (c : ServerConfig) → DescribesServer v c → load_server v ≡ ok c
unfolding load_server
load_server-ok v c d =
    rw
      (
        string_field-ok v (codes "ip") (codes "server.ip") c.ip d.ip,
        int_field-ok v (codes "port") (codes "server.port") c.port d.port,
        int_field-ok v (codes "server_threads") (codes "server.server_threads") c.server_threads
            d.server_threads,
        int_field-ok v (codes "client_threads") (codes "server.client_threads") c.client_threads
            d.client_threads,
        IsPort→not_a_port c.port d.is_port,
        IsPositive→not_positive c.server_threads d.has_server_threads,
        IsPositive→not_positive c.client_threads d.has_client_threads,
      )
      refl
