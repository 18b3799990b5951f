-- ===== src/Client/Receive.antt =====
-- recv of client.cpp: what it takes off the stream of a socket.
use mathlib.Core.Path.{subst}
use link_scheduling.Prelude.{
  ℕ, suc, ◌<◌, ◌≡◌, refl, sym, ◌∙◌, Option, some, List, [], ◌∷◌, arith, length, take, drop,
}
use link_scheduling.Prelude.Text.{Bytes}
use link_scheduling.World.{World, Arrival, arrives, pauses, breaks, leave_behind}
use link_scheduling.Client.{recv_from, recv}
use link_scheduling.Server.Put.Stream.{stream, Takes, receive_from-Takes, at_fd_here}

-- Bytes and pauses, and no error; the peer closes behind them.
abbrev pub IsClean : List Arrival → Type 0
IsClean [] = Unit
IsClean (arrives [] ∷ later) = ⊥
IsClean (arrives (c ∷ cs) ∷ later) = IsClean later
IsClean (pauses ∷ later) = IsClean later
IsClean (breaks ∷ later) = ⊥

pub recv_from-Takes :
    (queued : List Arrival) (n : ℕ) → Takes queued n (recv_from queued n).0 (recv_from queued n).1
unfolding recv_from
recv_from-Takes [] n = (refl, omega arith)
recv_from-Takes (arrives bytes ∷ later) n = receive_from-Takes (arrives bytes ∷ later) n
recv_from-Takes (pauses ∷ later) n = recv_from-Takes later n
recv_from-Takes (breaks ∷ later) n = tt

IsClean-leave_behind :
    (rest : Bytes) (later : List Arrival) → IsClean later → IsClean (leave_behind rest later)
IsClean-leave_behind [] later h = h
IsClean-leave_behind (c ∷ rest) later h = h

pub recv_from-IsClean :
    (queued : List Arrival) (n : ℕ) → IsClean queued → IsClean (recv_from queued n).1
unfolding recv_from
recv_from-IsClean [] n h = tt
recv_from-IsClean (arrives [] ∷ later) n h = elim h [ ]
recv_from-IsClean (arrives (c ∷ cs) ∷ later) n h = IsClean-leave_behind (drop n (c ∷ cs)) later h
recv_from-IsClean (pauses ∷ later) n h = recv_from-IsClean later n h
recv_from-IsClean (breaks ∷ later) n h = elim h [ ]

-- While bytes are to come, recv gives some.
pub recv_from-some :
    (queued : List Arrival) (n : ℕ)
    → IsClean queued
    → 0 < length (stream queued)
    → (c : ℕ) × (cs : Bytes) × ((recv_from queued (suc n)).0 ≡ some (c ∷ cs))
unfolding recv_from
recv_from-some [] n h k = absurd (omega arith)
recv_from-some (arrives [] ∷ later) n h k = elim h [ ]
recv_from-some (arrives (c ∷ cs) ∷ later) n h k = (c, take n cs, refl)
recv_from-some (pauses ∷ later) n h k = recv_from-some later n h k
recv_from-some (breaks ∷ later) n h k = elim h [ ]

-- Only the arrivals on sockets differ.
abbrev pub Framed : World → World → Type 0
Framed w w' =
    (w'.files ≡ w.files)
    × (w'.faults ≡ w.faults)
    × (w'.sends ≡ w.sends)
    × (w'.sent ≡ w.sent)
    × (w'.closed ≡ w.closed)

pub Framed-trans : (u v w : World) → Framed u v → Framed v w → Framed u w
Framed-trans u v w (a, b, c, d, e) (a', b', c', d', e') = (a' ∙ a, b' ∙ b, c' ∙ c, d' ∙ d, e' ∙ e)

-- A recv, as a step between two worlds.
pub record Received (sock n : ℕ) (o : Option Bytes) (w w' : World) : Type 0 where
  pub takes : Takes (w.arrivals sock) n o (w'.arrivals sock)
  pub framed : Framed w w'
  pub clean : IsClean (w.arrivals sock) → IsClean (w'.arrivals sock)

pub recv-Received : (sock n : ℕ) (w : World) → Received sock n (recv sock n w).0 w (recv sock n w).1
unfolding recv
recv-Received sock n w =
    let here = sym (at_fd_here w.arrivals sock (recv_from (w.arrivals sock) n).1) in
    record {
      takes =
          subst (λ l. Takes (w.arrivals sock) n (recv_from (w.arrivals sock) n).0 l) here
            (recv_from-Takes (w.arrivals sock) n);
      framed = (refl, refl, refl, refl, refl);
      clean = λ h. subst IsClean here (recv_from-IsClean (w.arrivals sock) n h);
    }
