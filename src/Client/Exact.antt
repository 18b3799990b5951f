-- ===== src/Client/Exact.antt =====
-- recv_exact of client.cpp: the bytes of a file on their way from the socket to the disk.
pub mod Prefix
use mathlib.Core.Path.{subst}
use link_scheduling.Prelude.{
  ℕ, zero, suc, ◌+◌, ◌-◌, ◌≤◌, ◌<◌, ◌≡◌, ◌≢◌, refl, sym, ap, ◌∙◌, inl, inr, min, Bool, true, false,
  ◌&&◌, ◌==◌, Option, none, some, List, [], ◌∷◌, ◌++◌, arith, ltb, leb, if◌then◌else◌, length, take,
  drop, take-append-drop, length-take, length-append, append_assoc, append-nil, Bool-cases,
  Option-cases, lt→ltb, ltb→lt, ltb→le,
}
use link_scheduling.Prelude.Text.{Bytes}
use link_scheduling.World.{draw_fault, next_fault, World, M, pure, Arrival}
use link_scheduling.Server.Put.{write_bytes}
use link_scheduling.Server.Put.Stream.{stream, Takes, Wrote, write_bytes-Wrote}
use link_scheduling.Client.{
  recv_from, recv, write_out, prefix_loop, exact_by, exact_loop, exact_rest, recv_exact,
}
use link_scheduling.Client.Receive.{IsClean, Framed, Received, recv-Received, recv_from-some}

-- The output file holds these bytes, if there is one.
abbrev pub Holding : Option Bytes → Bytes → World → Type 0
Holding none written w = Unit
Holding (some path) written w = w.files path ≡ some written

-- Nothing has been sent, and no socket has been closed.
abbrev pub Quiet : World → World → Type 0
Quiet w w' = (w'.sent ≡ w.sent) × (w'.closed ≡ w.closed)

-- `n` bytes of the text have been written, and the rest of it is in `left` and on the socket.
pub record Reached (base : World) (sock : ℕ) (out : Option Bytes) (text left : Bytes) (n : ℕ)
    (w : World) : Type 0 where
  pub written : Bytes
  pub holding : Holding out written w
  pub counted : length written ≡ n
  pub whole : written ++ (left ++ stream (w.arrivals sock)) ≡ text
  pub quiet : Quiet base w

-- What writing the next bytes has done.
abbrev WriteOutcome : Option Bytes → Bytes → World → Bool × World → Type 0
WriteOutcome out written w (false, w') = Unit
WriteOutcome out written w (true, w') =
    Holding out written w' × (w'.arrivals ≡ w.arrivals) × Quiet w w'

write_bytes-Quiet :
    (path : Bytes) (pos : ℕ) (bytes : Bytes) (w : World) → Quiet w (write_bytes path pos bytes w).1
unfolding write_bytes draw_fault
write_bytes-Quiet path pos bytes w = elim (Bool-cases (next_fault w.faults).0) [
  | inl e ↦ rw e (refl, refl)
  | inr e ↦ rw e (refl, refl)
]

write_out-WriteOutcome :
    (out : Option Bytes) (written bytes : Bytes) (w : World)
    → Holding out written w
    → WriteOutcome out (written ++ bytes) w (write_out out (length written) bytes w)
unfolding write_out
write_out-WriteOutcome none written bytes w h = (tt, refl, (refl, refl))
write_out-WriteOutcome (some path) written bytes w h =
    go (write_bytes path (length written) bytes w)
      (write_bytes-Wrote path written bytes (length written) w h refl)
      (write_bytes-Quiet path (length written) bytes w)
  where
    go :
        (run : Bool × World)
        → (run.0 ≡ true → Wrote path (written ++ bytes) w run.1)
        → Quiet w run.1
        → WriteOutcome (some path) (written ++ bytes) w run
    go (false, w') k q = tt
    go (true, w') k q = ((k refl).stored, (k refl).arrivals, q)

Holding-files :
    (out : Option Bytes) (written : Bytes) (w w' : World)
    → w'.files ≡ w.files
    → Holding out written w
    → Holding out written w'
Holding-files none written w w' e h = tt
Holding-files (some path) written w w' e h = ap (λ (f : Bytes → Option Bytes). f path) e ∙ h

-- The end of recv_exact: if it succeeds, the first `size` bytes have been written.
abbrev pub ExactOutcome : World → ℕ → Option Bytes → Bytes → ℕ → Bool × World → Type 0
ExactOutcome base sock out text size (false, w) = Unit
ExactOutcome base sock out text size (true, w) = Reached base sock out text [] size w

module _ (base : World) (sock : ℕ) (out : Option Bytes) (text : Bytes) (size : ℕ) where
  -- A turn of the second loop, by what recv has given.
  exact_by-ExactOutcome :
      (received n : ℕ) (again : ℕ → M Bool) (o : Option Bytes) (w w' : World)
      → Reached base sock out text [] received w
      → Received sock n o w w'
      → ((k : ℕ) (v : World)
          → Reached base sock out text [] k v
          → k ≤ received + n
          → ExactOutcome base sock out text size (again k v))
      → ExactOutcome base sock out text size (exact_by out received again o w')
  unfolding exact_by
  exact_by-ExactOutcome received n again none w w' s r k = tt
  exact_by-ExactOutcome received n again (some []) w w' s r k = tt
  exact_by-ExactOutcome received n again (some (c ∷ cs)) w w' s r k =
      go (write_out out received (c ∷ cs) w') (
        subst (λ i. WriteOutcome out (s.written ++ c ∷ cs) w' (write_out out i (c ∷ cs) w'))
          s.counted
          (write_out-WriteOutcome out s.written (c ∷ cs) w'
            (Holding-files out s.written w w' r.framed.0 s.holding)))
    where
      sent_same : w'.sent ≡ w.sent
      sent_same = let (a, b, d, e, f) = r.framed in e

      closed_same : w'.closed ≡ w.closed
      closed_same = let (a, b, d, e, f) = r.framed in f

      go :
          (run : Bool × World)
          → WriteOutcome out (s.written ++ c ∷ cs) w' run
          → ExactOutcome base sock out text size
              ((if run.0 then again (received + length (c ∷ cs)) else pure false) run.1)
      go (false, v) h = tt
      go (true, v) (h, same, (q1, q2)) =
          k _ v
            (record {
              written = s.written ++ c ∷ cs;
              holding = h;
              counted = omega (arith, length-append s.written (c ∷ cs), s.counted);
              whole =
                  append_assoc s.written (c ∷ cs) (stream (v.arrivals sock))
                  ∙ ap (◌++◌ s.written)
                      (ap (λ (a : ℕ → List Arrival). (c ∷ cs) ++ stream (a sock)) same ∙ r.takes.0)
                  ∙ s.whole;
              quiet = (q1 ∙ sent_same ∙ s.quiet.0, q2 ∙ closed_same ∙ s.quiet.1);
            })
            (omega (arith, r.takes.1))

  exact_loop-ExactOutcome :
      (fuel received : ℕ) (w : World)
      → received ≤ size
      → Reached base sock out text [] received w
      → ExactOutcome base sock out text size (exact_loop fuel sock out size received w)
  unfolding exact_loop recv
  exact_loop-ExactOutcome zero received w le s = tt
  exact_loop-ExactOutcome (suc fuel) received w le s = elim (Bool-cases (ltb received size)) [
    | inr full ↦
        rw (full, exact_loop)
          (subst (λ k. Reached base sock out text [] k w) (omega (arith, ltb→le received size full))
            s)
    | inl more ↦
        rw (more, exact_loop)
          (exact_by-ExactOutcome received (min (size - received) 8192)
            (exact_loop fuel sock out size) _ w _ s
            (recv-Received sock (min (size - received) 8192) w)
            (λ k v r le'.
              exact_loop-ExactOutcome fuel k v (omega (arith, ltb→lt received size more)) r))
  ]

-- With no write to fail, every write succeeds.
record WroteAll (w : World) (run : Bool × World) : Type 0 where
  good : run.0 ≡ true
  faults : run.1.faults ≡ []
  arrivals : run.1.arrivals ≡ w.arrivals

write_out-WroteAll :
    (out : Option Bytes) (n : ℕ) (bytes : Bytes) (w : World)
    → w.faults ≡ []
    → WroteAll w (write_out out n bytes w)
unfolding write_out write_bytes draw_fault
write_out-WroteAll none n bytes w h = record { good = refl; faults = h; arrivals = refl }
write_out-WroteAll (some path) n bytes w h = record {
  good = rw h refl;
  faults = rw h refl;
  arrivals = rw h refl;
}

module _ (sock : ℕ) (out : Option Bytes) (size : ℕ) where
  -- With no error and no full disk, and as many bytes as are wanted on their way, the loop succeeds.
  exact_loop-true :
      (fuel received : ℕ) (w : World)
      → IsClean (w.arrivals sock)
      → w.faults ≡ []
      → received ≤ size
      → size ≤ received + length (stream (w.arrivals sock))
      → size < received + fuel
      → (exact_loop fuel sock out size received w).0 ≡ true
  unfolding exact_loop recv exact_by
  exact_loop-true zero received w c h le enough f = absurd (omega arith)
  exact_loop-true (suc fuel) received w c h le enough f = elim (Bool-cases (ltb received size)) [
    | inr full ↦ rw (full, exact_loop) refl
    | inl more ↦
        let at_least : suc (chunk - 1) ≡ chunk = omega (arith, ltb→lt received size more) in
        let (b, bs, some_got) =
          recv_from-some (w.arrivals sock) (chunk - 1) c
            (omega (arith, ltb→lt received size more)) in
        let got : (recv_from (w.arrivals sock) chunk).0 ≡ some (b ∷ bs) =
          subst (λ k. (recv_from (w.arrivals sock) k).0 ≡ some (b ∷ bs)) at_least some_got in
        rw (more, exact_loop)
          (rw got (
            turn (λ k v a b d e g. exact_loop-true fuel k v a b d e g) b bs
              (subst (λ o. Takes (w.arrivals sock) chunk o (next.arrivals sock)) got
                received_here.takes)
              (ltb→lt received size more)))
  ]
    where
      chunk : ℕ
      chunk = min (size - received) 8192

      next : World
      next = (recv sock chunk w).1

      received_here : Received sock chunk (recv_from (w.arrivals sock) chunk).0 w next
      received_here = recv-Received sock chunk w

      turn :
          ((k : ℕ) (v : World)
            → IsClean (v.arrivals sock)
            → v.faults ≡ []
            → k ≤ size
            → size ≤ k + length (stream (v.arrivals sock))
            → size < k + fuel
            → (exact_loop fuel sock out size k v).0 ≡ true)
          → (b : ℕ) (bs : Bytes)
          → Takes (w.arrivals sock) chunk (some (b ∷ bs)) (next.arrivals sock)
          → received < size
          → (exact_by out received (exact_loop fuel sock out size) (some (b ∷ bs)) next).0 ≡ true
      turn again b bs (t, fits) small =
          let wrote = write_out-WroteAll out received (b ∷ bs) next h in
          let v : World = (write_out out received (b ∷ bs) next).1 in
          let here : v.arrivals sock ≡ next.arrivals sock =
            ap (λ (a : ℕ → List Arrival). a sock) wrote.arrivals in
          rw wrote.good (
            again (received + length (b ∷ bs)) v (subst IsClean (sym here) (received_here.clean c))
              wrote.faults (omega (arith, fits))
              (subst (λ a. size ≤ received + length (b ∷ bs) + length (stream a)) (sym here)
                (omega (
                  arith,
                  enough,
                  ap length t,
                  length-append (b ∷ bs) (stream (next.arrivals sock)),
                )))
              (omega (arith, f)))
