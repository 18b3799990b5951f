-- ===== src/Client/Exact/Prefix.antt =====
-- recv_exact of client.cpp: the leftover of the status line first, then the socket.
use mathlib.Core.Path.{subst}
use link_scheduling.Prelude.{
  ℕ, zero, suc, ◌+◌, ◌-◌, ◌≤◌, ◌<◌, ◌≡◌, ◌⊎◌, refl, sym, ap, ◌∙◌, inl, inr, min, Bool, true, false,
  ◌&&◌, Option, none, some, List, [], ◌∷◌, ◌++◌, arith, ltb, if◌then◌else◌, length, take, drop,
  take-append-drop, length-take, length-drop, length-append, append_assoc, Bool-cases, le→ltb,
}
use link_scheduling.Prelude.Text.{Bytes}
use link_scheduling.World.{World, pure, Arrival}
use link_scheduling.Server.Put.Stream.{stream}
use link_scheduling.Client.{write_out, prefix_loop, exact_loop, exact_rest, recv_exact}
use link_scheduling.Client.Receive.{IsClean}
use link_scheduling.Client.Status.{IsSome}
use link_scheduling.Client.Exact.{
  Holding, Reached, WriteOutcome, write_out-WriteOutcome, write_out-WroteAll, ExactOutcome,
  exact_loop-ExactOutcome, exact_loop-true,
}

-- Behind the first loop all of `size` has been received, or nothing is left of the leftover.
abbrev PrefixOutcome : World → ℕ → Option Bytes → Bytes → ℕ → Option ℕ × World → Type 0
PrefixOutcome base sock out text size (none, w) = Unit
PrefixOutcome base sock out text size (some r, w) =
    (left : Bytes) × Reached base sock out text left r w × (r ≤ size) × ((r ≡ size) ⊎ (left ≡ []))

-- If recv_exact succeeds, the first `size` bytes have been written, and the others are where they were.
abbrev pub RecvOutcome : World → ℕ → Option Bytes → Bytes → ℕ → Bool × World → Type 0
RecvOutcome base sock out text size (false, w) = Unit
RecvOutcome base sock out text size (true, w) =
    (left : Bytes) × Reached base sock out text left size w

stopped :
    (received size : ℕ) (prefix : Bytes)
    → received ≤ size
    → (ltb received size && ltb 0 (length prefix)) ≡ false
    → (received ≡ size) ⊎ (prefix ≡ [])
stopped received size [] h e = inr refl
stopped received size (c ∷ cs) h e = inl (ground arith)

going :
    (received size : ℕ) (prefix : Bytes)
    → (ltb received size && ltb 0 (length prefix)) ≡ true
    → (received < size) × (0 < length prefix)
going received size prefix e = (ground arith, ground arith)

exact_loop_full :
    (fuel sock : ℕ) (out : Option Bytes) (size : ℕ) (w : World)
    → exact_loop (suc fuel) sock out size size w ≡ (true, w)
unfolding exact_loop
exact_loop_full fuel sock out size w = rw (le→ltb size size (omega arith), exact_loop) refl

module _ (base : World) (sock : ℕ) (out : Option Bytes) (text : Bytes) (size : ℕ) where
  prefix_loop-PrefixOutcome :
      (fuel : ℕ) (prefix : Bytes) (received : ℕ) (w : World)
      → length prefix < fuel
      → received ≤ size
      → Reached base sock out text prefix received w
      → PrefixOutcome base sock out text size (prefix_loop fuel out size prefix received w)
  unfolding prefix_loop
  prefix_loop-PrefixOutcome zero prefix received w f h s = absurd (omega arith)
  prefix_loop-PrefixOutcome (suc fuel) prefix received w f h s =
      elim (Bool-cases (ltb received size && ltb 0 (length prefix))) [
        | inr e ↦ rw (e, prefix_loop) (prefix, s, h, stopped received size prefix h e)
        | inl e ↦
            let (more, some_left) = going received size prefix e in
            let shorter : length (drop chunk prefix) < fuel =
              omega (arith, f, more, some_left, length-drop chunk prefix) in
            rw (e, prefix_loop)
              (turn
                (λ r v hr sr. prefix_loop-PrefixOutcome fuel (drop chunk prefix) r v shorter hr sr)
                (write_out out received (take chunk prefix) w)
                (subst
                  (λ i.
                    WriteOutcome out (s.written ++ take chunk prefix) w
                      (write_out out i (take chunk prefix) w))
                  s.counted (write_out-WriteOutcome out s.written (take chunk prefix) w s.holding)))
      ]
    where
      chunk : ℕ
      chunk = min (size - received) (length prefix)

      turn :
          ((r : ℕ) (v : World)
            → r ≤ size
            → Reached base sock out text (drop chunk prefix) r v
            → PrefixOutcome base sock out text size
                (prefix_loop fuel out size (drop chunk prefix) r v))
          → (run : Bool × World) → WriteOutcome out (s.written ++ take chunk prefix) w run
          → PrefixOutcome base sock out text size (
              (if run.0
                  then prefix_loop fuel out size (drop chunk prefix) (received + chunk)
                  else pure none)
                run.1)
      turn again (false, v) q = tt
      turn again (true, v) (holding, same, (q1, q2)) =
          again (received + chunk) v (omega (arith, h)) (record {
            written = s.written ++ take chunk prefix;
            holding = holding;
            counted = omega (
              arith,
              length-append s.written (take chunk prefix),
              s.counted,
              length-take chunk prefix,
            );
            whole =
                append_assoc s.written (take chunk prefix) _
                ∙ ap (◌++◌ s.written) (
                    sym (append_assoc (take chunk prefix) (drop chunk prefix) _)
                    ∙ ap (λ (x : Bytes). x ++ stream (v.arrivals sock))
                        (take-append-drop chunk prefix)
                    ∙ ap (λ (a : ℕ → List Arrival). prefix ++ stream (a sock)) same)
                ∙ s.whole;
            quiet = (q1 ∙ s.quiet.0, q2 ∙ s.quiet.1);
          })

  nothing_left :
      (run : Bool × World)
      → ExactOutcome base sock out text size run
      → RecvOutcome base sock out text size run
  nothing_left (false, w) h = tt
  nothing_left (true, w) h = ([], h)

  exact_rest-RecvOutcome :
      (run : Option ℕ × World)
      → PrefixOutcome base sock out text size run
      → RecvOutcome base sock out text size (exact_rest sock out size run.0 run.1)
  unfolding exact_rest
  exact_rest-RecvOutcome (none, w) h = tt
  exact_rest-RecvOutcome (some r, w) (left, s, le, inl e) =
      rw (e, exact_loop_full size sock out size w)
        (left, subst (λ k. Reached base sock out text left k w) e s)
  exact_rest-RecvOutcome (some r, w) (left, s, le, inr e) =
      nothing_left (exact_loop (suc size) sock out size r w) (
        exact_loop-ExactOutcome base sock out text size (suc size) r w le
          (subst (λ l. Reached base sock out text l r w) e s))

-- Whatever fails and however the bytes are cut: if recv_exact succeeds, the file holds the first
-- `size` bytes of the leftover and what arrives behind it, and no byte behind them has been taken.
pub recv_exact-RecvOutcome :
    (sock size : ℕ) (prefix : Bytes) (out : Option Bytes) (w : World)
    → Holding out [] w
    → RecvOutcome w sock out
        (prefix ++ stream (w.arrivals sock))
        size
        (recv_exact sock size prefix out w)
unfolding recv_exact
recv_exact-RecvOutcome sock size prefix out w h =
    exact_rest-RecvOutcome w sock out (prefix ++ stream (w.arrivals sock)) size
      (prefix_loop (suc (length prefix)) out size prefix 0 w)
      (prefix_loop-PrefixOutcome w sock out (prefix ++ stream (w.arrivals sock)) size
        (suc (length prefix)) prefix 0 w (omega arith) (omega arith)
        (record { written = []; holding = h; counted = refl; whole = refl; quiet = (refl, refl) }))

-- With no write to fail, the first loop succeeds.
record PrefixAll (w : World) (run : Option ℕ × World) : Type 0 where
  good : IsSome run.0
  faults : run.1.faults ≡ []
  arrivals : run.1.arrivals ≡ w.arrivals

prefix_loop-PrefixAll :
    (out : Option Bytes) (size fuel : ℕ) (prefix : Bytes) (received : ℕ) (w : World)
    → w.faults ≡ []
    → PrefixAll w (prefix_loop fuel out size prefix received w)
unfolding prefix_loop
prefix_loop-PrefixAll out size zero prefix received w h = record {
  good = tt;
  faults = h;
  arrivals = refl;
}
prefix_loop-PrefixAll out size (suc fuel) prefix received w h =
    elim (Bool-cases (ltb received size && ltb 0 (length prefix))) [
      | inr e ↦ rw (e, prefix_loop) (record { good = tt; faults = h; arrivals = refl })
      | inl e ↦
          let chunk : ℕ = min (size - received) (length prefix) in
          let wrote = write_out-WroteAll out received (take chunk prefix) w h in
          let v : World = (write_out out received (take chunk prefix) w).1 in
          let later =
            prefix_loop-PrefixAll out size fuel (drop chunk prefix) (received + chunk) v
              wrote.faults in
          rw (e, prefix_loop)
            (rw wrote.good (record {
              good = later.good;
              faults = later.faults;
              arrivals = later.arrivals ∙ wrote.arrivals;
            }))
    ]

-- With no error on the socket, no write to fail and enough bytes to come, recv_exact succeeds.
pub recv_exact-true :
    (sock size : ℕ) (prefix : Bytes) (out : Option Bytes) (w : World)
    → Holding out [] w
    → IsClean (w.arrivals sock)
    → w.faults ≡ []
    → size ≤ length (prefix ++ stream (w.arrivals sock))
    → (recv_exact sock size prefix out w).0 ≡ true
unfolding recv_exact exact_rest
recv_exact-true sock size prefix out w h c f enough =
    go (prefix_loop (suc (length prefix)) out size prefix 0 w)
      (prefix_loop-PrefixOutcome w sock out text size (suc (length prefix)) prefix 0 w (omega arith)
        (omega arith)
        (record { written = []; holding = h; counted = refl; whole = refl; quiet = (refl, refl) }))
      (prefix_loop-PrefixAll out size (suc (length prefix)) prefix 0 w f)
  where
    text : Bytes
    text = prefix ++ stream (w.arrivals sock)

    go :
        (run : Option ℕ × World)
        → PrefixOutcome w sock out text size run
        → PrefixAll w run
        → (exact_rest sock out size run.0 run.1).0 ≡ true
    go (none, v) p a = elim a.good [ ]
    go (some r, v) (left, s, le, inl e) a = rw (e, exact_loop_full size sock out size v) refl
    go (some r, v) (left, s, le, inr e) a =
        exact_loop-true sock out size (suc size) r v
          (subst (λ q. IsClean (q sock)) (sym a.arrivals) c) a.faults le
          (omega (
            arith,
            enough,
            ap length s.whole,
            length-append s.written (left ++ stream (v.arrivals sock)),
            s.counted,
            length-append left (stream (v.arrivals sock)),
            ap length e,
          ))
          (omega arith)
