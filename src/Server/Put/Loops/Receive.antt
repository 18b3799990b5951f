-- ===== src/Server/Put/Loops/Receive.antt =====
-- The second loop of serve_put: bytes from the socket (server.cpp).
use mathlib.Core.Path.{subst}
use link_scheduling.Prelude.{
  ℕ, zero, suc, ◌+◌, ◌-◌, ◌^◌, ◌<◌, ◌≡◌, ◌⊎◌, refl, ap, ◌∙◌, inl, inr, Bool, true, false, Option,
  some, List, [], ◌∷◌, ◌++◌, arith, min, ltb, if◌then◌else◌, length, drop, add64, sub64, add64-eq,
  sub64-eq, Bool-cases, Option-cases,
}
use link_scheduling.Prelude.Text.{Bytes}
use link_scheduling.Request.{Request}
use link_scheduling.World.{World, Arrival, at_fd, receive_from, recv_data_with_timeout}
use link_scheduling.FileIo.{path_in}
use link_scheduling.Server.Get.{Served}
use link_scheduling.Server.Put.{write_bytes, receive_loop}
use link_scheduling.Server.Put.Stream.{
  stream, receive_from-Takes, Takes, Uploads, write_bytes-Wrote, at_fd_here,
}
use link_scheduling.Server.Put.Loops.{Uploads-move, Uploads-received}

module _ (up dir : Bytes) (base : Request) where
  abbrev path : Bytes
  path = path_in dir base.staging_filename

  -- What a loop of a round comes to, if it succeeds: all the bytes of the round are in the file.
  abbrev pub ReceiveOutcome : ℕ → ℕ → Served × World → Type 0
  ReceiveOutcome start total (s, w') =
      s.success ≡ true
      → Uploads up dir base s.request (start + s.bytes_processed) w' × (s.bytes_processed ≡ total)

  pub ReceiveOutcome-if :
      (start total : ℕ) (wrote : Bool) (x y : Served × World)
      → (wrote ≡ true → ReceiveOutcome start total x)
      → y.0.success ≡ false
      → ReceiveOutcome start total (if wrote then x else y)
  ReceiveOutcome-if start total true x y h k good = h refl good
  ReceiveOutcome-if start total false x y h k good = cc

  pub receive_loop-ReceiveOutcome :
      (fuel : ℕ) (req : Request) (buffer_size start total pos processed left : ℕ) (w : World)
      → total < 2 ^ 64
      → processed + left ≡ total
      → pos ≡ start + processed
      → (left ≡ 0) ⊎ (drop req.pending_offset req.pending_bytes ≡ [])
      → Uploads up dir base req pos w
      → ReceiveOutcome start total (receive_loop fuel path req buffer_size pos processed left w)
  unfolding receive_loop recv_data_with_timeout
  receive_loop-ReceiveOutcome zero req buffer_size start total pos processed left w b counted e d
        u =
      λ good. cc
  receive_loop-ReceiveOutcome (suc fuel) req buffer_size start total pos processed left w b counted
        e d u =
      elim (Bool-cases (ltb 0 left)) [
        | inl h ↦ elim (Option-cases got.0) [
          | inl none_got ↦ rw (h, receive_loop) (rw none_got (λ good. cc))
          | inr (bytes, some_got) ↦
              by_bytes
                (λ pos processed left w.
                  receive_loop-ReceiveOutcome fuel req buffer_size start total pos processed left w
                    b)
                h bytes some_got
        ]
        | inr h ↦ rw (h, receive_loop) (λ good. (Uploads-move up dir base e u, ground arith))
      ]
    where
      got : Option Bytes × List Arrival
      got = receive_from (w.arrivals req.client_fd) (min buffer_size left)

      rest_drained : ltb 0 left ≡ true → drop req.pending_offset req.pending_bytes ≡ []
      rest_drained h = elim d [ inl z ↦ absurd (ground arith) | inr drained ↦ drained ]

      by_bytes :
          (again : (pos processed left : ℕ) (w : World)
            → processed + left ≡ total
            → pos ≡ start + processed
            → (left ≡ 0) ⊎ (drop req.pending_offset req.pending_bytes ≡ [])
            → Uploads up dir base req pos w
            → ReceiveOutcome start total
                (receive_loop fuel path req buffer_size pos processed left w))
          → ltb 0 left ≡ true
          → (bytes : Bytes) → got.0 ≡ some bytes
          → ReceiveOutcome start total
              (receive_loop (suc fuel) path req buffer_size pos processed left w)
      by_bytes again h [] s = rw (h, receive_loop) (rw s (λ good. cc))
      by_bytes again h (c ∷ cs) s =
          let read : World = record w { arrivals = at_fd w.arrivals req.client_fd got.1 } in
          let (taken, size) : Takes (w.arrivals req.client_fd) (min buffer_size left)
              (some (c ∷ cs)) got.1 =
            subst (λ o. Takes (w.arrivals req.client_fd) (min buffer_size left) o got.1) s
              (receive_from-Takes (w.arrivals req.client_fd) (min buffer_size left)) in
          let n : ℕ = suc (length cs) in
          let more : add64 processed n ≡ processed + n =
            add64-eq processed n (omega (arith, b, counted)) in
          let fewer : sub64 left n ≡ left - n =
            sub64-eq left n (omega arith) (omega (arith, b, counted)) in
          rw (h, receive_loop)
            (rw s (
              ReceiveOutcome-if start total (write_bytes path pos (c ∷ cs) read).0 _ _
                (λ wrote.
                  again (pos + n) (add64 processed n) (sub64 left n)
                    (write_bytes path pos (c ∷ cs) read).1 (omega (arith, counted, more, fewer))
                    (omega (arith, e, more)) (inr (rest_drained h))
                    (Uploads-received up dir base req pos (c ∷ cs) w read _ u (rest_drained h)
                      (ap (λ (l : List Arrival). (c ∷ cs) ++ stream l)
                          (at_fd_here w.arrivals req.client_fd got.1)
                        ∙ taken)
                      (write_bytes-Wrote path u.content (c ∷ cs) pos read u.stored u.reached
                        wrote)))
                refl))
