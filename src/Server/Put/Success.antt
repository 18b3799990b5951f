-- ===== src/Server/Put/Success.antt =====
-- When a round of serve_put succeeds: no call that writes a file fails, and the bytes that the round
-- needs come without a pause (server.cpp).
use mathlib.Core.Path.{subst}
use link_scheduling.Prelude.{
  ℕ, zero, suc, ◌+◌, ◌-◌, ◌^◌, ◌≤◌, ◌<◌, ◌≡◌, refl, ◌∙◌, inl, inr, true, ◌&&◌, some, List, [], ◌∷◌,
  arith, min, ltb, length, take, drop, length-drop, length-take, add64, add64-eq, sub64, sub64-eq,
  Bool-cases,
}
use link_scheduling.Prelude.Text.{Bytes}
use link_scheduling.Request.{Request}
use link_scheduling.World.{
  World, Arrival, arrives, pauses, breaks, draw_fault, leave_behind, receive_from,
  recv_data_with_timeout,
}
use link_scheduling.Server.Put.{Progress, write_bytes, pending_loop, receive_loop}
use link_scheduling.Server.Put.Stream.{at_fd_here}

-- At least `n` bytes come before a pause, an error or the end.
abbrev pub Delivers : ℕ → List Arrival → Type 0
Delivers n [] = n ≡ 0
Delivers n (arrives [] ∷ later) = n ≡ 0
Delivers n (arrives (c ∷ cs) ∷ later) = Delivers (n - suc (length cs)) later
Delivers n (pauses ∷ later) = n ≡ 0
Delivers n (breaks ∷ later) = n ≡ 0

-- A receive that asks for bytes gets some of them, and the others still come.
pub record Got (m n : ℕ) (queued : List Arrival) : Type 0 where
  pub first : ℕ
  pub others : Bytes
  pub takes : (receive_from queued m).0 ≡ some (first ∷ others)
  pub size : suc (length others) ≤ m
  pub rest : Delivers (n - suc (length others)) (receive_from queued m).1

Delivers-leave_behind :
    (k : ℕ) (rest : Bytes) (later : List Arrival)
    → Delivers (k - length rest) later
    → Delivers k (leave_behind rest later)
Delivers-leave_behind k [] later d = subst (λ j. Delivers j later) (omega arith) d
Delivers-leave_behind k (c ∷ cs) later d = d

pub receive_from-Got :
    (m n : ℕ) (queued : List Arrival) → 0 < m → m ≤ n → Delivers n queued → Got m n queued
receive_from-Got m n [] p k d = absurd (omega arith)
receive_from-Got m n (arrives [] ∷ later) p k d = absurd (omega arith)
receive_from-Got zero n (arrives (c ∷ cs) ∷ later) p k d = absurd (omega arith)
receive_from-Got (suc m) n (arrives (c ∷ cs) ∷ later) p k d = record {
  first = c;
  others = take m cs;
  takes = refl;
  size = omega (arith, length-take m cs);
  rest =
      Delivers-leave_behind _ (drop m cs) later
        (subst (λ j. Delivers j later) (omega (arith, length-take m cs, length-drop m cs)) d);
}
receive_from-Got m n (pauses ∷ later) p k d = absurd (omega arith)
receive_from-Got m n (breaks ∷ later) p k d = absurd (omega arith)

-- With no fault to come, a write succeeds, no fault comes up, and the sockets are as they were.
pub write_bytes-good :
    (path bytes : Bytes) (n : ℕ) (w : World)
    → w.faults ≡ []
    → ((write_bytes path n bytes w).0 ≡ true)
      × ((write_bytes path n bytes w).1.faults ≡ [])
      × ((write_bytes path n bytes w).1.arrivals ≡ w.arrivals)
unfolding write_bytes draw_fault
write_bytes-good path bytes n w h = rw h (refl, refl, refl)

pub receive_loop-success :
    (fuel : ℕ) (path : Bytes) (req : Request) (buffer_size pos processed left : ℕ) (w : World)
    → left < fuel
    → left < 2 ^ 64
    → min left 1 ≤ buffer_size
    → w.faults ≡ []
    → Delivers left (w.arrivals req.client_fd)
    → (receive_loop fuel path req buffer_size pos processed left w).0.success ≡ true
unfolding receive_loop recv_data_with_timeout
receive_loop-success zero path req buffer_size pos processed left w f b m h d = absurd (omega arith)
receive_loop-success (suc fuel) path req buffer_size pos processed left w f b m h d =
    elim (Bool-cases (ltb 0 left)) [
      | inl more ↦
          let got =
            receive_from-Got (min buffer_size left) left (w.arrivals req.client_fd) (ground arith)
              (omega arith) d in
          let read = (recv_data_with_timeout req.client_fd (min buffer_size left) w).1 in
          let bytes : Bytes = got.first ∷ got.others in
          let fewer : sub64 left (suc (length got.others)) ≡ left - suc (length got.others) =
            sub64-eq left _ (omega (arith, got.size)) b in
          let (wrote, no_fault, same) = write_bytes-good path bytes pos read h in
          rw (more, receive_loop)
            (rw (got.takes, wrote)
              (receive_loop-success fuel path req buffer_size (pos + length bytes)
                (add64 processed (length bytes)) (sub64 left (length bytes))
                (write_bytes path pos bytes read).1 (omega (arith, fewer)) (omega (arith, fewer))
                (omega (arith, fewer)) no_fault
                (rw (fewer, same, at_fd_here w.arrivals req.client_fd _) got.rest)))
      | inr done ↦ rw (done, receive_loop) refl
    ]

-- The first loop succeeds and leaves what the pending bytes do not cover.
pub record PendingGood (req : Request) (left : ℕ) (w : World) (p : Progress) (w' : World)
    : Type 0 where
  pub good : p.good ≡ true
  pub no_fault : w'.faults ≡ []
  pub arrivals : w'.arrivals ≡ w.arrivals
  pub client_fd : p.request.client_fd ≡ req.client_fd
  pub uncovered : p.left ≡ left - (length req.pending_bytes - req.pending_offset)

pub pending_loop-PendingGood :
    (fuel : ℕ) (path : Bytes) (req : Request) (pos processed left : ℕ) (w : World)
    → left < fuel
    → length req.pending_bytes < 2 ^ 64
    → w.faults ≡ []
    → let (p, w') = pending_loop fuel path req pos processed left w in PendingGood req left w p w'
unfolding pending_loop
pending_loop-PendingGood zero path req pos processed left w f b h = absurd (omega arith)
pending_loop-PendingGood (suc fuel) path req pos processed left w f b h =
    elim (Bool-cases (ltb 0 left && ltb req.pending_offset (length req.pending_bytes))) [
      | inl more ↦
          let chunk = min left (length req.pending_bytes - req.pending_offset) in
          let piece = take chunk (drop req.pending_offset req.pending_bytes) in
          let some_chunk : 0 < chunk = ground arith in
          let moved : add64 req.pending_offset chunk ≡ req.pending_offset + chunk =
            add64-eq req.pending_offset chunk (ground arith) in
          let (wrote, no_fault, same) = write_bytes-good path piece pos w h in
          let later =
            pending_loop-PendingGood fuel path
              (record req { pending_offset = add64 req.pending_offset chunk }) (pos + chunk)
              (add64 processed chunk) (left - chunk) (write_bytes path pos piece w).1 (omega arith)
              b no_fault in
          rw (more, pending_loop)
            (rw wrote (record {
              good = later.good;
              no_fault = later.no_fault;
              arrivals = later.arrivals ∙ same;
              client_fd = later.client_fd;
              uncovered = later.uncovered ∙ omega (arith, moved);
            }))
      | inr done ↦
          rw (done, pending_loop)
            (record {
              good = refl;
              no_fault = h;
              arrivals = refl;
              client_fd = refl;
              uncovered = ground arith;
            })
    ]
