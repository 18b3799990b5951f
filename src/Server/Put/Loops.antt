-- ===== src/Server/Put/Loops.antt =====
-- The two loops of serve_put: bytes that came with the header, then bytes from the socket
-- (server.cpp).
pub mod Receive
use mathlib.Core.Path.{subst}
use link_scheduling.Prelude.{
  ℕ, zero, suc, ◌+◌, ◌-◌, ◌^◌, ◌≤◌, ◌<◌, ◌≡◌, ◌⊎◌, refl, sym, ap, ◌∙◌, inl, inr, Bool, true, false,
  ◌&&◌, Option, some, List, [], ◌∷◌, ◌++◌, arith, min, ltb, if◌then◌else◌, length, take, drop,
  length-append, length-take, length-drop, take-append-drop, drop-drop, drop_all, append_assoc,
  add64, sub64, add64-eq, sub64-eq, Bool-cases, Option-cases,
}
use link_scheduling.Prelude.Text.{Bytes}
use link_scheduling.Request.{Request}
use link_scheduling.World.{World, Arrival, at_fd, receive_from, recv_data_with_timeout}
use link_scheduling.FileIo.{path_in}
use link_scheduling.Server.Get.{Served}
use link_scheduling.Server.Put.{Progress, write_bytes, pending_loop, receive_loop}
use link_scheduling.Server.Put.Stream.{
  stream, receive_from-Takes, Takes, Uploads, Wrote, write_bytes-Wrote, at_fd_here,
}

-- A piece of what is unread moves to the end of what is written.
whole-shift :
    (content piece later rest next_bytes : Bytes) {up : Bytes}
    → piece ++ later ≡ rest
    → content ++ (rest ++ next_bytes) ≡ up
    → (content ++ piece) ++ (later ++ next_bytes) ≡ up
whole-shift content piece later rest next_bytes e h =
    append_assoc content piece (later ++ next_bytes)
    ∙ ap (◌++◌ content)
        (sym (append_assoc piece later next_bytes) ∙ ap (λ (b : Bytes). b ++ next_bytes) e)
    ∙ h

module _ (up dir : Bytes) (base : Request) where
  abbrev path : Bytes
  path = path_in dir base.staging_filename

  pub Uploads-move :
      {req : Request} {w : World} {m n : ℕ}
      → m ≡ n
      → Uploads up dir base req m w
      → Uploads up dir base req n w
  Uploads-move e u = record {
    content = u.content;
    stored = u.stored;
    kept = u.kept;
    reached = u.reached ∙ e;
    whole = u.whole;
    pending_fits = u.pending_fits;
  }

  -- A piece of the bytes that came with the header has been written.
  Uploads-pending :
      (req : Request) (n chunk : ℕ) (w w' : World) (u : Uploads up dir base req n w)
      → req.pending_offset + chunk ≤ length req.pending_bytes
      → Wrote path (u.content ++ take chunk (drop req.pending_offset req.pending_bytes)) w w'
      → Uploads up dir base
          (record req { pending_offset = add64 req.pending_offset chunk })
          (n + chunk)
          w'
  Uploads-pending req n chunk w w' u k wrote = record {
    content = u.content ++ piece;
    stored = wrote.stored;
    kept = u.kept;
    reached = omega (
      arith,
      u.reached,
      length-append u.content piece,
      length-take chunk rest,
      length-drop req.pending_offset req.pending_bytes,
    );
    whole =
        rw (add64-eq req.pending_offset chunk (omega (arith, u.pending_fits)), wrote.arrivals)
          (whole-shift u.content piece _ rest (stream (w.arrivals req.client_fd))
            (ap (◌++◌ piece) (sym (drop-drop req.pending_offset chunk req.pending_bytes))
              ∙ take-append-drop chunk rest)
            u.whole);
    pending_fits = u.pending_fits;
  }
    where
      rest : Bytes
      rest = drop req.pending_offset req.pending_bytes

      piece : Bytes
      piece = take chunk rest

  -- Bytes that came from the socket have been written, with nothing pending any more.
  pub Uploads-received :
      (req : Request) (n : ℕ) (bytes : Bytes) (w got w' : World) (u : Uploads up dir base req n w)
      → drop req.pending_offset req.pending_bytes ≡ []
      → bytes ++ stream (got.arrivals req.client_fd) ≡ stream (w.arrivals req.client_fd)
      → Wrote path (u.content ++ bytes) got w'
      → Uploads up dir base req (n + length bytes) w'
  Uploads-received req n bytes w got w' u drained taken wrote = record {
    content = u.content ++ bytes;
    stored = wrote.stored;
    kept = u.kept;
    reached = omega (arith, u.reached, length-append u.content bytes);
    whole =
        rw (drained, wrote.arrivals)
          (append_assoc u.content bytes _ ∙ ap (◌++◌ u.content) taken ∙ unread_socket);
    pending_fits = u.pending_fits;
  }
    where
      unread_socket : u.content ++ stream (w.arrivals req.client_fd) ≡ up
      unread_socket = rw drained at u.whole

  -- What the first loop comes to, if no write fails: the bytes of the round are done, or none is
  -- pending any more.
  pub record PendingDone (start total : ℕ) (p : Progress) (w' : World) : Type 0 where
    pub uploads : Uploads up dir base p.request (start + p.processed) w'
    pub counted : p.processed + p.left ≡ total
    pub ended : (p.left ≡ 0) ⊎ (drop p.request.pending_offset p.request.pending_bytes ≡ [])

  abbrev pub PendingOutcome : ℕ → ℕ → Progress × World → Type 0
  PendingOutcome start total (p, w') = p.good ≡ true → PendingDone start total p w'

  PendingOutcome-if :
      (start total : ℕ) (wrote : Bool) (x y : Progress × World)
      → (wrote ≡ true → PendingOutcome start total x)
      → y.0.good ≡ false
      → PendingOutcome start total (if wrote then x else y)
  PendingOutcome-if start total true x y h k good = h refl good
  PendingOutcome-if start total false x y h k good = cc

  pub pending_loop-PendingDone :
      (fuel : ℕ) (req : Request) (start total pos processed left : ℕ) (w : World)
      → left < fuel
      → total < 2 ^ 64
      → processed + left ≡ total
      → pos ≡ start + processed
      → Uploads up dir base req pos w
      → PendingOutcome start total (pending_loop fuel path req pos processed left w)
  unfolding pending_loop
  pending_loop-PendingDone zero req start total pos processed left w f b c e u =
      absurd (omega arith)
  pending_loop-PendingDone (suc fuel) req start total pos processed left w f b c e u =
      elim (Bool-cases (ltb 0 left && ltb req.pending_offset (length req.pending_bytes))) [
        | inl h ↦
            let chunk = min left (length req.pending_bytes - req.pending_offset) in
            let piece = take chunk (drop req.pending_offset req.pending_bytes) in
            let pos_chunk : 0 < chunk = ground arith in
            let inside : req.pending_offset + chunk ≤ length req.pending_bytes = ground arith in
            let more : add64 processed chunk ≡ processed + chunk =
              add64-eq processed chunk (omega arith) in
            rw (h, pending_loop)
              (PendingOutcome-if start total (write_bytes path pos piece w).0 _ _
                (λ wrote.
                  pending_loop-PendingDone fuel _ start total (pos + chunk) (add64 processed chunk)
                    (left - chunk) (write_bytes path pos piece w).1 (omega arith) b
                    (omega (arith, more)) (omega (arith, more))
                    (Uploads-pending req pos chunk w (write_bytes path pos piece w).1 u inside
                      (write_bytes-Wrote path u.content piece pos w u.stored u.reached wrote)))
                refl)
        | inr h ↦
            rw (h, pending_loop)
              (λ good. record {
                uploads = Uploads-move e u;
                counted = c;
                ended = elim (Bool-cases (ltb 0 left)) [
                  | inl k ↦ inr (drop_all req.pending_offset req.pending_bytes (ground arith))
                  | inr k ↦ inl (ground arith)
                ];
              })
      ]
