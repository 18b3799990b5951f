-- ===== src/Server/Put/Stream.antt =====
-- The bytes of an upload on their way: those on the socket, those that came with the header, and
-- those in the staging file (server.cpp, with recv_data_with_timeout of socket.cpp).
use link_scheduling.Prelude.{
  ℕ, zero, suc, ◌+◌, ◌^◌, ◌≤◌, ◌<◌, ◌≡◌, refl, sym, ap, ◌∙◌, Bool, true, false, not, Option, none,
  some, List, [], ◌∷◌, ◌++◌, arith, if◌then◌else◌, length, take, drop, take-append-drop,
  length-take, drop_all, append-nil, append_assoc,
}
use link_scheduling.Prelude.Text.{Bytes, eq_bytes_refl}
use link_scheduling.Request.{Request}
use link_scheduling.World.{
  World, Arrival, arrives, pauses, breaks, draw_fault, at_fd, at_path, leave_behind, receive_from,
  next_fault,
}
use link_scheduling.FileIo.{path_in, store}
use link_scheduling.Server.Put.{pad_to, overwrite, write_bytes, content_or_empty}
use link_scheduling.FileIo.{lose, close_stream}

-- All the bytes that a socket will still deliver.
abbrev pub stream : List Arrival → Bytes
stream [] = []
stream (arrives bytes ∷ later) = bytes ++ stream later
stream (pauses ∷ later) = stream later
stream (breaks ∷ later) = stream later

stream-leave_behind :
    (rest : Bytes) (later : List Arrival) → stream (leave_behind rest later) ≡ rest ++ stream later
stream-leave_behind [] later = refl
stream-leave_behind (c ∷ rest) later = refl

-- What a receive takes off the stream: its first bytes, at most `n`.
abbrev pub Takes : List Arrival → ℕ → Option Bytes → List Arrival → Type 0
Takes queued n none later = Unit
Takes queued n (some bytes) later = (bytes ++ stream later ≡ stream queued) × (length bytes ≤ n)

pub receive_from-Takes :
    (queued : List Arrival) (n : ℕ)
    → Takes queued n (receive_from queued n).0 (receive_from queued n).1
receive_from-Takes [] n = (refl, omega arith)
receive_from-Takes (arrives bytes ∷ later) n = (
  ap (◌++◌ (take n bytes)) (stream-leave_behind (drop n bytes) later)
      ∙ sym (append_assoc (take n bytes) (drop n bytes) (stream later))
      ∙ ap (λ (b : Bytes). b ++ stream later) (take-append-drop n bytes),
  omega (arith, length-take n bytes),
)
receive_from-Takes (pauses ∷ later) n = (refl, omega arith)
receive_from-Takes (breaks ∷ later) n = tt

-- What the handler has not read yet of a request's upload.
abbrev pub unread : Request → World → Bytes
unread req w = drop req.pending_offset req.pending_bytes ++ stream (w.arrivals req.client_fd)

-- What the loops of a round leave of a request as it was.
abbrev pub Kept : Request → Request → Type 0
Kept base req =
    (req.staging_filename ≡ base.staging_filename)
    × (req.op ≡ base.op)
    × (req.filename ≡ base.filename)
    × (req.total_bytes ≡ base.total_bytes)
    × (req.offset ≡ base.offset)

-- The first `n` bytes of the upload `up` are in the staging file of the request, and the others are
-- unread. The round began with the request `base`.
pub record Uploads (up dir : Bytes) (base req : Request) (n : ℕ) (w : World) : Type 0 where
  pub content : Bytes
  pub stored : w.files (path_in dir base.staging_filename) ≡ some content
  pub kept : Kept base req
  pub reached : length content ≡ n
  pub whole : content ++ unread req w ≡ up
  pub pending_fits : length req.pending_bytes < 2 ^ 64

-- With nothing to lose, closing a stream changes nothing.
pub close_stream-none :
    (path : Bytes) (start : ℕ) (w : World) → w.unflushed ≡ [] → close_stream path start w ≡ (tt, w)
unfolding close_stream
close_stream-none path start w h = ap (λ l. lose path start l w) h

pad_to-length : (n : ℕ) (s : Bytes) → length s ≡ n → pad_to n s ≡ s
pad_to-length zero [] h = refl
pad_to-length zero (c ∷ cs) h = absurd (omega arith)
pad_to-length (suc n) [] h = absurd (omega arith)
pad_to-length (suc n) (c ∷ cs) h = ap (◌∷◌ c) (pad_to-length n cs (omega arith))

-- A write at the end of a file.
overwrite_end :
    (content bytes : Bytes) (n : ℕ)
    → length content ≡ n
    → overwrite content n bytes ≡ content ++ bytes
unfolding overwrite
overwrite_end content bytes n h =
    rw (pad_to-length n content h, drop_all (n + length bytes) content (omega arith))
      (ap (◌++◌ content) (append-nil bytes))

pub at_path_here :
    (f : Bytes → Option Bytes) (path : Bytes) (a : Option Bytes) → at_path f path a path ≡ a
at_path_here f path a = rw (eq_bytes_refl path) refl

pub at_fd_here : (f : ℕ → List Arrival) (fd : ℕ) (a : List Arrival) → at_fd f fd a fd ≡ a
at_fd_here f fd a = ground arith

-- What a write that succeeds has done.
pub record Wrote (path content : Bytes) (w w' : World) : Type 0 where
  pub stored : w'.files path ≡ some content
  pub arrivals : w'.arrivals ≡ w.arrivals

pub write_bytes-Wrote :
    (path content bytes : Bytes) (n : ℕ) (w : World)
    → w.files path ≡ some content
    → length content ≡ n
    → (write_bytes path n bytes w).0 ≡ true
    → Wrote path (content ++ bytes) w (write_bytes path n bytes w).1
unfolding write_bytes draw_fault
write_bytes-Wrote path content bytes n w s h e = by_fault (next_fault w.faults).0 e
  where
    drawn : World
    drawn = record w { faults = (next_fault w.faults).1 }

    by_fault :
        (fails : Bool)
        → not fails ≡ true
        → Wrote path (content ++ bytes) w (
            if fails
            then drawn
            else store drawn path (overwrite (content_or_empty (w.files path)) n bytes))
    by_fault true e = cc
    by_fault false e = record {
      stored =
          at_path_here w.files path _
          ∙ ap some (
              ap (λ (o : Option Bytes). overwrite (content_or_empty o) n bytes) s
              ∙ overwrite_end content bytes n h);
      arrivals = refl;
    }
