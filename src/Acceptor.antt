-- ===== src/Acceptor.antt =====
-- main.cpp: acceptor_thread. What select and accept_connection answer, and what shutdown_flag is,
-- are given turn by turn.
use link_scheduling.Prelude.{
  ℕ, ◌≡◌, refl, sym, ap, ◌∙◌, Bool, true, false, ◌||◌, List, [], ◌∷◌, ◌++◌, if◌then◌else◌,
  append_assoc, append-nil,
}
use link_scheduling.Queue.Fd
use link_scheduling.Queue.Fd.{FdQueue}
use link_scheduling.World.{M, World, pure, ◌>>◌, close_socket}

-- select times out, select fails, accept fails, or accept gives a socket.
pub data Poll : Type 0 where
  times_out select_fails accept_fails : Poll
  accepts : ℕ → Poll

-- A turn of the loop, with shutdown_flag at its head and behind a failure.
pub record Turn : Type 0 where
  pub flag : Bool
  pub poll : Poll
  pub flag_after : Bool

-- `if (!fd_queue.push(client_socket)) close_socket(client_socket);`
unfoldable pub hand_over : FdQueue → ℕ → M FdQueue
hand_over q fd =
    let pushed = Fd.push q fd in
    if pushed.1 then pure pushed.0 else (do close_socket fd; pure pushed.0)

-- The loop over the turns so far, and the close behind it.
unfoldable pub acceptor_loop : List Turn → FdQueue → M FdQueue
acceptor_loop [] q w = (q, w)
acceptor_loop (t ∷ ts) q w =
    let later = acceptor_loop ts in
    if t.flag then (Fd.close q, w) else elim t.poll [
      | times_out ↦ later q w
      | select_fails ↦ if t.flag_after then (Fd.close q, w) else later q w
      | accept_fails ↦ if t.flag_after then (Fd.close q, w) else later q w
      | accepts fd ↦ later (hand_over q fd w).0 (hand_over q fd w).1
    ]

-- Whether the thread has stopped in a turn: the flag was set, or was seen behind a failure.
abbrev stops_at : Bool → Poll → Bool → Bool
stops_at flag times_out after = flag
stops_at flag select_fails after = flag || after
stops_at flag accept_fails after = flag || after
stops_at flag (accepts fd) after = flag

abbrev pub has_stopped : List Turn → Bool
has_stopped [] = false
has_stopped (t ∷ ts) = stops_at t.flag t.poll t.flag_after || has_stopped ts

abbrev socket_of : Poll → List ℕ
socket_of (accepts fd) = fd ∷ []
socket_of _ = []

-- The sockets that were accepted in the turns before it stopped.
abbrev pub accepted : List Turn → List ℕ
accepted [] = []
accepted (t ∷ ts) =
    if stops_at t.flag t.poll t.flag_after then [] else socket_of t.poll ++ accepted ts

-- The queue as the acceptor leaves it.
abbrev pub with_accepted : FdQueue → List Turn → FdQueue
with_accepted q ts = record { queue = q.queue ++ accepted ts; closed = has_stopped ts }

abbrev queue_of : List ℕ → Bool → World → FdQueue × World
queue_of l closed w = (record { queue = l; closed = closed }, w)

stopped_here : (q : FdQueue) (w : World) → (Fd.close q, w) ≡ queue_of (q.queue ++ []) true w
unfolding Fd.close
stopped_here q w = ap (λ (l : List ℕ). queue_of l true w) (sym (append-nil q.queue))

hand_over_open :
    (q : FdQueue) (fd : ℕ) (w : World)
    → q.closed ≡ false
    → hand_over q fd w ≡ queue_of (q.queue ++ fd ∷ []) false w
unfolding hand_over Fd.push
hand_over_open q fd w h = rw h refl

by_poll :
    (ts : List Turn) (q : FdQueue) (w : World) (flag : Bool) (poll : Poll) (after : Bool)
    → q.closed ≡ false
    → ((r : FdQueue) → r.closed ≡ false → acceptor_loop ts r w ≡ (with_accepted r ts, w))
    → acceptor_loop (record { flag = flag; poll = poll; flag_after = after } ∷ ts) q w
      ≡ (with_accepted q (record { flag = flag; poll = poll; flag_after = after } ∷ ts), w)
unfolding acceptor_loop
by_poll ts q w true times_out after h later = stopped_here q w
by_poll ts q w false times_out after h later = later q h
by_poll ts q w true select_fails after h later = stopped_here q w
by_poll ts q w false select_fails true h later = stopped_here q w
by_poll ts q w false select_fails false h later = later q h
by_poll ts q w true accept_fails after h later = stopped_here q w
by_poll ts q w false accept_fails true h later = stopped_here q w
by_poll ts q w false accept_fails false h later = later q h
by_poll ts q w true (accepts fd) after h later = stopped_here q w
by_poll ts q w false (accepts fd) after h later =
    ap (λ (x : FdQueue × World). acceptor_loop ts x.0 x.1) (hand_over_open q fd w h)
    ∙ later (record { queue = q.queue ++ fd ∷ []; closed = false }) refl
    ∙ ap (λ (l : List ℕ). queue_of l (has_stopped ts) w)
        (append_assoc q.queue (fd ∷ []) (accepted ts))

-- Over any turns, on a queue that is open, acceptor_thread appends to the queue the sockets that were
-- accepted before it stopped, all of them and in order; it closes none of them, and it closes the
-- queue exactly when it has stopped.
pub acceptor_loop-with_accepted :
    (ts : List Turn) (q : FdQueue) (w : World)
    → q.closed ≡ false
    → acceptor_loop ts q w ≡ (with_accepted q ts, w)
unfolding acceptor_loop
acceptor_loop-with_accepted [] q w h =
    ap (λ (b : Bool). queue_of q.queue b w) h
    ∙ ap (λ (l : List ℕ). queue_of l false w) (sym (append-nil q.queue))
acceptor_loop-with_accepted (t ∷ ts) q w h =
    by_poll ts q w t.flag t.poll t.flag_after h (λ r. acceptor_loop-with_accepted ts r w)
