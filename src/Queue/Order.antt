-- ===== src/Queue/Order.antt =====
-- RequestQueue as a first-in first-out queue (queue.cpp): each way in which a pop can come out,
-- and what a whole history of calls hands over.
use link_scheduling.Prelude.{
  ◌≡◌, ◌≢◌, refl, sym, ap, ◌∙◌, ◌⊎◌, inl, inr, true, false, not, ◌&&◌, ◌||◌, List, [], ◌∷◌, ◌++◌,
  arith, ◌==◌, if◌then◌else◌, add64, Bool-cases, append_assoc, append-nil,
}
use link_scheduling.Request.{Request}
use link_scheduling.Queue.{
  RequestQueue, Popped, waits, ends, pops, is_empty, pop_front, push, wait_pop, try_pop, requeue,
  complete, close,
}

-- A pop in arrival order from a queue that holds `list`.
abbrev pub FifoOutcome : List Request → RequestQueue → Popped → Type 0
FifoOutcome list q waits = (list ≡ []) × ((q.closed ≡ false) ⊎ (q.inflight ≢ 0))
FifoOutcome list q (ends q') = (q' ≡ q) × (list ≡ []) × (q.closed ≡ true) × (q.inflight ≡ 0)
FifoOutcome list q (pops r q') =
    (list ≡ r ∷ q'.queue) × (q'.inflight ≡ add64 q.inflight 1) × (q'.closed ≡ q.closed)

pop_cases :
    (q : RequestQueue) (list : List Request)
    → FifoOutcome list q
        (if not (is_empty list) || (q.closed && q.inflight == 0) then pop_front list q else waits)
pop_cases q [] = elim (Bool-cases (q.closed && q.inflight == 0)) [
  | inl h ↦ rw h (refl, refl, ground arith, ground arith)
  | inr h ↦ rw h (refl, ground arith)
]
pop_cases q (r ∷ rest) = (refl, refl, refl)

-- wait_pop waits only on an empty queue that is open or has a request in flight, ends only on an
-- empty closed queue with none in flight, and otherwise hands over the oldest request.
pub wait_pop-FifoOutcome : (q : RequestQueue) → FifoOutcome q.queue q (wait_pop q)
unfolding wait_pop
wait_pop-FifoOutcome q = pop_cases q q.queue

-- The calls that change a RequestQueue.
pub data Call : Type 0 where
  pushes requeues : Request → Call
  takes tries completes closes : Call

-- One call, with the requests that it lets in and those that it hands over.
pub record Effect : Type 0 where
  pub after : RequestQueue
  pub entered : List Request
  pub left : List Request

abbrev pub popped : RequestQueue → Popped → Effect
popped q waits = record { after = q; entered = []; left = [] }
popped q (ends q') = record { after = q'; entered = []; left = [] }
popped q (pops r q') = record { after = q'; entered = []; left = r ∷ [] }

unfoldable pub call : RequestQueue → Call → Effect
call q (pushes r) = record {
  after = (push q r).0;
  entered = if (push q r).1 then r ∷ [] else [];
  left = [];
}
call q (requeues r) = record { after = (requeue q r).0; entered = r ∷ []; left = [] }
call q takes = popped q (wait_pop q)
call q tries = popped q (try_pop q)
call q completes = record { after = complete q; entered = []; left = [] }
call q closes = record { after = close q; entered = []; left = [] }

-- A history of calls, from any thread, in the order in which they took the mutex.
unfoldable pub run : RequestQueue → List Call → Effect
run q [] = record { after = q; entered = []; left = [] }
run q (c ∷ cs) =
    let first = call q c in
    let rest = run first.after cs in
    record {
      after = rest.after;
      entered = first.entered ++ rest.entered;
      left = first.left ++ rest.left;
    }

popped-fifo :
    (q : RequestQueue) (p : Popped)
    → FifoOutcome q.queue q p
    → q.queue ++ (popped q p).entered ≡ (popped q p).left ++ (popped q p).after.queue
popped-fifo q waits h = append-nil q.queue
popped-fifo q (ends q') h = append-nil q.queue ∙ ap (λ (x : RequestQueue). x.queue) (sym h.0)
popped-fifo q (pops r q') h = append-nil q.queue ∙ h.0

try_cases :
    (q : RequestQueue) (list : List Request)
    → q.queue ≡ list
    → q.queue ++ (popped q (pop_front list q)).entered
      ≡ (popped q (pop_front list q)).left ++ (popped q (pop_front list q)).after.queue
try_cases q [] e = append-nil q.queue
try_cases q (r ∷ rest) e = append-nil q.queue ∙ e

push-fifo :
    (q : RequestQueue) (r : Request)
    → q.queue ++ (if (push q r).1 then r ∷ [] else []) ≡ (push q r).0.queue
unfolding push
push-fifo q r = elim (Bool-cases q.closed) [ inl h ↦ rw h (append-nil q.queue) | inr h ↦ rw h refl ]

call-fifo :
    (q : RequestQueue) (c : Call)
    → q.queue ++ (call q c).entered ≡ (call q c).left ++ (call q c).after.queue
unfolding call
call-fifo q (pushes r) = push-fifo q r
call-fifo q (requeues r) = unfold requeue in refl
call-fifo q takes = popped-fifo q (wait_pop q) (wait_pop-FifoOutcome q)
call-fifo q tries = unfold try_pop in try_cases q q.queue refl
call-fifo q completes = unfold complete in append-nil q.queue
call-fifo q closes = unfold close in append-nil q.queue

-- First in, first out: over any history, what was queued at the start and what was let in since
-- is, in this order, what was handed over and then what is still queued.
pub run_fifo :
    (q : RequestQueue) (cs : List Call)
    → q.queue ++ (run q cs).entered ≡ (run q cs).left ++ (run q cs).after.queue
unfolding run
run_fifo q [] = append-nil q.queue
run_fifo q (c ∷ cs) =
    let e = call q c in
    let t = run e.after cs in
    sym (append_assoc q.queue e.entered t.entered)
    ∙ ap (λ l. l ++ t.entered) (call-fifo q c)
    ∙ append_assoc e.left e.after.queue t.entered
    ∙ ap (◌++◌ e.left) (run_fifo e.after cs)
    ∙ sym (append_assoc e.left t.left t.after.queue)
