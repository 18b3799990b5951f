-- ===== src/Queue/Fd.antt =====
-- queue.h, queue.cpp: FdQueue, the accepted sockets on their way to the parser threads.
use link_scheduling.Prelude.{
  ℕ, ◌≡◌, ◌≢◌, refl, Bool, true, false, not, ◌||◌, List, [], ◌∷◌, ◌++◌, arith, if◌then◌else◌,
}
use link_scheduling.Queue.{is_empty}

pub record FdQueue : Type 0 where
  pub queue : List ℕ
  pub closed : Bool

pub data FdPopped : Type 0 where
  waits ends : FdPopped
  pops : ℕ → FdQueue → FdPopped

unfoldable pub push : FdQueue → ℕ → FdQueue × Bool
push q fd = if q.closed then (q, false) else (record q { queue = q.queue ++ fd ∷ [] }, true)

abbrev pop_front : List ℕ → FdQueue → FdPopped
pop_front [] q = ends
pop_front (fd ∷ rest) q = pops fd (record q { queue = rest })

unfoldable pub wait_pop : FdQueue → FdPopped
wait_pop q = if not (is_empty q.queue) || q.closed then pop_front q.queue q else waits

unfoldable pub close : FdQueue → FdQueue
close q = record q { closed = true }

-- Each way in which a pop can come out of a queue that holds `list`.
abbrev pub FdOutcome : List ℕ → FdQueue → FdPopped → Type 0
FdOutcome list q waits = (list ≡ []) × (q.closed ≡ false)
FdOutcome list q ends = (list ≡ []) × (q.closed ≡ true)
FdOutcome list q (pops fd q') = (list ≡ fd ∷ q'.queue) × (q'.closed ≡ q.closed)

pop_cases :
    (q : FdQueue) (list : List ℕ)
    → FdOutcome list q (if not (is_empty list) || q.closed then pop_front list q else waits)
pop_cases q [] = ground arith
pop_cases q (fd ∷ rest) = (refl, refl)

pub wait_pop-FdOutcome : (q : FdQueue) → FdOutcome q.queue q (wait_pop q)
unfolding wait_pop
wait_pop-FdOutcome q = pop_cases q q.queue

never_waits : (q : FdQueue) → q.closed ≡ true → wait_pop q ≢ waits
unfolding wait_pop
never_waits q h e = ground arith

-- Closing the queue loses no socket: a parser thread still gets those that it holds, oldest first,
-- and stops at the end of them, while a later push is refused.
pub close_drains :
    (q : FdQueue) (fd : ℕ)
    → let r = close q in
      FdOutcome q.queue r (wait_pop r)
      × (wait_pop r ≢ waits)
      × ((push r fd).1 ≡ false)
      × ((push r fd).0 ≡ r)
unfolding close push
close_drains q fd = (
  wait_pop-FdOutcome (record q { closed = true }),
  never_waits (record q { closed = true }) refl,
  refl,
  refl,
)
