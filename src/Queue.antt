-- ===== src/Queue.antt =====
-- queue.h, queue.cpp: RequestQueue. Each operation runs under the queue's mutex, so it is one
-- function of the state; a wait on the condition variable is the result `waits`, which leaves the
-- state alone until another thread has changed it.
pub mod Order
pub mod Best
pub mod Fd
use link_scheduling.Prelude.{
  ℕ, zero, suc, ◌+◌, ◌-◌, ◌<◌, Bool, true, false, not, ◌&&◌, ◌||◌, List, [], ◌∷◌, ◌++◌, ltb, ◌==◌,
  if◌then◌else◌, length, add64,
}
use link_scheduling.Request.{Request}

pub record RequestQueue : Type 0 where
  pub queue : List Request
  pub closed : Bool
  pub inflight : ℕ

abbrev pub empty_queue : RequestQueue
empty_queue = record { queue = []; closed = false; inflight = 0 }

-- What a call of wait_pop, wait_pop_best or try_pop comes to: it goes on waiting, it returns
-- false, or it returns true with a request.
pub data Popped : Type 0 where
  waits : Popped
  ends : RequestQueue → Popped
  pops : Request → RequestQueue → Popped

abbrev pub is_empty {ℓ} : {A : Type ℓ} → List A → Bool
is_empty [] = true
is_empty (x ∷ xs) = false

unfoldable pub push : RequestQueue → Request → RequestQueue × Bool
push q r = if q.closed then (q, false) else (record q { queue = q.queue ++ r ∷ [] }, true)

-- The predicate that the condition variable waits for.
unfoldable pub is_ready : RequestQueue → Bool
is_ready q = not (is_empty q.queue) || (q.closed && q.inflight == 0)

-- The part of a pop behind the wait: `if (queue_.empty()) return false; …`.
abbrev pub pop_front : List Request → RequestQueue → Popped
pop_front [] q = ends q
pop_front (r ∷ rest) q = pops r (record q { queue = rest; inflight = add64 q.inflight 1 })

unfoldable pub wait_pop : RequestQueue → Popped
unfolding is_ready
wait_pop q = if is_ready q then pop_front q.queue q else waits

unfoldable pub try_pop : RequestQueue → Popped
try_pop q = pop_front q.queue q

-- The loop of wait_pop_best: `best_it` and `it` are positions, `best` is `*best_it`.
unfoldable pub best_loop : (Request → Request → Bool) → Request → ℕ → ℕ → List Request → Request × ℕ
best_loop compare best best_it it [] = (best, best_it)
best_loop compare best best_it it (r ∷ rest) =
    let better = compare r best in
    best_loop compare (if better then r else best) (if better then it else best_it) (it + 1) rest

-- `queue_.erase(best_it)`.
unfoldable pub erase : List Request → ℕ → List Request
erase [] i = []
erase (r ∷ rest) zero = rest
erase (r ∷ rest) (suc i) = r ∷ erase rest i

abbrev pub pop_best : (Request → Request → Bool) → List Request → RequestQueue → Popped
pop_best compare [] q = ends q
pop_best compare (r ∷ rest) q =
    let (best, best_it) = best_loop compare r 0 1 rest in
    pops best (record q { queue = erase (r ∷ rest) best_it; inflight = add64 q.inflight 1 })

unfoldable pub wait_pop_best : (Request → Request → Bool) → RequestQueue → Popped
unfolding is_ready
wait_pop_best compare q = if is_ready q then pop_best compare q.queue q else waits

abbrev pub less_inflight : ℕ → ℕ
less_inflight n = if ltb 0 n then n - 1 else n

unfoldable pub requeue : RequestQueue → Request → RequestQueue × Bool
requeue q r = (record q { queue = q.queue ++ r ∷ []; inflight = less_inflight q.inflight }, true)

unfoldable pub complete : RequestQueue → RequestQueue
complete q = record q { inflight = less_inflight q.inflight }

unfoldable pub size : RequestQueue → ℕ
size q = length q.queue

unfoldable pub empty : RequestQueue → Bool
empty q = is_empty q.queue

unfoldable pub close : RequestQueue → RequestQueue
close q = record q { closed = true }

unfoldable pub is_closed : RequestQueue → Bool
is_closed q = q.closed
