-- ===== src/Scheduling/Budget.antt =====
-- get_budget and account: what a round may send, and how it is booked (scheduling.cpp).
use link_scheduling.Prelude.{
  ℕ, ◌+◌, ◌^◌, ◌<◌, ◌≡◌, refl, min, some, arith, ltb, ◌==◌, if◌then◌else◌, add64, add64-eq,
}
use link_scheduling.Request.{Request, remaining, IsSound}
use link_scheduling.Scheduling.{
  SchedulingPolicy, fcfs, sjf, rr, drr, Scheduler, make_scheduler, policy_budget, get_budget,
  account, should_requeue,
}

-- The allowance of a round under each policy.
abbrev pub allowance : SchedulingPolicy → ℕ → Request → ℕ
allowance fcfs quantum r = remaining r
allowance sjf quantum r = remaining r
allowance rr quantum r = quantum
allowance drr quantum r = r.deficit + quantum

-- The budget of a round is what is left to send, cut down to the policy's allowance, as long as
-- the deficit does not overflow.
pub get_budget-min :
    (s : Scheduler) (r : Request)
    → r.deficit + s.quantum < 2 ^ 64
    → (get_budget s r).1 ≡ min (remaining r) (allowance s.policy s.quantum r)
unfolding get_budget
get_budget-min s r h = policy s.policy
  where
    policy :
        (p : SchedulingPolicy)
        → (if remaining r == 0 then (r, 0) else policy_budget p s.quantum r).1
          ≡ min (remaining r) (allowance p s.quantum r)
    policy fcfs = ground arith
    policy sjf = ground arith
    policy rr = ground arith
    policy drr = ground (arith, add64-eq r.deficit s.quantum)

-- Under a scheduler that its constructor accepts, an unfinished request is never given a round in
-- which it may send nothing.
pub get_budget_pos :
    (p : SchedulingPolicy) (quantum : ℕ) (s : Scheduler) (r : Request)
    → make_scheduler p quantum ≡ some s
    → r.deficit + quantum < 2 ^ 64
    → 0 < remaining r
    → 0 < (get_budget s r).1
unfolding make_scheduler get_budget
get_budget_pos fcfs quantum s r m h k = ground arith
get_budget_pos sjf quantum s r m h k = ground arith
get_budget_pos rr quantum s r m h k = ground arith
get_budget_pos drr quantum s r m h k = ground (arith, add64-eq r.deficit quantum)

-- Booking any number of sent bytes moves the offset forward by that many, but not past the end,
-- keeps the request sound, and asks for another round exactly when bytes are left.
pub account-IsSound :
    (s : Scheduler) (r : Request) (n : ℕ)
    → IsSound r
    → IsSound (account s r n)
      × ((account s r n).offset ≡ min (r.offset + n) r.total_bytes)
      × ((account s r n).total_bytes ≡ r.total_bytes)
      × (should_requeue (account s r n) ≡ ltb (r.offset + n) r.total_bytes)
unfolding account should_requeue add64
account-IsSound s r n h = (ground arith, ground arith, refl, ground arith)
