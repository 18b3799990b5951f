-- ===== src/Scheduling.antt =====
-- scheduling.h, scheduling.cpp: the policies and the Scheduler.
pub mod Sjf
pub mod Budget
pub mod Deficit
use link_scheduling.Prelude.{
  ℕ, ◌-◌, min, Bool, true, false, not, ◌&&◌, Option, none, some, ltb, leb, ◌==◌, if◌then◌else◌,
  add64,
}
use link_scheduling.Request.{Request, remaining}
use link_scheduling.Queue.{RequestQueue, Popped, waits, ends, pops, wait_pop, wait_pop_best}

pub data SchedulingPolicy : Type 0 where
  fcfs sjf rr drr : SchedulingPolicy

pub record Scheduler : Type 0 where
  pub policy : SchedulingPolicy
  pub quantum : ℕ

-- `policy_ == SchedulingPolicy::RR || policy_ == SchedulingPolicy::DRR`.
abbrev pub is_round_based : SchedulingPolicy → Bool
is_round_based rr = true
is_round_based drr = true
is_round_based _ = false

-- The constructor; `none` is the exception std::invalid_argument.
unfoldable pub make_scheduler : SchedulingPolicy → ℕ → Option Scheduler
make_scheduler p q =
    if is_round_based p && q == 0 then none else some (record { policy = p; quantum = q })

-- The comparison that SJF hands to wait_pop_best.
unfoldable pub shorter : Request → Request → Bool
shorter a b =
    if not (a.total_bytes == b.total_bytes)
    then ltb a.total_bytes b.total_bytes
    else ltb a.arrival_ns b.arrival_ns

abbrev pub select : SchedulingPolicy → RequestQueue → Popped
select fcfs q = wait_pop q
select sjf q = wait_pop_best shorter q
select rr q = wait_pop q
select drr q = wait_pop q

-- The switch of get_budget, for a request with something left to send.
unfoldable pub policy_budget : SchedulingPolicy → ℕ → Request → Request × ℕ
policy_budget fcfs quantum r = (r, remaining r)
policy_budget sjf quantum r = (r, remaining r)
policy_budget rr quantum r = (r, min (remaining r) quantum)
policy_budget drr quantum r =
    let r' = record r { deficit = add64 r.deficit quantum } in (r', min (remaining r) r'.deficit)

-- get_budget returns the budget, and the request that it may have changed.
unfoldable pub get_budget : Scheduler → Request → Request × ℕ
unfolding policy_budget
get_budget s r = if remaining r == 0 then (r, 0) else policy_budget s.policy s.quantum r

-- A ScheduleDecision: not yet, not valid, or valid with its request and budget.
pub data Decision : Type 0 where
  waiting : Decision
  invalid : RequestQueue → Decision
  valid : Request → ℕ → RequestQueue → Decision

abbrev pub decide : Scheduler → Popped → Decision
decide s waits = waiting
decide s (ends q) = invalid q
decide s (pops r q) = valid (get_budget s r).0 (get_budget s r).1 q

unfoldable pub next : Scheduler → RequestQueue → Decision
next s q = decide s (select s.policy q)

-- The deficit after `actual` bytes have been sent.
abbrev pub spend : SchedulingPolicy → ℕ → ℕ → ℕ
spend drr actual deficit = if leb deficit actual then 0 else deficit - actual
spend _ actual deficit = deficit

unfoldable pub account : Scheduler → Request → ℕ → Request
account s r bytes_processed =
    let actual = min bytes_processed (remaining r) in
    record r {
      rounds = add64 r.rounds 1;
      offset = add64 r.offset actual;
      deficit = spend s.policy actual r.deficit;
    }

unfoldable pub should_requeue : Request → Bool
should_requeue r = ltb 0 (remaining r)
