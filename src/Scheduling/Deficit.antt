-- ===== src/Scheduling/Deficit.antt =====
-- DRR: the deficit is a ledger (scheduling.cpp).
use link_scheduling.Prelude.{
  ℕ, ◌+◌, ◌*◌, ◌^◌, ◌≤◌, ◌<◌, ◌≡◌, List, [], ◌∷◌, arith, add64-eq, length,
}
use link_scheduling.Request.{Request, remaining}
use link_scheduling.Scheduling.{drr, Scheduler, get_budget, account}

-- DRR with the given quantum.
abbrev pub deficit_round_robin : ℕ → Scheduler
deficit_round_robin quantum = record { policy = drr; quantum = quantum }

-- One round in which `n` bytes are sent.
abbrev pub round : Scheduler → Request → ℕ → Request
round s r n = account s (get_budget s r).0 n

-- The rounds of an unfinished request, none of which goes over its budget.
abbrev pub WithinBudget : Scheduler → Request → List ℕ → Type 0
WithinBudget s r [] = Unit
WithinBudget s r (n ∷ ns) =
    (0 < remaining r) × (n ≤ (get_budget s r).1) × WithinBudget s (round s r n) ns

abbrev pub rounds_after : Scheduler → Request → List ℕ → Request
rounds_after s r [] = r
rounds_after s r (n ∷ ns) = rounds_after s (round s r n) ns

abbrev pub sum : List ℕ → ℕ
sum [] = 0
sum (n ∷ ns) = n + sum ns

round-deficit :
    (quantum : ℕ) (r : Request) (n : ℕ)
    → r.deficit + quantum < 2 ^ 64
    → 0 < remaining r
    → n ≤ (get_budget (deficit_round_robin quantum) r).1
    → (round (deficit_round_robin quantum) r n).deficit + n ≡ r.deficit + quantum
unfolding get_budget account
round-deficit quantum r n h k l = ground (arith, add64-eq r.deficit quantum)

-- Over any number of rounds within their budgets, the bytes sent and the deficit kept add up to
-- one quantum for each round, on top of the deficit at the start.
pub rounds-deficit :
    (quantum : ℕ) (r : Request) (ns : List ℕ)
    → r.deficit + length ns * quantum < 2 ^ 64
    → WithinBudget (deficit_round_robin quantum) r ns
    → (rounds_after (deficit_round_robin quantum) r ns).deficit + sum ns
      ≡ r.deficit + length ns * quantum
rounds-deficit quantum r [] h w = omega arith
rounds-deficit quantum r (n ∷ ns) h (k, l, w) = omega (
  arith,
  step,
  rounds-deficit quantum (round (deficit_round_robin quantum) r n) ns (omega (arith, step)) w,
)
  where
    step : (round (deficit_round_robin quantum) r n).deficit + n ≡ r.deficit + quantum
    step = round-deficit quantum r n (grind arith) k l
