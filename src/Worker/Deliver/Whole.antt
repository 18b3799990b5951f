-- ===== src/Worker/Deliver/Whole.antt =====
-- A whole GET, from its first round to its last (main.cpp, scheduling.cpp, server.cpp).
use mathlib.Core.Path.{subst}
use link_scheduling.Prelude.{
  ℕ, zero, suc, ◌+◌, ◌-◌, ◌^◌, ◌≤◌, ◌<◌, ◌≡◌, refl, sym, inl, inr, true, some, ◌++◌, arith, ◌==◌,
  length, Bool-cases, ne→==,
}
use link_scheduling.Prelude.Text.{Bytes}
use link_scheduling.Request.{Request, remaining}
use link_scheduling.World.{World, M, pure, ◌>>=◌}
use link_scheduling.Protocol.{ok_line}
use link_scheduling.Scheduling.{
  SchedulingPolicy, fcfs, sjf, rr, drr, is_round_based, Scheduler, make_scheduler, get_budget,
  policy_budget,
}
use link_scheduling.Scheduling.Budget.{get_budget_pos}
use link_scheduling.Worker.{Setup, Outcome, dropped, again, finished, is_rr, worker_round}
use link_scheduling.Worker.Deliver.{IsDownload, HasSent-same, DeliverOutcome}
use link_scheduling.Worker.Deliver.Round.{worker_round-DeliverOutcome}
use link_scheduling.Worker.Deliver.Moves.{
  Moved, MovedOutcome, round_size, worker_round-MovedOutcome,
}
use link_scheduling.Worker.Deliver.Progress.{distance, sent_lines-progress, policy_budget-distance}

-- The request goes back to the queue, and is popped again.
abbrev pub resume : (Request → M Outcome) → Outcome → M Outcome
resume rounds (dropped r) = pure (dropped r)
resume rounds (again r) = rounds r
resume rounds (finished r) = pure (finished r)

-- The rounds that one request gets from the scheduler and the workers, one after another, until it
-- is dropped or served, and at most `fuel` of them. Rounds of other requests are not in between.
unfoldable pub run_rounds : ℕ → Setup → Request → M Outcome
run_rounds zero su req = pure (again req)
run_rounds (suc fuel) su req = do
  outcome ← worker_round su (get_budget su.scheduler req).0 (get_budget su.scheduler req).1
  resume (run_rounds fuel su) outcome

-- The peer has the response and all the content.
abbrev pub IsServed : Bytes → Bytes → Outcome × World → Type 0
IsServed before content (dropped r, w) = ⊥
IsServed before content (again r, w) = ⊥
IsServed before content (finished r, w) =
    w.sent r.client_fd ≡ before ++ (ok_line (length content) ++ content)

policy_budget-same :
    (p : SchedulingPolicy) (quantum : ℕ) (r : Request)
    → (d : ℕ) × ((policy_budget p quantum r).0 ≡ record r { deficit = d })
unfolding policy_budget
policy_budget-same fcfs quantum r = (r.deficit, refl)
policy_budget-same sjf quantum r = (r.deficit, refl)
policy_budget-same rr quantum r = (r.deficit, refl)
policy_budget-same drr quantum r = (_, refl)

make_scheduler-quantum :
    (p : SchedulingPolicy) (quantum : ℕ) (s : Scheduler)
    → make_scheduler p quantum ≡ some s
    → (s.quantum ≡ quantum) × ((is_round_based s.policy ≡ true) → 0 < s.quantum)
unfolding make_scheduler
make_scheduler-quantum fcfs quantum s m = (ground arith, ground arith)
make_scheduler-quantum sjf quantum s m = (ground arith, ground arith)
make_scheduler-quantum rr quantum s m = (ground arith, ground arith)
make_scheduler-quantum drr quantum s m = (ground arith, ground arith)

module _ (su : Setup) (before content : Bytes) (p : SchedulingPolicy) (quantum : ℕ)
    (accepted : make_scheduler p quantum ≡ some su.scheduler) (positive : 0 < su.packetization)
    (fits : length content + quantum < 2 ^ 64) where
  -- Behind a round, the download is over, or it is closer to its end.
  abbrev CloserOutcome : Request → Outcome × World → Type 0
  CloserOutcome req (dropped r, w) = ⊥
  CloserOutcome req (again r, w) =
      IsDownload before content su.file_dir r w
      × (r.deficit ≤ length content)
      × (distance content r < distance content req)
  CloserOutcome req (finished r, w) =
      w.sent r.client_fd ≡ before ++ (ok_line (length content) ++ content)

  get_budget-IsDownload :
      (req : Request) (w : World)
      → IsDownload before content su.file_dir req w
      → IsDownload before content su.file_dir (get_budget su.scheduler req).0 w
  unfolding get_budget
  get_budget-IsDownload req w d = elim (Bool-cases (remaining req == 0)) [
    | inl h ↦ rw (h, get_budget) d
    | inr h ↦
        let (k, same) = policy_budget-same su.scheduler.policy su.scheduler.quantum req in
        rw (h, get_budget, same)
          (record {
            op = d.op;
            valid_name = d.valid_name;
            holds = d.holds;
            sends_all = d.sends_all;
            about = record { total = d.about.total; reached = d.about.reached };
            has_sent = HasSent-same refl refl refl d.has_sent;
          })
  ]

  get_budget-size :
      (req : Request)
      → let r = (get_budget su.scheduler req).0 in
        (r.offset ≡ req.offset) × (r.total_bytes ≡ req.total_bytes)
  unfolding get_budget
  get_budget-size req = elim (Bool-cases (remaining req == 0)) [
    | inl h ↦ rw (h, get_budget) (refl, refl)
    | inr h ↦
        let (k, same) = policy_budget-same su.scheduler.policy su.scheduler.quantum req in
        rw (h, get_budget, same) (refl, refl)
  ]

  get_budget-unfinished :
      (req : Request)
      → 0 < remaining req
      → get_budget su.scheduler req ≡ policy_budget su.scheduler.policy su.scheduler.quantum req
  unfolding get_budget
  get_budget-unfinished req h = rw (ne→== (remaining req) 0 (omega arith), get_budget) refl

  closer :
      (req r : Request) (w : World)
      → IsDownload before content su.file_dir (get_budget su.scheduler req).0 w
      → req.deficit ≤ length content
      → req.total_bytes ≡ length content
      → let given = get_budget su.scheduler req in
        Moved su.scheduler.policy given.0 r (round_size su given.1 given.0 content)
        → (r.deficit ≤ length content) × (distance content r < distance content req)
  closer req r w e small total m =
      let given = get_budget su.scheduler req in
      let n = round_size su given.1 given.0 content in
      let (same_offset, same_total) = get_budget-size req in
      let unfinished : req.offset < req.total_bytes =
        omega (arith, same_offset, same_total, m.unfinished) in
      let (same_quantum, some_quantum) = make_scheduler-quantum p quantum su.scheduler accepted in
      let some_left : 0 < remaining req = ground (arith, unfinished) in
      let roomy : req.deficit + quantum < 2 ^ 64 = omega (arith, small, fits) in
      let (short, line) =
        sent_lines-progress given.1 (is_rr su.scheduler.policy) given.0 e.holds e.about
          (get_budget_pos p quantum su.scheduler req accepted roomy some_left) m.unfinished in
      subst
        (λ (g : Request × ℕ).
          (g.1 < req.total_bytes - req.offset)
          → Moved su.scheduler.policy g.0 r n
          → (r.deficit ≤ length content) × (distance content r < distance content req))
        (sym (get_budget-unfinished req some_left))
        (λ h k.
          policy_budget-distance su.scheduler.policy su.scheduler.quantum content req r n
            some_quantum (omega (arith, roomy, same_quantum)) small total unfinished h line k)
        (omega (arith, short, same_offset, same_total)) m

  closer_outcome :
      (req : Request) (w : World)
      → IsDownload before content su.file_dir (get_budget su.scheduler req).0 w
      → req.deficit ≤ length content
      → req.total_bytes ≡ length content
      → (x : Outcome × World)
      → let given = get_budget su.scheduler req in
        DeliverOutcome before content su.file_dir x
        → MovedOutcome su.scheduler.policy given.0 (round_size su given.1 given.0 content) x
        → CloserOutcome req x
  closer_outcome req w e small total (dropped r, v) never m = never
  closer_outcome req w e small total (again r, v) d m =
      let (bounded, less) = closer req r w e small total m in (d, bounded, less)
  closer_outcome req w e small total (finished r, v) sent m = sent

  resumed :
      (req : Request) (rounds : Request → M Outcome)
      → ((r : Request) (v : World)
          → IsDownload before content su.file_dir r v
          → r.deficit ≤ length content
          → distance content r < distance content req
          → IsServed before content (rounds r v))
      → (x : Outcome × World) → CloserOutcome req x
      → IsServed before content (resume rounds x.0 x.1)
  resumed req rounds k (dropped r, v) never = never
  resumed req rounds k (again r, v) (d, bounded, less) = k r v d bounded less
  resumed req rounds k (finished r, v) sent = sent

  -- Under each policy, with a scheduler that its constructor accepts, a positive packetization and a
  -- quantum that added to the file's size stays below 2^64: a GET with a valid name, of a file that can be
  -- read and is as long as the request says, with no send to fail, where the peer has nothing yet or the response
  -- header and the content up to the offset, and with a deficit within the file's size, is served
  -- after a number of rounds, one more at most than its distance; and then the peer has the
  -- response header and the whole content, once and in order, and nothing else.
  pub run_rounds-IsServed :
      (fuel : ℕ) (req : Request) (w : World)
      → IsDownload before content su.file_dir req w
      → req.deficit ≤ length content
      → distance content req < fuel
      → IsServed before content (run_rounds fuel su req w)
  unfolding run_rounds
  run_rounds-IsServed zero req w d small enough = absurd (omega arith)
  run_rounds-IsServed (suc fuel) req w d small enough =
      let given = get_budget su.scheduler req in
      let e = get_budget-IsDownload req w d in
      resumed req (run_rounds fuel su)
        (λ r v more bounded less.
          run_rounds-IsServed fuel r v more bounded (omega (arith, less, enough)))
        (worker_round su given.0 given.1 w)
        (closer_outcome req w e small d.about.total (worker_round su given.0 given.1 w)
          (worker_round-DeliverOutcome su before content given.1 positive given.0 w e)
          (worker_round-MovedOutcome su before content given.1 positive given.0 w e))
