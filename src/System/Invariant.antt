-- ===== src/System/Invariant.antt =====
-- The invariant of the threads: the in-flight count is the number of requests that workers hold,
-- no request is lost or doubled, and no worker has ended while there is work (main.cpp, queue.cpp).
use link_scheduling.Prelude.{
  ℕ, suc, ◌+◌, ◌^◌, ◌≤◌, ◌<◌, ◌≡◌, refl, sym, ap, ◌∙◌, true, List, [], ◌∷◌, ◌++◌, arith, ◌==◌,
  if◌then◌else◌, length, length-append, add64-eq,
}
use link_scheduling.Request.{Request}
use link_scheduling.Queue.{RequestQueue, push, requeue, complete, close}
use link_scheduling.Scheduling.{invalid}
use link_scheduling.Worker.{Setup, Outcome, dropped, again, finished, settle}
use link_scheduling.Worker.Keeps.{Same, about, worker_round-Same}
use link_scheduling.System.{
  Held, System, start, leaving, Step, admits, takes, serves, ends, closes, Reach, starts, then_step,
}
use link_scheduling.System.Next.{NextOutcome, TakesOne, next-NextOutcome}

-- How many of the requests have the id.
abbrev pub tally : ℕ → List Request → ℕ
tally id [] = 0
tally id (r ∷ rs) = (if r.request_id == id then 1 else 0) + tally id rs

abbrev pub tally_held : ℕ → List Held → ℕ
tally_held id [] = 0
tally_held id (h ∷ hs) = (if h.request.request_id == id then 1 else 0) + tally_held id hs

tally-append : (id : ℕ) (xs ys : List Request) → tally id (xs ++ ys) ≡ tally id xs + tally id ys
tally-append id [] ys = omega arith
tally-append id (x ∷ xs) ys = omega (arith, tally-append id xs ys)

tally_held-append :
    (id : ℕ) (xs ys : List Held) → tally_held id (xs ++ ys) ≡ tally_held id xs + tally_held id ys
tally_held-append id [] ys = omega arith
tally_held-append id (x ∷ xs) ys = omega (arith, tally_held-append id xs ys)

pub record Inv (workers : ℕ) (s : System) : Type 0 where
  pub counted : s.shared.requests.inflight ≡ length s.held
  pub enough : length s.held + s.ended ≤ workers
  pub kept :
      (id : ℕ)
      → tally id s.entered
        ≡ tally id s.shared.requests.queue + tally_held id s.held + tally id s.left
  pub drained :
      0 < s.ended
      → (s.shared.requests.queue ≡ []) × (s.held ≡ []) × (s.shared.requests.closed ≡ true)

start-Inv : (workers : ℕ) → Inv workers start
start-Inv workers = record {
  counted = refl;
  enough = omega arith;
  kept = λ id. refl;
  drained = λ h. absurd (omega arith);
}

length-nil : (hs : List Held) → length hs ≡ 0 → hs ≡ []
length-nil [] h = refl
length-nil (x ∷ hs) h = absurd (omega arith)

append-cons-ne : {A : Type 0} (xs ys : List A) (y : A) → xs ++ y ∷ ys ≡ [] → ⊥
append-cons-ne [] ys y e = cc
append-cons-ne (x ∷ xs) ys y e = cc

module _ {workers : ℕ} (few : workers < 2 ^ 64) (s : System) (inv : Inv workers s) where
  open inv use {counted, enough, kept, drained}
  open s use {shared, held, ended, entered, left}

  admits-Inv :
      (r : Request)
      → Inv workers (record s {
        shared = record shared { requests = (push shared.requests r).0 };
        entered = if (push shared.requests r).1 then r ∷ entered else entered;
      })
  unfolding push
  admits-Inv r = record {
    counted = ground (arith, counted);
    enough = enough;
    kept = λ id. ground (arith, kept id, tally-append id shared.requests.queue (r ∷ []));
    drained = λ h. ground (arith, drained h);
  }

  takes-Inv :
      {r : Request} {budget : ℕ} {q : RequestQueue}
      → length held + ended < workers
      → TakesOne shared.requests r q
      → Inv workers (record s {
        shared = record shared { requests = q };
        held = record { request = r; budget = budget } ∷ held;
      })
  takes-Inv {r} {q} room t = record {
    counted = omega (
      arith,
      counted,
      t.counted,
      add64-eq shared.requests.inflight 1 (omega (arith, counted, room, few)),
    );
    enough = omega (arith, room);
    kept = λ id. ground (
      arith,
      kept id,
      ap (tally id) t.splits,
      ap (tally id) t.left,
      tally-append id t.front (t.job ∷ t.behind),
      tally-append id t.front t.behind,
      t.same.request_id,
    );
    drained = λ h. absurd (append-cons-ne t.front t.behind t.job (sym t.splits ∙ (drained h).0));
  }

  settle-Inv :
      (before behind : List Held) (h : Held) (o : Outcome)
      → held ≡ before ++ h ∷ behind
      → Same h.request (about o)
      → Inv workers
          (record s { shared = settle o shared; held = before ++ behind; left = leaving o ++ left })
  unfolding settle requeue complete
  settle-Inv before behind h o e same = record {
    counted = count o;
    enough = omega (arith, enough, smaller);
    kept = λ id. keep id o same.request_id;
    drained = λ x. absurd (append-cons-ne before behind h (sym e ∙ (drained x).1));
  }
    where
      smaller : length held ≡ suc (length (before ++ behind))
      smaller =
          omega (arith, ap length e, length-append before (h ∷ behind), length-append before behind)

      count : (o : Outcome) → (settle o shared).requests.inflight ≡ length (before ++ behind)
      count (dropped r) = ground (arith, counted, smaller)
      count (again r) = ground (arith, counted, smaller)
      count (finished r) = ground (arith, counted, smaller)

      given :
          (id : ℕ)
          → tally_held id held
            ≡ (if h.request.request_id == id then 1 else 0) + tally_held id (before ++ behind)
      given id = omega (
        arith,
        ap (tally_held id) e,
        tally_held-append id before (h ∷ behind),
        tally_held-append id before behind,
      )

      keep :
          (id : ℕ) (o : Outcome)
          → (about o).request_id ≡ h.request.request_id
          → tally id entered
            ≡ tally id (settle o shared).requests.queue
              + tally_held id (before ++ behind)
              + tally id (leaving o ++ left)
      keep id (dropped r) same = ground (arith, kept id, given id)
      keep id (again r) same =
          ground (arith, kept id, given id, tally-append id shared.requests.queue (r ∷ []))
      keep id (finished r) same = ground (arith, kept id, given id)

  ends-Inv :
      {q : RequestQueue}
      → length held + ended < workers
      → NextOutcome shared.requests (invalid q)
      → Inv workers (record s { shared = record shared { requests = q }; ended = suc ended })
  ends-Inv {q} room (same, none_left, closed, idle) = record {
    counted = ap (λ (x : RequestQueue). x.inflight) same ∙ counted;
    enough = omega (arith, room);
    kept = λ id.
        kept id
        ∙ ap (λ (x : RequestQueue). tally id x.queue + tally_held id held + tally id left)
            (sym same);
    drained = λ h. (
      ap (λ (x : RequestQueue). x.queue) same ∙ none_left,
      length-nil held (sym counted ∙ idle),
      ap (λ (x : RequestQueue). x.closed) same ∙ closed,
    );
  }

  closes-Inv :
      Inv workers (record s { shared = record shared { requests = close shared.requests } })
  unfolding close
  closes-Inv = record {
    counted = counted;
    enough = enough;
    kept = kept;
    drained = λ h. ((drained h).0, (drained h).1, refl);
  }

-- Every step of every thread keeps the invariant.
pub Step-Inv :
    {su : Setup} {workers : ℕ} {s t : System}
    → workers < 2 ^ 64
    → Step su workers s t
    → Inv workers s
    → Inv workers t
Step-Inv {s} few (admits r) inv = admits-Inv few s inv r
Step-Inv {su} {s} few (takes room e) inv =
    takes-Inv few s inv room (rw e at (next-NextOutcome su.scheduler s.shared.requests))
Step-Inv {su} {s} few (serves before behind h w e) inv =
    settle-Inv few s inv before behind h _ e (worker_round-Same su h.request h.budget w)
Step-Inv {su} {s} few (ends room e) inv =
    ends-Inv few s inv room (rw e at (next-NextOutcome su.scheduler s.shared.requests))
Step-Inv {s} few closes inv = closes-Inv few s inv

pub Reach-Inv :
    {su : Setup} {workers : ℕ} {s : System} → workers < 2 ^ 64 → Reach su workers s → Inv workers s
Reach-Inv {workers} few starts = start-Inv workers
Reach-Inv few (then_step r st) = Step-Inv few st (Reach-Inv few r)
