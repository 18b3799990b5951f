-- ===== src/Worker/Deliver/Received.antt =====
-- The worker threads of main.cpp and get_file of client.cpp at the two ends of a connection.
use link_scheduling.Prelude.{
  ℕ, zero, suc, ◌+◌, ◌^◌, ◌≤◌, ◌<◌, ◌≡◌, refl, sym, ap, ◌∙◌, inl, inr, true, some, [], ◌++◌, arith,
  ◌==◌, length, append-nil, Bool-cases,
}
use link_scheduling.Prelude.Text.{Bytes}
use link_scheduling.Request.{Request, remaining}
use link_scheduling.World.{World, M}
use link_scheduling.Protocol.{ok_line}
use link_scheduling.Scheduling.{
  SchedulingPolicy, fcfs, sjf, rr, drr, Scheduler, make_scheduler, get_budget, policy_budget,
}
use link_scheduling.Server.Put.Stream.{stream}
use link_scheduling.Client.Receive.{IsClean}
use link_scheduling.Client.Requests.{get_file}
use link_scheduling.Client.Download.{IsDownloaded, get_file-IsDownloaded}
use link_scheduling.Worker.{Setup, Outcome, dropped, again, finished, worker_round}
use link_scheduling.Worker.Keeps.{about, worker_round-Same}
use link_scheduling.Worker.Deliver.{IsDownload}
use link_scheduling.Worker.Deliver.Progress.{distance}
use link_scheduling.Worker.Deliver.Whole.{resume, run_rounds, IsServed, run_rounds-IsServed}

policy_budget-client_fd :
    (p : SchedulingPolicy) (quantum : ℕ) (r : Request)
    → (policy_budget p quantum r).0.client_fd ≡ r.client_fd
unfolding policy_budget
policy_budget-client_fd fcfs quantum r = refl
policy_budget-client_fd sjf quantum r = refl
policy_budget-client_fd rr quantum r = refl
policy_budget-client_fd drr quantum r = refl

get_budget-client_fd : (s : Scheduler) (r : Request) → (get_budget s r).0.client_fd ≡ r.client_fd
unfolding get_budget
get_budget-client_fd s r = elim (Bool-cases (remaining r == 0)) [
  | inl h ↦ rw h refl
  | inr h ↦ rw h (policy_budget-client_fd s.policy s.quantum r)
]

resume-client_fd :
    (fd : ℕ) (rounds : Request → M Outcome)
    → ((r : Request) (w : World) → (about (rounds r w).0).client_fd ≡ r.client_fd)
    → (x : Outcome × World) → (about x.0).client_fd ≡ fd
    → (about (resume rounds x.0 x.1).0).client_fd ≡ fd
resume-client_fd fd rounds k (dropped r, v) e = e
resume-client_fd fd rounds k (again r, v) e = k r v ∙ e
resume-client_fd fd rounds k (finished r, v) e = e

run_rounds-client_fd :
    (su : Setup) (fuel : ℕ) (req : Request) (w : World)
    → (about (run_rounds fuel su req w).0).client_fd ≡ req.client_fd
unfolding run_rounds
run_rounds-client_fd su zero req w = refl
run_rounds-client_fd su (suc fuel) req w =
    let given = get_budget su.scheduler req in
    resume-client_fd req.client_fd (run_rounds fuel su) (run_rounds-client_fd su fuel)
      (worker_round su given.0 given.1 w)
      ((worker_round-Same su given.0 given.1 w).client_fd ∙ get_budget-client_fd su.scheduler req)

IsServed-sent :
    (content : Bytes) (fd : ℕ) (x : Outcome × World)
    → (about x.0).client_fd ≡ fd
    → IsServed [] content x
    → x.1.sent fd ≡ ok_line (length content) ++ content
IsServed-sent content fd (dropped r, v) e never = absurd never
IsServed-sent content fd (again r, v) e never = absurd never
IsServed-sent content fd (finished r, v) e s = ap v.sent (sym e) ∙ s

module _ (su : Setup) (content : Bytes) (p : SchedulingPolicy) (quantum fuel : ℕ) (req : Request)
    (w : World) (accepted : make_scheduler p quantum ≡ some su.scheduler)
    (positive : 0 < su.packetization) (fits : length content + quantum < 2 ^ 64)
    (d : IsDownload [] content su.file_dir req w) (small : req.deficit ≤ length content)
    (enough : distance content req < fuel) where
  pub run_rounds-sent :
      (run_rounds fuel su req w).1.sent req.client_fd ≡ ok_line (length content) ++ content
  run_rounds-sent =
      IsServed-sent content req.client_fd (run_rounds fuel su req w)
        (run_rounds-client_fd su fuel req w)
        (run_rounds-IsServed su [] content p quantum accepted positive fits fuel req w d small
          enough)

  -- On the server a GET with a valid name, of a file that can be read and is as long as the request says, with no send to
  -- fail, nothing sent on its connection or the response header and the content up to the offset, a
  -- deficit within the file's size, a scheduler that its constructor accepts, a positive packetization
  -- and a quantum that added to the file's size stays below 2^64, and more rounds than its distance;
  -- and a client whose calls do not fail and lose no bytes, and to which come, however cut and delayed, the bytes that
  -- the server has then sent on that connection: get_file of the client has exit status 0, has sent
  -- its request and closed its socket, and the file on its side is the file on the server's.
  pub get_file-run_rounds :
      (sock : ℕ) (v : World)
      → v.sends ≡ []
      → v.faults ≡ []
      → v.unflushed ≡ []
      → IsClean (v.arrivals sock)
      → stream (v.arrivals sock) ≡ (run_rounds fuel su req w).1.sent req.client_fd
      → IsDownloaded sock req.filename content v (get_file (some sock) req.filename true v)
  get_file-run_rounds sock v sends faults none_lost clean arrived =
      get_file-IsDownloaded sock req.filename content [] v sends faults none_lost clean
        (omega (arith, d.holds.seekable))
        (arrived
          ∙ run_rounds-sent
          ∙ ap (◌++◌ (ok_line (length content))) (sym (append-nil content)))
