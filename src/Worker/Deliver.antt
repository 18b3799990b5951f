-- ===== src/Worker/Deliver.antt =====
-- A GET in a worker: what the peer has between two rounds, and at the end (main.cpp, server.cpp).
pub mod Round
pub mod Moves
pub mod Progress
pub mod Whole
pub mod Received
use mathlib.Core.Path.{subst}
use link_scheduling.Prelude.{
  ℕ, suc, ◌+◌, ◌-◌, ◌^◌, ◌≤◌, ◌<◌, ◌≡◌, refl, sym, ap, ◌∙◌, inl, inr, Bool, true, false, not, ◌&&◌,
  some, List, [], ◌∷◌, ◌++◌, arith, min, ltb, ◌==◌, if◌then◌else◌, length, take, drop, concat,
  take_all, take-append, take-append-drop, length-take, length-append, length-drop, concat-append,
  append_assoc, append-nil, add64, Bool-cases, ltb→le, ltb→lt,
}
use link_scheduling.Prelude.Text.{Bytes}
use link_scheduling.Request.{Request, get, IsSound}
use link_scheduling.World.{World, at_fd, monotonic_ns, close_socket}
use link_scheduling.World.Send.{delivered}
use link_scheduling.FileIo.{is_valid_filename, path_in}
use link_scheduling.FileIo.Lines.{lines, concat-lines}
use link_scheduling.FileIo.Lines.Read.{Holds}
use link_scheduling.Protocol.{ok_line}
use link_scheduling.Scheduling.{account, should_requeue}
use link_scheduling.Scheduling.Budget.{account-IsSound}
use link_scheduling.Server.Get.{served, serve_get}
use link_scheduling.Server.Get.Lines.{Splits, round_lines-Splits}
use link_scheduling.Server.Get.Round.{
  IsAbout, left_lines, sent_lines, after_round, header, serve_get-sent_lines,
}
use link_scheduling.Worker.{
  Setup, Outcome, dropped, again, finished, stamp_start, serve, is_rr, is_get, finish_request,
  commit, forfeit, book_round, drop_request, worker_round,
}

-- What the peer has on the connection, behind the bytes `before`: no response yet, or the response
-- header and the content up to the offset.
pub data HasSent (before content : Bytes) (req : Request) (w : World) : Type 0 where
  nothing_sent :
      req.response_sent ≡ false
      → req.offset ≡ 0
      → w.sent req.client_fd ≡ before
      → HasSent before content req w
  part_sent :
      req.response_sent ≡ true
      → w.sent req.client_fd ≡ before ++ (ok_line (length content) ++ take req.offset content)
      → HasSent before content req w

-- Between two rounds: a GET with a valid name, of a file that can be read and is as long as the request says, with no
-- send to fail.
pub record IsDownload (before content dir : Bytes) (req : Request) (w : World) : Type 0 where
  pub op : req.op ≡ get
  pub valid_name : is_valid_filename req.filename ≡ true
  pub holds : Holds w (path_in dir req.filename) content
  pub sends_all : w.sends ≡ []
  pub about : IsAbout req content
  pub has_sent : HasSent before content req w

-- Behind a round: it is never dropped, it goes on, or the peer has the response and all the content.
abbrev pub DeliverOutcome : Bytes → Bytes → Bytes → Outcome × World → Type 0
DeliverOutcome before content dir (dropped r, w) = ⊥
DeliverOutcome before content dir (again r, w) = IsDownload before content dir r w
DeliverOutcome before content dir (finished r, w) =
    w.sent r.client_fd ≡ before ++ (ok_line (length content) ++ content)

pub sent_here : (f : ℕ → Bytes) (fd : ℕ) (a : Bytes) → at_fd f fd a fd ≡ a
sent_here f fd a = ground arith

pub take-more :
    (n : ℕ) (xs ts rest : Bytes)
    → n ≤ length xs
    → ts ++ rest ≡ drop n xs
    → take (n + length ts) xs ≡ take n xs ++ ts
take-more n xs ts rest h e =
    ap (λ (l : Bytes). take (n + length ts) l)
      (sym (take-append-drop n xs)
        ∙ ap (◌++◌ (take n xs)) (sym e)
        ∙ sym (append_assoc (take n xs) ts rest))
    ∙ subst (λ k. take k ((take n xs ++ ts) ++ rest) ≡ take n xs ++ ts)
        (omega (arith, length-append (take n xs) ts, length-take n xs))
        (take-append (take n xs ++ ts) rest)

-- The lines of a round, as the next bytes of the content.
pub round_bytes-Splits :
    (budget : ℕ) (allow : Bool) (req : Request) (content : Bytes)
    → (rest : Bytes) × (concat (sent_lines budget allow req content) ++ rest
        ≡ drop req.offset content)
round_bytes-Splits budget allow req content =
    let s =
      round_lines-Splits budget allow (req.total_bytes - req.offset) (left_lines req content) in
    (
      concat s.rest,
      sym (concat-append (sent_lines budget allow req content) s.rest)
          ∙ ap concat s.whole
          ∙ concat-lines (drop req.offset content),
    )

-- The response header, if it is due, and the next bytes of the content.
pub sent_progress :
    (before content : Bytes) (req : Request) (w : World) (ts rest : Bytes)
    → IsAbout req content
    → HasSent before content req w
    → ts ++ rest ≡ drop req.offset content
    → w.sent req.client_fd ++ (header req ++ ts)
      ≡ before ++ (ok_line (length content) ++ take (req.offset + length ts) content)
sent_progress before content req w ts rest about (nothing_sent r z s) e =
    rw (r, s, about.total)
      (ap (λ (b : Bytes). before ++ (ok_line (length content) ++ b))
        (sym (
          take-more req.offset content ts rest about.reached e
          ∙ ap (λ (k : ℕ). take k content ++ ts) z)))
sent_progress before content req w ts rest about (part_sent r s) e =
    rw (r, s)
      (append_assoc before (ok_line (length content) ++ take req.offset content) ts
        ∙ ap (◌++◌ before) (
            append_assoc (ok_line (length content)) (take req.offset content) ts
            ∙ ap (◌++◌ (ok_line (length content)))
                (sym (take-more req.offset content ts rest about.reached e))))

pub finish_request-DeliverOutcome :
    (su : Setup) (before content : Bytes) (req : Request) (w : World)
    → req.op ≡ get
    → w.sent req.client_fd ≡ before ++ (ok_line (length content) ++ content)
    → DeliverOutcome before content su.file_dir (finish_request su req w)
unfolding finish_request commit monotonic_ns close_socket
finish_request-DeliverOutcome su before content req w op s = rw (op, finish_request) s

pub HasSent-same :
    {before content : Bytes} {req req' : Request} {w w' : World}
    → req'.response_sent ≡ req.response_sent
    → req'.offset ≡ req.offset
    → w'.sent req'.client_fd ≡ w.sent req.client_fd
    → HasSent before content req w
    → HasSent before content req' w'
HasSent-same e f g (nothing_sent r z s) = nothing_sent (e ∙ r) (f ∙ z) (g ∙ s)
HasSent-same {before} {content} e f g (part_sent r s) =
    part_sent (e ∙ r)
      (g ∙ s ∙ ap (λ (n : ℕ). before ++ (ok_line (length content) ++ take n content)) (sym f))

pub IsDownload-forfeit :
    (su : Setup) (before content : Bytes) (req : Request) (requeued : Bool) (budget n : ℕ)
    (w : World)
    → IsDownload before content su.file_dir req w
    → IsDownload before content su.file_dir (forfeit su req requeued budget n) w
unfolding forfeit
IsDownload-forfeit su before content req requeued budget n w d =
    elim (Bool-cases (requeued && (is_rr su.scheduler.policy && (is_get req.op && ltb n budget)))) [
      | inl h ↦
          rw (h, forfeit)
            (record {
              op = d.op;
              valid_name = d.valid_name;
              holds = d.holds;
              sends_all = d.sends_all;
              about = record { total = d.about.total; reached = d.about.reached };
              has_sent = HasSent-same refl refl refl d.has_sent;
            })
      | inr h ↦ rw (h, forfeit) d
    ]
