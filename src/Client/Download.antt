-- ===== src/Client/Download.antt =====
-- get_file of client.cpp against a server that answers with a whole file.
use mathlib.Core.Path.{subst}
use link_scheduling.Prelude.{
  ℕ, ◌<◌, ◌≡◌, ◌≢◌, refl, sym, ap, ◌∙◌, Bool, true, false, not, some, List, [], ◌∷◌, ◌++◌, arith,
  if◌then◌else◌, length, take, take-append, length-append, append_assoc, All, lt→ltb, u64_mod,
}
use link_scheduling.Prelude.Text.{Bytes, codes, eq_bytes}
use link_scheduling.Prelude.Decimal.{
  is_digit, to_string, to_string-digits, to_string-value, to_string-length,
}
use link_scheduling.Queue.{is_empty}
use link_scheduling.World.{World, pure, ◌>>=◌, ◌>>◌, Arrival, close_socket, draw_fault, at_fd}
use link_scheduling.World.Send.{delivered, send_all_whole}
use link_scheduling.FileIo.{contains}
use link_scheduling.Protocol.{ok_line, skip_space, is_space}
use link_scheduling.Protocol.Header.{get_header}
use link_scheduling.Server.Put.{create_file}
use link_scheduling.FileIo.{close_stream}
use link_scheduling.Server.Put.Stream.{stream, at_path_here, close_stream-none}
use link_scheduling.Server.Put.Unflushed.{create_file-unflushed}
use link_scheduling.Client.Unflushed.{read_status_line-unflushed, recv_exact-unflushed}
use link_scheduling.Config.Number.{starts}
use link_scheduling.Config.Print.Numbers.{NotDigit, read_digits-append, to_string-ne-nil}
use link_scheduling.Client.{read_status_line, recv_exact}
use link_scheduling.Client.Receive.{IsClean}
use link_scheduling.Client.Status.{read_status_line-first}
use link_scheduling.Client.Exact.{Quiet}
use link_scheduling.Client.Exact.Prefix.{RecvOutcome, recv_exact-RecvOutcome, recv_exact-true}
use link_scheduling.Client.Requests.{
  close_failed, is_ok, read_stoull, signed_value, open_output, get_data, get_answer, get_file,
}

-- The number behind "OK ".
digits_front :
    (ds rest : Bytes)
    → ds ≢ []
    → All (λ c. is_digit c ≡ true) ds
    → (skip_space (ds ++ rest) ≡ ds ++ rest)
      × (starts b'-' (ds ++ rest) ≡ false)
      × (starts b'+' (ds ++ rest) ≡ false)
      × (is_empty ds ≡ false)
unfolding skip_space
digits_front [] rest n h = absurd (n refl)
digits_front (c ∷ ds) rest n (h, hs) =
    let d : is_space c ≡ false = ground arith in (rw d refl, ground arith, ground arith, refl)

read_stoull-to_string :
    (n : ℕ) (rest : Bytes)
    → n < u64_mod
    → NotDigit rest
    → read_stoull (to_string n ++ rest) ≡ some n
unfolding read_stoull signed_value
read_stoull-to_string n rest h e =
    let (space, minus, plus, some_digit) =
      digits_front (to_string n) rest (to_string-ne-nil n) (to_string-digits n) in
    rw
      (
        space,
        minus,
        plus,
        read_digits-append (to_string n) rest (to_string-digits n) e,
        some_digit,
        to_string-value n,
        lt→ltb n u64_mod h,
      )
      refl

contains-digits : (ds : Bytes) → All (λ c. is_digit c ≡ true) ds → contains b'\n' ds ≡ false
unfolding contains
contains-digits [] h = refl
contains-digits (c ∷ ds) (h, hs) = ground (arith, contains-digits ds hs)

-- The line of an OK, without its end.
abbrev ok_text : ℕ → Bytes
ok_text n = codes "OK " ++ to_string n

ok_text-contains : (n : ℕ) → contains b'\n' (ok_text n) ≡ false
unfolding contains
ok_text-contains n = contains-digits (to_string n) (to_string-digits n)

is_ok-ok_text : (n : ℕ) → is_ok (ok_text n ++ b'\n' ∷ []) ≡ true
unfolding eq_bytes
is_ok-ok_text n = refl

append_cancel : (a b x y : Bytes) → length a ≡ length b → a ++ x ≡ b ++ y → a ≡ b
append_cancel a b x y h e =
    sym (take-append a x)
    ∙ ap (λ (k : ℕ). take k (a ++ x)) h
    ∙ ap (take (length b)) e
    ∙ take-append b y

-- What a download leaves behind: the file, and a request sent on a socket that has been closed.
pub record IsDownloaded (sock : ℕ) (name content : Bytes) (w : World) (run : ℕ × World)
    : Type 0 where
  pub status : run.0 ≡ 0
  pub file : run.1.files name ≡ some content
  pub sent : run.1.sent ≡ at_fd w.sent sock (w.sent sock ++ get_header name)
  pub closed : run.1.closed ≡ sock ∷ w.closed

-- With no call to fail, a file is created empty.
record Created (name : Bytes) (w : World) (run : Bool × World) : Type 0 where
  good : run.0 ≡ true
  empty : run.1.files name ≡ some []
  faults : run.1.faults ≡ []
  arrivals : run.1.arrivals ≡ w.arrivals
  quiet : Quiet w run.1

create_file-Created :
    (name : Bytes) (w : World) → w.faults ≡ [] → Created name w (create_file name w)
unfolding create_file draw_fault
create_file-Created name w h = record {
  good = rw h refl;
  empty = rw h (at_path_here w.files name (some []));
  faults = rw h refl;
  arrivals = rw h refl;
  quiet = rw h (refl, refl);
}

-- What the rest of get_file does once the status line has been read.
record DataArrived (sock : ℕ) (name content : Bytes) (w : World) (run : ℕ × World) : Type 0 where
  status : run.0 ≡ 0
  file : run.1.files name ≡ some content
  sent : run.1.sent ≡ w.sent
  closed : run.1.closed ≡ sock ∷ w.closed

received-DataArrived :
    (sock : ℕ) (name content text later : Bytes) (w : World) (run : Bool × World)
    → run.0 ≡ true
    → text ≡ content ++ later
    → RecvOutcome w sock (some name) text (length content) run
    → run.1.unflushed ≡ []
    → DataArrived sock name content w
        ((do flushed ← close_stream name 0; close_socket sock; pure (if run.0 then 0 else 1)) run.1)
unfolding close_socket
received-DataArrived sock name content text later w (false, v) t e r u = absurd (cc)
received-DataArrived sock name content text later w (true, v) t e (left, r) u =
    let (sent_same, closed_same) = r.quiet in
    rw (close_stream-none name 0 v u) (record {
      status = refl;
      file = r.holding ∙ ap some (append_cancel r.written content _ later r.counted (r.whole ∙ e));
      sent = sent_same;
      closed = ap (◌∷◌ sock) closed_same;
    })

get_data-DataArrived :
    (sock : ℕ) (name content leftover later : Bytes) (v : World)
    → v.faults ≡ []
    → v.unflushed ≡ []
    → IsClean (v.arrivals sock)
    → leftover ++ stream (v.arrivals sock) ≡ content ++ later
    → DataArrived sock name content v (get_data sock name true leftover (some (length content)) v)
unfolding get_data open_output
get_data-DataArrived sock name content leftover later v f u0 c e =
    go (create_file name v) (create_file-Created name v f) (create_file-unflushed name v ∙ u0)
  where
    go :
        (run : Bool × World)
        → Created name v run
        → run.1.unflushed ≡ []
        → DataArrived sock name content v (
            (if not run.0 then close_failed sock else (do
              received ← recv_exact sock (length content) leftover (some name)
              flushed ← close_stream name 0
              close_socket sock
              pure (if received then 0 else 1)))
              run.1)
    go (false, u) h k = absurd (bad h.good)
      where
        bad : ◌≡◌ {A = Bool} false true → ⊥
        bad q = cc
    go (true, u) h k =
        let here : u.arrivals sock ≡ v.arrivals sock =
          ap (λ (q : ℕ → List Arrival). q sock) h.arrivals in
        let text : leftover ++ stream (u.arrivals sock) ≡ content ++ later =
          ap (λ (a : List Arrival). leftover ++ stream a) here ∙ e in
        let (sent_same, closed_same) = h.quiet in
        let done =
          received-DataArrived sock name content _ later u
            (recv_exact sock (length content) leftover (some name) u)
            (recv_exact-true sock (length content) leftover (some name) u h.empty
              (subst IsClean (sym here) c) h.faults
              (omega (arith, ap length text, length-append content later)))
            text (recv_exact-RecvOutcome sock (length content) leftover (some name) u h.empty)
            (recv_exact-unflushed sock (length content) leftover (some name) u ∙ k) in
        record {
          status = done.status;
          file = done.file;
          sent = done.sent ∙ sent_same;
          closed = done.closed ∙ ap (◌∷◌ sock) closed_same;
        }

get_answer-ok :
    (sock n : ℕ) (name leftover : Bytes)
    → n < u64_mod
    → get_answer sock name true (some (ok_text n ++ b'\n' ∷ [], leftover))
      ≡ get_data sock name true leftover (some n)
unfolding get_answer eq_bytes
get_answer-ok sock n name leftover h = rw (read_stoull-to_string n (b'\n' ∷ []) h refl) refl

-- Behind the request.
answered :
    (sock : ℕ) (name content later : Bytes) (v : World)
    → v.faults ≡ []
    → v.unflushed ≡ []
    → IsClean (v.arrivals sock)
    → length content < u64_mod
    → stream (v.arrivals sock) ≡ ok_line (length content) ++ (content ++ later)
    → DataArrived sock name content v
        ((do answer ← read_status_line sock; get_answer sock name true answer) v)
answered sock name content later v f u0 c small e =
    let size = length content in
    let text : stream (v.arrivals sock) ≡ ok_text size ++ b'\n' ∷ (content ++ later) =
      e ∙ ap (◌++◌ (codes "OK ")) (append_assoc (to_string size) (b'\n' ∷ []) (content ++ later)) in
    let (leftover, answer, rest, framed, clean) =
      read_status_line-first sock (ok_text size) (content ++ later) v
        (omega (arith, to_string-length size small)) (ok_text-contains size) c text in
    let (files, faults, sends, sent_same, closed_same) = framed in
    let u : World = (read_status_line sock v).1 in
    let done =
      get_data-DataArrived sock name content leftover later u (faults ∙ f)
        (read_status_line-unflushed sock v ∙ u0) clean rest in
    rw (answer, get_answer-ok sock size name leftover small)
      (record {
        status = done.status;
        file = done.file;
        sent = done.sent ∙ sent_same;
        closed = done.closed ∙ ap (◌∷◌ sock) closed_same;
      })

-- With no error on the socket, no write to fail and no close of a stream to lose bytes, a server that answers with an OK and the whole
-- content is enough: the exit status is 0, the file is that content, and the client has sent its
-- request and closed its socket.
pub get_file-IsDownloaded :
    (sock : ℕ) (name content later : Bytes) (w : World)
    → w.sends ≡ []
    → w.faults ≡ []
    → w.unflushed ≡ []
    → IsClean (w.arrivals sock)
    → length content < u64_mod
    → stream (w.arrivals sock) ≡ ok_line (length content) ++ (content ++ later)
    → IsDownloaded sock name content w (get_file (some sock) name true w)
unfolding get_file
get_file-IsDownloaded sock name content later w s f u c small e =
    let v = delivered sock (get_header name) w in
    let done = answered sock name content later v f u c small e in
    subst
      (λ (run : Bool × World). IsDownloaded sock name content w (
        (if not run.0
            then close_failed sock
            else (do answer ← read_status_line sock; get_answer sock name true answer))
          run.1))
      (sym (send_all_whole sock (get_header name) w s))
      (record { status = done.status; file = done.file; sent = done.sent; closed = done.closed })
