-- ===== src/Client/Got.antt =====
-- get_file of client.cpp reports success only for a file that has arrived whole.
use link_scheduling.Prelude.{
  ℕ, zero, suc, ◌≡◌, refl, sym, ap, ◌∙◌, inl, inr, Bool, true, false, not, Option, none, some, List,
  [], ◌∷◌, ◌++◌, if◌then◌else◌, length, drop, Bool-cases,
}
use link_scheduling.Prelude.Text.{Bytes}
use link_scheduling.World.{
  World, pure, ◌>>=◌, ◌>>◌, Arrival, send_all, close_socket, draw_fault, next_fault,
}
use link_scheduling.Protocol.Header.{get_header}
use link_scheduling.Server.Put.{create_file}
use link_scheduling.FileIo.{close_stream}
use link_scheduling.Server.Put.Stream.{stream, at_path_here, close_stream-none}
use link_scheduling.Server.Put.Unflushed.{create_file-unflushed}
use link_scheduling.Client.Unflushed.{read_status_line-unflushed, recv_exact-unflushed}
use link_scheduling.FileIo.{contains}
use link_scheduling.Client.{read_status_line, recv_exact}
use link_scheduling.Client.Status.{StatusOutcome, read_status_line-StatusOutcome}
use link_scheduling.Client.Exact.Prefix.{RecvOutcome, recv_exact-RecvOutcome}
use link_scheduling.Client.Requests.{
  close_failed, is_ok, read_stoull, open_output, get_data, get_answer, get_file,
}

-- A response is a line and its line end.
abbrev pub IsLine : Bytes → Bytes → Type 0
IsLine line response = (response ≡ line ++ b'\n' ∷ []) × (contains b'\n' line ≡ false)

-- Of the text that arrives, the first line is an OK with a number, and the file has as many of the
-- bytes behind it.
pub record IsGot (text name : Bytes) (w : World) : Type 0 where
  pub line : Bytes
  pub response : Bytes
  pub content : Bytes
  pub later : Bytes
  pub is_line : IsLine line response
  pub whole : response ++ (content ++ later) ≡ text
  pub accepted : is_ok response ≡ true
  pub number : read_stoull (drop 3 response) ≡ some (length content)
  pub file : w.files name ≡ some content

-- An exit status of 0 promises that.
abbrev pub GotOutcome : Bytes → Bytes → ℕ × World → Type 0
GotOutcome text name (zero, w) = IsGot text name w
GotOutcome text name (suc status, w) = Unit

-- What creating a file has done.
abbrev CreateOutcome : Bytes → World → Bool × World → Type 0
CreateOutcome path w (false, w') = Unit
CreateOutcome path w (true, w') = (w'.files path ≡ some []) × (w'.arrivals ≡ w.arrivals)

create_file-CreateOutcome : (path : Bytes) (w : World) → CreateOutcome path w (create_file path w)
unfolding create_file draw_fault
create_file-CreateOutcome path w = elim (Bool-cases (next_fault w.faults).0) [
  | inl e ↦ rw e tt
  | inr e ↦ rw e (at_path_here w.files path (some []), refl)
]

received-GotOutcome :
    (sock size : ℕ) (name leftover line response text : Bytes) (w : World) (run : Bool × World)
    → IsLine line response
    → run.1.unflushed ≡ []
    → is_ok response ≡ true
    → read_stoull (drop 3 response) ≡ some size
    → response ++ (leftover ++ stream (w.arrivals sock)) ≡ text
    → RecvOutcome w sock (some name) (leftover ++ stream (w.arrivals sock)) size run
    → GotOutcome text name
        ((do flushed ← close_stream name 0; close_socket sock; pure (if run.0 then 0 else 1)) run.1)
unfolding close_socket
received-GotOutcome sock size name leftover line response text w (false, v) l u a n e r = tt
received-GotOutcome sock size name leftover line response text w (true, v) l u a n e (left, r) =
    rw (close_stream-none name 0 v u) (record {
      line = line;
      is_line = l;
      response = response;
      content = r.written;
      later = left ++ stream (v.arrivals sock);
      whole = ap (◌++◌ response) r.whole ∙ e;
      accepted = a;
      number = n ∙ ap some (sym r.counted);
      file = r.holding;
    })

get_data-GotOutcome :
    (sock : ℕ) (name leftover line response text : Bytes) (w : World) (o : Option ℕ)
    → IsLine line response
    → w.unflushed ≡ []
    → is_ok response ≡ true
    → read_stoull (drop 3 response) ≡ o
    → response ++ (leftover ++ stream (w.arrivals sock)) ≡ text
    → GotOutcome text name (get_data sock name true leftover o w)
unfolding get_data close_failed open_output close_socket
get_data-GotOutcome sock name leftover line response text w none l u a n e = tt
get_data-GotOutcome sock name leftover line response text w (some size) l u a n e =
    go (create_file name w) (create_file-CreateOutcome name w) (create_file-unflushed name w ∙ u)
  where
    go :
        (run : Bool × World)
        → CreateOutcome name w run
        → run.1.unflushed ≡ []
        → GotOutcome text name (
            (if not run.0 then close_failed sock else (do
              received ← recv_exact sock size leftover (some name)
              flushed ← close_stream name 0
              close_socket sock
              pure (if received then 0 else 1)))
              run.1)
    go (false, v) h k = tt
    go (true, v) (empty, same) k =
        received-GotOutcome sock size name leftover line response text v
          (recv_exact sock size leftover (some name) v) l
          (recv_exact-unflushed sock size leftover (some name) v ∙ k) a n
          (ap (λ (q : ℕ → List Arrival). response ++ (leftover ++ stream (q sock))) same ∙ e)
          (recv_exact-RecvOutcome sock size leftover (some name) v empty)

get_answer-GotOutcome :
    (sock : ℕ) (name text : Bytes) (v : World) (run : Option (Bytes × Bytes) × World)
    → StatusOutcome sock text v run
    → run.1.unflushed ≡ []
    → GotOutcome text name (get_answer sock name true run.0 run.1)
unfolding get_answer close_failed
get_answer-GotOutcome sock name text v (none, w) s u = tt
get_answer-GotOutcome sock name text v (some (response, leftover), w) s u =
    elim (Bool-cases (is_ok response)) [
      | inl e ↦ rw e (
          get_data-GotOutcome sock name leftover s.line response text w _ (s.shape, s.no_end) u e
            refl s.whole)
      | inr e ↦ rw e tt
    ]

pub send_all-arrivals :
    (sock : ℕ) (bytes : Bytes) (w : World) → (send_all sock bytes w).1.arrivals ≡ w.arrivals
unfolding send_all
send_all-arrivals sock bytes w = refl

send_all-unflushed :
    (sock : ℕ) (bytes : Bytes) (w : World) → (send_all sock bytes w).1.unflushed ≡ w.unflushed
unfolding send_all
send_all-unflushed sock bytes w = refl

-- Whatever else fails and however the bytes are cut, if no close of a stream loses bytes: get_file,
-- writing to disk, has exit status 0 only if what arrived begins with a line of "OK " and a number n, as
-- std::stoull reads it, and has at least n bytes behind it, and the file holds those n.
pub get_file-GotOutcome :
    (sock : ℕ) (name : Bytes) (w : World)
    → w.unflushed ≡ []
    → GotOutcome (stream (w.arrivals sock)) name (get_file (some sock) name true w)
unfolding get_file close_failed
get_file-GotOutcome sock name w u =
    go (send_all sock (get_header name) w) (send_all-arrivals sock (get_header name) w)
      (send_all-unflushed sock (get_header name) w ∙ u)
  where
    go :
        (run : Bool × World)
        → run.1.arrivals ≡ w.arrivals
        → run.1.unflushed ≡ []
        → GotOutcome (stream (w.arrivals sock)) name (
            (if not run.0
                then close_failed sock
                else (do answer ← read_status_line sock; get_answer sock name true answer))
              run.1)
    go (false, v) same k = tt
    go (true, v) same k =
        get_answer-GotOutcome sock name (stream (w.arrivals sock)) v (read_status_line sock v)
          (read_status_line-StatusOutcome sock (stream (w.arrivals sock)) v
            (ap (λ (q : ℕ → List Arrival). stream (q sock)) same))
          (read_status_line-unflushed sock v ∙ k)
