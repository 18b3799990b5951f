-- ===== src/Socket/Header.antt =====
-- read_header_line: no byte of a connection is lost (socket.cpp).
use mathlib.Core.Path.{subst}
use link_scheduling.Prelude.{
  ℕ, zero, suc, ◌≡◌, ◌⊎◌, refl, sym, ap, ◌∙◌, inl, inr, Bool, true, false, ◌==◌, Option, some, List,
  [], ◌∷◌, ◌++◌, arith, ltb, leb, if◌then◌else◌, length, append_assoc, Bool-cases, Option-cases,
  ==→eq,
}
use link_scheduling.Prelude.Text.{Bytes}
use link_scheduling.World.{World, Arrival, receive_from, recv_data_with_timeout}
use link_scheduling.FileIo.{getline, contains}
use link_scheduling.Socket.{steady_now, header_loop, read_header_line}
use link_scheduling.Server.Put.Stream.{stream, Takes, receive_from-Takes, at_fd_here}

-- What getline makes of a text: the part in front of the first line end, or all of it.
abbrev pub Parted : Bytes → Bytes × Bytes × Bool → Type 0
Parted s (line, rest, true) = (line ++ b'\n' ∷ rest ≡ s) × (contains b'\n' line ≡ false)
Parted s (line, rest, false) = (line ≡ s) × (contains b'\n' s ≡ false)

Parted-cons :
    (c : ℕ) (cs : Bytes) (t : Bytes × Bytes × Bool)
    → (c == b'\n') ≡ false
    → Parted cs t
    → Parted (c ∷ cs) (c ∷ t.0, t.1, t.2)
unfolding contains
Parted-cons c cs (line, rest, true) h (e, k) = (ap (◌∷◌ c) e, rw h k)
Parted-cons c cs (line, rest, false) h (e, k) = (ap (◌∷◌ c) e, rw h k)

pub getline-Parted : (s : Bytes) → Parted s (getline s)
unfolding getline contains
getline-Parted [] = (refl, refl)
getline-Parted (c ∷ cs) = elim (Bool-cases (c == b'\n')) [
  | inl h ↦ rw h (ap (λ (x : ℕ). x ∷ cs) (sym (==→eq c b'\n' h)), refl)
  | inr h ↦ rw h (Parted-cons c cs (getline cs) h (getline-Parted cs))
]

pub contains-append :
    (c : ℕ) (xs ys : Bytes)
    → contains c xs ≡ false
    → contains c ys ≡ false
    → contains c (xs ++ ys) ≡ false
unfolding contains
contains-append c [] ys h k = k
contains-append c (x ∷ xs) ys h k = ground (arith, contains-append c xs ys)

-- Either there is no header, or it is the first line of the text, and what is left over and what the
-- socket still delivers make up the rest.
abbrev pub HeaderOutcome : ℕ → Bytes → (Bytes × Bytes) × World → Type 0
HeaderOutcome fd text ((header, leftover), w') =
    ((header ≡ []) × (leftover ≡ []))
    ⊎ ((line : Bytes) × (header ≡ line ++ b'\n' ∷ [])
        × (contains b'\n' line ≡ false)
        × (header ++ (leftover ++ stream (w'.arrivals fd)) ≡ text))

module _ (fd deadline : ℕ) where
  received :
      (fuel : ℕ) (text line bytes : Bytes) (w : World)
      → (contains b'\n' bytes ≡ false
          → HeaderOutcome fd text (header_loop fuel fd deadline (line ++ bytes) w))
      → (t : Bytes × Bytes × Bool) → contains b'\n' line ≡ false
      → line ++ (bytes ++ stream (w.arrivals fd)) ≡ text
      → Parted bytes t
      → HeaderOutcome fd text (
          if t.2
          then ((line ++ (t.0 ++ b'\n' ∷ []), t.1), w)
          else header_loop fuel fd deadline (line ++ t.0) w)
  received fuel text line bytes w again (first, rest, true) h e (p, k) = inr (
    line ++ first,
    sym (append_assoc line first (b'\n' ∷ [])),
    contains-append b'\n' line first h k,
    append_assoc line (first ++ b'\n' ∷ []) later
        ∙ ap (◌++◌ line) (
            append_assoc first (b'\n' ∷ []) later
            ∙ sym (append_assoc first (b'\n' ∷ rest) (stream (w.arrivals fd)))
            ∙ ap (λ (b : Bytes). b ++ stream (w.arrivals fd)) p)
        ∙ e,
  )
    where
      later : Bytes
      later = rest ++ stream (w.arrivals fd)
  received fuel text line bytes w again (first, rest, false) h e (p, k) =
      subst (λ b. HeaderOutcome fd text (header_loop fuel fd deadline (line ++ b) w)) (sym p)
        (again k)

  header_loop-HeaderOutcome :
      (fuel : ℕ) (text line : Bytes) (w : World)
      → contains b'\n' line ≡ false
      → line ++ stream (w.arrivals fd) ≡ text
      → HeaderOutcome fd text (header_loop fuel fd deadline line w)
  unfolding header_loop steady_now recv_data_with_timeout
  header_loop-HeaderOutcome zero text line w h e = inl (refl, refl)
  header_loop-HeaderOutcome (suc fuel) text line w h e =
      elim (Bool-cases (ltb (length line) 8192)) [
        | inr long ↦ rw (long, header_loop) (inl (refl, refl))
        | inl short ↦ elim (Bool-cases (leb deadline (steady_now w).0)) [
          | inl late ↦ rw (short, late, header_loop) (inl (refl, refl))
          | inr early ↦ elim (Option-cases got.0) [
            | inl nothing ↦ rw (short, early, header_loop) (rw nothing (inl (refl, refl)))
            | inr (bytes, some_got) ↦
                by_bytes short early (λ l v k q. header_loop-HeaderOutcome fuel text l v k q) bytes
                  some_got
          ]
        ]
      ]
    where
      got : Option Bytes × List Arrival
      got = receive_from (w.arrivals fd) 4096

      by_bytes :
          ltb (length line) 8192 ≡ true
          → leb deadline (steady_now w).0 ≡ false
          → (again : (l : Bytes) (v : World)
              → contains b'\n' l ≡ false
              → l ++ stream (v.arrivals fd) ≡ text
              → HeaderOutcome fd text (header_loop fuel fd deadline l v))
          → (bytes : Bytes) → got.0 ≡ some bytes
          → HeaderOutcome fd text (header_loop (suc fuel) fd deadline line w)
      by_bytes short early again [] s = rw (short, early, header_loop) (rw s (inl (refl, refl)))
      by_bytes short early again (c ∷ cs) s =
          rw (short, early, header_loop)
            (rw s (
              received fuel text line (c ∷ cs) read
                (λ k.
                  again (line ++ c ∷ cs) read (contains-append b'\n' line (c ∷ cs) h k)
                    (append_assoc line (c ∷ cs) _ ∙ whole))
                (getline (c ∷ cs)) h whole (getline-Parted (c ∷ cs))))
        where
          read : World
          read = (recv_data_with_timeout fd 4096 (steady_now w).1).1

          taken : Takes (w.arrivals fd) 4096 (some (c ∷ cs)) got.1
          taken =
              subst (λ o. Takes (w.arrivals fd) 4096 o got.1) s
                (receive_from-Takes (w.arrivals fd) 4096)

          whole : line ++ ((c ∷ cs) ++ stream (read.arrivals fd)) ≡ text
          whole =
              ap (◌++◌ line) (
                ap (λ (l : List Arrival). (c ∷ cs) ++ stream l) (at_fd_here w.arrivals fd got.1)
                ∙ taken.0)
              ∙ e

-- The files, what is sent and what is closed are as they were.
abbrev pub Listened : World → World → Type 0
Listened w v = (v.files ≡ w.files) × (v.sends ≡ w.sends) × (v.sent ≡ w.sent) × (v.closed ≡ w.closed)

header_loop-Listened :
    (fuel fd deadline : ℕ) (line : Bytes) (w : World)
    → Listened w (header_loop fuel fd deadline line w).1
unfolding header_loop steady_now recv_data_with_timeout
header_loop-Listened zero fd deadline line w = (refl, refl, refl, refl)
header_loop-Listened (suc fuel) fd deadline line w = elim (Bool-cases (ltb (length line) 8192)) [
  | inr long ↦ rw (long, header_loop) (refl, refl, refl, refl)
  | inl short ↦ elim (Bool-cases (leb deadline (steady_now w).0)) [
    | inl late ↦ rw (short, late, header_loop) (refl, refl, refl, refl)
    | inr early ↦ elim (Option-cases (receive_from (w.arrivals fd) 4096).0) [
      | inl nothing ↦ rw (short, early, header_loop) (rw nothing (refl, refl, refl, refl))
      | inr (bytes, got) ↦
          by_bytes short early (λ l v. header_loop-Listened fuel fd deadline l v) bytes got
    ]
  ]
]
  where
    by_bytes :
        ltb (length line) 8192 ≡ true
        → leb deadline (steady_now w).0 ≡ false
        → (again : (l : Bytes) (v : World) → Listened v (header_loop fuel fd deadline l v).1)
        → (bytes : Bytes) → (receive_from (w.arrivals fd) 4096).0 ≡ some bytes
        → Listened w (header_loop (suc fuel) fd deadline line w).1
    by_bytes short early again [] s = rw (short, early, header_loop) (rw s (refl, refl, refl, refl))
    by_bytes short early again (c ∷ cs) s =
        rw (short, early, header_loop)
          (rw s (elim (Bool-cases (getline (c ∷ cs)).2) [
            | inl t ↦ rw t (refl, refl, refl, refl)
            | inr t ↦ rw t (again _ _)
          ]))

-- Reading a header leaves the files as they are, sends nothing and closes no socket.
pub read_header_line-Listened :
    (fd timeout_ms : ℕ) (w : World) → Listened w (read_header_line fd timeout_ms w).1
unfolding read_header_line steady_now
read_header_line-Listened fd timeout_ms w = header_loop-Listened 8193 fd _ [] (steady_now w).1

-- However the bytes of a connection are cut, and whenever they come: read_header_line gives no header
-- and no leftover, or the first line of what arrives, with its line end; and then the leftover and
-- what the socket still delivers are all that comes behind that line, in order.
pub read_header_line-HeaderOutcome :
    (fd timeout_ms : ℕ) (w : World)
    → HeaderOutcome fd (stream (w.arrivals fd)) (read_header_line fd timeout_ms w)
unfolding read_header_line steady_now
read_header_line-HeaderOutcome fd timeout_ms w =
    header_loop-HeaderOutcome fd _ 8193 _ [] (steady_now w).1 (unfold contains in refl) refl
