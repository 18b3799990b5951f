-- ===== src/Client/Status.antt =====
-- read_status_line of client.cpp: the first line of what arrives, and no byte behind it is lost.
use mathlib.Core.Path.{subst}
use link_scheduling.Prelude.{
  ℕ, zero, suc, ◌+◌, ◌≤◌, ◌<◌, ◌≡◌, refl, sym, ap, ◌∙◌, inl, inr, Bool, true, false, Option, none,
  some, [], ◌∷◌, ◌++◌, arith, ltb, if◌then◌else◌, length, length-append, append_assoc, Bool-cases,
  lt→ltb,
}
use link_scheduling.Prelude.Text.{Bytes}
use link_scheduling.World.{World, M, pure}
use link_scheduling.FileIo.{getline, contains}
use link_scheduling.Socket.Header.{Parted, getline-Parted, contains-append}
use link_scheduling.Server.Put.Stream.{stream, Takes}
use link_scheduling.Client.{recv_from, recv, status_by, status_loop, read_status_line}
use link_scheduling.Client.Receive.{
  IsClean, recv_from-some, Framed, Framed-trans, Received, recv-Received,
}

-- What a status line and its leftover are, where `text` is all that arrives.
pub record StatusLine (sock : ℕ) (text : Bytes) (w : World) (response leftover : Bytes) (w' : World)
    : Type 0 where
  pub line : Bytes
  pub shape : response ≡ line ++ b'\n' ∷ []
  pub no_end : contains b'\n' line ≡ false
  pub whole : response ++ (leftover ++ stream (w'.arrivals sock)) ≡ text
  pub framed : Framed w w'
  pub clean : IsClean (w.arrivals sock) → IsClean (w'.arrivals sock)

abbrev pub StatusOutcome : ℕ → Bytes → World → Option (Bytes × Bytes) × World → Type 0
StatusOutcome sock text w (none, w') = Unit
StatusOutcome sock text w (some (response, leftover), w') =
    StatusLine sock text w response leftover w'

StatusOutcome-rebase :
    (sock : ℕ) (text : Bytes) (v w : World) (o : Option (Bytes × Bytes) × World)
    → Framed v w
    → (IsClean (v.arrivals sock) → IsClean (w.arrivals sock))
    → StatusOutcome sock text w o
    → StatusOutcome sock text v o
StatusOutcome-rebase sock text v w (none, w') f c s = tt
StatusOutcome-rebase sock text v w (some (response, leftover), w') f c s = record {
  line = s.line;
  shape = s.shape;
  no_end = s.no_end;
  whole = s.whole;
  framed = Framed-trans v w w' f s.framed;
  clean = λ h. s.clean (c h);
}

module _ (sock : ℕ) (text : Bytes) where
  -- A turn, by what recv has given.
  status_by-StatusOutcome :
      (line : Bytes) (again : Bytes → M (Option (Bytes × Bytes))) (o : Option Bytes) (w w' : World)
      → contains b'\n' line ≡ false
      → line ++ stream (w.arrivals sock) ≡ text
      → Received sock 4096 o w w'
      → ((l : Bytes)
          → contains b'\n' l ≡ false
          → l ++ stream (w'.arrivals sock) ≡ text
          → StatusOutcome sock text w (again l w'))
      → StatusOutcome sock text w (status_by line again o w')
  status_by-StatusOutcome line again none w w' h e r k = tt
  status_by-StatusOutcome line again (some []) w w' h e r k = tt
  status_by-StatusOutcome line again (some (b ∷ bs)) w w' h e r k =
      go (getline (b ∷ bs)) (getline-Parted (b ∷ bs))
    where
      t : (b ∷ bs) ++ stream (w'.arrivals sock) ≡ stream (w.arrivals sock)
      t = r.takes.0

      later : Bytes
      later = stream (w'.arrivals sock)

      go :
          (p : Bytes × Bytes × Bool)
          → Parted (b ∷ bs) p
          → StatusOutcome sock text w (
              (if p.2 then pure (some (line ++ (p.0 ++ b'\n' ∷ []), p.1)) else again (line ++ p.0))
                w')
      go (first, rest, true) (parts, no_end) = record {
        line = line ++ first;
        shape = sym (append_assoc line first (b'\n' ∷ []));
        no_end = contains-append b'\n' line first h no_end;
        whole =
            append_assoc line (first ++ b'\n' ∷ []) (rest ++ later)
            ∙ ap (◌++◌ line) (
                append_assoc first (b'\n' ∷ []) (rest ++ later)
                ∙ sym (append_assoc first (b'\n' ∷ rest) later)
                ∙ ap (λ (x : Bytes). x ++ later) parts
                ∙ t)
            ∙ e;
        framed = r.framed;
        clean = r.clean;
      }
      go (first, rest, false) (same, no_end) =
          k (line ++ first)
            (contains-append b'\n' line first h
              (subst (λ s. contains b'\n' s ≡ false) (sym same) no_end))
            (append_assoc line first later
              ∙ ap (◌++◌ line) (ap (λ (x : Bytes). x ++ later) same ∙ t)
              ∙ e)

  status_loop-StatusOutcome :
      (fuel : ℕ) (line : Bytes) (w : World)
      → contains b'\n' line ≡ false
      → line ++ stream (w.arrivals sock) ≡ text
      → StatusOutcome sock text w (status_loop fuel sock line w)
  unfolding status_loop recv
  status_loop-StatusOutcome zero line w h e = tt
  status_loop-StatusOutcome (suc fuel) line w h e = elim (Bool-cases (ltb (length line) 8192)) [
    | inr long ↦ rw (long, status_loop) tt
    | inl short ↦
        rw (short, status_loop)
          (turn (λ l hl el. status_loop-StatusOutcome fuel l next hl el)
            (recv-Received sock 4096 w))
  ]
    where
      next : World
      next = (recv sock 4096 w).1

      turn :
          ((l : Bytes)
            → contains b'\n' l ≡ false
            → l ++ stream (next.arrivals sock) ≡ text
            → StatusOutcome sock text next (status_loop fuel sock l next))
          → Received sock 4096 (recv sock 4096 w).0 w next
          → StatusOutcome sock text w
              (status_by line (status_loop fuel sock) (recv sock 4096 w).0 next)
      turn again r =
          status_by-StatusOutcome line (status_loop fuel sock) _ w next h e r
            λ l hl el. StatusOutcome-rebase sock text w next _ r.framed r.clean (again l hl el)

pub read_status_line-StatusOutcome :
    (sock : ℕ) (text : Bytes) (w : World)
    → stream (w.arrivals sock) ≡ text
    → StatusOutcome sock text w (read_status_line sock w)
unfolding read_status_line
read_status_line-StatusOutcome sock text w e =
    status_loop-StatusOutcome sock text 8193 [] w (unfold contains in refl) e

head-eq : (c d : ℕ) (xs ys : Bytes) → c ∷ xs ≡ d ∷ ys → (c ≡ d) × (xs ≡ ys)
head-eq c d xs ys e = (cc, cc)

-- A text has one first line.
first_line_unique :
    (a b x y : Bytes)
    → contains b'\n' a ≡ false
    → contains b'\n' b ≡ false
    → a ++ b'\n' ∷ x ≡ b ++ b'\n' ∷ y
    → (a ≡ b) × (x ≡ y)
unfolding contains
first_line_unique [] [] x y h k e = (refl, (head-eq _ _ x y e).1)
first_line_unique [] (d ∷ b) x y h k e =
    let q : b'\n' ≡ d = (head-eq _ d x _ e).0 in absurd (ground arith)
first_line_unique (c ∷ a) [] x y h k e =
    let q : c ≡ b'\n' = (head-eq c _ _ y e).0 in absurd (ground arith)
first_line_unique (c ∷ a) (d ∷ b) x y h k e =
    let (q, r) = head-eq c d _ _ e in
    let (same, rest) = first_line_unique a b x y (ground arith) (ground arith) r in
    (ap (λ (z : ℕ). z ∷ a) q ∙ ap (◌∷◌ d) same, rest)

-- What has no line end is not longer than the first line.
length-first_line :
    (a b x y : Bytes) → contains b'\n' a ≡ false → a ++ x ≡ b ++ b'\n' ∷ y → length a ≤ length b
unfolding contains
length-first_line [] b x y h e = omega arith
length-first_line (c ∷ a) [] x y h e =
    let q : c ≡ b'\n' = (head-eq c _ _ y e).0 in absurd (ground arith)
length-first_line (c ∷ a) (d ∷ b) x y h e =
    let (q, r) = head-eq c d _ _ e in omega (arith, length-first_line a b x y (ground arith) r)

abbrev pub IsSome {ℓ} : {A : Type ℓ} → Option A → Type 0
IsSome none = ⊥
IsSome (some a) = Unit

module _ (sock : ℕ) (first rest : Bytes) (short : length first < 8192) where
  status_loop-IsSome :
      (fuel : ℕ) (line : Bytes) (w : World)
      → IsClean (w.arrivals sock)
      → contains b'\n' line ≡ false
      → line ++ stream (w.arrivals sock) ≡ first ++ b'\n' ∷ rest
      → 8192 < fuel + length line
      → IsSome (status_loop fuel sock line w).0
  unfolding status_loop recv
  status_loop-IsSome zero line w c h e f =
      absurd (omega (arith, length-first_line line first _ rest h e, short))
  status_loop-IsSome (suc fuel) line w c h e f =
      let fits = length-first_line line first _ rest h e in
      let more : 0 < length (stream (w.arrivals sock)) = omega (
        arith,
        fits,
        length-append line (stream (w.arrivals sock)),
        length-append first (b'\n' ∷ rest),
        ap length e,
      ) in
      let (b, bs, got) = recv_from-some (w.arrivals sock) 4095 c more in
      rw (lt→ltb (length line) 8192 (omega (arith, short)), status_loop)
        (rw got (
          turn (λ l hl el fl. status_loop-IsSome fuel l next (received.clean c) hl el fl) b bs
            (subst (λ o. Takes (w.arrivals sock) 4096 o (next.arrivals sock)) got received.takes)
            (getline (b ∷ bs)) (getline-Parted (b ∷ bs))))
    where
      next : World
      next = (recv sock 4096 w).1

      received : Received sock 4096 (recv_from (w.arrivals sock) 4096).0 w next
      received = recv-Received sock 4096 w

      turn :
          ((l : Bytes)
            → contains b'\n' l ≡ false
            → l ++ stream (next.arrivals sock) ≡ first ++ b'\n' ∷ rest
            → 8192 < fuel + length l
            → IsSome (status_loop fuel sock l next).0)
          → (b : ℕ) (bs : Bytes) → Takes (w.arrivals sock) 4096 (some (b ∷ bs)) (next.arrivals sock)
          → (p : Bytes × Bytes × Bool) → Parted (b ∷ bs) p
          → IsSome
              ((if p.2
                  then pure (some (line ++ (p.0 ++ b'\n' ∷ []), p.1))
                  else status_loop fuel sock (line ++ p.0))
                next).0
      turn again b bs t (start, after, true) q = tt
      turn again b bs (t, k) (start, after, false) (same, no_end) =
          again (line ++ start)
            (contains-append b'\n' line start h
              (subst (λ s. contains b'\n' s ≡ false) (sym same) no_end))
            (append_assoc line start _
              ∙ ap (◌++◌ line) (ap (λ (x : Bytes). x ++ stream (next.arrivals sock)) same ∙ t)
              ∙ e)
            (omega (arith, length-append line start, ap length same, f))

-- When a whole line of fewer than 8192 bytes arrives, read_status_line gives it, and what it has not
-- given is still there.
pub read_status_line-first :
    (sock : ℕ) (first rest : Bytes) (w : World)
    → length first < 8192
    → contains b'\n' first ≡ false
    → IsClean (w.arrivals sock)
    → stream (w.arrivals sock) ≡ first ++ b'\n' ∷ rest
    → let run = read_status_line sock w in
      (leftover : Bytes) × (run.0 ≡ some (first ++ b'\n' ∷ [], leftover))
      × (leftover ++ stream (run.1.arrivals sock) ≡ rest)
      × Framed w run.1
      × IsClean (run.1.arrivals sock)
unfolding read_status_line
read_status_line-first sock first rest w short no_end clean e =
    go (read_status_line sock w) (read_status_line-StatusOutcome sock (first ++ b'\n' ∷ rest) w e) (
      status_loop-IsSome sock first rest short 8193 [] w clean (unfold contains in refl) e
        (omega arith))
  where
    go :
        (run : Option (Bytes × Bytes) × World)
        → StatusOutcome sock (first ++ b'\n' ∷ rest) w run
        → IsSome run.0
        → (leftover : Bytes) × (run.0 ≡ some (first ++ b'\n' ∷ [], leftover))
          × (leftover ++ stream (run.1.arrivals sock) ≡ rest)
          × Framed w run.1
          × IsClean (run.1.arrivals sock)
    go (none, w') s i = elim i [ ]
    go (some (response, leftover), w') s i =
        let later = leftover ++ stream (w'.arrivals sock) in
        let one_line : s.line ++ b'\n' ∷ later ≡ first ++ b'\n' ∷ rest =
          sym (append_assoc s.line (b'\n' ∷ []) later)
          ∙ ap (λ (r : Bytes). r ++ later) (sym s.shape)
          ∙ s.whole in
        let (same, behind) = first_line_unique s.line first later rest s.no_end no_end one_line in
        (
          leftover,
          ap (λ (r : Bytes). some (r, leftover))
              (s.shape ∙ ap (λ (l : Bytes). l ++ b'\n' ∷ []) same),
          behind,
          s.framed,
          s.clean clean,
        )
