-- ===== src/FileIo/Lines.antt =====
-- Files as lists of lines, and read_file_line against them (file_io.cpp).
pub mod Read
use link_scheduling.Prelude.{
  ℕ, ◌+◌, ◌^◌, ◌≤◌, ◌<◌, ◌≡◌, ◌⊎◌, refl, sym, ap, ◌∙◌, inl, inr, true, false, none, some, List, [],
  ◌∷◌, ◌++◌, arith, ◌==◌, if◌then◌else◌, length, drop, concat, Bool-cases, ==→eq, lt→ltb,
  length-append, drop-append, drop-drop, length-drop,
}
use link_scheduling.Prelude.Text.{Bytes}
use link_scheduling.World.{World}
use link_scheduling.FileIo.{
  getline, line_from, next_line, read_file_line, open_input, get_file_size, size_or_zero,
}

-- A byte in front of a text that has been cut into lines.
abbrev cons_line : ℕ → List Bytes → List Bytes
cons_line c [] = (c ∷ []) ∷ []
cons_line c (l ∷ ls) = (c ∷ l) ∷ ls

-- The lines of a text, each with the line end that closes it.
abbrev pub lines : Bytes → List Bytes
lines [] = []
lines (c ∷ cs) = if c == b'\n' then (c ∷ []) ∷ lines cs else cons_line c (lines cs)

concat-cons_line : (c : ℕ) (ls : List Bytes) → concat (cons_line c ls) ≡ c ∷ concat ls
concat-cons_line c [] = refl
concat-cons_line c (l ∷ ls) = refl

-- The lines make up the text.
pub concat-lines : (s : Bytes) → concat (lines s) ≡ s
concat-lines [] = refl
concat-lines (c ∷ cs) = elim (Bool-cases (c == b'\n')) [
  | inl h ↦ rw h (ap (◌∷◌ c) (concat-lines cs))
  | inr h ↦ rw h (concat-cons_line c (lines cs) ∙ ap (◌∷◌ c) (concat-lines cs))
]

-- What getline gives, as the first line of a text and the rest of it.
abbrev pub first_line : Bytes → Bytes
first_line s = if (getline s).2 then (getline s).0 ++ b'\n' ∷ [] else (getline s).0

pub getline-cons_end :
    (c : ℕ) (cs : Bytes) → (c == b'\n') ≡ true → getline (c ∷ cs) ≡ ([], cs, true)
unfolding getline
getline-cons_end c cs h = rw h

pub getline-cons :
    (c : ℕ) (cs : Bytes)
    → (c == b'\n') ≡ false
    → getline (c ∷ cs) ≡ (c ∷ (getline cs).0, (getline cs).1, (getline cs).2)
unfolding getline
getline-cons c cs h = rw h

pub first_line-cons :
    (c : ℕ) (cs : Bytes) → (c == b'\n') ≡ false → first_line (c ∷ cs) ≡ c ∷ first_line cs
first_line-cons c cs h =
    rw (getline-cons c cs h) (elim (Bool-cases (getline cs).2) [ inl e ↦ rw e | inr e ↦ rw e ])

lines-step :
    (c : ℕ) (cs : Bytes)
    → cons_line c (lines cs) ≡ (c ∷ first_line cs) ∷ lines (getline cs).1
    → lines (c ∷ cs) ≡ first_line (c ∷ cs) ∷ lines (getline (c ∷ cs)).1
lines-step c cs inner = elim (Bool-cases (c == b'\n')) [
  | inl h ↦ rw (getline-cons_end c cs h, h) (ap (λ (x : ℕ). (x ∷ []) ∷ lines cs) (==→eq c b'\n' h))
  | inr h ↦ rw (first_line-cons c cs h, getline-cons c cs h, h) inner
]

-- getline cuts the first line off.
pub getline-lines :
    (c : ℕ) (cs : Bytes) → lines (c ∷ cs) ≡ first_line (c ∷ cs) ∷ lines (getline (c ∷ cs)).1
getline-lines c [] = lines-step c [] (unfold getline in refl)
getline-lines c (d ∷ ds) = lines-step c (d ∷ ds) (ap (cons_line c) (getline-lines d ds))

pub getline-append : (s : Bytes) → first_line s ++ (getline s).1 ≡ s
getline-append [] = unfold getline in refl
getline-append (c ∷ cs) = elim (Bool-cases (c == b'\n')) [
  | inl h ↦ rw (getline-cons_end c cs h) (ap (λ (x : ℕ). x ∷ cs) (sym (==→eq c b'\n' h)))
  | inr h ↦ rw (first_line-cons c cs h, getline-cons c cs h) (ap (◌∷◌ c) (getline-append cs))
]

-- Without a line end, the line is all that is left.
getline_last : (s : Bytes) → (getline s).2 ≡ false → (getline s).0 ≡ s
unfolding getline
getline_last [] h = refl
getline_last (c ∷ cs) h = ground (arith, getline_last cs)

line_from_lem :
    (s : Bytes) (offset size : ℕ)
    → size ≡ offset + length s
    → line_from s offset size ≡ (first_line s, offset + length (first_line s))
unfolding line_from
line_from_lem s offset size e = elim (Bool-cases (getline s).2) [
  | inl h ↦ rw h (
      ap (λ (n : ℕ). ((getline s).0 ++ b'\n' ∷ [], n))
        (omega (arith, length-append (getline s).0 (b'\n' ∷ []))))
  | inr h ↦ rw h (
      ap (λ (n : ℕ). ((getline s).0, n))
        (e ∙ ap (λ (t : Bytes). offset + length t) (sym (getline_last s h))))
]

pub lines-first :
    (s : Bytes) {l : Bytes} {ls : List Bytes}
    → lines s ≡ l ∷ ls
    → (first_line s ≡ l) × (lines (getline s).1 ≡ ls)
lines-first [] e = cc
lines-first (c ∷ cs) e = (cc (getline-lines c cs), cc (getline-lines c cs))

pub drop-first_line : (s : Bytes) → drop (length (first_line s)) s ≡ (getline s).1
drop-first_line s =
    ap (drop (length (first_line s))) (sym (getline-append s)) ∙ drop-append (first_line s) _

pub next_line_lem :
    (s : Bytes) (offset size : ℕ) {l : Bytes} {ls : List Bytes}
    → size ≡ offset + length s
    → lines s ≡ l ∷ ls
    → (next_line s offset size ≡ some (l, offset + length l)) × (lines (drop (length l) s) ≡ ls)
next_line_lem [] offset size e h = cc
next_line_lem (c ∷ cs) offset size {l} e h =
    let (p, q) = lines-first (c ∷ cs) h in
    (
      ap some (line_from_lem (c ∷ cs) offset size e ∙ ap (λ (t : Bytes). (t, offset + length t)) p),
      ap (λ (t : Bytes). lines (drop (length t) (c ∷ cs))) (sym p)
          ∙ ap lines (drop-first_line (c ∷ cs))
          ∙ q,
    )
