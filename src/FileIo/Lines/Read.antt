-- ===== src/FileIo/Lines/Read.antt =====
-- read_file_line against the lines of a file (file_io.cpp).
use link_scheduling.Prelude.{
  ℕ, ◌+◌, ◌^◌, ◌≤◌, ◌<◌, ◌≡◌, ◌⊎◌, refl, sym, ap, ◌∙◌, inl, inr, false, none, some, List, [], ◌∷◌,
  arith, ◌==◌, length, drop, Bool-cases, lt→ltb, length-append, drop-drop, length-drop,
}
use link_scheduling.Prelude.Text.{Bytes}
use link_scheduling.World.{World}
use link_scheduling.FileIo.{
  getline, next_line, read_file_line, open_input, get_file_size, size_or_zero,
}
use link_scheduling.FileIo.Lines.{
  getline-cons_end, first_line-cons, first_line, lines-first, getline-lines, next_line_lem, lines,
  getline-append,
}

-- A file that can be read through an input stream.
pub record Holds (w : World) (path content : Bytes) : Type 0 where
  pub opens : w.unreadable path ≡ false
  pub stored : w.files path ≡ some content
  pub seekable : length content < 2 ^ 63

pub open_input-Holds :
    {w : World} {path content : Bytes} → Holds w path content → open_input w path ≡ some content
unfolding open_input
open_input-Holds h = rw h.opens h.stored

pub get_file_size-Holds :
    {w : World} {path content : Bytes}
    → Holds w path content
    → get_file_size w path ≡ length content
unfolding get_file_size
get_file_size-Holds {w} {path} h = ap size_or_zero h.stored

pub within :
    {w : World} {path content : Bytes} {offset : ℕ}
    → Holds w path content
    → offset ≤ length content
    → offset < 2 ^ 63
within h k = omega arith

pub read_file_line-next_line :
    {w : World} {path content : Bytes} (offset : ℕ)
    → Holds w path content
    → offset ≤ length content
    → read_file_line w path offset ≡ next_line (drop offset content) offset (length content)
unfolding read_file_line
read_file_line-next_line {w} {path} {content} offset h k =
    rw (h.opens, read_file_line)
      (rw (h.stored, lt→ltb offset (2 ^ 63) (within h k))
        (ap (λ (n : ℕ). next_line (drop offset content) offset n) (get_file_size-Holds h)))

lines-nil : (s : Bytes) → lines s ≡ [] → s ≡ []
lines-nil [] e = refl
lines-nil (c ∷ cs) e = cc (getline-lines c cs)

rest_size :
    (offset : ℕ) (content : Bytes)
    → offset ≤ length content
    → length content ≡ offset + length (drop offset content)
rest_size offset content h = omega (arith, length-drop offset content)

-- Where a line `l` stands at the offset, with the lines `ls` behind it.
pub record Reads (w : World) (path content : Bytes) (offset : ℕ) (l : Bytes) (ls : List Bytes)
    : Type 0 where
  pub reads : read_file_line w path offset ≡ some (l, offset + length l)
  pub later : lines (drop (offset + length l) content) ≡ ls
  pub inside : offset + length l ≤ length content
  pub some_byte : 0 < length l

first_line-pos : (c : ℕ) (cs : Bytes) → 0 < length (first_line (c ∷ cs))
first_line-pos c cs = elim (Bool-cases (c == b'\n')) [
  | inl h ↦ rw (getline-cons_end c cs h) (omega arith)
  | inr h ↦ rw (first_line-cons c cs h) (omega arith)
]

lines-size :
    (s : Bytes) {l : Bytes} {ls : List Bytes}
    → lines s ≡ l ∷ ls
    → (0 < length l) × (length l ≤ length s)
lines-size [] e = cc
lines-size (c ∷ cs) {l} e =
    let p : first_line (c ∷ cs) ≡ l = (lines-first (c ∷ cs) e).0 in
    let n : length (first_line (c ∷ cs)) ≡ length l = ap length p in
    (
      omega (arith, first_line-pos c cs),
      omega (
        arith,
        ap length (getline-append (c ∷ cs)),
        length-append (first_line (c ∷ cs)) (getline (c ∷ cs)).1,
      ),
    )

module _ {w : World} {path content : Bytes} (h : Holds w path content) (offset : ℕ) where
  pub read_file_line-cons :
      {l : Bytes} {ls : List Bytes}
      → offset ≤ length content
      → lines (drop offset content) ≡ l ∷ ls
      → Reads w path content offset l ls
  read_file_line-cons {l} k e =
      let (p, q) =
        next_line_lem (drop offset content) offset (length content) (rest_size offset content k)
          e in
      let (pos, small) = lines-size (drop offset content) e in
      record {
        reads = read_file_line-next_line offset h k ∙ p;
        later = ap lines (sym (drop-drop offset (length l) content)) ∙ q;
        inside = omega (arith, length-drop offset content);
        some_byte = pos;
      }

  pub read_file_line-nil :
      offset ≤ length content
      → lines (drop offset content) ≡ []
      → read_file_line w path offset ≡ none
  read_file_line-nil k e =
      read_file_line-next_line offset h k
      ∙ ap (λ (t : Bytes). next_line t offset (length content)) (lines-nil _ e)

-- At any offset within a file, read_file_line returns the first line of the rest, moves the offset
-- behind it, where the other lines are left, and fails exactly where nothing is left.
pub read_file_line-lines :
    (w : World) (path content : Bytes) (offset : ℕ)
    → Holds w path content
    → offset ≤ length content
    → ((lines (drop offset content) ≡ []) × (read_file_line w path offset ≡ none))
      ⊎ ((l : Bytes) × (ls : List Bytes) × (lines (drop offset content) ≡ l ∷ ls)
          × (read_file_line w path offset ≡ some (l, offset + length l))
          × (lines (drop (offset + length l) content) ≡ ls))
read_file_line-lines w path content offset h k = by_lines (lines (drop offset content)) refl
  where
    by_lines :
        (ls : List Bytes)
        → lines (drop offset content) ≡ ls
        → ((lines (drop offset content) ≡ []) × (read_file_line w path offset ≡ none))
          ⊎ ((l : Bytes) × (ls : List Bytes) × (lines (drop offset content) ≡ l ∷ ls)
              × (read_file_line w path offset ≡ some (l, offset + length l))
              × (lines (drop (offset + length l) content) ≡ ls))
    by_lines [] e = inl (e, read_file_line-nil h offset k e)
    by_lines (l ∷ ls) e =
        let r = read_file_line-cons h offset k e in inr (l, ls, e, r.reads, r.later)
