-- ===== src/Protocol/Tokens.antt =====
-- The words that `iss >> token` takes from a line (protocol.cpp).
use link_scheduling.Prelude.{
  ℕ, ◌≡◌, ◌≢◌, refl, sym, ap, ◌∙◌, true, false, none, some, [], ◌∷◌, ◌++◌, arith, All, append-nil,
}
use link_scheduling.Prelude.Text.{Bytes}
use link_scheduling.Prelude.Decimal.{is_digit}
use link_scheduling.Protocol.{strip_line_end, is_space, skip_space, read_word, extract, all_digits}

abbrev pub NoSpace : Bytes → Type 0
NoSpace = All (λ c. is_space c ≡ false)

-- A word: one character at least, and no space.
pub record IsWord (w : Bytes) : Type 0 where
  pub some_char : w ≢ []
  pub no_space : NoSpace w

-- A word ends in front of such a text.
abbrev pub StartsWithSpace : Bytes → Type 0
StartsWithSpace [] = Unit
StartsWithSpace (c ∷ cs) = is_space c ≡ true

read_word-append :
    (w rest : Bytes) → NoSpace w → StartsWithSpace rest → read_word (w ++ rest) ≡ (w, rest)
unfolding read_word
read_word-append [] [] h k = refl
read_word-append [] (c ∷ cs) h k = rw k refl
read_word-append (c ∷ w) rest h k = rw (h.0, read_word-append w rest h.1 k) refl

skip_space-word : (c : ℕ) (cs : Bytes) → is_space c ≡ false → skip_space (c ∷ cs) ≡ c ∷ cs
unfolding skip_space
skip_space-word c cs h = rw h refl

skip_space-space : (cs : Bytes) → skip_space (b' ' ∷ cs) ≡ skip_space cs
unfolding skip_space
skip_space-space cs = refl

-- A word at the start of the stream is what the stream gives next.
pub extract-word :
    (w rest : Bytes) → IsWord w → StartsWithSpace rest → extract (w ++ rest) ≡ some (w, rest)
unfolding extract
extract-word [] rest h k = absurd (h.some_char refl)
extract-word (c ∷ w) rest h k =
    rw (skip_space-word c (w ++ rest) h.no_space.0)
      (ap some (read_word-append (c ∷ w) rest h.no_space k))

-- So it is behind one space.
pub extract-space-word :
    (w rest : Bytes)
    → IsWord w
    → StartsWithSpace rest
    → extract (b' ' ∷ (w ++ rest)) ≡ some (w, rest)
extract-space-word w rest h k = skips ∙ extract-word w rest h k
  where
    skips : extract (b' ' ∷ (w ++ rest)) ≡ extract (w ++ rest)
    skips = unfold extract skip_space in refl

-- And at the end of the line.
pub extract-last_word : (w : Bytes) → IsWord w → extract (b' ' ∷ w) ≡ some (w, [])
extract-last_word w h =
    ap (λ (t : Bytes). extract (b' ' ∷ t)) (sym (append-nil w)) ∙ extract-space-word w [] h tt

pub extract-nil : extract [] ≡ none
unfolding extract
extract-nil = refl

strip_line_end-cons :
    (c : ℕ) (s : Bytes) → strip_line_end s ≢ [] → strip_line_end (c ∷ s) ≡ c ∷ strip_line_end s
unfolding strip_line_end
strip_line_end-cons c s h = ground arith

strip_line_end-ne : (w : Bytes) → IsWord w → strip_line_end (w ++ b'\n' ∷ []) ≡ w
unfolding strip_line_end
strip_line_end-ne [] h = absurd (h.some_char refl)
strip_line_end-ne (c ∷ []) h = ground (arith, h.no_space.0)
strip_line_end-ne (c ∷ d ∷ w) h =
    let rest =
      strip_line_end-ne (d ∷ w) (record { some_char = λ e. cc; no_space = h.no_space.1 }) in
    rw rest (ground arith)

append-ne-nil : (s w : Bytes) → w ≢ [] → s ++ w ≢ []
append-ne-nil [] w h = h
append-ne-nil (c ∷ s) w h = λ e. cc

-- The line end goes, and nothing else, where a word stands in front of it.
pub strip_line_end-word :
    (s w : Bytes) → IsWord w → strip_line_end (s ++ (w ++ b'\n' ∷ [])) ≡ s ++ w
strip_line_end-word [] w h = strip_line_end-ne w h
strip_line_end-word (c ∷ s) w h =
    let ih = strip_line_end-word s w h in
    strip_line_end-cons c _ (λ e. append-ne-nil s w h.some_char (sym ih ∙ e)) ∙ ap (◌∷◌ c) ih

digits-NoSpace : (s : Bytes) → All (λ c. is_digit c ≡ true) s → NoSpace s
digits-NoSpace [] h = tt
digits-NoSpace (c ∷ cs) h = (ground (arith, h.0), digits-NoSpace cs h.1)

pub digits-all_digits : (s : Bytes) → All (λ c. is_digit c ≡ true) s → all_digits s ≡ true
digits-all_digits [] h = refl
digits-all_digits (c ∷ cs) h = ground (arith, h.0, digits-all_digits cs h.1)

pub digits-IsWord : (s : Bytes) → s ≢ [] → All (λ c. is_digit c ≡ true) s → IsWord s
digits-IsWord s n h = record { some_char = n; no_space = digits-NoSpace s h }
