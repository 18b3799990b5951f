-- ===== src/Config/Fuel/Strings.antt =====
-- config.cpp: consume, peek, strings and the literals take at least a byte of the text where they
-- succeed.
use link_scheduling.Prelude.{
  ℕ, zero, suc, ◌-◌, ◌≤◌, ◌<◌, true, false, ◌||◌, ◌==◌, [], ◌∷◌, ltb, inl, inr, ◌≡◌, if◌then◌else◌,
  length, take, drop, length-drop, Bool-cases, arith,
}
use link_scheduling.Prelude.Text.{Bytes, codes, eq_bytes}
use link_scheduling.Config.Outcome.{
  ok, fail, Parser, Leaves, left, thrown, Leaves-if, Leaves-weaken,
}
use link_scheduling.Config.Json.{Json, boolean, null}
use link_scheduling.Config.Number.{skip_ws, starts}
use link_scheduling.Config.Parser.{
  first_or_fail, consume, expect, peek, read_escape, read_chars, parse_string, parse_bool,
  parse_null,
}
use link_scheduling.Config.Fuel.Numbers.{length-skip_ws, length-drop-starts}

pub consume-found :
    (c : ℕ) (s : Bytes) → (consume c s).0 ≡ true → length (consume c s).1 ≤ length s - 1
unfolding consume
consume-found c s h = elim (Bool-cases (starts c (skip_ws s))) [
  | inl e ↦ rw e (omega (arith, length-drop-starts c (skip_ws s) e, length-skip_ws s))
  | inr e ↦ absurd (ground (arith, e, h))
]

pub consume-length : (c : ℕ) (s : Bytes) → length (consume c s).1 ≤ length s
unfolding consume
consume-length c s = elim (Bool-cases (starts c (skip_ws s))) [
  | inl e ↦ rw e (omega (arith, length-drop-starts c (skip_ws s) e, length-skip_ws s))
  | inr e ↦ rw e (length-skip_ws s)
]

pub expect-Leaves : (c : ℕ) (s : Bytes) → Leaves (length s - 1) (expect c s)
unfolding expect
expect-Leaves c s = Leaves-if (consume c s).0 (λ h. left (consume-found c s h)) (λ h. thrown)

pub peek-Leaves : (s : Bytes) → Leaves (length s) (peek s)
unfolding peek
peek-Leaves s = first (skip_ws s) (length-skip_ws s)
  where
    first : (s' : Bytes) → length s' ≤ length s → Leaves (length s) (first_or_fail s')
    first [] h = thrown
    first (c ∷ s') h = left h

-- A loop that leaves at most what it is given, on shorter texts.
abbrev pub LeavesBelow {ℓ} : {A : Type ℓ} → ℕ → Parser A → Type ℓ
LeavesBelow n p = (s : Bytes) → length s ≤ n → Leaves (length s) (p s)

read_escape-Leaves :
    (loop : Bytes → Parser Bytes) (text s : Bytes)
    → ((t : Bytes) → LeavesBelow (length s - 1) (loop t))
    → Leaves (length s) (read_escape loop text s)
unfolding read_escape
read_escape-Leaves loop text [] k = thrown
read_escape-Leaves loop text (e ∷ s) k =
    let next : (t : Bytes) → Leaves (suc (length s)) (loop t s) =
      λ t. Leaves-weaken (omega arith) (k t s (omega arith)) in
    Leaves-if (e == b'"' || (e == b'\\' || e == b'/')) (λ h. next _)
      λ h.
        Leaves-if (e == b'b') (λ h. next _)
          λ h.
            Leaves-if (e == b'f') (λ h. next _)
              λ h.
                Leaves-if (e == b'n') (λ h. next _)
                  λ h.
                    Leaves-if (e == b'r') (λ h. next _)
                      λ h.
                        Leaves-if (e == b't') (λ h. next _)
                          λ h.
                            Leaves-if (e == b'u')
                              (λ h.
                                Leaves-if (ltb (length s) 4) (λ l. thrown)
                                  (λ l.
                                    Leaves-weaken (omega (arith, length-drop 4 s))
                                      (k _ (drop 4 s) (omega (arith, length-drop 4 s)))))
                              (λ h. thrown)

read_chars-Leaves :
    (f : ℕ) (text s : Bytes) → length s < f → Leaves (length s) (read_chars f text s)
unfolding read_chars
read_chars-Leaves zero text s h = absurd (omega arith)
read_chars-Leaves (suc f) text [] h = thrown
read_chars-Leaves (suc f) text (c ∷ s) h =
    let again : (t : Bytes) → LeavesBelow (length s) (read_chars f t) =
      λ t s' k. read_chars-Leaves f t s' (omega arith) in
    Leaves-if (c == b'"') (λ e. left (omega arith))
      λ e.
        Leaves-if (c == b'\\')
          (λ e.
            Leaves-weaken (omega arith)
              (read_escape-Leaves (read_chars f) text s (λ t s' k. again t s' (omega arith))))
          λ e.
            Leaves-if (ltb c 32) (λ e. thrown)
              λ e. Leaves-weaken (omega arith) (again _ s (omega arith))

pub parse_string-Leaves : (s : Bytes) → Leaves (length s - 1) (parse_string s)
unfolding parse_string
parse_string-Leaves s = quoted (skip_ws s) (length-skip_ws s)
  where
    quoted :
        (s' : Bytes)
        → length s' ≤ length s
        → Leaves
            (length s - 1)
            (if starts b'"' s' then read_chars (length s') [] (drop 1 s') else fail)
    quoted [] h = thrown
    quoted (c ∷ s') h =
        Leaves-if (c == b'"')
          (λ e.
            Leaves-weaken (omega arith) (read_chars-Leaves (suc (length s')) [] s' (omega arith)))
          (λ e. thrown)

-- A literal of `n` bytes.
literal-Leaves :
    (n : ℕ) (word : Bytes) (v : Json) (s : Bytes)
    → Leaves
        (length s - 1)
        (if eq_bytes (take (suc n) s) word then ok (v, drop (suc n) s) else fail)
literal-Leaves n word v s =
    Leaves-if (eq_bytes (take (suc n) s) word) (λ e. left (omega (arith, length-drop (suc n) s)))
      (λ e. thrown)

pub parse_null-Leaves : (s : Bytes) → Leaves (length s - 1) (parse_null s)
unfolding parse_null
parse_null-Leaves s = literal-Leaves 3 (codes "null") null s

pub parse_bool-Leaves : (s : Bytes) → Leaves (length s - 1) (parse_bool s)
unfolding parse_bool
parse_bool-Leaves s =
    Leaves-if (eq_bytes (take 4 s) (codes "true")) (λ e. left (omega (arith, length-drop 4 s)))
      (λ e. literal-Leaves 4 (codes "false") (boolean false) s)
