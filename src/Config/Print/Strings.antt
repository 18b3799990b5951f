-- ===== src/Config/Print/Strings.antt =====
-- A printed string is read back by parse_string of config.cpp.
use link_scheduling.Prelude.{
  ℕ, zero, suc, ◌≤◌, ◌<◌, ◌≡◌, refl, ◌∙◌, inl, inr, true, false, [], ◌∷◌, ◌++◌, append-nil,
  append_assoc, ltb, ◌==◌, length, length-append, Bool-cases, ==→eq, arith,
}
use link_scheduling.Prelude.Text.{Bytes}
use link_scheduling.Config.Outcome.{ok}
use link_scheduling.Config.Number.{skip_ws}
use link_scheduling.Config.Parser.{read_escape, read_chars, parse_string}
use link_scheduling.Config.Print.{print_char, print_chars, print_string, is_printable, IsText}

plain-ltb :
    (c : ℕ)
    → is_printable c ≡ true
    → (c == 8) ≡ false
    → (c == 12) ≡ false
    → (c == 10) ≡ false
    → (c == 13) ≡ false
    → (c == 9) ≡ false
    → ltb c 32 ≡ false
plain-ltb c h e8 e12 e10 e13 e9 = ground arith

print_char-pos : (c : ℕ) → 1 ≤ length (print_char c)
print_char-pos c = ground arith

-- One character is one turn of the loop.
read_chars-char :
    (f : ℕ) (text : Bytes) (c : ℕ) (s : Bytes)
    → is_printable c ≡ true
    → read_chars (suc f) text (print_char c ++ s) ≡ read_chars f (text ++ c ∷ []) s
unfolding read_chars read_escape
read_chars-char f text c s h = elim (Bool-cases (c == b'"')) [
  | inl e ↦ rw (==→eq c b'"' e) refl
  | inr q ↦ elim (Bool-cases (c == b'\\')) [
    | inl e ↦ rw (==→eq c b'\\' e) refl
    | inr b ↦ elim (Bool-cases (c == 8)) [
      | inl e ↦ rw (==→eq c 8 e) refl
      | inr e8 ↦ elim (Bool-cases (c == 12)) [
        | inl e ↦ rw (==→eq c 12 e) refl
        | inr e12 ↦ elim (Bool-cases (c == 10)) [
          | inl e ↦ rw (==→eq c 10 e) refl
          | inr e10 ↦ elim (Bool-cases (c == 13)) [
            | inl e ↦ rw (==→eq c 13 e) refl
            | inr e13 ↦ elim (Bool-cases (c == 9)) [
              | inl e ↦ rw (==→eq c 9 e) refl
              | inr e9 ↦
                  let l : ltb c 32 ≡ false = plain-ltb c h e8 e12 e10 e13 e9 in
                  rw (q, b, e8, e12, e10, e13, e9, q, b, l) refl
            ]
          ]
        ]
      ]
    ]
  ]
]

read_chars-print :
    (f : ℕ) (text s rest : Bytes)
    → IsText s
    → length (print_chars s) < f
    → read_chars f text (print_chars s ++ b'"' ∷ rest) ≡ ok (text ++ s, rest)
unfolding read_chars
read_chars-print zero text s rest h k = absurd (omega arith)
read_chars-print (suc f) text [] rest h k = rw (append-nil text) refl
read_chars-print (suc f) text (c ∷ s) rest (h, hs) k =
    rw (append_assoc (print_char c) (print_chars s) (b'"' ∷ rest)) (
      read_chars-char f text c (print_chars s ++ b'"' ∷ rest) h
      ∙ (read_chars-print f (text ++ c ∷ []) s rest hs
            (omega (arith, print_char-pos c, length-append (print_char c) (print_chars s)))
          ∙ rw (append_assoc text (c ∷ []) s) refl))

pub parse_string-print :
    (s rest : Bytes) → IsText s → parse_string (print_string s ++ rest) ≡ ok (s, rest)
unfolding parse_string print_string skip_ws
parse_string-print s rest h = rw (append_assoc (print_chars s) (b'"' ∷ []) rest) (
    read_chars-print (suc (length (print_chars s ++ b'"' ∷ rest))) [] s rest h
      (omega (arith, length-append (print_chars s) (b'"' ∷ rest))))
