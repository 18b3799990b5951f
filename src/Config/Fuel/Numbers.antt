-- ===== src/Config/Fuel/Numbers.antt =====
-- config.cpp: a number takes at least a byte of the text.
use link_scheduling.Prelude.{
  ◌&&◌, inl, inr, ℕ, ◌-◌, ◌≤◌, true, Option, none, some, [], ◌∷◌, ◌||◌, ◌==◌, length, drop,
  Bool-cases, arith, ◌≡◌,
}
use link_scheduling.Prelude.Text.{Bytes}
use link_scheduling.Prelude.Decimal.{is_digit}
use link_scheduling.Queue.{is_empty}
use link_scheduling.Protocol.{is_space}
use link_scheduling.Config.Outcome.{Leaves, left, thrown, Leaves-if, Leaves-then, Leaves-weaken}
use link_scheduling.Config.Json.{Json, integer, real}
use link_scheduling.Config.Number.{
  skip_ws, starts, read_digits, some_digits, read_sign, whole_part, fraction_part, exponent_sign,
  exponent_digits, exponent_part, or_fail, number_value, number_here, parse_number,
}

pub length-skip_ws : (s : Bytes) → length (skip_ws s) ≤ length s
unfolding skip_ws
length-skip_ws [] = omega arith
length-skip_ws (c ∷ s) = elim (Bool-cases (is_space c)) [
  | inl h ↦ rw h (omega (arith, length-skip_ws s))
  | inr h ↦ rw h (omega arith)
]

pub length-drop-starts : (c : ℕ) (s : Bytes) → starts c s ≡ true → length (drop 1 s) ≤ length s - 1
length-drop-starts c [] h = omega arith
length-drop-starts c (d ∷ s) h = omega arith

length-read_digits : (s : Bytes) → length (read_digits s).1 ≤ length s
unfolding read_digits
length-read_digits [] = omega arith
length-read_digits (c ∷ s) = elim (Bool-cases (is_digit c)) [
  | inl h ↦ rw h (omega (arith, length-read_digits s))
  | inr h ↦ rw h (omega arith)
]

some_digits-Leaves : (s : Bytes) → Leaves (length s - 1) (some_digits s)
unfolding some_digits read_digits
some_digits-Leaves [] = thrown
some_digits-Leaves (c ∷ s) = elim (Bool-cases (is_digit c)) [
  | inl h ↦ rw h (left (omega (arith, length-read_digits s)))
  | inr h ↦ rw h thrown
]

read_sign-Leaves : (s : Bytes) → Leaves (length s) (read_sign s)
unfolding read_sign
read_sign-Leaves s =
    Leaves-if (starts b'-' s) (λ h. left (omega (arith, length-drop-starts b'-' s h)))
      (λ h. left (omega arith))

whole_part-Leaves : (s : Bytes) → Leaves (length s - 1) (whole_part s)
unfolding whole_part
whole_part-Leaves s =
    Leaves-if (starts b'0' s) (λ h. left (length-drop-starts b'0' s h)) (λ h. some_digits-Leaves s)

fraction_part-Leaves : (s : Bytes) → Leaves (length s) (fraction_part s)
unfolding fraction_part
fraction_part-Leaves s =
    Leaves-if (starts b'.' s)
      (λ h.
        Leaves-then (some_digits-Leaves (drop 1 s))
          (λ d s' k. left (omega (arith, length-drop-starts b'.' s h))))
      (λ h. left (omega arith))

exponent_sign-Leaves : (s : Bytes) → Leaves (length s) (exponent_sign s)
unfolding exponent_sign
exponent_sign-Leaves [] = left (omega arith)
exponent_sign-Leaves (c ∷ s) =
    Leaves-if (c == b'+' || c == b'-') (λ h. left (omega arith)) (λ h. left (omega arith))

exponent_part-Leaves : (s : Bytes) → Leaves (length s) (exponent_part s)
unfolding exponent_part exponent_digits
exponent_part-Leaves [] = left (omega arith)
exponent_part-Leaves (c ∷ s) =
    Leaves-if (c == b'e' || c == b'E')
      (λ h.
        Leaves-then
          (Leaves-then (exponent_sign-Leaves s)
            (λ sign s' k. Leaves-then (some_digits-Leaves s') (λ d s'' l. left (omega arith))))
          (λ d s' k. left k))
      (λ h. left (omega arith))

or_fail-Leaves {ℓ} :
    {A : Type ℓ} (f : A → Json) (o : Option A) (s : Bytes) → Leaves (length s) (or_fail f o s)
or_fail-Leaves f none s = thrown
or_fail-Leaves f (some a) s = left (omega arith)

number_value-Leaves :
    (sign whole fraction exponent s : Bytes)
    → Leaves (length s) (number_value sign whole fraction exponent s)
unfolding number_value
number_value-Leaves sign whole fraction exponent s =
    elim (Bool-cases (is_empty fraction && is_empty exponent)) [
      | inl h ↦ rw h (or_fail-Leaves integer _ s)
      | inr h ↦ rw h (or_fail-Leaves real _ s)
    ]

pub parse_number-Leaves : (s : Bytes) → Leaves (length s - 1) (parse_number s)
unfolding parse_number number_here
parse_number-Leaves s = Leaves-then (read_sign-Leaves (skip_ws s)) λ sign s1 h1.
    Leaves-then (whole_part-Leaves s1) λ whole s2 h2.
      Leaves-then (fraction_part-Leaves s2) λ fraction s3 h3.
        Leaves-then (exponent_part-Leaves s3) λ exponent s4 h4.
          Leaves-weaken (omega (arith, length-skip_ws s))
            (number_value-Leaves sign whole fraction exponent s4)
