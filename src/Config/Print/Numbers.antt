-- ===== src/Config/Print/Numbers.antt =====
-- A printed integer is read back by parse_number of config.cpp.
use mathlib.Core.Path.{subst}
use link_scheduling.Prelude.{
  ℕ, zero, suc, ◌+◌, ◌-◌, ◌/◌, ◌%◌, ◌^◌, ◌≤◌, ◌<◌, ◌≡◌, ◌≢◌, refl, inl, inr, true, false, ◌||◌,
  some, [], ◌∷◌, ◌++◌, append-nil, ltb, leb, ◌==◌, All, Bool-cases, ltb→lt, ltb→le, lt→ltb, arith,
}
use link_scheduling.Prelude.Text.{Bytes}
use link_scheduling.Prelude.Decimal.{
  is_digit, decimal_onto, to_string, decimal_onto-ne-nil, to_string-digits, to_string-value,
}
use link_scheduling.Protocol.{is_space}
use link_scheduling.Config.Outcome.{ok}
use link_scheduling.Config.Json.{integer}
use link_scheduling.Config.Number.{
  skip_ws, starts, read_digits, some_digits, read_sign, whole_part, fraction_part, exponent_part,
  stoll, number_value, number_here, parse_number,
}
use link_scheduling.Config.Print.{print_integer}

-- What may stand behind a value: nothing, or what separates it from the next.
abbrev pub Ends : Bytes → Type 0
Ends [] = Unit
Ends (c ∷ s) = (c == b',' || c == b'}' || c == b']') ≡ true

-- A text that does not go on with a digit.
abbrev pub NotDigit : Bytes → Type 0
NotDigit [] = Unit
NotDigit (c ∷ s) = is_digit c ≡ false

Ends-NotDigit : (s : Bytes) → Ends s → NotDigit s
Ends-NotDigit [] e = tt
Ends-NotDigit (c ∷ s) e = ground arith

pub read_digits-append :
    (ds rest : Bytes)
    → All (λ c. is_digit c ≡ true) ds
    → NotDigit rest
    → read_digits (ds ++ rest) ≡ (ds, rest)
unfolding read_digits
read_digits-append [] [] h e = refl
read_digits-append [] (c ∷ s) h e = rw e refl
read_digits-append (c ∷ ds) rest (h, hs) e = rw (h, read_digits-append ds rest hs e) refl

-- A positive number has no zero in front.
decimal_onto-lead :
    (fuel n : ℕ) (later : Bytes)
    → n < fuel
    → 0 < n
    → starts b'0' (decimal_onto fuel n later) ≡ false
unfolding decimal_onto
decimal_onto-lead zero n later h p = absurd (omega arith)
decimal_onto-lead (suc fuel) n later h p = elim (Bool-cases (ltb n 10)) [
  | inl small ↦ rw small (ground arith)
  | inr large ↦
      let big : 10 ≤ n = ltb→le n 10 large in
      rw large
        (decimal_onto-lead fuel (n / 10) ((b'0' + n % 10) ∷ later) (omega arith) (omega arith))
]

-- A number with no zero in front, of digits only.
whole_part-digits :
    (ds rest : Bytes)
    → ds ≢ []
    → All (λ c. is_digit c ≡ true) ds
    → starts b'0' ds ≡ false
    → Ends rest
    → whole_part (ds ++ rest) ≡ ok (ds, rest)
unfolding whole_part some_digits
whole_part-digits [] rest n h z e = absurd (n refl)
whole_part-digits (c ∷ ds) rest n (h, hs) z e =
    rw (z, h, read_digits-append ds rest hs (Ends-NotDigit rest e)) refl

to_string-Ends :
    (n : ℕ) (rest : Bytes) → Ends rest → whole_part (to_string n ++ rest) ≡ ok (to_string n, rest)
unfolding to_string decimal_onto whole_part
to_string-Ends zero rest e = refl
to_string-Ends (suc n) rest e =
    whole_part-digits (to_string (suc n)) rest (decimal_onto-ne-nil (suc n) (suc n) [])
      (to_string-digits (suc n))
      (decimal_onto-lead (suc (suc n)) (suc n) [] (omega arith) (omega arith)) e

fraction_part-Ends : (rest : Bytes) → Ends rest → fraction_part rest ≡ ok ([], rest)
unfolding fraction_part
fraction_part-Ends [] e = refl
fraction_part-Ends (c ∷ s) e = let d : (c == b'.') ≡ false = ground arith in rw d refl

exponent_part-Ends : (rest : Bytes) → Ends rest → exponent_part rest ≡ ok ([], rest)
unfolding exponent_part
exponent_part-Ends [] e = refl
exponent_part-Ends (c ∷ s) e = let d : (c == b'e' || c == b'E') ≡ false = ground arith in rw d refl

-- Digits are neither white space nor a sign.
skip_ws-digits :
    (ds rest : Bytes)
    → ds ≢ []
    → All (λ c. is_digit c ≡ true) ds
    → skip_ws (ds ++ rest) ≡ ds ++ rest
unfolding skip_ws
skip_ws-digits [] rest n h = absurd (n refl)
skip_ws-digits (c ∷ ds) rest n (h, hs) = let d : is_space c ≡ false = ground arith in rw d refl

starts-digits :
    (ds rest : Bytes) → ds ≢ [] → All (λ c. is_digit c ≡ true) ds → starts b'-' (ds ++ rest) ≡ false
starts-digits [] rest n h = absurd (n refl)
starts-digits (c ∷ ds) rest n (h, hs) = ground arith

pub to_string-ne-nil : (n : ℕ) → to_string n ≢ []
unfolding to_string
to_string-ne-nil n = decimal_onto-ne-nil n n []

stoll-plus : (n : ℕ) → n < 2 ^ 63 → stoll (to_string n) ≡ some n
unfolding stoll
stoll-plus n h =
    let s : starts b'-' (to_string n) ≡ false =
      subst (λ t. starts b'-' t ≡ false) (append-nil (to_string n))
        (starts-digits (to_string n) [] (to_string-ne-nil n) (to_string-digits n)) in
    rw (s, to_string-value n, lt→ltb n (2 ^ 63) h) refl

stoll-minus : (n : ℕ) → n ≤ 2 ^ 63 → stoll (b'-' ∷ to_string n) ≡ some ((2 ^ 64 - n) % 2 ^ 64)
unfolding stoll
stoll-minus n h = let l : leb n (2 ^ 63) ≡ true = ground arith in rw (to_string-value n, l) refl

-- An integer as it stands behind its sign.
pub parse_number-print :
    (w : ℕ) (rest : Bytes)
    → w < 2 ^ 64
    → Ends rest
    → parse_number (print_integer w ++ rest) ≡ ok (integer w, rest)
unfolding parse_number number_here read_sign number_value print_integer
parse_number-print w rest h e = elim (Bool-cases (ltb w (2 ^ 63))) [
  | inl small ↦
      let n = to_string-ne-nil w in
      let d = to_string-digits w in
      rw
        (
          small,
          skip_ws-digits (to_string w) rest n d,
          starts-digits (to_string w) rest n d,
          to_string-Ends w rest e,
          fraction_part-Ends rest e,
          exponent_part-Ends rest e,
          stoll-plus w (ltb→lt w (2 ^ 63) small),
        )
        refl
  | inr large ↦
      let m : ℕ = 2 ^ 64 - w in
      let l : 2 ^ 63 ≤ w = ltb→le w (2 ^ 63) large in
      let back : (2 ^ 64 - m) % 2 ^ 64 ≡ w = omega arith in
      rw
        (
          large,
          to_string-Ends m rest e,
          fraction_part-Ends rest e,
          exponent_part-Ends rest e,
          stoll-minus m (omega arith),
          back,
        )
        refl
]
