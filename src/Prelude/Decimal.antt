-- ===== src/Prelude/Decimal.antt =====
-- Decimal numerals: std::to_string on an unsigned value and on an int, and std::stoull on a text
-- of digits.
use Prim.Native.Nat.{ℕ, zero, suc, ◌+◌, ◌-◌, ◌*◌, ◌/◌, ◌%◌, ◌^◌, ◌≤◌, ◌<◌}
use mathlib.Core.Path.{◌≡◌, ◌∙◌, ap, refl}
use mathlib.Core.Logic.{◌≢◌, inl, inr}
use mathlib.Core.Bool.{Bool, true, ◌&&◌}
use mathlib.Core.Option.{Option, none, some}
use mathlib.Core.List.{[], ◌∷◌}
use native.Mathlib.Omega.{arith}
use link_scheduling.Prelude.Tests.{ltb, leb, if◌then◌else◌, Bool-cases, ltb→le, lt→ltb}
use link_scheduling.Prelude.Lists.{All, length}
use link_scheduling.Prelude.Words.{u64_mod}
use link_scheduling.Prelude.Text.{Bytes}

-- std::isdigit.
abbrev pub is_digit : ℕ → Bool
is_digit c = leb b'0' c && leb c b'9'

-- The digits of `n` in front of `later`; a number has at most as many digits as its successor.
unfoldable pub decimal_onto : ℕ → ℕ → Bytes → Bytes
decimal_onto zero n later = later
decimal_onto (suc fuel) n later =
    let more = decimal_onto fuel (n / 10) ((b'0' + n % 10) ∷ later) in
    if ltb n 10 then (b'0' + n) ∷ later else more

-- std::to_string on an unsigned number.
unfoldable pub to_string : ℕ → Bytes
unfolding decimal_onto
to_string n = decimal_onto (suc n) n []

-- std::to_string on an int, given as its bit pattern.
unfoldable pub to_string_int : ℕ → Bytes
unfolding to_string
to_string_int w = if ltb w (2 ^ 31) then to_string w else b'-' ∷ to_string (2 ^ 32 - w)

-- The number that digits stand for, behind `n`.
unfoldable pub digits_value : ℕ → Bytes → ℕ
digits_value n [] = n
digits_value n (c ∷ cs) = digits_value (n * 10 + (c - b'0')) cs

-- std::stoull on a text of digits; `none` is std::out_of_range.
unfoldable pub stoull : Bytes → Option ℕ
unfolding digits_value
stoull s = if ltb (digits_value 0 s) u64_mod then some (digits_value 0 s) else none

decimal_onto-value :
    (fuel n : ℕ) (later : Bytes)
    → n < fuel
    → digits_value 0 (decimal_onto fuel n later) ≡ digits_value n later
unfolding decimal_onto digits_value
decimal_onto-value zero n later h = absurd (omega arith)
decimal_onto-value (suc fuel) n later h = elim (Bool-cases (ltb n 10)) [
  | inl small ↦ rw small (ap (λ (k : ℕ). digits_value k later) (omega arith))
  | inr large ↦
      let big : 10 ≤ n = ltb→le n 10 large in
      rw large (
        decimal_onto-value fuel (n / 10) ((b'0' + n % 10) ∷ later) (omega arith)
        ∙ ap (λ (k : ℕ). digits_value k later) (omega arith))
]

decimal_onto-digits :
    (fuel n : ℕ) (later : Bytes)
    → All (λ c. is_digit c ≡ true) later
    → All (λ c. is_digit c ≡ true) (decimal_onto fuel n later)
unfolding decimal_onto
decimal_onto-digits zero n later h = h
decimal_onto-digits (suc fuel) n later h = elim (Bool-cases (ltb n 10)) [
  | inl small ↦ rw small (ground arith, h)
  | inr large ↦ rw large (decimal_onto-digits fuel (n / 10) _ (ground arith, h))
]

-- There is a digit at least.
pub decimal_onto-ne-nil : (fuel n : ℕ) (later : Bytes) → decimal_onto (suc fuel) n later ≢ []
unfolding decimal_onto
decimal_onto-ne-nil zero n later = ground arith
decimal_onto-ne-nil (suc fuel) n later = elim (Bool-cases (ltb n 10)) [
  | inl small ↦ rw small (λ e. cc)
  | inr large ↦ rw large (decimal_onto-ne-nil fuel (n / 10) _)
]

-- A number is written in digits only.
pub to_string-digits : (n : ℕ) → All (λ c. is_digit c ≡ true) (to_string n)
unfolding to_string
to_string-digits n = decimal_onto-digits (suc n) n [] tt

pub to_string-value : (n : ℕ) → digits_value 0 (to_string n) ≡ n
unfolding to_string digits_value
to_string-value n = decimal_onto-value (suc n) n [] (omega arith)

-- Reading what was written gives the number back, if it fits 64 bits.
pub stoull-to_string : (n : ℕ) → n < u64_mod → stoull (to_string n) ≡ some n
unfolding stoull
stoull-to_string n h = rw (to_string-value n, lt→ltb n u64_mod h) refl

-- A number below `10 ^ d` has at most `d` digits, and one at least.
decimal_onto-length :
    (fuel n d : ℕ) (later : Bytes)
    → n < 10 ^ suc d
    → length (decimal_onto fuel n later) ≤ suc d + length later
unfolding decimal_onto
decimal_onto-length zero n d later h = omega arith
decimal_onto-length (suc fuel) n zero later h = rw (lt→ltb n 10 (omega (arith, h))) (omega arith)
decimal_onto-length (suc fuel) n (suc d) later h = elim (Bool-cases (ltb n 10)) [
  | inl small ↦ rw small (omega arith)
  | inr large ↦
      let tenth : n / 10 < 10 ^ suc d = omega (arith, h) in
      rw large (omega (arith, decimal_onto-length fuel (n / 10) d ((b'0' + n % 10) ∷ later) tenth))
]

-- A 64-bit number has at most twenty digits.
pub to_string-length : (n : ℕ) → n < u64_mod → length (to_string n) ≤ 20
unfolding to_string
to_string-length n h =
    let few : n < 10 ^ suc 19 = omega (arith, h) in
    omega (arith, decimal_onto-length (suc n) n 19 [] few)
