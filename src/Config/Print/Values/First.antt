-- ===== src/Config/Print/Values/First.antt =====
-- How the text of a value begins, and what consume and peek of config.cpp make of it.
use mathlib.Core.Path.{subst}
use link_scheduling.Prelude.{
  ◌≡◌, ◌≢◌, refl, ℕ, ◌^◌, ◌||◌, ◌==◌, inl, inr, true, false, [], ◌∷◌, ◌++◌, ltb, append-nil, All,
  Bool-cases, arith,
}
use link_scheduling.Prelude.Text.{Bytes}
use link_scheduling.Prelude.Decimal.{is_digit, to_string, to_string-digits}
use link_scheduling.Protocol.{is_space}
use link_scheduling.Config.Outcome.{ok}
use link_scheduling.Config.Json.{
  Json, null, boolean, integer, real, str, object, array, no_items, item, no_fields, field,
}
use link_scheduling.Config.Number.{skip_ws, parse_number}
use link_scheduling.Config.Parser.{consume, peek, expect_quote, value_by}
use link_scheduling.Config.Outcome.{Parser}
use link_scheduling.Config.Print.{print, print_string, print_integer, IsPlain}
use link_scheduling.Config.Print.Numbers.{to_string-ne-nil}

-- The first byte of a number.
abbrev pub FirstOfNumber : Bytes → Type 0
FirstOfNumber [] = ⊥
FirstOfNumber (c ∷ s) = (c == b'-' || is_digit c) ≡ true

first_of_digits :
    (ds rest : Bytes) → ds ≢ [] → All (λ c. is_digit c ≡ true) ds → FirstOfNumber (ds ++ rest)
first_of_digits [] rest n h = absurd (n refl)
first_of_digits (c ∷ ds) rest n (h, hs) = ground arith

pub print_integer-FirstOfNumber : (w : ℕ) (rest : Bytes) → FirstOfNumber (print_integer w ++ rest)
unfolding print_integer
print_integer-FirstOfNumber w rest = elim (Bool-cases (ltb w (2 ^ 63))) [
  | inl e ↦ rw e (first_of_digits (to_string w) rest (to_string-ne-nil w) (to_string-digits w))
  | inr e ↦ rw e refl
]

-- No bracket closes where a number begins.
not-closed : (s : Bytes) → FirstOfNumber s → consume b']' s ≡ (false, s)
unfolding consume skip_ws
not-closed [] h = elim h [ ]
not-closed (c ∷ s) h =
    let d : is_space c ≡ false = ground arith in
    let e : (c == b']') ≡ false = ground arith in rw (d, e) refl

-- parse_value takes what begins like a number for one.
pub number_first :
    (s : Bytes) (objects arrays : Parser Json)
    → FirstOfNumber s
    → (c : ℕ) × (peek s ≡ ok (c, s)) × (value_by objects arrays c s ≡ parse_number s)
unfolding peek skip_ws value_by
number_first [] objects arrays h = elim h [ ]
number_first (c ∷ s) objects arrays h =
    let d : is_space c ≡ false = ground arith in
    let e1 : (c == b'{') ≡ false = ground arith in
    let e2 : (c == b'[') ≡ false = ground arith in
    let e3 : (c == b'"') ≡ false = ground arith in
    let e4 : (c == b't' || c == b'f') ≡ false = ground arith in
    let e5 : (c == b'n') ≡ false = ground arith in (c, rw d refl, rw (e1, e2, e3, e4, e5, h) refl)

-- No array ends where a value begins.
pub print-not_closed :
    (v : Json) (rest : Bytes)
    → IsPlain v
    → consume b']' (print v ++ rest) ≡ (false, print v ++ rest)
unfolding consume skip_ws print print_string
print-not_closed null rest h = refl
print-not_closed (boolean true) rest h = refl
print-not_closed (boolean false) rest h = refl
print-not_closed (integer w) rest h =
    not-closed (print_integer w ++ rest) (print_integer-FirstOfNumber w rest)
print-not_closed (real token) rest h = elim h [ ]
print-not_closed (str s) rest h = refl
print-not_closed (object no_fields) rest h = refl
print-not_closed (object (field k v fs)) rest h = refl
print-not_closed (array no_items) rest h = refl
print-not_closed (array (item v xs)) rest h = refl

pub expect_quote-print :
    (k rest : Bytes) → expect_quote (print_string k ++ rest) ≡ ok (tt, print_string k ++ rest)
unfolding expect_quote peek skip_ws print_string
expect_quote-print k rest = refl

pub print_string-not_closed :
    (k rest : Bytes) → consume b'}' (print_string k ++ rest) ≡ (false, print_string k ++ rest)
unfolding consume skip_ws print_string
print_string-not_closed k rest = refl

skip_ws-number : (s : Bytes) → FirstOfNumber s → skip_ws s ≡ s
unfolding skip_ws
skip_ws-number [] h = elim h [ ]
skip_ws-number (c ∷ s) h = let d : is_space c ≡ false = ground arith in rw d refl

-- No white space stands before a printed value.
pub skip_ws-print : (v : Json) → IsPlain v → skip_ws (print v) ≡ print v
unfolding skip_ws print print_string
skip_ws-print null h = refl
skip_ws-print (boolean true) h = refl
skip_ws-print (boolean false) h = refl
skip_ws-print (integer w) h =
    let first : FirstOfNumber (print_integer w) =
      subst (λ t. FirstOfNumber t) (append-nil (print_integer w))
        (print_integer-FirstOfNumber w []) in
    skip_ws-number (print_integer w) first
skip_ws-print (real token) h = elim h [ ]
skip_ws-print (str s) h = refl
skip_ws-print (object no_fields) h = refl
skip_ws-print (object (field k v fs)) h = refl
skip_ws-print (array no_items) h = refl
skip_ws-print (array (item v xs)) h = refl
