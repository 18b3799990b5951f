-- ===== src/Config/Number.antt =====
-- config.cpp: the grammar of numbers (parse_number), with std::stoll and the range of std::stod.
use link_scheduling.Prelude.{
  ℕ, ◌+◌, ◌-◌, ◌*◌, ◌%◌, ◌^◌, Bool, false, not, ◌&&◌, ◌||◌, Option, none, some, [], ◌∷◌, ◌++◌, ltb,
  leb, ◌==◌, if◌then◌else◌, length, drop,
}
use link_scheduling.Prelude.Text.{Bytes}
use link_scheduling.Prelude.Decimal.{is_digit, digits_value}
use link_scheduling.Queue.{is_empty}
use link_scheduling.Protocol.{is_space}
use link_scheduling.Config.Outcome.{ok, fail, Parser, pure, ◌>>=◌}
use link_scheduling.Config.Json.{Json, integer, real}

unfoldable pub skip_ws : Bytes → Bytes
skip_ws [] = []
skip_ws (c ∷ s) = if is_space c then skip_ws s else c ∷ s

-- Is this byte next?
abbrev pub starts : ℕ → Bytes → Bool
starts c [] = false
starts c (d ∷ s) = d == c

-- The digits in front, and what stands behind them.
unfoldable pub read_digits : Bytes → Bytes × Bytes
read_digits [] = ([], [])
read_digits (c ∷ s) =
    let rest = read_digits s in if is_digit c then (c ∷ rest.0, rest.1) else ([], c ∷ s)

-- A digit at least.
unfoldable pub some_digits : Parser Bytes
unfolding read_digits
some_digits [] = fail
some_digits (c ∷ s) = if is_digit c then ok (read_digits (c ∷ s)) else fail

unfoldable pub read_sign : Parser Bytes
read_sign s = if starts b'-' s then ok (b'-' ∷ [], drop 1 s) else ok ([], s)

-- A zero stands alone.
unfoldable pub whole_part : Parser Bytes
unfolding some_digits
whole_part s = if starts b'0' s then ok (b'0' ∷ [], drop 1 s) else some_digits s

unfoldable pub fraction_part : Parser Bytes
unfolding some_digits
fraction_part s =
    let digits : Parser Bytes = (do d ← some_digits; pure (b'.' ∷ d)) in
    if starts b'.' s then digits (drop 1 s) else ok ([], s)

unfoldable pub exponent_sign : Parser Bytes
exponent_sign [] = ok ([], [])
exponent_sign (c ∷ s) = if c == b'+' || c == b'-' then ok (c ∷ [], s) else ok ([], c ∷ s)

unfoldable pub exponent_digits : Parser Bytes
unfolding some_digits exponent_sign
exponent_digits = do sign ← exponent_sign; d ← some_digits; pure (sign ++ d)

unfoldable pub exponent_part : Parser Bytes
unfolding exponent_digits
exponent_part [] = ok ([], [])
exponent_part (c ∷ s) =
    let digits : Parser Bytes = (do d ← exponent_digits; pure (c ∷ d)) in
    if c == b'e' || c == b'E' then digits s else ok ([], c ∷ s)

-- std::stoll on a token of an optional minus and digits; `none` is std::out_of_range.
unfoldable pub stoll : Bytes → Option ℕ
unfolding digits_value
stoll token =
    let minus = digits_value 0 (drop 1 token) in
    let plus = digits_value 0 token in
    if starts b'-' token
    then if leb minus (2 ^ 63) then some ((2 ^ 64 - minus) % 2 ^ 64) else none
    else if ltb plus (2 ^ 63)
    then some plus
    else none

-- The magnitude `digits * 10 ^ up / 10 ^ down` of a decimal, on which std::stod reports
-- std::out_of_range: it rounds past the largest double, or it is below the smallest normal one and
-- no double is equal to it.
unfoldable pub out_of_range : ℕ → ℕ → ℕ → Bool
out_of_range digits up down =
    let over = digits * 10 ^ up in
    let under = 10 ^ down in
    leb ((2 ^ 1024 - 2 ^ 970) * under) over
    || (ltb (over * 2 ^ 1076) ((2 ^ 54 - 1) * under) && not (over * 2 ^ 1074 % under == 0))

-- The exponent's sign decides which way the decimal point moves.
abbrev pub scaled_out_of_range : ℕ → ℕ → Bytes → Bool
unfolding digits_value out_of_range
scaled_out_of_range digits places [] = out_of_range digits 0 places
scaled_out_of_range digits places (c ∷ e) =
    if starts b'-' e
    then out_of_range digits 0 (places + digits_value 0 (drop 1 e))
    else if starts b'+' e
    then out_of_range digits (digits_value 0 (drop 1 e)) places
    else out_of_range digits (digits_value 0 e) places

-- std::stod on a token given in its parts; `none` is std::out_of_range.
unfoldable pub stod : Bytes → Bytes → Bytes → Bytes → Option Bytes
unfolding digits_value out_of_range
stod sign whole fraction exponent =
    if scaled_out_of_range (digits_value 0 (whole ++ drop 1 fraction)) (length (drop 1 fraction))
      exponent
    then none
    else some (sign ++ (whole ++ (fraction ++ exponent)))

abbrev pub or_fail {ℓ} : {A : Type ℓ} → (A → Json) → Option A → Parser Json
or_fail f none s = fail
or_fail f (some a) s = ok (f a, s)

-- The number that the parts stand for.
unfoldable pub number_value : Bytes → Bytes → Bytes → Bytes → Parser Json
unfolding stoll stod
number_value sign whole fraction exponent =
    if is_empty fraction && is_empty exponent
    then or_fail integer (stoll (sign ++ whole))
    else or_fail real (stod sign whole fraction exponent)

-- parse_number past its white space.
unfoldable pub number_here : Parser Json
unfolding read_sign whole_part fraction_part exponent_part number_value
number_here = do
  sign ← read_sign
  whole ← whole_part
  fraction ← fraction_part
  exponent ← exponent_part
  number_value sign whole fraction exponent

unfoldable pub parse_number : Parser Json
unfolding skip_ws number_here
parse_number s = number_here (skip_ws s)
