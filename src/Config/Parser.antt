-- ===== src/Config/Parser.antt =====
-- config.cpp: class Parser. The text from `pos_` on is what a parser is given. `consume`, `peek`
-- and parse_string skip white space themselves, so a skip_ws call right before them is left out.
use link_scheduling.Prelude.{
  ℕ, zero, suc, ◌+◌, ◌*◌, Bool, true, false, ◌||◌, [], ◌∷◌, ◌++◌, ltb, ◌==◌, if◌then◌else◌, length,
  take, drop,
}
use link_scheduling.Prelude.Text.{Bytes, codes, eq_bytes}
use link_scheduling.Prelude.Decimal.{is_digit}
use link_scheduling.Queue.{is_empty}
use link_scheduling.Config.Outcome.{
  Outcome, ok, out_of_fuel, and_then, fail, Parser, pure, ◌>>=◌, ◌>>◌,
}
use link_scheduling.Config.Json.{
  Json, Items, Fields, null, boolean, str, object, array, no_items, no_fields, push_back, emplace,
}
use link_scheduling.Config.Number.{skip_ws, starts, parse_number}

abbrev next_is : ℕ → Bytes → Bool × Bytes
next_is c s = if starts c s then (true, drop 1 s) else (false, s)

unfoldable pub consume : ℕ → Bytes → Bool × Bytes
unfolding skip_ws
consume c s = next_is c (skip_ws s)

-- `if (!consume(c)) fail();`
unfoldable pub expect : ℕ → Parser (Unit {0})
unfolding consume
expect c s = let found = consume c s in if found.0 then ok (tt, found.1) else fail

abbrev pub first_or_fail : Parser ℕ
first_or_fail [] = fail
first_or_fail (c ∷ s) = ok (c, c ∷ s)

unfoldable pub peek : Parser ℕ
unfolding skip_ws
peek s = first_or_fail (skip_ws s)

-- What stands behind a backslash; `loop` reads on with the text so far.
unfoldable pub read_escape : (Bytes → Parser Bytes) → Bytes → Parser Bytes
read_escape loop text [] = fail
read_escape loop text (e ∷ s) =
    if e == b'"' || (e == b'\\' || e == b'/')
    then loop (text ++ e ∷ []) s
    else if e == b'b'
    then loop (text ++ 8 ∷ []) s
    else if e == b'f'
    then loop (text ++ 12 ∷ []) s
    else if e == b'n'
    then loop (text ++ 10 ∷ []) s
    else if e == b'r'
    then loop (text ++ 13 ∷ []) s
    else if e == b't'
    then loop (text ++ 9 ∷ []) s
    else if e == b'u'
    then (if ltb (length s) 4 then fail else loop (text ++ b'?' ∷ []) (drop 4 s))
    else fail

-- The loop over the characters of a string.
unfoldable pub read_chars : ℕ → Bytes → Parser Bytes
unfolding read_escape
read_chars zero text s = out_of_fuel
read_chars (suc f) text [] = fail
read_chars (suc f) text (c ∷ s) =
    let escaped = read_escape (read_chars f) text s in
    let plain = read_chars f (text ++ c ∷ []) s in
    if c == b'"'
    then ok (text, s)
    else if c == b'\\'
    then escaped
    else if ltb c 32
    then fail
    else plain

abbrev quoted : Parser Bytes
unfolding read_chars
quoted s = if starts b'"' s then read_chars (length s) [] (drop 1 s) else fail

-- parse_string; each character costs at least one byte, so the text's length is enough fuel.
unfoldable pub parse_string : Parser Bytes
unfolding skip_ws read_chars
parse_string s = quoted (skip_ws s)

unfoldable pub parse_bool : Parser Json
parse_bool s =
    if eq_bytes (take 4 s) (codes "true")
    then ok (boolean true, drop 4 s)
    else if eq_bytes (take 5 s) (codes "false")
    then ok (boolean false, drop 5 s)
    else fail

unfoldable pub parse_null : Parser Json
parse_null s = if eq_bytes (take 4 s) (codes "null") then ok (null, drop 4 s) else fail

-- parse_value past its peek at `c`.
unfoldable pub value_by : Parser Json → Parser Json → ℕ → Parser Json
unfolding parse_string parse_bool parse_null
value_by parse_object parse_array c =
    if c == b'{'
    then parse_object
    else if c == b'['
    then parse_array
    else if c == b'"'
    then (do s ← parse_string; pure (str s))
    else if c == b't' || c == b'f'
    then parse_bool
    else if c == b'n'
    then parse_null
    else if c == b'-' || is_digit c
    then parse_number
    else λ s. fail

-- `if (consume(c)) return a;` before `more`.
unfoldable pub or_close {ℓ} : {A : Type ℓ} → ℕ → A → Parser A → Parser A
unfolding consume
or_close c a more s =
    let closed = consume c s in if closed.0 then ok (a, closed.1) else more closed.1

-- parse_object and parse_array, given their loops.
unfoldable pub object_by : (Fields → Parser Fields) → Parser Json
unfolding or_close expect
object_by loop = do
  expect b'{'
  fields ← or_close b'}' no_fields (λ s. loop no_fields s)
  pure (object fields)

unfoldable pub array_by : (Items → Parser Items) → Parser Json
unfolding or_close expect
array_by loop = do
  expect b'['
  items ← or_close b']' no_items (λ s. loop no_items s)
  pure (array items)

-- `if (peek() != '"') fail();`
unfoldable pub expect_quote : Parser (Unit {0})
unfolding peek
expect_quote = do c ← peek; if c == b'"' then pure tt else (λ s. fail)

-- One turn of the loop of parse_object, and of that of parse_array.
unfoldable pub field_round : Parser Json → (Fields → Parser Fields) → Fields → Parser Fields
unfolding expect expect_quote or_close parse_string emplace
field_round parse_value loop fields = do
  expect_quote
  key ← parse_string
  expect b':'
  v ← parse_value
  or_close b'}' (emplace fields key v) (do expect b','; loop (emplace fields key v))

unfoldable pub item_round : Parser Json → (Items → Parser Items) → Items → Parser Items
unfolding expect or_close push_back
item_round parse_value loop items = do
  v ← parse_value
  or_close b']' (push_back items v) (do expect b','; loop (push_back items v))

-- A value, and each turn of a loop, costs a unit of fuel.
unfoldable mutual
  unfolding peek value_by object_by array_by field_round item_round

  pub parse_value : ℕ → Parser Json
  parse_value zero s = out_of_fuel
  parse_value (suc f) s =
      and_then (peek s)
        λ (c, rest). value_by (object_by (parse_fields f)) (array_by (parse_items f)) c rest

  pub parse_fields : ℕ → Fields → Parser Fields
  parse_fields zero fs s = out_of_fuel
  parse_fields (suc f) fs s = field_round (parse_value f) (parse_fields f) fs s

  pub parse_items : ℕ → Items → Parser Items
  parse_items zero items s = out_of_fuel
  parse_items (suc f) items s = item_round (parse_value f) (parse_items f) items s

-- The end of the text, but for white space.
unfoldable pub at_end : Json → Bytes → Outcome Json
unfolding skip_ws
at_end v s = if is_empty (skip_ws s) then ok v else fail

unfoldable pub parse : Bytes → Outcome Json
unfolding skip_ws parse_value at_end
parse text = and_then (parse_value (2 * length text + 1) (skip_ws text)) λ (v, rest). at_end v rest
