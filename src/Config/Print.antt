-- ===== src/Config/Print.antt =====
-- The text of a JSON value, which config.cpp reads back.
pub mod Strings
pub mod Numbers
pub mod Values
pub mod Saved
use link_scheduling.Prelude.{
  ℕ, suc, ◌+◌, ◌-◌, ◌^◌, ◌≤◌, ◌<◌, ◌≡◌, Bool, true, false, ◌||◌, ◌&&◌, none, [], ◌∷◌, ◌++◌, ltb,
  leb, ◌==◌, if◌then◌else◌, All, inl, inr, Bool-cases, arith,
}
use link_scheduling.Prelude.Text.{Bytes, codes}
use link_scheduling.Prelude.Decimal.{to_string}
use link_scheduling.Config.Json.{
  Json, Items, Fields, null, boolean, integer, real, str, object, array, no_items, item, no_fields,
  field, find,
}

-- A character of a string, with a backslash where the grammar wants one.
abbrev pub print_char : ℕ → Bytes
print_char c =
    if c == b'"' || c == b'\\'
    then b'\\' ∷ c ∷ []
    else if c == 8
    then codes "\\b"
    else if c == 12
    then codes "\\f"
    else if c == 10
    then codes "\\n"
    else if c == 13
    then codes "\\r"
    else if c == 9
    then codes "\\t"
    else c ∷ []

abbrev pub print_chars : Bytes → Bytes
print_chars [] = []
print_chars (c ∷ s) = print_char c ++ print_chars s

unfoldable pub print_string : Bytes → Bytes
print_string s = b'"' ∷ (print_chars s ++ b'"' ∷ [])

-- A long long.
unfoldable pub print_integer : ℕ → Bytes
unfolding to_string
print_integer w = if ltb w (2 ^ 63) then to_string w else b'-' ∷ to_string (2 ^ 64 - w)

unfoldable mutual
  unfolding print_string print_integer

  pub print : Json → Bytes
  print null = codes "null"
  print (boolean true) = codes "true"
  print (boolean false) = codes "false"
  print (integer w) = print_integer w
  print (real token) = token
  print (str s) = print_string s
  print (object no_fields) = codes "{}"
  print (object (field k v fields)) =
      b'{' ∷ (print_string k ++ (b':' ∷ (print v ++ print_fields fields)))
  print (array no_items) = codes "[]"
  print (array (item v items)) = b'[' ∷ (print v ++ print_items items)

  -- What stands behind the first field, and behind the first item.
  pub print_fields : Fields → Bytes
  print_fields no_fields = b'}' ∷ []
  print_fields (field k v fields) =
      b',' ∷ (print_string k ++ (b':' ∷ (print v ++ print_fields fields)))

  pub print_items : Items → Bytes
  print_items no_items = b']' ∷ []
  print_items (item v items) = b',' ∷ (print v ++ print_items items)

-- Characters that a string of the grammar can hold: all but the control characters with no escape.
abbrev pub is_printable : ℕ → Bool
is_printable c = leb 32 c || c == 8 || c == 12 || c == 10 || c == 13 || c == 9

abbrev pub IsText : Bytes → Type 0
IsText s = All (λ c. is_printable c ≡ true) s

abbrev pub all_printable : Bytes → Bool
all_printable [] = true
all_printable (c ∷ s) = is_printable c && all_printable s

pub all_printable-IsText : (s : Bytes) → all_printable s ≡ true → IsText s
all_printable-IsText [] h = tt
all_printable-IsText (c ∷ s) h = elim (Bool-cases (is_printable c)) [
  | inl e ↦ (e, all_printable-IsText s (ground (arith, e, h)))
  | inr e ↦ absurd (ground (arith, e, h))
]

-- A value that its text determines: texts that can be written, 64-bit integers, no other numbers,
-- and objects whose keys differ.
abbrev mutual
  pub IsPlain : Json → Type 0
  IsPlain null = Unit
  IsPlain (boolean b) = Unit
  IsPlain (integer w) = w < 2 ^ 64
  IsPlain (real token) = ⊥
  IsPlain (str s) = IsText s
  IsPlain (object fields) = ArePlainFields fields
  IsPlain (array items) = ArePlainItems items

  pub ArePlainItems : Items → Type 0
  ArePlainItems no_items = Unit
  ArePlainItems (item v items) = IsPlain v × ArePlainItems items

  pub ArePlainFields : Fields → Type 0
  ArePlainFields no_fields = Unit
  ArePlainFields (field k v fields) =
      IsText k × IsPlain v × (find k fields ≡ none) × ArePlainFields fields
