-- ===== src/Config/Print/Values/Rounds.antt =====
-- Values, fields and items of a printed text are read back turn by turn.
use mathlib.Core.Path.{subst}
use link_scheduling.Prelude.{
  ◌≡◌, refl, ap, ◌∙◌, ℕ, zero, suc, ◌+◌, ◌*◌, ◌^◌, ◌<◌, true, false, [], ◌∷◌, ◌++◌, append-nil,
  append_assoc, length, length-append, arith,
}
use link_scheduling.Prelude.Text.{Bytes, eq_bytes}
use link_scheduling.Config.Outcome.{ok, Parser, ◌>>◌}
use link_scheduling.Config.Json.{
  Json, Items, Fields, null, boolean, integer, real, str, object, array, no_items, item, no_fields,
  field, push_back, emplace,
}
use link_scheduling.Config.Number.{skip_ws}
use link_scheduling.Config.Parser.{
  consume, expect, peek, or_close, parse_bool, parse_null, value_by, object_by, array_by,
  field_round, item_round, parse_value, parse_fields, parse_items, parse,
}
use link_scheduling.Config.Print.{
  print, print_fields, print_items, print_string, print_integer, IsText, IsPlain, ArePlainItems,
  ArePlainFields,
}
use link_scheduling.Config.Print.Strings.{parse_string-print}
use link_scheduling.Config.Print.Numbers.{Ends, parse_number-print}
use link_scheduling.Config.Print.Values.Lists.{
  append_items, append_fields, append_items-push_back, append_items-nil, AreNew, AreNew-nil,
  AreNew-emplace, append_fields-emplace,
}
use link_scheduling.Config.Print.Values.First.{
  print_integer-FirstOfNumber, number_first, print-not_closed, skip_ws-print, expect_quote-print,
  print_string-not_closed,
}

-- A field and those behind it; an item and those behind it.
abbrev field_text : Bytes → Json → Fields → Bytes
field_text k v fs = print_string k ++ (b':' ∷ (print v ++ print_fields fs))

abbrev item_text : Json → Items → Bytes
item_text v xs = print v ++ print_items xs

-- With fuel `f`, what is printed is read back.
abbrev ReadsValue : ℕ → Type 0
ReadsValue f =
    (v : Json) (rest : Bytes)
    → IsPlain v
    → 2 * length (print v) < f
    → Ends rest
    → parse_value f (print v ++ rest) ≡ ok (v, rest)

abbrev ReadsFields : ℕ → Type 0
ReadsFields f =
    (k : Bytes) (v : Json) (fs acc : Fields) (rest : Bytes)
    → ArePlainFields (field k v fs)
    → AreNew acc (field k v fs)
    → 2 * length (field_text k v fs) + 1 < f
    → parse_fields f acc (field_text k v fs ++ rest) ≡ ok (append_fields acc (field k v fs), rest)

abbrev ReadsItems : ℕ → Type 0
ReadsItems f =
    (v : Json) (xs acc : Items) (rest : Bytes)
    → ArePlainItems (item v xs)
    → 2 * length (item_text v xs) + 1 < f
    → parse_items f acc (item_text v xs ++ rest) ≡ ok (append_items acc (item v xs), rest)

fields-Ends : (fs : Fields) (rest : Bytes) → Ends (print_fields fs ++ rest)
unfolding print_fields
fields-Ends no_fields rest = refl
fields-Ends (field k v fs) rest = refl

items-Ends : (xs : Items) (rest : Bytes) → Ends (print_items xs ++ rest)
unfolding print_items
items-Ends no_items rest = refl
items-Ends (item v xs) rest = refl

append_fields-nil : (fs : Fields) → append_fields fs no_fields ≡ fs
append_fields-nil no_fields = refl
append_fields-nil (field k v fs) = ap (field k v) (append_fields-nil fs)

-- The end of a turn: the object closes, or the next field follows a comma.
fields_tail :
    (f : ℕ) (fs acc : Fields) (rest : Bytes)
    → ReadsFields f
    → ArePlainFields fs
    → AreNew acc fs
    → 2 * length (print_fields fs) < f
    → or_close b'}' acc (expect b',' >> parse_fields f acc) (print_fields fs ++ rest)
      ≡ ok (append_fields acc fs, rest)
unfolding or_close expect consume skip_ws print_fields
fields_tail f no_fields acc rest reads p new h = rw (append_fields-nil acc) refl
fields_tail f (field k v fs) acc rest reads p new h = reads k v fs acc rest p new (omega arith)

items_tail :
    (f : ℕ) (xs acc : Items) (rest : Bytes)
    → ReadsItems f
    → ArePlainItems xs
    → 2 * length (print_items xs) < f
    → or_close b']' acc (expect b',' >> parse_items f acc) (print_items xs ++ rest)
      ≡ ok (append_items acc xs, rest)
unfolding or_close expect consume skip_ws print_items
items_tail f no_items acc rest reads p h = rw (append_items-nil acc) refl
items_tail f (item v xs) acc rest reads p h = reads v xs acc rest p (omega arith)

reads_fields : (f : ℕ) → ReadsValue f → ReadsFields f → ReadsFields (suc f)
unfolding parse_fields field_round
reads_fields f value fields k v fs acc rest (kt, vp, kn, fp) (new, news) h =
    let size = length-append (print_string k) (b':' ∷ (print v ++ print_fields fs)) in
    let size' = length-append (print v) (print_fields fs) in
    rw
      (
        append_assoc (print_string k) (b':' ∷ (print v ++ print_fields fs)) rest,
        append_assoc (print v) (print_fields fs) rest,
        expect_quote-print k (b':' ∷ (print v ++ (print_fields fs ++ rest))),
        parse_string-print k (b':' ∷ (print v ++ (print_fields fs ++ rest))) kt,
        value v (print_fields fs ++ rest) vp (omega arith) (fields-Ends fs rest),
        fields_tail f fs (emplace acc k v) rest fields fp (AreNew-emplace acc k v fs news kn)
            (omega arith),
        append_fields-emplace acc k v fs new,
      )
      refl

reads_items : (f : ℕ) → ReadsValue f → ReadsItems f → ReadsItems (suc f)
unfolding parse_items item_round
reads_items f value items v xs acc rest (vp, xp) h =
    let size = length-append (print v) (print_items xs) in
    rw
      (
        append_assoc (print v) (print_items xs) rest,
        value v (print_items xs ++ rest) vp (omega arith) (items-Ends xs rest),
        items_tail f xs (push_back acc v) rest items xp (omega arith),
        append_items-push_back acc v xs,
      )
      refl

peek-print_string :
    (t rest : Bytes) → peek (print_string t ++ rest) ≡ ok (b'"', print_string t ++ rest)
unfolding peek skip_ws print_string
peek-print_string t rest = refl

reads_string :
    (f : ℕ) (t rest : Bytes)
    → IsText t
    → parse_value (suc f) (print_string t ++ rest) ≡ ok (str t, rest)
unfolding parse_value value_by
reads_string f t rest h = rw (peek-print_string t rest, parse_string-print t rest h) refl

reads_integer :
    (f w : ℕ) (rest : Bytes)
    → w < 2 ^ 64
    → Ends rest
    → parse_value (suc f) (print_integer w ++ rest) ≡ ok (integer w, rest)
unfolding parse_value
reads_integer f w rest h e =
    let (c, at_c, number) =
      number_first (print_integer w ++ rest) (object_by (parse_fields f)) (array_by (parse_items f))
        (print_integer-FirstOfNumber w rest) in
    rw at_c (number ∙ parse_number-print w rest h e)

or_close_open {ℓ} :
    {A : Type ℓ} (c : ℕ) (a : A) (more : Parser A) (s : Bytes)
    → consume c s ≡ (false, s)
    → or_close c a more s ≡ more s
unfolding or_close
or_close_open c a more s h = rw h refl

reads_object :
    (f : ℕ) (k : Bytes) (v : Json) (fs : Fields) (rest : Bytes)
    → ReadsFields f
    → ArePlainFields (field k v fs)
    → 2 * length (field_text k v fs) + 1 < f
    → object_by (parse_fields f) (b'{' ∷ (field_text k v fs ++ rest))
      ≡ ok (object (field k v fs), rest)
unfolding object_by
reads_object f k v fs rest reads p h =
    let later = b':' ∷ (print v ++ print_fields fs) in
    let closed : consume b'}' (field_text k v fs ++ rest) ≡ (false, field_text k v fs ++ rest) =
      rw (append_assoc (print_string k) later rest) (print_string-not_closed k (later ++ rest)) in
    rw
      (
        or_close_open b'}' no_fields (λ s. parse_fields f no_fields s) (field_text k v fs ++ rest)
            closed,
        reads k v fs no_fields rest p (AreNew-nil (field k v fs)) h,
      )
      refl

reads_array :
    (f : ℕ) (v : Json) (xs : Items) (rest : Bytes)
    → ReadsItems f
    → ArePlainItems (item v xs)
    → 2 * length (item_text v xs) + 1 < f
    → array_by (parse_items f) (b'[' ∷ (item_text v xs ++ rest)) ≡ ok (array (item v xs), rest)
unfolding array_by
reads_array f v xs rest reads (vp, xp) h =
    let closed : consume b']' (item_text v xs ++ rest) ≡ (false, item_text v xs ++ rest) =
      rw (append_assoc (print v) (print_items xs) rest)
        (print-not_closed v (print_items xs ++ rest) vp) in
    rw
      (
        or_close_open b']' no_items (λ s. parse_items f no_items s) (item_text v xs ++ rest) closed,
        reads v xs no_items rest (vp, xp) h,
      )
      refl

reads_value : (f : ℕ) → ReadsFields f → ReadsItems f → ReadsValue (suc f)
unfolding parse_value peek skip_ws value_by parse_null parse_bool object_by array_by or_close expect
    consume print eq_bytes
reads_value f fields items null rest p h e = refl
reads_value f fields items (boolean true) rest p h e = refl
reads_value f fields items (boolean false) rest p h e = refl
reads_value f fields items (integer w) rest p h e = reads_integer f w rest p e
reads_value f fields items (real token) rest p h e = elim p [ ]
reads_value f fields items (str s) rest p h e = reads_string f s rest p
reads_value f fields items (object no_fields) rest p h e = refl
reads_value f fields items (object (field k v fs)) rest p h e =
    reads_object f k v fs rest fields p (omega arith)
reads_value f fields items (array no_items) rest p h e = refl
reads_value f fields items (array (item v xs)) rest p h e =
    reads_array f v xs rest items p (omega arith)

reads : (f : ℕ) → ReadsValue f × ReadsFields f × ReadsItems f
reads zero = (
  λ v rest p h e. absurd (omega arith),
  λ k v fs acc rest p new h. absurd (omega arith),
  λ v xs acc rest p h. absurd (omega arith),
)
reads (suc f) =
    let (value, fields, items) = reads f in
    (reads_value f fields items, reads_fields f value fields, reads_items f value items)

-- What is printed from a plain value is parsed to that value.
pub parse-print : (v : Json) → IsPlain v → parse (print v) ≡ ok v
unfolding parse
parse-print v p =
    let fuel : ℕ = 2 * length (print v) + 1 in
    let read : parse_value fuel (print v) ≡ ok (v, []) =
      subst (λ t. parse_value fuel t ≡ ok (v, [])) (append-nil (print v))
        ((reads fuel).0 v [] p (omega arith) tt) in
    rw (skip_ws-print v p, read) refl
