-- ===== src/Config/Fuel/Values.antt =====
-- config.cpp: the parser never runs out of fuel.
use link_scheduling.Prelude.{
  ℕ, zero, suc, ◌+◌, ◌-◌, ◌*◌, ◌≤◌, ◌<◌, ◌||◌, ◌==◌, [], ◌∷◌, inl, inr, ◌≡◌, refl, length,
  Bool-cases, arith,
}
use link_scheduling.Prelude.Text.{Bytes}
use link_scheduling.Prelude.Decimal.{is_digit}
use link_scheduling.Queue.{is_empty}
use link_scheduling.Config.Outcome.{
  ◌>>◌, Outcome, and_then, Parser, Leaves, left, thrown, Leaves-if, Leaves-then, Leaves-weaken,
  Ensures, holds, refused, Ensures-if, malformed_text,
}
use link_scheduling.Config.Json.{Json, Items, Fields, no_items, no_fields, push_back, emplace}
use link_scheduling.Config.Number.{skip_ws}
use link_scheduling.Config.Parser.{
  consume, expect, peek, expect_quote, or_close, value_by, object_by, array_by, field_round,
  item_round, parse_value, parse_fields, parse_items, at_end, parse,
}
use link_scheduling.Config.Fuel.Numbers.{length-skip_ws, parse_number-Leaves}
use link_scheduling.Config.Fuel.Strings.{
  consume-length, expect-Leaves, peek-Leaves, parse_string-Leaves, parse_bool-Leaves,
  parse_null-Leaves,
}

or_close-Leaves {ℓ} :
    {A : Type ℓ} (c : ℕ) (a : A) (more : Parser A) (s : Bytes)
    → ((s' : Bytes) → length s' ≤ length s → Leaves (length s) (more s'))
    → Leaves (length s) (or_close c a more s)
unfolding or_close
or_close-Leaves c a more s k =
    Leaves-if (consume c s).0 (λ h. left (consume-length c s)) (λ h. k _ (consume-length c s))

expect_quote-Leaves : (s : Bytes) → Leaves (length s) (expect_quote s)
unfolding expect_quote
expect_quote-Leaves s =
    Leaves-then (peek-Leaves s)
      λ c s' h. elim (Bool-cases (c == b'"')) [ inl e ↦ rw e (left h) | inr e ↦ rw e thrown ]

-- A parser that takes a byte of a text of at most `n` bytes.
abbrev Takes {ℓ} : {A : Type ℓ} → ℕ → Parser A → Type ℓ
Takes n p = (s : Bytes) → length s ≤ n → Leaves (length s - 1) (p s)

object_by-Leaves :
    (n : ℕ) (loop : Fields → Parser Fields)
    → ((fields : Fields) → Takes n (loop fields))
    → Takes (n + 1) (object_by loop)
unfolding object_by
object_by-Leaves n loop k s h = Leaves-then (expect-Leaves b'{' s) λ u s1 h1.
    Leaves-then
      (or_close-Leaves b'}' no_fields (λ s'. loop no_fields s') s1
        λ s' h'. Leaves-weaken (omega arith) (k no_fields s' (omega arith)))
      λ fields s2 h2. left (omega arith)

array_by-Leaves :
    (n : ℕ) (loop : Items → Parser Items)
    → ((items : Items) → Takes n (loop items))
    → Takes (n + 1) (array_by loop)
unfolding array_by
array_by-Leaves n loop k s h = Leaves-then (expect-Leaves b'[' s) λ u s1 h1.
    Leaves-then
      (or_close-Leaves b']' no_items (λ s'. loop no_items s') s1
        λ s' h'. Leaves-weaken (omega arith) (k no_items s' (omega arith)))
      λ items s2 h2. left (omega arith)

value_by-Leaves :
    (n : ℕ) (objects arrays : Parser Json) (c : ℕ)
    → Takes n objects
    → Takes n arrays
    → Takes n (value_by objects arrays c)
unfolding value_by
value_by-Leaves n objects arrays c ho ha s h = elim (Bool-cases (c == b'{')) [
  | inl e ↦ rw e (ho s h)
  | inr e ↦ rw e (elim (Bool-cases (c == b'[')) [
    | inl e ↦ rw e (ha s h)
    | inr e ↦ rw e (elim (Bool-cases (c == b'"')) [
      | inl e ↦ rw e (Leaves-then (parse_string-Leaves s) λ t s' k. left k)
      | inr e ↦ rw e (elim (Bool-cases (c == b't' || c == b'f')) [
        | inl e ↦ rw e (parse_bool-Leaves s)
        | inr e ↦ rw e (elim (Bool-cases (c == b'n')) [
          | inl e ↦ rw e (parse_null-Leaves s)
          | inr e ↦ rw e (elim (Bool-cases (c == b'-' || is_digit c)) [
            | inl e ↦ rw e (parse_number-Leaves s)
            | inr e ↦ rw e thrown
          ])
        ])
      ])
    ])
  ])
]

field_round-Leaves :
    (n : ℕ) (value : Parser Json) (loop : Fields → Parser Fields) (fields : Fields)
    → Takes n value
    → ((fields' : Fields) → Takes (n - 1) (loop fields'))
    → Takes n (field_round value loop fields)
unfolding field_round
field_round-Leaves n value loop fields kv kl s h = Leaves-then (expect_quote-Leaves s) λ u s1 h1.
    Leaves-then (parse_string-Leaves s1) λ key s2 h2. Leaves-then (expect-Leaves b':' s2) λ u s3 h3.
      Leaves-then (kv s3 (omega arith)) λ v s4 h4. Leaves-weaken (omega arith) (
        or_close-Leaves b'}' (emplace fields key v) (expect b',' >> loop (emplace fields key v)) s4
          λ s5 h5.
            Leaves-then (expect-Leaves b',' s5)
              λ u s6 h6. Leaves-weaken (omega arith) (kl _ s6 (omega arith)))

item_round-Leaves :
    (n : ℕ) (value : Parser Json) (loop : Items → Parser Items) (items : Items)
    → Takes n value
    → ((items' : Items) → Takes (n - 1) (loop items'))
    → Takes n (item_round value loop items)
unfolding item_round
item_round-Leaves n value loop items kv kl s h = Leaves-then (kv s h) λ v s4 h4.
    Leaves-weaken (omega arith) (
      or_close-Leaves b']' (push_back items v) (expect b',' >> loop (push_back items v)) s4 λ s5 h5.
        Leaves-then (expect-Leaves b',' s5)
          λ u s6 h6. Leaves-weaken (omega arith) (kl _ s6 (omega arith)))

-- With fuel `f` the parsers keep within it on a text of at most `n` bytes.
abbrev Enough : ℕ → Type 0
Enough f =
    ((n : ℕ) → 2 * n < f → Takes n (parse_value f))
    × ((n : ℕ) (fields : Fields) → 2 * n + 1 < f → Takes n (parse_fields f fields))
    × ((n : ℕ) (items : Items) → 2 * n + 1 < f → Takes n (parse_items f items))

-- Nothing is read off an empty text.
value_of_nothing :
    (f : ℕ) (loop : Items → Parser Items) (items : Items)
    → 0 < f
    → Leaves 0 (item_round (parse_value f) loop items [])
unfolding item_round parse_value peek skip_ws
value_of_nothing zero loop items h = absurd (omega arith)
value_of_nothing (suc f) loop items h = thrown

value_step : (f : ℕ) → Enough f → (n : ℕ) → 2 * n < suc f → Takes n (parse_value (suc f))
unfolding parse_value peek skip_ws
value_step f (value, fields, items) n h [] k = thrown
value_step f (value, fields, items) n h (c ∷ s) k = Leaves-then (peek-Leaves (c ∷ s)) λ d s' h'.
    Leaves-weaken (omega arith) (
      value_by-Leaves (n - 1 + 1) _ _ d
        (object_by-Leaves (n - 1) (parse_fields f) λ fs. fields (n - 1) fs (omega arith))
        (array_by-Leaves (n - 1) (parse_items f) λ xs. items (n - 1) xs (omega arith)) s'
        (omega arith))

fields_step :
    (f : ℕ)
    → Enough f
    → (n : ℕ) (fs : Fields) → 2 * n + 1 < suc f
    → Takes n (parse_fields (suc f) fs)
unfolding parse_fields field_round expect_quote peek skip_ws
fields_step f (value, fields, items) n fs h [] k = thrown
fields_step f (value, fields, items) n fs h (c ∷ s) k =
    field_round-Leaves n (parse_value f) (parse_fields f) fs (value n (omega arith))
      (λ fs'. fields (n - 1) fs' (omega arith)) (c ∷ s) k

items_step :
    (f : ℕ) → Enough f → (n : ℕ) (xs : Items) → 2 * n + 1 < suc f → Takes n (parse_items (suc f) xs)
unfolding parse_items
items_step f (value, fields, items) n xs h [] k =
    value_of_nothing f (parse_items f) xs (omega arith)
items_step f (value, fields, items) n xs h (c ∷ s) k =
    item_round-Leaves n (parse_value f) (parse_items f) xs (value n (omega arith))
      (λ xs'. items (n - 1) xs' (omega arith)) (c ∷ s) k

enough : (f : ℕ) → Enough f
enough zero =
    (λ n h. absurd (omega arith), λ n fs h. absurd (omega arith), λ n xs h. absurd (omega arith))
enough (suc f) =
    let below = enough f in (value_step f below, fields_step f below, items_step f below)

finished :
    {n : ℕ} {p : Outcome (Json × Bytes)}
    → Leaves n p
    → Ensures (λ v. Unit) (λ m. m ≡ malformed_text) (and_then p λ (v, rest). at_end v rest)
unfolding at_end
finished (left {a} {s} h) = Ensures-if (is_empty (skip_ws s)) (λ e. holds tt) (λ e. refused refl)
finished thrown = refused refl

-- Whatever the text, the parser gives a value or says that the text is malformed: the fuel, two for
-- each byte of the text and one more, is always enough.
pub parse-Ensures : (text : Bytes) → Ensures (λ v. Unit) (λ m. m ≡ malformed_text) (parse text)
unfolding parse
parse-Ensures text =
    let (value, fields, items) = enough (2 * length text + 1) in
    finished (value (length text) (omega arith) (skip_ws text) (length-skip_ws text))
