-- ===== src/Config/Checks/Fields.antt =====
-- config.cpp: the checks of one field.
use link_scheduling.Prelude.{
  ℕ, ◌%◌, ◌^◌, ◌≡◌, refl, sym, Bool, true, false, Option, none, some, arith,
}
use link_scheduling.Prelude.Text.{Bytes}
use link_scheduling.Config.Outcome.{ok, throws, and_then, Ensures, holds, refused, Ensures-if}
use link_scheduling.Config.Json.{Json, null, boolean, integer, real, str, object, array, lookup}
use link_scheduling.Config.Load.{
  required, string_of, int_of, string_field, int_field, unless_bad, not_positive, not_a_port,
  is_object,
}
use link_scheduling.Config.Describes.{StringField, IntField, IsPort, IsPositive}
use link_scheduling.Config.Faults.{missing_text, StringFault, IntFault}

-- Bools and the ranges.
pub not_a_port→IsPort : (n : ℕ) → not_a_port n ≡ false → IsPort n
not_a_port→IsPort n h = ground arith

pub not_positive→IsPositive : (n : ℕ) → not_positive n ≡ false → IsPositive n
not_positive→IsPositive n h = ground arith

pub IsPort→not_a_port : (n : ℕ) → IsPort n → not_a_port n ≡ false
IsPort→not_a_port n h = ground arith

pub IsPositive→not_positive : (n : ℕ) → IsPositive n → not_positive n ≡ false
IsPositive→not_positive n h = ground arith

-- What has a field is an object.
pub lookup-is_object :
    (v : Json) (key : Bytes) {x : Json} → lookup v key ≡ some x → is_object v ≡ true
unfolding lookup
lookup-is_object (object fs) key h = refl
lookup-is_object null key h = cc
lookup-is_object (boolean b) key h = cc
lookup-is_object (integer w) key h = cc
lookup-is_object (real token) key h = cc
lookup-is_object (str s) key h = cc
lookup-is_object (array items) key h = cc

pub string_field-Ensures :
    (v : Json) (key name : Bytes)
    → Ensures (StringField v key) (StringFault name (lookup v key)) (string_field v key name)
unfolding string_field required string_of
string_field-Ensures v key name = go (lookup v key)
  where
    go :
        (o : Option Json)
        → Ensures
            (λ s. o ≡ some (str s))
            (StringFault name o)
            (and_then
              (elim o [ none ↦ throws (missing_text name) | some x ↦ ok x ])
              λ x. string_of name x)
    go none = refused refl
    go (some (str s)) = holds refl
    go (some null) = refused refl
    go (some (boolean b)) = refused refl
    go (some (integer w)) = refused refl
    go (some (real token)) = refused refl
    go (some (object fs)) = refused refl
    go (some (array items)) = refused refl

pub int_field-Ensures :
    (bad : ℕ → Bool) (range : Bytes) (v : Json) (key name : Bytes)
    → Ensures (IntField v key) (IntFault bad range name (lookup v key)) (int_field v key name)
unfolding int_field required int_of
int_field-Ensures bad range v key name = go (lookup v key)
  where
    go :
        (o : Option Json)
        → Ensures
            (λ n. (w : ℕ) × (o ≡ some (integer w)) × (n ≡ w % 2 ^ 32))
            (IntFault bad range name o)
            (and_then
              (elim o [ none ↦ throws (missing_text name) | some x ↦ ok x ])
              λ x. int_of name x)
    go none = refused refl
    go (some (integer w)) = holds (w, refl, refl)
    go (some null) = refused refl
    go (some (boolean b)) = refused refl
    go (some (str s)) = refused refl
    go (some (real token)) = refused refl
    go (some (object fs)) = refused refl
    go (some (array items)) = refused refl

-- An int field that fails its test is at fault.
pub IntFault-bad :
    (bad : ℕ → Bool) (range : Bytes) (v : Json) (key name : Bytes) (n : ℕ)
    → IntField v key n
    → bad n ≡ true
    → IntFault bad range name (lookup v key) range
IntFault-bad bad range v key name n (w, h, e) t = rw h (rw (sym e) t, refl)

pub unless_bad-Ensures :
    {P : Type 0} {E : Bytes → Type 0} (bad : Bool) (m : Bytes)
    → (bad ≡ true → E m)
    → (bad ≡ false → P)
    → Ensures (λ u. P) E (unless_bad bad (throws m))
unless_bad-Ensures bad m he hp = Ensures-if bad (λ h. refused (he h)) (λ h. holds (hp h))

-- The checks succeed on what is described.
pub string_field-ok :
    (v : Json) (key name s : Bytes) → StringField v key s → string_field v key name ≡ ok s
unfolding string_field required string_of
string_field-ok v key name s h = rw h refl

pub int_field-ok :
    (v : Json) (key name : Bytes) (n : ℕ) → IntField v key n → int_field v key name ≡ ok n
unfolding int_field required int_of
int_field-ok v key name n (w, h, e) = rw (h, e) refl
