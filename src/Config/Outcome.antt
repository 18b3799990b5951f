-- ===== src/Config/Outcome.antt =====
-- How reading the configuration ends, and the parser's state passing: a parser takes the text from
-- the position on and gives a value with the text behind it.
use mathlib.Core.Path.{subst}
use link_scheduling.Prelude.{
  ◌≡◌, refl, ◌≢◌, ℕ, ◌≤◌, Bool, true, false, if◌then◌else◌, length, arith,
}
use link_scheduling.Prelude.Text.{Bytes, codes}

-- A value, the text of the std::runtime_error that was thrown, or a model that ran out of fuel.
pub data Outcome {ℓ} (A : Type ℓ) : Type ℓ where
  ok : A → Outcome A
  throws : Bytes → Outcome A
  out_of_fuel : Outcome A

abbrev pub and_then {ℓ κ} : {A : Type ℓ} {B : Type κ} → Outcome A → (A → Outcome B) → Outcome B
and_then (ok a) f = f a
and_then (throws message) f = throws message
and_then out_of_fuel f = out_of_fuel

abbrev pub malformed_text : Bytes
malformed_text = codes "error: malformed JSON"

-- Parser::fail.
abbrev pub fail {ℓ} : {A : Type ℓ} → Outcome A
fail = throws malformed_text

abbrev pub Parser {ℓ} : Type ℓ → Type ℓ
Parser A = Bytes → Outcome (A × Bytes)

abbrev pub pure {ℓ} : {A : Type ℓ} → A → Parser A
pure a s = ok (a, s)

module _ {ℓ κ} {A : Type ℓ} {B : Type κ} where
  infixl 1 ◌>>=◌ ◌>>◌
  abbrev pub ◌>>=◌ : Parser A → (A → Parser B) → Parser B
  (p >>= f) s = and_then (p s) λ (a, rest). f a rest

  abbrev pub ◌>>◌ : Parser A → Parser B → Parser B
  p >> q = p >>= λ _. q

-- A run that stays within its fuel, leaves at most `n` bytes if it does not throw, and throws only
-- that the text is malformed.
pub data Leaves {ℓ} {A : Type ℓ} (n : ℕ) : Outcome (A × Bytes) → Type ℓ where
  left : {a : A} {s : Bytes} → length s ≤ n → Leaves n (ok (a, s))
  thrown : Leaves n (throws malformed_text)

module _ {ℓ} {A : Type ℓ} {n : ℕ} where
  pub Leaves-out_of_fuel : {p : Outcome (A × Bytes)} → Leaves n p → p ≢ out_of_fuel
  Leaves-out_of_fuel (left h) = cc
  Leaves-out_of_fuel thrown = cc

  pub Leaves-if :
      (b : Bool) {x y : Outcome (A × Bytes)}
      → (b ≡ true → Leaves n x)
      → (b ≡ false → Leaves n y)
      → Leaves n (if b then x else y)
  Leaves-if true hx hy = hx refl
  Leaves-if false hx hy = hy refl

  pub Leaves-weaken : {m : ℕ} {p : Outcome (A × Bytes)} → m ≤ n → Leaves m p → Leaves n p
  Leaves-weaken h (left k) = left (omega arith)
  Leaves-weaken h thrown = thrown

module _ {ℓ κ} {A : Type ℓ} {B : Type κ} where
  pub Leaves-then :
      {m n : ℕ} {p : Outcome (A × Bytes)} {f : A → Parser B}
      → Leaves m p
      → ((a : A) (s : Bytes) → length s ≤ m → Leaves n (f a s))
      → Leaves n (and_then p λ (a, rest). f a rest)
  Leaves-then (left {a} {s} h) k = k a s h
  Leaves-then thrown k = thrown

-- A run that does not run out of fuel: `P` holds of its value, or `E` of what it throws.
pub data Ensures {ℓ κ} {A : Type ℓ} (P : A → Type κ) (E : Bytes → Type κ)
    : Outcome A → Type (ℓ ⊔ κ) where
  holds : {a : A} → P a → Ensures P E (ok a)
  refused : {message : Bytes} → E message → Ensures P E (throws message)

module _ {ℓ κ} {A : Type ℓ} {P : A → Type κ} {E : Bytes → Type κ} where
  pub Ensures-total : {p : Outcome A} → Ensures P E p → p ≢ out_of_fuel
  Ensures-total (holds h) = cc
  Ensures-total (refused h) = cc

  pub Ensures-ok : {p : Outcome A} {a : A} → Ensures P E p → p ≡ ok a → P a
  Ensures-ok (holds h) e = subst P (cc) h
  Ensures-ok (refused h) e = cc

  pub Ensures-throws : {p : Outcome A} {m : Bytes} → Ensures P E p → p ≡ throws m → E m
  Ensures-throws (holds h) e = cc
  Ensures-throws (refused h) e = subst E (cc) h

  pub Ensures-weaken :
      {Q : A → Type κ} {p : Outcome A} → Ensures P E p → ((a : A) → P a → Q a) → Ensures Q E p
  Ensures-weaken (holds {a} h) k = holds (k a h)
  Ensures-weaken (refused h) k = refused h

  pub Ensures-if :
      (b : Bool) {x y : Outcome A}
      → (b ≡ true → Ensures P E x)
      → (b ≡ false → Ensures P E y)
      → Ensures P E (if b then x else y)
  Ensures-if true hx hy = hx refl
  Ensures-if false hx hy = hy refl

  pub Ensures-then {κ'} :
      {B : Type κ'} {Q : B → Type κ} {F : Bytes → Type κ} {p : Outcome A} {f : A → Outcome B}
      → Ensures P E p
      → ((m : Bytes) → E m → F m)
      → ((a : A) → P a → Ensures Q F (f a))
      → Ensures Q F (and_then p f)
  Ensures-then (holds {a} h) k l = l a h
  Ensures-then (refused {message} h) k l = refused (k message h)
