-- ===== src/Config/Print/Values/Lists.antt =====
-- Fields and items put behind those read so far.
use mathlib.Core.Path.{subst}
use link_scheduling.Prelude.{
  ◌≡◌, refl, ap, inl, inr, true, false, none, some, Bool-cases, if◌then◌else◌,
}
use link_scheduling.Prelude.Text.{Bytes, eq_bytes, eq_bytes→eq, eq_bytes_refl}
use link_scheduling.Config.Json.{
  Json, Items, Fields, no_items, item, no_fields, field, push_back, find, emplace,
}

abbrev pub append_items : Items → Items → Items
append_items no_items ys = ys
append_items (item v xs) ys = item v (append_items xs ys)

abbrev pub append_fields : Fields → Fields → Fields
append_fields no_fields gs = gs
append_fields (field k v fs) gs = field k v (append_fields fs gs)

pub append_items-push_back :
    (xs : Items) (v : Json) (ys : Items)
    → append_items (push_back xs v) ys ≡ append_items xs (item v ys)
unfolding push_back
append_items-push_back no_items v ys = refl
append_items-push_back (item w xs) v ys = ap (item w) (append_items-push_back xs v ys)

pub append_items-nil : (xs : Items) → append_items xs no_items ≡ xs
append_items-nil no_items = refl
append_items-nil (item v xs) = ap (item v) (append_items-nil xs)

pub push_back-append : (xs : Items) (v : Json) → push_back xs v ≡ append_items xs (item v no_items)
unfolding push_back
push_back-append no_items v = refl
push_back-append (item w xs) v = ap (item w) (push_back-append xs v)

-- None of these keys is among the fields read so far.
abbrev pub AreNew : Fields → Fields → Type 0
AreNew acc no_fields = Unit
AreNew acc (field k v fs) = (find k acc ≡ none) × AreNew acc fs

pub AreNew-nil : (fs : Fields) → AreNew no_fields fs
unfolding find
AreNew-nil no_fields = tt
AreNew-nil (field k v fs) = (refl, AreNew-nil fs)

-- A key that is not found is none of the keys.
find-field :
    (k j : Bytes) (w : Json) (acc : Fields)
    → find k (field j w acc) ≡ none
    → (eq_bytes k j ≡ false) × (find k acc ≡ none)
unfolding find
find-field k j w acc h = elim (Bool-cases (eq_bytes k j)) [
  | inl e ↦
      let q : some w ≡ none = subst (λ b. (if b then some w else find k acc) ≡ none) e h in
      absurd (cc)
  | inr e ↦ (e, subst (λ b. (if b then some w else find k acc) ≡ none) e h)
]

-- A key that is not there is put at the end.
pub append_fields-emplace :
    (acc : Fields) (k : Bytes) (v : Json) (fs : Fields)
    → find k acc ≡ none
    → append_fields (emplace acc k v) fs ≡ append_fields acc (field k v fs)
unfolding emplace
append_fields-emplace no_fields k v fs h = refl
append_fields-emplace (field j w acc) k v fs h =
    let (other, later) = find-field k j w acc h in
    rw other (ap (field j w) (append_fields-emplace acc k v fs later))

eq_bytes-swap : (a b : Bytes) → eq_bytes a b ≡ false → eq_bytes b a ≡ false
eq_bytes-swap a b h = elim (Bool-cases (eq_bytes b a)) [
  | inl e ↦
      let q : eq_bytes a a ≡ false = subst (λ t. eq_bytes a t ≡ false) (eq_bytes→eq b a e) h in
      let r : eq_bytes a a ≡ true = eq_bytes_refl a in absurd (cc)
  | inr e ↦ e
]

-- A key other than `k` is as new behind `k` as before it.
find-emplace :
    (acc : Fields) (j k : Bytes) (v : Json)
    → eq_bytes j k ≡ false
    → find j acc ≡ none
    → find j (emplace acc k v) ≡ none
unfolding emplace find
find-emplace no_fields j k v d h = rw d refl
find-emplace (field i w acc) j k v d h =
    let (other, later) = find-field j i w acc h in
    elim (Bool-cases (eq_bytes k i)) [
      | inl e ↦ rw (e, other) later
      | inr e ↦ rw (e, other) (find-emplace acc j k v d later)
    ]

pub AreNew-emplace :
    (acc : Fields) (k : Bytes) (v : Json) (fs : Fields)
    → AreNew acc fs
    → find k fs ≡ none
    → AreNew (emplace acc k v) fs
AreNew-emplace acc k v no_fields h n = tt
AreNew-emplace acc k v (field j w fs) (h, hs) n =
    let (other, later) = find-field k j w fs n in
    (find-emplace acc j k v (eq_bytes-swap k j other) h, AreNew-emplace acc k v fs hs later)
