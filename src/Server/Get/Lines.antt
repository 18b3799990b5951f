-- ===== src/Server/Get/Lines.antt =====
-- The lines of a GET round, described without the loop that selects them: whole lines, in order,
-- as many as the budget holds, or one line that is longer than the budget.
use link_scheduling.Prelude.{
  ℕ, ◌+◌, ◌-◌, ◌≤◌, ◌<◌, ◌≡◌, refl, ap, ◌⊎◌, inl, inr, Bool, true, false, List, [], ◌∷◌, ◌++◌,
  arith, ltb, leb, ◌==◌, if◌then◌else◌, length, concat, Bool-cases, length-append, ltb→lt, ltb→le,
  append-nil, ne→==,
}
use link_scheduling.Prelude.Text.{Bytes}

-- The lines that fit into `room` bytes, up to the first that does not.
abbrev pub fit : ℕ → List Bytes → List Bytes
fit room [] = []
fit room (l ∷ ls) = if ltb room (length l) then [] else l ∷ fit (room - length l) ls

-- The lines of a round that does not reach the end of the file.
abbrev pub chosen : ℕ → Bool → List Bytes → List Bytes
chosen budget allow [] = []
chosen budget allow (l ∷ ls) =
    if ltb budget (length l) then (if allow then l ∷ [] else []) else fit budget (l ∷ ls)

-- Whether the round lets a line through that is longer than the budget.
abbrev pub overruns : ℕ → Bool → List Bytes → Bool
overruns budget allow [] = false
overruns budget allow (l ∷ ls) = if ltb budget (length l) then allow else false

-- The lines of a round with `budget` over a file of which `ls` are left, `left` bytes in all.
abbrev pub round_lines : ℕ → Bool → ℕ → List Bytes → List Bytes
round_lines budget allow left ls =
    if budget == 0 then [] else if leb left budget then ls else chosen budget allow ls

abbrev pub round_overruns : ℕ → Bool → ℕ → List Bytes → Bool
round_overruns budget allow left ls =
    if budget == 0 then false else if leb left budget then false else overruns budget allow ls

-- `taken` are the first of the lines `ls`, and `rest` the others.
pub record Splits (ls taken : List Bytes) : Type 0 where
  pub rest : List Bytes
  pub whole : taken ++ rest ≡ ls

fit-Splits : (room : ℕ) (ls : List Bytes) → Splits ls (fit room ls)
fit-Splits room [] = record { rest = []; whole = refl }
fit-Splits room (l ∷ ls) = elim (Bool-cases (ltb room (length l))) [
  | inl h ↦ rw h (record { rest = l ∷ ls; whole = refl })
  | inr h ↦
      let later = fit-Splits (room - length l) ls in
      rw h (record { rest = later.rest; whole = ap (◌∷◌ l) later.whole })
]

chosen-Splits : (budget : ℕ) (allow : Bool) (ls : List Bytes) → Splits ls (chosen budget allow ls)
chosen-Splits budget allow [] = record { rest = []; whole = refl }
chosen-Splits budget allow (l ∷ ls) = elim (Bool-cases (ltb budget (length l))) [
  | inl h ↦ rw h (over allow)
  | inr h ↦
      let later = fit-Splits (budget - length l) ls in
      rw h (record { rest = later.rest; whole = ap (◌∷◌ l) later.whole })
]
  where
    over : (allow : Bool) → Splits (l ∷ ls) (if allow then l ∷ [] else [])
    over true = record { rest = ls; whole = refl }
    over false = record { rest = l ∷ ls; whole = refl }

pub round_lines-Splits :
    (budget : ℕ) (allow : Bool) (left : ℕ) (ls : List Bytes)
    → Splits ls (round_lines budget allow left ls)
round_lines-Splits budget allow left ls = elim (Bool-cases (budget == 0)) [
  | inl z ↦ rw z (record { rest = ls; whole = refl })
  | inr nz ↦ rw nz (elim (Bool-cases (leb left budget)) [
    | inl h ↦ rw h (record { rest = []; whole = append-nil ls })
    | inr h ↦ rw h (chosen-Splits budget allow ls)
  ])
]

-- Behind `n` bytes of lines, the first of the lines that are left does not fit into the budget.
abbrev pub StopsBefore : ℕ → ℕ → List Bytes → Type 0
StopsBefore budget n [] = Unit
StopsBefore budget n (l ∷ _) = budget < n + length l

-- The lines `ts` are a round over `ls`: the first of them, within the budget, or one line alone
-- that is longer than the budget and is allowed; and no further line would have fitted.
pub record IsRound (budget : ℕ) (allow : Bool) (ls ts : List Bytes) : Type 0 where
  pub rest : List Bytes
  pub whole : ts ++ rest ≡ ls
  pub bounded :
      (length (concat ts) ≤ budget)
      ⊎ ((allow ≡ true) × (l : Bytes) × (ts ≡ l ∷ []) × (budget < length l))
  pub full : StopsBefore budget (length (concat ts)) rest

StopsBefore-shift :
    (room taken n m : ℕ) (rest : List Bytes)
    → taken ≤ room
    → m ≡ taken + n
    → StopsBefore (room - taken) n rest
    → StopsBefore room m rest
StopsBefore-shift room taken n m [] h e f = tt
StopsBefore-shift room taken n m (l ∷ rest) h e f = omega arith

-- The same of the lines that fit into a room, where no line is longer than what is allowed.
record IsFit (room : ℕ) (ls ts : List Bytes) : Type 0 where
  rest : List Bytes
  whole : ts ++ rest ≡ ls
  bounded : length (concat ts) ≤ room
  full : StopsBefore room (length (concat ts)) rest

fit-IsFit : (room : ℕ) (ls : List Bytes) → IsFit room ls (fit room ls)
fit-IsFit room [] = record { rest = []; whole = refl; bounded = omega arith; full = tt }
fit-IsFit room (l ∷ ls) = elim (Bool-cases (ltb room (length l))) [
  | inl h ↦ rw h (record {
    rest = l ∷ ls;
    whole = refl;
    bounded = omega arith;
    full = omega (arith, ltb→lt room (length l) h);
  })
  | inr h ↦
      let later = fit-IsFit (room - length l) ls in
      let small = ltb→le room (length l) h in
      let size = length-append l (concat (fit (room - length l) ls)) in
      rw h (record {
        rest = later.rest;
        whole = ap (◌∷◌ l) later.whole;
        bounded = omega (arith, small, size, later.bounded);
        full = StopsBefore-shift room (length l) _ _ later.rest small size later.full;
      })
]

chosen-IsRound :
    (budget : ℕ) (allow : Bool) (ls : List Bytes) → IsRound budget allow ls (chosen budget allow ls)
chosen-IsRound budget allow [] = record {
  rest = [];
  whole = refl;
  bounded = inl (omega arith);
  full = tt;
}
chosen-IsRound budget allow (l ∷ ls) = elim (Bool-cases (ltb budget (length l))) [
  | inl h ↦ rw h (over allow (ltb→lt budget (length l) h))
  | inr h ↦ rw h (rw h at (within (fit-IsFit budget (l ∷ ls))))
]
  where
    within : {ts : List Bytes} → IsFit budget (l ∷ ls) ts → IsRound budget allow (l ∷ ls) ts
    within f = record { rest = f.rest; whole = f.whole; bounded = inl f.bounded; full = f.full }

    stops : (n : ℕ) (rest : List Bytes) → budget < n → StopsBefore budget n rest
    stops n [] h = tt
    stops n (x ∷ rest) h = omega arith

    over :
        (allow : Bool)
        → budget < length l
        → IsRound budget allow (l ∷ ls) (if allow then l ∷ [] else [])
    over true h = record {
      rest = ls;
      whole = refl;
      bounded = inr (refl, l, refl, h);
      full = stops _ ls (omega (arith, length-append l []));
    }
    over false h = record {
      rest = l ∷ ls;
      whole = refl;
      bounded = inl (omega arith);
      full = omega arith;
    }

-- The lines of a round with some budget, of a file of which `left` bytes are left.
pub round_lines-IsRound :
    (budget : ℕ) (allow : Bool) (left : ℕ) (ls : List Bytes)
    → 0 < budget
    → length (concat ls) ≡ left
    → IsRound budget allow ls (round_lines budget allow left ls)
round_lines-IsRound budget allow left ls pos e =
    rw (ne→== budget 0 (omega arith)) (elim (Bool-cases (leb left budget)) [
      | inl h ↦
          rw h
            (record { rest = []; whole = append-nil ls; bounded = inl (ground arith); full = tt })
      | inr h ↦ rw h (chosen-IsRound budget allow ls)
    ])
