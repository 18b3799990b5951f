-- ===== src/Worker/Deliver/Progress.antt =====
-- Every round of a download that does not finish it brings its end closer, under each policy
-- (scheduling.cpp, server.cpp, main.cpp).
use link_scheduling.Prelude.{
  ℕ, zero, suc, ◌+◌, ◌-◌, ◌*◌, ◌^◌, ◌≤◌, ◌<◌, ◌≡◌, refl, ap, ◌∙◌, inl, inr, Bool, true, List, [],
  ◌∷◌, arith, ltb, leb, ◌==◌, if◌then◌else◌, length, concat, drop, length-append, length-drop,
  Bool-cases, ==→eq, ne→==, add64, add64-eq,
}
use link_scheduling.Prelude.Text.{Bytes}
use link_scheduling.Request.{Request}
use link_scheduling.World.{World}
use link_scheduling.FileIo.Lines.{concat-lines}
use link_scheduling.FileIo.Lines.Read.{Holds, read_file_line-cons}
use link_scheduling.Scheduling.{SchedulingPolicy, fcfs, sjf, rr, drr, is_round_based, policy_budget}
use link_scheduling.Server.Get.Lines.{fit, chosen, round_lines}
use link_scheduling.Server.Get.Round.{IsAbout, left_lines, sent_lines}
use link_scheduling.Worker.{is_rr}
use link_scheduling.Worker.Deliver.Moves.{Moved}

-- How far a download is from its end: the bytes that are left come first, then the deficit that it
-- lacks.
abbrev pub distance : Bytes → Request → ℕ
distance content r =
    (length content - r.offset) * suc (length content) + (length content - r.deficit)

mul_closer : (a b m : ℕ) → a < b → a * suc m + m < b * suc m
mul_closer a zero m h = absurd (omega arith)
mul_closer a (suc b) m h = elim (Bool-cases (a == b)) [
  | inl e ↦ let same : a ≡ b = ==→eq a b e in rw same (omega arith)
  | inr e ↦ omega (arith, mul_closer a b m (ground (arith, e, h)))
]

-- A first line that is let through is sent.
chosen-first :
    (budget : ℕ) (l : Bytes) (ls : List Bytes)
    → length l ≤ length (concat (chosen budget true (l ∷ ls)))
chosen-first budget l ls = elim (Bool-cases (ltb budget (length l))) [
  | inl h ↦ rw h (omega (arith, length-append l []))
  | inr h ↦ rw h (omega (arith, length-append l (concat (fit (budget - length l) ls))))
]

first_sent :
    (budget left : ℕ) (ls : List Bytes) (allow : Bool)
    → length (concat ls) ≡ left
    → ((l : Bytes) (more : List Bytes) → ls ≡ l ∷ more → 0 < length l)
    → 0 < left
    → allow ≡ true
    → 0 < length (concat (chosen budget allow ls))
first_sent budget left [] allow size some_byte pos a = absurd (omega arith)
first_sent budget left (l ∷ ls) allow size some_byte pos a =
    rw a (omega (arith, chosen-first budget l ls, some_byte l ls refl))

-- A round that leaves something had less budget than was left; and it has sent a line, if it may
-- exceed its budget.
round_lines-progress :
    (budget : ℕ) (allow : Bool) (left : ℕ) (ls : List Bytes)
    → 0 < budget
    → length (concat ls) ≡ left
    → ((l : Bytes) (more : List Bytes) → ls ≡ l ∷ more → 0 < length l)
    → length (concat (round_lines budget allow left ls)) < left
    → (budget < left) × ((allow ≡ true) → 0 < length (concat (round_lines budget allow left ls)))
round_lines-progress budget allow left ls pos size some_byte =
    rw (ne→== budget 0 (omega arith)) (elim (Bool-cases (leb left budget)) [
      | inl h ↦ rw h (λ short. absurd (omega (arith, size)))
      | inr h ↦
          rw h
            (λ short. (ground arith, first_sent budget left ls allow size some_byte (omega arith)))
    ])

-- A file that is not at its end has a line, which has a byte.
left_lines-nonempty :
    {w : World} {path content : Bytes} (req : Request)
    → Holds w path content
    → IsAbout req content
    → (l : Bytes) (more : List Bytes) → left_lines req content ≡ l ∷ more
    → 0 < length l
left_lines-nonempty req h about l more e =
    (read_file_line-cons h req.offset about.reached e).some_byte

-- The same of a round of a GET.
pub sent_lines-progress :
    {w : World} {path content : Bytes} (budget : ℕ) (allow : Bool) (req : Request)
    → Holds w path content
    → IsAbout req content
    → 0 < budget
    → let n = length (concat (sent_lines budget allow req content)) in
      req.offset + n < req.total_bytes
      → (budget < req.total_bytes - req.offset) × ((allow ≡ true) → 0 < n)
sent_lines-progress {content = content} budget allow req h about pos unfinished =
    round_lines-progress budget allow (req.total_bytes - req.offset) (left_lines req content) pos
      (omega (
        arith,
        about.total,
        ap length (concat-lines (drop req.offset content)),
        length-drop req.offset content,
      ))
      (left_lines-nonempty req h about) (omega (arith, unfinished))

further :
    (m o n d o' d' : ℕ)
    → o' ≡ o + n
    → 0 < n
    → o + n < m
    → (m - o') * suc m + (m - d') < (m - o) * suc m + (m - d)
further m o n d o' d' e pos h = omega (arith, mul_closer (m - o') (m - o) m (omega (arith, e)))

richer :
    (m o d o' d' : ℕ)
    → o' ≡ o
    → d < d'
    → d' ≤ m
    → (m - o') * suc m + (m - d') < (m - o) * suc m + (m - d)
richer m o d o' d' e h k = rw e (omega arith)

-- A round with the budget of its policy, which was too small for what is left.
pub policy_budget-distance :
    (p : SchedulingPolicy) (quantum : ℕ) (content : Bytes) (req r : Request) (n : ℕ)
    → ((is_round_based p ≡ true) → 0 < quantum)
    → req.deficit + quantum < 2 ^ 64
    → req.deficit ≤ length content
    → req.total_bytes ≡ length content
    → req.offset < req.total_bytes
    → let given = policy_budget p quantum req in
      given.1 < req.total_bytes - req.offset
      → ((is_rr p ≡ true) → 0 < n)
      → Moved p given.0 r n
      → (r.deficit ≤ length content) × (distance content r < distance content req)
unfolding policy_budget
policy_budget-distance fcfs quantum content req r n q o d t h short line m = absurd (ground arith)
policy_budget-distance sjf quantum content req r n q o d t h short line m = absurd (ground arith)
policy_budget-distance rr quantum content req r n q o d t h short line m = (
  omega (arith, m.spent, d),
  further (length content) req.offset n req.deficit r.offset r.deficit m.moved (line refl)
      (omega (arith, m.unfinished, t)),
)
policy_budget-distance drr quantum content req r n q o d t h short line m =
    let sum : add64 req.deficit quantum ≡ req.deficit + quantum = add64-eq req.deficit quantum o in
    let small : req.deficit + quantum < length content = ground (arith, sum, short, t) in
    let spent : r.deficit
        ≡ (if leb (req.deficit + quantum) n then 0 else req.deficit + quantum - n) =
      m.spent ∙ ap (λ (k : ℕ). if leb k n then 0 else k - n) sum in
    let bounded : r.deficit ≤ length content = ground (arith, spent, small) in
    (
      bounded,
      elim (Bool-cases (n == 0)) [
        | inl none_sent ↦
            richer (length content) req.offset req.deficit r.offset r.deficit
              (omega (arith, m.moved, ==→eq n 0 none_sent))
              (ground (arith, spent, none_sent, q refl)) bounded
        | inr some_sent ↦
            further (length content) req.offset n req.deficit r.offset r.deficit m.moved
              (ground (arith, some_sent)) (omega (arith, m.unfinished, t))
      ],
    )
