-- ===== src/Protocol/Fresh.antt =====
-- What an accepted header makes: a request that has not begun (protocol.cpp).
use link_scheduling.Prelude.{
  ℕ, ◌≡◌, refl, inl, inr, Bool, true, false, not, ◌||◌, some, none, Option, [], if◌then◌else◌,
  Option-cases, map,
}
use link_scheduling.Prelude.Text.{Bytes, codes, eq_bytes}
use link_scheduling.Prelude.Decimal.{stoull}
use link_scheduling.Request.{Operation, get, put, health, Request}
use link_scheduling.Queue.{is_empty}
use link_scheduling.Protocol.{
  Result, ok, throws, header_request, extract, all_digits, count_or_throw, put_count, parse_health,
  parse_get, parse_put, parse_operation, parse_request_header, strip_line_end, to_upper,
}

-- Some operation, name and size on this connection, and nothing else set.
abbrev pub FreshOutcome : ℕ → Result Request → Type 0
FreshOutcome fd (throws reason) = Unit
FreshOutcome fd (ok req) =
    (op : Operation) × (name : Bytes) × (total : ℕ) × (req ≡ header_request fd op name total)

FreshOutcome-if :
    (fd : ℕ) (b : Bool) (x y : Result Request)
    → FreshOutcome fd x
    → FreshOutcome fd y
    → FreshOutcome fd (if b then x else y)
FreshOutcome-if fd true x y h k = h
FreshOutcome-if fd false x y h k = k

parse_health-FreshOutcome : (fd : ℕ) (s : Bytes) → FreshOutcome fd (parse_health fd s)
unfolding parse_health
parse_health-FreshOutcome fd s = elim (Option-cases (extract s)) [
  | inl e ↦ rw (e, parse_health) (health, [], 0, refl)
  | inr (a, e) ↦ rw (e, parse_health) tt
]

parse_get-FreshOutcome : (fd : ℕ) (s : Bytes) → FreshOutcome fd (parse_get fd s)
unfolding parse_get
parse_get-FreshOutcome fd s = elim (Option-cases (extract s)) [
  | inl e ↦ rw (e, parse_get) tt
  | inr ((name, s'), e) ↦ elim (Option-cases (extract s')) [
    | inl f ↦ rw (e, parse_get) (rw f (get, name, 0, refl))
    | inr (a, f) ↦ rw (e, parse_get) (rw f tt)
  ]
]

count_or_throw-FreshOutcome :
    (fd : ℕ) (name : Bytes) (o : Option ℕ) → FreshOutcome fd (count_or_throw fd name o)
count_or_throw-FreshOutcome fd name none = tt
count_or_throw-FreshOutcome fd name (some n) = (put, name, n, refl)

put_count-FreshOutcome : (fd : ℕ) (name s : Bytes) → FreshOutcome fd (put_count fd name s)
unfolding put_count
put_count-FreshOutcome fd name s =
    FreshOutcome-if fd (is_empty s || not (all_digits s)) _ _ tt
      (count_or_throw-FreshOutcome fd name (stoull s))

parse_put-FreshOutcome : (fd : ℕ) (s : Bytes) → FreshOutcome fd (parse_put fd s)
unfolding parse_put
parse_put-FreshOutcome fd s = elim (Option-cases (extract s)) [
  | inl e ↦ rw (e, parse_put) tt
  | inr ((name, s'), e) ↦ elim (Option-cases (extract s')) [
    | inl f ↦ rw (e, parse_put) (rw f tt)
    | inr ((count, s''), f) ↦ elim (Option-cases (extract s'')) [
      | inl g ↦ rw (e, parse_put) (rw f (rw g (put_count-FreshOutcome fd name count)))
      | inr (a, g) ↦ rw (e, parse_put) (rw f (rw g tt))
    ]
  ]
]

parse_operation-FreshOutcome : (fd : ℕ) (op s : Bytes) → FreshOutcome fd (parse_operation fd op s)
unfolding parse_operation
parse_operation-FreshOutcome fd op s =
    FreshOutcome-if fd (eq_bytes op (codes "HEALTH")) _ _ (parse_health-FreshOutcome fd s) (
      FreshOutcome-if fd (eq_bytes op (codes "GET")) _ _ (parse_get-FreshOutcome fd s)
        (FreshOutcome-if fd (eq_bytes op (codes "PUT")) _ _ (parse_put-FreshOutcome fd s) tt))

by_word :
    (fd : ℕ) (line : Bytes)
    → FreshOutcome fd (elim (extract line) [
      | none ↦ throws (codes "missing operation")
      | some (op, s) ↦ parse_operation fd (map to_upper op) s
    ])
by_word fd line = elim (Option-cases (extract line)) [
  | inl e ↦ rw e tt
  | inr ((op, s), e) ↦ rw e (parse_operation-FreshOutcome fd (map to_upper op) s)
]

pub parse_request_header-FreshOutcome :
    (header : Bytes) (fd : ℕ) → FreshOutcome fd (parse_request_header header fd)
unfolding parse_request_header
parse_request_header-FreshOutcome header fd =
    FreshOutcome-if fd (is_empty (strip_line_end header)) _ _ tt
      (by_word fd (strip_line_end header))
