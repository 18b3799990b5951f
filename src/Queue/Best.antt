-- ===== src/Queue/Best.antt =====
-- wait_pop_best (queue.h): which request it takes out of the queue.
use link_scheduling.Prelude.{
  ℕ, ◌+◌, ◌≡◌, refl, sym, ap, ◌∙◌, ◌⊎◌, ◌≢◌, inl, inr, not, ◌&&◌, ◌||◌, ◌==◌, if◌then◌else◌, Bool,
  true, false, List, [], ◌∷◌, ◌++◌, arith, length, length-append, add64, All, Bool-cases,
  append_assoc, append-nil,
}
use link_scheduling.Request.{Request}
use link_scheduling.Queue.{
  RequestQueue, Popped, waits, ends, pops, is_empty, best_loop, erase, pop_best, wait_pop_best,
}

-- A strict order of requests by some key: what the loop needs of `compare`.
pub record IsOrder (compare : Request → Request → Bool) : Type 0 where
  pub asym : (a b : Request) → compare a b ≡ true → compare b a ≡ false
  pub neg_trans :
      (a b c : Request) → compare a b ≡ false → compare b c ≡ false → compare a c ≡ false

All-snoc :
    (P : Request → Type 0) (xs : List Request) (r : Request) → All P xs → P r → All P (xs ++ r ∷ [])
All-snoc P [] r h p = (p, tt)
All-snoc P (x ∷ xs) r h p = (h.0, All-snoc P xs r h.1 p)

module _ (compare : Request → Request → Bool) where
  -- `best` stands at position `i` of the list, strictly before all that stand in front of it, and
  -- nothing behind it comes before it.
  pub record FirstBest (best : Request) (i : ℕ) (list : List Request) : Type 0 where
    pub front : List Request
    pub behind : List Request
    pub splits : front ++ best ∷ behind ≡ list
    pub position : length front ≡ i
    pub beats : All (λ x. compare best x ≡ true) front
    pub unbeaten : All (λ y. compare y best ≡ false) behind

  pub erase-middle :
      (xs ys : List Request) (r : Request) → erase (xs ++ r ∷ ys) (length xs) ≡ xs ++ ys
  unfolding erase
  erase-middle [] ys r = refl
  erase-middle (x ∷ xs) ys r = ap (◌∷◌ x) (erase-middle xs ys r)

  module _ (order : IsOrder compare) where
    open order use {asym, neg_trans}

    -- A new best comes before all that the old one came before.
    beats-front :
        (r b : Request) (xs : List Request)
        → compare r b ≡ true
        → All (λ x. compare b x ≡ true) xs
        → All (λ x. compare r x ≡ true) xs
    beats-front r b [] h t = tt
    beats-front r b (x ∷ xs) h t =
        (ground (arith, asym r b h, neg_trans b r x), beats-front r b xs h t.1)

    -- Nor was anything behind the old best ahead of the new one.
    beats-behind :
        (r b : Request) (ys : List Request)
        → compare r b ≡ true
        → All (λ y. compare y b ≡ false) ys
        → All (λ y. compare r y ≡ true) ys
    beats-behind r b [] h t = tt
    beats-behind r b (y ∷ ys) h t = (ground (arith, neg_trans r y b), beats-behind r b ys h t.1)

    beats-middle :
        (r b : Request) (xs ys : List Request)
        → compare r b ≡ true
        → All (λ x. compare b x ≡ true) xs
        → All (λ y. compare y b ≡ false) ys
        → All (λ x. compare r x ≡ true) (xs ++ b ∷ ys)
    beats-middle r b [] ys h t u = (h, beats-behind r b ys h u)
    beats-middle r b (x ∷ xs) ys h t u =
        (ground (arith, asym r b h, neg_trans b r x), beats-middle r b xs ys h t.1 u)

    FirstBest-better :
        (r b : Request) (i it : ℕ) (seen : List Request)
        → length seen ≡ it
        → compare r b ≡ true
        → FirstBest b i seen
        → FirstBest r it (seen ++ r ∷ [])
    FirstBest-better r b i it seen e h f = record {
      front = seen;
      behind = [];
      splits = refl;
      position = e;
      beats = rw f.splits at (beats-middle r b f.front f.behind h f.beats f.unbeaten);
      unbeaten = tt;
    }

    FirstBest-worse :
        (r b : Request) (i : ℕ) (seen : List Request)
        → compare r b ≡ false
        → FirstBest b i seen
        → FirstBest b i (seen ++ r ∷ [])
    FirstBest-worse r b i seen h f = record {
      front = f.front;
      behind = f.behind ++ r ∷ [];
      splits = sym (append_assoc f.front (b ∷ f.behind) (r ∷ [])) ∙ ap (λ l. l ++ r ∷ []) f.splits;
      position = f.position;
      beats = f.beats;
      unbeaten = All-snoc (λ y. compare y b ≡ false) f.behind r f.unbeaten h;
    }

    length-snoc :
        (seen : List Request) (r : Request) (it : ℕ)
        → length seen ≡ it
        → length (seen ++ r ∷ []) ≡ it + 1
    length-snoc seen r it e = omega (arith, length-append seen (r ∷ []))

    best_loop-FirstBest :
        (b : Request) (i it : ℕ) (seen rest : List Request)
        → length seen ≡ it
        → FirstBest b i seen
        → let (best, best_it) = best_loop compare b i it rest in
          FirstBest best best_it (seen ++ rest)
    unfolding best_loop
    best_loop-FirstBest b i it seen [] e f = rw (append-nil seen) f
    best_loop-FirstBest b i it seen (r ∷ rest) e f = elim (Bool-cases (compare r b)) [
      | inl h ↦
          rw (h, best_loop)
            (rw (append_assoc seen (r ∷ []) rest) at (
              best_loop-FirstBest r it (it + 1) (seen ++ r ∷ []) rest (length-snoc seen r it e)
                (FirstBest-better r b i it seen e h f)))
      | inr h ↦
          rw (h, best_loop)
            (rw (append_assoc seen (r ∷ []) rest) at (
              best_loop-FirstBest b i (it + 1) (seen ++ r ∷ []) rest (length-snoc seen r it e)
                (FirstBest-worse r b i seen h f)))
    ]

    erase_split :
        (xs ys list : List Request) (r : Request) (i : ℕ)
        → xs ++ r ∷ ys ≡ list
        → length xs ≡ i
        → erase list i ≡ xs ++ ys
    erase_split xs ys list r i e p = rw (← e, ← p) (erase-middle xs ys r)

    -- What a pop by `compare` takes out of a queue that holds `list`: the first of the requests
    -- that none comes before.
    pub record TakesBest (list : List Request) (r : Request) (q q' : RequestQueue) : Type 0 where
      pub at : ℕ
      pub first : FirstBest r at list
      pub left : q'.queue ≡ first.front ++ first.behind
      pub counted : q'.inflight ≡ add64 q.inflight 1
      pub same : q'.closed ≡ q.closed

    -- Every way in which a pop by `compare` can come out.
    abbrev pub BestOutcome : List Request → RequestQueue → Popped → Type 0
    BestOutcome list q waits = (list ≡ []) × ((q.closed ≡ false) ⊎ (q.inflight ≢ 0))
    BestOutcome list q (ends q') = (q' ≡ q) × (list ≡ []) × (q.closed ≡ true) × (q.inflight ≡ 0)
    BestOutcome list q (pops r q') = TakesBest list r q q'

    alone : (x : Request) → FirstBest x 0 (x ∷ [])
    alone x = record {
      front = [];
      behind = [];
      splits = refl;
      position = refl;
      beats = tt;
      unbeaten = tt;
    }

    pop_best-TakesBest :
        (q : RequestQueue) (x : Request) (rest : List Request)
        → BestOutcome (x ∷ rest) q (pop_best compare (x ∷ rest) q)
    pop_best-TakesBest q x rest = record {
      at = (best_loop compare x 0 1 rest).1;
      first = f;
      left = erase_split f.front f.behind (x ∷ rest) _ _ f.splits f.position;
      counted = refl;
      same = refl;
    }
      where
        f : FirstBest (best_loop compare x 0 1 rest).0 (best_loop compare x 0 1 rest).1 (x ∷ rest)
        f = best_loop-FirstBest x 0 1 (x ∷ []) rest refl (alone x)

    pop_cases :
        (q : RequestQueue) (list : List Request)
        → BestOutcome list q (
            if not (is_empty list) || (q.closed && q.inflight == 0)
            then pop_best compare list q
            else waits)
    pop_cases q [] = elim (Bool-cases (q.closed && q.inflight == 0)) [
      | inl h ↦ rw h (refl, refl, ground arith, ground arith)
      | inr h ↦ rw h (refl, ground arith)
    ]
    pop_cases q (x ∷ rest) = pop_best-TakesBest q x rest

    -- A pop by an order `compare` waits only on an empty queue that is open or has a request in
    -- flight, ends only on an empty closed queue with none in flight, and otherwise takes out the
    -- first request that none comes before, leaves the others in their order and counts it in.
    pub wait_pop_best-BestOutcome :
        (q : RequestQueue) → BestOutcome q.queue q (wait_pop_best compare q)
    unfolding wait_pop_best
    wait_pop_best-BestOutcome q = pop_cases q q.queue
