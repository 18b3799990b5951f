-- ===== src/World/Send.antt =====
-- send_all (socket.cpp): what reaches the peer.
use mathlib.Core.Path.{fun_ext}
use link_scheduling.Prelude.{
  ℕ, ◌≡◌, refl, sym, ap, ◌∙◌, ◌⊎◌, inl, inr, Bool, true, false, Option, none, some, List, [], ◌∷◌,
  ◌++◌, arith, take, drop, take-append-drop, append-nil, append_assoc,
}
use link_scheduling.Prelude.Text.{Bytes}
use link_scheduling.World.{World, send_loop, send_all, at_fd}

-- The sent bytes and some unsent ones make up the data, and none is unsent after success.
pub record SentPart (ok : Bool) (bytes sent : Bytes) : Type 0 where
  pub unsent : Bytes
  pub splits : sent ++ unsent ≡ bytes
  pub whole : (ok ≡ false) ⊎ (unsent ≡ [])

send_loop-SentPart :
    (answers : List (Option ℕ)) (bytes : Bytes)
    → SentPart (send_loop answers bytes).0 bytes (send_loop answers bytes).1
unfolding send_loop
send_loop-SentPart answers [] = record { unsent = []; splits = refl; whole = inr refl }
send_loop-SentPart [] (c ∷ rest) = record {
  unsent = [];
  splits = append-nil (c ∷ rest);
  whole = inr refl;
}
send_loop-SentPart (none ∷ answers) (c ∷ rest) = record {
  unsent = c ∷ rest;
  splits = refl;
  whole = inl refl;
}
send_loop-SentPart (some n ∷ answers) (c ∷ rest) =
    let later = send_loop-SentPart answers (drop n (c ∷ rest)) in
    record {
      unsent = later.unsent;
      splits =
          append_assoc (take n (c ∷ rest)) _ later.unsent
          ∙ ap (◌++◌ (take n (c ∷ rest))) later.splits
          ∙ take-append-drop n (c ∷ rest);
      whole = later.whole;
    }

-- However the socket cuts the data up, send_all hands the peer the data in order: all of it if it
-- returns true, and otherwise a part from the start; no other socket gets a byte of it.
pub send_all-SentPart :
    (fd : ℕ) (bytes : Bytes) (w : World)
    → (part : Bytes) × ((send_all fd bytes w).1.sent ≡ at_fd w.sent fd (w.sent fd ++ part))
      × SentPart (send_all fd bytes w).0 bytes part
unfolding send_all
send_all-SentPart fd bytes w = (_, refl, send_loop-SentPart w.sends bytes)

-- The world after `bytes` have been sent on `fd`.
abbrev pub delivered : ℕ → Bytes → World → World
delivered fd bytes w = record w { sent = at_fd w.sent fd (w.sent fd ++ bytes) }

-- With no send to fail, all is sent at once.
pub send_all_whole :
    (fd : ℕ) (bytes : Bytes) (w : World)
    → w.sends ≡ []
    → send_all fd bytes w ≡ (true, delivered fd bytes w)
unfolding send_all send_loop
send_all_whole fd [] w h = refl
send_all_whole fd (c ∷ rest) w h =
    ap {B = Bool × World} (λ (a : List (Option ℕ)). sending a) h
    ∙ ap {B = Bool × World}
        (λ (a : List (Option ℕ)). (true, record w { sent = sent_on (c ∷ rest); sends = a })) (sym h)
  where
    sent_on : Bytes → ℕ → Bytes
    sent_on bytes = at_fd w.sent fd (w.sent fd ++ bytes)

    sending : List (Option ℕ) → Bool × World
    sending a =
        let run = send_loop a (c ∷ rest) in
        (run.0, record w { sent = sent_on run.1; sends = run.2 })

at_fd-at_fd :
    (f : ℕ → Bytes) (fd : ℕ) (a b : Bytes)
    → at_fd (at_fd f fd (f fd ++ a)) fd (at_fd f fd (f fd ++ a) fd ++ b)
      ≡ at_fd f fd (f fd ++ (a ++ b))
at_fd-at_fd f fd a b = fun_ext λ k. ground (arith, append_assoc (f fd) a b)

-- Two deliveries in a row are one.
pub delivered-delivered :
    (fd : ℕ) (a b : Bytes) (w : World) → delivered fd b (delivered fd a w) ≡ delivered fd (a ++ b) w
delivered-delivered fd a b w =
    ap {B = World} (λ (s : ℕ → Bytes). record w { sent = s }) (at_fd-at_fd w.sent fd a b)

-- To deliver nothing is to change nothing.
pub delivered-nil : (fd : ℕ) (w : World) → w ≡ delivered fd [] w
delivered-nil fd w = ap {B = World} (λ (s : ℕ → Bytes). record w { sent = s }) same
  where
    same : w.sent ≡ at_fd w.sent fd (w.sent fd ++ [])
    same = fun_ext λ k. ground (arith, append-nil (w.sent k))
