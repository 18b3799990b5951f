-- ===== src/Server/Get/Packets.antt =====
-- The packets of a GET round: whatever their size, they carry the lines of the round in order
-- (server.cpp).
use mathlib.Core.Path.{subst}
use link_scheduling.Prelude.{
  ℕ, zero, suc, ◌+◌, ◌^◌, ◌≤◌, ◌<◌, ◌≡◌, refl, sym, ap, ◌∙◌, true, List, [], ◌∷◌, ◌++◌, arith,
  length, concat, take, drop, length-append, lt→ltb, append-nil, append_assoc, add64, add64-eq,
  take-append-drop, concat-append,
}
use link_scheduling.Prelude.Text.{Bytes}
use link_scheduling.Request.{Request}
use link_scheduling.World.{World, send_all}
use link_scheduling.World.Send.{delivered, delivered-nil, delivered-delivered, send_all_whole}
use link_scheduling.FileIo.Lines.{lines}
use link_scheduling.FileIo.Lines.Read.{Holds, read_file_line-cons}
use link_scheduling.Server.Get.{served, gathered, gather, send_packets}

-- The file from `offset` on begins with the lines `ts`.
pub record At (content : Bytes) (offset : ℕ) (ts : List Bytes) : Type 0 where
  pub inside : offset ≤ length content
  pub rest : List Bytes
  pub here : lines (drop offset content) ≡ ts ++ rest

module _ {w : World} {path content : Bytes} (h : Holds w path content) where
  At-tail :
      (offset : ℕ) (t : Bytes) (ts : List Bytes)
      → At content offset (t ∷ ts)
      → At content (offset + length t) ts
  At-tail offset t ts at =
      let r = read_file_line-cons h offset at.inside at.here in
      record { inside = r.inside; rest = at.rest; here = r.later }

  At-move : {m n : ℕ} (ts : List Bytes) → m ≡ n → At content m ts → At content n ts
  At-move ts e at = subst (λ (k : ℕ). At content k ts) e at

  -- A packet takes the next lines, up to `room` of them, from the bytes of the round.
  pub gather-take :
      (room offset : ℕ) (ts : List Bytes) (packet : Bytes)
      → At content offset ts
      → gather room w path offset (length (concat ts)) packet
        ≡ gathered
            (packet ++ concat (take room ts))
            (offset + length (concat (take room ts)))
            (length (concat (drop room ts)))
  unfolding gather
  gather-take zero offset ts packet at = ground (arith, append-nil packet)
  gather-take (suc room) offset [] packet at = ground (arith, append-nil packet)
  gather-take (suc room) offset (t ∷ ts) packet at =
      let r = read_file_line-cons h offset at.inside at.here in
      ground (
        arith,
        r.reads,
        r.some_byte,
        length-append t (concat ts),
        length-append t (concat (take room ts)),
        append_assoc packet t (concat (take room ts)),
        gather-take room (offset + length t) ts (packet ++ t) (At-tail offset t ts at),
      )

  -- Behind the lines of a packet the other lines of the round are left.
  pub At-drop :
      (room offset : ℕ) (ts : List Bytes)
      → At content offset ts
      → At content (offset + length (concat (take room ts))) (drop room ts)
  At-drop zero offset ts at = At-move ts (omega arith) at
  At-drop (suc room) offset [] at = At-move [] (omega arith) at
  At-drop (suc room) offset (t ∷ ts) at =
      At-move (drop room ts) (omega (arith, length-append t (concat (take room ts))))
        (At-drop room (offset + length t) ts (At-tail offset t ts at))

pub concat-take-drop :
    (n : ℕ) (ts : List Bytes) → concat (take n ts) ++ concat (drop n ts) ≡ concat ts
concat-take-drop n ts =
    sym (concat-append (take n ts) (drop n ts)) ∙ ap concat (take-append-drop n ts)

length-concat-drop : (n : ℕ) (ts : List Bytes) → length (concat (drop n ts)) ≤ length (concat ts)
length-concat-drop n ts = omega (
  arith,
  ap length (concat-take-drop n ts),
  length-append (concat (take n ts)) (concat (drop n ts)),
)

pub Holds-delivered :
    {w : World} {path content : Bytes} (fd : ℕ) (bytes : Bytes)
    → Holds w path content
    → Holds (delivered fd bytes w) path content
Holds-delivered fd bytes h = record { opens = h.opens; stored = h.stored; seekable = h.seekable }

send_packets-step :
    (fuel p : ℕ) (req : Request) (path : Bytes) (offset left processed : ℕ) (w : World)
    {packet : Bytes} {offset' left' : ℕ} {w' : World}
    → 0 < left
    → gather p w path offset left [] ≡ gathered packet offset' left'
    → send_all req.client_fd packet w ≡ (true, w')
    → send_packets (suc fuel) p req path offset left processed w
      ≡ send_packets fuel p req path offset' left' (add64 processed (length packet)) w'
unfolding send_packets
send_packets-step fuel p req path offset left processed w pos g s =
    rw (lt→ltb 0 left pos, send_packets) (rw g (rw s refl))

-- The packets of a round, whatever their size, hand the peer the lines of the round, and are
-- counted to the byte.
pub send_packets-lines :
    (fuel room : ℕ) (req : Request) (path content : Bytes) (offset processed : ℕ) (ts : List Bytes)
    (w : World)
    → Holds w path content
    → w.sends ≡ []
    → At content offset ts
    → length (concat ts) < fuel
    → processed + length (concat ts) < 2 ^ 64
    → send_packets fuel (suc room) req path offset (length (concat ts)) processed w
      ≡ (served true req (processed + length (concat ts)), delivered req.client_fd (concat ts) w)
unfolding send_packets
send_packets-lines zero room req path content offset processed ts w h s at f b =
    absurd (omega arith)
send_packets-lines (suc fuel) room req path content offset processed [] w h s at f b =
    λ i. (served true req (nothing i), delivered-nil req.client_fd w i)
  where
    nothing : processed ≡ processed + 0
    nothing = omega arith
send_packets-lines (suc fuel) room req path content offset processed (t ∷ ts) w h s at f b =
    let r = read_file_line-cons h offset at.inside at.here in
    let packet : Bytes = t ++ concat (take room ts) in
    let left : Bytes = concat (drop room ts) in
    let fits : length packet + length left ≡ length (t ++ concat ts) = omega (
      arith,
      length-append t (concat ts),
      length-append t (concat (take room ts)),
      length-append (concat (take room ts)) left,
      ap length (concat-take-drop room ts),
    ) in
    let some_bytes : 0 < length packet =
      omega (arith, r.some_byte, length-append t (concat (take room ts))) in
    let later =
      send_packets-lines fuel room req path content (offset + length packet)
        (processed + length packet) (drop room ts) (delivered req.client_fd packet w)
        (Holds-delivered req.client_fd packet h) s (At-drop h (suc room) offset (t ∷ ts) at)
        (omega arith) (omega arith) in
    send_packets-step fuel (suc room) req path offset _ processed w (omega arith)
      (gather-take h (suc room) offset (t ∷ ts) [] at) (send_all_whole req.client_fd packet w s)
    ∙ ap
        (λ (n : ℕ).
          send_packets fuel (suc room) req path (offset + length packet) (length left) n
            (delivered req.client_fd packet w))
        (add64-eq processed (length packet) (omega arith))
    ∙ later
    ∙ λ i. (
      served true req (counted (processed) (length packet) (length left) fits i),
      (delivered-delivered req.client_fd packet left w
            ∙ ap (λ (x : Bytes). delivered req.client_fd x w)
                (concat-take-drop (suc room) (t ∷ ts)))
          i,
    )
  where
    counted : (a b c : ℕ) {d : ℕ} → b + c ≡ d → a + b + c ≡ a + d
    counted a b c e = omega arith
