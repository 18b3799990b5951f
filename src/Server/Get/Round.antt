-- ===== src/Server/Get/Round.antt =====
-- One round of serve_get on a file that stays as it was: which bytes the peer gets (server.cpp).
use link_scheduling.Prelude.{
  ℕ, zero, suc, ◌+◌, ◌-◌, ◌^◌, ◌≤◌, ◌<◌, ◌≡◌, refl, sym, ap, ◌∙◌, inl, inr, ◌||◌, Bool, true, false,
  List, [], ◌∷◌, ◌++◌, arith, leb, ◌==◌, if◌then◌else◌, length, concat, drop, Bool-cases, lt→ltb,
  length-drop, length-append, concat-append, add64, drop_all, ne→==,
}
use link_scheduling.Prelude.Text.{Bytes}
use link_scheduling.Request.{Request}
use link_scheduling.World.{World}
use link_scheduling.World.Send.{delivered, delivered-nil, delivered-delivered, send_all_whole}
use link_scheduling.FileIo.{is_valid_filename, file_exists, is_some, path_in}
use link_scheduling.FileIo.Lines.{lines, concat-lines}
use link_scheduling.FileIo.Lines.Read.{Holds, open_input-Holds, within}
use link_scheduling.Protocol.{ok_line, send_response}
use link_scheduling.Server.Get.{served, round_choice, transfer, get_round, send_header, serve_get}
use link_scheduling.Server.Get.Lines.{round_lines, round_overruns, round_lines-Splits}
use link_scheduling.Server.Get.Select.{select_loop-chosen}
use link_scheduling.Server.Get.Packets.{At, Holds-delivered, send_packets-lines}

-- The lines of the file behind the request's offset.
abbrev pub left_lines : Request → Bytes → List Bytes
left_lines req content = lines (drop req.offset content)

-- The lines that the round sends.
abbrev pub sent_lines : ℕ → Bool → Request → Bytes → List Bytes
sent_lines budget allow req content =
    round_lines budget allow (req.total_bytes - req.offset) (left_lines req content)

-- The request behind the round: one more A14 event, if a line was let through.
abbrev pub after_round : ℕ → Bool → Request → Bytes → Request
after_round budget allow req content = record req {
  a14_events =
      if round_overruns budget allow (req.total_bytes - req.offset) (left_lines req content)
      then add64 req.a14_events 1
      else req.a14_events;
}

-- The request is about this file, and it has not gone past its end.
pub record IsAbout (req : Request) (content : Bytes) : Type 0 where
  pub total : req.total_bytes ≡ length content
  pub reached : req.offset ≤ length content

-- A round with nothing to send, or no budget, has no lines.
idle_round :
    {content : Bytes} (req : Request) (budget : ℕ) (allow : Bool)
    → IsAbout req content
    → (leb req.total_bytes req.offset || budget == 0) ≡ true
    → (sent_lines budget allow req content ≡ [])
      × (round_overruns budget allow (req.total_bytes - req.offset) (left_lines req content)
          ≡ false)
idle_round {content} req budget allow about over = elim (Bool-cases (budget == 0)) [
  | inl z ↦ (rw z refl, rw z refl)
  | inr nz ↦
      let ended : leb (req.total_bytes - req.offset) budget ≡ true = ground arith in
      (
        rw (nz, ended) (ap lines (drop_all req.offset content (ground (arith, about.total)))),
        rw (nz, ended) refl,
      )
]

module _ {w : World} {path content : Bytes} (h : Holds w path content) (s : w.sends ≡ []) where
  transfer-lines :
      (req : Request) (room : ℕ) (ts : List Bytes)
      → At content req.offset ts
      → length (concat ts) < 2 ^ 64
      → transfer req path (length (concat ts)) (suc room) w
        ≡ (served true req (length (concat ts)), delivered req.client_fd (concat ts) w)
  unfolding transfer
  transfer-lines req room ts at b =
      rw (open_input-Holds h, transfer)
        (rw (lt→ltb req.offset (2 ^ 63) (within h at.inside)) (
          send_packets-lines (suc (length (concat ts))) room req path content req.offset 0 ts w h s
            at (omega arith) (omega arith)
          ∙ ap (λ (n : ℕ). (served true req n, delivered req.client_fd (concat ts) w)) zero_more))
    where
      zero_more : 0 + length (concat ts) ≡ length (concat ts)
      zero_more = omega arith

  round_choice-lines :
      (req : Request) (budget : ℕ) (allow : Bool)
      → IsAbout req content
      → req.offset < req.total_bytes
      → 0 < budget
      → round_choice w req path budget allow ≡ (
        length (concat (sent_lines budget allow req content)),
        (after_round budget allow req content).a14_events,
      )
  unfolding round_choice
  round_choice-lines req budget allow about more pos =
      elim (Bool-cases (leb (req.total_bytes - req.offset) budget)) [
        | inl all ↦
            rw (ne→== budget 0 (omega arith), all, round_choice)
              (ap (λ (n : ℕ). (n, req.a14_events))
                (omega (
                  arith,
                  about.total,
                  length-drop req.offset content,
                  ap length (concat-lines (drop req.offset content)),
                )))
        | inr some_lines ↦
            rw (ne→== budget 0 (omega arith), some_lines, round_choice)
              (select_loop-chosen h budget allow req.a14_events req.offset (left_lines req content)
                about.reached refl pos (ground (arith, about.total, h.seekable)))
      ]

  -- The lines of a round stand in the file from the offset on.
  sent_lines-At :
      (req : Request) (budget : ℕ) (allow : Bool)
      → IsAbout req content
      → At content req.offset (sent_lines budget allow req content)
  sent_lines-At req budget allow about =
      let split =
        round_lines-Splits budget allow (req.total_bytes - req.offset) (left_lines req content) in
      record { inside = about.reached; rest = split.rest; here = sym split.whole }

  At-size : (offset : ℕ) (ts : List Bytes) → At content offset ts → length (concat ts) < 2 ^ 64
  At-size offset ts at = omega (
    arith,
    h.seekable,
    ap (λ (ls : List Bytes). length (concat ls)) at.here,
    ap length (concat-append ts at.rest),
    length-append (concat ts) (concat at.rest),
    ap length (concat-lines (drop offset content)),
    length-drop offset content,
  )

  send_choice :
      (req : Request) (room : ℕ) (ts : List Bytes)
      → At content req.offset ts
      → (if length (concat ts) == 0
          then (served true req 0, w)
          else transfer req path (length (concat ts)) (suc room) w)
        ≡ (served true req (length (concat ts)), delivered req.client_fd (concat ts) w)
  send_choice req room ts at = by_bytes (concat ts) refl
    where
      by_bytes :
          (b : Bytes)
          → concat ts ≡ b
          → (if length (concat ts) == 0
              then (served true req 0, w)
              else transfer req path (length (concat ts)) (suc room) w)
            ≡ (served true req (length (concat ts)), delivered req.client_fd (concat ts) w)
      by_bytes [] e = rw e (λ i. (served true req 0, delivered-nil req.client_fd w i))
      by_bytes (c ∷ cs) e =
          rw (ne→== (length (concat ts)) 0 (omega (arith, ap length e)))
            (transfer-lines req room ts at (At-size req.offset ts at))

  get_round-lines :
      (req : Request) (budget : ℕ) (allow : Bool) (room : ℕ)
      → IsAbout req content
      → get_round req path budget allow (suc room) w ≡ (
        served true
            (after_round budget allow req content)
            (length (concat (sent_lines budget allow req content))),
        delivered req.client_fd (concat (sent_lines budget allow req content)) w,
      )
  unfolding get_round
  get_round-lines req budget allow room about =
      elim (Bool-cases (leb req.total_bytes req.offset || budget == 0)) [
        | inl over ↦
            let (no_lines, no_event) = idle_round req budget allow about over in
            rw (over, get_round)
              (rw (no_lines, no_event) (λ i. (served true req 0, delivered-nil req.client_fd w i)))
        | inr more ↦
            rw (more, get_round)
              (rw
                (
                  ne→== (suc room) 0 (omega arith),
                  round_choice-lines req budget allow about (ground arith) (ground arith),
                )
                (send_choice (after_round budget allow req content) room
                  (sent_lines budget allow req content) (sent_lines-At req budget allow about)))
      ]

-- What goes out in front of the first lines.
abbrev pub header : Request → Bytes
header req = if req.response_sent then [] else ok_line req.total_bytes

send_header-delivered :
    (req : Request) (w : World)
    → w.sends ≡ []
    → send_header req w
      ≡ (record req { response_sent = true }, delivered req.client_fd (header req) w)
unfolding send_header send_response
send_header-delivered req w s = elim (Bool-cases req.response_sent) [
  | inl e ↦
      rw (e, send_header)
        (λ i. (record req { response_sent = true }, delivered-nil req.client_fd w i))
  | inr e ↦
      rw (e, send_header)
        (λ i. (
          record req { response_sent = true },
          (send_all_whole req.client_fd (ok_line req.total_bytes) w s i).1,
        ))
]

file_exists-Holds :
    {w : World} {path content : Bytes} → Holds w path content → file_exists w path ≡ true
unfolding file_exists
file_exists-Holds h = ap is_some h.stored

-- A round of serve_get, with a file that is there, can be read and has the size that the request
-- was admitted with, and no send that fails: it succeeds, for every positive packetization the
-- peer gets the response header, if it has not had it, and then the lines of the round in order,
-- and their bytes are counted.
pub serve_get-sent_lines :
    (req : Request) (file_dir content : Bytes) (budget : ℕ) (allow : Bool) (packetization : ℕ)
    (w : World)
    → is_valid_filename req.filename ≡ true
    → Holds w (path_in file_dir req.filename) content
    → w.sends ≡ []
    → IsAbout req content
    → 0 < packetization
    → serve_get req file_dir budget allow packetization w ≡ (
      served true
          (record (after_round budget allow req content) { response_sent = true })
          (length (concat (sent_lines budget allow req content))),
      delivered req.client_fd (header req ++ concat (sent_lines budget allow req content)) w,
    )
unfolding serve_get
serve_get-sent_lines req file_dir content budget allow zero w v h s about p = absurd (omega arith)
serve_get-sent_lines req file_dir content budget allow (suc room) w v h s about p =
    rw (v, serve_get)
      (rw (file_exists-Holds h, send_header-delivered req w s)
        (get_round-lines (Holds-delivered req.client_fd (header req) h) s
            (record req { response_sent = true }) budget allow room
            (record { total = about.total; reached = about.reached })
          ∙ λ i. (
            served true (record (after_round budget allow req content) { response_sent = true })
                (length (concat (sent_lines budget allow req content))),
            delivered-delivered req.client_fd (header req)
                (concat (sent_lines budget allow req content)) w i,
          )))
