-- ===== src/Server/Get/Select.antt =====
-- The selecting loop of serve_get against the lines of the round (server.cpp).
use link_scheduling.Prelude.{
  ℕ, zero, suc, ◌+◌, ◌-◌, ◌^◌, ◌≤◌, ◌<◌, ◌≡◌, Bool, List, [], ◌∷◌, arith, if◌then◌else◌, length,
  concat, drop, length-append, append-nil, add64, add64-eq,
}
use link_scheduling.Prelude.Text.{Bytes}
use link_scheduling.World.{World}
use link_scheduling.FileIo.Lines.{lines}
use link_scheduling.FileIo.Lines.Read.{Holds, read_file_line-cons, read_file_line-nil}
use link_scheduling.Server.Get.{select_loop}
use link_scheduling.Server.Get.Lines.{fit, chosen, overruns}

module _ {w : World} {path content : Bytes} (h : Holds w path content) (budget : ℕ) (allow : Bool)
    (a14 : ℕ) where
  -- With some line taken, the loop goes on as long as the lines fit.
  select_loop-fit :
      (fuel offset taken : ℕ) (ls : List Bytes)
      → offset ≤ length content
      → lines (drop offset content) ≡ ls
      → 0 < taken
      → taken ≤ budget
      → budget < 2 ^ 63
      → budget < fuel + taken
      → select_loop fuel w path budget allow offset taken a14
        ≡ (taken + length (concat (fit (budget - taken) ls)), a14)
  unfolding select_loop
  select_loop-fit zero offset taken ls o e p t b f = absurd (omega arith)
  select_loop-fit (suc fuel) offset taken [] o e p t b f =
      ground (arith, read_file_line-nil h offset o e)
  select_loop-fit (suc fuel) offset taken (l ∷ ls) o e p t b f =
      let r = read_file_line-cons h offset o e in
      ground (
        arith,
        r.reads,
        r.some_byte,
        r.inside,
        h.seekable,
        add64-eq taken (length l),
        length-append l (concat (fit (budget - taken - length l) ls)),
        select_loop-fit fuel (offset + length l) (taken + length l) ls r.inside r.later,
      )

  -- From the start of a round the loop selects the lines that were described.
  pub select_loop-chosen :
      (offset : ℕ) (ls : List Bytes)
      → offset ≤ length content
      → lines (drop offset content) ≡ ls
      → 0 < budget
      → budget < 2 ^ 63
      → select_loop (suc budget) w path budget allow offset 0 a14 ≡ (
        length (concat (chosen budget allow ls)),
        if overruns budget allow ls then add64 a14 1 else a14,
      )
  unfolding select_loop
  select_loop-chosen offset [] o e p b = ground (arith, read_file_line-nil h offset o e)
  select_loop-chosen offset (l ∷ ls) o e p b =
      let r = read_file_line-cons h offset o e in
      ground (
        arith,
        r.reads,
        r.some_byte,
        r.inside,
        add64-eq 0 (length l),
        append-nil l,
        length-append l (concat (fit (budget - length l) ls)),
        select_loop-fit budget (offset + length l) (length l) ls r.inside r.later,
      )
