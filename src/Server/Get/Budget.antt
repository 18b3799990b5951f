-- ===== src/Server/Get/Budget.antt =====
-- What a round of serve_get sends, without the way it finds it (server.cpp, with the rules for
-- lines and budgets that README.md gives).
use link_scheduling.Prelude.{
  ℕ, ◌-◌, ◌<◌, ◌≡◌, true, List, [], ◌++◌, Bool, length, concat, length-drop, arith, ap,
}
use link_scheduling.Prelude.Text.{Bytes}
use link_scheduling.Request.{Request}
use link_scheduling.World.{World}
use link_scheduling.World.Send.{delivered}
use link_scheduling.FileIo.{is_valid_filename, path_in}
use link_scheduling.FileIo.Lines.{concat-lines}
use link_scheduling.FileIo.Lines.Read.{Holds}
use link_scheduling.Prelude.{drop}
use link_scheduling.Server.Get.{served, serve_get}
use link_scheduling.Server.Get.Lines.{IsRound, round_lines-IsRound}
use link_scheduling.Server.Get.Round.{
  IsAbout, left_lines, sent_lines, after_round, header, serve_get-sent_lines,
}

left_size :
    (req : Request) (content : Bytes)
    → IsAbout req content
    → length (concat (left_lines req content)) ≡ req.total_bytes - req.offset
left_size req content about = omega (
  arith,
  about.total,
  ap length (concat-lines (drop req.offset content)),
  length-drop req.offset content,
)

-- A round of serve_get with some budget and any positive packetization, for a valid file name, on
-- a file that can be read and is as long as the request says, when no send fails: it succeeds, sends the response header if
-- that has not been sent, and then whole lines, the first that are left of the file. Together these
-- have at most `budget` bytes, or it is one line alone that is longer, which only happens where it is
-- allowed; and the next line would not have fitted. The bytes of the lines are counted exactly.
pub serve_get-IsRound :
    (req : Request) (file_dir content : Bytes) (budget : ℕ) (allow : Bool) (packetization : ℕ)
    (w : World)
    → is_valid_filename req.filename ≡ true
    → Holds w (path_in file_dir req.filename) content
    → w.sends ≡ []
    → IsAbout req content
    → 0 < packetization
    → 0 < budget
    → (ts : List Bytes) × IsRound budget allow (left_lines req content) ts
      × (serve_get req file_dir budget allow packetization w ≡ (
        served true
            (record (after_round budget allow req content) { response_sent = true })
            (length (concat ts)),
        delivered req.client_fd (header req ++ concat ts) w,
      ))
serve_get-IsRound req file_dir content budget allow packetization w v h s about p pos = (
  sent_lines budget allow req content,
  round_lines-IsRound budget allow _ (left_lines req content) pos (left_size req content about),
  serve_get-sent_lines req file_dir content budget allow packetization w v h s about p,
)
