-- ===== src/Metrics/Csv.antt =====
-- metrics.cpp: write_csv.
use mathlib.Core.List.{Perm}
use link_scheduling.Prelude.{
  ℕ, ◌+◌, ◌%◌, ◌^◌, ◌≡◌, refl, sym, ap, ◌∙◌, inl, inr, Bool, true, false, some, List, [], ◌∷◌, ◌++◌,
  map, append_assoc, append-nil, arith, if◌then◌else◌, length, concat, Bool-cases, length-append,
}
use link_scheduling.Prelude.Text.{Bytes, codes}
use link_scheduling.Prelude.Decimal.{to_string, to_string_int}
use link_scheduling.Request.{Operation, get, put, health}
use link_scheduling.World.{World, M, pure, ◌>>=◌, draw_fault, next_fault}
use link_scheduling.Server.Put.{create_file, write_bytes}
use link_scheduling.FileIo.{close_stream}
use link_scheduling.Server.Put.Stream.{write_bytes-Wrote, at_path_here, close_stream-none}
use link_scheduling.Server.Put.Unflushed.{
  write_bytes-unflushed, create_file-unflushed, if_good-unflushed,
}
use link_scheduling.Metrics.{RequestMetrics}
use link_scheduling.Metrics.Sort.{sort_by, IsSortedBy, sort_by-Perm, sort_by-IsSortedBy}

-- `a.request_id < b.request_id` on int, whose bit pattern the model has.
abbrev pub id_order : RequestMetrics → ℕ
id_order row = (row.request_id + 2 ^ 31) % 2 ^ 32

abbrev pub csv_header : Bytes
csv_header =
    codes "request_id,op,filename,bytes,rounds,forfeited_bytes,arrival_ns,start_ns,finish_ns\n"

abbrev pub op_name : Operation → Bytes
op_name get = codes "GET"
op_name put = codes "PUT"
op_name health = codes "UNKNOWN"

abbrev pub csv_fields : RequestMetrics → List Bytes
csv_fields row =
    to_string_int row.request_id
    ∷ op_name row.op
    ∷ row.filename
    ∷ to_string row.total_bytes
    ∷ to_string row.rounds
    ∷ to_string row.forfeited_bytes
    ∷ to_string row.arrival_ns
    ∷ to_string row.start_ns
    ∷ to_string row.finish_ns
    ∷ []

-- Fields with commas between them, and a line end.
abbrev pub comma_line : List Bytes → Bytes
comma_line [] = b'\n' ∷ []
comma_line (field ∷ []) = field ++ b'\n' ∷ []
comma_line (field ∷ next ∷ fields) = field ++ b',' ∷ comma_line (next ∷ fields)

abbrev pub csv_row : RequestMetrics → Bytes
csv_row row = comma_line (csv_fields row)

-- `out << …` for each row, as one write; a stream that has failed ignores the others.
unfoldable pub write_rows : Bytes → ℕ → List RequestMetrics → M Bool
write_rows path pos [] = pure true
write_rows path pos (row ∷ rows) = do
  good ← write_bytes path pos (csv_row row)
  let more = write_rows path (pos + length (csv_row row)) rows
  if good then more else pure false

-- The stream is closed by its destructor, behind `out.good()`.
unfoldable pub write_opened : Bytes → List RequestMetrics → M Bool
write_opened path rows = do
  good ← write_bytes path 0 csv_header
  if good then write_rows path (length csv_header) (sort_by id_order rows) else pure false

unfoldable pub write_csv : Bytes → List RequestMetrics → M Bool
write_csv path records = do
  opened ← create_file path
  if opened
      then (do good ← write_opened path records; closed ← close_stream path 0; pure good)
      else pure false

-- The file has a line for each record, in order of the ids.
abbrev pub IsCsv : Bytes → List RequestMetrics → World → Type 0
IsCsv path records w =
    (rows : List RequestMetrics) × Perm rows records
    × IsSortedBy id_order rows
    × (w.files path ≡ some (csv_header ++ concat (map csv_row rows)))

abbrev pub CsvOutcome : Bytes → List RequestMetrics → Bool × World → Type 0
CsvOutcome path records (false, w) = Unit
CsvOutcome path records (true, w) = IsCsv path records w

-- Behind writes that all succeed the file has this content.
abbrev WroteOutcome : Bytes → Bytes → Bool × World → Type 0
WroteOutcome path content (false, w) = Unit
WroteOutcome path content (true, w) = w.files path ≡ some content

write_rows-WroteOutcome :
    (path : Bytes) (rows : List RequestMetrics) (content : Bytes) (pos : ℕ) (w : World)
    → w.files path ≡ some content
    → length content ≡ pos
    → WroteOutcome path (content ++ concat (map csv_row rows)) (write_rows path pos rows w)
unfolding write_rows
write_rows-WroteOutcome path [] content pos w s h = s ∙ ap some (sym (append-nil content))
write_rows-WroteOutcome path (row ∷ rows) content pos w s h =
    let line = csv_row row in
    elim (Bool-cases (write_bytes path pos line w).0) [
      | inl e ↦
          let wrote = write_bytes-Wrote path content line pos w s h e in
          rw (e, sym (append_assoc content line (concat (map csv_row rows))))
            (write_rows-WroteOutcome path rows (content ++ line) (pos + length line)
              (write_bytes path pos line w).1 wrote.stored
              (omega (arith, h, length-append content line)))
      | inr e ↦ rw e tt
    ]

write_opened-CsvOutcome :
    (path : Bytes) (records : List RequestMetrics) (w : World)
    → w.files path ≡ some []
    → CsvOutcome path records (write_opened path records w)
unfolding write_opened
write_opened-CsvOutcome path records w s = elim (Bool-cases (write_bytes path 0 csv_header w).0) [
  | inl e ↦
      let wrote = write_bytes-Wrote path [] csv_header 0 w s refl e in
      rw e (
        sorted
          (write_rows path (length csv_header) (sort_by id_order records)
            (write_bytes path 0 csv_header w).1)
          (write_rows-WroteOutcome path (sort_by id_order records) csv_header (length csv_header)
            (write_bytes path 0 csv_header w).1 wrote.stored refl))
  | inr e ↦ rw e tt
]
  where
    sorted :
        (x : Bool × World)
        → WroteOutcome path (csv_header ++ concat (map csv_row (sort_by id_order records))) x
        → CsvOutcome path records x
    sorted (false, v) e = tt
    sorted (true, v) e = (
      sort_by id_order records,
      sort_by-Perm id_order records,
      sort_by-IsSortedBy id_order records,
      e,
    )

write_rows-unflushed :
    (path : Bytes) (pos : ℕ) (rows : List RequestMetrics) (w : World)
    → (write_rows path pos rows w).1.unflushed ≡ w.unflushed
unfolding write_rows
write_rows-unflushed path pos [] w = refl
write_rows-unflushed path pos (row ∷ rows) w =
    let wrote = write_bytes path pos (csv_row row) w in
    if_good-unflushed wrote.0 (write_rows path (pos + length (csv_row row)) rows) false wrote.1 w
      (write_bytes-unflushed path pos (csv_row row) w)
      (write_rows-unflushed path (pos + length (csv_row row)) rows wrote.1)

write_opened-unflushed :
    (path : Bytes) (records : List RequestMetrics) (w : World)
    → (write_opened path records w).1.unflushed ≡ w.unflushed
unfolding write_opened
write_opened-unflushed path records w =
    let wrote = write_bytes path 0 csv_header w in
    if_good-unflushed wrote.0 (write_rows path (length csv_header) (sort_by id_order records)) false
      wrote.1 w (write_bytes-unflushed path 0 csv_header w)
      (write_rows-unflushed path (length csv_header) (sort_by id_order records) wrote.1)

create_file-empty :
    (path : Bytes) (w : World)
    → (create_file path w).0 ≡ true
    → (create_file path w).1.files path ≡ some []
unfolding create_file draw_fault
create_file-empty path w = elim (Bool-cases (next_fault w.faults).0) [
  | inl e ↦ rw e (λ good. absurd (bad good))
  | inr e ↦ rw e (λ good. at_path_here w.files path (some []))
]
  where
    bad : ◌≡◌ {A = Bool} false true → ⊥
    bad q = cc

-- Whatever else fails, if no close of a stream loses bytes: write_csv returns true only if the file of that path holds the header line and then
-- one line for each record, the lines in the order of their ids.
pub write_csv-CsvOutcome :
    (path : Bytes) (records : List RequestMetrics) (w : World)
    → w.unflushed ≡ []
    → CsvOutcome path records (write_csv path records w)
unfolding write_csv
write_csv-CsvOutcome path records w none_lost =
    by_opened (create_file path w) (create_file-empty path w)
      (create_file-unflushed path w ∙ none_lost)
  where
    by_opened :
        (run : Bool × World)
        → (run.0 ≡ true → run.1.files path ≡ some [])
        → run.1.unflushed ≡ []
        → CsvOutcome path records (
            (if run.0
                then (do good ← write_opened path records; closed ← close_stream path 0; pure good)
                else pure false)
              run.1)
    by_opened (false, v) empty u = tt
    by_opened (true, v) empty u =
        let kept = write_opened-unflushed path records v ∙ u in
        rw (close_stream-none path 0 (write_opened path records v).1 kept)
          (write_opened-CsvOutcome path records v (empty refl))
