-- ===== src/Examples/Measuring.antt =====
-- The percentiles and the CSV file of two requests.
use link_scheduling.Prelude.{◌≡◌, refl, Bool, true, arith, some, [], ◌∷◌, ◌++◌, add64, sub64}
use link_scheduling.Prelude.Text.{codes, eq_bytes}
use link_scheduling.Prelude.Decimal.{to_string, to_string_int, decimal_onto}
use link_scheduling.World.{World, draw_fault}
use link_scheduling.Request.{get, put}
use link_scheduling.Server.Put.{create_file, write_bytes, overwrite}
use link_scheduling.FileIo.{close_stream}
use link_scheduling.Metrics.{RequestMetrics}
use link_scheduling.Metrics.Sort.{insert_by, sort_by}
use link_scheduling.Metrics.Summary.{p99, total, nearest_rank, summary}
use link_scheduling.Metrics.Rank.{IsRank, nearest_rank-IsRank}
use link_scheduling.Metrics.Csv.{
  write_rows, write_opened, write_csv, CsvOutcome, write_csv-CsvOutcome,
}
use link_scheduling.Examples.{disk}

nearest_rank-IsRank_example : IsRank (7 ∷ 5 ∷ 9 ∷ []) 99 (nearest_rank (7 ∷ 5 ∷ 9 ∷ []) p99)
nearest_rank-IsRank_example = nearest_rank-IsRank 7 (5 ∷ 9 ∷ []) p99 (omega arith)

abbrev upload : RequestMetrics
upload = record {
  request_id = 12;
  op = put;
  filename = codes "b.txt";
  total_bytes = 30;
  arrival_ns = 5;
  start_ns = 15;
  finish_ns = 40;
  rounds = 2;
  forfeited_bytes = 0;
  a14_events = 0;
}

abbrev download : RequestMetrics
download = record {
  request_id = 3;
  op = get;
  filename = codes "a.txt";
  total_bytes = 9;
  arrival_ns = 10;
  start_ns = 12;
  finish_ns = 20;
  rounds = 1;
  forfeited_bytes = 4;
  a14_events = 1;
}

two_rows :
    (write_csv (codes "m.csv") (upload ∷ download ∷ []) disk).1.files (codes "m.csv")
    ≡ some (
        codes "request_id,op,filename,bytes,rounds,forfeited_bytes,arrival_ns,start_ns,finish_ns\n"
        ++ (codes "3,GET,a.txt,9,1,4,10,12,20\n" ++ codes "12,PUT,b.txt,30,2,0,5,15,40\n"))
unfolding close_stream write_csv write_opened write_rows write_bytes create_file draw_fault
    overwrite sort_by insert_by to_string to_string_int decimal_onto eq_bytes
two_rows = refl

summed :
    summary (upload ∷ download ∷ [])
    ≡ some (record {
      waiting_p50_ns = 2;
      waiting_p99_ns = 10;
      response_p50_ns = 10;
      response_p99_ns = 35;
      window_ns = 35;
      a14_events = 1;
      forfeited_bytes = 4;
    })
unfolding summary total nearest_rank sort_by insert_by add64 sub64
summed = refl

write_csv-CsvOutcome_example :
    CsvOutcome
      (codes "m.csv")
      (upload ∷ download ∷ [])
      (write_csv (codes "m.csv") (upload ∷ download ∷ []) disk)
write_csv-CsvOutcome_example =
    write_csv-CsvOutcome (codes "m.csv") (upload ∷ download ∷ []) disk refl

-- The last three bytes are lost when the stream is closed, and the result is true all the same.
abbrev cut_run : Bool × World
cut_run = write_csv (codes "m.csv") [] (record disk { unflushed = 3 ∷ [] })

cut_short :
    (cut_run.0 ≡ true)
    × (cut_run.1.files (codes "m.csv")
        ≡ some (
            codes
              "request_id,op,filename,bytes,rounds,forfeited_bytes,arrival_ns,start_ns,finish_"))
unfolding close_stream write_csv write_opened write_rows write_bytes create_file draw_fault
    overwrite sort_by eq_bytes
cut_short = (refl, refl)
