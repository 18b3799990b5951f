-- ===== src/Metrics/Summary.antt =====
-- metrics.cpp: nearest_rank and the numbers of print_summary.
use link_scheduling.Prelude.{
  ℕ, zero, suc, ◌+◌, ◌-◌, ◌*◌, ◌/◌, min, max, Option, none, some, List, [], ◌∷◌, map, leb,
  if◌then◌else◌, add64, sub64, length,
}
use link_scheduling.Metrics.{RequestMetrics}
use link_scheduling.Metrics.Sort.{sort_by}

-- `values[i]`, for an index within the vector.
abbrev pub element : ℕ → List ℕ → ℕ
element i [] = 0
element zero (x ∷ xs) = x
element (suc i) (x ∷ xs) = element i xs

-- The percentiles that print_summary asks for.
pub data Percentile : Type 0 where
  p50 p99 : Percentile

abbrev pub in_hundred : Percentile → ℕ
in_hundred p50 = 50
in_hundred p99 = 99

-- `std::ceil(percentile / 100.0 * n)`. For 50 the double is half of `n`; for 99 its error, under 2 ^ -52
-- of it, does not take it across a whole number while the vector has fewer than 2 ^ 40 elements.
abbrev pub rank_of : Percentile → ℕ → ℕ
rank_of p50 n = (n + 1) / 2
rank_of p99 n = (99 * n + 99) / 100

unfoldable pub nearest_rank : List ℕ → Percentile → ℕ
nearest_rank [] percentile = 0
nearest_rank (x ∷ xs) percentile =
    let sorted = sort_by (λ v. v) (x ∷ xs) in
    let n = length sorted in element (min (sub64 (rank_of percentile n) 1) (n - 1)) sorted

-- `(b >= a) ? (b - a) : 0`.
abbrev pub since : ℕ → ℕ → ℕ
since a b = if leb a b then b - a else 0

-- A turn of the loop of print_summary.
pub record Totals : Type 0 where
  pub min_arrival : ℕ
  pub max_finish : ℕ
  pub a14 : ℕ
  pub forfeited : ℕ

unfoldable pub total : Totals → List RequestMetrics → Totals
total t [] = t
total t (row ∷ rows) =
    total
      (record {
        min_arrival = min t.min_arrival row.arrival_ns;
        max_finish = max t.max_finish row.finish_ns;
        a14 = add64 t.a14 row.a14_events;
        forfeited = add64 t.forfeited row.forfeited_bytes;
      })
      rows

-- What print_summary writes behind the number of requests; the throughput is the quotient of that
-- number and the window.
pub record Summary : Type 0 where
  pub waiting_p50_ns : ℕ
  pub waiting_p99_ns : ℕ
  pub response_p50_ns : ℕ
  pub response_p99_ns : ℕ
  pub window_ns : ℕ
  pub a14_events : ℕ
  pub forfeited_bytes : ℕ

unfoldable pub summary : List RequestMetrics → Option Summary
summary [] = none
summary (first ∷ rows) =
    let all = first ∷ rows in
    let t =
      total
        (record {
          min_arrival = first.arrival_ns;
          max_finish = first.finish_ns;
          a14 = 0;
          forfeited = 0;
        })
        all in
    let waiting = map (λ (r : RequestMetrics). since r.arrival_ns r.start_ns) all in
    let response = map (λ (r : RequestMetrics). since r.arrival_ns r.finish_ns) all in
    some (record {
      waiting_p50_ns = nearest_rank waiting p50;
      waiting_p99_ns = nearest_rank waiting p99;
      response_p50_ns = nearest_rank response p50;
      response_p99_ns = nearest_rank response p99;
      window_ns = sub64 t.max_finish t.min_arrival;
      a14_events = t.a14;
      forfeited_bytes = t.forfeited;
    })
