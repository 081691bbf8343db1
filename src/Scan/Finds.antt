-- ===== src/Scan/Finds.antt =====
-- What a first scan of a session finds, as the rows that `results` then lists.
use nemclass.Common.{
  ℕ, ◌≤◌, ◌<◌, max, ◌≡◌, refl, ap, ◌∙◌, Bool, false, Option, none, List, map, arith, ◌==◌, length,
  filter,
}
use nemclass.Common.Outcome.{Outcome, ok}
use nemclass.Scan.Compare.{ScanCompareType, needs_previous}
use nemclass.Scan.Results.{ScanResult, with_stride, iter}
use nemclass.Scan.ValueType.{Floats}
use nemclass.Scan.Needle.{Needle}
use nemclass.Scan.Target.{Region, apply_filter}
use nemclass.Scan.Session.{Scanner, ScanError, current_results, step_of, stride_of, validate_needle}
use nemclass.Scan.FirstScan.{
  Walk, going, first_scan, run_first, conclude_first, candidate_matches, total_candidates,
  chunk_size,
}
use nemclass.Scan.Walk.{bytes_of, length-bytes_of, keep_going}
use nemclass.Scan.Rounds.{memory_reader, all_candidates}
use nemclass.Scan.Coverage.{regions_loop_lem}
use nemclass.Scan.Locality.{candidate_matches-local}
use nemclass.Scan.Columns.{iter-push_all}
use nemclass.Scan.Generations.{current_results-push_generation}

module _ (fl : Floats) (mem : ℕ → ℕ) (compare : ScanCompareType) where
  open fl use {Float}

  -- The row of an address: its bytes, as the current and the previous value.
  abbrev pub row_at : ℕ → ℕ → ScanResult
  row_at stride a = record {
    address = a;
    current = bytes_of mem a stride;
    previous = bytes_of mem a stride;
  }

  abbrev pub matches_here : ℕ → Option (Needle Float) → ℕ → Bool
  matches_here stride needle a = candidate_matches fl needle compare (bytes_of mem a stride) 0

  step_of-positive : (s : Scanner) → 1 ≤ step_of s
  unfolding step_of
  step_of-positive s = omega arith

  -- The rows that a pass over these regions finds.
  abbrev pub Finds :
      Scanner
      → Option (Needle Float)
      → List Region
      → Scanner × Outcome ScanError (Unit {0})
      → Type 0
  Finds s needle found result =
      let stride = stride_of fl s needle in
      (result.1 ≡ ok tt)
      × (iter (current_results result.0)
          ≡ map (row_at stride)
              (filter (matches_here stride needle) (all_candidates stride (step_of s) found)))

  conclude_first-going :
      (s : Scanner) (w : Walk)
      → ((conclude_first s (ok (going w))).1 ≡ ok tt)
        × (current_results (conclude_first s (ok (going w))).0 ≡ w.out)
  unfolding conclude_first current_results
  conclude_first-going s w = (refl, current_results-push_generation s w.out)

  run_first-Finds :
      (regions : Outcome ℕ (List Region)) (s : Scanner) (needle : Option (Needle Float))
      (found : List Region)
      → 1 ≤ stride_of fl s needle
      → length (
          filter
            (matches_here (stride_of fl s needle) needle)
            (all_candidates (stride_of fl s needle) (step_of s) found))
        < s.result_limit
      → Finds s needle found
          (run_first fl regions (memory_reader mem) keep_going s compare needle found)
  unfolding run_first current_results iter
  run_first-Finds regions s needle found one room =
      let stride = stride_of fl s needle in
      let w : Walk = record { out = with_stride stride; scanned = 0; since_tick = 0 } in
      let s2 : Scanner = record s { scanned_regions = length found; truncated = false } in
      let (w', e, o) =
        regions_loop_lem mem (total_candidates (step_of s) found) s.result_limit stride (step_of s)
          (max chunk_size stride) (candidate_matches fl needle compare)
          (candidate_matches-local fl s needle compare mem) one (step_of-positive s) (omega arith)
          found w (omega arith) in
      let (done, now) = conclude_first-going s2 w' in
      let rows =
        iter-push_all (λ a. bytes_of mem a stride)
          (filter (matches_here stride needle) (all_candidates stride (step_of s) found))
          (with_stride stride) (record { current = omega arith; previous = omega arith })
          (λ a. length-bytes_of mem a stride) in
      (
        ap (λ r. (conclude_first s2 r).1) e ∙ done,
        ap (λ r. iter (current_results (conclude_first s2 r).0)) e ∙ ap iter (now ∙ o) ∙ rows,
      )

  -- A first scan that is valid for the session, over a memory that can be read, with an observer that
  -- never stops it and fewer matches than the limit, succeeds and finds exactly the aligned
  -- positions of the filtered regions whose own bytes match, in the order of the regions and
  -- addresses, once for each region and whatever the chunks in which the memory is read; each is
  -- stored with its bytes.
  pub first_scan-Finds :
      (s : Scanner) (needle : Option (Needle Float)) (regions : List Region)
      → needs_previous compare ≡ false
      → validate_needle fl s compare needle ≡ none
      → 1 ≤ stride_of fl s needle
      → length (
          filter (matches_here (stride_of fl s needle) needle) (
            all_candidates
              (stride_of fl s needle)
              (step_of s)
              (apply_filter s.region_filter regions)))
        < s.result_limit
      → Finds s needle
          (apply_filter s.region_filter regions)
          (first_scan fl (ok regions) (memory_reader mem) keep_going s compare needle)
  unfolding first_scan
  first_scan-Finds s needle regions early good one room =
      let here : stride_of fl s needle == 0 ≡ false = ground arith in
      rw early (
        rw good (
          rw here (
            run_first-Finds (ok regions) s needle (apply_filter s.region_filter regions) one room)))
