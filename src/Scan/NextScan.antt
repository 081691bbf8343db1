-- ===== src/Scan/NextScan.antt =====
-- crates/nemclass-scan/src/scanner.rs: the pass that narrows the results.
use nemclass.Common.{
  ℕ, suc, ◌+◌, ◌%◌, Bool, not, ◌&&◌, Option, none, some, List, [], ◌∷◌, ltb, ◌==◌, if◌then◌else◌,
  length, take,
}
use nemclass.Common.Outcome.{Outcome, ok, err, diverged}
use nemclass.Scan.Compare.{ScanCompareType, is_baseline}
use nemclass.Scan.Results.{ScanResult, ScanResults, with_stride, push, iter, results_len}
use nemclass.Scan.ValueType.{Floats, compare_change}
use nemclass.Scan.Needle.{Needle, compare_next}
use nemclass.Scan.FirstScan.{Reader, ScanProgress, progress_interval}
use nemclass.Scan.Session.{
  Scanner, ScanStats, ScanError, needs_first_scan, compare_is_first_scan_only, no_stride,
  target_unreadable, cancelled, current_results, stride_of, validate_needle, push_generation,
}

pub record Narrowing : Type 0 where
  pub out : ScanResults
  pub unreadable : ℕ
  pub last_err : Option ℕ

-- `none`: the observer stopped the pass.
abbrev pub Narrowed : Type 0
Narrowed = Option Narrowing

module _ (read : Reader) (stride : ℕ) (test : List ℕ → ScanResult → Bool) where
  -- One previous result, read again and compared.
  unfoldable pub refine_result : ScanResult → Narrowing → Narrowing
  unfolding push
  refine_result prev n = elim (read prev.address stride) [
    | err e ↦ record n { unreadable = n.unreadable + 1; last_err = some e }
    | diverged ↦ record n { unreadable = n.unreadable + 1 }
    | ok buf ↦
        if ltb (length buf) stride
        then record n { unreadable = n.unreadable + 1 }
        else if test (take stride buf) prev
        then record n { out = push n.out prev.address (take stride buf) prev.current }
        else n
  ]

  -- The loop over the previous results, `i` of them done.
  unfoldable pub narrow_loop :
      (ScanProgress → Bool) → ℕ → ℕ → List ScanResult → Narrowing → Narrowed
  unfolding refine_result
  narrow_loop tick total i [] n = some n
  narrow_loop tick total i (prev ∷ previous) n =
      let progress : ScanProgress = record {
        done = i;
        total = total;
        matches = results_len n.out;
      } in
      let rest = narrow_loop tick total (suc i) previous (refine_result prev n) in
      if i % progress_interval == 0 && not (tick progress) then none else rest

-- `nemclass_core::Error::ProcessNotFound`, of the errors that are numbers here.
abbrev pub process_not_found : ℕ
process_not_found = 0

abbrev error_or : Option ℕ → ℕ
error_or none = process_not_found
error_or (some e) = e

unfoldable pub conclude_next : Scanner → ℕ → Narrowed → Scanner × Outcome ScanError (Unit {0})
unfolding push_generation
conclude_next s count none = (s, err cancelled)
conclude_next s count (some n) =
    let stats : ScanStats = record {
      scanned = count;
      matched = results_len n.out;
      unreadable = n.unreadable;
    } in
    if n.unreadable == count && ltb 0 count
    then (s, err (target_unreadable (error_or n.last_err)))
    else (push_generation (record s { last_stats = stats }) n.out, ok tt)

module _ (fl : Floats) (read : Reader) (tick : ScanProgress → Bool) where
  open fl use {Float}

  unfoldable pub result_matches :
      Scanner → ScanCompareType → Option (Needle Float) → List ℕ → ScanResult → Bool
  unfolding compare_next compare_change
  result_matches s compare none buf prev = compare_change fl s.value_type compare buf prev.current
  result_matches s compare (some n) buf prev = compare_next fl n buf 0 compare prev.current

  unfoldable pub run_next :
      Scanner → ScanCompareType → Option (Needle Float) → Scanner × Outcome ScanError (Unit {0})
  unfolding narrow_loop conclude_next result_matches stride_of current_results iter
  run_next s compare needle =
      let stride = stride_of fl s needle in
      let previous = current_results s in
      conclude_next s (results_len previous) (
        narrow_loop read stride (result_matches s compare needle) tick (results_len previous) 0
          (iter previous) (record { out = with_stride stride; unreadable = 0; last_err = none }))

  -- `next_scan_with`
  unfoldable pub next_scan :
      Scanner → ScanCompareType → Option (Needle Float) → Scanner × Outcome ScanError (Unit {0})
  unfolding run_next validate_needle is_baseline
  next_scan s compare needle =
      if not s.has_scanned
      then (s, err needs_first_scan)
      else if is_baseline compare
      then (s, err (compare_is_first_scan_only compare))
      else elim (validate_needle fl s compare needle) [
        | some e ↦ (s, err e)
        | none ↦
            if stride_of fl s needle == 0
            then (s, err (no_stride s.value_type))
            else run_next s compare needle
      ]
