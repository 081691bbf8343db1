-- ===== src/Scan/Passes.antt =====
-- A pass that fails leaves the session's results as they were.
use nemclass.Common.{
  ℕ, max, ◌≡◌, refl, sym, ap, inl, inr, Bool, false, not, Option, none, some, List, arith, ◌==◌,
  Bool-cases, Option-cases, length,
}
use nemclass.Common.Outcome.{Outcome, ok, err, diverged}
use nemclass.Scan.Compare.{ScanCompareType, needs_previous, is_baseline}
use nemclass.Scan.Results.{results_len, with_stride, iter}
use nemclass.Scan.ValueType.{Floats}
use nemclass.Scan.Needle.{Needle}
use nemclass.Scan.Target.{Region, apply_filter}
use nemclass.Scan.Session.{
  compare_needs_previous, needs_first_scan, compare_is_first_scan_only, no_stride, target, Scanner,
  ScanError, current_results, step_of, stride_of, validate_needle,
}
use nemclass.Scan.FirstScan.{
  Reader, ScanProgress, Flow, Walk, going, full, stopped, total_candidates, chunk_size,
  candidate_matches, regions_loop, conclude_first, run_first, first_scan,
}
use nemclass.Scan.NextScan.{
  Narrowed, Narrowing, narrow_loop, result_matches, conclude_next, run_next, next_scan,
}

-- Nothing of the session's results has changed.
pub record SameResults (s t : Scanner) : Type 0 where
  pub history : t.history ≡ s.history
  pub has_scanned : t.has_scanned ≡ s.has_scanned
  pub last_stats : t.last_stats ≡ s.last_stats

same_results : (s : Scanner) → SameResults s s
same_results s = record { history = refl; has_scanned = refl; last_stats = refl }

same_at : (s t : Scanner) → t ≡ s → SameResults s t
same_at s t e = rw e (same_results s)

conclude_first_error :
    (s t : Scanner) (r : Outcome ℕ Flow) (e : ScanError)
    → conclude_first s r ≡ (t, err e)
    → SameResults s t
unfolding conclude_first
conclude_first_error s t (ok (going w)) e h = ground arith
conclude_first_error s t (ok (full w)) e h = ground arith
conclude_first_error s t (ok (stopped w)) e h = ground arith
conclude_first_error s t (err x) e h = ground arith
conclude_first_error s t diverged e h = ground arith

conclude_next_error :
    (s t : Scanner) (count : ℕ) (r : Narrowed) (e : ScanError)
    → conclude_next s count r ≡ (t, err e)
    → t ≡ s
unfolding conclude_next
conclude_next_error s t count none e h = ground arith
conclude_next_error s t count (some n) e h = ground arith

module _ (fl : Floats) (read : Reader) (tick : ScanProgress → Bool) where
  open fl use {Float}

  run_first_error :
      (regions : Outcome ℕ (List Region)) (s t : Scanner) (compare : ScanCompareType)
      (needle : Option (Needle Float)) (found : List Region) (e : ScanError)
      → run_first fl regions read tick s compare needle found ≡ (t, err e)
      → SameResults s t
  unfolding run_first
  run_first_error regions s t compare needle found e h =
      let stride = stride_of fl s needle in
      let s2 : Scanner = record s { scanned_regions = length found; truncated = false } in
      let w : Walk = record { out = with_stride stride; scanned = 0; since_tick = 0 } in
      let r =
        regions_loop read tick (total_candidates (step_of s) found) s.result_limit stride
          (step_of s) (max chunk_size stride) (candidate_matches fl needle compare) found w in
      let same = conclude_first_error s2 t r e h in
      record {
        history = same.history;
        has_scanned = same.has_scanned;
        last_stats = same.last_stats;
      }

  -- A first scan fails before its walk, with the session as it was, or is its walk.
  pub first_scan_cases :
      (P : Scanner × Outcome ScanError (Unit {0}) → Type 0) (regions : Outcome ℕ (List Region))
      (s : Scanner) (compare : ScanCompareType) (needle : Option (Needle Float))
      → ((e : ScanError) → P (s, err e))
      → P (s, diverged)
      → ((found : List Region) → P (run_first fl regions read tick s compare needle found))
      → P (first_scan fl regions read tick s compare needle)
  unfolding first_scan
  first_scan_cases P regions s compare needle failed spun ran =
      elim (Bool-cases (needs_previous compare)) [
        | inl early ↦ rw early (failed (compare_needs_previous compare))
        | inr not_early ↦ rw not_early (elim (Option-cases (validate_needle fl s compare needle)) [
          | inr (e, bad) ↦ rw bad (failed e)
          | inl good ↦ rw good (elim (Bool-cases (stride_of fl s needle == 0)) [
            | inl z ↦ rw z (failed (no_stride s.value_type))
            | inr nz ↦
                rw nz
                  (elim regions
                    as (λ r. P (elim r [
                      | err e ↦ (s, err (target e))
                      | diverged ↦ (s, diverged)
                      | ok rs ↦
                          run_first fl regions read tick s compare needle
                            (apply_filter s.region_filter rs)
                    ])) [
                      | err e ↦ failed (target e)
                      | diverged ↦ spun
                      | ok rs ↦ ran (apply_filter s.region_filter rs)
                    ])
          ])
        ])
      ]

  -- A first scan that ends in an error leaves the results, the history and the counters as they were.
  pub first_scan_error :
      (regions : Outcome ℕ (List Region)) (s t : Scanner) (compare : ScanCompareType)
      (needle : Option (Needle Float)) (e : ScanError)
      → first_scan fl regions read tick s compare needle ≡ (t, err e)
      → SameResults s t
  first_scan_error regions s t compare needle e =
      first_scan_cases (λ r. r ≡ (t, err e) → SameResults s t) regions s compare needle
        (λ x. λ h. same_at s t (sym (ap (λ r. r.0) h))) (λ h. same_at s t (sym (ap (λ r. r.0) h)))
        (λ found. run_first_error regions s t compare needle found e)

  run_next_error :
      (s t : Scanner) (compare : ScanCompareType) (needle : Option (Needle Float)) (e : ScanError)
      → run_next fl read tick s compare needle ≡ (t, err e)
      → t ≡ s
  unfolding run_next
  run_next_error s t compare needle e h =
      let count = results_len (current_results s) in
      let stride = stride_of fl s needle in
      let n : Narrowing = record { out = with_stride stride; unreadable = 0; last_err = none } in
      conclude_next_error s t count
        (narrow_loop read stride (result_matches fl read tick s compare needle) tick count 0
          (iter (current_results s)) n)
        e h

  -- The same of a next scan.
  pub next_scan_cases :
      (P : Scanner × Outcome ScanError (Unit {0}) → Type 0) (s : Scanner)
      (compare : ScanCompareType) (needle : Option (Needle Float))
      → ((e : ScanError) → P (s, err e))
      → P (run_next fl read tick s compare needle)
      → P (next_scan fl read tick s compare needle)
  unfolding next_scan
  next_scan_cases P s compare needle failed ran = elim (Bool-cases (not s.has_scanned)) [
    | inl early ↦ rw early (failed needs_first_scan)
    | inr late ↦ rw late (elim (Bool-cases (is_baseline compare)) [
      | inl base ↦ rw base (failed (compare_is_first_scan_only compare))
      | inr not_base ↦ rw not_base (elim (Option-cases (validate_needle fl s compare needle)) [
        | inr (e, bad) ↦ rw bad (failed e)
        | inl good ↦ rw good (elim (Bool-cases (stride_of fl s needle == 0)) [
          | inl z ↦ rw z (failed (no_stride s.value_type))
          | inr nz ↦ rw nz ran
        ])
      ])
    ])
  ]

  -- A next scan that ends in an error leaves the whole session as it was.
  pub next_scan_error :
      (s t : Scanner) (compare : ScanCompareType) (needle : Option (Needle Float)) (e : ScanError)
      → next_scan fl read tick s compare needle ≡ (t, err e)
      → t ≡ s
  next_scan_error s t compare needle e =
      next_scan_cases (λ r. r ≡ (t, err e) → t ≡ s) s compare needle
        (λ x. λ h. sym (ap (λ r. r.0) h)) (run_next_error s t compare needle e)
