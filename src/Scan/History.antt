-- ===== src/Scan/History.antt =====
-- The session (scanner.rs) under every sequence of its operations.
use nemclass.Common.{
  ℕ, max, inl, inr, Bool, false, ◌&&◌, Option, none, some, List, arith, ltb, ◌==◌, Bool-cases,
  length,
}
use mathlib.Core.Bool.{false≢true}
use nemclass.Common.Outcome.{Outcome, ok, err, diverged}
use nemclass.Scan.Compare.{ScanCompareType}
use nemclass.Scan.Results.{results_len, with_stride, iter}
use nemclass.Scan.ValueType.{Floats, ScanValueType, fixed_width}
use nemclass.Scan.Needle.{Needle}
use nemclass.Scan.Target.{Region, RegionFilter}
use nemclass.Scan.Session.{
  Scanner, ScanStats, new_scanner, set_region_filter, set_alignment, with_result_limit,
  set_value_type, current_results, undo, step_of, eq_width, stride_of,
}
use nemclass.Scan.Passes.{first_scan_cases, next_scan_cases}
use nemclass.Scan.FirstScan.{
  Walk, regions_loop, total_candidates, chunk_size, candidate_matches, Reader, ScanProgress, Flow,
  going, full, stopped, conclude_first, run_first, first_scan,
}
use nemclass.Scan.NextScan.{
  Narrowed, Narrowing, narrow_loop, result_matches, conclude_next, run_next, next_scan,
}
use nemclass.Scan.Generations.{length-pop, push_generation-IsSession, IsSession}

undo-IsSession : (s : Scanner) → IsSession s → IsSession (undo s).0
unfolding undo
undo-IsSession s v = ground (arith, length-pop s.history)

conclude_first-IsSession :
    (s : Scanner) (r : Outcome ℕ Flow) → IsSession s → IsSession (conclude_first s r).0
unfolding conclude_first
conclude_first-IsSession s (ok (going w)) v =
    let (b, l) = push_generation-IsSession s w.out v.bounded in
    record { bounded = b; seeded = λ _. l }
conclude_first-IsSession s (ok (full w)) v =
    let (b, l) = push_generation-IsSession s w.out v.bounded in
    record { bounded = b; seeded = λ _. l }
conclude_first-IsSession s (ok (stopped w)) v = v
conclude_first-IsSession s (err e) v = v
conclude_first-IsSession s diverged v = v

conclude_next-IsSession :
    (s : Scanner) (count : ℕ) (r : Narrowed) → IsSession s → IsSession (conclude_next s count r).0
unfolding conclude_next
conclude_next-IsSession s count none v = v
conclude_next-IsSession s count (some n) v =
    let stats : ScanStats = record {
      scanned = count;
      matched = results_len n.out;
      unreadable = n.unreadable;
    } in
    let (b, l) = push_generation-IsSession (record s { last_stats = stats }) n.out v.bounded in
    elim (Bool-cases (n.unreadable == count && ltb 0 count)) [
      | inl dead ↦ rw dead v
      | inr alive ↦ rw alive (record { bounded = b; seeded = λ _. l })
    ]

module _ (fl : Floats) (read : Reader) (tick : ScanProgress → Bool) where
  open fl use {Float}

  run_first-IsSession :
      (regions : Outcome ℕ (List Region)) (s : Scanner) (compare : ScanCompareType)
      (needle : Option (Needle Float)) (found : List Region)
      → IsSession s
      → IsSession (run_first fl regions read tick s compare needle found).0
  unfolding run_first
  run_first-IsSession regions s compare needle found v =
      let stride = stride_of fl s needle in
      let s2 : Scanner = record s { scanned_regions = length found; truncated = false } in
      let w : Walk = record { out = with_stride stride; scanned = 0; since_tick = 0 } in
      conclude_first-IsSession s2
        (regions_loop read tick (total_candidates (step_of s) found) s.result_limit stride
          (step_of s) (max chunk_size stride) (candidate_matches fl needle compare) found w)
        (record { bounded = v.bounded; seeded = v.seeded })

  run_next-IsSession :
      (s : Scanner) (compare : ScanCompareType) (needle : Option (Needle Float))
      → IsSession s
      → IsSession (run_next fl read tick s compare needle).0
  unfolding run_next
  run_next-IsSession s compare needle v =
      let count = results_len (current_results s) in
      let stride = stride_of fl s needle in
      let n : Narrowing = record { out = with_stride stride; unreadable = 0; last_err = none } in
      conclude_next-IsSession s count
        (narrow_loop read stride (result_matches fl read tick s compare needle) tick count 0
          (iter (current_results s)) n)
        v

  first_scan-IsSession :
      (regions : Outcome ℕ (List Region)) (s : Scanner) (compare : ScanCompareType)
      (needle : Option (Needle Float))
      → IsSession s
      → IsSession (first_scan fl regions read tick s compare needle).0
  first_scan-IsSession regions s compare needle v =
      first_scan_cases fl read tick (λ r. IsSession r.0) regions s compare needle (λ e. v) v
        (λ found. run_first-IsSession regions s compare needle found v)

  next_scan-IsSession :
      (s : Scanner) (compare : ScanCompareType) (needle : Option (Needle Float))
      → IsSession s
      → IsSession (next_scan fl read tick s compare needle).0
  next_scan-IsSession s compare needle v =
      next_scan_cases fl read tick (λ r. IsSession r.0) s compare needle (λ e. v)
        (run_next-IsSession s compare needle v)

-- The operations of a session, with whatever targets and observers the passes meet.
pub data Operation (fl : Floats) : Scanner → Scanner → Type 1 where
  filter_set : (s : Scanner) (f : RegionFilter) → Operation fl s (set_region_filter s f)
  alignment_set : (s : Scanner) (a : ℕ) → Operation fl s (set_alignment s a)
  limit_set : (s : Scanner) (n : ℕ) → Operation fl s (with_result_limit s n)
  type_set : (s : Scanner) (ty : ScanValueType) → Operation fl s (set_value_type s ty).0
  undone : (s : Scanner) → Operation fl s (undo s).0
  first :
      (s : Scanner) (regions : Outcome ℕ (List Region)) (read : Reader) (tick : ScanProgress → Bool)
      (compare : ScanCompareType) (needle : Option (Needle fl.Float))
      → Operation fl s (first_scan fl regions read tick s compare needle).0
  next :
      (s : Scanner) (read : Reader) (tick : ScanProgress → Bool) (compare : ScanCompareType)
      (needle : Option (Needle fl.Float))
      → Operation fl s (next_scan fl read tick s compare needle).0

pub data Reachable (fl : Floats) (ty : ScanValueType) : Scanner → Type 1 where
  fresh : Reachable fl ty (new_scanner ty)
  later : {s t : Scanner} → Reachable fl ty s → Operation fl s t → Reachable fl ty t

set_alignment-IsSession : (s : Scanner) (a : ℕ) → IsSession s → IsSession (set_alignment s a)
unfolding set_alignment
set_alignment-IsSession s a v = record { bounded = v.bounded; seeded = v.seeded }

set_region_filter-IsSession :
    (s : Scanner) (f : RegionFilter) → IsSession s → IsSession (set_region_filter s f)
unfolding set_region_filter
set_region_filter-IsSession s f v = record { bounded = v.bounded; seeded = v.seeded }

with_result_limit-IsSession :
    (s : Scanner) (n : ℕ) → IsSession s → IsSession (with_result_limit s n)
unfolding with_result_limit
with_result_limit-IsSession s n v = record { bounded = v.bounded; seeded = v.seeded }

set_value_type-IsSession :
    (s : Scanner) (ty : ScanValueType) → IsSession s → IsSession (set_value_type s ty).0
unfolding set_value_type
set_value_type-IsSession s ty v =
    let w : IsSession (record s { value_type = ty }) = record {
      bounded = v.bounded;
      seeded = v.seeded;
    } in
    elim (Bool-cases (eq_width (fixed_width ty) (fixed_width s.value_type))) [
      | inl same ↦ rw same w
      | inr other ↦ rw other v
    ]

Operation-IsSession : {fl : Floats} {s t : Scanner} → Operation fl s t → IsSession s → IsSession t
Operation-IsSession (filter_set s f) v = set_region_filter-IsSession s f v
Operation-IsSession (alignment_set s a) v = set_alignment-IsSession s a v
Operation-IsSession (limit_set s n) v = with_result_limit-IsSession s n v
Operation-IsSession (type_set s ty) v = set_value_type-IsSession s ty v
Operation-IsSession (undone s) v = undo-IsSession s v
Operation-IsSession (first s regions read tick compare needle) v =
    first_scan-IsSession _ read tick regions s compare needle v
Operation-IsSession (next s read tick compare needle) v =
    next_scan-IsSession _ read tick s compare needle v

-- Whatever is done with a session, in whatever order, it keeps three generations of results at most,
-- and one at least once a first scan has succeeded.
pub Reachable-IsSession :
    (fl : Floats) (ty : ScanValueType) (s : Scanner) → Reachable fl ty s → IsSession s
unfolding new_scanner
Reachable-IsSession fl ty s fresh = record {
  bounded = omega arith;
  seeded = λ h. absurd (false≢true h);
}
Reachable-IsSession fl ty s (later r op) = Operation-IsSession op (Reachable-IsSession fl ty _ r)
