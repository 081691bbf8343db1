-- ===== src/Scan/FirstScan.antt =====
-- crates/nemclass-scan/src/scanner.rs: the first pass. The target's `read` answers the bytes that it
-- put at the front of the buffer. The observer is a function of the progress: within one pass no two
-- calls have the same `done`, so it may answer each call as it likes. Addresses do not wrap here;
-- `next_multiple_of` panics where they would.
use nemclass.Common.{
  ℕ, zero, suc, ◌+◌, ◌-◌, ◌/◌, ◌%◌, min, max, Bool, true, false, Option, none, some, List, [], ◌∷◌,
  ltb, leb, ◌==◌, if◌then◌else◌, length, take, drop,
}
use nemclass.Common.Outcome.{Outcome, ok, err, diverged, ◌>>=◌}
use nemclass.Scan.Compare.{ScanCompareType, unknown, needs_previous}
use nemclass.Scan.Results.{ScanResults, with_stride, push, results_len}
use nemclass.Scan.ValueType.{Floats}
use nemclass.Scan.Needle.{Needle, compare_first}
use nemclass.Scan.Target.{Region, region_end, apply_filter}
use nemclass.Scan.Session.{
  Scanner, ScanStats, ScanError, compare_needs_previous, no_stride, target, cancelled, step_of,
  stride_of, validate_needle, push_generation,
}

abbrev pub chunk_size : ℕ
chunk_size = 65536

abbrev pub progress_interval : ℕ
progress_interval = 4096

pub record ScanProgress : Type 0 where
  pub done : ℕ
  pub total : ℕ
  pub matches : ℕ

-- Addresses to bytes: the target's answer to a read of `want` bytes.
abbrev pub Reader : Type 0
Reader = ℕ → ℕ → Outcome ℕ (List ℕ)

unfoldable pub next_multiple_of : ℕ → ℕ → ℕ
next_multiple_of n a = if n % a == 0 then n else n + (a - n % a)

-- The variables that the walk changes.
pub record Walk : Type 0 where
  pub out : ScanResults
  pub scanned : ℕ
  pub since_tick : ℕ

-- A walk goes on, has reached the result limit, or was stopped by the observer.
pub data Flow : Type 0 where
  going : Walk → Flow
  full : Walk → Flow
  stopped : Walk → Flow

abbrev pub is_unknown : ScanCompareType → Bool
is_unknown unknown = true
is_unknown _ = false

module _ (fl : Floats) where
  open fl use {Float}

  -- `match needle { .. }` on a candidate of a first scan.
  unfoldable pub candidate_matches : Option (Needle Float) → ScanCompareType → List ℕ → ℕ → Bool
  unfolding compare_first
  candidate_matches none compare buf off = is_unknown compare
  candidate_matches (some n) compare buf off = compare_first fl n buf off compare

-- One window: `buf` was read at `addr`, and `test` decides a candidate at its offset.
module _ (tick : ScanProgress → Bool) (total limit stride align : ℕ) (test : List ℕ → ℕ → Bool)
    (buf : List ℕ) (addr : ℕ) where
  unfoldable pub take_candidate : ℕ → Walk → Flow
  unfolding push
  take_candidate off w =
      let value = take stride (drop off buf) in
      let out' = push w.out (addr + off) value value in
      if test buf off
      then if leb limit (results_len out')
        then full (record w { out = out' })
        else going (record w { out = out' })
      else going w

  -- The counters and the observer, then the candidate.
  unfoldable pub visit : ℕ → Walk → Flow
  unfolding take_candidate
  visit off w =
      let scanned' = w.scanned + 1 in
      let counted = record w { scanned = scanned'; since_tick = w.since_tick + 1 } in
      let ticked = record w { scanned = scanned'; since_tick = 0 } in
      let progress : ScanProgress = record {
        done = scanned';
        total = total;
        matches = results_len w.out;
      } in
      if ltb (w.since_tick + 1) progress_interval
      then take_candidate off counted
      else if tick progress
      then take_candidate off ticked
      else stopped ticked

  -- `for off in (0..=last).step_by(align)`, on the candidates that are left.
  unfoldable pub window_loop : ℕ → ℕ → Walk → Flow
  unfolding visit
  window_loop zero off w = going w
  window_loop (suc n) off w = elim (visit off w) [
    | going w' ↦ window_loop n (off + align) w'
    | full w' ↦ full w'
    | stopped w' ↦ stopped w'
  ]

-- The next window overlaps the bytes that a value across the boundary needs.
unfoldable pub next_addr : ℕ → ℕ → ℕ → ℕ → ℕ
unfolding next_multiple_of
next_addr stride align addr got =
    max (next_multiple_of (addr + max (got - (stride - 1)) 1) align) (addr + align)

-- What a round of the walk decides: to go on at an address, or to leave the region.
pub data Round : Type 0 where
  again : ℕ → Walk → Round
  leave : Flow → Round

abbrev pub go_on : ℕ → Flow → Round
go_on addr (going w) = again addr w
go_on addr (full w) = leave (full w)
go_on addr (stopped w) = leave (stopped w)

-- The body of the loop behind the read.
module _ (tick : ScanProgress → Bool) (total limit stride align : ℕ) (test : List ℕ → ℕ → Bool)
    (buf : List ℕ) (addr : ℕ) where
  unfoldable pub scan_window : Walk → Round
  unfolding window_loop next_addr
  scan_window w =
      let candidates = suc ((length buf - stride) / align) in
      let flow = window_loop tick total limit stride align test buf addr candidates 0 w in
      if ltb (length buf) stride
      then leave (going w)
      else go_on (next_addr stride align addr (length buf)) flow

module _ (read : Reader) (tick : ScanProgress → Bool) (total limit stride align buf_len : ℕ)
    (test : List ℕ → ℕ → Bool) (end_ : ℕ) where
  -- `while addr < region_end`, on fuel.
  unfoldable pub region_loop : ℕ → ℕ → Walk → Outcome ℕ Flow
  unfolding scan_window
  region_loop zero addr w = diverged
  region_loop (suc fuel) addr w = elim (ltb addr end_) [
    | false ↦ ok (going w)
    | true ↦ read addr (min buf_len (end_ - addr)) >>= λ buf.
        elim (scan_window tick total limit stride align test buf addr w) [
          | again addr' w' ↦ region_loop fuel addr' w'
          | leave flow ↦ ok flow
        ]
  ]

-- `scan_region_first`: `since_tick` starts anew in each region.
abbrev pub restart : Walk → Walk
restart w = record w { since_tick = 0 }

module _ (read : Reader) (tick : ScanProgress → Bool) (total limit stride align buf_len : ℕ)
    (test : List ℕ → ℕ → Bool) where
  unfoldable pub scan_region_first : Region → Walk → Outcome ℕ Flow
  unfolding region_loop region_end
  scan_region_first r w =
      region_loop read tick total limit stride align buf_len test (region_end r)
        (suc (region_end r)) (next_multiple_of r.base align) (restart w)

  -- The loop over the regions; `Completed` with the limit reached stops it too.
  unfoldable pub regions_loop : List Region → Walk → Outcome ℕ Flow
  unfolding scan_region_first
  regions_loop [] w = ok (going w)
  regions_loop (r ∷ regions) w = do
    flow ← scan_region_first r w
    elim flow [
      | going w' ↦ elim (leb limit (results_len w'.out)) [
        | true ↦ ok (full w')
        | false ↦ regions_loop regions w'
      ]
      | full w' ↦ ok (full w')
      | stopped w' ↦ ok (stopped w')
    ]

abbrev pub total_candidates : ℕ → List Region → ℕ
total_candidates align [] = 0
total_candidates align (r ∷ regions) = r.size / align + total_candidates align regions

-- The generation is pushed where the walk ended by itself or at the limit.
unfoldable pub conclude_first : Scanner → Outcome ℕ Flow → Scanner × Outcome ScanError (Unit {0})
unfolding push_generation
conclude_first s (err e) = (s, err (target e))
conclude_first s diverged = (s, diverged)
conclude_first s (ok (stopped w)) = (s, err cancelled)
conclude_first s (ok (going w)) =
    let stats : ScanStats = record {
      scanned = w.scanned;
      matched = results_len w.out;
      unreadable = 0;
    } in
    (record (push_generation s w.out) { last_stats = stats; has_scanned = true }, ok tt)
conclude_first s (ok (full w)) =
    let stats : ScanStats = record {
      scanned = w.scanned;
      matched = results_len w.out;
      unreadable = 0;
    } in
    (
      record (push_generation s w.out) { last_stats = stats; has_scanned = true; truncated = true },
      ok tt,
    )

module _ (fl : Floats) (regions : Outcome ℕ (List Region)) (read : Reader)
    (tick : ScanProgress → Bool) where
  open fl use {Float}

  unfoldable pub run_first :
      Scanner
      → ScanCompareType
      → Option (Needle Float)
      → List Region
      → Scanner × Outcome ScanError (Unit {0})
  unfolding regions_loop conclude_first candidate_matches step_of stride_of
  run_first s compare needle found =
      let stride = stride_of fl s needle in
      let align = step_of s in
      conclude_first (record s { scanned_regions = length found; truncated = false })
        (regions_loop read tick (total_candidates align found) s.result_limit stride align
          (max chunk_size stride) (candidate_matches fl needle compare) found
          (record { out = with_stride stride; scanned = 0; since_tick = 0 }))

  -- `first_scan_with`
  unfoldable pub first_scan :
      Scanner → ScanCompareType → Option (Needle Float) → Scanner × Outcome ScanError (Unit {0})
  unfolding run_first validate_needle needs_previous apply_filter
  first_scan s compare needle =
      if needs_previous compare
      then (s, err (compare_needs_previous compare))
      else elim (validate_needle fl s compare needle) [
        | some e ↦ (s, err e)
        | none ↦
            if stride_of fl s needle == 0 then (s, err (no_stride s.value_type)) else elim regions [
              | err e ↦ (s, err (target e))
              | diverged ↦ (s, diverged)
              | ok rs ↦ run_first s compare needle (apply_filter s.region_filter rs)
            ]
      ]
