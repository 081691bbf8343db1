-- ===== src/Examples/Scans.antt =====
-- Scan sessions: tests and instances.
use nemclass.Common.{
  ℕ, ◌+◌, ◌-◌, ◌%◌, max, ◌≡◌, refl, true, ◌&&◌, Option, none, some, List, [], ◌∷◌, ◌++◌, arith, ltb,
  ◌==◌, if◌then◌else◌,
}
use nemclass.Common.Outcome.{ok, err}
use nemclass.Common.Int.{pos}
use nemclass.Scan.Compare.{exact, needs_previous, needs_needle}
use nemclass.Scan.Results.{ScanResults, empty_results, push, iter, fit}
use nemclass.Scan.ValueType.{Floats, fixed_width, u8}
use nemclass.Scan.Needle.{Needle, int_needle, needle_stride}
use nemclass.Scan.Target.{
  Region, region_end, RegionFilter, default_filter, apply_filter, is_unrestricted,
}
use nemclass.Scan.Session.{
  Scanner, new_scanner, current_results, undo, push_generation, set_value_type, stride_of, step_of,
  validate_needle, needs_first_scan, missing_needle,
}
use nemclass.Scan.FirstScan.{candidate_matches, first_scan, next_multiple_of}
use nemclass.Scan.NextScan.{next_scan}
use nemclass.Scan.Walk.{bytes_of, keep_going, progression}
use nemclass.Scan.Rounds.{memory_reader}
use nemclass.Scan.Lattice.{fitting}
use nemclass.Scan.Columns.{iter-push}
use nemclass.Scan.Filtered.{covers}
use nemclass.Scan.Window.{covers-apply_filter, kept}
use nemclass.Scan.Passes.{SameResults, first_scan_error, next_scan_error}
use nemclass.Scan.Generations.{IsSession, undo-push_generation}
use nemclass.Scan.History.{Reachable, fresh, later, type_set, undone, Reachable-IsSession}
use nemclass.Scan.Locality.{candidate_matches-local}
use nemclass.Common.Text.{codes}
use nemclass.Scan.Pattern.{parse_pattern, from_bytes}
use nemclass.Scan.Signature.{format_signature}
use nemclass.Scan.Spelling.{parse_pattern-format_signature}
use nemclass.Scan.Freeze.{FreezeSet, set_frozen, remove_frozen}
use nemclass.Scan.Frozen.{frozen_at, entries_at, frozen_map}
use nemclass.Scan.Finds.{Finds, first_scan-Finds}

-- Floats that stand for their bits; the tests do not compute with them.
abbrev pub plain_floats : Floats
plain_floats = record {
  Float = ℕ;
  of_f32_bits = λ n. n;
  of_f64_bits = λ n. n;
  zero_float = 0;
  default_tolerance = 1;
  add_float = λ a b. a + b;
  sub_float = λ a b. a - b;
  abs_float = λ a. a;
  lt_float = ltb;
  parse_f32 = λ s. none;
  parse_f64 = λ s. none;
}

abbrev session : Scanner
unfolding new_scanner
session = new_scanner u8

-- A needle for the byte 7.
abbrev pub seven : Option (Needle ℕ)
seven = some (record { ty = u8; value = int_needle (pos 7) 1 none; tolerance = 1 })

abbrev memory : ℕ → ℕ
memory a = a % 16

abbrev one_region : List Region
one_region = record { base = 16; size = 8 } ∷ []

-- Eight positions, one match, and room for less than two.
abbrev capped : Scanner
capped = record session { result_limit = 2 }

first_scan-Finds_example :
    Finds plain_floats memory exact capped seven
      (apply_filter default_filter one_region)
      (first_scan plain_floats (ok one_region) (memory_reader memory) keep_going capped exact seven)
unfolding new_scanner needs_previous validate_needle stride_of needle_stride apply_filter
    is_unrestricted progression fitting next_multiple_of step_of fixed_width region_end
    candidate_matches bytes_of
first_scan-Finds_example =
    first_scan-Finds plain_floats memory exact capped seven one_region refl refl (omega arith)
      (omega arith)

abbrev low_window : RegionFilter
low_window = record { start = 0; stop = 20; include = [] }

covers-apply_filter_example :
    covers (apply_filter low_window one_region) 17 ≡ (covers one_region 17 && kept low_window 17)
covers-apply_filter_example = covers-apply_filter low_window one_region 17

-- The operations `set_value_type` and `undo` on a new session.
abbrev retyped : Reachable plain_floats u8 (undo (set_value_type (new_scanner u8) u8).0).0
retyped =
    later (later fresh (type_set (new_scanner u8) u8))
      (undone (set_value_type (new_scanner u8) u8).0)

Reachable-IsSession_example : IsSession (undo (set_value_type (new_scanner u8) u8).0).0
Reachable-IsSession_example =
    Reachable-IsSession plain_floats u8 (undo (set_value_type (new_scanner u8) u8).0).0 retyped

abbrev one_hit : ScanResults
one_hit = record { stride = 1; addresses = 23 ∷ []; current = 7 ∷ []; previous = 7 ∷ [] }

undo-push_generation_example :
    ((undo (push_generation (record session { history = one_hit ∷ [] }) empty_results)).1 ≡ true)
    × (current_results
          (undo (push_generation (record session { history = one_hit ∷ [] }) empty_results)).0
        ≡ current_results (record session { history = one_hit ∷ [] }))
unfolding new_scanner
undo-push_generation_example =
    undo-push_generation (record session { history = one_hit ∷ [] }) empty_results (omega arith)

-- An exact scan without a needle is refused.
scan_refused :
    first_scan plain_floats (ok one_region) (memory_reader memory) keep_going session exact none
    ≡ (session, err (missing_needle exact))
unfolding first_scan needs_previous validate_needle needs_needle
scan_refused = refl

-- A next scan needs a first one.
narrowing_refused :
    next_scan plain_floats (memory_reader memory) keep_going session exact seven
    ≡ (session, err needs_first_scan)
unfolding next_scan new_scanner
narrowing_refused = refl

first_scan_error_example : SameResults session session
first_scan_error_example =
    first_scan_error plain_floats (memory_reader memory) keep_going (ok one_region) session session
      exact none (missing_needle exact) scan_refused

next_scan_error_example : session ≡ session
next_scan_error_example =
    next_scan_error plain_floats (memory_reader memory) keep_going session session exact seven
      needs_first_scan narrowing_refused

iter-push_example :
    iter (push one_hit 39 (7 ∷ 9 ∷ []) [])
    ≡ iter one_hit
      ++ (record { address = 39; current = fit 1 (7 ∷ 9 ∷ []); previous = fit 1 [] } ∷ [])
iter-push_example =
    iter-push one_hit 39 (7 ∷ 9 ∷ []) [] (record { current = omega arith; previous = omega arith })

candidate_matches-local_example :
    candidate_matches plain_floats seven exact (bytes_of memory 16 8) 7
    ≡ candidate_matches plain_floats seven exact (bytes_of memory 23 1) 0
unfolding stride_of needle_stride
candidate_matches-local_example =
    candidate_matches-local plain_floats session seven exact memory 16 8 7 (omega arith)

parse_pattern-format_signature_example :
    parse_pattern (format_signature (0x4f ∷ 0xa0 ∷ [])) ≡ ok (from_bytes (0x4f ∷ 0xa0 ∷ []))
parse_pattern-format_signature_example =
    parse_pattern-format_signature 0x4f (0xa0 ∷ []) (omega arith, (omega arith, tt))

format_signature_test : format_signature (0x4f ∷ 0xa0 ∷ []) ≡ codes "4F A0"
unfolding format_signature
format_signature_test = refl

abbrev two_frozen : FreezeSet
two_frozen = (16, 1 ∷ []) ∷ (32, 2 ∷ []) ∷ []

frozen_map_example :
    (frozen_at (set_frozen two_frozen 32 (9 ∷ [])) 16
      ≡ (if 32 == 16 then some (9 ∷ []) else frozen_at two_frozen 16))
    × (frozen_at (remove_frozen two_frozen 32) 16
        ≡ (if 32 == 16 then none else frozen_at two_frozen 16))
    × (entries_at (set_frozen two_frozen 32 (9 ∷ [])) 16
        ≡ (if 32 == 16 then max 1 (entries_at two_frozen 16) else entries_at two_frozen 16))
frozen_map_example = frozen_map two_frozen 32 (9 ∷ []) 16
