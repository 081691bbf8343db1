-- ===== src/Scan/Rounds.antt =====
-- The candidates of a first scan, and one round of its walk of a region.
use native.Mathlib.Nat.{}
use nemclass.Common.{
  ℕ, zero, suc, ◌+◌, ◌-◌, min, ◌≡◌, refl, ap, Bool, true, false, List, [], ◌∷◌, ◌++◌, ltb, leb,
  length,
}
use nemclass.Common.Outcome.{ok, ◌>>=◌}
use nemclass.Scan.Results.{results_len}
use nemclass.Scan.Target.{Region, region_end}
use nemclass.Scan.FirstScan.{
  Reader, ScanProgress, Walk, Flow, going, scan_window, again, leave, next_multiple_of, region_loop,
  regions_loop, restart,
}
use nemclass.Scan.Walk.{bytes_of, progression}
use nemclass.Scan.Lattice.{fitting}

pub length-progression : (align a n : ℕ) → length (progression align a n) ≡ n
unfolding progression
length-progression align a zero = refl
length-progression align a (suc n) = ap suc (length-progression align (a + align) n)

-- One round of the loop: what the read and the window decide.
module _ (read : Reader) (tick : ScanProgress → Bool) (total limit stride align buf_len : ℕ)
    (test : List ℕ → ℕ → Bool) (end_ fuel addr : ℕ) (w : Walk) (buf : List ℕ) where
  pub round_leaves :
      (flow : Flow)
      → ltb addr end_ ≡ true
      → read addr (min buf_len (end_ - addr)) ≡ ok buf
      → scan_window tick total limit stride align test buf addr w ≡ leave flow
      → region_loop read tick total limit stride align buf_len test end_ (suc fuel) addr w ≡ ok flow
  unfolding region_loop
  round_leaves flow inside e r = rw (inside, region_loop) (rw (e, ◌>>=◌) (rw r))

  pub round_goes_on :
      (next : ℕ) (w' : Walk)
      → ltb addr end_ ≡ true
      → read addr (min buf_len (end_ - addr)) ≡ ok buf
      → scan_window tick total limit stride align test buf addr w ≡ again next w'
      → region_loop read tick total limit stride align buf_len test end_ (suc fuel) addr w
        ≡ region_loop read tick total limit stride align buf_len test end_ fuel next w'
  unfolding region_loop
  round_goes_on next w' inside e r = rw (inside, region_loop) (rw (e, ◌>>=◌) (rw r))

module _ (read : Reader) (tick : ScanProgress → Bool) (total limit stride align buf_len : ℕ)
    (test : List ℕ → ℕ → Bool) (r : Region) (regions : List Region) (w w₁ : Walk) where
  pub region_done :
      region_loop read tick total limit stride align buf_len test
          (region_end r)
          (suc (region_end r))
          (next_multiple_of r.base align)
          (restart w)
        ≡ ok (going w₁)
      → leb limit (results_len w₁.out) ≡ false
      → regions_loop read tick total limit stride align buf_len test (r ∷ regions) w
        ≡ regions_loop read tick total limit stride align buf_len test regions w₁
  unfolding regions_loop
  region_done e room = rw (e, ◌>>=◌) (rw room)

-- A target whose memory can be read everywhere.
abbrev pub memory_reader : (ℕ → ℕ) → Reader
memory_reader mem a n = ok (bytes_of mem a n)

-- The aligned positions of the regions, in the order of the walk.
abbrev pub region_candidates : ℕ → ℕ → Region → List ℕ
region_candidates stride align r =
    progression align (next_multiple_of r.base align)
      (fitting (region_end r) stride align (next_multiple_of r.base align))

abbrev pub all_candidates : ℕ → ℕ → List Region → List ℕ
all_candidates stride align [] = []
all_candidates stride align (r ∷ regions) =
    region_candidates stride align r ++ all_candidates stride align regions
