-- ===== src/Examples/Spiders.antt =====
-- The structure spider: tests and instances.
use nemclass.Common.{
  ℕ, ◌+◌, ◌≡◌, refl, sym, ap, ◌∙◌, ◌≢◌, inl, inr, true, false, none, some, List, [], ◌∷◌, arith,
  leb, ◌==◌, if◌then◌else◌, Bool-cases, length,
}
use nemclass.Common.Outcome.{ok, err, diverged}
use nemclass.Common.Sort.{insert}
use nemclass.Common.Int.{pos}
use nemclass.Scan.Compare.{exact, is_baseline, needs_previous}
use nemclass.Scan.ValueType.{u8}
use nemclass.Scan.Needle.{Needle, int_needle, needle_stride, compare_first}
use nemclass.Scan.Target.{Region}
use nemclass.Scan.FirstScan.{Reader}
use nemclass.Scan.Walk.{bytes_of, keep_going, length-bytes_of}
use nemclass.Spider.Path.{SpiderHit, SpiderConfig, clamped, SpiderScanResult}
use nemclass.Spider.Cover.{IsReadOf, top}
use nemclass.Spider.Search.{spider_scan, search, mapped_ranges}
use nemclass.Spider.Sound.{IsAnswer, spider_scan-IsAnswer, spider_scan_ends}
use nemclass.Scan.Rounds.{memory_reader}
use nemclass.Spider.Refine.{spider_refine, refine_stride, refine_matches}
use nemclass.Spider.Narrow.{IsPass, filter_map, refined_hit, spider_refine-IsPass}
use nemclass.Examples.Scans.{plain_floats}

-- At 0x1000 a pointer to 0x2000, at 0x2004 the byte 7.
abbrev pub memory : ℕ → ℕ
memory a = if a == 0x1001 then 0x20 else if a == 0x2004 then 7 else 0

abbrev pub below_top : Reader
below_top a n = if leb (a + n) top then ok (bytes_of memory a n) else err 0

pub below_top-IsReadOf : IsReadOf memory below_top
below_top-IsReadOf a n bs h = elim (Bool-cases (leb (a + n) top)) [
  | inl low ↦
      let answer = rw low at h in
      let same : bytes_of memory a n ≡ bs = cc in
      let size : length bs ≡ n = ap length (sym same) ∙ length-bytes_of memory a n in
      (sym same ∙ ap (bytes_of memory a) (sym size), omega arith, ground arith)
  | inr high ↦ let answer = rw high at h in absurd (cc)
]

pub below_top-answers : (a n : ℕ) → below_top a n ≢ diverged
below_top-answers a n = elim (Bool-cases (leb (a + n) top)) [
  | inl low ↦ rw low (λ e. cc)
  | inr high ↦ rw high (λ e. cc)
]

abbrev pub settings : SpiderConfig
settings = record {
  struct_size = 8;
  alignment = 4;
  max_depth = 3;
  pointer_size = 8;
  max_results = 10;
  max_nodes = 10;
  dedupe_nodes = true;
}

abbrev seven : Needle ℕ
seven = record { ty = u8; value = int_needle (pos 7) 1 none; tolerance = 1 }

abbrev heap : List Region
heap = record { base = 0x2000; size = 16 } ∷ []

abbrev found : SpiderScanResult
found = record {
  hits =
      record {
        path = record { root = 0x1000; parent_offsets = 0 ∷ []; offset = 4 };
        current = 7 ∷ [];
        previous = 7 ∷ [];
      }
      ∷ [];
  truncated = false;
  nodes_visited = 2;
}

scan_found :
    spider_scan plain_floats (ok heap) below_top keep_going 0x1000 settings u8 exact (some seven)
    ≡ ok found
unfolding spider_scan clamped search mapped_ranges needle_stride compare_first is_baseline
    needs_previous bytes_of insert
scan_found = refl

spider_scan-IsAnswer_example :
    IsAnswer plain_floats (ok heap) below_top keep_going memory 0x1000 settings exact seven found
spider_scan-IsAnswer_example =
    spider_scan-IsAnswer plain_floats (ok heap) below_top keep_going memory 0x1000 settings u8 exact
      seven found below_top-IsReadOf (λ e. cc) scan_found

spider_scan_ends_example :
    spider_scan plain_floats (ok heap) below_top keep_going 0x1000 settings u8 exact (some seven)
    ≢ diverged
spider_scan_ends_example =
    spider_scan_ends plain_floats (ok heap) below_top keep_going memory 0x1000 settings u8 exact
      (some seven) below_top-IsReadOf (λ e. cc)

-- A hit whose value has changed from 9 to 7.
abbrev stale : SpiderHit
stale = record {
  path = record { root = 0x1000; parent_offsets = 0 ∷ []; offset = 4 };
  current = 9 ∷ [];
  previous = 9 ∷ [];
}

hit_refined :
    spider_refine plain_floats
      (memory_reader memory)
      keep_going
      settings
      (stale ∷ [])
      u8
      exact
      (some seven)
    ≡ (record stale { current = 7 ∷ []; previous = 9 ∷ [] } ∷ [], ok tt)
unfolding spider_refine bytes_of refine_matches
hit_refined = refl

spider_refine-IsPass_example :
    IsPass
      (stale ∷ [])
      (filter_map
        (refined_hit memory
          (clamped settings).pointer_size
          (refine_stride plain_floats (memory_reader memory) keep_going u8 (some seven))
          (refine_matches plain_floats (memory_reader memory) keep_going u8 exact (some seven)))
        (stale ∷ []))
      (spider_refine plain_floats
        (memory_reader memory)
        keep_going
        settings
        (stale ∷ [])
        u8
        exact
        (some seven))
spider_refine-IsPass_example =
    spider_refine-IsPass plain_floats memory keep_going settings (stale ∷ []) u8 exact (some seven)
