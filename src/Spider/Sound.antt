-- ===== src/Spider/Sound.antt =====
-- crates/nemclass-scan/src/spider.rs: what a spider scan answers.
use nemclass.Common.{
  ℕ, ◌+◌, ◌≤◌, ◌<◌, max, ◌≡◌, refl, ◌≢◌, inl, inr, Bool, true, false, not, Option, none, some, List,
  arith, ◌==◌, if◌then◌else◌, Bool-cases, length, take, drop, All,
}
use nemclass.Common.Outcome.{
  Outcome, ok, err, diverged, Ensures, holds, rejected, Ensures-ne-diverged, Ensures-ok,
}
use nemclass.Common.Sort.{IsSorted}
use nemclass.Scan.Compare.{ScanCompareType, is_baseline, needs_previous}
use nemclass.Scan.Locality.{compare_value-same}
use nemclass.Scan.ValueType.{Floats, ScanValueType}
use nemclass.Scan.Needle.{Needle, needle_stride, compare_first}
use nemclass.Scan.Target.{Region}
use nemclass.Scan.Session.{
  compare_is_first_scan_only, compare_needs_previous, missing_needle, eq_type, target,
}
use nemclass.Scan.FirstScan.{Reader, ScanProgress}
use nemclass.Spider.Path.{SpiderConfig, clamped, SpiderHit, SpiderScanResult}
use nemclass.Spider.Cover.{IsReadOf}
use nemclass.Spider.Search.{
  SpiderFlow, going, full, stopped, spent, conclude, mapped_ranges, search, spider_search,
  spider_scan,
}
use nemclass.Spider.Invariant.{IsFlow, hit_depth, IsHit, IsCapped}
use nemclass.Spider.Levels.{search-IsFlow}

module _ (fl : Floats) (regions : Outcome ℕ (List Region)) (read : Reader)
    (tick : ScanProgress → Bool) (mem : ℕ → ℕ) where
  open fl use {Float}

  -- A hit of a scan for the needle.
  abbrev pub IsHitOf : ℕ → SpiderConfig → ScanCompareType → Needle Float → SpiderHit → Type 0
  IsHitOf root cfg compare needle hit =
      IsHit (clamped cfg) root (needle_stride fl needle)
        (λ buf off. compare_first fl needle buf off compare) mem hit

  -- An answer of a scan: its hits are genuine, shallow ones first, and within the caps.
  pub record IsAnswer (root : ℕ) (cfg : SpiderConfig) (compare : ScanCompareType)
      (needle : Needle Float) (r : SpiderScanResult) : Type 0 where
    pub genuine : All (IsHitOf root cfg compare needle) r.hits
    pub shallow_first : IsSorted hit_depth r.hits
    pub few_hits : length r.hits ≤ max cfg.max_results 1
    pub few_nodes : r.nodes_visited ≤ max cfg.max_nodes 1

  conclude-Ensures :
      (root : ℕ) (cfg : SpiderConfig) (compare : ScanCompareType) (needle : Needle Float)
      (x : SpiderFlow)
      → IsFlow
          (IsCapped
            (clamped cfg)
            root
            (needle_stride fl needle)
            (λ buf off. compare_first fl needle buf off compare)
            mem)
          (IsCapped
            (clamped cfg)
            root
            (needle_stride fl needle)
            (λ buf off. compare_first fl needle buf off compare)
            mem)
          x
      → Ensures (IsAnswer root cfg compare needle) (conclude x)
  unfolding clamped
  conclude-Ensures root cfg compare needle (going s) i = holds (record {
    genuine = i.sound;
    shallow_first = i.by_depth;
    few_hits = i.few_hits;
    few_nodes = i.few_nodes;
  })
  conclude-Ensures root cfg compare needle (full s) i = holds (record {
    genuine = i.sound;
    shallow_first = i.by_depth;
    few_hits = i.few_hits;
    few_nodes = i.few_nodes;
  })
  conclude-Ensures root cfg compare needle (stopped s) i = rejected
  conclude-Ensures root cfg compare needle (spent s) i = absurd i

  compare_first-own :
      (compare : ScanCompareType) (needle : Needle Float) (win : List ℕ) (off : ℕ)
      → off + needle_stride fl needle ≤ length win
      → compare_first fl needle win off compare
        ≡ compare_first fl needle (take (needle_stride fl needle) (drop off win)) 0 compare
  unfolding compare_first needle_stride
  compare_first-own compare needle win off h =
      compare_value-same fl needle.value needle.ty needle.tolerance compare none win off h

  pointer_size_pos : (cfg : SpiderConfig) → 0 < (clamped cfg).pointer_size
  unfolding clamped
  pointer_size_pos cfg = omega arith

  max_results_pos : (cfg : SpiderConfig) → 0 < (clamped cfg).max_results
  unfolding clamped
  max_results_pos cfg = omega arith

  spider_search-Ensures :
      (root : ℕ) (cfg : SpiderConfig) (compare : ScanCompareType) (needle : Needle Float)
      → IsReadOf mem read
      → regions ≢ diverged
      → 0 < needle_stride fl needle
      → Ensures
          (IsAnswer root cfg compare needle)
          (spider_search fl regions read tick root (clamped cfg) compare needle)
  unfolding spider_search
  spider_search-Ensures root cfg compare needle m listed wide = with_regions regions refl
    where
      stride : ℕ
      stride = needle_stride fl needle

      align : ℕ
      align = max (if (clamped cfg).alignment == 0 then stride else (clamped cfg).alignment) 1

      with_regions :
          (o : Outcome ℕ (List Region))
          → regions ≡ o
          → Ensures (IsAnswer root cfg compare needle) (elim o [
            | err e ↦ err (target e)
            | diverged ↦ diverged
            | ok rs ↦ conclude (
                search
                  (clamped cfg)
                  root
                  stride
                  align
                  (mapped_ranges rs)
                  (λ buf off. compare_first fl needle buf off compare)
                  read
                  tick)
          ])
      with_regions (ok rs) e =
          conclude-Ensures root cfg compare needle
            (search (clamped cfg) root stride align (mapped_ranges rs)
              (λ buf off. compare_first fl needle buf off compare) read tick)
            (search-IsFlow (clamped cfg) root stride align (mapped_ranges rs)
              (λ buf off. compare_first fl needle buf off compare) mem read tick wide
              (pointer_size_pos cfg) (omega arith) (compare_first-own compare needle) m
              (max_results_pos cfg))
      with_regions (err x) e = rejected
      with_regions diverged e = absurd (listed e)

  spider_scan-Ensures :
      (root : ℕ) (cfg : SpiderConfig) (ty : ScanValueType) (compare : ScanCompareType)
      (needle : Needle Float)
      → IsReadOf mem read
      → regions ≢ diverged
      → Ensures
          (IsAnswer root cfg compare needle)
          (spider_scan fl regions read tick root cfg ty compare (some needle))
  unfolding spider_scan
  spider_scan-Ensures root cfg ty compare needle m listed =
      elim (Bool-cases (is_baseline compare)) [
        | inl base ↦ rw base rejected
        | inr not_base ↦ elim (Bool-cases (needs_previous compare)) [
          | inl prev ↦ rw (not_base, prev) rejected
          | inr no_prev ↦ elim (Bool-cases (not (eq_type needle.ty ty))) [
            | inl other ↦ rw (not_base, no_prev, other) rejected
            | inr same ↦ elim (Bool-cases (needle_stride fl needle == 0)) [
              | inl empty ↦ rw (not_base, no_prev, same, empty) rejected
              | inr wide ↦
                  rw (not_base, no_prev, same, wide)
                    (spider_search-Ensures root cfg compare needle m listed (ground arith))
            ]
          ]
        ]
      ]

  -- Every hit of an answer is genuine: its path leads from the root to an address, within the depth,
  -- the bytes of the memory there are its current and its previous value, and they match the needle.
  -- The hits come shallow ones first, and neither they nor the structures visited exceed the caps.
  -- The reads answer bytes of the memory.
  pub spider_scan-IsAnswer :
      (root : ℕ) (cfg : SpiderConfig) (ty : ScanValueType) (compare : ScanCompareType)
      (needle : Needle Float) (r : SpiderScanResult)
      → IsReadOf mem read
      → regions ≢ diverged
      → spider_scan fl regions read tick root cfg ty compare (some needle) ≡ ok r
      → IsAnswer root cfg compare needle r
  spider_scan-IsAnswer root cfg ty compare needle r m listed e =
      Ensures-ok (spider_scan-Ensures root cfg ty compare needle m listed) e

  -- A scan ends, with a result or an error, where the listing of the regions does: the fuel of the
  -- loops over slots and levels is enough. The reads answer bytes of the memory.
  pub spider_scan_ends :
      (root : ℕ) (cfg : SpiderConfig) (ty : ScanValueType) (compare : ScanCompareType)
      (needle : Option (Needle Float))
      → IsReadOf mem read
      → regions ≢ diverged
      → spider_scan fl regions read tick root cfg ty compare needle ≢ diverged
  unfolding spider_scan
  spider_scan_ends root cfg ty compare none m listed =
      Ensures-ne-diverged (without_needle (is_baseline compare) (needs_previous compare))
    where
      without_needle :
          (baseline previous : Bool)
          → Ensures {A = SpiderScanResult}
              (λ r. Unit {0})
              (if baseline
                then err (compare_is_first_scan_only compare)
                else if previous
                then err (compare_needs_previous compare)
                else err (missing_needle compare))
      without_needle true previous = rejected
      without_needle false true = rejected
      without_needle false false = rejected
  spider_scan_ends root cfg ty compare (some needle) m listed =
      Ensures-ne-diverged (spider_scan-Ensures root cfg ty compare needle m listed)
