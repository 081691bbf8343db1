-- ===== src/Spider/Search.antt =====
-- crates/nemclass-scan/src/spider.rs: the breadth-first search.
use nemclass.Common.{
  ℕ, zero, suc, ◌+◌, ◌-◌, ◌%◌, max, Bool, true, false, not, ◌&&◌, Option, none, some, List, [], ◌∷◌,
  ◌++◌, map, ltb, leb, ◌==◌, if◌then◌else◌, length, take, drop, replicate, any,
}
use nemclass.Common.Outcome.{Outcome, ok, err, diverged}
use nemclass.Common.Sort.{sort_by_key}
use nemclass.Scan.Compare.{ScanCompareType, is_baseline, needs_previous}
use nemclass.Scan.ValueType.{Floats, ScanValueType}
use nemclass.Scan.Needle.{Needle, needle_stride, compare_first}
use nemclass.Scan.Target.{Region, region_end}
use nemclass.Scan.Session.{
  ScanError, compare_is_first_scan_only, compare_needs_previous, missing_needle,
  needle_type_mismatch, no_stride, target, cancelled, eq_type,
}
use nemclass.Scan.FirstScan.{Reader, ScanProgress, next_multiple_of}
use nemclass.Pointer.Path.{is_mapped, range_key, read_word}
use nemclass.Spider.Path.{SpiderConfig, clamped, SpiderHit, SpiderScanResult, spider_interval}
use nemclass.Spider.Window.{Cover, cover_has, cover_limit, read_window}

pub record Frame : Type 0 where
  pub addr : ℕ
  pub depth : ℕ
  pub path : List ℕ

-- What the search changes; `win` is the buffer, `visited` a set.
pub record Spider : Type 0 where
  pub hits : List SpiderHit
  pub visited : List ℕ
  pub next : List Frame
  pub nodes_visited : ℕ
  pub win : List ℕ

-- A search goes on, has reached a cap, was stopped by the observer, or ran out of the fuel that the
-- model gives it.
pub data SpiderFlow : Type 0 where
  going full stopped spent : Spider → SpiderFlow

abbrev pub keep_on : SpiderFlow → (Spider → SpiderFlow) → SpiderFlow
keep_on (going s) f = f s
keep_on (full s) f = full s
keep_on (stopped s) f = stopped s
keep_on (spent s) f = spent s

-- The parameters of one search: `cfg` is clamped, `test` is the comparison at an offset of a buffer.
module _ (cfg : SpiderConfig) (root stride align : ℕ) (ranges : List (ℕ × ℕ))
    (test : List ℕ → ℕ → Bool) where
  -- The pointer branch.
  unfoldable pub follow_word : Frame → ℕ → ℕ → Spider → Spider
  unfolding is_mapped
  follow_word f off word s =
      let child : Frame = record {
        addr = word;
        depth = f.depth + 1;
        path = f.path ++ (off ∷ []);
      } in
      let queued : Spider = record s { next = s.next ++ (child ∷ []) } in
      let marked : Spider = record queued { visited = word ∷ s.visited } in
      if not (word == 0) && not (word == f.addr) && is_mapped ranges word
      then (if cfg.dedupe_nodes
          then (if any (λ v. v == word) s.visited then s else marked)
          else queued)
      else s

  unfoldable pub pointer_slot : Frame → Cover → ℕ → Spider → Spider
  unfolding follow_word cover_has read_word
  pointer_slot f c off s =
      if ltb f.depth cfg.max_depth
        && (f.addr + off) % cfg.pointer_size == 0
        && cover_has c off cfg.pointer_size
      then follow_word f off (read_word (take cfg.pointer_size (drop off s.win))) s
      else s

  abbrev pub hit_at : Frame → ℕ → Spider → SpiderHit
  hit_at f off s =
      let bytes = take stride (drop off s.win) in
      record {
        path = record { root = root; parent_offsets = f.path; offset = off };
        current = bytes;
        previous = bytes;
      }

  -- One slot: the value branch, then the pointer branch.
  unfoldable pub slot : Frame → Cover → ℕ → Spider → SpiderFlow
  unfolding pointer_slot cover_has
  slot f c off s =
      let s' : Spider = record s { hits = s.hits ++ (hit_at f off s ∷ []) } in
      if cover_has c off stride && test s.win off
      then (if leb cfg.max_results (length s'.hits)
          then full s'
          else going (pointer_slot f c off s'))
      else going (pointer_slot f c off s)

  -- `while off < window_end && off < limit`, on fuel.
  unfoldable pub slots : Frame → Cover → ℕ → ℕ → ℕ → Spider → SpiderFlow
  unfolding slot cover_limit
  slots f c window_end zero off s = spent s
  slots f c window_end (suc fuel) off s = elim (ltb off window_end && ltb off (cover_limit c)) [
    | false ↦ going s
    | true ↦ keep_on (slot f c off s) (λ s'. slots f c window_end fuel (off + align) s')
  ]

  module _ (read : Reader) (tick : ScanProgress → Bool) where
    -- A structure: its window is read and walked.
    unfoldable pub visit_struct : Frame → Spider → SpiderFlow
    unfolding slots read_window cover_limit next_multiple_of
    visit_struct f s =
        let (c, win) = read_window read f.addr (length s.win) s.win in
        let start = next_multiple_of f.addr align - f.addr in
        let window_end = start + cfg.struct_size in
        let s' : Spider = record s { win = win } in
        if cover_limit c == 0 then going s' else slots f c window_end (suc window_end) start s'

    -- A frame of the level, with `queued` frames behind it.
    unfoldable pub visit_frame : Frame → ℕ → Spider → SpiderFlow
    unfolding visit_struct
    visit_frame f queued s =
        let n = s.nodes_visited + 1 in
        let s' : Spider = record s { nodes_visited = n } in
        let progress : ScanProgress = record {
          done = n;
          total = n + queued + length s.next;
          matches = length s.hits;
        } in
        if leb cfg.max_nodes s.nodes_visited
        then full s
        else (if n % spider_interval == 0 && not (tick progress)
            then stopped s'
            else visit_struct f s')

    unfoldable pub visit_level : List Frame → Spider → SpiderFlow
    unfolding visit_frame
    visit_level [] s = going s
    visit_level (f ∷ level) s =
        keep_on (visit_frame f (length level) s) (λ s'. visit_level level s')

    -- `while !frontier.is_empty()`, on fuel: each round is one level deeper.
    unfoldable pub search_levels : ℕ → List Frame → Spider → SpiderFlow
    unfolding visit_level
    search_levels fuel [] s = going s
    search_levels zero (f ∷ level) s = spent s
    search_levels (suc fuel) (f ∷ level) s =
        keep_on (visit_level (f ∷ level) (record s { next = [] }))
          (λ s'. search_levels fuel s'.next s')

    abbrev pub root_frame : Frame
    root_frame = record { addr = root; depth = 0; path = [] }

    unfoldable pub search : SpiderFlow
    unfolding search_levels
    search = search_levels (suc cfg.max_depth) (root_frame ∷ []) (record {
      hits = [];
      visited = root ∷ [];
      next = [];
      nodes_visited = 0;
      win = replicate (cfg.struct_size + cfg.pointer_size + align) 0;
    })

abbrev pub result_of : Bool → Spider → SpiderScanResult
result_of truncated s = record {
  hits = s.hits;
  truncated = truncated;
  nodes_visited = s.nodes_visited;
}

abbrev pub conclude : SpiderFlow → Outcome ScanError SpiderScanResult
conclude (going s) = ok (result_of false s)
conclude (full s) = ok (result_of true s)
conclude (stopped s) = err cancelled
conclude (spent s) = diverged

-- The mapped ranges, sorted.
unfoldable pub mapped_ranges : List Region → List (ℕ × ℕ)
unfolding sort_by_key region_end
mapped_ranges regions = sort_by_key range_key (map (λ (r : Region). (r.base, region_end r)) regions)

module _ (fl : Floats) (regions : Outcome ℕ (List Region)) (read : Reader)
    (tick : ScanProgress → Bool) where
  open fl use {Float}

  unfoldable pub spider_search :
      ℕ → SpiderConfig → ScanCompareType → Needle Float → Outcome ScanError SpiderScanResult
  unfolding needle_stride compare_first mapped_ranges search
  spider_search root cfg compare needle =
      let stride = needle_stride fl needle in
      let align = max (if cfg.alignment == 0 then stride else cfg.alignment) 1 in
      elim regions [
        | err e ↦ err (target e)
        | diverged ↦ diverged
        | ok rs ↦ conclude (
            search cfg root stride align (mapped_ranges rs)
              (λ buf off. compare_first fl needle buf off compare) read tick)
      ]

  -- `spider_scan_with`
  unfoldable pub spider_scan :
      ℕ
      → SpiderConfig
      → ScanValueType
      → ScanCompareType
      → Option (Needle Float)
      → Outcome ScanError SpiderScanResult
  unfolding spider_search clamped is_baseline needs_previous needle_stride
  spider_scan root cfg ty compare none =
      if is_baseline compare
      then err (compare_is_first_scan_only compare)
      else if needs_previous compare
      then err (compare_needs_previous compare)
      else err (missing_needle compare)
  spider_scan root cfg ty compare (some needle) =
      if is_baseline compare
      then err (compare_is_first_scan_only compare)
      else if needs_previous compare
      then err (compare_needs_previous compare)
      else if not (eq_type needle.ty ty)
      then err (needle_type_mismatch needle.ty ty)
      else if needle_stride fl needle == 0
      then err (no_stride ty)
      else spider_search root (clamped cfg) compare needle
