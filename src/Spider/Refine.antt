-- ===== src/Spider/Refine.antt =====
-- crates/nemclass-scan/src/spider.rs: the pass that narrows the hits.
use nemclass.Common.{
  ℕ, ◌+◌, ◌%◌, Bool, not, ◌&&◌, Option, none, some, List, [], ◌∷◌, ltb, ◌==◌, if◌then◌else◌, length,
  take,
}
use nemclass.Common.Outcome.{Outcome, ok, err, diverged}
use nemclass.Scan.Compare.{ScanCompareType, is_baseline, needs_needle}
use nemclass.Scan.ValueType.{Floats, ScanValueType, fixed_width, compare_change}
use nemclass.Scan.Needle.{Needle, needle_stride, compare_next}
use nemclass.Scan.Session.{
  ScanError, compare_is_first_scan_only, missing_needle, needle_type_mismatch, no_stride, cancelled,
  eq_type, or_else,
}
use nemclass.Scan.FirstScan.{Reader, ScanProgress}
use nemclass.Spider.Path.{SpiderConfig, clamped, SpiderHit, resolve_spider, spider_interval}
use nemclass.Pointer.Path.{read_word}

-- A pointer-sized word of the target.
unfoldable pub read_pointer : Reader → ℕ → ℕ → Option ℕ
unfolding read_word
read_pointer read psize addr = elim (read addr psize) [
  | ok bytes ↦ if length bytes == psize then some (read_word bytes) else none
  | _ ↦ none
]

module _ (read : Reader) (psize stride : ℕ) (test : List ℕ → List ℕ → Bool) where
  abbrev pub verdict_at : List ℕ → Outcome ℕ (List ℕ) → Option (List ℕ)
  verdict_at current (ok bytes) =
      if ltb (length bytes) stride
      then none
      else if test (take stride bytes) current
      then some (take stride bytes)
      else none
  verdict_at current (err e) = none
  verdict_at current diverged = none

  -- The fresh bytes of a hit that is kept.
  unfoldable pub verdict : SpiderHit → Option (List ℕ)
  unfolding resolve_spider read_pointer
  verdict hit = elim (resolve_spider (read_pointer read psize) hit.path) [
    | none ↦ none
    | some addr ↦ verdict_at hit.current (read addr stride)
  ]

  abbrev pub count_kept : Option (List ℕ) → ℕ → ℕ
  count_kept none kept = kept
  count_kept (some bytes) kept = kept + 1

  -- The loop that collects the verdicts; `none` where the observer stops it.
  unfoldable pub collect :
      (ScanProgress → Bool) → ℕ → ℕ → ℕ → List SpiderHit → Option (List (Option (List ℕ)))
  unfolding verdict
  collect tick total done kept [] = some []
  collect tick total done kept (hit ∷ hits) =
      let progress : ScanProgress = record { done = done + 1; total = total; matches = kept } in
      let v = verdict hit in
      let rest = collect tick total (done + 1) (count_kept v kept) hits in
      if (done + 1) % spider_interval == 0 && not (tick progress)
      then none
      else elim rest [ none ↦ none | some vs ↦ some (v ∷ vs) ]

-- `hits.retain_mut(..)`
unfoldable pub retain : List (Option (List ℕ)) → List SpiderHit → List SpiderHit
retain [] hits = []
retain (v ∷ vs) [] = []
retain (none ∷ vs) (hit ∷ hits) = retain vs hits
retain (some fresh ∷ vs) (hit ∷ hits) =
    record hit { current = fresh; previous = hit.current } ∷ retain vs hits

module _ (fl : Floats) (read : Reader) (tick : ScanProgress → Bool) where
  open fl use {Float}

  unfoldable pub refine_matches :
      ScanValueType → ScanCompareType → Option (Needle Float) → List ℕ → List ℕ → Bool
  unfolding compare_next compare_change
  refine_matches ty compare none bytes current = compare_change fl ty compare bytes current
  refine_matches ty compare (some n) bytes current = compare_next fl n bytes 0 compare current

  unfoldable pub refine_stride : ScanValueType → Option (Needle Float) → ℕ
  unfolding needle_stride fixed_width
  refine_stride ty none = or_else (fixed_width ty) 0
  refine_stride ty (some n) = needle_stride fl n

  -- The checks on the needle.
  unfoldable pub refine_refusal :
      ScanValueType → ScanCompareType → Option (Needle Float) → Option ScanError
  unfolding is_baseline needs_needle refine_stride
  refine_refusal ty compare none =
      if is_baseline compare
      then some (compare_is_first_scan_only compare)
      else if needs_needle compare
      then some (missing_needle compare)
      else if refine_stride ty none == 0
      then some (no_stride ty)
      else none
  refine_refusal ty compare (some n) =
      if is_baseline compare
      then some (compare_is_first_scan_only compare)
      else if not (eq_type n.ty ty)
      then some (needle_type_mismatch n.ty ty)
      else if refine_stride ty (some n) == 0
      then some (no_stride ty)
      else none

  -- `spider_refine_with`: the hits afterwards, and the outcome.
  unfoldable pub spider_refine :
      SpiderConfig
      → List SpiderHit
      → ScanValueType
      → ScanCompareType
      → Option (Needle Float)
      → List SpiderHit × Outcome ScanError (Unit {0})
  unfolding refine_refusal collect retain clamped
  spider_refine cfg hits ty compare needle =
      let stride = refine_stride ty needle in
      elim (refine_refusal ty compare needle) [
        | some e ↦ (hits, err e)
        | none ↦
            elim (collect read (clamped cfg).pointer_size stride (refine_matches ty compare needle)
              tick (length hits) 0 0 hits) [
                | none ↦ (hits, err cancelled)
                | some vs ↦ (retain vs hits, ok tt)
              ]
      ]
