-- ===== src/Spider/Narrow.antt =====
-- crates/nemclass-scan/src/spider.rs: what a refine does to the hits.
use mathlib.Core.Path.{fun_ext}
use nemclass.Common.{
  ℕ, ◌+◌, ◌%◌, ◌≡◌, refl, ap, ◌∙◌, Bool, true, false, not, ◌&&◌, Option, none, some, List, [], ◌∷◌,
  map, arith, ltb, ◌==◌, if◌then◌else◌, length, take,
}
use nemclass.Common.Outcome.{Outcome, ok, err, diverged}
use nemclass.Scan.Compare.{ScanCompareType}
use nemclass.Scan.ValueType.{Floats, ScanValueType}
use nemclass.Scan.Needle.{Needle}
use nemclass.Scan.Session.{ScanError, cancelled}
use nemclass.Scan.FirstScan.{Reader, ScanProgress}
use nemclass.Scan.Walk.{bytes_of, length-bytes_of, take-bytes_of}
use nemclass.Scan.Rounds.{memory_reader}
use nemclass.Pointer.Path.{◌>>=◌}
use nemclass.Spider.Path.{SpiderConfig, clamped, SpiderHit, resolve_spider, spider_interval}
use nemclass.Spider.Invariant.{word_at}
use nemclass.Spider.Refine.{
  read_pointer, verdict, verdict_at, count_kept, collect, retain, refine_matches, refine_stride,
  refine_refusal, spider_refine,
}

-- A hit whose path still leads somewhere where the bytes pass: the fresh bytes, and behind them the
-- old ones.
abbrev pub refined_hit : (ℕ → ℕ) → ℕ → ℕ → (List ℕ → List ℕ → Bool) → SpiderHit → Option SpiderHit
refined_hit mem width stride test hit = resolve_spider (word_at mem width) hit.path >>= λ a.
    if test (bytes_of mem a stride) hit.current
    then some (record hit { current = bytes_of mem a stride; previous = hit.current })
    else none

abbrev pub filter_map : (SpiderHit → Option SpiderHit) → List SpiderHit → List SpiderHit
filter_map f [] = []
filter_map f (h ∷ hs) =
    let rest = filter_map f hs in elim (f h) [ none ↦ rest | some h' ↦ h' ∷ rest ]

-- The hits behind a pass: the reference's if it is done, and the old ones if it is refused or stopped.
abbrev pub IsPass :
    List SpiderHit → List SpiderHit → List SpiderHit × Outcome ScanError (Unit {0}) → Type 0
IsPass old reference (hits, ok done) = hits ≡ reference
IsPass old reference (hits, err e) = hits ≡ old
IsPass old reference (hits, diverged) = ⊥

read_pointer-word_at :
    (mem : ℕ → ℕ) (width a : ℕ) → read_pointer (memory_reader mem) width a ≡ word_at mem width a
unfolding read_pointer
read_pointer-word_at mem width a = ground (arith, length-bytes_of mem a width)

module _ (mem : ℕ → ℕ) (width stride : ℕ) (test : List ℕ → List ℕ → Bool) where
  -- The verdict on a hit, with the hit that it makes of it.
  abbrev judged : SpiderHit → Option (List ℕ) → Option SpiderHit
  judged hit v = v >>= λ fresh. some (record hit { current = fresh; previous = hit.current })

  judged-verdict_at :
      (hit : SpiderHit) (a : ℕ)
      → judged hit (
          verdict_at (memory_reader mem) width stride test hit.current (memory_reader mem a stride))
        ≡ (if test (bytes_of mem a stride) hit.current
            then some (record hit { current = bytes_of mem a stride; previous = hit.current })
            else none)
  judged-verdict_at hit a =
      let long : ltb (length (bytes_of mem a stride)) stride ≡ false =
        ground (arith, length-bytes_of mem a stride) in
      ap (λ b. judged hit (if b then none else answer (take stride (bytes_of mem a stride)))) long
      ∙ ap (λ bs. judged hit (answer bs)) (take-bytes_of mem a stride stride (omega arith))
      ∙ answered (test (bytes_of mem a stride) hit.current)
    where
      answer : List ℕ → Option (List ℕ)
      answer bs = if test bs hit.current then some bs else none

      answered :
          (b : Bool)
          → judged hit (if b then some (bytes_of mem a stride) else none) ≡ (
              if b
              then some (record hit { current = bytes_of mem a stride; previous = hit.current })
              else none)
      answered true = refl
      answered false = refl

  judged-verdict :
      (hit : SpiderHit)
      → judged hit (verdict (memory_reader mem) width stride test hit)
        ≡ refined_hit mem width stride test hit
  unfolding verdict
  judged-verdict hit =
      ap
        (λ r. judged hit (elim (resolve_spider r hit.path) [
          | none ↦ none
          | some addr ↦
              verdict_at (memory_reader mem) width stride test hit.current
                (memory_reader mem addr stride)
        ]))
        (fun_ext (read_pointer-word_at mem width))
      ∙ at_address (resolve_spider (word_at mem width) hit.path)
    where
      at_address :
          (o : Option ℕ)
          → judged hit (elim o [
            | none ↦ none
            | some addr ↦
                verdict_at
                  (memory_reader mem)
                  width
                  stride
                  test
                  hit.current
                  (memory_reader mem addr stride)
          ])
            ≡ (o >>= λ a.
                if test (bytes_of mem a stride) hit.current
                then some (record hit { current = bytes_of mem a stride; previous = hit.current })
                else none)
      at_address none = refl
      at_address (some a) = judged-verdict_at hit a

  retain-verdict :
      (hits : List SpiderHit)
      → retain (map (verdict (memory_reader mem) width stride test) hits) hits
        ≡ filter_map (refined_hit mem width stride test) hits
  unfolding retain
  retain-verdict [] = refl
  retain-verdict (hit ∷ hits) =
      let v = verdict (memory_reader mem) width stride test hit in
      let vs = map (verdict (memory_reader mem) width stride test) hits in
      kept v vs
      ∙ ap (λ o. elim o [ none ↦ retain vs hits | some h' ↦ h' ∷ retain vs hits ])
          (judged-verdict hit)
      ∙ ap
          (λ rest. elim (refined_hit mem width stride test hit) [
            | none ↦ rest
            | some h' ↦ h' ∷ rest
          ])
          (retain-verdict hits)
    where
      kept :
          (v : Option (List ℕ)) (vs : List (Option (List ℕ)))
          → retain (v ∷ vs) (hit ∷ hits)
            ≡ elim (judged hit v) [ none ↦ retain vs hits | some h' ↦ h' ∷ retain vs hits ]
      kept none vs = refl
      kept (some fresh) vs = refl

-- The collected verdicts are those of the hits, one by one.
collect-map :
    (read : Reader) (width stride : ℕ) (test : List ℕ → List ℕ → Bool) (tick : ScanProgress → Bool)
    (total done kept : ℕ) (hits : List SpiderHit) (vs : List (Option (List ℕ)))
    → collect read width stride test tick total done kept hits ≡ some vs
    → vs ≡ map (verdict read width stride test) hits
unfolding collect
collect-map read width stride test tick total done kept [] vs h = cc
collect-map read width stride test tick total done kept (hit ∷ hits) vs h =
    let v = verdict read width stride test hit in
    let (vs', rest, cons) =
      step v
        ((done + 1) % spider_interval == 0
          && not (tick (record { done = done + 1; total = total; matches = kept })))
        (collect read width stride test tick total (done + 1)
          (count_kept read width stride test v kept) hits)
        vs h in
    cons
    ∙ ap (λ r. v ∷ r)
        (collect-map read width stride test tick total (done + 1)
          (count_kept read width stride test v kept) hits vs' rest)
  where
    step :
        (v : Option (List ℕ)) (stop : Bool) (rest : Option (List (Option (List ℕ))))
        (vs : List (Option (List ℕ)))
        → (if stop then none else elim rest [ none ↦ none | some vs' ↦ some (v ∷ vs') ]) ≡ some vs
        → (vs' : List (Option (List ℕ))) × (rest ≡ some vs') × (vs ≡ v ∷ vs')
    step v true rest vs h = absurd (cc)
    step v false none vs h = absurd (cc)
    step v false (some vs') vs h = (vs', refl, cc)

module _ (fl : Floats) (mem : ℕ → ℕ) (tick : ScanProgress → Bool) where
  open fl use {Float}

  -- A refine that is done leaves, in their order, the hits whose path still leads somewhere where the
  -- bytes pass the comparison with the hit's last ones, with these bytes as the current value and the
  -- last ones behind them; one that is refused or stopped leaves every hit as it was. The target can be
  -- read everywhere.
  pub spider_refine-IsPass :
      (cfg : SpiderConfig) (hits : List SpiderHit) (ty : ScanValueType) (compare : ScanCompareType)
      (needle : Option (Needle Float))
      → IsPass hits
          (filter_map
            (refined_hit mem
              (clamped cfg).pointer_size
              (refine_stride fl (memory_reader mem) tick ty needle)
              (refine_matches fl (memory_reader mem) tick ty compare needle))
            hits)
          (spider_refine fl (memory_reader mem) tick cfg hits ty compare needle)
  unfolding spider_refine
  spider_refine-IsPass cfg hits ty compare needle =
      passed (refine_refusal fl (memory_reader mem) tick ty compare needle)
        (collect (memory_reader mem) width stride test tick (length hits) 0 0 hits) refl
    where
      width : ℕ
      width = (clamped cfg).pointer_size

      stride : ℕ
      stride = refine_stride fl (memory_reader mem) tick ty needle

      test : List ℕ → List ℕ → Bool
      test = refine_matches fl (memory_reader mem) tick ty compare needle

      passed :
          (refusal : Option ScanError) (collected : Option (List (Option (List ℕ))))
          → collect (memory_reader mem) width stride test tick (length hits) 0 0 hits ≡ collected
          → IsPass hits (filter_map (refined_hit mem width stride test) hits) (elim refusal [
            | some e ↦ (hits, err e)
            | none ↦ elim collected [
              | none ↦ (hits, err cancelled)
              | some vs ↦ (retain vs hits, ok tt)
            ]
          ])
      passed (some e) collected h = refl
      passed none none h = refl
      passed none (some vs) h =
          ap (λ l. retain l hits)
            (collect-map (memory_reader mem) width stride test tick (length hits) 0 0 hits vs h)
          ∙ retain-verdict mem width stride test hits
