-- ===== src/Pointer/Harvest.antt =====
-- crates/nemclass-scan/src/pointerscan.rs: the harvest of a map of pointers. `break 'regions` stands
-- exactly where `truncated` is set, so the loops stop there. `sort_unstable_by_key` may leave entries
-- of one value in any order; this is the order that a stable sort leaves them in.
use nemclass.Common.{
  ℕ, zero, suc, ◌+◌, ◌-◌, ◌^◌, min, max, Bool, true, false, ◌&&◌, ◌||◌, List, [], ◌∷◌, ◌++◌, map,
  ltb, leb, ◌==◌, if◌then◌else◌, length, take, drop,
}
use nemclass.Common.Outcome.{Outcome, ok, diverged, ◌>>=◌}
use nemclass.Common.Sort.{sort_by_key}
use nemclass.Scan.Target.{Region, region_end}
use nemclass.Scan.FirstScan.{Reader, next_multiple_of}
use nemclass.Pointer.Path.{PointerScanConfig, range_key, is_mapped, read_word}
use nemclass.Pointer.Search.{PointerMap, PointerScanResult, find_paths}

-- `CHUNK`
abbrev pub harvest_chunk : ℕ
harvest_chunk = 2 ^ 20

-- The variables that the harvest changes.
pub record Harvest : Type 0 where
  pub entries : List (ℕ × ℕ)
  pub truncated : Bool

module _ (ranges : List (ℕ × ℕ)) (psize align cap : ℕ) where
  -- What the word at an address adds.
  unfoldable pub emit : ℕ → ℕ → Harvest → Harvest
  unfolding is_mapped
  emit val addr h =
      let entries = h.entries ++ ((val, addr) ∷ []) in
      if is_mapped ranges val
      then record { entries = entries; truncated = leb cap (length entries) }
      else h

  -- `while i + psize <= n`, on fuel.
  unfoldable pub words_loop : ℕ → List ℕ → ℕ → ℕ → Harvest → Outcome ℕ Harvest
  unfolding emit read_word
  words_loop pos buf zero i h = diverged
  words_loop pos buf (suc fuel) i h = elim (leb (i + psize) (length buf)) [
    | false ↦ ok h
    | true ↦
        let h' = emit (read_word (take psize (drop i buf))) (pos + i) h in
        elim h'.truncated [ true ↦ ok h' | false ↦ words_loop pos buf fuel (i + align) h' ]
  ]

  module _ (read : Reader) where
    -- `while pos < end`, on fuel.
    unfoldable pub chunks_loop : ℕ → ℕ → ℕ → Harvest → Outcome ℕ Harvest
    unfolding words_loop next_multiple_of
    chunks_loop end_ zero pos h = diverged
    chunks_loop end_ (suc fuel) pos h =
        let want = min (end_ - pos) (harvest_chunk + psize) in
        elim (ltb pos end_) [
          | false ↦ ok h
          | true ↦ do
            buf ← read pos want
            elim (ltb (length buf) psize) [
              | true ↦ ok h
              | false ↦ do
                h' ← words_loop pos buf (suc (length buf)) (next_multiple_of pos align - pos) h
                elim (h'.truncated || leb want psize) [
                  | true ↦ ok h'
                  | false ↦ chunks_loop end_ fuel (pos + (want - psize)) h'
                ]
            ]
        ]

    unfoldable pub harvest : List Region → Harvest → Outcome ℕ Harvest
    unfolding chunks_loop region_end
    harvest [] h = ok h
    harvest (r ∷ regions) h = do
      h' ← chunks_loop (region_end r) (suc (region_end r)) r.base h
      elim h'.truncated [ true ↦ ok h' | false ↦ harvest regions h' ]

-- `dedup`: of equal entries in a row one is left.
unfoldable pub dedup : List (ℕ × ℕ) → List (ℕ × ℕ)
dedup [] = []
dedup (e ∷ []) = e ∷ []
dedup (e ∷ next ∷ entries) =
    let rest = dedup (next ∷ entries) in if e.0 == next.0 && e.1 == next.1 then rest else e ∷ rest

unfoldable pub mapped_spans : List Region → List (ℕ × ℕ)
unfolding sort_by_key region_end
mapped_spans rs = sort_by_key range_key (map (λ (r : Region). (r.base, region_end r)) rs)

abbrev pub map_of : Harvest → PointerMap
map_of h = record {
  entries = dedup (sort_by_key (λ (e : ℕ × ℕ). e.0) h.entries);
  truncated = h.truncated;
}

module _ (regions : Outcome ℕ (List Region)) (read : Reader) (cfg : PointerScanConfig) where
  unfoldable pub build : Outcome ℕ PointerMap
  unfolding harvest mapped_spans dedup sort_by_key
  build = do
    rs ← regions
    h ←
        harvest (mapped_spans rs) (max cfg.pointer_size 1) (max cfg.alignment 1) cfg.max_map_entries
          read rs (record { entries = []; truncated = false })
    ok (map_of h)

  unfoldable pub pointer_scan : ℕ → Outcome ℕ PointerScanResult
  unfolding build find_paths
  pointer_scan goal = do
    m ← build
    let result = find_paths m goal cfg
    ok (record result { truncated = result.truncated || m.truncated })
