-- ===== src/Pointer/Bounded.antt =====
-- A pointer scan reports no more paths than it is asked for.
use nemclass.Common.{
  ℕ, zero, suc, ◌-◌, ◌≤◌, inl, inr, false, List, [], ◌∷◌, ◌++◌, arith, ◌==◌, Bool-cases, length,
  any, length-append,
}
use nemclass.Pointer.Path.{PointerScanConfig, PointerPath, is_mapped, static_ranges_sorted}
use nemclass.Pointer.Search.{PointerMap, Search, range, is_full, hops, solve, find_paths}

module _ (cfg : PointerScanConfig) (statics : List (ℕ × ℕ)) where
  abbrev Fits : Search → Type 0
  Fits s = length s.out ≤ cfg.max_results

  hops-Fits :
      (deeper : ℕ → List ℕ → Search → Search)
      → ((addr : ℕ) (chain : List ℕ) (s : Search) → Fits s → Fits (deeper addr chain s))
      → (goal : ℕ) (suffix : List ℕ) (entries : List (ℕ × ℕ)) (s : Search) → Fits s
      → Fits (hops cfg statics deeper goal suffix entries s)
  unfolding hops
  hops-Fits deeper ok goal suffix [] s f = f
  hops-Fits deeper ok goal suffix ((value, addr) ∷ entries) s f =
      let chain = (goal - value) ∷ suffix in
      let path : PointerPath = record { base = addr; offsets = chain } in
      elim (Bool-cases (is_full cfg s)) [
        | inl full ↦ rw full f
        | inr room ↦
            let grown : length (s.out ++ (path ∷ [])) ≤ cfg.max_results =
              ground (arith, length-append s.out (path ∷ [])) in
            rw room (elim (Bool-cases (is_mapped statics addr)) [
              | inl static ↦ rw static (
                  hops-Fits deeper ok goal suffix entries (record s { out = s.out ++ (path ∷ []) })
                    grown)
              | inr dynamic ↦ rw dynamic (
                  hops-Fits deeper ok goal suffix entries (deeper addr chain s) (ok addr chain s f))
            ])
      ]

  solve-Fits :
      (entries : List (ℕ × ℕ)) (depth goal : ℕ) (suffix : List ℕ) (s : Search)
      → Fits s
      → Fits (solve cfg statics entries depth goal suffix s)
  unfolding solve
  solve-Fits entries zero goal suffix s f = elim (Bool-cases (is_full cfg s)) [
    | inl full ↦ rw full f
    | inr room ↦ rw room f
  ]
  solve-Fits entries (suc depth) goal suffix s f =
      let deeper =
        hops-Fits (solve cfg statics entries depth) (solve-Fits entries depth) goal suffix
          (range entries (goal - cfg.max_offset) goal) (record s { visited = goal ∷ s.visited })
          f in
      elim (Bool-cases (is_full cfg s)) [
        | inl full ↦ rw full f
        | inr room ↦ rw room (elim (Bool-cases (any (λ v. v == goal) s.visited)) [
          | inl cycle ↦ rw cycle f
          | inr new ↦ rw new deeper
        ])
      ]

-- The search reports at most `max_results` paths.
pub length-find_paths :
    (m : PointerMap) (goal : ℕ) (cfg : PointerScanConfig)
    → length (find_paths m goal cfg).paths ≤ cfg.max_results
unfolding find_paths
length-find_paths m goal cfg =
    solve-Fits cfg (static_ranges_sorted cfg) m.entries cfg.max_depth goal []
      (record { visited = []; out = []; truncated = false }) (omega arith)
