-- ===== src/Pointer/Search.antt =====
-- crates/nemclass-scan/src/pointerscan.rs: the bounded reverse search over a map of pointers.
use nemclass.Common.{
  ℕ, zero, suc, ◌-◌, Bool, true, false, not, List, [], ◌∷◌, ◌++◌, ltb, leb, ◌==◌, if◌then◌else◌,
  length, filter, any,
}
use nemclass.Pointer.Path.{PointerScanConfig, PointerPath, is_mapped, static_ranges_sorted}

-- Each entry is a value and the address that holds it, ascending by the value.
pub record PointerMap : Type 0 where
  pub entries : List (ℕ × ℕ)
  pub truncated : Bool

pub record PointerScanResult : Type 0 where
  pub paths : List PointerPath
  pub truncated : Bool

-- What `solve` changes; `visited` is a set.
pub record Search : Type 0 where
  pub visited : List ℕ
  pub out : List PointerPath
  pub truncated : Bool

abbrev pub skip_below : ℕ → List (ℕ × ℕ) → List (ℕ × ℕ)
skip_below lo [] = []
skip_below lo (e ∷ entries) =
    let rest = skip_below lo entries in if ltb e.0 lo then rest else e ∷ entries

abbrev pub take_up_to : ℕ → List (ℕ × ℕ) → List (ℕ × ℕ)
take_up_to hi [] = []
take_up_to hi (e ∷ entries) =
    let rest = take_up_to hi entries in if leb e.0 hi then e ∷ rest else []

unfoldable pub range : List (ℕ × ℕ) → ℕ → ℕ → List (ℕ × ℕ)
range entries lo hi = take_up_to hi (skip_below lo entries)

abbrev pub is_full : PointerScanConfig → Search → Bool
is_full cfg s = leb cfg.max_results (length s.out)

abbrev pub stop_full : Search → Search
stop_full s = record s { truncated = true }

module _ (cfg : PointerScanConfig) (statics : List (ℕ × ℕ)) where
  -- The loop over the entries in range; `deeper` is the call of `solve` one level up.
  unfoldable pub hops : (ℕ → List ℕ → Search → Search) → ℕ → List ℕ → List (ℕ × ℕ) → Search → Search
  unfolding is_mapped
  hops deeper goal suffix [] s = s
  hops deeper goal suffix ((value, addr) ∷ entries) s =
      let chain = (goal - value) ∷ suffix in
      let path : PointerPath = record { base = addr; offsets = chain } in
      let anchored = hops deeper goal suffix entries (record s { out = s.out ++ (path ∷ []) }) in
      let extended = hops deeper goal suffix entries (deeper addr chain s) in
      if is_full cfg s then stop_full s else (if is_mapped statics addr then anchored else extended)

  module _ (entries : List (ℕ × ℕ)) where
    unfoldable pub solve : ℕ → ℕ → List ℕ → Search → Search
    unfolding hops range
    solve zero goal suffix s = if is_full cfg s then stop_full s else s
    solve (suc depth) goal suffix s =
        let entered : Search = record s { visited = goal ∷ s.visited } in
        let left =
          hops (solve depth) goal suffix (range entries (goal - cfg.max_offset) goal) entered in
        if is_full cfg s
        then stop_full s
        else (if any (λ v. v == goal) s.visited
            then s
            else record left { visited = filter (λ v. not (v == goal)) left.visited })

unfoldable pub find_paths : PointerMap → ℕ → PointerScanConfig → PointerScanResult
unfolding solve static_ranges_sorted
find_paths m goal cfg =
    let s =
      solve cfg (static_ranges_sorted cfg) m.entries cfg.max_depth goal []
        (record { visited = []; out = []; truncated = false }) in
    record { paths = s.out; truncated = s.truncated }
