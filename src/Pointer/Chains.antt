-- ===== src/Pointer/Chains.antt =====
-- Every path that a pointer scan reports leads from a static address to the goal.
use nemclass.Common.{
  ℕ, zero, suc, ◌+◌, ◌-◌, ◌≤◌, ◌≡◌, refl, ap, inl, inr, true, false, Option, some, List, [], ◌∷◌,
  ◌++◌, arith, ltb, leb, ◌==◌, leb→le, Bool-cases, length, any, All, All-append,
}
use nemclass.Common.Sort.{IsSorted}
use nemclass.Scan.Target.{usize_max}
use nemclass.Pointer.Path.{
  PointerScanConfig, PointerPath, checked_add, follow, resolve, is_mapped, static_ranges_sorted,
}
use nemclass.Pointer.Search.{
  PointerMap, Search, range, skip_below, take_up_to, is_full, hops, solve, find_paths,
}

module _ (read_ptr : ℕ → Option ℕ) where
  -- An entry of the map is a pointer that the memory holds.
  abbrev pub Held : ℕ × ℕ → Type 0
  Held e = (read_ptr e.1 ≡ some e.0) × (e.1 ≤ usize_max)

  -- The map's invariant: ascending by value, and every entry held by the memory.
  abbrev pub IsPointerMap : List (ℕ × ℕ) → Type 0
  IsPointerMap entries = IsSorted (λ (e : ℕ × ℕ). e.0) entries × All Held entries

module _ (read_ptr : ℕ → Option ℕ) (cfg : PointerScanConfig) (target : ℕ) where
  -- The offsets lead from an address to the target.
  abbrev Arrives : ℕ → List ℕ → Type 0
  Arrives goal [] = goal ≡ target
  Arrives goal (off ∷ offsets) =
      resolve read_ptr (record { base = goal; offsets = off ∷ offsets }) ≡ some target

  follow-hop :
      (goal value : ℕ) (suffix : List ℕ)
      → value ≤ goal
      → goal ≤ usize_max
      → Arrives goal suffix
      → follow read_ptr value ((goal - value) ∷ suffix) ≡ some target
  unfolding follow checked_add resolve
  follow-hop goal value [] h u a =
      let back : value + (goal - value) ≡ goal = omega arith in
      let fits : leb goal usize_max ≡ true = ground arith in rw back (rw fits (ap some a))
  follow-hop goal value (off ∷ offsets) h u a =
      let back : value + (goal - value) ≡ goal = omega arith in
      let fits : leb goal usize_max ≡ true = ground arith in rw back (rw fits a)

  -- A path from a static address to the target, within the bounds of the settings.
  pub record IsChain (path : PointerPath) : Type 0 where
    pub arrives : resolve read_ptr path ≡ some target
    pub anchored : is_mapped (static_ranges_sorted cfg) path.base ≡ true
    pub near : All (λ off. off ≤ cfg.max_offset) path.offsets
    pub shallow : length path.offsets ≤ cfg.max_depth

  -- A goal of the search, with the offsets below it and the levels that are left above it.
  record Ready (goal : ℕ) (suffix : List ℕ) (levels : ℕ) : Type 0 where
    arrives : Arrives goal suffix
    near : All (λ off. off ≤ cfg.max_offset) suffix
    shallow : length suffix + levels ≤ cfg.max_depth
    usize : goal ≤ usize_max

  abbrev InRange : ℕ → ℕ × ℕ → Type 0
  InRange goal e = (Held read_ptr e × (goal - cfg.max_offset ≤ e.0)) × (e.0 ≤ goal)

  hop-Ready :
      (goal value addr : ℕ) (suffix : List ℕ) (levels : ℕ)
      → Ready goal suffix (suc levels)
      → InRange goal (value, addr)
      → Ready addr ((goal - value) ∷ suffix) levels
  unfolding resolve
  hop-Ready goal value addr suffix levels r ((h, low), high) = record {
    arrives = rw h.0 (follow-hop goal value suffix high r.usize r.arrives);
    near = (omega arith, r.near);
    shallow = omega (arith, r.shallow);
    usize = h.1;
  }

  abbrev Good : Search → Type 0
  Good s = All IsChain s.out

  hops-Good :
      (deeper : ℕ → List ℕ → Search → Search) (levels : ℕ)
      → ((addr : ℕ) (chain : List ℕ) (s : Search)
          → Ready addr chain levels
          → Good s
          → Good (deeper addr chain s))
      → (goal : ℕ) (suffix : List ℕ) (entries : List (ℕ × ℕ)) (s : Search)
      → Ready goal suffix (suc levels)
      → All (InRange goal) entries
      → Good s
      → Good (hops cfg (static_ranges_sorted cfg) deeper goal suffix entries s)
  unfolding hops
  hops-Good deeper levels ok goal suffix [] s r h g = g
  hops-Good deeper levels ok goal suffix ((value, addr) ∷ entries) s r h g =
      let chain = (goal - value) ∷ suffix in
      let path : PointerPath = record { base = addr; offsets = chain } in
      let ready = hop-Ready goal value addr suffix levels r h.0 in
      elim (Bool-cases (is_full cfg s)) [
        | inl full ↦ rw full g
        | inr room ↦ rw room (elim (Bool-cases (is_mapped (static_ranges_sorted cfg) addr)) [
          | inl static ↦
              let found : IsChain path = record {
                arrives = ready.arrives;
                anchored = static;
                near = ready.near;
                shallow = omega (arith, ready.shallow);
              } in
              rw static (
                hops-Good deeper levels ok goal suffix entries
                  (record s { out = s.out ++ (path ∷ []) }) r h.1
                  (All-append IsChain s.out (path ∷ []) g (found, tt)))
          | inr dynamic ↦ rw dynamic (
              hops-Good deeper levels ok goal suffix entries (deeper addr chain s) r h.1
                (ok addr chain s ready g))
        ])
      ]

  skip_below-All :
      (lo : ℕ) (entries : List (ℕ × ℕ))
      → IsPointerMap read_ptr entries
      → All (λ e. Held read_ptr e × (lo ≤ e.0)) (skip_below lo entries)
  skip_below-All lo [] m = tt
  skip_below-All lo (e ∷ entries) m = elim (Bool-cases (ltb e.0 lo)) [
    | inl below ↦ rw below (skip_below-All lo entries (m.0.1, m.1.1))
    | inr above ↦
        let first : lo ≤ e.0 = ground arith in
        rw above ((m.1.0, first), rest first entries m.0.0 m.1.1)
  ]
    where
      rest :
          {b : ℕ}
          → lo ≤ b
          → (later : List (ℕ × ℕ)) → All (λ (x : ℕ × ℕ). b ≤ x.0) later
          → All (Held read_ptr) later
          → All (λ x. Held read_ptr x × (lo ≤ x.0)) later
      rest l [] h k = tt
      rest l (x ∷ later) h k = ((k.0, omega arith), rest l later h.1 k.1)

  take_up_to-All :
      (P : ℕ × ℕ → Type 0) (hi : ℕ) (entries : List (ℕ × ℕ))
      → All P entries
      → All (λ e. P e × (e.0 ≤ hi)) (take_up_to hi entries)
  take_up_to-All P hi [] h = tt
  take_up_to-All P hi (e ∷ entries) h = elim (Bool-cases (leb e.0 hi)) [
    | inl below ↦ rw below ((h.0, leb→le _ _ below), take_up_to-All P hi entries h.1)
    | inr above ↦ rw above tt
  ]

  module _ (entries : List (ℕ × ℕ)) (m : IsPointerMap read_ptr entries) where
    solve-Good :
        (depth goal : ℕ) (suffix : List ℕ) (s : Search)
        → Ready goal suffix depth
        → Good s
        → Good (solve cfg (static_ranges_sorted cfg) entries depth goal suffix s)
    unfolding solve range
    solve-Good zero goal suffix s r g = elim (Bool-cases (is_full cfg s)) [
      | inl full ↦ rw full g
      | inr room ↦ rw room g
    ]
    solve-Good (suc depth) goal suffix s r g =
        let near =
          take_up_to-All (λ e. Held read_ptr e × (goal - cfg.max_offset ≤ e.0)) goal
            (skip_below (goal - cfg.max_offset) entries)
            (skip_below-All (goal - cfg.max_offset) entries m) in
        let deeper =
          hops-Good (solve cfg (static_ranges_sorted cfg) entries depth) depth (solve-Good depth)
            goal suffix (range entries (goal - cfg.max_offset) goal)
            (record s { visited = goal ∷ s.visited }) r near g in
        elim (Bool-cases (is_full cfg s)) [
          | inl full ↦ rw full g
          | inr room ↦ rw room (elim (Bool-cases (any (λ v. v == goal) s.visited)) [
            | inl cycle ↦ rw cycle g
            | inr new ↦ rw new deeper
          ])
        ]

-- Over a map that the memory agrees with, every path that the search reports starts at a static
-- address, resolves in that memory to the goal, and keeps to the bounds on offsets and depth.
pub find_paths-All :
    (read_ptr : ℕ → Option ℕ) (cfg : PointerScanConfig) (goal : ℕ) (m : PointerMap)
    → goal ≤ usize_max
    → IsPointerMap read_ptr m.entries
    → All (IsChain read_ptr cfg goal) (find_paths m goal cfg).paths
unfolding find_paths
find_paths-All read_ptr cfg goal m u h =
    solve-Good read_ptr cfg goal m.entries h cfg.max_depth goal []
      (record { visited = []; out = []; truncated = false })
      (record { arrives = refl; near = tt; shallow = omega arith; usize = u }) tt
