-- ===== src/Spider/Levels.antt =====
-- crates/nemclass-scan/src/spider.rs: the frames and the levels keep the search's invariant, and the
-- levels end.
use nemclass.Common.{
  ℕ, zero, suc, ◌+◌, ◌-◌, ◌%◌, ◌≤◌, ◌<◌, ◌≡◌, refl, inl, inr, Bool, not, ◌&&◌, List, [], ◌∷◌, arith,
  leb, ◌==◌, Bool-cases, length, take, drop, replicate, All,
}
use nemclass.Scan.FirstScan.{Reader, ScanProgress, next_multiple_of}
use nemclass.Spider.Path.{SpiderConfig, SpiderHit, spider_interval, hop}
use nemclass.Spider.Window.{cover_limit, read_window}
use nemclass.Spider.Cover.{IsReadOf}
use nemclass.Spider.Pages.{read_window-Covered}
use nemclass.Spider.Search.{
  Frame, Spider, visit_struct, visit_frame, visit_level, search_levels, search,
}
use nemclass.Spider.Invariant.{IsFlow, keep_on-IsFlow, hit_depth, IsFrame, IsSpider, IsCapped}
use nemclass.Spider.Slots.{slots-IsFlow}

module _ (cfg : SpiderConfig) (root stride align : ℕ) (ranges : List (ℕ × ℕ))
    (test : List ℕ → ℕ → Bool) (mem : ℕ → ℕ) (read : Reader) (tick : ScanProgress → Bool)
    (wide : 0 < stride) (pointers : 0 < cfg.pointer_size) (aligned : 0 < align)
    (own : (win : List ℕ) (off : ℕ)
      → off + stride ≤ length win
      → test win off ≡ test (take stride (drop off win)) 0)
    (m : IsReadOf mem read) where
  abbrev At : ℕ → Spider → Type 0
  At depth s = IsSpider cfg root stride test mem depth s

  abbrev Capped : Spider → Type 0
  Capped s = IsCapped cfg root stride test mem s

  abbrev capped_of : (depth : ℕ) (s : Spider) → At depth s → Capped s
  capped_of depth s i = record {
    sound = i.sound;
    by_depth = i.by_depth;
    few_hits = omega (arith, i.few_hits);
    few_nodes = i.few_nodes;
  }

  visit_struct-IsFlow :
      (depth : ℕ) (f : Frame) (s : Spider)
      → IsFrame cfg root stride test mem depth f
      → At depth s
      → IsFlow (At depth) Capped (visit_struct cfg root stride align ranges test read tick f s)
  unfolding visit_struct
  visit_struct-IsFlow depth f s v i =
      let r = read_window read f.addr (length s.win) s.win in
      let start = next_multiple_of f.addr align - f.addr in
      let i' : At depth (record s { win = r.1 }) = record {
        sound = i.sound;
        by_depth = i.by_depth;
        no_deeper = i.no_deeper;
        few_hits = i.few_hits;
        few_nodes = i.few_nodes;
        queue = i.queue;
      } in
      elim (Bool-cases (cover_limit r.0 == 0)) [
        | inl unread ↦ rw (unread, IsFlow) i'
        | inr covered ↦
            rw (covered, IsFlow)
              (slots-IsFlow cfg root stride align ranges test mem wide pointers own depth f r.0
                (start + cfg.struct_size) (suc (start + cfg.struct_size)) start
                (record s { win = r.1 }) aligned (omega arith) (omega arith) v
                (read_window-Covered mem read m f.addr (length s.win) s.win refl).0 i')
      ]

  visit_frame-IsFlow :
      (depth : ℕ) (f : Frame) (queued : ℕ) (s : Spider)
      → IsFrame cfg root stride test mem depth f
      → At depth s
      → IsFlow
          (At depth)
          Capped
          (visit_frame cfg root stride align ranges test read tick f queued s)
  unfolding visit_frame
  visit_frame-IsFlow depth f queued s v i = elim (Bool-cases (leb cfg.max_nodes s.nodes_visited)) [
    | inl cap ↦ rw (cap, IsFlow) (capped_of depth s i)
    | inr room ↦
        let s' : Spider = record s { nodes_visited = s.nodes_visited + 1 } in
        let progress : ScanProgress = record {
          done = s.nodes_visited + 1;
          total = s.nodes_visited + 1 + queued + length s.next;
          matches = length s.hits;
        } in
        let i' : At depth s' = record {
          sound = i.sound;
          by_depth = i.by_depth;
          no_deeper = i.no_deeper;
          few_hits = i.few_hits;
          few_nodes = ground arith;
          queue = i.queue;
        } in
        elim (Bool-cases ((s.nodes_visited + 1) % spider_interval == 0 && not (tick progress))) [
          | inl stop ↦ rw (room, stop, IsFlow) tt
          | inr on ↦ rw (room, on, IsFlow) (visit_struct-IsFlow depth f s' v i')
        ]
  ]

  visit_level-IsFlow :
      (depth : ℕ) (level : List Frame) (s : Spider)
      → All (IsFrame cfg root stride test mem depth) level
      → At depth s
      → IsFlow (At depth) Capped (visit_level cfg root stride align ranges test read tick level s)
  unfolding visit_level
  visit_level-IsFlow depth [] s v i = i
  visit_level-IsFlow depth (f ∷ level) s v i =
      keep_on-IsFlow (At depth) (At depth) Capped
        (visit_frame cfg root stride align ranges test read tick f (length level) s)
        (visit_level cfg root stride align ranges test read tick level)
        (visit_frame-IsFlow depth f (length level) s v.0 i)
        (λ s' i'. visit_level-IsFlow depth level s' v.1 i')

  -- The next level starts with an empty queue.
  next_level : (depth : ℕ) (s : Spider) → At depth s → At (depth + 1) (record s { next = [] })
  next_level depth s i = record {
    sound = i.sound;
    by_depth = i.by_depth;
    no_deeper = weaken s.hits i.no_deeper;
    few_hits = i.few_hits;
    few_nodes = i.few_nodes;
    queue = tt;
  }
    where
      weaken :
          (hs : List SpiderHit)
          → All (λ h. hit_depth h ≤ depth) hs
          → All (λ h. hit_depth h ≤ depth + 1) hs
      weaken [] h = tt
      weaken (x ∷ hs) h = (omega (arith, h.0), weaken hs h.1)

  -- Each level is one deeper, and no frame is deeper than the cap: the levels end.
  search_levels-IsFlow :
      (fuel depth : ℕ) (level : List Frame) (s : Spider)
      → cfg.max_depth < fuel + depth
      → All (IsFrame cfg root stride test mem depth) level
      → At depth (record s { next = [] })
      → Capped s
      → IsFlow Capped Capped
          (search_levels cfg root stride align ranges test read tick fuel level s)
  unfolding search_levels
  search_levels-IsFlow fuel depth [] s enough v i c = c
  search_levels-IsFlow zero depth (f ∷ level) s enough v i c =
      absurd (omega (arith, v.0.within_depth))
  search_levels-IsFlow (suc fuel) depth (f ∷ level) s enough v i c =
      keep_on-IsFlow (At depth) Capped Capped
        (visit_level cfg root stride align ranges test read tick (f ∷ level)
          (record s { next = [] }))
        (λ s'. search_levels cfg root stride align ranges test read tick fuel s'.next s')
        (visit_level-IsFlow depth (f ∷ level) (record s { next = [] }) v i)
        (λ s' i'.
          search_levels-IsFlow fuel (depth + 1) s'.next s' (omega arith) i'.queue
            (next_level depth s' i') (capped_of depth s' i'))

  pub search-IsFlow :
      0 < cfg.max_results
      → IsFlow Capped Capped (search cfg root stride align ranges test read tick)
  unfolding search hop
  search-IsFlow some_results =
      search_levels-IsFlow (suc cfg.max_depth) 0 (root_frame' ∷ []) start (omega arith)
        (record { reached = refl; hops = refl; level = refl; within_depth = omega arith }, tt)
        (record {
          sound = tt;
          by_depth = tt;
          no_deeper = tt;
          few_hits = some_results;
          few_nodes = omega arith;
          queue = tt;
        })
        (record { sound = tt; by_depth = tt; few_hits = omega arith; few_nodes = omega arith })
    where
      root_frame' : Frame
      root_frame' = record { addr = root; depth = 0; path = [] }

      start : Spider
      start = record {
        hits = [];
        visited = root ∷ [];
        next = [];
        nodes_visited = 0;
        win = replicate (cfg.struct_size + cfg.pointer_size + align) 0;
      }
