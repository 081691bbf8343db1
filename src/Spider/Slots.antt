-- ===== src/Spider/Slots.antt =====
-- crates/nemclass-scan/src/spider.rs: the slots of one window keep the search's invariant.
use mathlib.Core.Path.{subst}
use nemclass.Common.{
  ℕ, zero, suc, ◌+◌, ◌%◌, ◌≤◌, ◌<◌, ◌≡◌, refl, sym, ap, ◌∙◌, inl, inr, Bool, true, false, not, ◌&&◌,
  some, List, [], ◌∷◌, ◌++◌, arith, ltb, leb, ◌==◌, if◌then◌else◌, ltb→lt, Bool-cases, and_both,
  length, take, drop, any, length-append,
}
use nemclass.Pointer.Path.{◌>>=◌, checked_add, is_mapped, read_word}
use nemclass.Scan.Walk.{bytes_of}
use nemclass.Spider.Path.{SpiderConfig, depth_of, hop, resolve_spider}
use nemclass.Spider.Window.{Cover, cover_has, cover_limit}
use nemclass.Spider.Cover.{IsCovered, cover_has-IsCovered, top}
use nemclass.Spider.Search.{Frame, Spider, follow_word, pointer_slot, hit_at, slot, slots}
use nemclass.Spider.Invariant.{
  IsFlow, keep_on-IsFlow, word_at, hit_depth, checked_add-some, hop-append, hop-child, All-snoc,
  IsSorted-snoc, IsHit, IsFrame, IsSpider, IsCapped,
}

module _ (cfg : SpiderConfig) (root stride align : ℕ) (ranges : List (ℕ × ℕ))
    (test : List ℕ → ℕ → Bool) (mem : ℕ → ℕ) (wide : 0 < stride) (pointers : 0 < cfg.pointer_size)
    (own : (win : List ℕ) (off : ℕ)
      → off + stride ≤ length win
      → test win off ≡ test (take stride (drop off win)) 0)
    (depth : ℕ) where
  abbrev Invariant : Spider → Type 0
  Invariant s = IsSpider cfg root stride test mem depth s

  child-IsFrame :
      (f : Frame) (off word : ℕ)
      → IsFrame cfg root stride test mem depth f
      → depth < cfg.max_depth
      → word ≡ read_word (bytes_of mem (f.addr + off) cfg.pointer_size)
      → f.addr + off < top
      → (word == 0) ≡ false
      → IsFrame cfg root stride test mem
          (depth + 1)
          (record { addr = word; depth = f.depth + 1; path = f.path ++ (off ∷ []) })
  child-IsFrame f off word v h e low nonzero = record {
    reached =
        hop-append (word_at mem cfg.pointer_size) root f.path (off ∷ [])
        ∙ ap (λ o. o >>= λ b. hop (word_at mem cfg.pointer_size) b (off ∷ [])) v.reached
        ∙ hop-child mem cfg.pointer_size f.addr off low (ap (λ w. w == 0) (sym e) ∙ nonzero)
        ∙ ap some (sym e);
    hops = omega (arith, length-append f.path (off ∷ []), v.hops);
    level = omega (arith, v.level);
    within_depth = omega arith;
  }

  -- A frame of the next level in the queue, whatever the visited set.
  queued-IsSpider :
      (child : Frame) (seen : List ℕ) (s : Spider)
      → IsFrame cfg root stride test mem (depth + 1) child
      → Invariant s
      → Invariant (record s { next = s.next ++ (child ∷ []); visited = seen })
  queued-IsSpider child seen s v i = record {
    sound = i.sound;
    by_depth = i.by_depth;
    no_deeper = i.no_deeper;
    few_hits = i.few_hits;
    few_nodes = i.few_nodes;
    queue = All-snoc (IsFrame cfg root stride test mem (depth + 1)) s.next child i.queue v;
  }

  follow_word-IsSpider :
      (f : Frame) (off word : ℕ) (s : Spider)
      → IsFrame cfg root stride test mem depth f
      → depth < cfg.max_depth
      → word ≡ read_word (bytes_of mem (f.addr + off) cfg.pointer_size)
      → f.addr + off < top
      → Invariant s
      → Invariant (follow_word cfg root stride align ranges test f off word s)
        × ((follow_word cfg root stride align ranges test f off word s).win ≡ s.win)
  unfolding follow_word
  follow_word-IsSpider f off word s v h e low i =
      elim (Bool-cases (not (word == 0) && not (word == f.addr) && is_mapped ranges word)) [
        | inr skip ↦ rw skip ((i, refl))
        | inl follows ↦
            let nonzero : (word == 0) ≡ false = ground arith in
            let child : Frame = record {
              addr = word;
              depth = f.depth + 1;
              path = f.path ++ (off ∷ []);
            } in
            let v' = child-IsFrame f off word v h e low nonzero in
            rw follows (marked cfg.dedupe_nodes (any (λ w. w == word) s.visited) child word v')
      ]
    where
      marked :
          (dedupe known : Bool) (child : Frame) (seen : ℕ)
          → IsFrame cfg root stride test mem (depth + 1) child
          → let queued : Spider = record s { next = s.next ++ (child ∷ []) } in
            let r =
              if dedupe
              then (if known then s else record queued { visited = seen ∷ s.visited })
              else queued in
            Invariant r × (r.win ≡ s.win)
      marked true true child seen v' = (i, refl)
      marked true false child seen v' = (queued-IsSpider child (seen ∷ s.visited) s v' i, refl)
      marked false known child seen v' = (queued-IsSpider child s.visited s v' i, refl)

  pointer_slot-IsSpider :
      (f : Frame) (c : Cover) (off : ℕ) (s : Spider)
      → IsFrame cfg root stride test mem depth f
      → IsCovered mem f.addr c s.win
      → Invariant s
      → Invariant (pointer_slot cfg root stride align ranges test f c off s)
        × ((pointer_slot cfg root stride align ranges test f c off s).win ≡ s.win)
  unfolding pointer_slot
  pointer_slot-IsSpider f c off s v cov i =
      elim (Bool-cases (
        ltb f.depth cfg.max_depth
        && (f.addr + off) % cfg.pointer_size == 0
        && cover_has c off cfg.pointer_size)) [
          | inr skip ↦ rw skip ((i, refl))
          | inl points ↦
              let (slots_ok, has) =
                and_both (ltb f.depth cfg.max_depth && (f.addr + off) % cfg.pointer_size == 0)
                  (cover_has c off cfg.pointer_size) points in
              let shallow =
                (and_both (ltb f.depth cfg.max_depth) ((f.addr + off) % cfg.pointer_size == 0)
                  slots_ok).0 in
              let (here, fits, low) =
                cover_has-IsCovered mem f.addr c s.win off cfg.pointer_size cov has in
              rw points (
                follow_word-IsSpider f off (read_word (take cfg.pointer_size (drop off s.win))) s v
                  (omega (arith, v.level, ltb→lt f.depth cfg.max_depth shallow)) (ap read_word here)
                  (omega arith) i)
        ]

  hit_at-IsHit :
      (f : Frame) (c : Cover) (off : ℕ) (s : Spider)
      → IsFrame cfg root stride test mem depth f
      → IsCovered mem f.addr c s.win
      → cover_has c off stride ≡ true
      → test s.win off ≡ true
      → IsHit cfg root stride test mem (hit_at cfg root stride align ranges test f off s)
  unfolding resolve_spider depth_of
  hit_at-IsHit f c off s v cov has passes =
      let (here, fits, low) = cover_has-IsCovered mem f.addr c s.win off stride cov has in
      record {
        address = f.addr + off;
        resolved =
            ap (λ o. o >>= λ b. checked_add b off) v.reached
            ∙ checked_add-some f.addr off (omega arith);
        rooted = refl;
        bytes = here;
        own_previous = refl;
        matches = sym (own s.win off fits) ∙ passes;
        shallow = omega (arith, v.hops, v.level, v.within_depth);
      }

  slot-IsFlow :
      (f : Frame) (c : Cover) (off : ℕ) (s : Spider)
      → IsFrame cfg root stride test mem depth f
      → IsCovered mem f.addr c s.win
      → Invariant s
      → IsFlow
          (λ s'. Invariant s' × (s'.win ≡ s.win))
          (IsCapped cfg root stride test mem)
          (slot cfg root stride align ranges test f c off s)
  unfolding slot depth_of
  slot-IsFlow f c off s v cov i = elim (Bool-cases (cover_has c off stride && test s.win off)) [
    | inr misses ↦ rw misses (pointer_slot-IsSpider f c off s v cov i)
    | inl hits ↦
        let (has, passes) = and_both (cover_has c off stride) (test s.win off) hits in
        let hit = hit_at cfg root stride align ranges test f off s in
        let found = hit_at-IsHit f c off s v cov has passes in
        let all = All-snoc (IsHit cfg root stride test mem) s.hits hit i.sound found in
        let size = length-append s.hits (hit ∷ []) in
        let deep : hit_depth hit ≡ depth = v.hops ∙ v.level in
        let sorted = IsSorted-snoc hit_depth s.hits hit i.by_depth (rw deep i.no_deeper) in
        elim (Bool-cases (leb cfg.max_results (length (s.hits ++ (hit ∷ []))))) [
          | inl cap ↦
              rw (hits, cap)
                (record {
                  sound = all;
                  by_depth = sorted;
                  few_hits = omega (arith, size, i.few_hits);
                  few_nodes = i.few_nodes;
                })
          | inr room ↦
              rw (hits, room)
                (pointer_slot-IsSpider f c off (record s { hits = s.hits ++ (hit ∷ []) }) v cov
                  (record {
                    sound = all;
                    by_depth = sorted;
                    no_deeper =
                        All-snoc (λ h. hit_depth h ≤ depth) s.hits hit i.no_deeper
                          (omega (arith, deep));
                    few_hits = ground arith;
                    few_nodes = i.few_nodes;
                    queue = i.queue;
                  }))
        ]
  ]

  -- The walk of a window ends, and keeps the invariant.
  pub slots-IsFlow :
      (f : Frame) (c : Cover) (window_end fuel off : ℕ) (s : Spider)
      → 0 < align
      → 0 < fuel
      → window_end < fuel + off
      → IsFrame cfg root stride test mem depth f
      → IsCovered mem f.addr c s.win
      → Invariant s
      → IsFlow Invariant
          (IsCapped cfg root stride test mem)
          (slots cfg root stride align ranges test f c window_end fuel off s)
  unfolding slots
  slots-IsFlow f c window_end zero off s pos some_fuel enough v cov i = absurd (omega arith)
  slots-IsFlow f c window_end (suc fuel) off s pos some_fuel enough v cov i =
      elim (Bool-cases (ltb off window_end && ltb off (cover_limit c))) [
        | inr done ↦ rw (done, IsFlow) i
        | inl more ↦
            rw (more, IsFlow)
              (keep_on-IsFlow (λ s'. Invariant s' × (s'.win ≡ s.win)) Invariant
                (IsCapped cfg root stride test mem)
                (slot cfg root stride align ranges test f c off s)
                (λ s'. slots cfg root stride align ranges test f c window_end fuel (off + align) s')
                (slot-IsFlow f c off s v cov i)
                (λ s' i'.
                  slots-IsFlow f c window_end fuel (off + align) s' pos (ground arith) (omega arith)
                    v (subst (λ w. IsCovered mem f.addr c w) (sym i'.1) cov) i'.0))
      ]
