-- ===== src/Spider/Invariant.antt =====
-- crates/nemclass-scan/src/spider.rs: what every step of the search keeps.
use nemclass.Common.{
  ℕ, ◌+◌, ◌≤◌, ◌<◌, ◌≡◌, refl, ap, ◌∙◌, Bool, true, false, Option, none, some, List, [], ◌∷◌, ◌++◌,
  arith, ◌==◌, length, All, All-append,
}
use nemclass.Common.Sort.{IsSorted}
use nemclass.Pointer.Path.{◌>>=◌, checked_add, read_word}
use nemclass.Scan.Walk.{bytes_of}
use nemclass.Spider.Path.{SpiderConfig, SpiderHit, depth_of, hop, resolve_spider}
use nemclass.Spider.Cover.{top}
use nemclass.Spider.Search.{Frame, Spider, SpiderFlow, going, full, stopped, spent, keep_on}

-- What holds of a search that goes on, and of one that has reached a cap; the fuel is enough.
abbrev pub IsFlow : (Spider → Type 0) → (Spider → Type 0) → SpiderFlow → Type 0
IsFlow P Q (going s) = P s
IsFlow P Q (full s) = Q s
IsFlow P Q (stopped s) = Unit {0}
IsFlow P Q (spent s) = ⊥

pub keep_on-IsFlow :
    (P P' Q : Spider → Type 0) (x : SpiderFlow) (f : Spider → SpiderFlow)
    → IsFlow P Q x
    → ((s : Spider) → P s → IsFlow P' Q (f s))
    → IsFlow P' Q (keep_on x f)
keep_on-IsFlow P P' Q (going s) f h k = k s h
keep_on-IsFlow P P' Q (full s) f h k = h
keep_on-IsFlow P P' Q (stopped s) f h k = tt
keep_on-IsFlow P P' Q (spent s) f h k = h

-- The word of the memory at an address.
abbrev pub word_at : (ℕ → ℕ) → ℕ → ℕ → Option ℕ
word_at mem width a = some (read_word (bytes_of mem a width))

-- The depth of a hit.
abbrev pub hit_depth : SpiderHit → ℕ
hit_depth h = depth_of h.path

pub checked_add-some : (a b : ℕ) → a + b < top → checked_add a b ≡ some (a + b)
unfolding checked_add
checked_add-some a b h = ground arith

bind_read :
    (o : Option ℕ) (r K L k : ℕ → Option ℕ)
    → ((w : ℕ) → K w ≡ (L w >>= k))
    → (o >>= λ s. r s >>= K) ≡ ((o >>= λ s. r s >>= L) >>= k)
bind_read none r K L k h = refl
bind_read (some s) r K L k h = of_word (r s)
  where
    of_word : (o : Option ℕ) → (o >>= K) ≡ ((o >>= L) >>= k)
    of_word none = refl
    of_word (some w) = h w

pub hop-append :
    (read_ptr : ℕ → Option ℕ) (a : ℕ) (xs ys : List ℕ)
    → hop read_ptr a (xs ++ ys) ≡ (hop read_ptr a xs >>= λ b. hop read_ptr b ys)
unfolding hop
hop-append read_ptr a [] ys = refl
hop-append read_ptr a (x ∷ xs) ys =
    bind_read (checked_add a x) read_ptr
      (λ w. elim (w == 0) [ true ↦ none | false ↦ hop read_ptr w (xs ++ ys) ])
      (λ w. elim (w == 0) [ true ↦ none | false ↦ hop read_ptr w xs ]) (λ b. hop read_ptr b ys)
      (λ w. of_word w (w == 0) (hop-append read_ptr w xs ys))
  where
    of_word :
        (w : ℕ) (b : Bool)
        → hop read_ptr w (xs ++ ys) ≡ (hop read_ptr w xs >>= λ c. hop read_ptr c ys)
        → elim b [ true ↦ none | false ↦ hop read_ptr w (xs ++ ys) ]
          ≡ (elim b [ true ↦ none | false ↦ hop read_ptr w xs ] >>= λ c. hop read_ptr c ys)
    of_word w true h = refl
    of_word w false h = h

pub hop-child :
    (mem : ℕ → ℕ) (width a off : ℕ)
    → a + off < top
    → (read_word (bytes_of mem (a + off) width) == 0) ≡ false
    → hop (word_at mem width) a (off ∷ []) ≡ some (read_word (bytes_of mem (a + off) width))
unfolding hop
hop-child mem width a off low h =
    ap (λ o. o >>= λ s. word_at mem width s >>= λ w. elim (w == 0) [ true ↦ none | false ↦ some w ])
      (checked_add-some a off low)
    ∙ ap (λ b. elim b [ true ↦ none | false ↦ some (read_word (bytes_of mem (a + off) width)) ]) h

pub All-snoc :
    {A : Type 0} (P : A → Type 0) (xs : List A) (x : A) → All P xs → P x → All P (xs ++ (x ∷ []))
All-snoc P xs x h k = All-append P xs (x ∷ []) h (k, tt)

pub IsSorted-snoc :
    {A : Type 0} (key : A → ℕ) (xs : List A) (x : A)
    → IsSorted key xs
    → All (λ y. key y ≤ key x) xs
    → IsSorted key (xs ++ (x ∷ []))
IsSorted-snoc key [] x h k = (tt, tt)
IsSorted-snoc key (y ∷ ys) x h k =
    (All-snoc (λ z. key y ≤ key z) ys x h.0 k.0, IsSorted-snoc key ys x h.1 k.1)

module _ (cfg : SpiderConfig) (root stride : ℕ) (test : List ℕ → ℕ → Bool) (mem : ℕ → ℕ) where
  -- A hit: its path leads to an address, and the bytes there are the hit's and pass the comparison.
  pub record IsHit (h : SpiderHit) : Type 0 where
    pub address : ℕ
    pub resolved : resolve_spider (word_at mem cfg.pointer_size) h.path ≡ some address
    pub rooted : h.path.root ≡ root
    pub bytes : h.current ≡ bytes_of mem address stride
    pub own_previous : h.previous ≡ h.current
    pub matches : test h.current 0 ≡ true
    pub shallow : hit_depth h ≤ cfg.max_depth

  -- A frame of a level: its path leads to its address.
  pub record IsFrame (depth : ℕ) (f : Frame) : Type 0 where
    pub reached : hop (word_at mem cfg.pointer_size) root f.path ≡ some f.addr
    pub hops : length f.path ≡ f.depth
    pub level : f.depth ≡ depth
    pub within_depth : depth ≤ cfg.max_depth

  -- The search in the level of the given depth.
  pub record IsSpider (depth : ℕ) (s : Spider) : Type 0 where
    pub sound : All IsHit s.hits
    pub by_depth : IsSorted hit_depth s.hits
    pub no_deeper : All (λ h. hit_depth h ≤ depth) s.hits
    pub few_hits : length s.hits < cfg.max_results
    pub few_nodes : s.nodes_visited ≤ cfg.max_nodes
    pub queue : All (IsFrame (depth + 1)) s.next

  -- The search behind a cap.
  pub record IsCapped (s : Spider) : Type 0 where
    pub sound : All IsHit s.hits
    pub by_depth : IsSorted hit_depth s.hits
    pub few_hits : length s.hits ≤ cfg.max_results
    pub few_nodes : s.nodes_visited ≤ cfg.max_nodes
