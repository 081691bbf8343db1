-- ===== src/Spider/Path.antt =====
-- crates/nemclass-scan/src/spider.rs: the settings of a search, and the paths that it finds.
use nemclass.Common.{
  ℕ, min, max, Bool, true, false, Option, none, some, List, [], ◌∷◌, ◌==◌, length,
}
use nemclass.Pointer.Path.{◌>>=◌, checked_add}

abbrev pub max_struct_size : ℕ
max_struct_size = 0x4000

abbrev pub max_hops : ℕ
max_hops = 8

abbrev pub page : ℕ
page = 4096

abbrev pub spider_interval : ℕ
spider_interval = 64

pub record SpiderConfig : Type 0 where
  pub struct_size : ℕ
  pub alignment : ℕ
  pub max_depth : ℕ
  pub pointer_size : ℕ
  pub max_results : ℕ
  pub max_nodes : ℕ
  pub dedupe_nodes : Bool

abbrev pub default_spider : SpiderConfig
default_spider = record {
  struct_size = 0x1000;
  alignment = 4;
  max_depth = 3;
  pointer_size = 8;
  max_results = 100_000;
  max_nodes = 1_000_000;
  dedupe_nodes = true;
}

-- `x.clamp(lo, hi)`
abbrev pub clamp : ℕ → ℕ → ℕ → ℕ
clamp x lo hi = max lo (min x hi)

unfoldable pub clamped : SpiderConfig → SpiderConfig
clamped cfg = record {
  struct_size = clamp cfg.struct_size 1 max_struct_size;
  alignment = cfg.alignment;
  max_depth = min cfg.max_depth max_hops;
  pointer_size = clamp cfg.pointer_size 1 8;
  max_results = max cfg.max_results 1;
  max_nodes = max cfg.max_nodes 1;
  dedupe_nodes = cfg.dedupe_nodes;
}

pub record SpiderPath : Type 0 where
  pub root : ℕ
  pub parent_offsets : List ℕ
  pub offset : ℕ

unfoldable pub depth_of : SpiderPath → ℕ
depth_of p = length p.parent_offsets

module _ (read_ptr : ℕ → Option ℕ) where
  -- The hops: a null pointer fails.
  unfoldable pub hop : ℕ → List ℕ → Option ℕ
  unfolding checked_add
  hop addr [] = some addr
  hop addr (off ∷ offsets) = do
    at_slot ← checked_add addr off
    word ← read_ptr at_slot
    elim (word == 0) [ true ↦ none | false ↦ hop word offsets ]

  unfoldable pub resolve_spider : SpiderPath → Option ℕ
  unfolding hop
  resolve_spider p = do addr ← hop p.root p.parent_offsets; checked_add addr p.offset

pub record SpiderHit : Type 0 where
  pub path : SpiderPath
  pub current : List ℕ
  pub previous : List ℕ

pub record SpiderScanResult : Type 0 where
  pub hits : List SpiderHit
  pub truncated : Bool
  pub nodes_visited : ℕ
