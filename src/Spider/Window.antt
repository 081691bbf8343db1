-- ===== src/Spider/Window.antt =====
-- crates/nemclass-scan/src/spider.rs: the window of a structure, and which of its bytes were read.
use nemclass.Common.{
  ℕ, zero, suc, ◌+◌, ◌-◌, Bool, true, false, ◌&&◌, List, [], ◌∷◌, ltb, leb, ◌==◌, if◌then◌else◌,
  length, any,
}
use nemclass.Common.Outcome.{ok}
use nemclass.Scan.FirstScan.{Reader, next_multiple_of}
use nemclass.Spider.Path.{page, clamp}

-- The spans of a sparse cover, the last one first.
pub data Cover : Type 0 where
  whole : ℕ → Cover
  sparse : List (ℕ × ℕ) → Cover

unfoldable pub cover_has : Cover → ℕ → ℕ → Bool
cover_has (whole n) off need = leb (off + need) n
cover_has (sparse spans) off need = any (λ s. leb s.0 off && leb (off + need) s.1) spans

unfoldable pub cover_limit : Cover → ℕ
cover_limit (whole n) = n
cover_limit (sparse []) = 0
cover_limit (sparse ((s, e) ∷ spans)) = e

-- A read into a buffer: the bytes go over the ones there, and the length stays.
unfoldable pub put_at : List ℕ → ℕ → List ℕ → List ℕ
put_at win off [] = win
put_at [] off (b ∷ bs) = []
put_at (w ∷ win) zero (b ∷ bs) = b ∷ put_at win zero bs
put_at (w ∷ win) (suc off) (b ∷ bs) = w ∷ put_at win off (b ∷ bs)

-- `match spans.last_mut()`
unfoldable pub push_span : List (ℕ × ℕ) → ℕ → ℕ → List (ℕ × ℕ)
push_span [] off n = (off, off + n) ∷ []
push_span ((s, e) ∷ spans) off n =
    if e == off then (s, off + n) ∷ spans else (off, off + n) ∷ (s, e) ∷ spans

-- The end of the page that a retry reads.
unfoldable pub page_end : ℕ → ℕ → ℕ → ℕ
unfolding next_multiple_of
page_end addr off size = clamp (next_multiple_of (addr + off) page - addr) (off + 1) size

module _ (read : Reader) (addr size : ℕ) where
  -- One retry, of the bytes from `off` to `end_`.
  unfoldable pub read_page : ℕ → ℕ → List (ℕ × ℕ) × List ℕ → List (ℕ × ℕ) × List ℕ
  unfolding put_at push_span
  read_page off end_ (spans, win) = elim (read (addr + off) (end_ - off)) [
    | ok [] ↦ (spans, win)
    | ok (b ∷ bs) ↦ (push_span spans off (length (b ∷ bs)), put_at win off (b ∷ bs))
    | _ ↦ (spans, win)
  ]

  -- `while off < buf.len()`, on fuel: `off` grows in each round.
  unfoldable pub read_pages : ℕ → ℕ → List (ℕ × ℕ) × List ℕ → List (ℕ × ℕ) × List ℕ
  unfolding read_page page_end
  read_pages zero off state = state
  read_pages (suc fuel) off state = elim (ltb off size) [
    | false ↦ state
    | true ↦ let end_ = page_end addr off size in read_pages fuel end_ (read_page off end_ state)
  ]

  abbrev pub sparse_window : List (ℕ × ℕ) × List ℕ → Cover × List ℕ
  sparse_window (spans, win) = (sparse spans, win)

  unfoldable pub retry : List ℕ → Cover × List ℕ
  unfolding read_pages
  retry win = sparse_window (read_pages size 0 ([], win))

  -- A read that fails, or answers nothing, is tried again page by page.
  unfoldable pub read_window : List ℕ → Cover × List ℕ
  unfolding retry put_at
  read_window win = elim (read addr size) [
    | ok [] ↦ if size == 0 then (whole 0, win) else retry win
    | ok (b ∷ bs) ↦ (whole (length (b ∷ bs)), put_at win 0 (b ∷ bs))
    | _ ↦ retry win
  ]
