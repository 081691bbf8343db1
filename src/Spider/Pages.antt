-- ===== src/Spider/Pages.antt =====
-- crates/nemclass-scan/src/spider.rs: the reads of a window, the page-by-page retry included, leave a
-- cover that shows the memory.
use mathlib.Core.Path.{subst}
use nemclass.Common.{
  ℕ, zero, suc, ◌+◌, ◌-◌, ◌≤◌, ◌<◌, ◌≡◌, refl, sym, ap, ◌∙◌, inl, inr, List, [], ◌∷◌, arith, ltb,
  ◌==◌, if◌then◌else◌, ltb→lt, ==_iff, Bool-cases, length, All,
}
use nemclass.Common.Outcome.{Outcome, ok, err, diverged}
use nemclass.Scan.Signature.{byte_at}
use nemclass.Scan.FirstScan.{Reader}
use nemclass.Scan.Walk.{bytes_of}
use nemclass.Spider.Window.{
  Cover, whole, put_at, push_span, page_end, read_page, read_pages, retry, read_window,
}
use nemclass.Spider.Cover.{
  IsReadOf, Shown, IsCovered, top, length-put_at, byte_at-put_at, byte_at-put_at_below,
  byte_at-bytes_of,
}

-- A retry goes forward, and not past the window.
pub page_end_bounds :
    (addr size off : ℕ)
    → off < size
    → (off < page_end addr off size) × (page_end addr off size ≤ size)
unfolding page_end
page_end_bounds addr size off h = (omega arith, omega arith)

module _ (mem : ℕ → ℕ) (read : Reader) (m : IsReadOf mem read) (addr size : ℕ) where
  -- The spans lie below `off`.
  abbrev Pages : ℕ → List (ℕ × ℕ) × List ℕ → Type 0
  Pages off state =
      All (λ s. Shown mem addr state.1 s.0 s.1 × (s.1 ≤ off)) state.0 × (length state.1 ≡ size)

  All-Pages-later :
      (off off' : ℕ) (spans : List (ℕ × ℕ)) (win : List ℕ)
      → off ≤ off'
      → All (λ s. Shown mem addr win s.0 s.1 × (s.1 ≤ off)) spans
      → All (λ s. Shown mem addr win s.0 s.1 × (s.1 ≤ off')) spans
  All-Pages-later off off' [] win h v = tt
  All-Pages-later off off' (s ∷ spans) win h v =
      ((v.0.0, omega (arith, v.0.1)), All-Pages-later off off' spans win h v.1)

  -- A write behind the spans leaves them.
  Shown-put_at :
      (win : List ℕ) (off s e : ℕ) (bs : List ℕ)
      → e ≤ off
      → Shown mem addr win s e
      → Shown mem addr (put_at win off bs) s e
  Shown-put_at win off s e bs h v = record {
    within = omega (arith, v.within, length-put_at win off bs);
    below_top = v.below_top;
    same = λ i l u. byte_at-put_at_below win off bs i (omega arith) ∙ v.same i l u;
  }

  All-put_at :
      (win : List ℕ) (off : ℕ) (spans : List (ℕ × ℕ)) (bs : List ℕ)
      → All (λ s. Shown mem addr win s.0 s.1 × (s.1 ≤ off)) spans
      → All (λ s. Shown mem addr (put_at win off bs) s.0 s.1 × (s.1 ≤ off + length bs)) spans
  All-put_at win off [] bs v = tt
  All-put_at win off (s ∷ spans) bs v = (
    (Shown-put_at win off s.0 s.1 bs v.0.1 v.0.0, omega (arith, v.0.1)),
    All-put_at win off spans bs v.1,
  )

  -- The bytes that were read are shown, with a span that ends where they start.
  Shown-read :
      (win : List ℕ) (off s : ℕ) (bs : List ℕ)
      → bs ≡ bytes_of mem (addr + off) (length bs)
      → off + length bs ≤ length win
      → addr + off + length bs ≤ top
      → ((i : ℕ) → s ≤ i → i < off → byte_at win i ≡ mem (addr + i))
      → Shown mem addr (put_at win off bs) s (off + length bs)
  Shown-read win off s bs e fits low before = record {
    within = omega (arith, length-put_at win off bs);
    below_top = omega arith;
    same = λ i l u. elim (Bool-cases (ltb i off)) [
      | inl old ↦
          byte_at-put_at_below win off bs i (ltb→lt i off old) ∙ before i l (ltb→lt i off old)
      | inr new ↦ fresh i (ground arith) u
    ];
  }
    where
      fresh :
          (i : ℕ) → off ≤ i → i < off + length bs → byte_at (put_at win off bs) i ≡ mem (addr + i)
      fresh i h u =
          let back : off + (i - off) ≡ i = omega arith in
          let inside : i - off < length bs = omega arith in
          let whole_addr : addr + off + (i - off) ≡ addr + i = omega arith in
          ap (byte_at (put_at win off bs)) (sym back)
          ∙ byte_at-put_at win off bs (i - off) fits inside
          ∙ ap (λ xs. byte_at xs (i - off)) e
          ∙ byte_at-bytes_of mem (addr + off) (length bs) (i - off) inside
          ∙ ap mem whole_addr

  push_span-Pages :
      (spans : List (ℕ × ℕ)) (off : ℕ) (win bs : List ℕ)
      → All (λ s. Shown mem addr win s.0 s.1 × (s.1 ≤ off)) spans
      → bs ≡ bytes_of mem (addr + off) (length bs)
      → off + length bs ≤ length win
      → addr + off + length bs ≤ top
      → All
          (λ s. Shown mem addr (put_at win off bs) s.0 s.1 × (s.1 ≤ off + length bs))
          (push_span spans off (length bs))
  unfolding push_span
  push_span-Pages [] off win bs v e fits low =
      ((Shown-read win off off bs e fits low (λ i l u. absurd (omega arith)), omega arith), tt)
  push_span-Pages ((s, d) ∷ spans) off win bs v e fits low = elim (Bool-cases (d == off)) [
    | inl abuts ↦
        let d_off : d ≡ off = (==_iff d off).0 abuts in
        rw abuts (
          (
            Shown-read win off s bs e fits low (λ i l u. v.0.0.same i l (omega (arith, d_off))),
            omega arith,
          ),
          All-put_at win off spans bs v.1,
        )
    | inr gap ↦ rw gap (
      (Shown-read win off off bs e fits low (λ i l u. absurd (omega arith)), omega arith),
      All-put_at win off ((s, d) ∷ spans) bs v,
    )
  ]

  read_page-Pages :
      (off end_ : ℕ) (state : List (ℕ × ℕ) × List ℕ)
      → off ≤ end_
      → end_ ≤ size
      → Pages off state
      → Pages end_ (read_page read addr size off end_ state)
  unfolding read_page
  read_page-Pages off end_ (spans, win) h k v = page_read (read (addr + off) (end_ - off)) refl
    where
      page_read :
          (r : Outcome ℕ (List ℕ))
          → read (addr + off) (end_ - off) ≡ r
          → Pages end_ (elim r [
            | ok [] ↦ (spans, win)
            | ok (b ∷ bs) ↦ (push_span spans off (length (b ∷ bs)), put_at win off (b ∷ bs))
            | _ ↦ (spans, win)
          ])
      page_read (ok []) e = (All-Pages-later off end_ spans win h v.0, v.1)
      page_read (ok (b ∷ bs)) e =
          let (same, short, low) = m (addr + off) (end_ - off) (b ∷ bs) e in
          (
            All-Pages-later (off + length (b ∷ bs)) end_ (push_span spans off (length (b ∷ bs)))
                (put_at win off (b ∷ bs)) (omega (arith, short))
                (push_span-Pages spans off win (b ∷ bs) v.0 same (omega (arith, short, v.1)) low),
            length-put_at win off (b ∷ bs) ∙ v.1,
          )
      page_read (err x) e = (All-Pages-later off end_ spans win h v.0, v.1)
      page_read diverged e = (All-Pages-later off end_ spans win h v.0, v.1)

  read_pages-Pages :
      (fuel off : ℕ) (state : List (ℕ × ℕ) × List ℕ)
      → off ≤ size
      → Pages off state
      → Pages size (read_pages read addr size fuel off state)
  unfolding read_pages
  read_pages-Pages zero off state h v = (All-Pages-later off size state.0 state.1 h v.0, v.1)
  read_pages-Pages (suc fuel) off state h v = elim (Bool-cases (ltb off size)) [
    | inr done ↦ rw (done, read_pages) ((All-Pages-later off size state.0 state.1 h v.0, v.1))
    | inl more ↦
        let lt = ltb→lt off size more in
        let bounds = page_end_bounds addr size off lt in
        rw (more, read_pages)
          (read_pages-Pages fuel (page_end addr off size)
            (read_page read addr size off (page_end addr off size) state) bounds.1
            (read_page-Pages off (page_end addr off size) state (omega (arith, bounds.0)) bounds.1
              v))
  ]

  forget :
      (off : ℕ) (spans : List (ℕ × ℕ)) (win : List ℕ)
      → All (λ s. Shown mem addr win s.0 s.1 × (s.1 ≤ off)) spans
      → All (λ s. Shown mem addr win s.0 s.1) spans
  forget off [] win v = tt
  forget off (s ∷ spans) win v = (v.0.0, forget off spans win v.1)

  abbrev Covered : Cover × List ℕ → Type 0
  Covered r = IsCovered mem addr r.0 r.1 × (length r.1 ≡ size)

  retry-Covered : (win : List ℕ) → length win ≡ size → Covered (retry read addr size win)
  unfolding retry
  retry-Covered win e =
      let v = read_pages-Pages size 0 ([], win) (omega arith) (tt, e) in
      (
        forget size (read_pages read addr size size 0 ([], win)).0
            (read_pages read addr size size 0 ([], win)).1 v.0,
        v.1,
      )

  -- Behind a read of the window every covered byte is the memory's, and the buffer's length stays.
  pub read_window-Covered :
      (win : List ℕ) → length win ≡ size → Covered (read_window read addr size win)
  unfolding read_window
  read_window-Covered win e = first_read (read addr size) refl
    where
      first_read :
          (r : Outcome ℕ (List ℕ))
          → read addr size ≡ r
          → Covered (elim r [
            | ok [] ↦ if size == 0 then (whole 0, win) else retry read addr size win
            | ok (b ∷ bs) ↦ (whole (length (b ∷ bs)), put_at win 0 (b ∷ bs))
            | _ ↦ retry read addr size win
          ])
      first_read (ok []) h = elim (Bool-cases (size == 0)) [
        | inl empty ↦ rw empty (
            (
              record {
                within = omega arith;
                below_top = omega (arith, (m addr size [] h).2);
                same = λ i l u. absurd (omega arith);
              },
              e,
            ))
        | inr some_size ↦ rw some_size (retry-Covered win e)
      ]
      first_read (ok (b ∷ bs)) h =
          let (here, short, low) = m addr size (b ∷ bs) h in
          let same_end : 0 + length (b ∷ bs) ≡ length (b ∷ bs) = omega arith in
          (
            subst (λ n. Shown mem addr (put_at win 0 (b ∷ bs)) 0 n) same_end
                (Shown-read win 0 0 (b ∷ bs)
                  (here ∙ ap (λ a. bytes_of mem a (length (b ∷ bs))) (omega arith))
                  (omega (arith, short, e)) (omega (arith, low)) (λ i l u. absurd (omega arith))),
            length-put_at win 0 (b ∷ bs) ∙ e,
          )
      first_read (err x) h = retry-Covered win e
      first_read diverged h = retry-Covered win e
