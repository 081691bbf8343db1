-- ===== src/Scan/Walk.antt =====
-- What the chunked walk of a first scan finds: the walk over a memory that can be read, with an
-- observer that never stops it and a result limit that is not reached.
use mathlib.Core.Path.{ap₂}
use nemclass.Common.{
  ℕ, zero, suc, ◌+◌, ◌-◌, ◌*◌, ◌≤◌, ◌<◌, ◌≡◌, refl, sym, ap, ◌∙◌, inl, inr, Bool, true, false, List,
  [], ◌∷◌, ◌++◌, arith, ltb, leb, Bool-cases, length, take, drop, filter, length-append, filter-hit,
  filter-miss, filter-append,
}
use nemclass.Scan.Results.{ScanResults, push, results_len}
use nemclass.Scan.FirstScan.{
  ScanProgress, Walk, Flow, going, progress_interval, take_candidate, visit, window_loop,
}

-- The `n` bytes of a memory from `a` on.
unfoldable pub bytes_of : (ℕ → ℕ) → ℕ → ℕ → List ℕ
bytes_of mem a zero = []
bytes_of mem a (suc n) = mem a ∷ bytes_of mem (suc a) n

pub length-bytes_of : (mem : ℕ → ℕ) (a n : ℕ) → length (bytes_of mem a n) ≡ n
unfolding bytes_of
length-bytes_of mem a zero = refl
length-bytes_of mem a (suc n) = ap suc (length-bytes_of mem (suc a) n)

pub take-bytes_of : (mem : ℕ → ℕ) (a k n : ℕ) → k ≤ n → take k (bytes_of mem a n) ≡ bytes_of mem a k
unfolding bytes_of
take-bytes_of mem a zero n h = refl
take-bytes_of mem a (suc k) zero h = absurd (omega arith)
take-bytes_of mem a (suc k) (suc n) h =
    ap (λ r. mem a ∷ r) (take-bytes_of mem (suc a) k n (omega arith))

drop-bytes_of :
    (mem : ℕ → ℕ) (a off n : ℕ)
    → off ≤ n
    → drop off (bytes_of mem a n) ≡ bytes_of mem (a + off) (n - off)
unfolding bytes_of
drop-bytes_of mem a zero n h = ap₂ (bytes_of mem) (omega arith) (omega arith)
drop-bytes_of mem a (suc off) zero h = absurd (omega arith)
drop-bytes_of mem a (suc off) (suc n) h =
    drop-bytes_of mem (suc a) off n (omega arith) ∙ ap₂ (bytes_of mem) (omega arith) (omega arith)

-- The bytes of a candidate within a window.
pub slice-bytes_of :
    (mem : ℕ → ℕ) (a off k n : ℕ)
    → off + k ≤ n
    → take k (drop off (bytes_of mem a n)) ≡ bytes_of mem (a + off) k
slice-bytes_of mem a off k n h =
    ap (take k) (drop-bytes_of mem a off n (omega arith))
    ∙ take-bytes_of mem (a + off) k (n - off) (omega arith)

-- `n` addresses, `align` apart.
unfoldable pub progression : ℕ → ℕ → ℕ → List ℕ
progression align a zero = []
progression align a (suc n) = a ∷ progression align (a + align) n

-- Each address with its value, which is its own previous value.
unfoldable pub push_all : (ℕ → List ℕ) → ScanResults → List ℕ → ScanResults
push_all v out [] = out
push_all v out (a ∷ as') = push_all v (push out a (v a) (v a)) as'

pub push_all-append :
    (v : ℕ → List ℕ) (out : ScanResults) (xs ys : List ℕ)
    → push_all v out (xs ++ ys) ≡ push_all v (push_all v out xs) ys
unfolding push_all
push_all-append v out [] ys = refl
push_all-append v out (x ∷ xs) ys = push_all-append v (push out x (v x) (v x)) xs ys

results_len-push :
    (r : ScanResults) (a : ℕ) (c p : List ℕ) → results_len (push r a c p) ≡ results_len r + 1
unfolding push
results_len-push r a c p = length-append r.addresses (a ∷ [])

pub results_len-push_all :
    (v : ℕ → List ℕ) (out : ScanResults) (xs : List ℕ)
    → results_len (push_all v out xs) ≡ results_len out + length xs
unfolding push_all
results_len-push_all v out [] = omega arith
results_len-push_all v out (x ∷ xs) =
    omega (
      arith,
      results_len-push out x (v x) (v x),
      results_len-push_all v (push out x (v x) (v x)) xs,
    )

abbrev pub keep_going : ScanProgress → Bool
keep_going _ = true

module _ (mem : ℕ → ℕ) (total limit stride align : ℕ) (test : List ℕ → ℕ → Bool)
    (local : (a n off : ℕ)
      → off + stride ≤ n
      → test (bytes_of mem a n) off ≡ test (bytes_of mem (a + off) stride) 0) where
  -- A candidate matches by its own bytes.
  abbrev pub hit : ℕ → Bool
  hit a = test (bytes_of mem a stride) 0

  abbrev pub found : ScanResults → List ℕ → ScanResults
  found = push_all (λ a. bytes_of mem a stride)

  found_more :
      (a b n : ℕ) (out : ScanResults)
      → b ≡ a + align
      → found (found out (filter hit (a ∷ []))) (filter hit (progression align b n))
        ≡ found out (filter hit (progression align a (suc n)))
  unfolding progression
  found_more a b n out e =
      sym (push_all-append _ out (filter hit (a ∷ [])) (filter hit (progression align b n)))
      ∙ ap (found out) (
          sym (filter-append hit (a ∷ []) (progression align b n))
          ∙ ap (λ c. filter hit (a ∷ progression align c n)) e)

  hits_more :
      (a b n : ℕ)
      → b ≡ a + align
      → length (filter hit (progression align a (suc n)))
        ≡ length (filter hit (a ∷ [])) + length (filter hit (progression align b n))
  unfolding progression
  hits_more a b n e =
      ap (λ c. length (filter hit (a ∷ progression align c n))) (sym e)
      ∙ ap length (filter-append hit (a ∷ []) (progression align b n))
      ∙ length-append (filter hit (a ∷ [])) (filter hit (progression align b n))

  module _ (addr len : ℕ) where
    -- What a step of the window's loop has done, `n` candidates from `a` on.
    abbrev pub Found : ℕ → ℕ → Walk → Flow → Type 0
    Found a n w flow =
        (w' : Walk) × (flow ≡ going w')
        × (w'.out ≡ found w.out (filter hit (progression align a n)))

    take_candidate_lem :
        (off : ℕ) (w : Walk)
        → off + stride ≤ len
        → results_len w.out + length (filter hit ((addr + off) ∷ [])) < limit
        → Found (addr + off) 1 w (
            take_candidate keep_going total limit stride align test
              (bytes_of mem addr len)
              addr
              off
              w)
    unfolding take_candidate push_all progression
    take_candidate_lem off w h l = elim (Bool-cases (test (bytes_of mem addr len) off)) [
      | inl hits ↦
          let v = bytes_of mem (addr + off) stride in
          let out' = push w.out (addr + off) v v in
          let le = results_len-push w.out (addr + off) v v in
          let one = filter-hit hit (addr + off) [] (sym (local addr len off h) ∙ hits) in
          let room : leb limit (results_len out') ≡ false = ground (arith, le, ap length one) in
          (
            record w { out = out' },
            rw (hits, slice-bytes_of mem addr off stride len h, take_candidate) (rw room),
            sym (ap (found w.out) one),
          )
      | inr misses ↦ (
        w,
        rw (misses, take_candidate),
        sym (
            ap (found w.out)
              (filter-miss hit (addr + off) [] (sym (local addr len off h) ∙ misses))),
      )
    ]

    visit_lem :
        (off : ℕ) (w : Walk)
        → off + stride ≤ len
        → results_len w.out + length (filter hit ((addr + off) ∷ [])) < limit
        → Found
            (addr + off)
            1
            w
            (visit keep_going total limit stride align test (bytes_of mem addr len) addr off w)
    unfolding visit push_all
    visit_lem off w h l = elim (Bool-cases (ltb (w.since_tick + 1) progress_interval)) [
      | inl quiet ↦
          rw (visit, quiet)
            (take_candidate_lem off
              (record w { scanned = w.scanned + 1; since_tick = w.since_tick + 1 }) h l)
      | inr due ↦
          rw (visit, due)
            (take_candidate_lem off (record w { scanned = w.scanned + 1; since_tick = 0 }) h l)
    ]

    -- A window's loop over `n` candidates.
    pub window_loop_lem :
        (n off : ℕ) (w : Walk)
        → off + n * align + stride ≤ len + align
        → results_len w.out + length (filter hit (progression align (addr + off) n)) < limit
        → 1 ≤ align
        → Found (addr + off) n w (
            window_loop keep_going total limit stride align test
              (bytes_of mem addr len)
              addr
              n
              off
              w)
    unfolding window_loop progression push_all
    window_loop_lem zero off w h l a = (w, refl, refl)
    window_loop_lem (suc n) off w h l a =
        let more = hits_more (addr + off) (addr + (off + align)) n (omega arith) in
        let (w₁, e₁, o₁) = visit_lem off w (omega arith) (omega (arith, more)) in
        let size =
          ap results_len o₁
          ∙ results_len-push_all (λ a. bytes_of mem a stride) w.out
              (filter hit ((addr + off) ∷ [])) in
        let (w₂, e₂, o₂) =
          window_loop_lem n (off + align) w₁ (omega arith) (omega (arith, more, size)) a in
        (
          w₂,
          rw (e₁, window_loop) e₂,
          o₂
              ∙ ap (λ out. found out (filter hit (progression align (addr + (off + align)) n))) o₁
              ∙ found_more (addr + off) (addr + (off + align)) n w.out (omega arith),
        )
