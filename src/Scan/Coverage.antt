-- ===== src/Scan/Coverage.antt =====
-- A first scan tests every aligned position of its regions, once and in ascending order within a
-- region, whatever the chunks in which it reads them.
use native.Mathlib.Nat.{
  zero-mod, div-add-mod, mod-lt, add-mul-mod_self_left, div-mul-le_self, mod-lt,
  add-mul-mod_self_left,
}
use native.Mathlib.Decide.{dec_lt}
use nemclass.Common.{
  ℕ, zero, suc, ◌+◌, ◌-◌, ◌*◌, ◌/◌, ◌%◌, ◌≤◌, ◌<◌, min, ◌≡◌, refl, sym, ap, ◌∙◌, inl, inr, Bool,
  false, List, [], ◌∷◌, ◌++◌, arith, ltb, leb, ltb→lt, Bool-cases, length, filter, length-append,
  filter-append,
}
use nemclass.Common.Outcome.{Outcome, ok}
use nemclass.Scan.Results.{ScanResults, results_len}
use nemclass.Scan.Target.{Region, region_end}
use nemclass.Scan.FirstScan.{
  Walk, Flow, going, window_loop, scan_window, again, leave, next_multiple_of, next_addr,
  region_loop, regions_loop, restart,
}
use nemclass.Scan.Walk.{
  bytes_of, length-bytes_of, progression, push_all, push_all-append, results_len-push_all,
  keep_going, hit, found, window_loop_lem,
}
use nemclass.Scan.Lattice.{
  fitting, progression-append, next_addr_lem, next_addr_multiple, fitting_split,
}
use nemclass.Scan.Rounds.{
  round_leaves, round_goes_on, region_done, memory_reader, region_candidates, all_candidates,
}

module _ (mem : ℕ → ℕ) (total limit stride align buf_len : ℕ) (test : List ℕ → ℕ → Bool)
    (local : (a n off : ℕ)
      → off + stride ≤ n
      → test (bytes_of mem a n) off ≡ test (bytes_of mem (a + off) stride) 0)
    (s : 1 ≤ stride) (al : 1 ≤ align) (b : stride ≤ buf_len) where
  abbrev hits : List ℕ → List ℕ
  hits = filter (hit mem total limit stride align test local)

  abbrev finds : ScanResults → List ℕ → ScanResults
  finds = found mem total limit stride align test local

  results_len-found :
      (out : ScanResults) (xs : List ℕ) → results_len (finds out xs) ≡ results_len out + length xs
  results_len-found out xs = results_len-push_all (λ a. bytes_of mem a stride) out xs

  module _ (end_ : ℕ) where
    abbrev Walked : ℕ → Walk → Outcome ℕ Flow → Type 0
    Walked addr w r =
        (w' : Walk) × (r ≡ ok (going w'))
        × (w'.out ≡ finds w.out (hits (progression align addr (fitting end_ stride align addr))))

    nothing_fits :
        (addr : ℕ) (w : Walk) (r : Outcome ℕ Flow)
        → end_ < addr + stride
        → r ≡ ok (going w)
        → Walked addr w r
    unfolding progression push_all fitting
    nothing_fits addr w r h e =
        let none_left : leb (addr + stride) end_ ≡ false = ground arith in (w, e, rw none_left)

    -- The positions of a window of `got` bytes, and those of the later windows.
    two_parts :
        (addr got : ℕ)
        → addr % align ≡ 0
        → stride ≤ got
        → addr + got ≤ end_
        → progression align addr (fitting end_ stride align addr)
          ≡ progression align addr (suc ((got - stride) / align))
            ++ progression align
                (next_addr stride align addr got)
                (fitting end_ stride align (next_addr stride align addr got))
    two_parts addr got m g e =
        let n = suc ((got - stride) / align) in
        let next = next_addr_lem stride align addr got s al m g in
        let later = fitting end_ stride align (next_addr stride align addr got) in
        ap (progression align addr) (
          fitting_split end_ stride align addr got al g e
          ∙ ap (λ (a : ℕ). n + fitting end_ stride align a) (sym next))
        ∙ progression-append align addr n later
        ∙ ap (λ a. progression align addr n ++ progression align a later) (sym next)

    two_lengths :
        (addr got : ℕ)
        → addr % align ≡ 0
        → stride ≤ got
        → addr + got ≤ end_
        → length (hits (progression align addr (fitting end_ stride align addr)))
          ≡ length (hits (progression align addr (suc ((got - stride) / align))))
            + length (
                hits (
                  progression align
                    (next_addr stride align addr got)
                    (fitting end_ stride align (next_addr stride align addr got))))
    two_lengths addr got m g e =
        ap (λ xs. length (hits xs)) (two_parts addr got m g e)
        ∙ ap length (filter-append _ (progression align addr (suc ((got - stride) / align))) _)
        ∙ length-append (hits (progression align addr (suc ((got - stride) / align)))) _

    -- A window of `got` bytes and what the later windows find.
    join :
        (addr got : ℕ) (w w₁ : Walk) (r : Outcome ℕ Flow)
        → addr % align ≡ 0
        → stride ≤ got
        → addr + got ≤ end_
        → w₁.out ≡ finds w.out (hits (progression align addr (suc ((got - stride) / align))))
        → Walked (next_addr stride align addr got) w₁ r
        → Walked addr w r
    join addr got w w₁ r m g e o₁ (w₂, p, o₂) =
        let n = suc ((got - stride) / align) in
        let later = fitting end_ stride align (next_addr stride align addr got) in
        let parts = two_parts addr got m g e in
        (
          w₂,
          p,
          o₂
              ∙ ap
                  (λ out.
                    finds out (hits (progression align (next_addr stride align addr got) later)))
                  o₁
              ∙ sym (push_all-append _ w.out (hits (progression align addr n)) _)
              ∙ ap (finds w.out)
                  (sym (filter-append _ (progression align addr n) _) ∙ ap hits (sym parts)),
        )

    -- A round that leaves the region, or goes on behind its window.
    scan_window_short :
        (addr got : ℕ) (w : Walk)
        → got < stride
        → scan_window keep_going total limit stride align test (bytes_of mem addr got) addr w
          ≡ leave (going w)
    unfolding scan_window
    scan_window_short addr got w h = ground (arith, length-bytes_of mem addr got)

    scan_window_full :
        (addr got : ℕ) (w w₁ : Walk)
        → stride ≤ got
        → window_loop keep_going total limit stride align test
            (bytes_of mem addr got)
            addr
            (suc ((got - stride) / align))
            0
            w
          ≡ going w₁
        → scan_window keep_going total limit stride align test (bytes_of mem addr got) addr w
          ≡ again (next_addr stride align addr got) w₁
    unfolding scan_window
    scan_window_full addr got w w₁ h e =
        let size = length-bytes_of mem addr got in
        let fits : ltb got stride ≡ false = ground arith in rw (size, scan_window) (rw (fits, e))

    region_loop_lem :
        (fuel addr : ℕ) (w : Walk)
        → end_ - addr < fuel
        → addr % align ≡ 0
        → results_len w.out
            + length (hits (progression align addr (fitting end_ stride align addr)))
          < limit
        → Walked addr w (
            region_loop
              (memory_reader mem)
              keep_going
              total
              limit
              stride
              align
              buf_len
              test
              end_
              fuel
              addr
              w)
    unfolding region_loop
    region_loop_lem zero addr w f m l = elim f [ ]
    region_loop_lem (suc fuel) addr w f m l = elim (Bool-cases (ltb addr end_)) [
      | inr past ↦ nothing_fits addr w _ (ground (arith, past)) (rw (past, region_loop))
      | inl inside ↦
          let before = ltb→lt addr end_ inside in
          let got = min buf_len (end_ - addr) in
          elim (dec_lt got stride) [
            | yes short ↦ nothing_fits addr w _ (omega arith) (
                round_leaves (memory_reader mem) keep_going total limit stride align buf_len test
                  end_ fuel addr w (bytes_of mem addr got) (going w) inside refl
                  (scan_window_short addr got w short))
            | no enough ↦
                let g : stride ≤ got = omega arith in
                let n = suc ((got - stride) / align) in
                let later = fitting end_ stride align (next_addr stride align addr got) in
                let both = two_lengths addr got m g (omega arith) in
                let next = next_addr_lem stride align addr got s al m g in
                let start : addr + 0 ≡ addr = omega arith in
                let same : length (hits (progression align (addr + 0) n))
                    ≡ length (hits (progression align addr n)) =
                  ap (λ a. length (hits (progression align a n))) start in
                let (w₁, e₁, o₁) =
                  window_loop_lem mem total limit stride align test local addr got n 0 w
                    (omega (arith, div-mul-le_self (got - stride) align))
                    (omega (arith, both, same)) al in
                let size =
                  ap results_len o₁
                  ∙ results_len-found w.out (hits (progression align (addr + 0) n)) in
                rw
                  (round_goes_on (memory_reader mem) keep_going total limit stride align buf_len
                    test end_ fuel addr w (bytes_of mem addr got) (next_addr stride align addr got)
                    w₁ inside refl (scan_window_full addr got w w₁ g e₁))
                  (join addr got w w₁ _ m g (omega arith)
                    (o₁ ∙ ap (λ a. finds w.out (hits (progression align a n))) start)
                    (region_loop_lem fuel (next_addr stride align addr got) w₁ (omega (arith, next))
                      (next_addr_multiple stride align addr got s al m g)
                      (omega (arith, both, same, size))))
          ]
    ]

  -- `next_multiple_of` gives a multiple.
  next_multiple_of-mod : (n : ℕ) → next_multiple_of n align % align ≡ 0
  unfolding next_multiple_of
  next_multiple_of-mod n =
      let q = n / align in
      let e : n + (align - n % align) ≡ 0 + align * suc q =
        omega (arith, div-add-mod n align, mod-lt n al) in
      ground
        (arith, ap (λ (m : ℕ). m % align) e, add-mul-mod_self_left 0 align (suc q), zero-mod align)

  abbrev region_here : Region → List ℕ
  region_here = region_candidates stride align

  abbrev candidates_here : List Region → List ℕ
  candidates_here = all_candidates stride align

  pub regions_loop_lem :
      (regions : List Region) (w : Walk)
      → results_len w.out + length (hits (candidates_here regions)) < limit
      → (w' : Walk) × (regions_loop
            (memory_reader mem)
            keep_going
            total
            limit
            stride
            align
            buf_len
            test
            regions
            w
          ≡ ok (going w'))
        × (w'.out ≡ finds w.out (hits (candidates_here regions)))
  unfolding regions_loop push_all
  regions_loop_lem [] w l = (w, refl, refl)
  regions_loop_lem (r ∷ regions) w l =
      let a₀ = next_multiple_of r.base align in
      let both =
        ap length (filter-append _ (region_here r) (candidates_here regions))
        ∙ length-append (hits (region_here r)) (hits (candidates_here regions)) in
      let (w₁, e₁, o₁) =
        region_loop_lem (region_end r) (suc (region_end r)) a₀ (restart w) (omega arith)
          (next_multiple_of-mod r.base) (omega (arith, both)) in
      let size = ap results_len o₁ ∙ results_len-found w.out (hits (region_here r)) in
      let room : leb limit (results_len w₁.out) ≡ false = ground (arith, both, size) in
      let (w₂, e₂, o₂) = regions_loop_lem regions w₁ (omega (arith, both, size)) in
      (
        w₂,
        region_done (memory_reader mem) keep_going total limit stride align buf_len test r regions w
              w₁ e₁ room
            ∙ e₂,
        o₂
            ∙ ap (λ out. finds out (hits (candidates_here regions))) o₁
            ∙ sym (push_all-append _ w.out (hits (region_here r)) _)
            ∙ ap (finds w.out) (sym (filter-append _ (region_here r) _)),
      )
