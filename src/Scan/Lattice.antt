-- ===== src/Scan/Lattice.antt =====
-- Arithmetic of the aligned positions in a region: multiples of the alignment at which a whole value
-- fits before the end.
use native.Mathlib.Nat.{
  add-mul-div_left, add-mul-mod_self_left, div-add-mod, div-lt_iff_lt-mul, mul_comm,
  div-mul-le_self, le-div_iff_mul-le,
}
use native.Mathlib.Nat.{zero-add, suc-add, mod-eq_of_lt, mod_self, mod-lt}
use native.Mathlib.Decide.{dec_lt, dec_le}
use nemclass.Common.{
  ℕ, zero, suc, ◌+◌, ◌-◌, ◌*◌, ◌/◌, ◌%◌, ◌≤◌, ◌<◌, max, ◌≡◌, ap, ◌∙◌, ◌∷◌, ◌++◌, arith, leb,
  if◌then◌else◌,
}
use nemclass.Scan.FirstScan.{next_multiple_of, next_addr}
use nemclass.Scan.Walk.{progression}

-- How many values of `stride` bytes fit before `end_`, `align` bytes apart, from `a` on.
unfoldable pub fitting : ℕ → ℕ → ℕ → ℕ → ℕ
fitting end_ stride align a =
    if leb (a + stride) end_ then suc ((end_ - (a + stride)) / align) else 0

pub progression-append :
    (align a m n : ℕ)
    → progression align a (m + n) ≡ progression align a m ++ progression align (a + m * align) n
unfolding progression
progression-append align a zero n = rw zero-add (ap (λ b. progression align b n) (omega arith))
progression-append align a (suc m) n = rw suc-add (
    ap (λ r. a ∷ r)
      (progression-append align (a + align) m n
        ∙ ap (λ b. progression align (a + align) m ++ progression align b n) (omega arith)))

-- The next multiple of `align` above a multiple and `x + 1` further bytes.
next_multiple_lem :
    (align k q t : ℕ)
    → t < align
    → next_multiple_of (align * k + (align * q + t) + 1) align ≡ align * k + suc q * align
unfolding next_multiple_of
next_multiple_lem align k q t h =
    let n = align * k + (align * q + t) + 1 in
    let same : n % align ≡ (t + 1) % align =
      ap (λ (m : ℕ). m % align) (omega arith) ∙ add-mul-mod_self_left (t + 1) align (k + q) in
    elim (dec_lt (t + 1) align) [
      | yes lt ↦ ground (arith, same, mod-eq_of_lt lt)
      | no ge ↦
          let e : t + 1 ≡ align = omega arith in
          ground (arith, same, ap (λ (m : ℕ). m % align) e, mod_self align)
    ]

-- From a multiple, the next window begins right behind the last candidate that was tested.
pub next_addr_lem :
    (stride align addr got : ℕ)
    → 1 ≤ stride
    → 1 ≤ align
    → addr % align ≡ 0
    → stride ≤ got
    → next_addr stride align addr got ≡ addr + suc ((got - stride) / align) * align
unfolding next_addr
next_addr_lem stride align addr got s a m g =
    let x = got - stride in
    let k = addr / align in
    let e : addr + max (got - (stride - 1)) 1 ≡ align * k + (align * (x / align) + x % align) + 1 =
      omega (arith, div-add-mod addr align, div-add-mod x align) in
    omega (
      arith,
      ap (λ (n : ℕ). next_multiple_of n align) e,
      next_multiple_lem align k (x / align) (x % align) (mod-lt x a),
      div-add-mod addr align,
    )

pub next_addr_multiple :
    (stride align addr got : ℕ)
    → 1 ≤ stride
    → 1 ≤ align
    → addr % align ≡ 0
    → stride ≤ got
    → next_addr stride align addr got % align ≡ 0
next_addr_multiple stride align addr got s a m g =
    let n = suc ((got - stride) / align) in
    ap (λ (b : ℕ). b % align)
      (next_addr_lem stride align addr got s a m g ∙ ap (λ (c : ℕ). addr + c) (mul_comm n align))
    ∙ add-mul-mod_self_left addr align n
    ∙ m

pub fitting_split :
    (end_ stride align a got : ℕ)
    → 1 ≤ align
    → stride ≤ got
    → a + got ≤ end_
    → fitting end_ stride align a
      ≡ suc ((got - stride) / align)
        + fitting end_ stride align (a + suc ((got - stride) / align) * align)
unfolding fitting
fitting_split end_ stride align a got h g l =
    let x = got - stride in
    let y = end_ - (a + stride) in
    let n = suc (x / align) in
    let z = end_ - (a + n * align + stride) in
    elim (dec_le (a + n * align + stride) end_) [
      | yes le ↦
          let e : y ≡ z + align * n = omega (arith, mul_comm n align) in
          ground (arith, ap (λ (m : ℕ). m / align) e, add-mul-div_left z n h)
      | no gt ↦
          let below : y / align < n = (div-lt_iff_lt-mul h).1 (omega arith) in
          let above : x / align ≤ y / align =
            (le-div_iff_mul-le h).1 (omega (arith, div-mul-le_self x align)) in
          ground arith
    ]
