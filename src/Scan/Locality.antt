-- ===== src/Scan/Locality.antt =====
-- A comparison looks at the candidate's own bytes and at no others.
use nemclass.Common.{
  ℕ, zero, suc, ◌+◌, ◌≤◌, ◌≡◌, refl, sym, ap, ◌∙◌, Bool, Option, none, some, List, [], ◌∷◌, arith,
  is_some_and, length, take, drop, length-take, length-drop, window?,
}
use nemclass.Scan.Compare.{ScanCompareType}
use nemclass.Scan.Pattern.{all_match}
use nemclass.Scan.ValueType.{
  ScanValueType, Floats, read_int, read_float, int_of_window, float_of_window, compare_int,
  compare_float, is_signed,
}
use nemclass.Scan.Session.{Scanner, stride_of}
use nemclass.Scan.Needle.{
  Needle, NeedleValue, int_needle, float_needle, bytes_needle, text_needle, compare_value,
  value_stride, prev_int, prev_float, compare_text, compare_pattern,
}
use nemclass.Scan.FirstScan.{candidate_matches}
use nemclass.Scan.Walk.{bytes_of, length-bytes_of, slice-bytes_of}

-- The window at an offset is the window at the start of the candidate's own bytes.
pub window?-local :
    (mem : ℕ → ℕ) (a n off k : ℕ)
    → off + k ≤ n
    → window? (bytes_of mem a n) off k ≡ some (bytes_of mem (a + off) k)
window?-local mem a n off k h =
    ground (arith, length-bytes_of mem a n, slice-bytes_of mem a off k n h)

take-long : (k : ℕ) (xs : List ℕ) → length xs ≤ k → take k xs ≡ xs
take-long zero [] h = refl
take-long zero (x ∷ xs) h = absurd (omega arith)
take-long (suc k) [] h = refl
take-long (suc k) (x ∷ xs) h = ap (λ r. x ∷ r) (take-long k xs (omega arith))

-- A window of a buffer is the window at the start of the buffer's own part.
window?-same :
    (buf : List ℕ) (off k : ℕ)
    → off + k ≤ length buf
    → window? buf off k ≡ window? (take k (drop off buf)) 0 k
window?-same buf off k h =
    let size : length (take k (drop off buf)) ≡ k =
      omega (arith, length-take k (drop off buf), length-drop off buf) in
    let own : take k (take k (drop off buf)) ≡ take k (drop off buf) =
      take-long k (take k (drop off buf)) (omega (arith, size)) in
    let here : window? buf off k ≡ some (take k (drop off buf)) = ground arith in
    let there : window? (take k (drop off buf)) 0 k ≡ some (take k (take k (drop off buf))) =
      ground (arith, size) in
    here ∙ ap (λ o. some o) (sym own) ∙ sym there

read_int-same :
    (buf : List ℕ) (off k : ℕ) (signed : Bool)
    → off + k ≤ length buf
    → read_int buf off k signed ≡ read_int (take k (drop off buf)) 0 k signed
unfolding read_int
read_int-same buf off k signed h = ap (int_of_window k signed) (window?-same buf off k h)

module _ (fl : Floats) where
  open fl use {Float}

  read_float-same :
      (buf : List ℕ) (off k : ℕ)
      → off + k ≤ length buf
      → read_float fl buf off k ≡ read_float fl (take k (drop off buf)) 0 k
  unfolding read_float
  read_float-same buf off k h = ap (float_of_window fl k) (window?-same buf off k h)

  -- A comparison inside a buffer is the comparison on the value's own bytes.
  pub compare_value-same :
      (v : NeedleValue Float) (ty : ScanValueType) (tol : Float) (compare : ScanCompareType)
      (previous : Option (List ℕ)) (buf : List ℕ) (off : ℕ)
      → off + value_stride fl v ≤ length buf
      → compare_value fl v ty tol buf off compare previous
        ≡ compare_value fl v ty tol (take (value_stride fl v) (drop off buf)) 0 compare previous
  unfolding compare_value
  compare_value-same (int_needle needle w upper) ty tol compare previous buf off h =
      ap
        (λ o. is_some_and o λ cur. compare_int compare cur needle upper (prev_int fl ty w previous))
        (read_int-same buf off w (is_signed ty) h)
  compare_value-same (float_needle needle w upper) ty tol compare previous buf off h =
      ap
        (λ o.
          is_some_and o
            λ cur. compare_float fl compare cur needle upper (prev_float fl w previous) tol)
        (read_float-same buf off w h)
  compare_value-same (bytes_needle p) ty tol compare previous buf off h =
      ap (λ o. compare_pattern fl (is_some_and o λ w. all_match p w) compare)
        (window?-same buf off (length p) h)
  compare_value-same (text_needle needle) ty tol compare previous buf off h =
      ap (λ o. is_some_and o λ w. compare_text fl needle w compare)
        (window?-same buf off (length needle) h)

  -- Whether a candidate matches, with the stride of the session, is decided by its own bytes alone:
  -- within a larger window of the memory the answer is the one for a window of just those bytes.
  pub candidate_matches-local :
      (s : Scanner) (needle : Option (Needle Float)) (compare : ScanCompareType) (mem : ℕ → ℕ)
      (a n off : ℕ)
      → off + stride_of fl s needle ≤ n
      → candidate_matches fl needle compare (bytes_of mem a n) off
        ≡ candidate_matches fl needle compare (bytes_of mem (a + off) (stride_of fl s needle)) 0
  unfolding candidate_matches stride_of
  candidate_matches-local s none compare mem a n off h = refl
  candidate_matches-local s (some nd) compare mem a n off h =
      compare_value-same nd.value nd.ty nd.tolerance compare none (bytes_of mem a n) off
        (omega (arith, length-bytes_of mem a n))
      ∙ ap (λ b. compare_value fl nd.value nd.ty nd.tolerance b 0 compare none)
          (slice-bytes_of mem a off (value_stride fl nd.value) n h)
