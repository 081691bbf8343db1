-- ===== src/Scan/Columns.antt =====
-- crates/nemclass-scan/src/results.rs: the columns stay as long as their rows, and a pushed row is
-- read back.
use mathlib.Core.Path.{ap₂}
use native.Mathlib.Nat.{suc-mul, mul-le-mul_right}
use nemclass.Common.{
  ℕ, zero, suc, ◌+◌, ◌-◌, ◌*◌, ◌≤◌, ◌<◌, ◌≡◌, refl, sym, ap, ◌∙◌, List, [], ◌∷◌, ◌++◌, map,
  append_assoc, append-nil, arith, length, take, drop, replicate, length-append, length-take,
  length-drop, length-replicate, drop-append_length,
}
use nemclass.Scan.Results.{ScanResults, row, rows_from, iter, fit, push_fixed, push, results_len}
use nemclass.Scan.Walk.{push_all}

-- Both columns hold `stride` bytes per address.
pub record IsColumns (r : ScanResults) : Type 0 where
  pub current : length r.current ≡ results_len r * r.stride
  pub previous : length r.previous ≡ results_len r * r.stride

module _ {ℓ} {A : Type ℓ} where
  take-within : (n : ℕ) (xs ys : List A) → n ≤ length xs → take n (xs ++ ys) ≡ take n xs
  take-within zero xs ys h = refl
  take-within (suc n) [] ys h = absurd (omega arith)
  take-within (suc n) (x ∷ xs) ys h = ap (λ r. x ∷ r) (take-within n xs ys (omega arith))

  drop-within : (n : ℕ) (xs ys : List A) → n ≤ length xs → drop n (xs ++ ys) ≡ drop n xs ++ ys
  drop-within zero xs ys h = refl
  drop-within (suc n) [] ys h = absurd (omega arith)
  drop-within (suc n) (x ∷ xs) ys h = drop-within n xs ys (omega arith)

  take-all : (xs : List A) → take (length xs) xs ≡ xs
  take-all [] = refl
  take-all (x ∷ xs) = ap (λ r. x ∷ r) (take-all xs)

  span-within :
      (k i n : ℕ) (xs ys : List A)
      → length xs ≡ n * k
      → i < n
      → take k (drop (i * k) (xs ++ ys)) ≡ take k (drop (i * k) xs)
  span-within k i n xs ys e h =
      let below : suc i * k ≤ n * k = mul-le-mul_right k (omega arith) in
      let fits : i * k + k ≤ length xs = omega (arith, below, suc-mul i k) in
      ap (take k) (drop-within (i * k) xs ys (omega (arith, fits)))
      ∙ take-within k (drop (i * k) xs) ys (omega (arith, fits, length-drop (i * k) xs))

  span-last :
      (k n : ℕ) (xs ys : List A)
      → length xs ≡ n * k
      → length ys ≡ k
      → take k (drop (n * k) (xs ++ ys)) ≡ ys
  span-last k n xs ys e h =
      ap (λ m. take k (drop m (xs ++ ys))) (sym e)
      ∙ ap (take k) (drop-append_length xs ys)
      ∙ ap (λ m. take m ys) (sym h)
      ∙ take-all ys

length-fit : (n : ℕ) (src : List ℕ) → length (fit n src) ≡ n
unfolding fit
length-fit n src = omega (
  arith,
  length-append (take n src) (replicate (n - length src) 0),
  length-take n src,
  length-replicate {A = ℕ} (n - length src) 0,
)

module _ (r : ScanResults) (a : ℕ) (c p : List ℕ) (v : IsColumns r) where
  push-IsColumns : IsColumns (push r a c p)
  unfolding push push_fixed
  push-IsColumns =
      let n = length-append r.addresses (a ∷ []) in
      let grown : (results_len r + 1) * r.stride ≡ results_len r * r.stride + r.stride =
        omega arith in
      record {
        current = omega (
          arith,
          n,
          v.current,
          ap (λ m. m * r.stride) n,
          grown,
          length-append r.current (fit r.stride c),
          length-fit r.stride c,
        );
        previous = omega (
          arith,
          n,
          v.previous,
          ap (λ m. m * r.stride) n,
          grown,
          length-append r.previous (fit r.stride p),
          length-fit r.stride p,
        );
      }

  rows_from-push_old :
      (i : ℕ) (xs : List ℕ)
      → i + length xs ≤ results_len r
      → rows_from (push r a c p) i xs ≡ rows_from r i xs
  unfolding rows_from push push_fixed row
  rows_from-push_old i [] h = refl
  rows_from-push_old i (x ∷ xs) h =
      ap₂ (λ y ys. y ∷ ys)
        (ap₂ (λ u w. record { address = x; current = u; previous = w })
          (span-within r.stride i (results_len r) r.current (fit r.stride c) v.current
            (omega arith))
          (span-within r.stride i (results_len r) r.previous (fit r.stride p) v.previous
            (omega arith)))
        (rows_from-push_old (suc i) xs (omega arith))

  rows_from-push_new :
      rows_from (push r a c p) (results_len r) (a ∷ [])
      ≡ record { address = a; current = fit r.stride c; previous = fit r.stride p } ∷ []
  unfolding rows_from push push_fixed row
  rows_from-push_new =
      ap₂ (λ u w. record { address = a; current = u; previous = w } ∷ [])
        (span-last r.stride (results_len r) r.current (fit r.stride c) v.current
          (length-fit r.stride c))
        (span-last r.stride (results_len r) r.previous (fit r.stride p) v.previous
          (length-fit r.stride p))

rows_from-append :
    (r : ScanResults) (i : ℕ) (xs ys : List ℕ)
    → rows_from r i (xs ++ ys) ≡ rows_from r i xs ++ rows_from r (i + length xs) ys
unfolding rows_from
rows_from-append r i [] ys = ap (λ m. rows_from r m ys) (omega arith)
rows_from-append r i (x ∷ xs) ys =
    ap (λ l. row r i x ∷ l)
      (rows_from-append r (suc i) xs ys
        ∙ ap (λ m. rows_from r (suc i) xs ++ rows_from r m ys) (omega arith))

-- Pushing a result adds one row, its values cut or padded to the stride, behind the rows there were.
pub iter-push :
    (r : ScanResults) (a : ℕ) (c p : List ℕ)
    → IsColumns r
    → iter (push r a c p)
      ≡ iter r ++ (record { address = a; current = fit r.stride c; previous = fit r.stride p } ∷ [])
unfolding iter push
iter-push r a c p v =
    rows_from-append (push r a c p) 0 r.addresses (a ∷ [])
    ∙ ap₂ (λ xs ys. xs ++ ys) (rows_from-push_old r a c p v 0 r.addresses (omega arith))
        (ap (λ m. rows_from (push r a c p) m (a ∷ [])) (omega arith) ∙ rows_from-push_new r a c p v)

fit_same : (n : ℕ) (src : List ℕ) → length src ≡ n → fit n src ≡ src
unfolding fit
fit_same n src e =
    let none_missing : n - length src ≡ 0 = omega arith in
    ap (λ m. take n src ++ replicate m 0) none_missing
    ∙ append-nil (take n src)
    ∙ ap (λ k. take k src) (sym e)
    ∙ take-all src

-- The rows of the results of a walk: one for each address, with its value as both values.
pub iter-push_all :
    (value : ℕ → List ℕ) (xs : List ℕ) (r : ScanResults)
    → IsColumns r
    → ((a : ℕ) → length (value a) ≡ r.stride)
    → iter (push_all value r xs)
      ≡ iter r ++ map (λ a. record { address = a; current = value a; previous = value a }) xs
unfolding push_all push
iter-push_all value [] r v w = sym (append-nil (iter r))
iter-push_all value (a ∷ xs) r v w =
    let fitted = fit_same r.stride (value a) (w a) in
    iter-push_all value xs (push r a (value a) (value a)) (push-IsColumns r a (value a) (value a) v)
      w
    ∙ ap
        (λ rows.
          rows ++ map (λ b. record { address = b; current = value b; previous = value b }) xs)
        (iter-push r a (value a) (value a) v
          ∙ ap (λ c. iter r ++ (record { address = a; current = c; previous = c } ∷ [])) fitted)
    ∙ append_assoc (iter r) _ _
