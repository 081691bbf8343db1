-- ===== src/Address/Fuel.antt =====
-- The parser's fuel: more of it never changes an answer.
use nemclass.Common.{ℕ, zero, suc, ◌+◌, ◌≡◌, refl, ◌∙◌, ◌≢◌, Bool, true, false, List, [], ◌∷◌, leb}
use nemclass.Common.Outcome.{ok, err, diverged, ◌>>=◌, ◌>>◌, guard}
use nemclass.Address.Syntax.{
  Expr, add, sub, mul, div, rem, Token, number, identifier, plus, minus, star, slash, percent,
  open_paren, open_bracket, ModelError, nested_too_deeply, Result,
}
use native.Mathlib.Nat.{zero-add, suc-add}
use nemclass.Address.Parser.{
  max_depth, parse_additive, additive_loop, parse_multiplicative, multiplicative_loop, parse_unary,
  parse_primary,
}

-- The second answer is the first one, unless the first ran out of fuel.
data Refines {A : Type 0} : Result A → Result A → Type 0 where
  unfinished : {y : Result A} → Refines diverged y
  same : {x : Result A} → Refines x x

Refines-bind :
    {A B : Type 0} {m m' : Result A} {f f' : A → Result B}
    → Refines m m'
    → ((a : A) → Refines (f a) (f' a))
    → Refines (m >>= f) (m' >>= f')
Refines-bind unfinished h = unfinished
Refines-bind (same {x = ok a}) h = h a
Refines-bind (same {x = err e}) h = same
Refines-bind (same {x = diverged}) h = same

Refines-guard :
    {B : Type 0} (b : Bool) (e : ModelError) {x y : Result B}
    → Refines x y
    → Refines (guard b e >> x) (guard b e >> y)
Refines-guard true e h = h
Refines-guard false e h = same

mutual
  unfolding parse_additive

  parse_additive-Refines :
      (f d : ℕ) (ts : List Token) → Refines (parse_additive f d ts) (parse_additive (suc f) d ts)
  parse_additive-Refines zero d ts = unfinished
  parse_additive-Refines (suc f) d ts =
      Refines-bind (parse_multiplicative-Refines f d ts) λ (e, r). additive_loop-Refines f d e r

  additive_loop-Refines :
      (f d : ℕ) (e : Expr) (ts : List Token)
      → Refines (additive_loop f d e ts) (additive_loop (suc f) d e ts)
  additive_loop-Refines zero d e ts = unfinished
  additive_loop-Refines (suc f) d e (plus ∷ ts) =
      Refines-bind (parse_multiplicative-Refines f d ts)
        λ (b, r). additive_loop-Refines f d (add e b) r
  additive_loop-Refines (suc f) d e (minus ∷ ts) =
      Refines-bind (parse_multiplicative-Refines f d ts)
        λ (b, r). additive_loop-Refines f d (sub e b) r
  additive_loop-Refines (suc f) d e ts = same

  parse_multiplicative-Refines :
      (f d : ℕ) (ts : List Token)
      → Refines (parse_multiplicative f d ts) (parse_multiplicative (suc f) d ts)
  parse_multiplicative-Refines zero d ts = unfinished
  parse_multiplicative-Refines (suc f) d ts =
      Refines-bind (parse_unary-Refines f d ts) λ (e, r). multiplicative_loop-Refines f d e r

  multiplicative_loop-Refines :
      (f d : ℕ) (e : Expr) (ts : List Token)
      → Refines (multiplicative_loop f d e ts) (multiplicative_loop (suc f) d e ts)
  multiplicative_loop-Refines zero d e ts = unfinished
  multiplicative_loop-Refines (suc f) d e (star ∷ ts) =
      Refines-bind (parse_unary-Refines f d ts)
        λ (b, r). multiplicative_loop-Refines f d (mul e b) r
  multiplicative_loop-Refines (suc f) d e (slash ∷ ts) =
      Refines-bind (parse_unary-Refines f d ts)
        λ (b, r). multiplicative_loop-Refines f d (div e b) r
  multiplicative_loop-Refines (suc f) d e (percent ∷ ts) =
      Refines-bind (parse_unary-Refines f d ts)
        λ (b, r). multiplicative_loop-Refines f d (rem e b) r
  multiplicative_loop-Refines (suc f) d e ts = same

  parse_unary-Refines :
      (f d : ℕ) (ts : List Token) → Refines (parse_unary f d ts) (parse_unary (suc f) d ts)
  parse_unary-Refines zero d ts = unfinished
  parse_unary-Refines (suc f) d (minus ∷ ts) =
      Refines-guard (leb d max_depth) nested_too_deeply
        (Refines-bind (parse_unary-Refines f (d + 1) ts) λ (e, r). same)
  parse_unary-Refines (suc f) d ts =
      Refines-guard (leb d max_depth) nested_too_deeply (parse_primary-Refines f d ts)

  parse_primary-Refines :
      (f d : ℕ) (ts : List Token) → Refines (parse_primary f d ts) (parse_primary (suc f) d ts)
  parse_primary-Refines zero d ts = unfinished
  parse_primary-Refines (suc f) d (number n ∷ ts) = same
  parse_primary-Refines (suc f) d (identifier s ∷ ts) = same
  parse_primary-Refines (suc f) d (open_paren ∷ ts) =
      Refines-guard (leb d max_depth) nested_too_deeply
        (Refines-bind (parse_additive-Refines f (d + 1) ts) λ (e, r). same)
  parse_primary-Refines (suc f) d (open_bracket ∷ ts) =
      Refines-guard (leb d max_depth) nested_too_deeply
        (Refines-bind (parse_additive-Refines f (d + 1) ts) λ (e, r). same)
  parse_primary-Refines (suc f) d [] = same
  parse_primary-Refines (suc f) d (t ∷ ts) = same

Refines-ok : {A : Type 0} {x y : Result A} {a : A} → Refines x y → x ≡ ok a → y ≡ ok a
Refines-ok unfinished e = cc
Refines-ok same e = e

-- A loop whose answers only improve with fuel keeps an answer at any larger fuel.
stays_ok :
    {A : Type 0} (p : ℕ → Result A) {a : A}
    → ((f : ℕ) → Refines (p f) (p (suc f)))
    → (k f : ℕ) → p f ≡ ok a
    → p (k + f) ≡ ok a
stays_ok p up zero f e = rw zero-add e
stays_ok p up (suc k) f e = rw suc-add (Refines-ok (up (k + f)) (stays_ok p up k f e))

pub parse_additive_more :
    (k f d : ℕ) (ts : List Token) {r : Expr × List Token}
    → parse_additive f d ts ≡ ok r
    → parse_additive (k + f) d ts ≡ ok r
parse_additive_more k f d ts =
    stays_ok (λ n. parse_additive n d ts) (λ n. parse_additive-Refines n d ts) k f

pub additive_loop_more :
    (k f d : ℕ) (e : Expr) (ts : List Token) {r : Expr × List Token}
    → additive_loop f d e ts ≡ ok r
    → additive_loop (k + f) d e ts ≡ ok r
additive_loop_more k f d e ts =
    stays_ok (λ n. additive_loop n d e ts) (λ n. additive_loop-Refines n d e ts) k f

pub parse_multiplicative_more :
    (k f d : ℕ) (ts : List Token) {r : Expr × List Token}
    → parse_multiplicative f d ts ≡ ok r
    → parse_multiplicative (k + f) d ts ≡ ok r
parse_multiplicative_more k f d ts =
    stays_ok (λ n. parse_multiplicative n d ts) (λ n. parse_multiplicative-Refines n d ts) k f

pub multiplicative_loop_more :
    (k f d : ℕ) (e : Expr) (ts : List Token) {r : Expr × List Token}
    → multiplicative_loop f d e ts ≡ ok r
    → multiplicative_loop (k + f) d e ts ≡ ok r
multiplicative_loop_more k f d e ts =
    stays_ok (λ n. multiplicative_loop n d e ts) (λ n. multiplicative_loop-Refines n d e ts) k f

pub parse_unary_more :
    (k f d : ℕ) (ts : List Token) {r : Expr × List Token}
    → parse_unary f d ts ≡ ok r
    → parse_unary (k + f) d ts ≡ ok r
parse_unary_more k f d ts = stays_ok (λ n. parse_unary n d ts) (λ n. parse_unary-Refines n d ts) k f

Refines-settled : {A : Type 0} {x y : Result A} → Refines x y → x ≢ diverged → y ≡ x
Refines-settled unfinished h = absurd (h refl)
Refines-settled same h = refl

-- An answer of any kind is final.
pub parse_additive_settled :
    (k f d : ℕ) (ts : List Token)
    → parse_additive f d ts ≢ diverged
    → parse_additive (k + f) d ts ≡ parse_additive f d ts
parse_additive_settled zero f d ts h = rw zero-add
parse_additive_settled (suc k) f d ts h =
    let ih = parse_additive_settled k f d ts h in
    rw suc-add (Refines-settled (parse_additive-Refines (k + f) d ts) (rw ih h) ∙ ih)
