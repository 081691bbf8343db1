-- ===== src/Address/Sound.antt =====
-- The parser reads phrases of the grammar only, and six calls for each token are enough fuel.
use nemclass.Common.{
  ℕ, zero, suc, ◌+◌, ◌*◌, ◌≤◌, ◌<◌, ◌≡◌, refl, ap, ◌≢◌, inl, inr, List, [], ◌∷◌, ◌++◌, append_assoc,
  append-nil, arith, leb, leb→le, Bool-cases, length, length-append,
}
use nemclass.Common.Outcome.{
  diverged, ◌>>◌, guard, Ensures, holds, rejected, Ensures-ne-diverged, Ensures-map, Ensures-bind,
}
use nemclass.Address.Syntax.{
  Expr, add, sub, mul, div, rem, Token, number, identifier, plus, minus, star, slash, percent,
  open_paren, close_paren, open_bracket, close_bracket, ModelError, Result,
}
use nemclass.Address.Parser.{
  max_depth, expect_paren, expect_bracket, parse_additive, additive_loop, parse_multiplicative,
  multiplicative_loop, parse_unary, parse_primary, parse_tokens, finish, fuel_for,
}
use nemclass.Address.Grammar.{
  Level, additive, multiplicative, unary, primary, Derives, length-Derives, product, sum,
  difference, factor, times, quotient, remainder, opposite, atom, literal, name, parens, brackets,
}

-- `ts` begins with a phrase of level `l` that means what was returned, and the rest was left.
abbrev Reads : Level → ℕ → List Token → Expr × List Token → Type 0
Reads l d ts r = (used : List Token) × (ts ≡ used ++ r.1) × Derives l d used r.0

-- The loop extends the phrase `pre` that means `lhs`.
abbrev Extends : Level → ℕ → List Token → List Token → Expr × List Token → Type 0
Extends l d pre ts r = (used : List Token) × (ts ≡ used ++ r.1) × Derives l d (pre ++ used) r.0

Ensures-guard :
    {A : Type 0} {P : A → Type 0} (d : ℕ) (e : ModelError) {x : Result A}
    → (d ≤ max_depth → Ensures P x)
    → Ensures P (guard (leb d max_depth) e >> x)
Ensures-guard d e h = elim (Bool-cases (leb d max_depth)) [
  | inl le ↦ rw le (h (leb→le d max_depth le))
  | inr gt ↦ rw gt rejected
]

Reads_shorter :
    {l : Level} {d : ℕ} (ts rest : List Token) (e : Expr)
    → Reads l d ts (e, rest)
    → length rest < length ts
Reads_shorter ts rest e (used, p, h) =
    omega (arith, ap length p, length-append used rest, length-Derives h)

-- One round of a loop: an operator `op`, an operand `used`, and what the later rounds read.
extend :
    {l : Level} {d : ℕ} (pre used ts rest : List Token) (op : Token) (r : Expr × List Token)
    → ts ≡ used ++ rest
    → Extends l d (pre ++ (op ∷ used)) rest r
    → Extends l d pre (op ∷ ts) r
extend pre used ts rest op r p (more, q, h) =
    (op ∷ (used ++ more), rw (p, q, append_assoc), rw append_assoc at h)

start :
    {l : Level} {d : ℕ} (used ts rest : List Token) (r : Expr × List Token)
    → ts ≡ used ++ rest
    → Extends l d used rest r
    → Reads l d ts r
start used ts rest r p (more, q, h) = (used ++ more, rw (p, q, append_assoc), h)

abbrev stop :
    {l : Level} {d : ℕ} (pre ts : List Token) (e : Expr)
    → Derives l d pre e
    → Extends l d pre ts (e, ts)
stop pre ts e h = ([], refl, rw append-nil h)

bracketed :
    (op cl : Token) (used ts₁ ts₂ ts : List Token)
    → ts ≡ used ++ ts₁
    → ts₁ ≡ cl ∷ ts₂
    → op ∷ ts ≡ (op ∷ (used ++ (cl ∷ []))) ++ ts₂
bracketed op cl used ts₁ ts₂ ts p q = rw (p, q, append_assoc)

expect_paren-Ensures : (ts : List Token) → Ensures (λ r. ts ≡ close_paren ∷ r) (expect_paren ts)
unfolding expect_paren
expect_paren-Ensures (close_paren ∷ ts) = holds refl
expect_paren-Ensures _ = rejected

expect_bracket-Ensures :
    (ts : List Token) → Ensures (λ r. ts ≡ close_bracket ∷ r) (expect_bracket ts)
unfolding expect_bracket
expect_bracket-Ensures (close_bracket ∷ ts) = holds refl
expect_bracket-Ensures _ = rejected

mutual
  unfolding parse_additive

  parse_additive-Reads :
      (f d : ℕ) (ts : List Token)
      → 6 * length ts + 4 < f
      → Ensures (Reads additive d ts) (parse_additive f d ts)
  parse_additive-Reads zero d ts h = absurd (omega arith)
  parse_additive-Reads (suc f) d ts h =
      Ensures-bind (parse_multiplicative-Reads f d ts (omega arith)) λ (e, r) (used, p, q).
        Ensures-map
          (additive_loop-Extends f d e used r (product q)
            (omega (arith, Reads_shorter ts r e (used, p, q))))
          λ a. start used ts r a p

  additive_loop-Extends :
      (f d : ℕ) (e : Expr) (pre ts : List Token)
      → Derives additive d pre e
      → 6 * length ts + 1 < f
      → Ensures (Extends additive d pre ts) (additive_loop f d e ts)
  additive_loop-Extends zero d e pre ts q h = absurd (omega arith)
  additive_loop-Extends (suc f) d e pre (plus ∷ ts) q h =
      Ensures-bind (parse_multiplicative-Reads f d ts (omega arith)) λ (b, r) (used, p, s).
        Ensures-map
          (additive_loop-Extends f d (add e b) (pre ++ (plus ∷ used)) r (sum q s)
            (omega (arith, Reads_shorter ts r b (used, p, s))))
          λ a. extend pre used ts r plus a p
  additive_loop-Extends (suc f) d e pre (minus ∷ ts) q h =
      Ensures-bind (parse_multiplicative-Reads f d ts (omega arith)) λ (b, r) (used, p, s).
        Ensures-map
          (additive_loop-Extends f d (sub e b) (pre ++ (minus ∷ used)) r (difference q s)
            (omega (arith, Reads_shorter ts r b (used, p, s))))
          λ a. extend pre used ts r minus a p
  additive_loop-Extends (suc f) d e pre ts q h = holds (stop pre ts e q)

  parse_multiplicative-Reads :
      (f d : ℕ) (ts : List Token)
      → 6 * length ts + 3 < f
      → Ensures (Reads multiplicative d ts) (parse_multiplicative f d ts)
  parse_multiplicative-Reads zero d ts h = absurd (omega arith)
  parse_multiplicative-Reads (suc f) d ts h =
      Ensures-bind (parse_unary-Reads f d ts (omega arith)) λ (e, r) (used, p, q).
        Ensures-map
          (multiplicative_loop-Extends f d e used r (factor q)
            (omega (arith, Reads_shorter ts r e (used, p, q))))
          λ a. start used ts r a p

  multiplicative_loop-Extends :
      (f d : ℕ) (e : Expr) (pre ts : List Token)
      → Derives multiplicative d pre e
      → 6 * length ts + 1 < f
      → Ensures (Extends multiplicative d pre ts) (multiplicative_loop f d e ts)
  multiplicative_loop-Extends zero d e pre ts q h = absurd (omega arith)
  multiplicative_loop-Extends (suc f) d e pre (star ∷ ts) q h =
      Ensures-bind (parse_unary-Reads f d ts (omega arith)) λ (b, r) (used, p, s).
        Ensures-map
          (multiplicative_loop-Extends f d (mul e b) (pre ++ (star ∷ used)) r (times q s)
            (omega (arith, Reads_shorter ts r b (used, p, s))))
          λ a. extend pre used ts r star a p
  multiplicative_loop-Extends (suc f) d e pre (slash ∷ ts) q h =
      Ensures-bind (parse_unary-Reads f d ts (omega arith)) λ (b, r) (used, p, s).
        Ensures-map
          (multiplicative_loop-Extends f d (div e b) (pre ++ (slash ∷ used)) r (quotient q s)
            (omega (arith, Reads_shorter ts r b (used, p, s))))
          λ a. extend pre used ts r slash a p
  multiplicative_loop-Extends (suc f) d e pre (percent ∷ ts) q h =
      Ensures-bind (parse_unary-Reads f d ts (omega arith)) λ (b, r) (used, p, s).
        Ensures-map
          (multiplicative_loop-Extends f d (rem e b) (pre ++ (percent ∷ used)) r (remainder q s)
            (omega (arith, Reads_shorter ts r b (used, p, s))))
          λ a. extend pre used ts r percent a p
  multiplicative_loop-Extends (suc f) d e pre ts q h = holds (stop pre ts e q)

  parse_unary-Reads :
      (f d : ℕ) (ts : List Token)
      → 6 * length ts + 2 < f
      → Ensures (Reads unary d ts) (parse_unary f d ts)
  parse_unary-Reads zero d ts h = absurd (omega arith)
  parse_unary-Reads (suc f) d (minus ∷ ts) h = Ensures-guard d _ λ le.
      Ensures-bind (parse_unary-Reads f (d + 1) ts (omega arith))
        λ (e, r) (used, p, q). holds (minus ∷ used, ap (λ us. minus ∷ us) p, opposite le q)
  parse_unary-Reads (suc f) d ts h = Ensures-guard d _ λ le.
      Ensures-map (parse_primary-Reads f d ts (omega arith))
        λ (e, r) (used, p, q). (used, p, atom le q)

  parse_primary-Reads :
      (f d : ℕ) (ts : List Token)
      → 6 * length ts + 1 < f
      → Ensures (Reads primary d ts) (parse_primary f d ts)
  parse_primary-Reads zero d ts h = absurd (omega arith)
  parse_primary-Reads (suc f) d (number n ∷ ts) h =
      Ensures-guard d _ λ le. holds (number n ∷ [], refl, literal n le)
  parse_primary-Reads (suc f) d (identifier s ∷ ts) h =
      Ensures-guard d _ λ le. holds (identifier s ∷ [], refl, name s le)
  parse_primary-Reads (suc f) d (open_paren ∷ ts) h = Ensures-guard d _ λ le.
      Ensures-bind (parse_additive-Reads f (d + 1) ts (omega arith)) λ (e, r) (used, p, q).
        Ensures-bind (expect_paren-Ensures r) λ r₂ c. holds (
          open_paren ∷ (used ++ (close_paren ∷ [])),
          bracketed open_paren close_paren used r r₂ ts p c,
          parens le q,
        )
  parse_primary-Reads (suc f) d (open_bracket ∷ ts) h = Ensures-guard d _ λ le.
      Ensures-bind (parse_additive-Reads f (d + 1) ts (omega arith)) λ (e, r) (used, p, q).
        Ensures-bind (expect_bracket-Ensures r) λ r₂ c. holds (
          open_bracket ∷ (used ++ (close_bracket ∷ [])),
          bracketed open_bracket close_bracket used r r₂ ts p c,
          brackets le q,
        )
  parse_primary-Reads (suc f) d [] h = Ensures-guard d _ λ le. rejected
  parse_primary-Reads (suc f) d (t ∷ ts) h = Ensures-guard d _ λ le. rejected

pub parse_additive-ne-diverged : (ts : List Token) → parse_additive (fuel_for ts) 0 ts ≢ diverged
parse_additive-ne-diverged ts =
    Ensures-ne-diverged (parse_additive-Reads (fuel_for ts) 0 ts (omega arith))

finish-Ensures :
    (ts : List Token) (e : Expr) (rest : List Token)
    → Reads additive 0 ts (e, rest)
    → Ensures (λ e'. Derives additive 0 ts e') (finish e rest)
unfolding finish
finish-Ensures ts e [] (used, p, q) = holds (rw (p, append-nil) q)
finish-Ensures ts e (_ ∷ _) h = rejected

-- The parser answers within its fuel on every token list, and what it accepts is a formula of the
-- grammar, with the meaning that it returns.
pub parse_tokens-Derives :
    (ts : List Token) → Ensures (λ e. Derives additive 0 ts e) (parse_tokens ts)
unfolding parse_tokens
parse_tokens-Derives ts =
    Ensures-bind (parse_additive-Reads (6 * length ts + 6) 0 ts (omega arith))
      λ (e, rest). finish-Ensures ts e rest
