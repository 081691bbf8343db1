-- ===== src/Pointer/Reread.antt =====
-- The formula of a path (pointerscan.rs), resolved as an address formula (address/mod.rs).
use nemclass.Common.{
  ℕ, ◌+◌, ◌-◌, ◌%◌, ◌^◌, ◌≤◌, ◌<◌, ◌≡◌, refl, ap, ◌≢◌, inl, inr, Option, none, some, List, [], ◌∷◌,
  arith, leb, ◌==◌, leb→le, ==_iff, Bool-cases, length, All,
}
use nemclass.Common.Outcome.{ok}
use nemclass.Common.Int.{pos}
use nemclass.Address.Syntax.{Expr, constant, add, deref, Result}
use nemclass.Address.Tokenizer.{i64_limit}
use nemclass.Address.Parser.{max_depth}
use nemclass.Address.Interpreter.{to_usize, evaluate, resolve_formula}
use nemclass.Pointer.Path.{◌>>=◌, PointerPath, checked_add, follow, resolve}
use nemclass.Scan.Target.{usize_max}
use nemclass.Pointer.Formula.{to_formula}
use nemclass.Pointer.Reparsed.{base_expr, path_expr, base_offset, parse-to_formula}

bind-some {ℓ κ} :
    {A : Type ℓ} {B : Type κ} (o : Option A) (f : A → Option B) (b : B)
    → (o >>= f) ≡ some b
    → (a : A) × (o ≡ some a) × (f a ≡ some b)
bind-some none f b e = absurd (cc)
bind-some (some a) f b e = (a, refl, e)

checked_add_exact : (a b c : ℕ) → checked_add a b ≡ some c → (c ≡ a + b) × (a + b ≤ usize_max)
unfolding checked_add
checked_add_exact a b c e = elim (Bool-cases (leb (a + b) usize_max)) [
  | inl fits ↦ let sum = rw fits at e in (cc, leb→le (a + b) usize_max fits)
  | inr past ↦ let nothing = rw past at e in absurd (cc)
]

module _ (resolve_module : List ℕ → Option ℕ) (read_usize : ℕ → Result ℕ) (read_ptr : ℕ → Option ℕ)
    (agrees : (a v : ℕ) → read_ptr a ≡ some v → read_usize a ≡ ok v) where
  abbrev Gives : Expr → ℕ → Type 0
  Gives e value = evaluate resolve_module read_usize e ≡ ok value

  evaluate-hop :
      (e : Expr) (addr value off stepped : ℕ)
      → Gives e addr
      → read_ptr addr ≡ some value
      → off < i64_limit
      → checked_add value off ≡ some stepped
      → Gives (add (deref e) (constant (pos off))) stepped
  unfolding evaluate to_usize
  evaluate-hop e addr value off stepped at_addr read low added =
      let (sum_is, fits) = checked_add_exact value off stepped added in
      rw at_addr (rw (agrees addr value read) (ap ok (wrapped sum_is fits)))
    where
      wrapped :
          stepped ≡ value + off
          → value + off ≤ usize_max
          → (value + off % 2 ^ 64) % 2 ^ 64 ≡ stepped
      wrapped sum_is fits = omega arith

  evaluate-follow :
      (e : Expr) (addr value target off : ℕ) (offsets : List ℕ)
      → Gives e addr
      → read_ptr addr ≡ some value
      → All (λ o. o < i64_limit) (off ∷ offsets)
      → follow read_ptr value (off ∷ offsets) ≡ some target
      → Gives (path_expr e (off ∷ offsets)) target
  unfolding follow
  evaluate-follow e addr value target off [] at_addr read low f =
      evaluate-hop e addr value off target at_addr read low.0 f
  evaluate-follow e addr value target off (next ∷ offsets) at_addr read low f =
      let (stepped, added, rest) =
        bind-some (checked_add value off)
          (λ a. read_ptr a >>= λ v. follow read_ptr v (next ∷ offsets)) target f in
      let (value', read', rest') =
        bind-some (read_ptr stepped) (λ v. follow read_ptr v (next ∷ offsets)) target rest in
      evaluate-follow (add (deref e) (constant (pos off))) stepped value' target next offsets
        (evaluate-hop e addr value off stepped at_addr read low.0 added) read' low.1 rest'

  base_expr_lem :
      (m : List ℕ) (module_base base base_off : ℕ)
      → resolve_module m ≡ some module_base
      → module_base < 2 ^ 64
      → base < 2 ^ 64
      → base_off ≡ (base + 2 ^ 64 - module_base) % 2 ^ 64
      → Gives (base_expr m base_off) base
  unfolding evaluate to_usize
  base_expr_lem m module_base base base_off found low low' e = elim (Bool-cases (base_off == 0)) [
    | inl none_left ↦ rw none_left (rw found (ap ok (at_base ((==_iff base_off 0).0 none_left))))
    | inr some_left ↦ rw some_left (rw found (ap ok back))
  ]
    where
      at_base : base_off ≡ 0 → module_base ≡ base
      at_base z = omega arith

      back : (module_base + base_off % 2 ^ 64) % 2 ^ 64 ≡ base
      back = omega arith

  evaluate-resolve :
      (e : Expr) (base target : ℕ) (offsets : List ℕ)
      → 0 < length offsets
      → Gives e base
      → All (λ o. o < i64_limit) offsets
      → resolve read_ptr (record { base = base; offsets = offsets }) ≡ some target
      → Gives (path_expr e offsets) target
  unfolding resolve
  evaluate-resolve e base target [] some_off at_base low r = absurd (omega arith)
  evaluate-resolve e base target (off ∷ offsets) some_off at_base low r =
      let (value, read, rest) =
        bind-some (read_ptr base) (λ v. follow read_ptr v (off ∷ offsets)) target r in
      evaluate-follow e base value target off offsets at_base read low rest

  -- The formula that a path is written as resolves to the address that the path leads to, where the
  -- path has an offset at least and 128 at most, all below 2^63; the module is found at its base, and the
  -- base of the path is a usize that lies less than 2^63 above it; the module's name holds no `>`; and
  -- what the formula reads agrees with what the path reads.
  pub resolve_formula-to_formula :
      (path : PointerPath) (m : List ℕ) (module_base target : ℕ)
      → All (λ c. c ≢ b'>') m
      → resolve_module m ≡ some module_base
      → module_base ≤ path.base
      → path.base < module_base + i64_limit
      → path.base < 2 ^ 64
      → 0 < length path.offsets
      → length path.offsets ≤ max_depth
      → All (λ off. off < i64_limit) path.offsets
      → resolve read_ptr path ≡ some target
      → resolve_formula resolve_module read_usize (to_formula path m module_base) ≡ ok target
  unfolding resolve_formula
  resolve_formula-to_formula path m module_base target plain found above near low some_off short
        offs r =
      let close : base_offset path module_base < i64_limit = omega arith in
      let at_base : Gives (base_expr m (base_offset path module_base)) path.base =
        base_expr_lem m module_base path.base (base_offset path module_base) found (omega arith) low
          refl in
      rw (parse-to_formula path m module_base plain close offs short) (
        evaluate-resolve (base_expr m (base_offset path module_base)) path.base target path.offsets
          some_off at_base offs r)
