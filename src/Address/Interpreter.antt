-- ===== src/Address/Interpreter.antt =====
-- crates/nemclass-model/src/address/interpreter.rs and `resolve_formula` of address/mod.rs. The
-- target's modules and memory are parameters, as the traits `ModuleResolver` and `MemoryReader` are.
use nemclass.Common.{
  ℕ, ◌+◌, ◌-◌, ◌*◌, ◌/◌, ◌%◌, ◌^◌, not, ◌&&◌, Option, none, some, List, [], ◌∷◌, map, leb, ◌==◌,
  if◌then◌else◌, eq_bytes,
}
use nemclass.Common.Outcome.{ok, err, ◌>>=◌, ◌>>◌, guard}
use nemclass.Common.Int.{ℤ, pos, negsuc}
use nemclass.Address.Syntax.{
  Expr, constant, module_name, add, sub, mul, div, rem, negate, deref, module_not_found,
  division_by_zero, modulo_by_zero, Result,
}
use nemclass.Address.Parser.{parse}

-- usize is 64 bits wide.
abbrev pub usize_mod : ℕ
usize_mod = 2 ^ 64

-- `n as usize` for an i64.
unfoldable pub to_usize : ℤ → ℕ
to_usize (pos n) = n % usize_mod
to_usize (negsuc n) = usize_mod - 1 - n % usize_mod

abbrev pub wrapping_add : ℕ → ℕ → ℕ
wrapping_add a b = (a + b) % usize_mod

abbrev pub wrapping_sub : ℕ → ℕ → ℕ
wrapping_sub a b = (a + usize_mod - b) % usize_mod

abbrev pub wrapping_mul : ℕ → ℕ → ℕ
wrapping_mul a b = a * b % usize_mod

abbrev pub wrapping_neg : ℕ → ℕ
wrapping_neg a = (usize_mod - a) % usize_mod

abbrev pub or_not_found : List ℕ → Option ℕ → Result ℕ
or_not_found name none = err (module_not_found name)
or_not_found name (some base) = ok base

module _ (resolve_module : List ℕ → Option ℕ) (read_usize : ℕ → Result ℕ) where
  unfoldable pub evaluate : Expr → Result ℕ
  unfolding to_usize
  evaluate (constant n) = ok (to_usize n)
  evaluate (module_name name) = or_not_found name (resolve_module name)
  evaluate (add lhs rhs) = do a ← evaluate lhs; b ← evaluate rhs; ok (wrapping_add a b)
  evaluate (sub lhs rhs) = do a ← evaluate lhs; b ← evaluate rhs; ok (wrapping_sub a b)
  evaluate (mul lhs rhs) = do a ← evaluate lhs; b ← evaluate rhs; ok (wrapping_mul a b)
  evaluate (div lhs rhs) = do
    divisor ← evaluate rhs
    guard (not (divisor == 0)) division_by_zero
    a ← evaluate lhs
    ok (a / divisor)
  evaluate (rem lhs rhs) = do
    divisor ← evaluate rhs
    guard (not (divisor == 0)) modulo_by_zero
    a ← evaluate lhs
    ok (a % divisor)
  evaluate (negate inner) = do a ← evaluate inner; ok (wrapping_neg a)
  evaluate (deref inner) = do addr ← evaluate inner; read_usize addr

  unfoldable pub resolve_formula : List ℕ → Result ℕ
  unfolding parse evaluate
  resolve_formula formula = do e ← parse formula; evaluate e

abbrev lower : ℕ → ℕ
lower c = if leb 65 c && leb c 90 then c + 32 else c

-- The resolver over the target's module list: the first whose name agrees up to ASCII case.
unfoldable pub resolve_in : List (List ℕ × ℕ) → List ℕ → Option ℕ
resolve_in [] name = none
resolve_in ((n, base) ∷ ms) name =
    if eq_bytes (map lower n) (map lower name) then some base else resolve_in ms name
