-- ===== src/Pointer/Formula.antt =====
-- crates/nemclass-scan/src/pointerscan.rs: a path written as an address formula.
use nemclass.Common.{ℕ, suc, ◌+◌, ◌-◌, ◌%◌, ◌^◌, List, [], ◌∷◌, ◌++◌, ◌==◌, if◌then◌else◌}
use nemclass.Common.Text.{codes, hex_text}
use nemclass.Pointer.Path.{PointerPath}

-- `{off:#x}`
unfoldable pub hex_literal : ℕ → List ℕ
unfolding hex_text
hex_literal n = codes "0x" ++ hex_text (suc n) n

unfoldable pub formula_base : List ℕ → ℕ → List ℕ
unfolding hex_literal
formula_base module_name base_off =
    if base_off == 0
    then codes "<" ++ (module_name ++ codes ">")
    else codes "<" ++ (module_name ++ (codes "> + " ++ hex_literal base_off))

-- The loop over the offsets.
unfoldable pub formula_from : List ℕ → List ℕ → List ℕ
unfolding hex_literal
formula_from expr [] = expr
formula_from expr (off ∷ offsets) =
    formula_from (codes "[" ++ (expr ++ (codes "] + " ++ hex_literal off))) offsets

unfoldable pub to_formula : PointerPath → List ℕ → ℕ → List ℕ
unfolding formula_base formula_from
to_formula path module_name module_base =
    formula_from (formula_base module_name ((path.base + 2 ^ 64 - module_base) % 2 ^ 64))
      path.offsets
