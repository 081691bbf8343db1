-- ===== src/Pointer/Reparsed.antt =====
-- The formula of a path (pointerscan.rs), parsed as an address formula (address/parser.rs).
use mathlib.Core.Path.{subst}
use nemclass.Common.{
  ℕ, suc, ◌+◌, ◌-◌, ◌%◌, ◌^◌, ◌≤◌, ◌<◌, ◌≡◌, refl, sym, ap, ◌∙◌, ◌≢◌, inl, inr, List, [], ◌∷◌, ◌++◌,
  append_assoc, append-nil, arith, ◌==◌, if◌then◌else◌, Bool-cases, length, All, length-append,
}
use nemclass.Common.Outcome.{ok}
use nemclass.Common.Int.{pos}
use nemclass.Common.Text.{codes}
use nemclass.Address.Syntax.{
  Expr, constant, module_name, add, deref, Token, number, identifier, plus, open_bracket,
  close_bracket,
}
use nemclass.Address.Tokenizer.{i64_limit, read_token, tokenize}
use nemclass.Address.ReadBack.{read_identifier}
use nemclass.Address.Parser.{max_depth, parse}
use nemclass.Address.Grammar.{
  additive, Derives, product, sum, factor, atom, literal, name, brackets,
}
use nemclass.Address.Complete.{parse_tokens-eq-ok_iff}
use nemclass.Pointer.Path.{PointerPath}
use nemclass.Pointer.Formula.{hex_literal, formula_base, to_formula}
use nemclass.Pointer.Spelled.{
  IsRead, IsRead-space, IsRead-token, IsRead-hex, tail_text, tail_tokens, opened, opened-cons,
  formula_from-opened, tail_text-IsStop, tail_text-IsRead, opened-IsRead,
}

-- The tokens and the meaning of the base of a path.
abbrev base_tokens : List ℕ → ℕ → List Token
base_tokens m base_off =
    if base_off == 0 then identifier m ∷ [] else identifier m ∷ plus ∷ number (pos base_off) ∷ []

abbrev pub base_expr : List ℕ → ℕ → Expr
base_expr m base_off =
    if base_off == 0 then module_name m else add (module_name m) (constant (pos base_off))

base-IsRead :
    (m : List ℕ) (base_off : ℕ) (offsets : List ℕ)
    → All (λ c. c ≢ b'>') m
    → base_off < i64_limit
    → All (λ off. off < i64_limit) offsets
    → IsRead
        (formula_base m base_off ++ tail_text offsets)
        (base_tokens m base_off ++ tail_tokens offsets)
unfolding formula_base read_token
base-IsRead m base_off offsets plain low h = elim (Bool-cases (base_off == 0)) [
  | inl none_left ↦ rw none_left (named [] (tail_tokens offsets) (tail_text-IsRead offsets h))
  | inr some_left ↦ rw some_left (
      named (codes " + " ++ hex_literal base_off)
        (plus ∷ number (pos base_off) ∷ tail_tokens offsets)
        (IsRead-space (codes "+ " ++ digits) (plus ∷ number (pos base_off) ∷ tail_tokens offsets) (
          IsRead-token b'+' (codes " " ++ digits) (codes " " ++ digits) plus
            (number (pos base_off) ∷ tail_tokens offsets) refl refl (omega arith)
            (IsRead-space digits (number (pos base_off) ∷ tail_tokens offsets) (
              IsRead-hex base_off (tail_text offsets) (tail_tokens offsets) low
                (tail_text-IsStop offsets) (tail_text-IsRead offsets h))))))
]
  where
    digits : List ℕ
    digits = hex_literal base_off ++ tail_text offsets

    named :
        (after : List ℕ) (ts : List Token)
        → IsRead (after ++ tail_text offsets) ts
        → IsRead ((codes "<" ++ (m ++ (b'>' ∷ after))) ++ tail_text offsets) (identifier m ∷ ts)
    named after ts r =
        let regroup = append_assoc m (b'>' ∷ after) (tail_text offsets) in
        IsRead-token b'<' ((m ++ (b'>' ∷ after)) ++ tail_text offsets) (after ++ tail_text offsets)
          (identifier m) ts refl (rw regroup (read_identifier m (after ++ tail_text offsets) plain))
          (omega (arith, ap length regroup, length-append m (b'>' ∷ (after ++ tail_text offsets))))
          r

abbrev pub path_expr : Expr → List ℕ → Expr
path_expr e [] = e
path_expr e (off ∷ offsets) = path_expr (add (deref e) (constant (pos off))) offsets

path_expr-Derives :
    (ts : List Token) (e : Expr) (offsets : List ℕ)
    → length offsets ≤ max_depth
    → Derives additive (length offsets) ts e
    → Derives additive 0
        (opened open_bracket offsets (ts ++ tail_tokens offsets))
        (path_expr e offsets)
path_expr-Derives ts e [] h d = subst (λ us. Derives additive 0 us e) (sym (append-nil ts)) d
path_expr-Derives ts e (off ∷ offsets) h d =
    let n = length offsets in
    let one_more : Derives additive (n + 1) ts e =
      subst (λ k. Derives additive k ts e) (omega arith) d in
    let step : Derives additive n
        ((open_bracket ∷ (ts ++ (close_bracket ∷ []))) ++ (plus ∷ number (pos off) ∷ []))
        (add (deref e) (constant (pos off))) =
      sum (product (factor (atom (omega arith) (brackets (omega arith) one_more))))
        (factor (atom (omega arith) (literal (pos off) (omega arith)))) in
    subst (λ us. Derives additive 0 us (path_expr e (off ∷ offsets)))
      (ap (λ us. opened open_bracket offsets (open_bracket ∷ us))
          (append_assoc (ts ++ (close_bracket ∷ [])) (plus ∷ number (pos off) ∷ [])
              (tail_tokens offsets)
            ∙ append_assoc ts (close_bracket ∷ []) (plus ∷ number (pos off) ∷ tail_tokens offsets))
        ∙ opened-cons open_bracket offsets (ts ++ tail_tokens (off ∷ offsets)))
      (path_expr-Derives
        ((open_bracket ∷ (ts ++ (close_bracket ∷ []))) ++ (plus ∷ number (pos off) ∷ []))
        (add (deref e) (constant (pos off))) offsets (omega arith) step)

base_expr-Derives :
    (m : List ℕ) (base_off d : ℕ)
    → d ≤ max_depth
    → Derives additive d (base_tokens m base_off) (base_expr m base_off)
base_expr-Derives m base_off d h = elim (Bool-cases (base_off == 0)) [
  | inl none_left ↦ rw none_left as_name
  | inr some_left ↦ rw some_left (sum as_name (factor (atom h (literal (pos base_off) h))))
]
  where
    as_name : Derives additive d (identifier m ∷ []) (module_name m)
    as_name = product (factor (atom h (name m h)))

-- The distance of a path's base from the base of its module.
abbrev pub base_offset : PointerPath → ℕ → ℕ
base_offset path module_base = (path.base + 2 ^ 64 - module_base) % 2 ^ 64

tokenize-to_formula :
    (path : PointerPath) (m : List ℕ) (module_base : ℕ)
    → All (λ c. c ≢ b'>') m
    → base_offset path module_base < i64_limit
    → All (λ off. off < i64_limit) path.offsets
    → tokenize (to_formula path m module_base)
      ≡ ok (
          opened open_bracket path.offsets
            (base_tokens m (base_offset path module_base) ++ tail_tokens path.offsets))
unfolding tokenize to_formula
tokenize-to_formula path m module_base plain near offs =
    let off = base_offset path module_base in
    let text = opened b'[' path.offsets (formula_base m off ++ tail_text path.offsets) in
    ap (λ t. tokenize t) (formula_from-opened (formula_base m off) path.offsets)
    ∙ opened-IsRead path.offsets (formula_base m off ++ tail_text path.offsets)
        (base_tokens m off ++ tail_tokens path.offsets)
        (base-IsRead m off path.offsets plain near offs) (suc (length text)) (omega arith)

pub parse-to_formula :
    (path : PointerPath) (m : List ℕ) (module_base : ℕ)
    → All (λ c. c ≢ b'>') m
    → base_offset path module_base < i64_limit
    → All (λ off. off < i64_limit) path.offsets
    → length path.offsets ≤ max_depth
    → parse (to_formula path m module_base)
      ≡ ok (path_expr (base_expr m (base_offset path module_base)) path.offsets)
unfolding parse
parse-to_formula path m module_base plain near offs short =
    let off = base_offset path module_base in
    let ts = opened open_bracket path.offsets (base_tokens m off ++ tail_tokens path.offsets) in
    rw (tokenize-to_formula path m module_base plain near offs) (
      (parse_tokens-eq-ok_iff ts (path_expr (base_expr m off) path.offsets)).1 (
        path_expr-Derives (base_tokens m off) (base_expr m off) path.offsets short
          (base_expr-Derives m off (length path.offsets) short)))
