-- ===== src/Examples/Harvests.antt =====
-- Whole pointer scans: tests and instances.
use nemclass.Common.{
  ℕ, ◌≡◌, refl, ap, false, Option, none, some, List, [], ◌∷◌, arith, ◌==◌, if◌then◌else◌, All,
}
use nemclass.Common.Outcome.{ok, err, Ensures}
use nemclass.Common.Sort.{insert}
use nemclass.Common.Text.{codes}
use nemclass.Scan.Target.{Region}
use nemclass.Pointer.Path.{PointerScanConfig, PointerPath, default_config, checked_add, resolve}
use nemclass.Pointer.Chains.{IsChain}
use nemclass.Pointer.Harvest.{pointer_scan}
use nemclass.Pointer.Harvested.{word_reader, pointer_scan-IsChain}
use nemclass.Pointer.Formula.{to_formula}
use nemclass.Address.Syntax.{Result, read_failed}
use nemclass.Address.Interpreter.{resolve_formula}
use nemclass.Pointer.Reread.{resolve_formula-to_formula}
use nemclass.Scan.Walk.{bytes_of}
use nemclass.Examples.Spiders.{memory, below_top, below_top-IsReadOf, below_top-answers}

abbrev cells : List Region
cells = record { base = 0x1000; size = 16 } ∷ record { base = 0x2000; size = 16 } ∷ []

abbrev pointer_settings : PointerScanConfig
pointer_settings = record default_config { static_ranges = record { base = 0x1000; size = 8 } ∷ [] }

pointer_scan-IsChain_example :
    Ensures
      (λ r. All (IsChain (word_reader memory pointer_settings) pointer_settings 0x2004) r.paths)
      (pointer_scan (ok cells) below_top pointer_settings 0x2004)
pointer_scan-IsChain_example =
    pointer_scan-IsChain memory (ok cells) below_top pointer_settings below_top-IsReadOf
      below_top-answers (λ e. cc) 0x2004 (omega arith)

abbrev two_hops : PointerPath
two_hops = record { base = 0x401000; offsets = 0x40 ∷ 0x14 ∷ [] }

formula_test :
    to_formula two_hops (codes "game.exe") 0x400000 ≡ codes "[[<game.exe> + 0x1000] + 0x40] + 0x14"
unfolding to_formula
formula_test = refl

scan_found :
    pointer_scan (ok cells) below_top pointer_settings 0x2004
    ≡ ok (record { paths = record { base = 0x1000; offsets = 4 ∷ [] } ∷ []; truncated = false })
unfolding pointer_scan bytes_of insert
scan_found = refl

abbrev hop_cells : ℕ → Option ℕ
hop_cells a = if a == 0x401000 then some 0x5000 else if a == 0x5040 then some 0x6000 else none

abbrev hop_read : ℕ → Result ℕ
hop_read a = elim (hop_cells a) [ none ↦ err (read_failed 0) | some v ↦ ok v ]

hop_read-agrees : (a v : ℕ) → hop_cells a ≡ some v → hop_read a ≡ ok v
hop_read-agrees a v e = ap (λ o. elim o [ none ↦ err (read_failed 0) | some w ↦ ok w ]) e

hops_resolved : resolve hop_cells two_hops ≡ some 0x6014
unfolding resolve checked_add
hops_resolved = refl

resolve_formula-to_formula_example :
    resolve_formula (λ name. some 0x400000) hop_read (to_formula two_hops (codes "game") 0x400000)
    ≡ ok 0x6014
resolve_formula-to_formula_example =
    resolve_formula-to_formula (λ name. some 0x400000) hop_read hop_cells hop_read-agrees two_hops
      (codes "game") 0x400000 0x6014 (omega arith, (omega arith, (omega arith, (omega arith, tt))))
      refl (omega arith) (omega arith) (omega arith) (omega arith) (omega arith)
      (omega arith, (omega arith, tt)) hops_resolved
