-- ===== src/Scan/Freeze.antt =====
-- crates/nemclass-scan/src/freeze.rs: values that are written again and again.
use nemclass.Common.{
  ℕ, ◌+◌, Bool, false, not, Option, none, some, List, [], ◌∷◌, ◌==◌, if◌then◌else◌, length, filter,
}

abbrev pub FreezeSet : Type 0
FreezeSet = List (ℕ × List ℕ)

unfoldable pub set_frozen : FreezeSet → ℕ → List ℕ → FreezeSet
set_frozen [] address bytes = (address, bytes) ∷ []
set_frozen ((a, b) ∷ entries) address bytes =
    if a == address then (a, bytes) ∷ entries else (a, b) ∷ set_frozen entries address bytes

unfoldable pub remove_frozen : FreezeSet → ℕ → FreezeSet
remove_frozen entries address = filter (λ e. not (e.0 == address)) entries

-- The target's memory after a write, and the number of bytes that it took; `none` is a failure.
abbrev pub WriteTarget : Type 0 → Type 0
WriteTarget M = M → ℕ → List ℕ → M × Option ℕ

module _ {M : Type 0} (write : WriteTarget M) where
  abbrev written_all : Option ℕ → List ℕ → Bool
  written_all none bytes = false
  written_all (some n) bytes = n == length bytes

  -- Every entry is written, in order; the result counts those that were written whole.
  unfoldable pub apply : FreezeSet → M → M × ℕ
  apply [] m = (m, 0)
  apply ((a, bytes) ∷ entries) m =
      let w = write m a bytes in
      let (m', n) = apply entries w.0 in (m', if written_all w.1 bytes then n + 1 else n)
