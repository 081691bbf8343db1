-- ===== src/Process/Pointers.antt =====
-- crates/nemclass-core/src/internal/analysis/pointer.rs: what a word of a target points at.
use nemclass.Common.{
  ℕ, zero, suc, ◌+◌, ◌%◌, Bool, ◌&&◌, Option, none, some, List, leb, ◌==◌, if◌then◌else◌,
  is_some_and, length,
}
use nemclass.Common.Outcome.{Outcome, ok, err, diverged}
use nemclass.Scan.ValueType.{le_value}
use nemclass.Scan.FirstScan.{Reader}
use nemclass.Scan.Target.{usize_max}
use nemclass.Process.RegionIndex.{
  RegionIndex, AddrClass, unmapped, data_in, executable_in, classify, is_executable,
}

abbrev pub max_vtable_probe : ℕ
max_vtable_probe = 8

abbrev pub min_vtable_methods : ℕ
min_vtable_methods = 2

abbrev pub entry_size : ℕ
entry_size = 8

pub data PointerClass : Type 0 where
  null not_pointer data_ptr code_ptr : PointerClass
  vtable_ptr : ℕ → PointerClass

module _ (index : RegionIndex) (read : Reader) where
  -- The entry at an address: `none` where the read is short or fails.
  abbrev pub entry_of : Outcome ℕ (List ℕ) → Option ℕ
  entry_of (ok bytes) = if length bytes == entry_size then some (le_value bytes) else none
  entry_of (err e) = none
  entry_of diverged = none

  -- Whether the loop counts the entry at an address and goes on.
  unfoldable pub is_code_entry : ℕ → Bool
  unfolding is_executable le_value
  is_code_entry addr =
      leb addr usize_max
      && is_some_and (entry_of (read addr entry_size)) (λ entry. is_executable index entry)

  -- `for i in 0..MAX_VTABLE_PROBE`: `n` rounds, from the entry at `addr`.
  unfoldable pub count_entries : ℕ → ℕ → ℕ
  unfolding is_code_entry
  count_entries zero addr = 0
  count_entries (suc n) addr =
      let rest = count_entries n (addr + entry_size) in if is_code_entry addr then suc rest else 0

  unfoldable pub count_leading_code_entries : ℕ → ℕ
  unfolding count_entries
  count_leading_code_entries table = count_entries max_vtable_probe table

  abbrev pub table_class : ℕ → PointerClass
  table_class methods = if leb min_vtable_methods methods then vtable_ptr methods else data_ptr

  abbrev pub class_at : ℕ → AddrClass → PointerClass
  class_at addr unmapped = not_pointer
  class_at addr (executable_in m) = code_ptr
  class_at addr (data_in m) =
      if addr % entry_size == 0 then table_class (count_leading_code_entries addr) else data_ptr

  unfoldable pub classify_value : ℕ → PointerClass
  unfolding classify count_leading_code_entries
  classify_value value = if value == 0 then null else class_at value (classify index value)
