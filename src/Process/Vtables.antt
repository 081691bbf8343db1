-- ===== src/Process/Vtables.antt =====
-- crates/nemclass-core/src/internal/analysis/pointer.rs: what a classification of a word says.
use mathlib.Core.Bool.{false≢true}
use nemclass.Common.{
  ℕ, zero, suc, ◌+◌, ◌*◌, ◌%◌, ◌≤◌, ◌<◌, ◌≡◌, refl, sym, ap, ◌∙◌, inl, inr, Bool, true, false,
  Option, none, some, arith, leb, ◌==◌, leb→le, ==_iff, Bool-cases,
}
use nemclass.Scan.FirstScan.{Reader}
use nemclass.Process.Section.{can_execute}
use nemclass.Process.RegionIndex.{RegionIndex, Range, data_in, covering, class_of, classify}
use nemclass.Process.Pointers.{
  max_vtable_probe, min_vtable_methods, entry_size, PointerClass, null, not_pointer, data_ptr,
  code_ptr, vtable_ptr, is_code_entry, count_entries, class_at, count_leading_code_entries,
  classify_value,
}

module _ (index : RegionIndex) (read : Reader) where
  -- The number of entries of a table that lead to code, up to the first one that does not, of `n`.
  pub record IsLeading (n table count : ℕ) : Type 0 where
    pub within : count ≤ n
    pub lead : (k : ℕ) → k < count → is_code_entry index read (table + k * entry_size) ≡ true
    pub stops : count < n → is_code_entry index read (table + count * entry_size) ≡ false

  -- An address in a range of the index, which may be executed or may not.
  abbrev pub IsIn : ℕ → Bool → Type 0
  IsIn addr executable =
      (r : Range) × (covering index addr ≡ some r) × (can_execute r.prot ≡ executable)

  -- What each class says of a word.
  abbrev pub IsClass : ℕ → PointerClass → Type 0
  IsClass value null = value ≡ 0
  IsClass value not_pointer = (0 < value) × (covering index value ≡ none)
  IsClass value code_ptr = (0 < value) × IsIn value true
  IsClass value data_ptr =
      (0 < value)
      × IsIn value false
      × (value % 8 ≡ 0 → (count : ℕ) × IsLeading 8 value count × (count < 2))
  IsClass value (vtable_ptr methods) =
      (0 < value) × IsIn value false × (value % 8 ≡ 0) × IsLeading 8 value methods × (2 ≤ methods)

  shift : (table k : ℕ) → table + suc k * 8 ≡ table + 8 + k * 8
  shift table k = omega arith

  start : (table : ℕ) → table + 0 * 8 ≡ table
  start table = omega arith

  count_entries-IsLeading : (n table : ℕ) → IsLeading n table (count_entries index read n table)
  unfolding count_entries
  count_entries-IsLeading zero table = record {
    within = omega arith;
    lead = λ k h. absurd (omega arith);
    stops = λ h. absurd (omega arith);
  }
  count_entries-IsLeading (suc n) table = elim (Bool-cases (is_code_entry index read table)) [
    | inr stop ↦
        rw (stop, count_entries)
          (record {
            within = omega arith;
            lead = λ k h. absurd (omega arith);
            stops = λ h. ap (λ a. is_code_entry index read a) (start table) ∙ stop;
          })
    | inl code ↦
        let rest = count_entries-IsLeading n (table + 8) in
        rw (code, count_entries)
          (record {
            within = omega (arith, rest.within);
            lead = λ k h. leads code rest k h;
            stops = λ h.
                ap (λ a. is_code_entry index read a)
                  (shift table (count_entries index read n (table + 8)))
                ∙ rest.stops (omega arith);
          })
  ]
    where
      leads :
          is_code_entry index read table ≡ true
          → IsLeading n (table + 8) (count_entries index read n (table + 8))
          → (k : ℕ) → k < suc (count_entries index read n (table + 8))
          → is_code_entry index read (table + k * 8) ≡ true
      leads code rest zero h = ap (λ a. is_code_entry index read a) (start table) ∙ code
      leads code rest (suc k) h =
          ap (λ a. is_code_entry index read a) (shift table k) ∙ rest.lead k (omega arith)

  data-IsClass :
      (value : ℕ)
      → 0 < value
      → IsIn value false
      → IsClass value (class_at index read value (data_in none))
  unfolding count_leading_code_entries
  data-IsClass value some_value in_data = elim (Bool-cases (value % entry_size == 0)) [
    | inr odd ↦ rw odd (
      some_value,
      in_data,
      λ aligned. absurd (false≢true (sym odd ∙ (==_iff (value % 8) 0).1 aligned)),
    )
    | inl aligned ↦
        rw aligned
          (elim (Bool-cases
            (leb min_vtable_methods (count_entries index read max_vtable_probe value))) [
              | inl many ↦ rw many (
                some_value,
                in_data,
                (==_iff (value % 8) 0).0 aligned,
                count_entries-IsLeading 8 value,
                leb→le min_vtable_methods (count_entries index read max_vtable_probe value) many,
              )
              | inr few ↦ rw few (
                some_value,
                in_data,
                λ e. (
                  count_entries index read 8 value,
                  count_entries-IsLeading 8 value,
                  ground arith,
                ),
              )
            ])
  ]

  class_at-IsClass :
      (value : ℕ) (o : Option Range)
      → 0 < value
      → covering index value ≡ o
      → IsClass value (class_at index read value (class_of o))
  class_at-IsClass value none some_value e = (some_value, e)
  class_at-IsClass value (some r) some_value e = elim (Bool-cases (can_execute r.prot)) [
    | inl code ↦ rw code (some_value, (r, e, code))
    | inr plain ↦ rw plain (data-IsClass value some_value (r, e, plain))
  ]

  -- A word is classified by where it points: 0, nowhere, into code, or into data; and into data as a
  -- table of methods if and only if it is aligned and 2 at least of the entries there, of which 8 are
  -- looked at, lead to code in front of the first one that does not.
  pub classify_value-IsClass : (value : ℕ) → IsClass value (classify_value index read value)
  unfolding classify_value classify
  classify_value-IsClass value = elim (Bool-cases (value == 0)) [
    | inl zero_value ↦ rw zero_value ((==_iff value 0).0 zero_value)
    | inr word ↦ rw word (class_at-IsClass value (covering index value) (ground arith) refl)
  ]
