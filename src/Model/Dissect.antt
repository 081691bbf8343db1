-- ===== src/Model/Dissect.antt =====
-- crates/nemclass-model/src/dissect.rs: the guess at the fields of a structure.
use nemclass.Common.{
  ℕ, zero, suc, ◌+◌, ◌-◌, ◌%◌, ◌^◌, Option, none, some, List, [], ◌∷◌, ◌++◌, ltb, leb,
  if◌then◌else◌, length, take, drop,
}
use nemclass.Common.Text.{codes, hex_text, decimal}
use nemclass.Scan.ValueType.{le_value}
use nemclass.Process.Strings.{StrKind, ascii, utf16_le, StringRun, string_at}
use nemclass.Process.Pointers.{PointerClass, null, not_pointer, data_ptr, code_ptr, vtable_ptr}
use nemclass.Model.Stored.{Value, integer, as_i64, NodeDef, node_def, NodeDefs, no_defs, defs}

abbrev pub string_min_len : ℕ
string_min_len = 4

abbrev pub int64_small_bound : ℕ
int64_small_bound = 0x100000000

-- `leaf_def`
abbrev pub leaf_def : List ℕ → List ℕ → NodeDef
leaf_def tag name =
    node_def (record { type_tag = tag; name = name; comment = []; attrs = [] }) no_defs

-- `leaf_def_with_int`
abbrev pub leaf_def_with_int : List ℕ → List ℕ → List ℕ → Value → NodeDef
leaf_def_with_int tag name attr val =
    node_def (record { type_tag = tag; name = name; comment = []; attrs = (attr, val) ∷ [] })
      no_defs

-- For a power of two, whose lowest bits the mask clears.
unfoldable pub round_up : ℕ → ℕ → ℕ
round_up n align = (n + align - 1) - (n + align - 1) % align

unfoldable pub field_name : ℕ → List ℕ
unfolding hex_text
field_name offset = codes "field_0x" ++ hex_text (suc offset) offset

-- The methods from the given one on.
unfoldable pub method_defs : ℕ → ℕ → NodeDefs
unfolding decimal
method_defs zero i = no_defs
method_defs (suc n) i =
    defs (leaf_def (codes "VMethod") (codes "method_" ++ decimal (suc i) i)) (method_defs n (i + 1))

-- `(value as i64).unsigned_abs()`
abbrev pub signed_magnitude : ℕ → ℕ
signed_magnitude value = if ltb value (2 ^ 63) then value else 2 ^ 64 - value

abbrev pub integer_def : List ℕ → ℕ → NodeDef
integer_def name value =
    if ltb (signed_magnitude value) int64_small_bound
    then leaf_def (codes "Int64") name
    else leaf_def (codes "Hex64") name

unfoldable pub word_def : List ℕ → ℕ → PointerClass → NodeDef
unfolding method_defs
word_def name value (vtable_ptr methods) =
    node_def (record { type_tag = codes "VTable"; name = name; comment = []; attrs = [] })
      (method_defs methods 0)
word_def name value code_ptr = leaf_def (codes "FunctionPtr") name
word_def name value data_ptr = leaf_def (codes "Pointer") name
word_def name value null = integer_def name value
word_def name value not_pointer = integer_def name value

abbrev pub string_tag : StrKind → List ℕ
string_tag ascii = codes "Utf8Text"
string_tag utf16_le = codes "Utf16Text"

unfoldable pub string_def : List ℕ → StringRun → NodeDef
unfolding as_i64
string_def name run =
    leaf_def_with_int (string_tag run.kind) name (codes "length") (integer (as_i64 run.len_bytes))

module _ (buf : List ℕ) (classify : ℕ → PointerClass) where
  -- The definition at an offset, and the bytes that it takes.
  unfoldable pub slot_at : ℕ → Option StringRun → NodeDef × ℕ
  unfolding string_def word_def field_name round_up le_value
  slot_at offset (some run) = (string_def (field_name offset) run, round_up run.len_bytes 8)
  slot_at offset none =
      let value = le_value (take 8 (drop offset buf)) in
      (word_def (field_name offset) value (classify value), 8)

  -- The loop over the slots, on fuel; `none` where it runs out.
  unfoldable pub dissect_from : ℕ → ℕ → Option (List NodeDef)
  unfolding slot_at string_at
  dissect_from zero offset = none
  dissect_from (suc fuel) offset =
      if leb 8 (length buf - offset)
      then (elim (dissect_from fuel
          (offset + (slot_at offset (string_at buf offset string_min_len)).1)) [
            | none ↦ none
            | some rest ↦ some ((slot_at offset (string_at buf offset string_min_len)).0 ∷ rest)
          ])
      else some []

  unfoldable pub dissect_buffer : Option (List NodeDef)
  unfolding dissect_from
  dissect_buffer = dissect_from (suc (length buf)) 0
