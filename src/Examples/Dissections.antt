-- ===== src/Examples/Dissections.antt =====
-- Dissections: tests and instances.
use nemclass.Common.{
  ℕ, ◌≡◌, refl, ◌||◌, none, some, List, [], ◌∷◌, ◌++◌, ◌==◌, if◌then◌else◌, replicate,
}
use nemclass.Common.Outcome.{ok}
use nemclass.Common.Text.{codes}
use nemclass.Process.Strings.{StringRun, ascii, utf16_le, detect_strings}
use nemclass.Process.Runs.{IsRuns, detect_strings-IsRuns}
use nemclass.Scan.FirstScan.{Reader}
use nemclass.Process.Section.{prot_r, prot_x, can_execute}
use nemclass.Process.RegionIndex.{RegionIndex}
use nemclass.Process.Pointers.{
  PointerClass, not_pointer, data_ptr, code_ptr, vtable_ptr, classify_value,
}
use nemclass.Process.Vtables.{IsClass, classify_value-IsClass}
use nemclass.Model.Stored.{Uuids}
use nemclass.Model.Dissect.{leaf_def, word_def, string_def, dissect_buffer}

-- A wide run, a byte that is not printable, and a packed run.
abbrev mixed : List ℕ
mixed = codes "h" ++ (0 ∷ codes "i" ++ (0 ∷ 1 ∷ codes "name"))

detect_strings-IsRuns_example :
    (runs : List StringRun) × (detect_strings mixed 2 ≡ some runs) × IsRuns mixed 2 0 runs
detect_strings-IsRuns_example = detect_strings-IsRuns mixed 2

mixed_runs :
    detect_strings mixed 2
    ≡ some (
        record { offset = 0; len_bytes = 4; text = codes "hi"; kind = utf16_le }
        ∷ record { offset = 5; len_bytes = 4; text = codes "name"; kind = ascii }
        ∷ [])
unfolding detect_strings
mixed_runs = refl

abbrev ids : Uuids
ids = record { uuid_text = λ u. u ∷ []; parse_uuid = λ s. none; new_v4 = λ head. 99 }

-- A table at 0x1000, a text, a small number and three bytes that are left.
abbrev object : List ℕ
object =
    0 ∷ 0x10 ∷ 0 ∷ 0 ∷ 0 ∷ 0 ∷ 0 ∷ 0 ∷ codes "player"
    ++ (0 ∷ 0 ∷ 7 ∷ 0 ∷ 0 ∷ 0 ∷ 0 ∷ 0 ∷ 0 ∷ 0 ∷ 1 ∷ 2 ∷ 3 ∷ [])

abbrev pointers : ℕ → PointerClass
pointers value = if value == 0x1000 then vtable_ptr 2 else not_pointer

object_fields :
    dissect_buffer object pointers
    ≡ some (
        word_def (codes "field_0x0") 0x1000 (vtable_ptr 2)
        ∷ string_def
            (codes "field_0x8")
            (record { offset = 8; len_bytes = 6; text = codes "player"; kind = ascii })
        ∷ leaf_def (codes "Int64") (codes "field_0x10")
        ∷ [])
unfolding dissect_buffer
object_fields = refl

-- A page of data that starts with two entries that lead to the page of code behind it.
abbrev pages : RegionIndex
pages =
    record { start = 0x1000; end_ = 0x2000; prot = prot_r; module_name = none }
    ∷ record { start = 0x2000; end_ = 0x3000; prot = prot_x; module_name = none }
    ∷ []

abbrev table_read : Reader
table_read addr len =
    ok (if addr == 0x1000 || addr == 0x1008 then 0 ∷ 0x20 ∷ replicate 6 0 else replicate 8 0)

classify_value-IsClass_example :
    IsClass pages table_read 0x1000 (classify_value pages table_read 0x1000)
classify_value-IsClass_example = classify_value-IsClass pages table_read 0x1000

table_classes :
    (classify_value pages table_read 0x1000 ≡ vtable_ptr 2)
    × (classify_value pages table_read 0x1001 ≡ data_ptr)
    × (classify_value pages table_read 0x2004 ≡ code_ptr)
    × (classify_value pages table_read 0x3000 ≡ not_pointer)
unfolding classify_value can_execute
table_classes = (refl, refl, refl, refl)
