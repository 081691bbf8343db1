-- ===== src/Process/Strings.antt =====
-- crates/nemclass-core/src/internal/analysis/strings.rs: printable runs in a buffer. A measure looks at
-- the buffer behind its start.
use nemclass.Common.{
  ℕ, zero, suc, ◌+◌, ◌*◌, max, Bool, true, false, ◌&&◌, ◌||◌, Option, none, some, List, [], ◌∷◌,
  ltb, leb, ◌==◌, if◌then◌else◌, length, drop,
}

pub data StrKind : Type 0 where
  ascii utf16_le : StrKind

pub record StringRun : Type 0 where
  pub offset : ℕ
  pub len_bytes : ℕ
  pub text : List ℕ
  pub kind : StrKind

abbrev pub is_printable : ℕ → Bool
is_printable b = b == 9 || leb 0x20 b && leb b 0x7e

-- The texts that the two measures return; their lengths are the counts.
unfoldable pub measure_utf16le : List ℕ → List ℕ
measure_utf16le [] = []
measure_utf16le (b ∷ []) = []
measure_utf16le (b ∷ high ∷ bs) =
    let rest = measure_utf16le bs in if is_printable b && high == 0 then b ∷ rest else []

unfoldable pub measure_ascii : List ℕ → List ℕ
measure_ascii [] = []
measure_ascii (b ∷ bs) = let rest = measure_ascii bs in if is_printable b then b ∷ rest else []

-- The run at the start of the rest of a buffer.
unfoldable pub run_at : ℕ → ℕ → List ℕ → Option StringRun
unfolding measure_utf16le measure_ascii
run_at min_len offset rest =
    let wide = measure_utf16le rest in
    let packed = measure_ascii rest in
    if leb min_len (length wide)
    then some
        (record { offset = offset; len_bytes = length wide * 2; text = wide; kind = utf16_le })
    else if leb min_len (length packed)
    then some (record { offset = offset; len_bytes = length packed; text = packed; kind = ascii })
    else none

unfoldable pub string_at : List ℕ → ℕ → ℕ → Option StringRun
unfolding run_at
string_at buf offset min_len =
    if leb (length buf) offset then none else run_at (max min_len 1) offset (drop offset buf)

-- `while i < buf.len()`, on fuel; `none` where it runs out.
unfoldable pub detect_from : ℕ → ℕ → List ℕ → ℕ → Option (List StringRun)
unfolding run_at
detect_from zero min_len buf i = none
detect_from (suc fuel) min_len buf i = elim (ltb i (length buf)) [
  | false ↦ some []
  | true ↦ elim (run_at min_len i (drop i buf)) [
    | none ↦ detect_from fuel min_len buf (i + 1)
    | some run ↦ elim (detect_from fuel min_len buf (i + run.len_bytes)) [
      | none ↦ none
      | some runs ↦ some (run ∷ runs)
    ]
  ]
]

unfoldable pub detect_strings : List ℕ → ℕ → Option (List StringRun)
unfolding detect_from
detect_strings buf min_len = detect_from (suc (length buf)) (max min_len 1) buf 0
