-- ===== src/Process/Runs.antt =====
-- crates/nemclass-core/src/internal/analysis/strings.rs: the runs that are found are there, one behind
-- the other.
use mathlib.Core.Path.{ap₂, subst}
use nemclass.Common.{
  ℕ, zero, suc, ◌+◌, ◌*◌, ◌≤◌, ◌<◌, max, ◌≡◌, refl, ap, ◌∙◌, inl, inr, true, ◌&&◌, Option, none,
  some, List, [], ◌∷◌, arith, ltb, leb, ◌==◌, ltb→lt, leb→le, ==_iff, Bool-cases, and_both, length,
  take, drop, all, All, length-drop,
}
use nemclass.Process.Strings.{
  StrKind, ascii, utf16_le, StringRun, is_printable, measure_utf16le, measure_ascii, run_at,
  detect_from, detect_strings,
}

-- A text as it stands in a buffer.
abbrev pub spelled : StrKind → List ℕ → List ℕ
spelled ascii text = text
spelled utf16_le [] = []
spelled utf16_le (c ∷ text) = c ∷ 0 ∷ spelled utf16_le text

-- A run of a buffer: its bytes spell its text, which is printable and long enough.
pub record IsRun (buf : List ℕ) (min_len : ℕ) (run : StringRun) : Type 0 where
  pub inside : run.offset + run.len_bytes ≤ length buf
  pub bytes : take run.len_bytes (drop run.offset buf) ≡ spelled run.kind run.text
  pub printable : All (λ c. is_printable c ≡ true) run.text
  pub long : min_len ≤ length run.text
  pub some_bytes : length run.text ≤ run.len_bytes

-- Runs in ascending order that do not overlap, from an offset on.
abbrev pub IsRuns : List ℕ → ℕ → ℕ → List StringRun → Type 0
IsRuns buf min_len from [] = Unit {0}
IsRuns buf min_len from (run ∷ runs) =
    (from ≤ run.offset)
    × IsRun buf min_len run
    × IsRuns buf min_len (run.offset + run.len_bytes) runs

-- The bytes that a measure has seen, so many for each character.
abbrev IsMeasure : StrKind → ℕ → List ℕ → List ℕ → Type 0
IsMeasure kind width rest text =
    (length text * width ≤ length rest)
    × (take (length text * width) rest ≡ spelled kind text)
    × All (λ c. is_printable c ≡ true) text

double_suc : (n : ℕ) → suc n * 2 ≡ suc (suc (n * 2))
double_suc n = omega arith

measure_utf16le-IsMeasure : (rest : List ℕ) → IsMeasure utf16_le 2 rest (measure_utf16le rest)
unfolding measure_utf16le
measure_utf16le-IsMeasure [] = (omega arith, refl, tt)
measure_utf16le-IsMeasure (b ∷ []) = (omega arith, refl, tt)
measure_utf16le-IsMeasure (b ∷ high ∷ bs) = elim (Bool-cases (is_printable b && high == 0)) [
  | inr stops ↦ rw stops ((omega arith, refl, tt))
  | inl goes ↦
      let (shown, zero_high) = and_both (is_printable b) (high == 0) goes in
      let (fits, same, all) = measure_utf16le-IsMeasure bs in
      rw goes (
        (
          omega (arith, double_suc (length (measure_utf16le bs))),
          ap (λ n. take n (b ∷ high ∷ bs)) (double_suc (length (measure_utf16le bs)))
              ∙ ap₂ (λ h r. b ∷ h ∷ r) ((==_iff high 0).0 zero_high) same,
          (shown, all),
        ))
]

measure_ascii-IsMeasure : (rest : List ℕ) → IsMeasure ascii 1 rest (measure_ascii rest)
unfolding measure_ascii
measure_ascii-IsMeasure [] = (omega arith, refl, tt)
measure_ascii-IsMeasure (b ∷ bs) = elim (Bool-cases (is_printable b)) [
  | inr stops ↦ rw stops ((omega arith, refl, tt))
  | inl goes ↦
      let (fits, same, all) = measure_ascii-IsMeasure bs in
      rw goes (
        (
          omega arith,
          ap (λ n. take n (b ∷ bs)) (one_more (length (measure_ascii bs))) ∙ ap (λ r. b ∷ r) same,
          (goes, all),
        ))
]
  where
    one_more : (n : ℕ) → suc n * 1 ≡ suc (n * 1)
    one_more n = omega arith

-- A run that is found is one, and starts where it was looked for.
pub run_at-IsRun :
    (buf : List ℕ) (min_len offset : ℕ) (run : StringRun)
    → offset ≤ length buf
    → run_at min_len offset (drop offset buf) ≡ some run
    → IsRun buf min_len run × (run.offset ≡ offset)
unfolding run_at
run_at-IsRun buf min_len offset run h e =
    elim (Bool-cases (leb min_len (length (measure_utf16le rest)))) [
      | inl wide ↦
          let found = rw wide at e in
          let same : wide_run ≡ run = cc in
          subst (λ r. IsRun buf min_len r × (r.offset ≡ offset)) same (wide_ok wide, refl)
      | inr not_wide ↦ elim (Bool-cases (leb min_len (length (measure_ascii rest)))) [
        | inl packed ↦
            let found = rw (not_wide, packed) at e in
            let same : packed_run ≡ run = cc in
            subst (λ r. IsRun buf min_len r × (r.offset ≡ offset)) same (packed_ok packed, refl)
        | inr short ↦ let nothing = rw (not_wide, short) at e in absurd (cc)
      ]
    ]
  where
    rest : List ℕ
    rest = drop offset buf

    wide_run : StringRun
    wide_run = record {
      offset = offset;
      len_bytes = length (measure_utf16le rest) * 2;
      text = measure_utf16le rest;
      kind = utf16_le;
    }

    packed_run : StringRun
    packed_run = record {
      offset = offset;
      len_bytes = length (measure_ascii rest);
      text = measure_ascii rest;
      kind = ascii;
    }

    wide_ok : leb min_len (length (measure_utf16le rest)) ≡ true → IsRun buf min_len wide_run
    wide_ok long =
        let (fits, same, all) = measure_utf16le-IsMeasure rest in
        record {
          inside = omega (arith, fits, length-drop offset buf, h);
          bytes = same;
          printable = all;
          long = leb→le min_len (length (measure_utf16le rest)) long;
          some_bytes = omega arith;
        }

    packed_ok : leb min_len (length (measure_ascii rest)) ≡ true → IsRun buf min_len packed_run
    packed_ok long =
        let (fits, same, all) = measure_ascii-IsMeasure rest in
        record {
          inside = omega (arith, fits, length-drop offset buf, h);
          bytes = ap (λ n. take n rest) (times_one (length (measure_ascii rest))) ∙ same;
          printable = all;
          long = leb→le min_len (length (measure_ascii rest)) long;
          some_bytes = omega arith;
        }
      where
        times_one : (n : ℕ) → n ≡ n * 1
        times_one n = omega arith

detect_from-IsRuns :
    (fuel min_len : ℕ) (buf : List ℕ) (i from : ℕ)
    → 0 < min_len
    → from ≤ i
    → length buf < fuel + i
    → 0 < fuel
    → (runs : List StringRun) × (detect_from fuel min_len buf i ≡ some runs)
      × IsRuns buf min_len from runs
unfolding detect_from
detect_from-IsRuns zero min_len buf i from pos ahead enough some_fuel = absurd (omega arith)
detect_from-IsRuns (suc fuel) min_len buf i from pos ahead enough some_fuel =
    elim (Bool-cases (ltb i (length buf))) [
      | inr done ↦ rw (done, detect_from) ([], refl, tt)
      | inl more ↦
          let below = ltb→lt i (length buf) more in
          rw (more, detect_from)
            (of_run (run_at min_len i (drop i buf)) refl below (λ j from' ahead' later.
              detect_from-IsRuns fuel min_len buf j from' pos ahead' (omega arith) (omega arith)))
    ]
  where
    Found : ℕ → Option (List StringRun) → Type 0
    Found start o = (runs : List StringRun) × (o ≡ some runs) × IsRuns buf min_len start runs

    of_run :
        (o : Option StringRun)
        → run_at min_len i (drop i buf) ≡ o
        → i < length buf
        → ((j from' : ℕ) → from' ≤ j → i < j → Found from' (detect_from fuel min_len buf j))
        → Found from (elim o [
          | none ↦ detect_from fuel min_len buf (i + 1)
          | some run ↦ elim (detect_from fuel min_len buf (i + run.len_bytes)) [
            | none ↦ none
            | some runs ↦ some (run ∷ runs)
          ]
        ])
    of_run none e below next = next (i + 1) from (omega arith) (omega arith)
    of_run (some run) e below next =
        let (is_run, at_i) = run_at-IsRun buf min_len i run (omega arith) e in
        let (runs, found, rest) =
          next (i + run.len_bytes) (run.offset + run.len_bytes) (omega (arith, at_i))
            (omega (arith, is_run.long, is_run.some_bytes)) in
        (
          run ∷ runs,
          ap (λ o. elim o [ none ↦ none | some rs ↦ some (run ∷ rs) ]) found,
          (omega (arith, at_i), is_run, rest),
        )

-- The runs that are found spell texts of at least the least length, which is 1 at least, in ascending
-- order and without an overlap; the search always ends.
pub detect_strings-IsRuns :
    (buf : List ℕ) (min_len : ℕ)
    → (runs : List StringRun) × (detect_strings buf min_len ≡ some runs)
      × IsRuns buf (max min_len 1) 0 runs
unfolding detect_strings
detect_strings-IsRuns buf min_len =
    detect_from-IsRuns (suc (length buf)) (max min_len 1) buf 0 0 (omega arith) (omega arith)
      (omega arith) (omega arith)
