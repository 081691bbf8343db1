-- ===== src/Pointer/Harvested.antt =====
-- crates/nemclass-scan/src/pointerscan.rs: what is harvested is held by the memory, so a whole pointer
-- scan reports paths that are there.
use mathlib.Core.Bool.{false≢true}
use nemclass.Common.{
  ℕ, zero, suc, ◌+◌, ◌-◌, ◌^◌, ◌≤◌, ◌<◌, min, max, ◌≡◌, refl, sym, ap, ◌∙◌, ◌≢◌, inl, inr, Bool,
  true, false, ◌&&◌, ◌||◌, Option, some, List, [], ◌∷◌, arith, ltb, leb, ◌==◌, ltb→lt, leb→le,
  Bool-cases, length, take, drop, All, All-append,
}
use nemclass.Common.Outcome.{
  Outcome, ok, err, diverged, ◌>>=◌, Ensures, holds, rejected, Ensures-bind,
}
use nemclass.Common.Sort.{sort_by_key, IsSorted, All-sort_by_key, sort_by_key-IsSorted}
use nemclass.Scan.Target.{Region, region_end, usize_max}
use nemclass.Scan.FirstScan.{Reader, next_multiple_of}
use nemclass.Scan.Walk.{bytes_of, slice-bytes_of}
use nemclass.Spider.Cover.{IsReadOf}
use nemclass.Spider.Invariant.{word_at}
use nemclass.Pointer.Path.{PointerScanConfig, is_mapped, read_word}
use nemclass.Pointer.Chains.{Held, IsPointerMap, IsChain, find_paths-All}
use nemclass.Pointer.Harvest.{
  harvest_chunk, Harvest, emit, words_loop, chunks_loop, harvest, dedup, mapped_spans, build,
  pointer_scan,
}

module _ (P : ℕ × ℕ → Type 0) where
  dedup-All : (entries : List (ℕ × ℕ)) → All P entries → All P (dedup entries)
  unfolding dedup
  dedup-All [] h = tt
  dedup-All (e ∷ []) h = h
  dedup-All (e ∷ next ∷ entries) h = elim (Bool-cases (e.0 == next.0 && e.1 == next.1)) [
    | inl same ↦ rw same (dedup-All (next ∷ entries) h.1)
    | inr differ ↦ rw differ (h.0, dedup-All (next ∷ entries) h.1)
  ]

abbrev by_value : ℕ × ℕ → ℕ
by_value e = e.0

dedup-IsSorted :
    (entries : List (ℕ × ℕ)) → IsSorted by_value entries → IsSorted by_value (dedup entries)
unfolding dedup
dedup-IsSorted [] h = tt
dedup-IsSorted (e ∷ []) h = h
dedup-IsSorted (e ∷ next ∷ entries) h = elim (Bool-cases (e.0 == next.0 && e.1 == next.1)) [
  | inl same ↦ rw same (dedup-IsSorted (next ∷ entries) h.1)
  | inr differ ↦
      rw differ (
        dedup-All (λ y. e.0 ≤ by_value y) (next ∷ entries) h.0,
        dedup-IsSorted (next ∷ entries) h.1,
      )
]

-- An answer is a value or an error.
answered {ℓ κ} :
    {E : Type κ} {A : Type ℓ} (o : Outcome E A) → o ≢ diverged → Ensures (λ a. o ≡ ok a) o
answered (ok a) h = holds refl
answered (err e) h = rejected
answered diverged h = absurd (h refl)

module _ (mem : ℕ → ℕ) (ranges : List (ℕ × ℕ)) (psize align cap : ℕ) (wide : 0 < psize)
    (apart : 0 < align) where
  abbrev IsHeld : Harvest → Type 0
  IsHeld h = All (Held (word_at mem psize)) h.entries

  emit-IsHeld :
      (val addr : ℕ) (h : Harvest)
      → word_at mem psize addr ≡ some val
      → addr ≤ usize_max
      → IsHeld h
      → IsHeld (emit ranges psize align cap val addr h)
  unfolding emit
  emit-IsHeld val addr h here low held = elim (Bool-cases (is_mapped ranges val)) [
    | inr unmapped ↦ rw unmapped held
    | inl mapped ↦
        rw mapped (
          All-append (Held (word_at mem psize)) h.entries ((val, addr) ∷ []) held ((here, low), tt))
  ]

  words_loop-IsHeld :
      (pos : ℕ) (buf : List ℕ) (fuel i : ℕ) (h : Harvest)
      → buf ≡ bytes_of mem pos (length buf)
      → pos + length buf ≤ 2 ^ 64
      → length buf < fuel + i
      → 0 < fuel
      → IsHeld h
      → Ensures IsHeld (words_loop ranges psize align cap pos buf fuel i h)
  unfolding words_loop
  words_loop-IsHeld pos buf zero i h same low enough some_fuel held = absurd (omega arith)
  words_loop-IsHeld pos buf (suc fuel) i h same low enough some_fuel held =
      elim (Bool-cases (leb (i + psize) (length buf))) [
        | inr done ↦ rw (done, words_loop) (holds held)
        | inl more ↦
            let inside = leb→le (i + psize) (length buf) more in
            let val = read_word (take psize (drop i buf)) in
            let h' = emit ranges psize align cap val (pos + i) h in
            let here : word_at mem psize (pos + i) ≡ some val =
              ap (λ bs. some (read_word bs))
                (sym (
                  ap (λ bs. take psize (drop i bs)) same
                  ∙ slice-bytes_of mem pos i psize (length buf) inside)) in
            let held' = emit-IsHeld val (pos + i) h here (omega arith) held in
            rw (more, words_loop)
              (elim (Bool-cases h'.truncated) [
                | inl full ↦ rw full (holds held')
                | inr room ↦ rw room (
                    words_loop-IsHeld pos buf fuel (i + align) h' same low (omega arith)
                      (omega arith) held')
              ])
      ]

  module _ (read : Reader) (reads : IsReadOf mem read)
      (answers : (a n : ℕ) → read a n ≢ diverged) where
    chunks_loop-IsHeld :
        (end_ fuel pos : ℕ) (h : Harvest)
        → end_ < fuel + pos
        → 0 < fuel
        → IsHeld h
        → Ensures IsHeld (chunks_loop ranges psize align cap read end_ fuel pos h)
    unfolding chunks_loop
    chunks_loop-IsHeld end_ zero pos h enough some_fuel held = absurd (omega arith)
    chunks_loop-IsHeld end_ (suc fuel) pos h enough some_fuel held =
        elim (Bool-cases (ltb pos end_)) [
          | inr done ↦ rw (done, chunks_loop) (holds held)
          | inl more ↦
              rw (more, chunks_loop)
                (Ensures-bind (answered (read pos want) (answers pos want)) (λ buf e.
                  of_buf buf (reads pos want buf e) (ltb→lt pos end_ more)
                    (λ j h' ahead some held'. chunks_loop-IsHeld end_ fuel j h' ahead some held')))
        ]
      where
        want : ℕ
        want = min (end_ - pos) (harvest_chunk + psize)

        further :
            (b : Bool)
            → pos < end_
            → (b || leb want psize) ≡ false
            → (end_ < fuel + (pos + (want - psize))) × (pos + (want - psize) ≤ end_)
        further true below e = absurd (false≢true (sym e))
        further false below e =
            let wide_read : leb want psize ≡ false = e in (ground arith, ground arith)

        of_buf :
            (buf : List ℕ)
            → (buf ≡ bytes_of mem pos (length buf))
              × (length buf ≤ want)
              × (pos + length buf ≤ 2 ^ 64)
            → pos < end_
            → ((j : ℕ) (h' : Harvest)
                → end_ < fuel + j
                → 0 < fuel
                → IsHeld h'
                → Ensures IsHeld (chunks_loop ranges psize align cap read end_ fuel j h'))
            → Ensures IsHeld (elim (ltb (length buf) psize) [
              | true ↦ ok h
              | false ↦
                  words_loop ranges psize align cap pos buf
                    (suc (length buf))
                    (next_multiple_of pos align - pos)
                    h
                  >>= λ h'. elim (h'.truncated || leb want psize) [
                    | true ↦ ok h'
                    | false ↦
                        chunks_loop ranges psize align cap read end_ fuel (pos + (want - psize)) h'
                  ]
            ])
        of_buf buf (same, _, low) below next = elim (Bool-cases (ltb (length buf) psize)) [
          | inl short ↦ rw short (holds held)
          | inr long ↦ rw long (
              Ensures-bind
                (words_loop-IsHeld pos buf (suc (length buf)) (next_multiple_of pos align - pos) h
                  same low (omega arith) (omega arith) held)
                (λ h' held'. elim (Bool-cases (h'.truncated || leb want psize)) [
                  | inl stop ↦ rw stop (holds held')
                  | inr go ↦ rw go (
                      let (ahead, in_region) = further h'.truncated below go in
                      next (pos + (want - psize)) h' ahead (omega arith) held')
                ]))
        ]

    harvest-IsHeld :
        (regions : List Region) (h : Harvest)
        → IsHeld h
        → Ensures IsHeld (harvest ranges psize align cap read regions h)
    unfolding harvest
    harvest-IsHeld [] h held = holds held
    harvest-IsHeld (r ∷ regions) h held =
        Ensures-bind
          (chunks_loop-IsHeld (region_end r) (suc (region_end r)) r.base h (omega arith)
            (omega arith) held)
          (λ h' held'. elim (Bool-cases h'.truncated) [
            | inl full ↦ rw full (holds held')
            | inr room ↦ rw room (harvest-IsHeld regions h' held')
          ])

-- The words of the memory that a scan follows.
abbrev pub word_reader : (ℕ → ℕ) → PointerScanConfig → ℕ → Option ℕ
word_reader mem cfg = word_at mem (max cfg.pointer_size 1)

module _ (mem : ℕ → ℕ) (regions : Outcome ℕ (List Region)) (read : Reader) (cfg : PointerScanConfig)
    (reads : IsReadOf mem read) (answers : (a n : ℕ) → read a n ≢ diverged)
    (listed : regions ≢ diverged) where
  build-IsPointerMap :
      Ensures (λ m. IsPointerMap (word_reader mem cfg) m.entries) (build regions read cfg)
  unfolding build
  build-IsPointerMap = Ensures-bind (answered regions listed) (λ rs e.
      Ensures-bind
        (harvest-IsHeld mem (mapped_spans rs) (max cfg.pointer_size 1) (max cfg.alignment 1)
          cfg.max_map_entries (omega arith) (omega arith) read reads answers rs
          (record { entries = []; truncated = false }) tt)
        (λ h held. holds (
          dedup-IsSorted (sort_by_key by_value h.entries) (sort_by_key-IsSorted by_value h.entries),
          dedup-All (Held (word_reader mem cfg)) (sort_by_key by_value h.entries)
              (All-sort_by_key by_value (Held (word_reader mem cfg)) h.entries held),
        )))

  -- A pointer scan ends: in an error, or with paths that each start at a static address, resolve in the
  -- memory to the goal, and keep to the bounds on offsets and depth. The goal is a usize, the listing of
  -- the regions and the reads end, and the reads answer bytes of the memory.
  pub pointer_scan-IsChain :
      (goal : ℕ)
      → goal ≤ usize_max
      → Ensures
          (λ r. All (IsChain (word_reader mem cfg) cfg goal) r.paths)
          (pointer_scan regions read cfg goal)
  unfolding pointer_scan
  pointer_scan-IsChain goal usize =
      Ensures-bind build-IsPointerMap
        (λ m good. holds (find_paths-All (word_reader mem cfg) cfg goal m usize good))
