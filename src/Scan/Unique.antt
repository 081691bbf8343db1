-- ===== src/Scan/Unique.antt =====
-- A signature (signature.rs) occurs once in the bytes that it was made from.
use mathlib.Core.Path.{subst}
use nemclass.Common.{
  ℕ, zero, suc, ◌+◌, ◌-◌, ◌≤◌, ◌<◌, min, max, ◌≡◌, refl, sym, ap, ◌∙◌, inl, inr, Bool, true, false,
  ◌||◌, none, some, List, [], ◌∷◌, arith, ltb, leb, ◌==◌, ==_iff, Bool-cases, length, take, drop,
  filter, any, length-take, length-drop, filter-hit, filter-miss, eq_bytes, eq_bytes→eq,
}
use nemclass.Scan.Signature.{SignatureConfig, byte_at, positions, keeps, narrow, signature_bytes}

-- The run stands at `p`.
pub record OccursAt (run haystack : List ℕ) (p : ℕ) : Type 0 where
  pub inside : p + length run ≤ length haystack
  pub same : take (length run) (drop p haystack) ≡ run

abbrev Has : ℕ → List ℕ → Type 0
Has p cs = any (λ q. q == p) cs ≡ true

pub byte_at-drop : (p i : ℕ) (xs : List ℕ) → byte_at (drop p xs) i ≡ byte_at xs (p + i)
byte_at-drop zero i xs = ap (byte_at xs) (omega arith)
byte_at-drop (suc p) i [] = refl
byte_at-drop (suc p) i (x ∷ xs) = byte_at-drop p i xs ∙ ap (byte_at (x ∷ xs)) next
  where
    next : suc (p + i) ≡ suc p + i
    next = omega arith

pub byte_at-take : (n i : ℕ) (xs : List ℕ) → i < n → byte_at (take n xs) i ≡ byte_at xs i
byte_at-take zero i xs h = absurd (omega arith)
byte_at-take (suc n) i [] h = refl
byte_at-take (suc n) zero (x ∷ xs) h = refl
byte_at-take (suc n) (suc i) (x ∷ xs) h = byte_at-take n i xs (omega arith)

byte_at-OccursAt :
    (run haystack : List ℕ) (p i : ℕ)
    → OccursAt run haystack p
    → i < length run
    → byte_at haystack (p + i) ≡ byte_at run i
byte_at-OccursAt run haystack p i o h =
    sym (byte_at-drop p i haystack)
    ∙ sym (byte_at-take (length run) i (drop p haystack) h)
    ∙ ap (λ xs. byte_at xs i) o.same

positions-Has :
    (first i k : ℕ) (bs : List ℕ)
    → k < length bs
    → byte_at bs k ≡ first
    → Has (i + k) (positions first i bs)
unfolding positions
positions-Has first i k [] h e = absurd (omega arith)
positions-Has first i zero (b ∷ bs) h e =
    let here : b == first ≡ true = ground arith in
    let there : i == i + 0 ≡ true = ground arith in rw here (rw there refl)
positions-Has first i (suc k) (b ∷ bs) h e =
    let rest : Has (suc i + k) (positions first (suc i) bs) =
      positions-Has first (suc i) k bs (omega arith) e in
    let moved : Has (i + suc k) (positions first (suc i) bs) =
      ap (λ m. any (λ q. q == m) (positions first (suc i) bs)) same ∙ rest in
    elim (Bool-cases (b == first)) [
      | inl here ↦ rw here (rw moved (or_true _))
      | inr not_here ↦ rw not_here moved
    ]
  where
    same : i + suc k ≡ suc i + k
    same = omega arith

    or_true : (b : Bool) → (b || true) ≡ true
    or_true true = refl
    or_true false = refl

Has-filter :
    (keep : ℕ → Bool) (p : ℕ) (cs : List ℕ) → Has p cs → keep p ≡ true → Has p (filter keep cs)
Has-filter keep p [] h k = h
Has-filter keep p (c ∷ cs) h k = elim (Bool-cases (c == p)) [
  | inl here ↦
      let kept : keep c ≡ true = ap keep ((==_iff c p).0 here) ∙ k in
      rw (filter-hit keep c cs kept) (rw here refl)
  | inr elsewhere ↦
      let rest : Has p (filter keep cs) = Has-filter keep p cs (rw elsewhere at h) k in
      elim (Bool-cases (keep c)) [
        | inl kept ↦ rw (filter-hit keep c cs kept) (rw elsewhere rest)
        | inr dropped ↦ rw (filter-miss keep c cs dropped) rest
      ]
]

module _ (haystack : List ℕ) (offset : ℕ) where
  -- The position agrees with the offset on `len` bytes.
  abbrev Agrees : ℕ → ℕ → Type 0
  Agrees len p =
      (p + len ≤ length haystack)
      × ((i : ℕ) → i < len → byte_at haystack (p + i) ≡ byte_at haystack (offset + i))

  abbrev Complete : ℕ → List ℕ → Type 0
  Complete len cs = (p : ℕ) → Agrees len p → Has p cs

  narrow_lem :
      (rounds len : ℕ) (cs : List ℕ)
      → Complete len cs
      → Complete (narrow rounds haystack offset len cs).0 (narrow rounds haystack offset len cs).1
        × ((narrow rounds haystack offset len cs).0 ≤ len + rounds)
  unfolding narrow
  narrow_lem zero len cs c = (c, omega arith)
  narrow_lem (suc rounds) len cs c =
      let cmp = byte_at haystack (offset + suc len - 1) in
      let narrower : Complete (suc len) (filter (keeps haystack (suc len) cmp) cs) = λ p a.
        Has-filter (keeps haystack (suc len) cmp) p cs
          (c p (omega arith, λ i l. a.1 i (omega arith))) (kept p len a) in
      let (rest, bound) =
        narrow_lem rounds (suc len) (filter (keeps haystack (suc len) cmp) cs) narrower in
      elim (Bool-cases (ltb 1 (length cs))) [
        | inl many ↦ rw many (rest, omega arith)
        | inr few ↦ rw few (c, omega arith)
      ]
    where
      before : (q len : ℕ) → q + suc len - 1 ≡ q + len
      before q len = omega arith

      kept :
          (p len : ℕ)
          → Agrees (suc len) p
          → keeps haystack (suc len) (byte_at haystack (offset + suc len - 1)) p ≡ true
      kept p len a =
          let inside : leb (p + suc len) (length haystack) ≡ true = ground arith in
          let last : byte_at haystack (p + suc len - 1) ≡ byte_at haystack (offset + suc len - 1) =
            ap (byte_at haystack) (before p len)
            ∙ a.1 len (omega arith)
            ∙ sym (ap (byte_at haystack) (before offset len)) in
          rw inside (rw last (ground arith))

  -- What the search decides, from the candidates that are left.
  unique_run :
      (len final : ℕ) (cs run : List ℕ)
      → Complete len cs
      → cs ≡ offset ∷ []
      → len ≤ final
      → offset + final ≤ length haystack
      → run ≡ take final (drop offset haystack)
      → OccursAt run haystack offset × ((p : ℕ) → OccursAt run haystack p → p ≡ offset)
  unique_run len final cs run complete only longer inside e =
      let size : length run ≡ final =
        ap length e
        ∙ omega (arith, length-take final (drop offset haystack), length-drop offset haystack) in
      let here : OccursAt run haystack offset = record {
        inside = omega (arith, size);
        same = ap (λ n. take n (drop offset haystack)) size ∙ sym e;
      } in
      (
        here,
        λ p o.
            let agrees : Agrees len p = (
              omega (arith, size, o.inside),
              λ i l.
                  byte_at-OccursAt run haystack p i o (omega (arith, size))
                  ∙ sym (byte_at-OccursAt run haystack offset i here (omega (arith, size))),
            ) in
            let has : Has p (offset ∷ []) = subst (Has p) only (complete p agrees) in ground arith,
      )

  starts_Complete : Complete 1 (positions (byte_at haystack offset) 0 haystack)
  starts_Complete = λ p a.
      let e : byte_at haystack p ≡ byte_at haystack offset =
        ap (byte_at haystack) (plus_zero p)
        ∙ a.1 0 (omega arith)
        ∙ sym (ap (byte_at haystack) (plus_zero offset)) in
      subst (λ m. Has m (positions (byte_at haystack offset) 0 haystack)) (zero_plus p)
        (positions-Has (byte_at haystack offset) 0 p haystack (omega (arith, a.0)) e)
    where
      plus_zero : (n : ℕ) → n ≡ n + 0
      plus_zero n = omega arith

      zero_plus : (n : ℕ) → 0 + n ≡ n
      zero_plus n = omega arith

-- The bytes of a signature stand at the offset that it was made for, and nowhere else.
pub signature_bytes-OccursAt :
    (haystack : List ℕ) (offset : ℕ) (cfg : SignatureConfig) (run : List ℕ)
    → signature_bytes haystack offset cfg ≡ some run
    → OccursAt run haystack offset × ((p : ℕ) → OccursAt run haystack p → p ≡ offset)
unfolding signature_bytes
signature_bytes-OccursAt haystack offset cfg run e =
    elim (Bool-cases (leb (length haystack) offset || cfg.max_len == 0)) [
      | inl refused ↦ let bad : none ≡ some run = rw refused at e in cc
      | inr allowed ↦
          let room : offset < length haystack = ground arith in
          let cap : 1 ≤ cfg.max_len = ground arith in
          let max_len = min cfg.max_len (length haystack - offset) in
          let first = byte_at haystack offset in
          let starts = starts_Complete haystack offset in
          let found = narrow (max_len - 1) haystack offset 1 (positions first 0 haystack) in
          let (complete, bound) =
            narrow_lem haystack offset (max_len - 1) 1 (positions first 0 haystack) starts in
          elim (Bool-cases (eq_bytes found.1 (offset ∷ []))) [
            | inl single ↦
                unique_run haystack offset found.0
                  (min (max found.0 cfg.min_len) (length haystack - offset)) found.1 run complete
                  (eq_bytes→eq found.1 (offset ∷ []) single) (omega (arith, bound, room, cap))
                  (omega (arith, room)) (let chosen = rw single at (rw allowed at e) in cc)
            | inr several ↦ let bad : none ≡ some run = rw several at (rw allowed at e) in cc
          ]
    ]
