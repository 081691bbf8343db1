-- ===== src/Spider/Cover.antt =====
-- What a window shows (spider.rs): the covered bytes are those of the memory, whatever the buffer
-- held before.
use mathlib.Core.Path.{ap₂}
use mathlib.Core.Bool.{false≢true}
use nemclass.Common.{
  ℕ, zero, suc, ◌+◌, ◌^◌, ◌≤◌, ◌<◌, ◌≡◌, refl, sym, ap, ◌∙◌, inl, inr, true, ◌&&◌, List, [], ◌∷◌,
  arith, leb, leb→le, Bool-cases, length, take, drop, All, length-take, length-drop,
}
use nemclass.Common.Outcome.{ok}
use nemclass.Scan.Signature.{byte_at}
use nemclass.Scan.Unique.{byte_at-drop, byte_at-take}
use nemclass.Scan.FirstScan.{Reader}
use nemclass.Scan.Walk.{bytes_of, length-bytes_of}
use nemclass.Spider.Window.{Cover, whole, sparse, cover_has, put_at}

abbrev pub top : ℕ
top = 2 ^ 64

-- A read answers bytes of the memory, no more than it was asked for, below the top.
abbrev pub IsReadOf : (ℕ → ℕ) → Reader → Type 0
IsReadOf mem read =
    (a n : ℕ) (bs : List ℕ)
    → read a n ≡ ok bs
    → (bs ≡ bytes_of mem a (length bs)) × (length bs ≤ n) × (a + length bs ≤ top)

pub length-put_at : (win : List ℕ) (off : ℕ) (bs : List ℕ) → length (put_at win off bs) ≡ length win
unfolding put_at
length-put_at win off [] = refl
length-put_at [] off (b ∷ bs) = refl
length-put_at (w ∷ win) zero (b ∷ bs) = ap suc (length-put_at win zero bs)
length-put_at (w ∷ win) (suc off) (b ∷ bs) = ap suc (length-put_at win off (b ∷ bs))

pub byte_at-put_at_below :
    (win : List ℕ) (off : ℕ) (bs : List ℕ) (i : ℕ)
    → i < off
    → byte_at (put_at win off bs) i ≡ byte_at win i
unfolding put_at
byte_at-put_at_below win off [] i h = refl
byte_at-put_at_below [] off (b ∷ bs) i h = refl
byte_at-put_at_below (w ∷ win) zero (b ∷ bs) i h = absurd (omega arith)
byte_at-put_at_below (w ∷ win) (suc off) (b ∷ bs) zero h = refl
byte_at-put_at_below (w ∷ win) (suc off) (b ∷ bs) (suc i) h =
    byte_at-put_at_below win off (b ∷ bs) i (omega arith)

byte_at-put_at_start :
    (win bs : List ℕ) (i : ℕ)
    → length bs ≤ length win
    → i < length bs
    → byte_at (put_at win zero bs) i ≡ byte_at bs i
unfolding put_at
byte_at-put_at_start win [] i h l = absurd (omega arith)
byte_at-put_at_start [] (b ∷ bs) i h l = absurd (omega arith)
byte_at-put_at_start (w ∷ win) (b ∷ bs) zero h l = refl
byte_at-put_at_start (w ∷ win) (b ∷ bs) (suc i) h l =
    byte_at-put_at_start win bs i (omega arith) (omega arith)

pub byte_at-put_at :
    (win : List ℕ) (off : ℕ) (bs : List ℕ) (i : ℕ)
    → off + length bs ≤ length win
    → i < length bs
    → byte_at (put_at win off bs) (off + i) ≡ byte_at bs i
unfolding put_at
byte_at-put_at win off [] i h l = absurd (omega arith)
byte_at-put_at [] off (b ∷ bs) i h l = absurd (omega arith)
byte_at-put_at (w ∷ win) zero (b ∷ bs) i h l =
    ap (byte_at (put_at (w ∷ win) zero (b ∷ bs))) same
    ∙ byte_at-put_at_start (w ∷ win) (b ∷ bs) i (omega arith) l
  where
    same : 0 + i ≡ i
    same = omega arith
byte_at-put_at (w ∷ win) (suc off) (b ∷ bs) i h l =
    ap (byte_at (put_at (w ∷ win) (suc off) (b ∷ bs))) same
    ∙ byte_at-put_at win off (b ∷ bs) i (omega arith) l
  where
    same : suc off + i ≡ suc (off + i)
    same = omega arith

pub byte_at-bytes_of :
    (mem : ℕ → ℕ) (a n i : ℕ) → i < n → byte_at (bytes_of mem a n) i ≡ mem (a + i)
unfolding bytes_of
byte_at-bytes_of mem a zero i h = absurd (omega arith)
byte_at-bytes_of mem a (suc n) zero h = ap mem (omega arith)
byte_at-bytes_of mem a (suc n) (suc i) h =
    byte_at-bytes_of mem (suc a) n i (omega arith) ∙ ap mem (omega arith)

-- Lists of the same length with the same bytes.
bytes_ext :
    (xs ys : List ℕ)
    → length xs ≡ length ys
    → ((i : ℕ) → i < length xs → byte_at xs i ≡ byte_at ys i)
    → xs ≡ ys
bytes_ext [] [] e h = refl
bytes_ext [] (y ∷ ys) e h = absurd (omega arith)
bytes_ext (x ∷ xs) [] e h = absurd (omega arith)
bytes_ext (x ∷ xs) (y ∷ ys) e h =
    ap₂ (λ b bs. b ∷ bs) (h 0 (omega arith))
      (bytes_ext xs ys (omega arith) (λ i l. h (suc i) (omega arith)))

module _ (mem : ℕ → ℕ) (addr : ℕ) where
  -- The bytes from `s` to `e` of the window are those of the memory.
  pub record Shown (win : List ℕ) (s e : ℕ) : Type 0 where
    pub within : e ≤ length win
    pub below_top : addr + e ≤ top
    pub same : (i : ℕ) → s ≤ i → i < e → byte_at win i ≡ mem (addr + i)

  abbrev pub IsCovered : Cover → List ℕ → Type 0
  IsCovered (whole n) win = Shown win 0 n
  IsCovered (sparse spans) win = All (λ s. Shown win s.0 s.1) spans

  Shown-part :
      (win : List ℕ) (s e off need : ℕ)
      → Shown win s e
      → s ≤ off
      → off + need ≤ e
      → (take need (drop off win) ≡ bytes_of mem (addr + off) need)
        × (off + need ≤ length win)
        × (addr + off + need ≤ top)
  Shown-part win s e off need v h k =
      let size : length (take need (drop off win)) ≡ need =
        omega (arith, length-take need (drop off win), length-drop off win, v.within) in
      (
        bytes_ext (take need (drop off win)) (bytes_of mem (addr + off) need)
            (size ∙ sym (length-bytes_of mem (addr + off) need))
            (λ i l.
              byte_at-take need i (drop off win) (omega (arith, size))
              ∙ byte_at-drop off i win
              ∙ v.same (off + i) (omega arith) (omega (arith, size))
              ∙ ap mem (addr_assoc i)
              ∙ sym (byte_at-bytes_of mem (addr + off) need i (omega (arith, size)))),
        omega (arith, v.within),
        omega (arith, v.below_top),
      )
    where
      addr_assoc : (i : ℕ) → addr + (off + i) ≡ addr + off + i
      addr_assoc i = omega arith

  -- What the cover admits is what the memory holds.
  pub cover_has-IsCovered :
      (c : Cover) (win : List ℕ) (off need : ℕ)
      → IsCovered c win
      → cover_has c off need ≡ true
      → (take need (drop off win) ≡ bytes_of mem (addr + off) need)
        × (off + need ≤ length win)
        × (addr + off + need ≤ top)
  unfolding cover_has
  cover_has-IsCovered (whole n) win off need v h =
      Shown-part win 0 n off need v (omega arith) (leb→le (off + need) n h)
  cover_has-IsCovered (sparse []) win off need v h = absurd (false≢true h)
  cover_has-IsCovered (sparse ((s, e) ∷ spans)) win off need v h =
      elim (Bool-cases (leb s off && leb (off + need) e)) [
        | inl inside ↦ Shown-part win s e off need v.0 (ground arith) (ground arith)
        | inr outside ↦ cover_has-IsCovered (sparse spans) win off need v.1 (rw outside at h)
      ]
