-- ===== src/Common/Sort.antt =====
-- `sort_by_key`, the stable sort of the standard library, as insertion by a numeric key.
use nemclass.Common.Tests.{leb, if◌then◌else◌}
use nemclass.Common.Lists.{All, length}
use Prim.Native.Nat.{ℕ, suc, ◌≤◌}
use mathlib.Core.Path.{◌≡◌, refl}
use mathlib.Core.List.{List, [], ◌∷◌}
use native.Mathlib.Omega.{arith}

module _ {ℓ} {A : Type ℓ} (key : A → ℕ) where
  -- The element goes before the first one with a larger or an equal key.
  unfoldable pub insert : A → List A → List A
  insert x [] = x ∷ []
  insert x (y ∷ ys) = if leb (key x) (key y) then x ∷ y ∷ ys else y ∷ insert x ys

  unfoldable pub sort_by_key : List A → List A
  sort_by_key [] = []
  sort_by_key (x ∷ xs) = insert x (sort_by_key xs)

  abbrev pub IsSorted : List A → Type 0
  IsSorted [] = Unit {0}
  IsSorted (x ∷ xs) = All (λ y. key x ≤ key y) xs × IsSorted xs

module _ {ℓ} {A : Type ℓ} (key : A → ℕ) where
  All-insert {κ} : (P : A → Type κ) (x : A) (xs : List A) → P x → All P xs → All P (insert key x xs)
  unfolding insert
  All-insert P x [] px h = (px, tt)
  All-insert P x (y ∷ ys) px h = ground (arith, All-insert P x ys px h.1)

  pub All-sort_by_key {κ} : (P : A → Type κ) (xs : List A) → All P xs → All P (sort_by_key key xs)
  unfolding sort_by_key
  All-sort_by_key P [] h = tt
  All-sort_by_key P (x ∷ xs) h = All-insert P x (sort_by_key key xs) h.0 (All-sort_by_key P xs h.1)

  All_le_trans : (a b : ℕ) (xs : List A) → a ≤ b → All (λ y. b ≤ key y) xs → All (λ y. a ≤ key y) xs
  All_le_trans a b [] h k = tt
  All_le_trans a b (x ∷ xs) h k = (omega arith, All_le_trans a b xs h k.1)

  insert-IsSorted : (x : A) (xs : List A) → IsSorted key xs → IsSorted key (insert key x xs)
  unfolding insert
  insert-IsSorted x [] h = (tt, tt)
  insert-IsSorted x (y ∷ ys) h = ground (
    arith,
    insert-IsSorted x ys h.1,
    All_le_trans (key x) (key y) ys,
    All-insert (λ z. key y ≤ key z) x ys,
  )

  pub sort_by_key-IsSorted : (xs : List A) → IsSorted key (sort_by_key key xs)
  unfolding sort_by_key
  sort_by_key-IsSorted [] = tt
  sort_by_key-IsSorted (x ∷ xs) = insert-IsSorted x (sort_by_key key xs) (sort_by_key-IsSorted xs)

  length-insert : (x : A) (xs : List A) → length (insert key x xs) ≡ suc (length xs)
  unfolding insert
  length-insert x [] = refl
  length-insert x (y ∷ ys) = ground (arith, length-insert x ys)

  pub length-sort_by_key : (xs : List A) → length (sort_by_key key xs) ≡ length xs
  unfolding sort_by_key
  length-sort_by_key [] = refl
  length-sort_by_key (x ∷ xs) =
      omega (arith, length-insert x (sort_by_key key xs), length-sort_by_key xs)
