-- ===== src/Scan/Frozen.antt =====
-- The freeze list (freeze.rs) as a map from addresses to bytes.
use nemclass.Common.{
  ℕ, suc, max, ◌≡◌, refl, Option, none, some, List, [], ◌∷◌, arith, ◌==◌, if◌then◌else◌,
}
use nemclass.Scan.Freeze.{FreezeSet, set_frozen, remove_frozen}

-- The bytes that an address is frozen to.
unfoldable pub frozen_at : FreezeSet → ℕ → Option (List ℕ)
frozen_at [] x = none
frozen_at ((a, bytes) ∷ entries) x =
    let rest = frozen_at entries x in if a == x then some bytes else rest

-- The number of entries of an address.
unfoldable pub entries_at : FreezeSet → ℕ → ℕ
entries_at [] x = 0
entries_at ((a, bytes) ∷ entries) x =
    let rest = entries_at entries x in if a == x then suc rest else rest

frozen_at-set_frozen :
    (entries : FreezeSet) (address : ℕ) (bytes : List ℕ) (x : ℕ)
    → frozen_at (set_frozen entries address bytes) x
      ≡ (if address == x then some bytes else frozen_at entries x)
unfolding frozen_at set_frozen
frozen_at-set_frozen [] address bytes x = refl
frozen_at-set_frozen ((a, b) ∷ entries) address bytes x =
    ground (arith, frozen_at-set_frozen entries address bytes x)

frozen_at-remove_frozen :
    (entries : FreezeSet) (address x : ℕ)
    → frozen_at (remove_frozen entries address) x
      ≡ (if address == x then none else frozen_at entries x)
unfolding frozen_at remove_frozen
frozen_at-remove_frozen [] address x = ground arith
frozen_at-remove_frozen ((a, b) ∷ entries) address x =
    ground (arith, frozen_at-remove_frozen entries address x)

entries_at-set_frozen :
    (entries : FreezeSet) (address : ℕ) (bytes : List ℕ) (x : ℕ)
    → entries_at (set_frozen entries address bytes) x
      ≡ (if address == x then max 1 (entries_at entries x) else entries_at entries x)
unfolding entries_at set_frozen
entries_at-set_frozen [] address bytes x = ground arith
entries_at-set_frozen ((a, b) ∷ entries) address bytes x =
    ground (arith, entries_at-set_frozen entries address bytes x)

-- Setting an address freezes it to the bytes and removing one thaws it, with the other addresses as
-- they were; a set adds an entry only for an address that had none.
pub frozen_map :
    (entries : FreezeSet) (address : ℕ) (bytes : List ℕ) (x : ℕ)
    → (frozen_at (set_frozen entries address bytes) x
        ≡ (if address == x then some bytes else frozen_at entries x))
      × (frozen_at (remove_frozen entries address) x
          ≡ (if address == x then none else frozen_at entries x))
      × (entries_at (set_frozen entries address bytes) x
          ≡ (if address == x then max 1 (entries_at entries x) else entries_at entries x))
frozen_map entries address bytes x = (
  frozen_at-set_frozen entries address bytes x,
  frozen_at-remove_frozen entries address x,
  entries_at-set_frozen entries address bytes x,
)
