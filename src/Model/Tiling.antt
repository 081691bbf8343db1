-- ===== src/Model/Tiling.antt =====
-- crates/nemclass-model/src/dissect.rs: the definitions that a dissection guesses are ones that the
-- registry reads, and they tile the buffer.
use nemclass.Common.{ℕ, ◌+◌, ◌^◌, ◌≤◌, ◌<◌, ◌≡◌, Option, List, [], ◌∷◌, length}
use nemclass.Common.Outcome.{ok}
use nemclass.Process.Strings.{StringRun}
use nemclass.Process.Pointers.{PointerClass}
use nemclass.Model.Node.{Label, Node, label_of, memory_size}
use nemclass.Model.Stored.{NodeDef, Uuids}
use nemclass.Model.Registry.{deserialize_node_inner, deserialize_node}
use nemclass.Model.Depth.{height}
use nemclass.Model.Dissect.{round_up, field_name, slot_at}

module _ (ids : Uuids) where
  -- A definition that is read as a node of that name, of so many bytes.
  pub record IsSlot (d : NodeDef) (offset size : ℕ) : Type 0 where
    pub read_as : Node
    pub accepted : deserialize_node ids d ≡ ok read_as
    pub named : (label_of read_as).name ≡ field_name offset
    pub sized : memory_size read_as ≡ size

  -- From an offset on the definitions stand one behind the other, each on the next multiple of 8 behind
  -- the one before it and inside the buffer; fewer than 8 bytes are left behind the last one.
  abbrev pub IsTiling : ℕ → ℕ → List NodeDef → Type 0
  IsTiling len offset [] = len < offset + 8
  IsTiling len offset (d ∷ ds) =
      (size : ℕ) × IsSlot d offset size
      × (0 < size)
      × (offset + size ≤ len)
      × IsTiling len (offset + round_up size 8) ds

  -- A definition that the registry reads as a node of that name and size.
  record IsRead (d : NodeDef) (name : List ℕ) (size : ℕ) : Type 0 where
    as_node : Node
    accepted : deserialize_node_inner ids d ≡ ok as_node
    named : (label_of as_node).name ≡ name
    sized : memory_size as_node ≡ size
    shallow : height d ≤ 2

  abbrev bare : List ℕ → Label
  bare name = record { name = name; comment = [] }

module _ (ids : Uuids) (buf : List ℕ) (classify : ℕ → PointerClass)
    (fits : length buf < 2 ^ 64) where
  -- What the loop does with a slot.
  record IsStep (offset : ℕ) (o : Option StringRun) : Type 0 where
    size : ℕ
    slot : IsSlot ids (slot_at buf classify offset o).0 offset size
    advance : (slot_at buf classify offset o).1 ≡ round_up size 8
    some_size : 0 < size
    inside : offset + size ≤ length buf
