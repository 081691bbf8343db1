-- ===== src/Model/Stored.antt =====
-- crates/nemclass-model/src/serialize.rs, error.rs and the `to_node_def` of the nodes: nodes as they are
-- stored.
use nemclass.Common.{ℕ, ◌-◌, ◌^◌, Option, none, some, List, [], ◌∷◌, ltb, if◌then◌else◌, eq_bytes}
use nemclass.Common.Int.{ℤ, pos, negsuc}
use nemclass.Common.Text.{codes}
use nemclass.Model.Node.{
  Leaf, pointer, class_instance, array, utf8_text, utf16_text, function, leaf_tag, Node, leaf,
  vtable, class, Nodes, end, node,
}

-- The messages of the errors are left out; an unknown type keeps its tag, a missing class its id.
pub data ModelError : Type 0 where
  class_referenced : List ℕ → ℕ → ModelError
  class_not_found : ℕ → ModelError
  serialize_error deserialize_error : ModelError
  unknown_node_type : List ℕ → ModelError
  max_depth_exceeded : ℕ → ModelError

-- `toml::Value`, as far as nodes use it.
pub data Value : Type 0 where
  text : List ℕ → Value
  integer : ℤ → Value

-- `n as i64`
unfoldable pub as_i64 : ℕ → ℤ
as_i64 n = if ltb n (2 ^ 63) then pos n else negsuc (2 ^ 64 - n - 1)

-- `i as usize`
unfoldable pub as_usize : ℤ → ℕ
as_usize (pos n) = n
as_usize (negsuc n) = 2 ^ 64 - n - 1

abbrev pub Attrs : Type 0
Attrs = List (List ℕ × Value)

pub record DefHead : Type 0 where
  pub type_tag : List ℕ
  pub name : List ℕ
  pub comment : List ℕ
  pub attrs : Attrs

mutual
  pub data NodeDef : Type 0 where
    node_def : DefHead → NodeDefs → NodeDef

  pub data NodeDefs : Type 0 where
    no_defs : NodeDefs
    defs : NodeDef → NodeDefs → NodeDefs

-- `attrs.get(key)`
unfoldable pub get_attr : Attrs → List ℕ → Option Value
get_attr [] key = none
get_attr ((k, v) ∷ attrs) key =
    let rest = get_attr attrs key in if eq_bytes k key then some v else rest

unfoldable pub text_attr : Attrs → List ℕ → Option (List ℕ)
unfolding get_attr
text_attr attrs key = elim (get_attr attrs key) [ some (text s) ↦ some s | _ ↦ none ]

unfoldable pub integer_attr : Attrs → List ℕ → Option ℤ
unfolding get_attr
integer_attr attrs key = elim (get_attr attrs key) [ some (integer i) ↦ some i | _ ↦ none ]

-- What the crate `uuid` does: the text of an id, the id that a text spells, and a fresh id for a node
-- that is read from a definition without one.
pub record Uuids : Type 0 where
  pub uuid_text : ℕ → List ℕ
  pub parse_uuid : List ℕ → Option ℕ
  pub new_v4 : DefHead → ℕ

module _ (ids : Uuids) where
  unfoldable pub leaf_attrs : Leaf → Attrs
  unfolding as_i64
  leaf_attrs (pointer (some uuid)) = (codes "target_class_uuid", text (ids.uuid_text uuid)) ∷ []
  leaf_attrs (class_instance uuid) = (codes "class_uuid", text (ids.uuid_text uuid)) ∷ []
  leaf_attrs (array count element_size) =
      (codes "count", integer (as_i64 count))
      ∷ (codes "element_size", integer (as_i64 element_size))
      ∷ []
  leaf_attrs (utf8_text n) = (codes "length", integer (as_i64 n)) ∷ []
  leaf_attrs (utf16_text n) = (codes "length", integer (as_i64 n)) ∷ []
  leaf_attrs (function signature) = (codes "signature", text signature) ∷ []
  leaf_attrs _ = []

  -- `to_node_def`, without children.
  unfoldable pub to_node_def : Node → DefHead
  unfolding leaf_attrs leaf_tag
  to_node_def (leaf label l) = record {
    type_tag = leaf_tag l;
    name = label.name;
    comment = label.comment;
    attrs = leaf_attrs l;
  }
  to_node_def (vtable label children) = record {
    type_tag = codes "VTable";
    name = label.name;
    comment = label.comment;
    attrs = [];
  }
  to_node_def (class label uuid formula children) = record {
    type_tag = codes "Class";
    name = label.name;
    comment = label.comment;
    attrs =
        (codes "uuid", text (ids.uuid_text uuid)) ∷ (codes "address_formula", text formula) ∷ [];
  }

  unfoldable mutual
    unfolding to_node_def

    pub serialize_node_recursive : Node → NodeDef
    serialize_node_recursive (leaf label l) = node_def (to_node_def (leaf label l)) no_defs
    serialize_node_recursive (vtable label children) =
        node_def (to_node_def (vtable label children)) (serialize_children children)
    serialize_node_recursive (class label uuid formula children) =
        node_def (to_node_def (class label uuid formula children)) (serialize_children children)

    pub serialize_children : Nodes → NodeDefs
    serialize_children end = no_defs
    serialize_children (node n ns) = defs (serialize_node_recursive n) (serialize_children ns)
