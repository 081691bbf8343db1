-- ===== src/Model/Registry.antt =====
-- crates/nemclass-model/src/node/registry.rs: nodes read back from their stored form.
use nemclass.Common.{
  ℕ, zero, suc, ◌+◌, Option, none, some, List, [], ◌∷◌, ltb, if◌then◌else◌, eq_bytes,
}
use nemclass.Common.Outcome.{Outcome, ok, err, diverged, ◌>>=◌, ◌>>◌}
use nemclass.Common.Int.{ℤ}
use nemclass.Common.Text.{codes}
use nemclass.Model.Node.{
  Simple, int8, int16, int32, int64, uint8, uint16, uint32, uint64, float, double, bool, hex8,
  hex16, hex32, hex64, FloatWidth, f32, f64, Leaf, simple, pointer, class_instance, array,
  utf8_text, utf16_text, str_ptr, vmethod, function, function_ptr, new_vector, new_matrix, Label,
  Node, leaf, vtable, class, Nodes, end, node,
}
use nemclass.Model.Stored.{
  ModelError, deserialize_error, unknown_node_type, max_depth_exceeded, as_usize, Attrs, DefHead,
  NodeDef, node_def, NodeDefs, no_defs, defs, text_attr, integer_attr, Uuids,
}

abbrev pub max_node_depth : ℕ
max_node_depth = 128

-- The children of a popped node, pushed one after the other: the last one is on top.
unfoldable pub push_children : NodeDefs → ℕ → List (NodeDef × ℕ) → List (NodeDef × ℕ)
push_children no_defs depth stack = stack
push_children (defs d ds) depth stack = push_children ds depth ((d, depth) ∷ stack)

-- `while let Some((d, depth)) = stack.pop()`, on fuel.
unfoldable pub depth_loop : ℕ → List (NodeDef × ℕ) → Outcome ModelError (Unit {0})
unfolding push_children
depth_loop fuel [] = ok tt
depth_loop zero (entry ∷ stack) = diverged
depth_loop (suc fuel) ((node_def head children, depth) ∷ stack) =
    let rest = depth_loop fuel (push_children children (depth + 1) stack) in
    if ltb max_node_depth depth then err (max_depth_exceeded max_node_depth) else rest

-- The nodes of a tree: one unit of fuel for each.
unfoldable mutual
  pub count_nodes : NodeDef → ℕ
  count_nodes (node_def head children) = suc (count_children children)

  pub count_children : NodeDefs → ℕ
  count_children no_defs = 0
  count_children (defs d ds) = count_nodes d + count_children ds

unfoldable pub check_node_depth : NodeDef → Outcome ModelError (Unit {0})
unfolding depth_loop count_nodes
check_node_depth d = depth_loop (count_nodes d) ((d, 1) ∷ [])

-- What is registered under the built-in tags.
pub data NodeType : Type 0 where
  of_simple : Simple → NodeType
  of_pointer of_class_instance of_array of_utf8_text of_utf16_text of_str_ptr : NodeType
  of_vector : ℕ → FloatWidth → NodeType
  of_matrix : ℕ → ℕ → FloatWidth → NodeType
  of_vtable of_vmethod of_function of_function_ptr of_class : NodeType

abbrev pub entries : List (List ℕ × NodeType)
entries =
    (codes "Int8", of_simple int8)
    ∷ (codes "Int16", of_simple int16)
    ∷ (codes "Int32", of_simple int32)
    ∷ (codes "Int64", of_simple int64)
    ∷ (codes "UInt8", of_simple uint8)
    ∷ (codes "UInt16", of_simple uint16)
    ∷ (codes "UInt32", of_simple uint32)
    ∷ (codes "UInt64", of_simple uint64)
    ∷ (codes "Float", of_simple float)
    ∷ (codes "Double", of_simple double)
    ∷ (codes "Bool", of_simple bool)
    ∷ (codes "Hex8", of_simple hex8)
    ∷ (codes "Hex16", of_simple hex16)
    ∷ (codes "Hex32", of_simple hex32)
    ∷ (codes "Hex64", of_simple hex64)
    ∷ (codes "Pointer", of_pointer)
    ∷ (codes "ClassInstance", of_class_instance)
    ∷ (codes "Array", of_array)
    ∷ (codes "Utf8Text", of_utf8_text)
    ∷ (codes "Utf16Text", of_utf16_text)
    ∷ (codes "StrPtr", of_str_ptr)
    ∷ (codes "Vector2", of_vector 2 f32)
    ∷ (codes "Vector3", of_vector 3 f32)
    ∷ (codes "Vector4", of_vector 4 f32)
    ∷ (codes "Vector2d", of_vector 2 f64)
    ∷ (codes "Vector3d", of_vector 3 f64)
    ∷ (codes "Vector4d", of_vector 4 f64)
    ∷ (codes "Matrix3x3", of_matrix 3 3 f32)
    ∷ (codes "Matrix3x4", of_matrix 3 4 f32)
    ∷ (codes "Matrix4x4", of_matrix 4 4 f32)
    ∷ (codes "Matrix3x3d", of_matrix 3 3 f64)
    ∷ (codes "Matrix3x4d", of_matrix 3 4 f64)
    ∷ (codes "Matrix4x4d", of_matrix 4 4 f64)
    ∷ (codes "VTable", of_vtable)
    ∷ (codes "VMethod", of_vmethod)
    ∷ (codes "Function", of_function)
    ∷ (codes "FunctionPtr", of_function_ptr)
    ∷ (codes "Class", of_class)
    ∷ []

unfoldable pub find_entry : List (List ℕ × NodeType) → List ℕ → Option NodeType
find_entry [] tag = none
find_entry ((t, ty) ∷ table) tag =
    let rest = find_entry table tag in if eq_bytes t tag then some ty else rest

abbrev pub or_default {ℓ} : {A : Type ℓ} → Option A → A → A
or_default none a = a
or_default (some b) a = b

-- An integer of the attributes as a usize.
abbrev pub usize_or : ℕ → Option ℤ → ℕ
usize_or n none = n
usize_or n (some i) = as_usize i

module _ (ids : Uuids) where
  -- The leaf that is read from the attributes.
  unfoldable pub read_leaf : NodeType → Attrs → Option Leaf
  unfolding text_attr integer_attr as_usize new_vector new_matrix
  read_leaf (of_simple s) attrs = some (simple s)
  read_leaf of_pointer attrs = elim (text_attr attrs (codes "target_class_uuid")) [
    | none ↦ some (pointer none)
    | some s ↦ some (pointer (ids.parse_uuid s))
  ]
  read_leaf of_class_instance attrs = some (
      class_instance
        (or_default (ids.parse_uuid (or_default (text_attr attrs (codes "class_uuid")) [])) 0))
  read_leaf of_array attrs = some (
      array (usize_or 0 (integer_attr attrs (codes "count")))
        (usize_or 1 (integer_attr attrs (codes "element_size"))))
  read_leaf of_utf8_text attrs =
      some (utf8_text (usize_or 64 (integer_attr attrs (codes "length"))))
  read_leaf of_utf16_text attrs =
      some (utf16_text (usize_or 64 (integer_attr attrs (codes "length"))))
  read_leaf of_str_ptr attrs = some str_ptr
  read_leaf (of_vector components width) attrs = some (new_vector components width)
  read_leaf (of_matrix rows cols width) attrs = some (new_matrix rows cols width)
  read_leaf of_vmethod attrs = some vmethod
  read_leaf of_function attrs =
      some (function (or_default (text_attr attrs (codes "signature")) (codes "void Func()")))
  read_leaf of_function_ptr attrs = some function_ptr
  read_leaf of_vtable attrs = none
  read_leaf of_class attrs = none

  abbrev pub label_of_head : DefHead → Label
  label_of_head head = record { name = head.name; comment = head.comment }

  -- The id that a text spells: a new one for an empty text, and an error for a text that spells none.
  abbrev pub uuid_of_text : List ℕ → ℕ → Outcome ModelError ℕ
  uuid_of_text [] fresh = ok fresh
  uuid_of_text (c ∷ cs) fresh = elim (ids.parse_uuid (c ∷ cs)) [
    | none ↦ err deserialize_error
    | some uuid ↦ ok uuid
  ]

  unfoldable pub read_class_uuid : DefHead → Outcome ModelError ℕ
  unfolding text_attr
  read_class_uuid head =
      uuid_of_text (or_default (text_attr head.attrs (codes "uuid")) []) (ids.new_v4 head)

  abbrev pub leaf_or_error : DefHead → Option Leaf → Outcome ModelError Node
  leaf_or_error head none = err (unknown_node_type head.type_tag)
  leaf_or_error head (some l) = ok (leaf (label_of_head head) l)

  -- The constructor that an entry runs, on children that are read where it has them.
  unfoldable pub run_entry : DefHead → Outcome ModelError Nodes → NodeType → Outcome ModelError Node
  unfolding read_leaf read_class_uuid text_attr
  run_entry head children of_vtable = do ns ← children; ok (vtable (label_of_head head) ns)
  run_entry head children of_class = do
    uuid ← read_class_uuid head
    ns ← children
    ok (
        class (label_of_head head) uuid
          (or_default (text_attr head.attrs (codes "address_formula")) []) ns)
  run_entry head children ty = leaf_or_error head (read_leaf ty head.attrs)

  abbrev pub entry_or_error :
      DefHead → Outcome ModelError Nodes → Option NodeType → Outcome ModelError Node
  entry_or_error head children none = err (unknown_node_type head.type_tag)
  entry_or_error head children (some ty) = run_entry head children ty

  unfoldable pub assemble : DefHead → Outcome ModelError Nodes → Outcome ModelError Node
  unfolding find_entry
  assemble head children = entry_or_error head children (find_entry entries head.type_tag)

  unfoldable mutual
    unfolding assemble

    pub deserialize_node_inner : NodeDef → Outcome ModelError Node
    deserialize_node_inner (node_def head children) = assemble head (deserialize_children children)

    pub deserialize_children : NodeDefs → Outcome ModelError Nodes
    deserialize_children no_defs = ok end
    deserialize_children (defs d ds) = do
      n ← deserialize_node_inner d
      ns ← deserialize_children ds
      ok (node n ns)

  unfoldable pub deserialize_node : NodeDef → Outcome ModelError Node
  unfolding check_node_depth deserialize_node_inner
  deserialize_node d = check_node_depth d >> deserialize_node_inner d
