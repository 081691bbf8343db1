-- ===== src/Model/Printed.antt =====
-- crates/nemclass-model/src/codegen/mod.rs: what the field of a node is, read off the node itself and
-- not off its stored form.
use mathlib.Core.Path.{ap₂}
use nemclass.Common.{
  ℕ, ◌≡◌, refl, sym, ap, inl, inr, Bool, Option, none, some, List, [], ◌∷◌, ◌++◌, Option-cases,
}
use nemclass.Common.Text.{codes}
use nemclass.Model.Node.{
  saturating_mul, Simple, int8, int16, int32, int64, uint8, uint16, uint32, uint64, float, double,
  bool, hex8, hex16, hex32, hex64, f32, f64, Leaf, simple, pointer, class_instance, array,
  utf8_text, utf16_text, str_ptr, vector, matrix, vmethod, function, function_ptr, leaf_tag, Label,
  Node, leaf, vtable, class, Nodes, end, node, label_of, memory_size,
}
use nemclass.Model.Stored.{Uuids, leaf_attrs, to_node_def}
use nemclass.Model.Reload.{IsUuids, IsLeaf, IsNode, as_usize-as_i64, of_components, of_shape}
use nemclass.Model.Project.{ClassNode, Project, get_class}
use nemclass.Model.Sizes.{embedded_uuid, resolved_node_size}
use nemclass.Model.Fields.{
  prim_int8, prim_int16, prim_int32, prim_int64, prim_uint8, prim_uint16, prim_uint32, prim_uint64,
  prim_float, prim_double, prim_bool, FieldKind, primitive, raw_bytes, pointer_field, class_field,
  array_field, utf8_field, utf16_field, vector_field, matrix_field, FieldInfo, sanitize_ident,
  named, with_note, class_kind, field_kind, field_of,
}

abbrev pub simple_kind : Simple → FieldKind
simple_kind int8 = primitive prim_int8
simple_kind int16 = primitive prim_int16
simple_kind int32 = primitive prim_int32
simple_kind int64 = primitive prim_int64
simple_kind uint8 = primitive prim_uint8
simple_kind uint16 = primitive prim_uint16
simple_kind uint32 = primitive prim_uint32
simple_kind uint64 = primitive prim_uint64
simple_kind float = primitive prim_float
simple_kind double = primitive prim_double
simple_kind bool = primitive prim_bool
simple_kind hex8 = raw_bytes 1
simple_kind hex16 = raw_bytes 2
simple_kind hex32 = raw_bytes 4
simple_kind hex64 = raw_bytes 8

module _ (alphanumeric : ℕ → Bool) (ids : Uuids) (p : Project) where
  -- A pointer to a class of the project knows the name of its type.
  abbrev pub target_name : Option ClassNode → Option (List ℕ)
  target_name none = none
  target_name (some c) = some (sanitize_ident alphanumeric c.name)

  -- The note on an embedded class that the project does not have.
  abbrev pub unresolved : List ℕ → ℕ → List ℕ
  unresolved [] u = codes "UNRESOLVED " ++ ids.uuid_text u
  unresolved (c ∷ cs) u = ((c ∷ cs) ++ codes " ") ++ (codes "UNRESOLVED " ++ ids.uuid_text u)

  abbrev pub embedded_field : List ℕ → ℕ → Option ClassNode → FieldKind × List ℕ
  embedded_field comment u none = (raw_bytes 0, unresolved comment u)
  embedded_field comment u (some c) = (class_field (sanitize_ident alphanumeric c.name), comment)

  abbrev pub leaf_field : List ℕ → Leaf → FieldKind × List ℕ
  leaf_field comment (simple s) = (simple_kind s, comment)
  leaf_field comment (pointer none) = (pointer_field none, comment)
  leaf_field comment (pointer (some u)) = (pointer_field (target_name (get_class p u)), comment)
  leaf_field comment (class_instance u) = embedded_field comment u (get_class p u)
  leaf_field comment (array count element_size) =
      (array_field (saturating_mul count element_size), comment)
  leaf_field comment (utf8_text n) = (utf8_field n, comment)
  leaf_field comment (utf16_text n) = (utf16_field n, comment)
  leaf_field comment str_ptr = (pointer_field none, comment)
  leaf_field comment (vector components width) = (vector_field components width, comment)
  leaf_field comment (matrix rows cols width) = (matrix_field rows cols width, comment)
  leaf_field comment vmethod = (raw_bytes 8, comment)
  leaf_field comment (function signature) = (raw_bytes 8, comment)
  leaf_field comment function_ptr = (raw_bytes 8, comment)

  -- The kind of the field of a node, and its comment.
  abbrev pub node_field : Node → FieldKind × List ℕ
  node_field (leaf label l) = leaf_field label.comment l
  node_field (vtable label children) = (raw_bytes 8, label.comment)
  node_field (class label uuid formula children) =
      (raw_bytes (memory_size (class label uuid formula children)), label.comment)

  -- The field of a node: its name as an identifier, and its kind and comment.
  pub record IsFieldOf (n : Node) (f : FieldInfo) : Type 0 where
    pub named : f.name ≡ sanitize_ident alphanumeric (label_of n).name
    pub drawn : (f.kind, f.comment) ≡ node_field n

  -- The fields of the nodes, one for each and in their order.
  abbrev pub IsEach : Nodes → List FieldInfo → Type 0
  IsEach end [] = Unit {0}
  IsEach end (f ∷ fields) = ⊥
  IsEach (node n ns) [] = ⊥
  IsEach (node n ns) (f ∷ fields) = IsFieldOf n f × IsEach ns fields

  named_same : (o : Option ClassNode) → named alphanumeric ids p o ≡ target_name o
  named_same none = refl
  named_same (some c) = refl

  embedded_same :
      (comment : List ℕ) (u : ℕ)
      → class_kind alphanumeric ids p comment (some u) ≡ embedded_field comment u (get_class p u)
  embedded_same comment u = elim (Option-cases (get_class p u)) [
    | inl missing ↦ rw (missing, class_kind) (ap (λ note. (raw_bytes 0, note)) (note_same comment))
    | inr (c, found) ↦ rw (found, class_kind) refl
  ]
    where
      note_same :
          (comment : List ℕ)
          → with_note alphanumeric ids p comment (codes "UNRESOLVED " ++ ids.uuid_text u)
            ≡ unresolved comment u
      note_same [] = refl
      note_same (c ∷ cs) = refl

  module _ (law : IsUuids ids) where
    leaf_field_lem :
        (label : Label) (l : Leaf) (comment : List ℕ) (size : ℕ)
        → IsLeaf l
        → (enter : List ℕ → ClassNode → Option ℕ)
        → resolved_node_size ids p enter [] (leaf label l) ≡ some size
        → field_kind alphanumeric ids p (to_node_def ids (leaf label l)) comment size
          ≡ leaf_field comment l
    unfolding field_kind to_node_def leaf_attrs leaf_tag resolved_node_size embedded_uuid
    leaf_field_lem label (simple int8) comment size h enter e = refl
    leaf_field_lem label (simple int16) comment size h enter e = refl
    leaf_field_lem label (simple int32) comment size h enter e = refl
    leaf_field_lem label (simple int64) comment size h enter e = refl
    leaf_field_lem label (simple uint8) comment size h enter e = refl
    leaf_field_lem label (simple uint16) comment size h enter e = refl
    leaf_field_lem label (simple uint32) comment size h enter e = refl
    leaf_field_lem label (simple uint64) comment size h enter e = refl
    leaf_field_lem label (simple float) comment size h enter e = refl
    leaf_field_lem label (simple double) comment size h enter e = refl
    leaf_field_lem label (simple bool) comment size h enter e = refl
    leaf_field_lem label (simple hex8) comment size h enter e = refl
    leaf_field_lem label (simple hex16) comment size h enter e = refl
    leaf_field_lem label (simple hex32) comment size h enter e = refl
    leaf_field_lem label (simple hex64) comment size h enter e = refl
    leaf_field_lem label (pointer none) comment size h enter e = refl
    leaf_field_lem label (pointer (some u)) comment size h enter e =
        rw (law.reads_back u) (ap (λ t. (pointer_field t, comment)) (named_same (get_class p u)))
    leaf_field_lem label (class_instance u) comment size h enter e =
        rw (law.reads_back u) (embedded_same comment u)
    leaf_field_lem label (array count element_size) comment size h enter e =
        ap₂ (λ a b. (array_field (saturating_mul a b), comment)) (as_usize-as_i64 count h.0)
          (as_usize-as_i64 element_size h.1)
    leaf_field_lem label (utf8_text n) comment size h enter e =
        ap (λ a. (utf8_field a, comment)) (as_usize-as_i64 n h)
    leaf_field_lem label (utf16_text n) comment size h enter e =
        ap (λ a. (utf16_field a, comment)) (as_usize-as_i64 n h)
    leaf_field_lem label str_ptr comment size h enter e = refl
    leaf_field_lem label (vector components f32) comment size h enter e =
        of_components
          (λ c.
            field_kind alphanumeric ids p (to_node_def ids (leaf label (vector c f32))) comment size
            ≡ (vector_field c f32, comment))
          components h refl refl refl
    leaf_field_lem label (vector components f64) comment size h enter e =
        of_components
          (λ c.
            field_kind alphanumeric ids p (to_node_def ids (leaf label (vector c f64))) comment size
            ≡ (vector_field c f64, comment))
          components h refl refl refl
    leaf_field_lem label (matrix rows cols f32) comment size h enter e =
        of_shape
          (λ r c.
            field_kind alphanumeric ids p (to_node_def ids (leaf label (matrix r c f32))) comment
              size
            ≡ (matrix_field r c f32, comment))
          rows cols h refl refl refl
    leaf_field_lem label (matrix rows cols f64) comment size h enter e =
        of_shape
          (λ r c.
            field_kind alphanumeric ids p (to_node_def ids (leaf label (matrix r c f64))) comment
              size
            ≡ (matrix_field r c f64, comment))
          rows cols h refl refl refl
    leaf_field_lem label vmethod comment size h enter e =
        let same : 8 ≡ size = cc in ap (λ s. (raw_bytes s, comment)) (sym same)
    leaf_field_lem label (function signature) comment size h enter e =
        let same : 8 ≡ size = cc in ap (λ s. (raw_bytes s, comment)) (sym same)
    leaf_field_lem label function_ptr comment size h enter e =
        let same : 8 ≡ size = cc in ap (λ s. (raw_bytes s, comment)) (sym same)

    -- The field of a node, where its size is the one that the layout counts.
    pub field_of-IsFieldOf :
        (n : Node) (offset size : ℕ) (enter : List ℕ → ClassNode → Option ℕ)
        → IsNode n
        → resolved_node_size ids p enter [] n ≡ some size
        → IsFieldOf n (field_of alphanumeric ids p n offset size)
    unfolding field_of to_node_def field_kind resolved_node_size IsNode
    field_of-IsFieldOf (leaf label l) offset size enter h e = record {
      named = refl;
      drawn = leaf_field_lem label l label.comment size h enter e;
    }
    field_of-IsFieldOf (vtable label children) offset size enter h e =
        let same : 8 ≡ size = cc in
        record { named = refl; drawn = ap (λ s. (raw_bytes s, label.comment)) (sym same) }
    field_of-IsFieldOf (class label uuid formula children) offset size enter h e =
        let same : memory_size (class label uuid formula children) ≡ size = cc in
        record { named = refl; drawn = ap (λ s. (raw_bytes s, label.comment)) (sym same) }
