-- ===== src/Model/Fields.antt =====
-- crates/nemclass-model/src/codegen/mod.rs: the fields of a class, as the generators print them.
use nemclass.Common.{
  ℕ, Bool, ◌&&◌, ◌||◌, Option, none, some, List, [], ◌∷◌, ◌++◌, map, leb, ◌==◌, if◌then◌else◌,
  length,
}
use nemclass.Common.Text.{codes, match_text}
use nemclass.Pointer.Path.{◌>>=◌}
use nemclass.Model.Node.{
  saturating_add, saturating_mul, FloatWidth, vector_shape, matrix_shape, Node, Nodes, end, node,
  label_of,
}
use nemclass.Model.Stored.{DefHead, text_attr, integer_attr, Uuids, to_node_def}
use nemclass.Model.Registry.{usize_or}
use nemclass.Model.Project.{ClassNode, Project, get_class}
use nemclass.Model.Sizes.{embedded_uuid, resolved_node_size, resolved_size}

pub data PrimKind : Type 0 where
  prim_int8 prim_int16 prim_int32 prim_int64 prim_uint8 prim_uint16 prim_uint32 prim_uint64
        prim_float prim_double prim_bool :
      PrimKind

pub data FieldKind : Type 0 where
  primitive : PrimKind → FieldKind
  raw_bytes : ℕ → FieldKind
  pointer_field : Option (List ℕ) → FieldKind
  class_field : List ℕ → FieldKind
  array_field utf8_field utf16_field : ℕ → FieldKind
  vector_field : ℕ → FloatWidth → FieldKind
  matrix_field : ℕ → ℕ → FloatWidth → FieldKind

pub record FieldInfo : Type 0 where
  pub name : List ℕ
  pub offset : ℕ
  pub kind : FieldKind
  pub comment : List ℕ

-- The arms of the match whose kind is fixed.
unfoldable pub fixed_kind : List ℕ → Option FieldKind
unfolding match_text
fixed_kind tag = match_text tag (
    ("Int8", primitive prim_int8)
    ∷ ("Int16", primitive prim_int16)
    ∷ ("Int32", primitive prim_int32)
    ∷ ("Int64", primitive prim_int64)
    ∷ ("UInt8", primitive prim_uint8)
    ∷ ("UInt16", primitive prim_uint16)
    ∷ ("UInt32", primitive prim_uint32)
    ∷ ("UInt64", primitive prim_uint64)
    ∷ ("Float", primitive prim_float)
    ∷ ("Double", primitive prim_double)
    ∷ ("Bool", primitive prim_bool)
    ∷ ("Hex8", raw_bytes 1)
    ∷ ("Hex16", raw_bytes 2)
    ∷ ("Hex32", raw_bytes 4)
    ∷ ("Hex64", raw_bytes 8)
    ∷ ("StrPtr", pointer_field none)
    ∷ [])

-- The arms whose kind is read from the attributes.
pub data ReadArm : Type 0 where
  pointer_arm class_arm array_arm utf8_arm utf16_arm : ReadArm

unfoldable pub read_arm : List ℕ → Option ReadArm
unfolding match_text
read_arm tag = match_text tag (
    ("Pointer", pointer_arm)
    ∷ ("ClassInstance", class_arm)
    ∷ ("Array", array_arm)
    ∷ ("Utf8Text", utf8_arm)
    ∷ ("Utf16Text", utf16_arm)
    ∷ [])

-- `alphanumeric` is `char::is_alphanumeric`.
module _ (alphanumeric : ℕ → Bool) where
  abbrev pub ident_char : ℕ → ℕ
  ident_char c = if alphanumeric c || c == 95 then c else 95

  abbrev pub prefix_digit : List ℕ → List ℕ
  prefix_digit [] = []
  prefix_digit (c ∷ cs) = if leb 48 c && leb c 57 then 95 ∷ c ∷ cs else c ∷ cs

  unfoldable pub sanitize_ident : List ℕ → List ℕ
  sanitize_ident [] = codes "_unnamed"
  sanitize_ident (c ∷ cs) = prefix_digit (map ident_char (c ∷ cs))

  module _ (ids : Uuids) (p : Project) where
    abbrev pub named : Option ClassNode → Option (List ℕ)
    named none = none
    named (some c) = some (sanitize_ident c.name)

    abbrev pub with_note : List ℕ → List ℕ → List ℕ
    with_note [] note = note
    with_note (c ∷ cs) note = (c ∷ cs) ++ codes " " ++ note

    -- An embedded class: its type, or no bytes and a note.
    abbrev pub class_kind : List ℕ → Option ℕ → FieldKind × List ℕ
    class_kind comment none =
        (raw_bytes 0, with_note comment (codes "UNRESOLVED (missing class_uuid)"))
    class_kind comment (some uuid) = elim (get_class p uuid) [
      | some c ↦ (class_field (sanitize_ident c.name), comment)
      | none ↦ (raw_bytes 0, with_note comment (codes "UNRESOLVED " ++ ids.uuid_text uuid))
    ]

    -- The last arms: vectors, matrices, and anything else as bytes.
    abbrev pub shaped_kind : Option (ℕ × FloatWidth) → Option (ℕ × ℕ × FloatWidth) → ℕ → FieldKind
    shaped_kind (some (components, width)) m size = vector_field components width
    shaped_kind none (some (rows, cols, width)) size = matrix_field rows cols width
    shaped_kind none none size = raw_bytes size

    abbrev pub arm_kind : DefHead → List ℕ → ReadArm → FieldKind × List ℕ
    arm_kind def comment pointer_arm = (
      pointer_field (
          named
            ((text_attr def.attrs (codes "target_class_uuid") >>= ids.parse_uuid) >>= get_class p)),
      comment,
    )
    arm_kind def comment class_arm = class_kind comment (embedded_uuid ids p def)
    arm_kind def comment array_arm = (
      array_field (
          saturating_mul (usize_or 0 (integer_attr def.attrs (codes "count")))
            (usize_or 1 (integer_attr def.attrs (codes "element_size")))),
      comment,
    )
    arm_kind def comment utf8_arm =
        (utf8_field (usize_or 0 (integer_attr def.attrs (codes "length"))), comment)
    arm_kind def comment utf16_arm =
        (utf16_field (usize_or 0 (integer_attr def.attrs (codes "length"))), comment)

    -- The kind of a field and its comment, from the definition and the size that it contributes.
    unfoldable pub field_kind : DefHead → List ℕ → ℕ → FieldKind × List ℕ
    unfolding fixed_kind read_arm vector_shape matrix_shape text_attr integer_attr embedded_uuid
        sanitize_ident get_class
    field_kind def comment size = elim (fixed_kind def.type_tag) [
      | some kind ↦ (kind, comment)
      | none ↦ elim (read_arm def.type_tag) [
        | some arm ↦ arm_kind def comment arm
        | none ↦ (shaped_kind (vector_shape def.type_tag) (matrix_shape def.type_tag) size, comment)
      ]
    ]

    unfoldable pub field_of : Node → ℕ → ℕ → FieldInfo
    unfolding field_kind to_node_def sanitize_ident
    field_of n offset size =
        let (kind, comment) = field_kind (to_node_def ids n) (label_of n).comment size in
        record {
          name = sanitize_ident (label_of n).name;
          offset = offset;
          kind = kind;
          comment = comment;
        }

    -- The loop over the children; the set of visited classes is empty before and behind each of them.
    unfoldable pub fields_from : ℕ → Nodes → ℕ → Option (List FieldInfo)
    unfolding field_of resolved_node_size resolved_size
    fields_from fuel end offset = some []
    fields_from fuel (node n ns) offset = do
      size ← resolved_node_size ids p (λ v d. resolved_size ids p fuel v d) [] n
      fields ← fields_from fuel ns (saturating_add offset size)
      some (field_of n offset size ∷ fields)

    unfoldable pub resolve_fields : ClassNode → Option (List FieldInfo)
    unfolding fields_from
    resolve_fields c = fields_from (length p.classes) c.children 0
