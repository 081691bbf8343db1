-- ===== src/Model/Node.antt =====
-- crates/nemclass-model/src/node: the nodes, their type tags and their sizes.
use nemclass.Common.{
  ℕ, ◌+◌, ◌*◌, min, max, Bool, true, false, ◌&&◌, ◌||◌, Option, none, some, List, [], ◌∷◌, ◌==◌,
  if◌then◌else◌, find, eq_bytes,
}
use nemclass.Common.Text.{codes}
use nemclass.Scan.Target.{usize_max}

abbrev pub saturating_add : ℕ → ℕ → ℕ
saturating_add a b = min (a + b) usize_max

abbrev pub saturating_mul : ℕ → ℕ → ℕ
saturating_mul a b = min (a * b) usize_max

-- The nodes of the macro `simple_node`, which differ in their tag and size.
pub data Simple : Type 0 where
  int8 int16 int32 int64 uint8 uint16 uint32 uint64 float double bool hex8 hex16 hex32 hex64 :
      Simple

pub data FloatWidth : Type 0 where
  f32 f64 : FloatWidth

abbrev pub eq_width : FloatWidth → FloatWidth → Bool
eq_width f32 f32 = true
eq_width f64 f64 = true
eq_width f32 f64 = false
eq_width f64 f32 = false

unfoldable pub width_size : FloatWidth → ℕ
width_size f32 = 4
width_size f64 = 8

-- What the nodes without children hold.
pub data Leaf : Type 0 where
  simple : Simple → Leaf
  pointer : Option ℕ → Leaf
  class_instance : ℕ → Leaf
  array : ℕ → ℕ → Leaf
  utf8_text utf16_text : ℕ → Leaf
  str_ptr : Leaf
  vector : ℕ → FloatWidth → Leaf
  matrix : ℕ → ℕ → FloatWidth → Leaf
  vmethod : Leaf
  function : List ℕ → Leaf
  function_ptr : Leaf

pub record Label : Type 0 where
  pub name : List ℕ
  pub comment : List ℕ

-- A class as a node: its id and its address formula, and its children.
mutual
  pub data Node : Type 0 where
    leaf : Label → Leaf → Node
    vtable : Label → Nodes → Node
    class : Label → ℕ → List ℕ → Nodes → Node

  pub data Nodes : Type 0 where
    end : Nodes
    node : Node → Nodes → Nodes

unfoldable pub simple_tag : Simple → List ℕ
simple_tag int8 = codes "Int8"
simple_tag int16 = codes "Int16"
simple_tag int32 = codes "Int32"
simple_tag int64 = codes "Int64"
simple_tag uint8 = codes "UInt8"
simple_tag uint16 = codes "UInt16"
simple_tag uint32 = codes "UInt32"
simple_tag uint64 = codes "UInt64"
simple_tag float = codes "Float"
simple_tag double = codes "Double"
simple_tag bool = codes "Bool"
simple_tag hex8 = codes "Hex8"
simple_tag hex16 = codes "Hex16"
simple_tag hex32 = codes "Hex32"
simple_tag hex64 = codes "Hex64"

unfoldable pub simple_size : Simple → ℕ
simple_size int8 = 1
simple_size int16 = 2
simple_size int32 = 4
simple_size int64 = 8
simple_size uint8 = 1
simple_size uint16 = 2
simple_size uint32 = 4
simple_size uint64 = 8
simple_size float = 4
simple_size double = 8
simple_size bool = 1
simple_size hex8 = 1
simple_size hex16 = 2
simple_size hex32 = 4
simple_size hex64 = 8

abbrev pub VectorShape : Type 0
VectorShape = List ℕ × ℕ × FloatWidth

abbrev pub vector_shapes : List VectorShape
vector_shapes =
    (codes "Vector2", 2, f32)
    ∷ (codes "Vector3", 3, f32)
    ∷ (codes "Vector4", 4, f32)
    ∷ (codes "Vector2d", 2, f64)
    ∷ (codes "Vector3d", 3, f64)
    ∷ (codes "Vector4d", 4, f64)
    ∷ []

abbrev pub MatrixShape : Type 0
MatrixShape = List ℕ × ℕ × ℕ × FloatWidth

abbrev pub matrix_shapes : List MatrixShape
matrix_shapes =
    (codes "Matrix3x3", 3, 3, f32)
    ∷ (codes "Matrix3x4", 3, 4, f32)
    ∷ (codes "Matrix4x4", 4, 4, f32)
    ∷ (codes "Matrix3x3d", 3, 3, f64)
    ∷ (codes "Matrix3x4d", 3, 4, f64)
    ∷ (codes "Matrix4x4d", 4, 4, f64)
    ∷ []

unfoldable pub vector_tag : ℕ → FloatWidth → List ℕ
vector_tag components width =
    elim (find (λ (s : VectorShape). s.1 == components && eq_width s.2 width) vector_shapes) [
      | none ↦ elim width [ f32 ↦ codes "Vector3" | f64 ↦ codes "Vector3d" ]
      | some s ↦ s.0
    ]

unfoldable pub matrix_tag : ℕ → ℕ → FloatWidth → List ℕ
matrix_tag rows cols width =
    elim (find (λ (s : MatrixShape). s.1 == rows && s.2 == cols && eq_width s.3 width)
      matrix_shapes) [
        | none ↦ elim width [ f32 ↦ codes "Matrix4x4" | f64 ↦ codes "Matrix4x4d" ]
        | some s ↦ s.0
      ]

unfoldable pub vector_shape : List ℕ → Option (ℕ × FloatWidth)
vector_shape tag = elim (find (λ (s : VectorShape). eq_bytes s.0 tag) vector_shapes) [
  | none ↦ none
  | some s ↦ some (s.1, s.2)
]

unfoldable pub matrix_shape : List ℕ → Option (ℕ × ℕ × FloatWidth)
matrix_shape tag = elim (find (λ (s : MatrixShape). eq_bytes s.0 tag) matrix_shapes) [
  | none ↦ none
  | some s ↦ some (s.1, s.2, s.3)
]

-- `VectorNode::new`
unfoldable pub new_vector : ℕ → FloatWidth → Leaf
new_vector components width = vector (max 2 (min components 4)) width

-- `MatrixNode::new`
unfoldable pub new_matrix : ℕ → ℕ → FloatWidth → Leaf
new_matrix rows cols width =
    if rows == 3 && cols == 3 || rows == 3 && cols == 4 || rows == 4 && cols == 4
    then matrix rows cols width
    else matrix 4 4 width

unfoldable pub leaf_tag : Leaf → List ℕ
unfolding simple_tag vector_tag matrix_tag
leaf_tag (simple s) = simple_tag s
leaf_tag (pointer target) = codes "Pointer"
leaf_tag (class_instance uuid) = codes "ClassInstance"
leaf_tag (array count element_size) = codes "Array"
leaf_tag (utf8_text length') = codes "Utf8Text"
leaf_tag (utf16_text length') = codes "Utf16Text"
leaf_tag str_ptr = codes "StrPtr"
leaf_tag (vector components width) = vector_tag components width
leaf_tag (matrix rows cols width) = matrix_tag rows cols width
leaf_tag vmethod = codes "VMethod"
leaf_tag (function signature) = codes "Function"
leaf_tag function_ptr = codes "FunctionPtr"

unfoldable pub leaf_size : Leaf → ℕ
unfolding simple_size width_size
leaf_size (simple s) = simple_size s
leaf_size (pointer target) = 8
leaf_size (class_instance uuid) = 0
leaf_size (array count element_size) = saturating_mul count element_size
leaf_size (utf8_text length') = length'
leaf_size (utf16_text length') = length'
leaf_size str_ptr = 8
leaf_size (vector components width) = components * width_size width
leaf_size (matrix rows cols width) = rows * cols * width_size width
leaf_size vmethod = 8
leaf_size (function signature) = 8
leaf_size function_ptr = 8

-- `memory_size`: a class is as large as its children, folded from the left.
unfoldable mutual
  unfolding leaf_size

  pub memory_size : Node → ℕ
  memory_size (leaf label l) = leaf_size l
  memory_size (vtable label children) = 8
  memory_size (class label uuid formula children) = sum_sizes children 0

  pub sum_sizes : Nodes → ℕ → ℕ
  sum_sizes end total = total
  sum_sizes (node n ns) total = sum_sizes ns (saturating_add total (memory_size n))

abbrev pub label_of : Node → Label
label_of (leaf label l) = label
label_of (vtable label children) = label
label_of (class label uuid formula children) = label
