-- ===== src/Model/Reload.antt =====
-- crates/nemclass-model/src/node: a stored node is read back as it was.
use mathlib.Core.Path.{ap₂, subst}
use nemclass.Common.{
  ℕ, ◌^◌, ◌<◌, ◌≡◌, refl, sym, ap, ◌∙◌, ◌≢◌, ◌⊎◌, inl, inr, none, some, List, [], ◌∷◌, arith, ltb,
  Bool-cases,
}
use nemclass.Common.Outcome.{Outcome, ok, err, ◌>>=◌}
use nemclass.Model.Node.{
  int8, int16, int32, int64, uint8, uint16, uint32, uint64, float, double, bool, hex8, hex16, hex32,
  hex64, f32, f64, Leaf, simple, pointer, class_instance, array, utf8_text, utf16_text, str_ptr,
  vector, matrix, vmethod, function, function_ptr, leaf_tag, Label, Node, leaf, vtable, class,
  Nodes, end, node,
}
use nemclass.Model.Stored.{
  ModelError, deserialize_error, as_i64, as_usize, DefHead, text_attr, integer_attr, Uuids,
  leaf_attrs, to_node_def, serialize_node_recursive, serialize_children,
}
use nemclass.Model.Registry.{
  NodeType, of_simple, of_pointer, of_class_instance, of_array, of_utf8_text, of_utf16_text,
  of_str_ptr, of_vector, of_matrix, of_vmethod, of_function, of_function_ptr, find_entry, entries,
  read_leaf, leaf_or_error, run_entry, entry_or_error, uuid_of_text, read_class_uuid, assemble,
  deserialize_node_inner, deserialize_children,
}

-- The text of an id spells that id, and is not empty.
pub record IsUuids (ids : Uuids) : Type 0 where
  pub reads_back : (u : ℕ) → ids.parse_uuid (ids.uuid_text u) ≡ some u
  pub not_empty : (u : ℕ) → ids.uuid_text u ≢ []

-- Counts and lengths that fit a usize, and the shapes that vectors and matrices have.
abbrev pub IsLeaf : Leaf → Type 0
IsLeaf (array count element_size) = (count < 2 ^ 64) × (element_size < 2 ^ 64)
IsLeaf (utf8_text n) = n < 2 ^ 64
IsLeaf (utf16_text n) = n < 2 ^ 64
IsLeaf (vector components width) = (components ≡ 2) ⊎ (components ≡ 3) ⊎ (components ≡ 4)
IsLeaf (matrix rows cols width) =
    (rows ≡ 3) × (cols ≡ 3) ⊎ (rows ≡ 3) × (cols ≡ 4) ⊎ (rows ≡ 4) × (cols ≡ 4)
IsLeaf _ = Unit {0}

unfoldable mutual
  pub IsNode : Node → Type 0
  IsNode (leaf label l) = IsLeaf l
  IsNode (vtable label children) = IsNodes children
  IsNode (class label uuid formula children) = IsNodes children

  pub IsNodes : Nodes → Type 0
  IsNodes end = Unit {0}
  IsNodes (node n ns) = IsNode n × IsNodes ns

pub as_usize-as_i64 : (n : ℕ) → n < 2 ^ 64 → as_usize (as_i64 n) ≡ n
unfolding as_usize as_i64
as_usize-as_i64 n h = elim (Bool-cases (ltb n (2 ^ 63))) [
  | inl small ↦ rw small refl
  | inr large ↦ rw large (omega arith)
]

module _ {ℓ} (P : ℕ → Type ℓ) where
  pub of_components : (c : ℕ) → (c ≡ 2) ⊎ (c ≡ 3) ⊎ (c ≡ 4) → P 2 → P 3 → P 4 → P c
  of_components c h p2 p3 p4 = elim h [
    | inl e ↦ subst P (sym e) p2
    | inr (inl e) ↦ subst P (sym e) p3
    | inr (inr e) ↦ subst P (sym e) p4
  ]

module _ {ℓ} (P : ℕ → ℕ → Type ℓ) where
  pub of_shape :
      (r c : ℕ)
      → (r ≡ 3) × (c ≡ 3) ⊎ (r ≡ 3) × (c ≡ 4) ⊎ (r ≡ 4) × (c ≡ 4)
      → P 3 3
      → P 3 4
      → P 4 4
      → P r c
  of_shape r c h p33 p34 p44 = elim h [
    | inl e ↦ both 3 3 e p33
    | inr (inl e) ↦ both 3 4 e p34
    | inr (inr e) ↦ both 4 4 e p44
  ]
    where
      both : (a b : ℕ) → (r ≡ a) × (c ≡ b) → P a b → P r c
      both a b e p = subst (λ d. P r d) (sym e.1) (subst (λ s. P s b) (sym e.0) p)

-- The entry that a leaf's tag finds.
abbrev type_of : Leaf → NodeType
type_of (simple s) = of_simple s
type_of (pointer target) = of_pointer
type_of (class_instance uuid) = of_class_instance
type_of (array count element_size) = of_array
type_of (utf8_text n) = of_utf8_text
type_of (utf16_text n) = of_utf16_text
type_of str_ptr = of_str_ptr
type_of (vector components width) = of_vector components width
type_of (matrix rows cols width) = of_matrix rows cols width
type_of vmethod = of_vmethod
type_of (function signature) = of_function
type_of function_ptr = of_function_ptr

find_entry-leaf_tag : (l : Leaf) → IsLeaf l → find_entry entries (leaf_tag l) ≡ some (type_of l)
unfolding find_entry leaf_tag
find_entry-leaf_tag (simple int8) h = refl
find_entry-leaf_tag (simple int16) h = refl
find_entry-leaf_tag (simple int32) h = refl
find_entry-leaf_tag (simple int64) h = refl
find_entry-leaf_tag (simple uint8) h = refl
find_entry-leaf_tag (simple uint16) h = refl
find_entry-leaf_tag (simple uint32) h = refl
find_entry-leaf_tag (simple uint64) h = refl
find_entry-leaf_tag (simple float) h = refl
find_entry-leaf_tag (simple double) h = refl
find_entry-leaf_tag (simple bool) h = refl
find_entry-leaf_tag (simple hex8) h = refl
find_entry-leaf_tag (simple hex16) h = refl
find_entry-leaf_tag (simple hex32) h = refl
find_entry-leaf_tag (simple hex64) h = refl
find_entry-leaf_tag (pointer target) h = refl
find_entry-leaf_tag (class_instance uuid) h = refl
find_entry-leaf_tag (array count element_size) h = refl
find_entry-leaf_tag (utf8_text n) h = refl
find_entry-leaf_tag (utf16_text n) h = refl
find_entry-leaf_tag str_ptr h = refl
find_entry-leaf_tag (vector components f32) h =
    of_components (λ c. find_entry entries (leaf_tag (vector c f32)) ≡ some (of_vector c f32))
      components h refl refl refl
find_entry-leaf_tag (vector components f64) h =
    of_components (λ c. find_entry entries (leaf_tag (vector c f64)) ≡ some (of_vector c f64))
      components h refl refl refl
find_entry-leaf_tag (matrix rows cols f32) h =
    of_shape (λ r c. find_entry entries (leaf_tag (matrix r c f32)) ≡ some (of_matrix r c f32)) rows
      cols h refl refl refl
find_entry-leaf_tag (matrix rows cols f64) h =
    of_shape (λ r c. find_entry entries (leaf_tag (matrix r c f64)) ≡ some (of_matrix r c f64)) rows
      cols h refl refl refl
find_entry-leaf_tag vmethod h = refl
find_entry-leaf_tag (function signature) h = refl
find_entry-leaf_tag function_ptr h = refl

module _ (ids : Uuids) (law : IsUuids ids) where
  read_leaf-leaf_attrs :
      (l : Leaf) → IsLeaf l → read_leaf ids (type_of l) (leaf_attrs ids l) ≡ some l
  unfolding read_leaf leaf_attrs text_attr integer_attr
  read_leaf-leaf_attrs (simple s) h = refl
  read_leaf-leaf_attrs (pointer none) h = refl
  read_leaf-leaf_attrs (pointer (some uuid)) h = ap (λ o. some (pointer o)) (law.reads_back uuid)
  read_leaf-leaf_attrs (class_instance uuid) h = rw (law.reads_back uuid) refl
  read_leaf-leaf_attrs (array count element_size) h =
      ap₂ (λ a b. some (array a b)) (as_usize-as_i64 count h.0) (as_usize-as_i64 element_size h.1)
  read_leaf-leaf_attrs (utf8_text n) h = ap (λ a. some (utf8_text a)) (as_usize-as_i64 n h)
  read_leaf-leaf_attrs (utf16_text n) h = ap (λ a. some (utf16_text a)) (as_usize-as_i64 n h)
  read_leaf-leaf_attrs str_ptr h = refl
  read_leaf-leaf_attrs (vector components width) h =
      of_components (λ c. read_leaf ids (of_vector c width) [] ≡ some (vector c width)) components h
        refl refl refl
  read_leaf-leaf_attrs (matrix rows cols width) h =
      of_shape (λ r c. read_leaf ids (of_matrix r c width) [] ≡ some (matrix r c width)) rows cols h
        refl refl refl
  read_leaf-leaf_attrs vmethod h = refl
  read_leaf-leaf_attrs (function signature) h = refl
  read_leaf-leaf_attrs function_ptr h = refl

  -- A leaf is built of what its entry reads.
  run_entry-type_of :
      (head : DefHead) (children : Outcome ModelError Nodes) (l : Leaf)
      → run_entry ids head children (type_of l)
        ≡ leaf_or_error ids head (read_leaf ids (type_of l) head.attrs)
  unfolding run_entry
  run_entry-type_of head children (simple s) = refl
  run_entry-type_of head children (pointer target) = refl
  run_entry-type_of head children (class_instance uuid) = refl
  run_entry-type_of head children (array count element_size) = refl
  run_entry-type_of head children (utf8_text n) = refl
  run_entry-type_of head children (utf16_text n) = refl
  run_entry-type_of head children str_ptr = refl
  run_entry-type_of head children (vector components width) = refl
  run_entry-type_of head children (matrix rows cols width) = refl
  run_entry-type_of head children vmethod = refl
  run_entry-type_of head children (function signature) = refl
  run_entry-type_of head children function_ptr = refl

  assemble-leaf :
      (label : Label) (l : Leaf) (children : Outcome ModelError Nodes)
      → IsLeaf l
      → assemble ids (to_node_def ids (leaf label l)) children ≡ ok (leaf label l)
  unfolding assemble to_node_def
  assemble-leaf label l children h =
      let head = to_node_def ids (leaf label l) in
      ap (entry_or_error ids head children) (find_entry-leaf_tag l h)
      ∙ run_entry-type_of head children l
      ∙ ap (leaf_or_error ids head) (read_leaf-leaf_attrs l h)

  uuid_of_text-some :
      (s : List ℕ) (fresh uuid : ℕ)
      → s ≢ []
      → ids.parse_uuid s ≡ some uuid
      → uuid_of_text ids s fresh ≡ ok uuid
  uuid_of_text-some [] fresh uuid h e = absurd (h refl)
  uuid_of_text-some (c ∷ cs) fresh uuid h e =
      ap (λ o. elim o [ none ↦ err deserialize_error | some u ↦ ok u ]) e

  read_class_uuid-to_node_def :
      (label : Label) (uuid : ℕ) (formula : List ℕ) (children : Nodes)
      → read_class_uuid ids (to_node_def ids (class label uuid formula children)) ≡ ok uuid
  unfolding read_class_uuid to_node_def text_attr
  read_class_uuid-to_node_def label uuid formula children =
      uuid_of_text-some (ids.uuid_text uuid)
        (ids.new_v4 (to_node_def ids (class label uuid formula children))) uuid (law.not_empty uuid)
        (law.reads_back uuid)

  assemble-class :
      (label : Label) (uuid : ℕ) (formula : List ℕ) (children : Nodes)
      → assemble ids (to_node_def ids (class label uuid formula children)) (ok children)
        ≡ ok (class label uuid formula children)
  unfolding assemble to_node_def text_attr find_entry run_entry
  assemble-class label uuid formula children =
      ap (λ o. o >>= λ u. ok (class label u formula children))
        (read_class_uuid-to_node_def label uuid formula children)

  assemble-vtable :
      (label : Label) (children : Nodes)
      → assemble ids (to_node_def ids (vtable label children)) (ok children)
        ≡ ok (vtable label children)
  unfolding assemble to_node_def find_entry run_entry
  assemble-vtable label children = refl

  mutual
    unfolding deserialize_node_inner serialize_node_recursive IsNode

    pub reload :
        (n : Node) → IsNode n → deserialize_node_inner ids (serialize_node_recursive ids n) ≡ ok n
    reload (leaf label l) h = assemble-leaf label l (ok end) h
    reload (vtable label children) h =
        ap (assemble ids (to_node_def ids (vtable label children))) (reload_children children h)
        ∙ assemble-vtable label children
    reload (class label uuid formula children) h =
        ap (assemble ids (to_node_def ids (class label uuid formula children)))
          (reload_children children h)
        ∙ assemble-class label uuid formula children

    reload_children :
        (ns : Nodes) → IsNodes ns → deserialize_children ids (serialize_children ids ns) ≡ ok ns
    reload_children end h = refl
    reload_children (node n ns) h =
        ap₂ (λ a b. a >>= λ m. b >>= λ ms. ok (node m ms)) (reload n h.0) (reload_children ns h.1)
