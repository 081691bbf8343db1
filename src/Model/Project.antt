-- ===== src/Model/Project.antt =====
-- crates/nemclass-model/src/class.rs, enums.rs and project.rs: classes and the project that holds them.
use nemclass.Common.{
  ℕ, Bool, false, not, ◌&&◌, ◌||◌, Option, none, some, List, [], ◌∷◌, ◌++◌, ltb, ◌==◌,
  if◌then◌else◌, is_some_and, length, filter, eq_bytes,
}
use nemclass.Common.Outcome.{Outcome, ok, err}
use nemclass.Common.Int.{ℤ}
use nemclass.Common.Text.{codes}
use nemclass.Model.Node.{Node, leaf, vtable, class, Nodes, end, node, sum_sizes}
use nemclass.Model.Stored.{
  ModelError, class_referenced, class_not_found, DefHead, text_attr, Uuids, to_node_def,
}

pub record ClassNode : Type 0 where
  pub uuid : ℕ
  pub name : List ℕ
  pub comment : List ℕ
  pub address_formula : List ℕ
  pub children : Nodes

-- `ClassNode::with_uuid`
unfoldable pub with_uuid : ℕ → List ℕ → ClassNode
with_uuid uuid name = record {
  uuid = uuid;
  name = name;
  comment = [];
  address_formula = [];
  children = end;
}

-- `ClassNode::memory_size`
unfoldable pub class_size : ClassNode → ℕ
unfolding sum_sizes
class_size c = sum_sizes c.children 0

module _ (ids : Uuids) where
  abbrev pub attr_is : DefHead → List ℕ → List ℕ → Bool
  attr_is def key target = is_some_and (text_attr def.attrs key) (λ s. eq_bytes s target)

  -- Whether the node itself refers to the class with that text.
  unfoldable pub refers_to : DefHead → List ℕ → Bool
  unfolding text_attr
  refers_to def target =
      if eq_bytes def.type_tag (codes "ClassInstance")
      then attr_is def (codes "class_uuid") target
      else if eq_bytes def.type_tag (codes "Pointer")
      then attr_is def (codes "target_class_uuid") target
      else false

  unfoldable mutual
    unfolding refers_to to_node_def

    pub references : Node → List ℕ → Bool
    references (leaf label l) target = refers_to (to_node_def ids (leaf label l)) target
    references (vtable label children) target =
        refers_to (to_node_def ids (vtable label children)) target
        || children_reference children target
    references (class label uuid formula children) target =
        refers_to (to_node_def ids (class label uuid formula children)) target
        || children_reference children target

    pub children_reference : Nodes → List ℕ → Bool
    children_reference end target = false
    children_reference (node n ns) target = references n target || children_reference ns target

  unfoldable pub children_reference_class : Nodes → ℕ → Bool
  unfolding children_reference
  children_reference_class children target = children_reference children (ids.uuid_text target)

  -- `ClassNode::references_class`
  unfoldable pub references_class : ClassNode → ℕ → Bool
  unfolding children_reference_class
  references_class c target = children_reference_class c.children target

pub record EnumDescription : Type 0 where
  pub name : List ℕ
  pub size : ℕ
  pub use_flags : Bool
  pub values : List (List ℕ × ℤ)

abbrev pub Classes : Type 0
Classes = List (ℕ × ClassNode)

-- The classes are a map: each key has one entry.
pub record Project : Type 0 where
  pub name : List ℕ
  pub classes : Classes
  pub class_order : List ℕ
  pub enums : List EnumDescription

unfoldable pub new_project : List ℕ → Project
new_project name = record { name = name; classes = []; class_order = []; enums = [] }

-- `HashMap::get`
unfoldable pub find_class : Classes → ℕ → Option ClassNode
find_class [] uuid = none
find_class ((k, c) ∷ classes) uuid =
    let rest = find_class classes uuid in if k == uuid then some c else rest

-- `HashMap::insert`
unfoldable pub put_class : Classes → ℕ → ClassNode → Classes
put_class [] uuid c = (uuid, c) ∷ []
put_class ((k, old) ∷ classes) uuid c =
    let rest = put_class classes uuid c in if k == uuid then (k, c) ∷ classes else (k, old) ∷ rest

-- `HashMap::remove`
unfoldable pub drop_class : Classes → ℕ → Classes
drop_class classes uuid = filter (λ e. not (e.0 == uuid)) classes

unfoldable pub get_class : Project → ℕ → Option ClassNode
unfolding find_class
get_class p uuid = find_class p.classes uuid

unfoldable pub add_class : Project → ClassNode → Project
unfolding find_class put_class
add_class p c = elim (find_class p.classes c.uuid) [
  | some old ↦ record p { classes = put_class p.classes c.uuid c }
  | none ↦ record p {
    classes = put_class p.classes c.uuid c;
    class_order = p.class_order ++ (c.uuid ∷ []);
  }
]

-- A change of a class through `get_class_mut`.
unfoldable pub update_class : Project → ℕ → (ClassNode → ClassNode) → Project
unfolding find_class put_class
update_class p uuid f = elim (find_class p.classes uuid) [
  | none ↦ p
  | some c ↦ record p { classes = put_class p.classes uuid (f c) }
]

-- `classes_in_order`
abbrev pub collect_classes : Classes → List ℕ → List ClassNode
collect_classes classes [] = []
collect_classes classes (uuid ∷ uuids) =
    let rest = collect_classes classes uuids in
    elim (find_class classes uuid) [ none ↦ rest | some c ↦ c ∷ rest ]

unfoldable pub classes_in_order : Project → List ClassNode
unfolding find_class
classes_in_order p = collect_classes p.classes p.class_order

module _ (ids : Uuids) where
  -- The other classes that refer to the class.
  unfoldable pub referrers : Project → ℕ → Classes
  unfolding children_reference_class
  referrers p uuid =
      filter (λ e. not (e.0 == uuid) && children_reference_class ids e.1.children uuid) p.classes

  unfoldable pub remove_class : Project → ℕ → Project × Outcome ModelError ClassNode
  unfolding find_class referrers drop_class
  remove_class p uuid = elim (find_class p.classes uuid) [
    | none ↦ (p, err (class_not_found uuid))
    | some c ↦
        if ltb 0 (length (referrers p uuid))
        then (p, err (class_referenced c.name (length (referrers p uuid))))
        else (
          record p {
            classes = drop_class p.classes uuid;
            class_order = filter (λ id. not (id == uuid)) p.class_order;
          },
          ok c,
        )
  ]
