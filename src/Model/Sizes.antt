-- ===== src/Model/Sizes.antt =====
-- crates/nemclass-model/src/codegen/mod.rs and project.rs: the sizes of classes with the classes that
-- they embed.
use nemclass.Common.{
  ℕ, zero, suc, Option, none, some, List, [], ◌∷◌, if◌then◌else◌, length, eq_bytes,
}
use nemclass.Common.Text.{codes}
use nemclass.Pointer.Path.{◌>>=◌}
use nemclass.Model.Node.{saturating_add, Node, Nodes, end, node, memory_size}
use nemclass.Model.Stored.{DefHead, text_attr, Uuids, to_node_def}
use nemclass.Model.Project.{ClassNode, Project, get_class}
use nemclass.Model.Maps.{elem}

module _ (ids : Uuids) (p : Project) where
  -- The class that an embedding node names.
  unfoldable pub embedded_uuid : DefHead → Option ℕ
  unfolding text_attr
  embedded_uuid def = text_attr def.attrs (codes "class_uuid") >>= ids.parse_uuid

  -- A class that is embedded: nothing if it is being measured, or is not in the project.
  abbrev pub embedded_size : (List ℕ → ClassNode → Option ℕ) → List ℕ → Option ℕ → Option ℕ
  embedded_size enter visited none = some 0
  embedded_size enter visited (some uuid) =
      if elem uuid visited
      then some 0
      else elim (get_class p uuid) [ none ↦ some 0 | some c ↦ enter (uuid ∷ visited) c ]

  -- `resolved_node_size`, with `enter` for the recursion into a class; `none` where that has no fuel.
  unfoldable pub resolved_node_size : (List ℕ → ClassNode → Option ℕ) → List ℕ → Node → Option ℕ
  unfolding to_node_def embedded_uuid get_class memory_size
  resolved_node_size enter visited n =
      if eq_bytes (to_node_def ids n).type_tag (codes "ClassInstance")
      then embedded_size enter visited (embedded_uuid (to_node_def ids n))
      else some (memory_size n)

  unfoldable pub sum_resolved : (Node → Option ℕ) → Nodes → ℕ → Option ℕ
  sum_resolved size_of end total = some total
  sum_resolved size_of (node n ns) total = do
    size ← size_of n
    sum_resolved size_of ns (saturating_add total size)

  -- `resolved_class_size`, on fuel: each class that is entered is one more that is visited.
  unfoldable pub resolved_size : ℕ → List ℕ → ClassNode → Option ℕ
  unfolding sum_resolved resolved_node_size
  resolved_size zero visited c = none
  resolved_size (suc fuel) visited c =
      sum_resolved (resolved_node_size (λ v d. resolved_size fuel v d) visited) c.children 0

  abbrev pub size_fuel : ℕ
  size_fuel = suc (length p.classes)

  unfoldable pub resolved_class_size : List ℕ → ClassNode → Option ℕ
  unfolding resolved_size
  resolved_class_size visited c = resolved_size size_fuel visited c

  -- `Project::resolved_class_size`
  unfoldable pub project_class_size : ℕ → Option ℕ
  unfolding resolved_class_size get_class
  project_class_size uuid = elim (get_class p uuid) [
    | none ↦ some 0
    | some c ↦ resolved_class_size (uuid ∷ []) c
  ]
