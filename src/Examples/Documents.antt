-- ===== src/Examples/Documents.antt =====
-- The document model: tests and instances.
use mathlib.Core.Path.{subst}
use mathlib.Core.Bool.{false≢true}
use nemclass.Common.{
  ℕ, ◌≡◌, refl, inl, inr, true, none, some, List, [], ◌∷◌, arith, leb, ◌==◌, if◌then◌else◌, ==_iff,
  Bool-cases,
}
use nemclass.Common.Outcome.{ok, err}
use nemclass.Common.Text.{codes}
use nemclass.Model.Node.{
  int32, simple, pointer, class_instance, array, f32, vector, vmethod, Label, Node, leaf, vtable,
  end, node,
}
use nemclass.Model.Stored.{
  class_referenced, max_depth_exceeded, NodeDef, node_def, no_defs, Uuids, serialize_node_recursive,
  to_node_def,
}
use nemclass.Model.Registry.{max_node_depth, check_node_depth, deserialize_node}
use nemclass.Model.Reload.{IsUuids, IsNode}
use nemclass.Model.Depth.{
  height, node_height, check_node_depth-height, deserialize_node-serialize_node_recursive,
}
use nemclass.Model.Project.{ClassNode, Project, new_project, get_class, add_class, remove_class}
use nemclass.Model.Order.{IsProject}
use nemclass.Model.Uses.{
  added, Reachable, created, used, Reachable-IsProject, IsRemoval, remove_class-IsRemoval,
}
use nemclass.Model.Sizes.{resolved_class_size, project_class_size, embedded_uuid}
use nemclass.Model.Measured.{IsMeasured, project_class_size-IsMeasured}
use nemclass.Model.Acyclic.{IsBelow, IsAcyclic, project_class_size-resolved_class_size}
use nemclass.Model.Fields.{FieldInfo}
use nemclass.Model.Layout.{IsLayout, resolve_fields-IsLayout}
use nemclass.Model.File.{Toml, project_file, to_toml, from_toml}
use nemclass.Model.Saved.{IsStorable}
use nemclass.Model.Loaded.{IsSame, from_toml-to_toml}

-- The text of an id is one character.
abbrev ids : Uuids
ids = record {
  uuid_text = λ u. u ∷ [];
  parse_uuid = λ s. elim s [ [] ↦ none | u ∷ rest ↦ some u ];
  new_v4 = λ head. 99;
}

ids-IsUuids : IsUuids ids
ids-IsUuids = record { reads_back = λ u. refl; not_empty = λ u e. cc }

abbrev plain : Label
plain = record { name = codes "field"; comment = [] }

abbrev table_node : Node
table_node = vtable plain (node (leaf plain vmethod) (node (leaf plain (vector 3 f32)) end))

deserialize_node-serialize_node_recursive_example :
    deserialize_node ids (serialize_node_recursive ids table_node) ≡ ok table_node
unfolding IsNode node_height
deserialize_node-serialize_node_recursive_example =
    deserialize_node-serialize_node_recursive ids table_node ids-IsUuids (tt, (inr (inl refl), tt))
      (omega arith)

abbrev small_def : NodeDef
small_def =
    node_def (record { type_tag = codes "VTable"; name = []; comment = []; attrs = [] }) no_defs

check_node_depth-height_example : check_node_depth small_def ≡ (
    if leb (height small_def) max_node_depth
    then ok tt
    else err (max_depth_exceeded max_node_depth))
check_node_depth-height_example = check_node_depth-height small_def

-- A class of four bytes, and one that embeds it and points to it.
abbrev small : ClassNode
small = record {
  uuid = 1;
  name = codes "Small";
  comment = [];
  address_formula = [];
  children = node (leaf plain (simple int32)) end;
}

abbrev large : ClassNode
large = record {
  uuid = 2;
  name = codes "Large";
  comment = [];
  address_formula = [];
  children =
      node (leaf plain (class_instance 1))
        (node (leaf plain (pointer (some 1))) (node (leaf plain (array 3 4)) end));
}

abbrev both : Project
both = add_class (add_class (new_project (codes "demo")) small) large

abbrev both_reached : Reachable ids both
both_reached = used (used (created (codes "demo")) (added small)) (added large)

Reachable-IsProject_example : IsProject both
Reachable-IsProject_example = Reachable-IsProject ids both both_reached

both-IsProject : IsProject both
both-IsProject = Reachable-IsProject ids both both_reached

remove_class-IsRemoval_example : IsRemoval ids both 1 (remove_class ids both 1)
remove_class-IsRemoval_example = remove_class-IsRemoval ids both 1 both-IsProject

removal_refused : (remove_class ids both 1).1 ≡ err (class_referenced (codes "Small") 1)
unfolding remove_class new_project add_class
removal_refused = refl

large_size : project_class_size ids both 2 ≡ some 24
unfolding project_class_size new_project add_class
large_size = refl

project_class_size-IsMeasured_example : IsMeasured (project_class_size ids both 2)
project_class_size-IsMeasured_example = project_class_size-IsMeasured ids both 2

resolve_fields-IsLayout_example :
    (fields : List FieldInfo) × IsLayout (λ c. true) ids both large fields
unfolding IsNode
resolve_fields-IsLayout_example =
    resolve_fields-IsLayout (λ c. true) ids both large ids-IsUuids
      (tt, (tt, ((omega arith, omega arith), tt)))

-- The two classes of the project.
both_classes :
    (P : ℕ → ClassNode → Type 0)
    → P 1 small
    → P 2 large
    → (u : ℕ) (c : ClassNode) → get_class both u ≡ some c
    → P u c
unfolding get_class new_project add_class
both_classes P p1 p2 u c h = elim (Bool-cases (1 == u)) [
  | inl one ↦
      let stored = rw one at h in
      let same : small ≡ c = cc in subst (λ v. P v c) ((==_iff 1 u).0 one) (subst (P 1) same p1)
  | inr other ↦ elim (Bool-cases (2 == u)) [
    | inl two ↦
        let stored = rw (other, two) at h in
        let same : large ≡ c = cc in subst (λ v. P v c) ((==_iff 2 u).0 two) (subst (P 2) same p2)
    | inr none_left ↦ let stored = rw (other, none_left) at h in absurd (cc)
  ]
]

both-IsAcyclic : IsAcyclic ids both (λ u. u)
unfolding embedded_uuid to_node_def
both-IsAcyclic =
    both_classes (λ u c. IsBelow ids both (λ r. r) u c.children)
      (λ u bad e. absurd (false≢true bad), tt)
      (
        λ u tag e. let one : 1 ≡ u = cc in omega arith,
        (λ u bad e. absurd (false≢true bad), (λ u bad e. absurd (false≢true bad), tt)),
      )

project_class_size-resolved_class_size_example :
    project_class_size ids both 2 ≡ resolved_class_size ids both [] large
unfolding get_class new_project add_class
project_class_size-resolved_class_size_example =
    project_class_size-resolved_class_size ids both (λ u. u) 2 large both-IsAcyclic refl

-- The only file there is.
abbrev one_file : Toml
one_file = record { to_string = λ file. some []; from_str = λ s. some (project_file ids both) }

both-IsStorable : (u : ℕ) (c : ClassNode) → get_class both u ≡ some c → IsStorable c.children
unfolding IsNode node_height
both-IsStorable =
    both_classes (λ u c. IsStorable c.children) (tt, omega arith, tt)
      (tt, omega arith, (tt, omega arith, ((omega arith, omega arith), omega arith, tt)))

from_toml-to_toml_example : (q : Project) × (from_toml ids one_file [] ≡ ok q) × IsSame both q
unfolding to_toml
from_toml-to_toml_example =
    from_toml-to_toml ids one_file both [] ids-IsUuids (λ s h. refl) both-IsProject both-IsStorable
      refl

-- Two classes that embed each other.
abbrev ring_one : ClassNode
ring_one = record {
  uuid = 1;
  name = codes "One";
  comment = [];
  address_formula = [];
  children = node (leaf plain (class_instance 2)) (node (leaf plain (simple int32)) end);
}

abbrev ring_two : ClassNode
ring_two = record {
  uuid = 2;
  name = codes "Two";
  comment = [];
  address_formula = [];
  children = node (leaf plain (class_instance 1)) (node (leaf plain (array 1 8)) end);
}

abbrev ring : Project
ring = add_class (add_class (new_project (codes "ring")) ring_one) ring_two

-- The user interface and the generators measure such a class differently.
ring_sizes :
    (project_class_size ids ring 1 ≡ some 12) × (resolved_class_size ids ring [] ring_one ≡ some 16)
unfolding project_class_size resolved_class_size new_project add_class
ring_sizes = (refl, refl)
