-- ===== src/Model/File.antt =====
-- crates/nemclass-model/src/serialize.rs and project.rs: projects as files.
use nemclass.Common.{ℕ, Bool, Option, none, some, List, [], ◌∷◌, map}
use nemclass.Common.Outcome.{Outcome, ok, err, ◌>>=◌}
use nemclass.Common.Int.{ℤ}
use nemclass.Common.Text.{codes}
use nemclass.Model.Node.{Nodes, end}
use nemclass.Model.Stored.{
  ModelError, serialize_error, deserialize_error, NodeDefs, no_defs, defs, Uuids,
  serialize_children,
}
use nemclass.Model.Registry.{deserialize_node}
use nemclass.Model.Node.{node}
use nemclass.Model.Project.{
  ClassNode, with_uuid, EnumDescription, Project, new_project, add_class, classes_in_order,
}

pub record EnumValueDef : Type 0 where
  pub name : List ℕ
  pub value : ℤ

pub record EnumDef : Type 0 where
  pub name : List ℕ
  pub size : ℕ
  pub use_flags : Bool
  pub values : List EnumValueDef

pub record ClassDef : Type 0 where
  pub uuid : List ℕ
  pub name : List ℕ
  pub comment : List ℕ
  pub address_formula : List ℕ
  pub nodes : NodeDefs

pub record ProjectMeta : Type 0 where
  pub name : List ℕ
  pub version : List ℕ

pub record ProjectFile : Type 0 where
  pub project : ProjectMeta
  pub enums : List EnumDef
  pub classes : List ClassDef

abbrev pub enum_def : EnumDescription → EnumDef
enum_def e = record {
  name = e.name;
  size = e.size;
  use_flags = e.use_flags;
  values = map (λ (v : List ℕ × ℤ). record { name = v.0; value = v.1 }) e.values;
}

abbrev pub enum_of_def : EnumDef → EnumDescription
enum_of_def e = record {
  name = e.name;
  size = e.size;
  use_flags = e.use_flags;
  values = map (λ (v : EnumValueDef). (v.name, v.value)) e.values;
}

-- What the crate `toml` does with a file: its text, and the file that a text spells.
pub record Toml : Type 0 where
  pub to_string : ProjectFile → Option (List ℕ)
  pub from_str : List ℕ → Option ProjectFile

module _ (ids : Uuids) where
  unfoldable pub class_def : ClassNode → ClassDef
  unfolding serialize_children
  class_def c = record {
    uuid = ids.uuid_text c.uuid;
    name = c.name;
    comment = c.comment;
    address_formula = c.address_formula;
    nodes = serialize_children ids c.children;
  }

  unfoldable pub project_file : Project → ProjectFile
  unfolding classes_in_order class_def
  project_file p = record {
    project = record { name = p.name; version = codes "1" };
    enums = map enum_def p.enums;
    classes = map class_def (classes_in_order p);
  }

  -- The nodes of a class, each read by itself.
  unfoldable pub read_nodes : NodeDefs → Outcome ModelError Nodes
  unfolding deserialize_node
  read_nodes no_defs = ok end
  read_nodes (defs d ds) = do n ← deserialize_node ids d; ns ← read_nodes ds; ok (node n ns)

  -- The class of a definition, from its nodes and its id.
  abbrev pub class_of_def :
      ClassDef → Outcome ModelError Nodes → Option ℕ → Outcome ModelError ClassNode
  class_of_def def nodes none = err deserialize_error
  class_of_def def nodes (some uuid) = do
    ns ← nodes
    ok (record (with_uuid uuid def.name) {
      comment = def.comment;
      address_formula = def.address_formula;
      children = ns;
    })

  unfoldable pub read_class : ClassDef → Outcome ModelError ClassNode
  unfolding read_nodes with_uuid
  read_class def = class_of_def def (read_nodes def.nodes) (ids.parse_uuid def.uuid)

  unfoldable pub read_classes : List ClassDef → Project → Outcome ModelError Project
  unfolding read_class add_class
  read_classes [] p = ok p
  read_classes (def ∷ rest) p = do c ← read_class def; read_classes rest (add_class p c)

  unfoldable pub project_of_file : ProjectFile → Outcome ModelError Project
  unfolding read_classes new_project
  project_of_file file =
      read_classes file.classes
        (record (new_project file.project.name) { enums = map enum_of_def file.enums })

  module _ (toml : Toml) where
    unfoldable pub to_toml : Project → Outcome ModelError (List ℕ)
    unfolding project_file
    to_toml p = elim (toml.to_string (project_file p)) [
      | none ↦ err serialize_error
      | some s ↦ ok s
    ]

    unfoldable pub from_toml : List ℕ → Outcome ModelError Project
    unfolding project_of_file
    from_toml s = elim (toml.from_str s) [
      | none ↦ err deserialize_error
      | some file ↦ project_of_file file
    ]
