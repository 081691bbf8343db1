-- ===== src/Model/Loaded.antt =====
-- crates/nemclass-model/src/project.rs: a project that is saved is loaded as it was.
use mathlib.Core.Path.{ap₂, subst}
use mathlib.Core.Bool.{false≢true}
use nemclass.Common.{
  ℕ, ◌≡◌, refl, sym, ap, ◌∙◌, inl, inr, true, ◌||◌, Option, none, some, List, [], ◌∷◌, map, arith,
  ◌==◌, if◌then◌else◌, ==_iff, Bool-cases, All,
}
use nemclass.Common.Outcome.{ok, err}
use nemclass.Model.Stored.{serialize_error, deserialize_error, Uuids}
use nemclass.Model.Reload.{IsUuids}
use nemclass.Model.Project.{
  ClassNode, Classes, Project, new_project, find_class, get_class, collect_classes,
  classes_in_order,
}
use nemclass.Model.Maps.{elem, IsDistinct}
use nemclass.Model.Order.{IsProject, is_there}
use nemclass.Model.File.{
  enum_def, enum_of_def, ProjectFile, Toml, project_file, project_of_file, to_toml, from_toml,
}
use nemclass.Model.Saved.{IsStorable, enums-back, entry_of, AllStorable, read_classes-class_def}

-- The same project, whatever the layout of its map.
pub record IsSame (p q : Project) : Type 0 where
  pub same_name : p.name ≡ q.name
  pub same_order : p.class_order ≡ q.class_order
  pub same_enums : p.enums ≡ q.enums
  pub same_classes : (u : ℕ) → get_class p u ≡ get_class q u

-- The text of a file spells that file.
abbrev pub IsToml : Toml → ProjectFile → Type 0
IsToml toml file = (s : List ℕ) → toml.to_string file ≡ some s → toml.from_str s ≡ some file

module _ (classes : Classes) where
  -- The ids of the order are those of classes of the map.
  abbrev IsListed : List ℕ → Type 0
  IsListed order = All (λ u. (c : ClassNode) × (find_class classes u ≡ some c) × (c.uuid ≡ u)) order

  uuids-collect :
      (order : List ℕ)
      → IsListed order
      → map (λ (c : ClassNode). c.uuid) (collect_classes classes order) ≡ order
  uuids-collect [] h = refl
  uuids-collect (u ∷ order) h =
      let (c, found, own) = h.0 in
      ap
        (λ o.
          map (λ (k : ClassNode). k.uuid)
            (elim o [
              | none ↦ collect_classes classes order
              | some k ↦ k ∷ collect_classes classes order
            ]))
        found
      ∙ ap₂ (λ x xs. x ∷ xs) own (uuids-collect order h.1)

  find_class-collect :
      (order : List ℕ) (v : ℕ)
      → IsListed order
      → find_class (map entry_of (collect_classes classes order)) v
        ≡ (if elem v order then find_class classes v else none)
  unfolding find_class
  find_class-collect [] v h = refl
  find_class-collect (u ∷ order) v h =
      let (c, found, own) = h.0 in
      ap
        (λ o.
          find_class
            (map entry_of (elim o [
              | none ↦ collect_classes classes order
              | some k ↦ k ∷ collect_classes classes order
            ]))
            v)
        found
      ∙ at_head c found (ap (λ w. w == v) own) (find_class-collect order v h.1)
    where
      at_head :
          (c : ClassNode)
          → find_class classes u ≡ some c
          → (c.uuid == v) ≡ (u == v)
          → find_class (map entry_of (collect_classes classes order)) v
            ≡ (if elem v order then find_class classes v else none)
          → (if c.uuid == v
              then some c
              else find_class (map entry_of (collect_classes classes order)) v)
            ≡ (if u == v || elem v order then find_class classes v else none)
      at_head c found own rest = elim (Bool-cases (u == v)) [
        | inl same ↦ rw (own, same) (sym found ∙ ap (find_class classes) ((==_iff u v).0 same))
        | inr other ↦ rw (own, other) rest
      ]

  collect-storable :
      (order : List ℕ)
      → ((u : ℕ) (c : ClassNode) → find_class classes u ≡ some c → IsStorable c.children)
      → IsListed order
      → AllStorable (collect_classes classes order)
  collect-storable [] s h = tt
  collect-storable (u ∷ order) s h =
      let (c, found, own) = h.0 in
      subst
        (λ o. AllStorable (elim o [
          | none ↦ collect_classes classes order
          | some k ↦ k ∷ collect_classes classes order
        ]))
        (sym found) (s u c found, collect-storable order s h.1)

module _ (ids : Uuids) (toml : Toml) where
  listed :
      (p : Project) (order : List ℕ)
      → IsProject p
      → ((u : ℕ) → elem u order ≡ true → elem u p.class_order ≡ true)
      → IsListed p.classes order
  unfolding get_class
  listed p [] i h = tt
  listed p (u ∷ order) i h = (
    class_at (find_class p.classes u) refl (sym (i.same_ids u) ∙ h u (ground arith)),
    listed p order i (λ v here. h v (ground arith)),
  )
    where
      class_at :
          (o : Option ClassNode)
          → find_class p.classes u ≡ o
          → is_there o ≡ true
          → (c : ClassNode) × (find_class p.classes u ≡ some c) × (c.uuid ≡ u)
      class_at none e bad = absurd (false≢true bad)
      class_at (some c) e good = (c, e, i.own_id u c e)

  -- The project that is loaded.
  abbrev loaded : Project → Project
  loaded p = record p { classes = map entry_of (collect_classes p.classes p.class_order) }

  loaded-IsSame :
      (p : Project) → IsProject p → IsListed p.classes p.class_order → IsSame p (loaded p)
  unfolding get_class
  loaded-IsSame p i l = record {
    same_name = refl;
    same_order = refl;
    same_enums = refl;
    same_classes = λ u. by_order u ∙ sym (find_class-collect p.classes p.class_order u l);
  }
    where
      by_order :
          (u : ℕ)
          → find_class p.classes u ≡ (if elem u p.class_order then find_class p.classes u else none)
      by_order u = of_lookup (find_class p.classes u) (i.same_ids u)
        where
          of_lookup :
              (o : Option ClassNode)
              → elem u p.class_order ≡ is_there o
              → o ≡ (if elem u p.class_order then o else none)
          of_lookup none e = rw e refl
          of_lookup (some c) e = rw e refl

  project_of_file-project_file :
      (p : Project)
      → IsUuids ids
      → IsProject p
      → ((u : ℕ) (c : ClassNode) → get_class p u ≡ some c → IsStorable c.children)
      → project_of_file ids (project_file ids p) ≡ ok (loaded p)
  unfolding project_of_file project_file classes_in_order get_class new_project find_class
  project_of_file-project_file p law i s =
      let l = listed p p.class_order i (λ u here. here) in
      let cs = collect_classes p.classes p.class_order in
      let uuids = uuids-collect p.classes p.class_order l in
      read_classes-class_def ids law cs
        (record (new_project p.name) { enums = map enum_of_def (map enum_def p.enums) })
        (collect-storable p.classes p.class_order s l) (subst IsDistinct (sym uuids) i.once)
        (λ v here. refl)
      ∙ ap₂ (λ order enums. ok (record (loaded p) { class_order = order; enums = enums })) uuids
          (enums-back p.enums)

  -- A project that is saved is loaded as it was: its name, its order, its enums and its classes, where
  -- the project is one that adding, removing and changing classes leads to, its nodes can be stored, and
  -- ids and files are read back from their texts.
  pub from_toml-to_toml :
      (p : Project) (s : List ℕ)
      → IsUuids ids
      → IsToml toml (project_file ids p)
      → IsProject p
      → ((u : ℕ) (c : ClassNode) → get_class p u ≡ some c → IsStorable c.children)
      → to_toml ids toml p ≡ ok s
      → (q : Project) × (from_toml ids toml s ≡ ok q) × IsSame p q
  unfolding from_toml to_toml
  from_toml-to_toml p s law toml_law i storable e = (
    loaded p,
    ap (λ o. elim o [ none ↦ err deserialize_error | some file ↦ project_of_file ids file ])
          (toml_law s (written (toml.to_string (project_file ids p)) e))
        ∙ project_of_file-project_file p law i storable,
    loaded-IsSame p i (listed p p.class_order i (λ u here. here)),
  )
    where
      written :
          (o : Option (List ℕ))
          → elim o [ none ↦ err serialize_error | some t ↦ ok t ] ≡ ok s
          → o ≡ some s
      written none bad = absurd (cc)
      written (some t) good = cc
