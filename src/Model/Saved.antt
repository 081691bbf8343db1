-- ===== src/Model/Saved.antt =====
-- crates/nemclass-model/src/project.rs: the classes of a saved project are read back.
use mathlib.Core.Path.{ap₂}
use mathlib.Core.Bool.{false≢true}
use nemclass.Common.{
  ℕ, ◌≤◌, ◌≡◌, refl, sym, ap, ◌∙◌, inl, inr, true, false, none, some, List, [], ◌∷◌, ◌++◌, map,
  append_assoc, append-nil, arith, ◌==◌, ==_iff, Bool-cases, All,
}
use nemclass.Common.Outcome.{ok, ◌>>=◌}
use nemclass.Common.Int.{ℤ}
use nemclass.Model.Node.{Nodes, end, node}
use nemclass.Model.Stored.{Uuids, serialize_children}
use nemclass.Model.Registry.{max_node_depth}
use nemclass.Model.Reload.{IsUuids, IsNode}
use nemclass.Model.Depth.{node_height, deserialize_node-serialize_node_recursive}
use nemclass.Model.Project.{
  ClassNode, with_uuid, EnumDescription, Classes, Project, find_class, put_class, add_class,
}
use nemclass.Model.Maps.{elem, IsDistinct}
use nemclass.Model.File.{
  enum_def, enum_of_def, class_def, read_nodes, class_of_def, read_class, read_classes,
}

-- Each node can be stored: its sizes and shapes, and its nesting.
abbrev pub IsStorable : Nodes → Type 0
IsStorable end = Unit {0}
IsStorable (node n ns) = IsNode n × (node_height n ≤ max_node_depth) × IsStorable ns

abbrev pub AllStorable : List ClassNode → Type 0
AllStorable cs = All (λ (c : ClassNode). IsStorable c.children) cs

pub enums-back : (es : List EnumDescription) → map enum_of_def (map enum_def es) ≡ es
enums-back [] = refl
enums-back (e ∷ es) =
    ap₂ (λ x xs. x ∷ xs) (ap (λ vs. record e { values = vs }) (values_back e.values))
      (enums-back es)
  where
    values_back :
        (vs : List (List ℕ × ℤ)) → (enum_of_def (enum_def (record e { values = vs }))).values ≡ vs
    values_back [] = refl
    values_back (v ∷ vs) = ap (λ r. v ∷ r) (values_back vs)

abbrev pub entry_of : ClassNode → ℕ × ClassNode
entry_of c = (c.uuid, c)

-- A class under a new id goes behind the others.
put_class-new :
    (classes : Classes) (u : ℕ) (c : ClassNode)
    → find_class classes u ≡ none
    → put_class classes u c ≡ classes ++ ((u, c) ∷ [])
unfolding put_class find_class
put_class-new [] u c h = refl
put_class-new ((k, d) ∷ classes) u c h = elim (Bool-cases (k == u)) [
  | inl same ↦ let stored = rw same at h in absurd (cc)
  | inr other ↦ rw other (ap (λ r. (k, d) ∷ r) (put_class-new classes u c (rw other at h)))
]

find_class-append-none :
    (classes : Classes) (u v : ℕ) (c : ClassNode)
    → find_class classes v ≡ none
    → (u == v) ≡ false
    → find_class (classes ++ ((u, c) ∷ [])) v ≡ none
unfolding find_class
find_class-append-none [] u v c h other = rw other refl
find_class-append-none ((k, d) ∷ classes) u v c h other = elim (Bool-cases (k == v)) [
  | inl same ↦ let stored = rw same at h in absurd (cc)
  | inr apart ↦ rw apart (find_class-append-none classes u v c (rw apart at h) other)
]

module _ (ids : Uuids) (law : IsUuids ids) where
  read_nodes-serialize_children :
      (ns : Nodes) → IsStorable ns → read_nodes ids (serialize_children ids ns) ≡ ok ns
  unfolding read_nodes serialize_children
  read_nodes-serialize_children end h = refl
  read_nodes-serialize_children (node n ns) h =
      ap₂ (λ a b. a >>= λ m. b >>= λ ms. ok (node m ms))
        (deserialize_node-serialize_node_recursive ids n law h.0 h.1)
        (read_nodes-serialize_children ns h.2)

  read_class-class_def :
      (c : ClassNode) → IsStorable c.children → read_class ids (class_def ids c) ≡ ok c
  unfolding read_class class_def with_uuid
  read_class-class_def c h =
      ap₂ (class_of_def ids (class_def ids c)) (read_nodes-serialize_children c.children h)
        (law.reads_back c.uuid)

  added_new :
      (c : ClassNode) (p : Project)
      → find_class p.classes c.uuid ≡ none
      → add_class p c ≡ record p {
        classes = p.classes ++ ((c.uuid, c) ∷ []);
        class_order = p.class_order ++ (c.uuid ∷ []);
      }
  unfolding add_class
  added_new c p absent =
      ap
        (λ o. elim o [
          | some old ↦ record p { classes = put_class p.classes c.uuid c }
          | none ↦ record p {
            classes = put_class p.classes c.uuid c;
            class_order = p.class_order ++ (c.uuid ∷ []);
          }
        ])
        absent
      ∙ ap (λ es. record p { classes = es; class_order = p.class_order ++ (c.uuid ∷ []) })
          (put_class-new p.classes c.uuid c absent)

  apart_of : (u v : ℕ) (us : List ℕ) → elem u us ≡ false → elem v us ≡ true → (u == v) ≡ false
  apart_of u v us absent here = elim (Bool-cases (u == v)) [
    | inr other ↦ other
    | inl same ↦ absurd (false≢true (sym absent ∙ ap (λ w. elem w us) ((==_iff u v).0 same) ∙ here))
  ]

  -- Classes under new ids are added one behind the other.
  pub read_classes-class_def :
      (cs : List ClassNode) (p : Project)
      → AllStorable cs
      → IsDistinct (map (λ (c : ClassNode). c.uuid) cs)
      → ((v : ℕ)
          → elem v (map (λ (c : ClassNode). c.uuid) cs) ≡ true
          → find_class p.classes v ≡ none)
      → read_classes ids (map (class_def ids) cs) p
        ≡ ok (record p {
          classes = p.classes ++ map entry_of cs;
          class_order = p.class_order ++ map (λ (c : ClassNode). c.uuid) cs;
        })
  unfolding read_classes add_class
  read_classes-class_def [] p h d fresh =
      ap₂ (λ cs order. ok (record p { classes = cs; class_order = order }))
        (sym (append-nil p.classes)) (sym (append-nil p.class_order))
  read_classes-class_def (c ∷ cs) p h d fresh =
      let absent : find_class p.classes c.uuid ≡ none = fresh c.uuid (ground arith) in
      let p' : Project = record p {
        classes = p.classes ++ ((c.uuid, c) ∷ []);
        class_order = p.class_order ++ (c.uuid ∷ []);
      } in
      let added : add_class p c ≡ p' = added_new c p absent in
      ap (λ o. o >>= λ k. read_classes ids (map (class_def ids) cs) (add_class p k))
        (read_class-class_def c h.0)
      ∙ ap (read_classes ids (map (class_def ids) cs)) added
      ∙ read_classes-class_def cs p' h.1 d.1 (λ v here.
        find_class-append-none p.classes c.uuid v c (fresh v (ground arith))
          (apart_of c.uuid v (map (λ (k : ClassNode). k.uuid) cs) d.0 here))
      ∙ ap₂ (λ es order. ok (record p { classes = es; class_order = order }))
          (append_assoc p.classes (entry_of c ∷ []) (map entry_of cs))
          (append_assoc p.class_order (c.uuid ∷ []) (map (λ (k : ClassNode). k.uuid) cs))
