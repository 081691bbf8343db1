-- ===== src/Model/Order.antt =====
-- crates/nemclass-model/src/project.rs: the operations keep the order of the classes in step with their map.
use mathlib.Core.Path.{subst}
use nemclass.Common.{
  ℕ, ◌≡◌, refl, sym, ap, ◌∙◌, inl, inr, Bool, true, false, not, ◌&&◌, ◌||◌, Option, none, some,
  List, [], ◌∷◌, ◌++◌, arith, ◌==◌, if◌then◌else◌, ==_iff, Bool-cases, is_some_and, filter,
}
use nemclass.Model.Project.{
  ClassNode, Project, new_project, find_class, put_class, drop_class, get_class, add_class,
  update_class,
}
use nemclass.Model.Maps.{
  elem, IsDistinct, keys, elem-append, elem-filter, filter-IsDistinct, snoc-IsDistinct,
  find_class-put_class, find_class-drop_class, keys-drop_class, put_class-IsDistinct,
}

abbrev pub is_there : Option ClassNode → Bool
is_there o = is_some_and o (λ c. true)

-- The order lists each class of the map once and nothing else, and a class stands under its own id.
pub record IsProject (p : Project) : Type 0 where
  pub one_entry : IsDistinct (keys p.classes)
  pub once : IsDistinct p.class_order
  pub same_ids : (u : ℕ) → elem u p.class_order ≡ is_there (get_class p u)
  pub own_id : (u : ℕ) (c : ClassNode) → get_class p u ≡ some c → c.uuid ≡ u

put_class-own_id :
    (p : Project) (u : ℕ) (c : ClassNode)
    → IsProject p
    → c.uuid ≡ u
    → (v : ℕ) (d : ClassNode) → find_class (put_class p.classes u c) v ≡ some d
    → d.uuid ≡ v
unfolding get_class
put_class-own_id p u c i own v d h =
    let found = sym (find_class-put_class p.classes u v c) ∙ h in
    elim (Bool-cases (v == u)) [
      | inl same ↦
          let stored = rw same at found in
          let here : c ≡ d = cc in
          ap (λ (x : ClassNode). x.uuid) (sym here) ∙ own ∙ sym ((==_iff v u).0 same)
      | inr other ↦ let stored = rw other at found in i.own_id v d stored
    ]

-- A lookup behind an insertion, with an order that holds the key.
put_class-same_ids :
    (p : Project) (u : ℕ) (c : ClassNode) (order : List ℕ)
    → IsProject p
    → ((v : ℕ) → elem v order ≡ (v == u || elem v p.class_order))
    → (v : ℕ) → elem v order ≡ is_there (find_class (put_class p.classes u c) v)
unfolding get_class
put_class-same_ids p u c order i h v =
    h v ∙ present v ∙ ap is_there (sym (find_class-put_class p.classes u v c))
  where
    present :
        (v : ℕ)
        → (v == u || elem v p.class_order)
          ≡ is_there (if v == u then some c else find_class p.classes v)
    present v = elim (Bool-cases (v == u)) [
      | inl same ↦ rw same refl
      | inr other ↦ rw other (i.same_ids v)
    ]

elem-old :
    (p : Project) (u : ℕ)
    → elem u p.class_order ≡ true
    → (v : ℕ) → elem v p.class_order ≡ (v == u || elem v p.class_order)
elem-old p u h v = elim (Bool-cases (v == u)) [
  | inl same ↦ rw same (ap (λ w. elem w p.class_order) ((==_iff v u).0 same) ∙ h)
  | inr other ↦ rw other refl
]

elem-new : (u : ℕ) (order : List ℕ) (v : ℕ) → elem v (order ++ (u ∷ [])) ≡ (v == u || elem v order)
elem-new u order v = elem-append v order (u ∷ []) ∙ ground arith

-- A class that is replaced.
replaced-IsProject :
    (p : Project) (u : ℕ) (c : ClassNode)
    → IsProject p
    → c.uuid ≡ u
    → elem u p.class_order ≡ true
    → IsProject (record p { classes = put_class p.classes u c })
unfolding get_class
replaced-IsProject p u c i own old = record {
  one_entry = put_class-IsDistinct p.classes u c i.one_entry;
  once = i.once;
  same_ids = put_class-same_ids p u c p.class_order i (elem-old p u old);
  own_id = put_class-own_id p u c i own;
}

-- A class that is new.
pushed-IsProject :
    (p : Project) (c : ClassNode)
    → IsProject p
    → elem c.uuid p.class_order ≡ false
    → IsProject (record p {
      classes = put_class p.classes c.uuid c;
      class_order = p.class_order ++ (c.uuid ∷ []);
    })
unfolding get_class
pushed-IsProject p c i fresh = record {
  one_entry = put_class-IsDistinct p.classes c.uuid c i.one_entry;
  once = snoc-IsDistinct c.uuid p.class_order fresh i.once;
  same_ids =
      put_class-same_ids p c.uuid c (p.class_order ++ (c.uuid ∷ [])) i
        (elem-new c.uuid p.class_order);
  own_id = put_class-own_id p c.uuid c i refl;
}

pub new_project-IsProject : (name : List ℕ) → IsProject (new_project name)
unfolding new_project get_class find_class
new_project-IsProject name = record {
  one_entry = tt;
  once = tt;
  same_ids = λ u. refl;
  own_id = λ u c h. absurd (cc);
}

pub add_class-IsProject : (p : Project) (c : ClassNode) → IsProject p → IsProject (add_class p c)
unfolding add_class get_class
add_class-IsProject p c i = of_lookup (find_class p.classes c.uuid) refl
  where
    of_lookup :
        (o : Option ClassNode)
        → find_class p.classes c.uuid ≡ o
        → IsProject (elim o [
          | some old ↦ record p { classes = put_class p.classes c.uuid c }
          | none ↦ record p {
            classes = put_class p.classes c.uuid c;
            class_order = p.class_order ++ (c.uuid ∷ []);
          }
        ])
    of_lookup (some old) e =
        replaced-IsProject p c.uuid c i refl (i.same_ids c.uuid ∙ ap is_there e)
    of_lookup none e = pushed-IsProject p c i (i.same_ids c.uuid ∙ ap is_there e)

pub update_class-IsProject :
    (p : Project) (u : ℕ) (f : ClassNode → ClassNode)
    → ((c : ClassNode) → (f c).uuid ≡ c.uuid)
    → IsProject p
    → IsProject (update_class p u f)
unfolding update_class get_class
update_class-IsProject p u f keeps i = of_lookup (find_class p.classes u) refl
  where
    of_lookup :
        (o : Option ClassNode)
        → find_class p.classes u ≡ o
        → IsProject
            (elim o [ none ↦ p | some c ↦ record p { classes = put_class p.classes u (f c) } ])
    of_lookup none e = i
    of_lookup (some c) e =
        replaced-IsProject p u (f c) i (keeps c ∙ i.own_id u c e) (i.same_ids u ∙ ap is_there e)

-- A class that is dropped from the map and from the order.
pub dropped-IsProject :
    (p : Project) (u : ℕ)
    → IsProject p
    → IsProject (record p {
      classes = drop_class p.classes u;
      class_order = filter (λ id. not (id == u)) p.class_order;
    })
unfolding get_class
dropped-IsProject p u i = record {
  one_entry =
      subst IsDistinct (sym (keys-drop_class p.classes u))
        (filter-IsDistinct u (keys p.classes) i.one_entry);
  once = filter-IsDistinct u p.class_order i.once;
  same_ids = λ v.
      elem-filter v u p.class_order
      ∙ absent v
      ∙ ap is_there (sym (find_class-drop_class p.classes u v));
  own_id = λ v c h. own v c (sym (find_class-drop_class p.classes u v) ∙ h);
}
  where
    absent :
        (v : ℕ)
        → (not (v == u) && elem v p.class_order)
          ≡ is_there (if v == u then none else find_class p.classes v)
    absent v = elim (Bool-cases (v == u)) [
      | inl same ↦ rw same refl
      | inr other ↦ rw other (i.same_ids v)
    ]

    own :
        (v : ℕ) (c : ClassNode)
        → (if v == u then none else find_class p.classes v) ≡ some c
        → c.uuid ≡ v
    own v c h = elim (Bool-cases (v == u)) [
      | inl same ↦ let gone = rw same at h in absurd (cc)
      | inr other ↦ i.own_id v c (rw other at h)
    ]
