-- ===== src/Model/Uses.antt =====
-- crates/nemclass-model/src/project.rs: what every use of a project keeps, and what a removal does.
use mathlib.Core.Path.{subst}
use mathlib.Core.Bool.{false≢true}
use nemclass.Common.{
  ℕ, ◌<◌, ◌≡◌, refl, sym, ap, ◌∙◌, ◌≢◌, inl, inr, Bool, true, false, not, ◌&&◌, Option, none, some,
  List, [], ◌∷◌, arith, ltb, ◌==◌, if◌then◌else◌, ltb→lt, ==_iff, Bool-cases, and_both, is_some_and,
  length, filter, filter-hit, filter-miss,
}
use nemclass.Common.Outcome.{Outcome, ok, err, diverged}
use nemclass.Model.Stored.{ModelError, class_referenced, class_not_found, Uuids}
use nemclass.Model.Project.{
  ClassNode, children_reference_class, EnumDescription, Classes, Project, new_project, find_class,
  drop_class, get_class, add_class, update_class, referrers, remove_class,
}
use nemclass.Model.Maps.{IsDistinct, keys, elem, elem-keys, find_class-drop_class}
use nemclass.Model.Order.{
  IsProject, new_project-IsProject, add_class-IsProject, update_class-IsProject, dropped-IsProject,
}

module _ (ids : Uuids) where
  -- What the program does with a project.
  pub data Step (p : Project) : Project → Type 0 where
    added : (c : ClassNode) → Step p (add_class p c)
    removed : (u : ℕ) → Step p (remove_class ids p u).0
    updated :
        (u : ℕ) (f : ClassNode → ClassNode)
        → ((c : ClassNode) → (f c).uuid ≡ c.uuid)
        → Step p (update_class p u f)
    renamed : (name : List ℕ) → Step p (record p { name = name })
    enums_set : (enums : List EnumDescription) → Step p (record p { enums = enums })

  pub data Reachable : Project → Type 0 where
    created : (name : List ℕ) → Reachable (new_project name)
    used : {p q : Project} → Reachable p → Step p q → Reachable q

module _ (ids : Uuids) where
  -- A removal of a class that is not there, of one that others refer to, and of one that goes.
  abbrev removal : Project → ℕ → Option ClassNode → Project × Outcome ModelError ClassNode
  removal p u o = elim o [
    | none ↦ (p, err (class_not_found u))
    | some c ↦
        if ltb 0 (length (referrers ids p u))
        then (p, err (class_referenced c.name (length (referrers ids p u))))
        else (
          record p {
            classes = drop_class p.classes u;
            class_order = filter (λ id. not (id == u)) p.class_order;
          },
          ok c,
        )
  ]

  removal-IsProject :
      (p : Project) (u : ℕ) (o : Option ClassNode) → IsProject p → IsProject (removal p u o).0
  removal-IsProject p u none i = i
  removal-IsProject p u (some c) i = elim (Bool-cases (ltb 0 (length (referrers ids p u)))) [
    | inl busy ↦ rw busy i
    | inr unused ↦ rw unused (dropped-IsProject p u i)
  ]

  Step-IsProject : (p q : Project) → Step ids p q → IsProject p → IsProject q
  unfolding remove_class get_class
  Step-IsProject p q (added c) i = add_class-IsProject p c i
  Step-IsProject p q (removed u) i = removal-IsProject p u (find_class p.classes u) i
  Step-IsProject p q (updated u f keeps) i = update_class-IsProject p u f keeps i
  Step-IsProject p q (renamed name) i = record {
    one_entry = i.one_entry;
    once = i.once;
    same_ids = i.same_ids;
    own_id = i.own_id;
  }
  Step-IsProject p q (enums_set enums) i = record {
    one_entry = i.one_entry;
    once = i.once;
    same_ids = i.same_ids;
    own_id = i.own_id;
  }

  -- However a project is built up, by adding, removing and changing classes, its order lists each class
  -- of its map once and nothing else, and each class stands under its own id, where changes keep the ids.
  pub Reachable-IsProject : (p : Project) → Reachable ids p → IsProject p
  Reachable-IsProject p (created name) = new_project-IsProject name
  Reachable-IsProject p (used {p = old} r s) = Step-IsProject old p s (Reachable-IsProject old r)

  -- What a removal does. It returns the class and leaves every other one, none of which refers to it; or
  -- it fails and leaves the project as it was, because there is no such class or since another one
  -- refers to it.
  abbrev pub IsRemoval : Project → ℕ → Project × Outcome ModelError ClassNode → Type 0
  IsRemoval p u (q, ok c) =
      (get_class p u ≡ some c)
      × ((v : ℕ) → get_class q v ≡ (if v == u then none else get_class p v))
      × ((v : ℕ) (d : ClassNode)
          → get_class q v ≡ some d
          → children_reference_class ids d.children u ≡ false)
  IsRemoval p u (q, err (class_not_found w)) = (q ≡ p) × (w ≡ u) × (get_class p u ≡ none)
  IsRemoval p u (q, err (class_referenced name n)) =
      (q ≡ p)
      × ((v : ℕ) × (d : ClassNode) × (v ≢ u)
          × (get_class p v ≡ some d)
          × (children_reference_class ids d.children u ≡ true))
  IsRemoval p u (q, err _) = ⊥
  IsRemoval p u (q, diverged) = ⊥

  abbrev refers : ℕ → ℕ × ClassNode → Bool
  refers u e = not (e.0 == u) && children_reference_class ids e.1.children u

  apart_of : (k u : ℕ) → not (k == u) ≡ true → k ≢ u
  apart_of k u h e = ground arith

  find_class-here :
      (k : ℕ) (c : ClassNode) (classes : Classes) → find_class ((k, c) ∷ classes) k ≡ some c
  unfolding find_class
  find_class-here k c classes = ground arith

  find_class-later :
      (k v : ℕ) (c d : ClassNode) (classes : Classes)
      → elem k (keys classes) ≡ false
      → find_class classes v ≡ some d
      → find_class ((k, c) ∷ classes) v ≡ some d
  unfolding find_class
  find_class-later k v c d classes fresh e = elim (Bool-cases (k == v)) [
    | inr other ↦ rw other e
    | inl same ↦
        let there = elem-keys classes v ∙ ap (λ o. is_some_and o (λ x. true)) e in
        absurd
          (false≢true (sym fresh ∙ ap (λ w. elem w (keys classes)) ((==_iff k v).0 same) ∙ there))
  ]

  none_refers :
      (classes : Classes) (u v : ℕ) (d : ClassNode)
      → length (filter (refers u) classes) ≡ 0
      → find_class classes v ≡ some d
      → (v == u) ≡ false
      → children_reference_class ids d.children u ≡ false
  unfolding find_class
  none_refers [] u v d h e other = absurd (cc)
  none_refers ((k, c) ∷ classes) u v d h e other = elim (Bool-cases (refers u (k, c))) [
    | inl hit ↦ absurd (omega (arith, ap length (filter-hit (refers u) (k, c) classes hit)))
    | inr miss ↦
        let rest = sym (ap length (filter-miss (refers u) (k, c) classes miss)) ∙ h in
        elim (Bool-cases (k == v)) [
          | inr later ↦ none_refers classes u v d rest (rw later at e) other
          | inl here ↦
              let stored = rw here at e in
              let same : c ≡ d = cc in
              let apart : (k == u) ≡ false = ap (λ w. w == u) ((==_iff k v).0 here) ∙ other in
              ap (λ (x : ClassNode). children_reference_class ids x.children u) (sym same)
              ∙ (rw apart at miss)
        ]
  ]

  a_referrer :
      (classes : Classes) (u : ℕ)
      → IsDistinct (keys classes)
      → 0 < length (filter (refers u) classes)
      → (v : ℕ) × (d : ClassNode) × (v ≢ u)
        × (find_class classes v ≡ some d)
        × (children_reference_class ids d.children u ≡ true)
  unfolding find_class
  a_referrer [] u h pos = absurd (omega arith)
  a_referrer ((k, c) ∷ classes) u h pos = elim (Bool-cases (refers u (k, c))) [
    | inl hit ↦
        let (apart, refs) =
          and_both (not (k == u)) (children_reference_class ids c.children u) hit in
        (k, c, apart_of k u apart, find_class-here k c classes, refs)
    | inr miss ↦
        let (v, d, apart, found, refs) =
          a_referrer classes u h.1
            (subst (λ l. 0 < length l) (filter-miss (refers u) (k, c) classes miss) pos) in
        (v, d, apart, find_class-later k v c d classes h.0 found, refs)
  ]

  pub remove_class-IsRemoval :
      (p : Project) (u : ℕ) → IsProject p → IsRemoval p u (remove_class ids p u)
  unfolding remove_class referrers get_class
  remove_class-IsRemoval p u i = of_lookup (find_class p.classes u) refl
    where
      unreferred :
          (v : ℕ) (d : ClassNode)
          → length (filter (refers u) p.classes) ≡ 0
          → (if v == u then none else find_class p.classes v) ≡ some d
          → children_reference_class ids d.children u ≡ false
      unreferred v d unused h = elim (Bool-cases (v == u)) [
        | inl same ↦ let gone = rw same at h in absurd (cc)
        | inr other ↦ none_refers p.classes u v d unused (rw other at h) other
      ]

      of_lookup :
          (o : Option ClassNode) → find_class p.classes u ≡ o → IsRemoval p u (removal p u o)
      of_lookup none e = (refl, refl, e)
      of_lookup (some c) e = elim (Bool-cases (ltb 0 (length (referrers ids p u)))) [
        | inl busy ↦ rw busy (
            (refl, a_referrer p.classes u i.one_entry (ltb→lt 0 (length (referrers ids p u)) busy)))
        | inr unused ↦ rw unused (
            (
              e,
              find_class-drop_class p.classes u,
              λ v d h.
                  unreferred v d (ground arith) (sym (find_class-drop_class p.classes u v) ∙ h),
            ))
      ]
