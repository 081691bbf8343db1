-- ===== src/Model/Measured.antt =====
-- crates/nemclass-model/src/codegen/mod.rs: the guard against cycles ends the measuring of a class, and
-- has no effect where there are none.
use nemclass.Common.{
  ℕ, zero, suc, ◌≤◌, ◌<◌, ◌≡◌, refl, ap, ◌∙◌, inl, inr, true, false, not, Option, none, some, List,
  [], ◌∷◌, arith, ◌==◌, ==_iff, Bool-cases, length, filter, length-filter, eq_bytes,
}
use nemclass.Common.Text.{codes}
use nemclass.Pointer.Path.{◌>>=◌}
use nemclass.Model.Node.{saturating_add, Node, Nodes, end, node}
use nemclass.Model.Stored.{Uuids, to_node_def}
use nemclass.Model.Project.{ClassNode, Classes, Project, find_class, get_class}
use nemclass.Model.Maps.{elem}
use nemclass.Model.Sizes.{
  embedded_uuid, embedded_size, resolved_node_size, sum_resolved, resolved_size, size_fuel,
  resolved_class_size, project_class_size,
}

-- A measure that came to an end.
abbrev pub IsMeasured : Option ℕ → Type 0
IsMeasured none = ⊥
IsMeasured (some n) = Unit {0}

-- The classes that are not visited.
abbrev pub unvisited : Classes → List ℕ → ℕ
unvisited classes visited = length (filter (λ (e : ℕ × ClassNode). not (elem e.0 visited)) classes)

unvisited-less :
    (classes : Classes) (visited : List ℕ) (u : ℕ)
    → unvisited classes (u ∷ visited) ≤ unvisited classes visited
unvisited-less [] visited u = omega arith
unvisited-less ((k, c) ∷ classes) visited u = ground (arith, unvisited-less classes visited u)

pub unvisited-visit :
    (classes : Classes) (visited : List ℕ) (u : ℕ) (c : ClassNode)
    → find_class classes u ≡ some c
    → elem u visited ≡ false
    → unvisited classes (u ∷ visited) < unvisited classes visited
unfolding find_class
unvisited-visit [] visited u c e h = absurd (cc)
unvisited-visit ((k, d) ∷ classes) visited u c e h = elim (Bool-cases (k == u)) [
  | inl here ↦
      let same = (==_iff k u).0 here in
      let old : elem k visited ≡ false = ap (λ w. elem w visited) same ∙ h in
      let back : (u == k) ≡ true = ground arith in ground (arith, unvisited-less classes visited u)
  | inr later ↦
      let rest = unvisited-visit classes visited u c (rw later at e) h in
      let back : (u == k) ≡ false = ground arith in ground (arith, rest)
]

IsMeasured-bind :
    (o : Option ℕ) (f : ℕ → Option ℕ)
    → IsMeasured o
    → ((n : ℕ) → IsMeasured (f n))
    → IsMeasured (o >>= f)
IsMeasured-bind none f h k = absurd h
IsMeasured-bind (some n) f h k = k n

module _ (ids : Uuids) (p : Project) where
  sum_resolved-IsMeasured :
      (size_of : Node → Option ℕ) (ns : Nodes) (total : ℕ)
      → ((n : Node) → IsMeasured (size_of n))
      → IsMeasured (sum_resolved ids p size_of ns total)
  unfolding sum_resolved
  sum_resolved-IsMeasured size_of end total h = tt
  sum_resolved-IsMeasured size_of (node n ns) total h =
      IsMeasured-bind (size_of n)
        (λ size. sum_resolved ids p size_of ns (saturating_add total size)) (h n)
        (λ size. sum_resolved-IsMeasured size_of ns (saturating_add total size) h)

  embedded_size-IsMeasured :
      (enter : List ℕ → ClassNode → Option ℕ) (visited : List ℕ) (o : Option ℕ)
      → ((u : ℕ) (c : ClassNode)
          → get_class p u ≡ some c
          → elem u visited ≡ false
          → IsMeasured (enter (u ∷ visited) c))
      → IsMeasured (embedded_size ids p enter visited o)
  embedded_size-IsMeasured enter visited none h = tt
  embedded_size-IsMeasured enter visited (some u) h = elim (Bool-cases (elem u visited)) [
    | inl seen ↦ rw seen tt
    | inr fresh ↦ rw fresh (of_lookup fresh (get_class p u) refl)
  ]
    where
      of_lookup :
          elem u visited ≡ false
          → (o : Option ClassNode) → get_class p u ≡ o
          → IsMeasured (elim o [ none ↦ some 0 | some c ↦ enter (u ∷ visited) c ])
      of_lookup fresh none e = tt
      of_lookup fresh (some c) e = h u c e fresh

  pub resolved_node_size-IsMeasured :
      (enter : List ℕ → ClassNode → Option ℕ) (visited : List ℕ)
      → ((u : ℕ) (c : ClassNode)
          → get_class p u ≡ some c
          → elem u visited ≡ false
          → IsMeasured (enter (u ∷ visited) c))
      → (n : Node) → IsMeasured (resolved_node_size ids p enter visited n)
  unfolding resolved_node_size
  resolved_node_size-IsMeasured enter visited h n =
      elim (Bool-cases (eq_bytes (to_node_def ids n).type_tag (codes "ClassInstance"))) [
        | inl embeds ↦
            rw embeds
              (embedded_size-IsMeasured enter visited (embedded_uuid ids p (to_node_def ids n)) h)
        | inr own ↦ rw own tt
      ]

  pub resolved_size-IsMeasured :
      (fuel : ℕ) (visited : List ℕ) (c : ClassNode)
      → unvisited p.classes visited < fuel
      → IsMeasured (resolved_size ids p fuel visited c)
  unfolding resolved_size get_class
  resolved_size-IsMeasured zero visited c h = absurd (omega arith)
  resolved_size-IsMeasured (suc fuel) visited c h =
      sum_resolved-IsMeasured
        (resolved_node_size ids p (λ v d. resolved_size ids p fuel v d) visited) c.children 0
        (resolved_node_size-IsMeasured (λ v d. resolved_size ids p fuel v d) visited
          (λ u d e fresh.
            resolved_size-IsMeasured fuel (u ∷ visited) d
              (omega (arith, unvisited-visit p.classes visited u d e fresh))))

  -- The size of a class comes out, whatever the classes embed, cycles included: with one unit of fuel for
  -- each class of the project and one more, no class is entered without fuel.
  pub project_class_size-IsMeasured : (u : ℕ) → IsMeasured (project_class_size ids p u)
  unfolding project_class_size resolved_class_size
  project_class_size-IsMeasured u = of_lookup (get_class p u)
    where
      of_lookup :
          (o : Option ClassNode)
          → IsMeasured (elim o [ none ↦ some 0 | some c ↦ resolved_class_size ids p (u ∷ []) c ])
      of_lookup none = tt
      of_lookup (some c) =
          resolved_size-IsMeasured (size_fuel ids p) (u ∷ []) c (
            omega (arith, length-filter (λ (e : ℕ × ClassNode). not (elem e.0 (u ∷ []))) p.classes))
