-- ===== src/Model/Acyclic.antt =====
-- crates/nemclass-model/src/codegen/mod.rs and project.rs: without cycles the set of visited classes has
-- no effect on the sizes.
use mathlib.Core.Bool.{false≢true}
use nemclass.Common.{
  ℕ, zero, suc, ◌≤◌, ◌<◌, ◌≡◌, refl, sym, ap, ◌∙◌, inl, inr, true, Option, none, some, List, [],
  ◌∷◌, arith, ◌==◌, ==_iff, Bool-cases, eq_bytes,
}
use nemclass.Common.Text.{codes}
use nemclass.Pointer.Path.{◌>>=◌}
use nemclass.Model.Node.{saturating_add, Node, Nodes, end, node}
use nemclass.Model.Stored.{Uuids, to_node_def}
use nemclass.Model.Project.{ClassNode, Project, get_class}
use nemclass.Model.Maps.{elem}
use nemclass.Model.Sizes.{
  embedded_uuid, embedded_size, resolved_node_size, sum_resolved, resolved_size, size_fuel,
  resolved_class_size, project_class_size,
}

module _ (ids : Uuids) (p : Project) (rank : ℕ → ℕ) where
  -- The classes that the nodes embed rank below the bound.
  abbrev pub IsBelow : ℕ → Nodes → Type 0
  IsBelow bound end = Unit {0}
  IsBelow bound (node n ns) =
      ((u : ℕ)
        → eq_bytes (to_node_def ids n).type_tag (codes "ClassInstance") ≡ true
        → embedded_uuid ids p (to_node_def ids n) ≡ some u
        → rank u < bound)
      × IsBelow bound ns

  -- Classes embed only classes of a lower rank.
  abbrev pub IsAcyclic : Type 0
  IsAcyclic = (u : ℕ) (c : ClassNode) → get_class p u ≡ some c → IsBelow (rank u) c.children

  abbrev IsAbove : ℕ → List ℕ → Type 0
  IsAbove bound visited = (w : ℕ) → elem w visited ≡ true → bound ≤ rank w

  abbrev enter_with : ℕ → List ℕ → ClassNode → Option ℕ
  enter_with fuel v d = resolved_size ids p fuel v d

  abbrev enter_class : ℕ → List ℕ → Option ClassNode → Option ℕ
  enter_class fuel visited o = elim o [ none ↦ some 0 | some c ↦ enter_with fuel visited c ]

  -- A class that is entered ranks below those that are visited.
  entered_ranks_lowest :
      (u bound : ℕ) (visited : List ℕ)
      → rank u ≤ bound
      → IsAbove bound visited
      → IsAbove (rank u) (u ∷ visited)
  entered_ranks_lowest u bound visited h above w seen = elim (Bool-cases (u == w)) [
    | inl same ↦ let e : rank u ≡ rank w = ap rank ((==_iff u w).0 same) in omega arith
    | inr other ↦ let old : elem w visited ≡ true = rw other at seen in omega (arith, above w old)
  ]

  nothing_ranks_lower : (bound : ℕ) → IsAbove bound []
  nothing_ranks_lower bound w seen = absurd (false≢true seen)

  -- A node whose embedded class is not visited.
  node_unvisited :
      (fuel bound : ℕ) (visited : List ℕ) (n : Node) (ns : Nodes)
      → ((u : ℕ) (c : ClassNode)
          → get_class p u ≡ some c
          → rank u < bound
          → enter_with fuel (u ∷ visited) c ≡ enter_with fuel (u ∷ []) c)
      → IsAbove bound visited
      → IsBelow bound (node n ns)
      → resolved_node_size ids p (enter_with fuel) visited n
        ≡ resolved_node_size ids p (enter_with fuel) [] n
  unfolding resolved_node_size
  node_unvisited fuel bound visited n ns h above below =
      elim (Bool-cases (eq_bytes (to_node_def ids n).type_tag (codes "ClassInstance"))) [
        | inr own ↦ rw own refl
        | inl embeds ↦
            rw embeds
              (of_uuid (embedded_uuid ids p (to_node_def ids n)) (λ u e. below.0 u embeds e))
      ]
    where
      of_class :
          (u : ℕ)
          → rank u < bound
          → (o : Option ClassNode) → get_class p u ≡ o
          → enter_class fuel (u ∷ visited) o ≡ enter_class fuel (u ∷ []) o
      of_class u low none e = refl
      of_class u low (some c) e = h u c e low

      of_uuid :
          (o : Option ℕ)
          → ((u : ℕ) → o ≡ some u → rank u < bound)
          → embedded_size ids p (enter_with fuel) visited o
            ≡ embedded_size ids p (enter_with fuel) [] o
      of_uuid none low = refl
      of_uuid (some u) low = elim (Bool-cases (elem u visited)) [
        | inl seen ↦ absurd (omega (arith, low u refl, above u seen))
        | inr fresh ↦ rw fresh (of_class u (low u refl) (get_class p u) refl)
      ]

  sum_unvisited :
      (fuel bound : ℕ) (visited : List ℕ) (ns : Nodes) (total : ℕ)
      → ((u : ℕ) (c : ClassNode)
          → get_class p u ≡ some c
          → rank u < bound
          → enter_with fuel (u ∷ visited) c ≡ enter_with fuel (u ∷ []) c)
      → IsAbove bound visited
      → IsBelow bound ns
      → sum_resolved ids p (resolved_node_size ids p (enter_with fuel) visited) ns total
        ≡ sum_resolved ids p (resolved_node_size ids p (enter_with fuel) []) ns total
  unfolding sum_resolved
  sum_unvisited fuel bound visited end total h above below = refl
  sum_unvisited fuel bound visited (node n ns) total h above below =
      ap
        (λ o. o >>= λ size.
          sum_resolved ids p (resolved_node_size ids p (enter_with fuel) visited) ns
            (saturating_add total size))
        (node_unvisited fuel bound visited n ns h above below)
      ∙ then_rest (resolved_node_size ids p (enter_with fuel) [] n)
          (λ size. sum_unvisited fuel bound visited ns (saturating_add total size) h above below.1)
    where
      then_rest :
          {f g : ℕ → Option ℕ} (o : Option ℕ)
          → ((size : ℕ) → f size ≡ g size)
          → (o >>= f) ≡ (o >>= g)
      then_rest none same = refl
      then_rest (some size) same = same size

  resolved_unvisited :
      (fuel bound : ℕ) (visited : List ℕ) (c : ClassNode)
      → IsAcyclic
      → IsAbove bound visited
      → IsBelow bound c.children
      → resolved_size ids p fuel visited c ≡ resolved_size ids p fuel [] c
  unfolding resolved_size
  resolved_unvisited zero bound visited c acyclic above below = refl
  resolved_unvisited (suc fuel) bound visited c acyclic above below =
      sum_unvisited fuel bound visited c.children 0
        (λ u d e low.
          resolved_unvisited fuel (rank u) (u ∷ visited) d acyclic
            (entered_ranks_lowest u bound visited (omega arith) above) (acyclic u d e)
          ∙ sym (
              resolved_unvisited fuel (rank u) (u ∷ []) d acyclic
                (entered_ranks_lowest u (rank u) [] (omega arith) (nothing_ranks_lower (rank u)))
                (acyclic u d e)))
        above below

  -- Where classes embed only classes of a lower rank, the size that the user interface lays a class out
  -- with is the one that the code generators print, although these start with nothing visited.
  pub project_class_size-resolved_class_size :
      (u : ℕ) (c : ClassNode)
      → IsAcyclic
      → get_class p u ≡ some c
      → project_class_size ids p u ≡ resolved_class_size ids p [] c
  unfolding project_class_size resolved_class_size
  project_class_size-resolved_class_size u c acyclic e =
      ap (λ o. elim o [ none ↦ some 0 | some d ↦ resolved_class_size ids p (u ∷ []) d ]) e
      ∙ resolved_unvisited (size_fuel ids p) (rank u) (u ∷ []) c acyclic
          (entered_ranks_lowest u (rank u) [] (omega arith) (nothing_ranks_lower (rank u)))
          (acyclic u c e)
