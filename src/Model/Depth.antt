-- ===== src/Model/Depth.antt =====
-- crates/nemclass-model/src/node/registry.rs: the guard on the nesting measures the height of the tree,
-- and a stored node within it is read back.
use mathlib.Core.Path.{ap₂}
use nemclass.Common.{
  ℕ, zero, suc, ◌+◌, ◌≤◌, ◌<◌, max, ◌≡◌, refl, ap, ◌∙◌, ◌⊎◌, inl, inr, Bool, true, false, ◌&&◌,
  List, [], ◌∷◌, arith, ltb, leb, if◌then◌else◌, Bool-cases, all,
}
use nemclass.Common.Outcome.{Outcome, ok, err, ◌>>◌}
use nemclass.Model.Node.{Node, leaf, vtable, class, Nodes, end, node}
use nemclass.Model.Stored.{
  ModelError, max_depth_exceeded, NodeDef, node_def, NodeDefs, no_defs, defs, Uuids,
  serialize_node_recursive, serialize_children,
}
use nemclass.Model.Registry.{
  max_node_depth, push_children, depth_loop, count_nodes, count_children, check_node_depth,
  deserialize_node, deserialize_node_inner,
}
use nemclass.Model.Reload.{IsUuids, IsNode, reload}

-- The nodes on the longest way down.
unfoldable mutual
  pub height : NodeDef → ℕ
  height (node_def head children) = suc (heights children)

  pub heights : NodeDefs → ℕ
  heights no_defs = 0
  heights (defs d ds) = max (height d) (heights ds)

-- Whether the tree on the stack stays within the cap.
abbrev within : NodeDef × ℕ → Bool
within entry = leb (entry.1 + height entry.0) (max_node_depth + 1)

abbrev stack_nodes : List (NodeDef × ℕ) → ℕ
stack_nodes [] = 0
stack_nodes (entry ∷ stack) = count_nodes entry.0 + stack_nodes stack

stack_nodes-push_children :
    (ds : NodeDefs) (depth : ℕ) (stack : List (NodeDef × ℕ))
    → stack_nodes (push_children ds depth stack) ≡ count_children ds + stack_nodes stack
unfolding push_children count_children
stack_nodes-push_children no_defs depth stack = omega arith
stack_nodes-push_children (defs d ds) depth stack =
    omega (arith, stack_nodes-push_children ds depth ((d, depth) ∷ stack))

bounds_joined :
    (k a b n : ℕ) (r : Bool) → (leb (k + b) n && (leb (k + a) n && r)) ≡ (leb (k + max a b) n && r)
bounds_joined k a b n r = ground arith

all-push_children :
    (ds : NodeDefs) (depth : ℕ) (stack : List (NodeDef × ℕ))
    → depth ≤ max_node_depth + 1
    → all within (push_children ds depth stack)
      ≡ (leb (depth + heights ds) (max_node_depth + 1) && all within stack)
unfolding push_children heights
all-push_children no_defs depth stack h = ground arith
all-push_children (defs d ds) depth stack h =
    all-push_children ds depth ((d, depth) ∷ stack) h
    ∙ bounds_joined depth (height d) (heights ds) (max_node_depth + 1) (all within stack)

count_nodes_pos : (d : NodeDef) → 0 < count_nodes d
unfolding count_nodes
count_nodes_pos (node_def head children) = omega arith

abbrev verdict_of : Bool → Outcome ModelError (Unit {0})
verdict_of true = ok tt
verdict_of false = err (max_depth_exceeded max_node_depth)

-- With a unit of fuel for each node, the loop says whether every tree on the stack is within the cap.
depth_loop-all :
    (fuel : ℕ) (stack : List (NodeDef × ℕ))
    → stack_nodes stack ≤ fuel
    → depth_loop fuel stack ≡ verdict_of (all within stack)
unfolding depth_loop height count_nodes
depth_loop-all fuel [] h = refl
depth_loop-all zero (entry ∷ stack) h = absurd (omega (arith, count_nodes_pos entry.0))
depth_loop-all (suc fuel) ((node_def head children, depth) ∷ stack) h =
    elim (Bool-cases (ltb max_node_depth depth)) [
      | inl deep ↦
          let outside : leb (depth + suc (heights children)) (max_node_depth + 1) ≡ false =
            ground arith in
          rw (deep, outside) refl
      | inr shallow ↦ rw shallow (
          depth_loop-all fuel (push_children children (depth + 1) stack)
            (omega (arith, stack_nodes-push_children children (depth + 1) stack))
          ∙ ap verdict_of (
              all-push_children children (depth + 1) stack (ground arith)
              ∙ ap (λ n. leb n (max_node_depth + 1) && all within stack)
                  (next_depth depth (heights children))))
    ]
  where
    next_depth : (k n : ℕ) → k + 1 + n ≡ k + suc n
    next_depth k n = omega arith

-- The check accepts a definition if and only if its nodes are nested 128 deep at most, and always ends.
pub check_node_depth-height :
    (d : NodeDef)
    → check_node_depth d
      ≡ (if leb (height d) max_node_depth then ok tt else err (max_depth_exceeded max_node_depth))
unfolding check_node_depth
check_node_depth-height d =
    depth_loop-all (count_nodes d) ((d, 1) ∷ []) (omega arith)
    ∙ verdict (Bool-cases (leb (height d) max_node_depth))
  where
    verdict :
        (leb (height d) max_node_depth ≡ true) ⊎ (leb (height d) max_node_depth ≡ false)
        → verdict_of (leb (1 + height d) (max_node_depth + 1) && true) ≡ (
            if leb (height d) max_node_depth
            then ok tt
            else err (max_depth_exceeded max_node_depth))
    verdict h = ground arith

-- A tree of the model.
unfoldable mutual
  pub node_height : Node → ℕ
  node_height (leaf label l) = 1
  node_height (vtable label children) = suc (nodes_height children)
  node_height (class label uuid formula children) = suc (nodes_height children)

  pub nodes_height : Nodes → ℕ
  nodes_height end = 0
  nodes_height (node n ns) = max (node_height n) (nodes_height ns)

module _ (ids : Uuids) where
  mutual
    unfolding node_height height serialize_node_recursive

    height-serialize : (n : Node) → height (serialize_node_recursive ids n) ≡ node_height n
    height-serialize (leaf label l) = refl
    height-serialize (vtable label children) = ap suc (heights-serialize children)
    height-serialize (class label uuid formula children) = ap suc (heights-serialize children)

    heights-serialize : (ns : Nodes) → heights (serialize_children ids ns) ≡ nodes_height ns
    heights-serialize end = refl
    heights-serialize (node n ns) = ap₂ max (height-serialize n) (heights-serialize ns)

  -- Within the cap the check passes.
  pub deserialize_node_shallow :
      (d : NodeDef)
      → height d ≤ max_node_depth
      → deserialize_node ids d ≡ deserialize_node_inner ids d
  unfolding deserialize_node
  deserialize_node_shallow d low =
      let shallow : leb (height d) max_node_depth ≡ true = ground arith in
      ap (λ o. o >> deserialize_node_inner ids d)
        (check_node_depth-height d
          ∙ ap (λ b. if b then ok tt else err (max_depth_exceeded max_node_depth)) shallow)

  -- A node that is stored with its children is read back as it was, where it is nested 128 deep at most
  -- and its sizes and shapes are those that nodes have; ids are read back from their texts.
  pub deserialize_node-serialize_node_recursive :
      (n : Node)
      → IsUuids ids
      → IsNode n
      → node_height n ≤ max_node_depth
      → deserialize_node ids (serialize_node_recursive ids n) ≡ ok n
  deserialize_node-serialize_node_recursive n law h low =
      deserialize_node_shallow (serialize_node_recursive ids n) (omega (arith, height-serialize n))
      ∙ reload ids law n h
