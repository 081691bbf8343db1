-- ===== src/Model/Layout.antt =====
-- crates/nemclass-model/src/codegen/mod.rs: the fields that the generators print
-- are those of the children, at the sums of their sizes.
use nemclass.Common.{
  ℕ, zero, suc, ◌≡◌, refl, ap, ◌∙◌, Bool, not, Option, none, some, List, [], ◌∷◌, arith, length,
  get_elem?, length-filter,
}
use nemclass.Pointer.Path.{◌>>=◌}
use nemclass.Model.Node.{saturating_add, Node, Nodes, end, node}
use nemclass.Model.Stored.{Uuids}
use nemclass.Model.Project.{ClassNode, Project, get_class}
use nemclass.Model.Maps.{elem}
use nemclass.Model.Sizes.{resolved_node_size, sum_resolved, resolved_size, resolved_class_size}
use nemclass.Model.Measured.{
  IsMeasured, resolved_node_size-IsMeasured, resolved_size-IsMeasured, unvisited-visit,
}
use nemclass.Model.Reload.{IsUuids, IsNodes}
use nemclass.Model.Printed.{IsEach, field_of-IsFieldOf}
use nemclass.Model.Fields.{FieldInfo, field_of, fields_from, resolve_fields}

abbrev pub take_nodes : ℕ → Nodes → Nodes
take_nodes zero ns = end
take_nodes (suc i) end = end
take_nodes (suc i) (node n ns) = node n (take_nodes i ns)

module _ (alphanumeric : ℕ → Bool) (ids : Uuids) (p : Project) where
  -- The children in front of the child with that index.
  abbrev pub cut_off : ℕ → ClassNode → ClassNode
  cut_off i c = record c { children = take_nodes i c.children }

  -- The fields of a class: one for each child, in order, and each at the size of the class cut off in
  -- front of it.
  pub record IsLayout (c : ClassNode) (fields : List FieldInfo) : Type 0 where
    pub resolved : resolve_fields alphanumeric ids p c ≡ some fields
    pub in_order : IsEach alphanumeric ids p c.children fields
    pub at_prefix :
        (i : ℕ) (f : FieldInfo)
        → get_elem? fields i ≡ some f
        → resolved_class_size ids p [] (cut_off i c) ≡ some f.offset

  abbrev size_at : ℕ → Node → Option ℕ
  size_at fuel n = resolved_node_size ids p (λ v d. resolved_size ids p fuel v d) [] n

  -- The fields behind an offset.
  record FieldsBehind (fuel : ℕ) (ns : Nodes) (offset : ℕ) (fields : List FieldInfo) : Type 0 where
    resolved : fields_from alphanumeric ids p fuel ns offset ≡ some fields
    in_order : IsEach alphanumeric ids p ns fields
    at_prefix :
        (i : ℕ) (f : FieldInfo)
        → get_elem? fields i ≡ some f
        → sum_resolved ids p (size_at fuel) (take_nodes i ns) offset ≡ some f.offset

  fields_from-FieldsBehind :
      (fuel : ℕ) (ns : Nodes) (offset : ℕ)
      → IsUuids ids
      → IsNodes ns
      → ((n : Node) → IsMeasured (size_at fuel n))
      → (fields : List FieldInfo) × FieldsBehind fuel ns offset fields
  unfolding fields_from sum_resolved field_of IsNodes
  fields_from-FieldsBehind fuel end offset law valid h =
      ([], record { resolved = refl; in_order = tt; at_prefix = λ i f e. absurd (cc) })
  fields_from-FieldsBehind fuel (node n ns) offset law valid h =
      of_size (size_at fuel n) refl (h n)
        (λ size. fields_from-FieldsBehind fuel ns (saturating_add offset size) law valid.1 h)
    where
      at_index :
          (size : ℕ)
          → size_at fuel n ≡ some size
          → (fields : List FieldInfo) → FieldsBehind fuel ns (saturating_add offset size) fields
          → (i : ℕ) (f : FieldInfo)
          → get_elem? (field_of alphanumeric ids p n offset size ∷ fields) i ≡ some f
          → sum_resolved ids p (size_at fuel) (take_nodes i (node n ns)) offset ≡ some f.offset
      at_index size e fields v zero f found =
          let same : field_of alphanumeric ids p n offset size ≡ f = cc in
          ap (λ (g : FieldInfo). some g.offset) same
      at_index size e fields v (suc i) f found =
          ap
            (λ o. o >>= λ s.
              sum_resolved ids p (size_at fuel) (take_nodes i ns) (saturating_add offset s))
            e
          ∙ v.at_prefix i f found

      of_size :
          (o : Option ℕ)
          → size_at fuel n ≡ o
          → IsMeasured o
          → ((size : ℕ)
              → (fields : List FieldInfo) × FieldsBehind fuel ns
                  (saturating_add offset size)
                  fields)
          → (fields : List FieldInfo) × FieldsBehind fuel (node n ns) offset fields
      of_size none e m rest = absurd m
      of_size (some size) e m rest =
          let (fields, v) = rest size in
          (
            field_of alphanumeric ids p n offset size ∷ fields,
            record {
              resolved =
                  ap
                    (λ o. o >>= λ s.
                      fields_from alphanumeric ids p fuel ns (saturating_add offset s) >>= λ fs.
                      some (field_of alphanumeric ids p n offset s ∷ fs))
                    e
                  ∙ ap (λ o. o >>= λ fs. some (field_of alphanumeric ids p n offset size ∷ fs))
                      v.resolved;
              in_order = (
                field_of-IsFieldOf alphanumeric ids p law n offset size
                    (λ u d. resolved_size ids p fuel u d) valid.0 e,
                v.in_order,
              );
              at_prefix = at_index size e fields v;
            },
          )

  -- The fields of a class come out: one for each child, in order, with the child's name as an
  -- identifier and with the kind and the comment that the child stands for; and each at an offset that is
  -- the size of the class cut off in front of it, embedded classes expanded. So the offset of a field
  -- that would follow the last one is the size of the whole class, which the generators assert. The
  -- children have sizes and shapes that nodes have, and ids are read back from their texts.
  pub resolve_fields-IsLayout :
      (c : ClassNode)
      → IsUuids ids
      → IsNodes c.children
      → (fields : List FieldInfo) × IsLayout c fields
  unfolding resolve_fields resolved_class_size resolved_size get_class
  resolve_fields-IsLayout c law valid =
      let (fields, v) =
        fields_from-FieldsBehind (length p.classes) c.children 0 law valid measured in
      (fields, record { resolved = v.resolved; in_order = v.in_order; at_prefix = v.at_prefix })
    where
      measured : (n : Node) → IsMeasured (size_at (length p.classes) n)
      measured n =
          resolved_node_size-IsMeasured ids p (λ v d. resolved_size ids p (length p.classes) v d) []
            (λ u d e fresh. resolved_size-IsMeasured ids p (length p.classes) (u ∷ []) d (
              omega (
                arith,
                unvisited-visit p.classes [] u d e fresh,
                length-filter (λ (x : ℕ × ClassNode). not (elem x.0 [])) p.classes,
              )))
            n
