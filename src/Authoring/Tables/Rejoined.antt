-- ===== src/Authoring/Tables/Rejoined.antt =====
-- The rows of new nodes and edges, and what they read back as.
use orqent.Base.{
  ℕ, suc, ◌+◌, ◌≤◌, ◌<◌, String, List, [], ◌∷◌, ◌++◌, some, Bool, true, false, ◌==◌, eqb, eqb→eq,
  eq_iff, length, filter, All, All-In, All-weaken, Dict, lookup, insert, lookup-insert, ok,
  >>=-eq-ok, ok-injective, find_row, find_row-some, ◌≡◌, refl, ap, ◌∙◌, arith, inl, inr, ◌⊎◌,
  Bool-cases,
}
use mathlib.Core.Path.{subst}
use orqent.Graph.Model.{GraphEdge}
use orqent.Authoring.Tables.{
  Authored, NodeRow, EdgeRow, id_at, edge_rows, has_node_id, inserted, ids_of, joined_edges,
}

-- Both ends of an edge are nodes of its own version.
abbrev pub Anchored : {V : Type 0} → List (NodeRow V) → EdgeRow → Type 0
Anchored {V} nodes e =
    ((s : NodeRow V) × (find_row (has_node_id e.source_node_id) nodes ≡ some s)
      × (s.workflow_version_id ≡ e.workflow_version_id))
    × ((t : NodeRow V) × (find_row (has_node_id e.target_node_id) nodes ≡ some t)
        × (t.workflow_version_id ≡ e.workflow_version_id))

module _ {V : Type 0} where
  pub inserted_ids :
      (version_id first : ℕ) (nodes : List (Authored V))
      → All
          (λ (n : NodeRow V).
            (first ≤ n.id) × (n.id < first + length nodes) × (n.workflow_version_id ≡ version_id))
          (inserted version_id first nodes)
  unfolding inserted
  inserted_ids version_id first [] = tt
  inserted_ids version_id first (node ∷ nodes) = (
    (omega arith, omega arith, refl),
    All-weaken _ _ (λ row h. (omega arith, omega arith, h.2))
        (inserted version_id (suc first) nodes) (inserted_ids version_id (suc first) nodes),
  )

  -- A key of the dict of ids names a new node that has the key.
  ids_of_lem :
      (version_id first : ℕ) (nodes : List (Authored V)) (ids : Dict ℕ) (key : String) (id : ℕ)
      → lookup key (ids_of ids (inserted version_id first nodes)) ≡ some id
      → (lookup key ids ≡ some id)
        ⊎ ((row : NodeRow V) × (find_row (has_node_id id) (inserted version_id first nodes)
              ≡ some row)
            × (row.authored.node_key ≡ key))
  unfolding inserted ids_of find_row
  ids_of_lem version_id first [] ids key id h = inl h
  ids_of_lem version_id first (node ∷ nodes) ids key id h =
      elim (ids_of_lem version_id (suc first) nodes (insert node.node_key first ids) key id h) [
        | inl old ↦
            let there = lookup-insert node.node_key key first ids in
            elim (Bool-cases (node.node_key == key)) [
              | inl e ↦
                  let same : first ≡ id = ground arith in
                  let hit : eqb first id ≡ true = ground arith in
                  inr (
                    record { id = first; workflow_version_id = version_id; authored = node },
                    rw hit refl,
                    (eq_iff node.node_key key).0 e,
                  )
              | inr e ↦ inl (ground arith)
            ]
        | inr (row, found, keyed) ↦
            let (m, fits) =
              find_row-some (has_node_id id) (inserted version_id (suc first) nodes) row found in
            let range =
              All-In _ row (inserted version_id (suc first) nodes)
                (inserted_ids version_id (suc first) nodes) m in
            let same = eqb→eq row.id id fits in
            let miss : eqb first id ≡ false = ground arith in inr (row, rw miss found, keyed)
      ]

  find_row-beyond :
      (id bound : ℕ) (old new : List (NodeRow V))
      → All (λ (n : NodeRow V). n.id < bound) old
      → bound ≤ id
      → find_row (has_node_id id) (old ++ new) ≡ find_row (has_node_id id) new
  unfolding find_row
  find_row-beyond id bound [] new h le = refl
  find_row-beyond id bound (n ∷ old) new (here, later) le =
      let miss : eqb n.id id ≡ false = ground arith in
      rw miss (find_row-beyond id bound old new later le)

  -- What a filter keeps is still found, also before more rows.
  pub find_row-kept :
      (id : ℕ) (keep : NodeRow V → Bool) (old new : List (NodeRow V)) (row : NodeRow V)
      → find_row (has_node_id id) old ≡ some row
      → keep row ≡ true
      → find_row (has_node_id id) (filter keep old ++ new) ≡ some row
  unfolding find_row
  find_row-kept id keep [] new row h k = cc
  find_row-kept id keep (n ∷ old) new row h k = elim (Bool-cases (eqb n.id id)) [
    | inl hit ↦
        let same : n ≡ row = ground arith in
        let kept : keep n ≡ true = ap keep same ∙ k in rw (kept, hit) (ap some same)
    | inr miss ↦
        let ih = find_row-kept id keep old new row (rw miss at h) k in
        elim (Bool-cases (keep n)) [ inl yes_kept ↦ rw (yes_kept, miss) ih | inr gone ↦ rw gone ih ]
  ]

  -- The rows of the new edges, read back among the new nodes.
  module _ (version_id first : ℕ) (nodes : List (Authored V)) (old : List (NodeRow V))
      (below : All (λ (n : NodeRow V). n.id < first) old) where
    new_end :
        (key : String) (id : ℕ)
        → id_at key (ids_of [] (inserted version_id first nodes)) ≡ ok id
        → (row : NodeRow V) × (find_row (has_node_id id) (old ++ inserted version_id first nodes)
            ≡ some row)
          × (row.workflow_version_id ≡ version_id)
          × (row.authored.node_key ≡ key)
    unfolding lookup
    new_end key id h = elim (ids_of_lem version_id first nodes [] key id (ground arith)) [
      | inl nothing ↦ cc
      | inr (row, found, keyed) ↦
          let new = inserted version_id first nodes in
          let (m, fits) = find_row-some (has_node_id id) new row found in
          let range = All-In _ row new (inserted_ids version_id first nodes) m in
          let same = eqb→eq row.id id fits in
          (row, find_row-beyond id first old new below (omega arith) ∙ found, range.2, keyed)
    ]

    -- Rows that read back as the edges.
    pub record Rejoined (edges : List GraphEdge) (joins : List EdgeRow) : Type 0 where
      pub inside : All (λ (e : EdgeRow). eqb e.workflow_version_id version_id ≡ true) joins
      pub ends : All (Anchored (old ++ inserted version_id first nodes)) joins
      pub back : joined_edges (old ++ inserted version_id first nodes) joins ≡ edges

    pub edge_rows_lem :
        (edges : List GraphEdge) {joins : List EdgeRow}
        → edge_rows version_id (ids_of [] (inserted version_id first nodes)) edges ≡ ok joins
        → Rejoined edges joins
    unfolding edge_rows joined_edges
    edge_rows_lem [] h =
        subst (Rejoined []) (ok-injective h) (record { inside = tt; ends = tt; back = refl })
    edge_rows_lem (edge ∷ edges) h =
        let ids = ids_of [] (inserted version_id first nodes) in
        let (source, s, h1) = >>=-eq-ok (id_at edge.source_key ids) _ h in
        let (target, t, h2) = >>=-eq-ok (id_at edge.target_key ids) _ h1 in
        let (rows, r, h3) = >>=-eq-ok (edge_rows version_id ids edges) _ h2 in
        let rest = edge_rows_lem edges r in
        let (a, found_a, va, ka) = new_end edge.source_key source s in
        let (b, found_b, vb, kb) = new_end edge.target_key target t in
        subst (Rejoined (edge ∷ edges)) (ok-injective h3) (record {
          inside =
              ((let same : eqb version_id version_id ≡ true = ground arith in same), rest.inside);
          ends = (((a, found_a, va), (b, found_b, vb)), rest.ends);
          back = rw (found_a, found_b, joined_edges) (rw (ka, kb, rest.back) refl);
        })
