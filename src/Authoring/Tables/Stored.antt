-- ===== src/Authoring/Tables/Stored.antt =====
-- What a stored graph is when it is read back, and that other versions do not notice.
use orqent.Base.{
  ℕ, suc, ◌+◌, ◌<◌, List, [], ◌∷◌, ◌++◌, map, some, true, false, not, eqb, eqb→eq, length, filter,
  All, All-weaken, ok, >>=-eq-ok, ok-injective, find_row, ◌≡◌, ◌≢◌, refl, sym, ap, ◌∙◌, arith, inl,
  inr, Bool-cases,
}
use orqent.Graph.Model.{GraphEdge}
use orqent.Authoring.Tables.{
  Authored, NodeRow, EdgeRow, Tables, same_ends, repeated, edge_rows, of_version, has_node_id,
  edge_between, same_node_key, inserted, ids_of, replace_graph, nodes_of, as_graph, joined_edges,
  edges_of, load_graph,
}
use orqent.Authoring.Tables.Filters.{
  filter-all, filter-none, filter-replaced, filter-filter, All-concat, All-kept, All-both,
  All-filter,
}
use orqent.Authoring.Tables.Rejoined.{
  Anchored, inserted_ids, find_row-kept, Rejoined, edge_rows_lem,
}

-- Ids are below the counter, and the foreign keys of edges stay inside a version.
pub record IsSound {V : Type 0} (t : Tables V) : Type 0 where
  pub ids : All (λ (n : NodeRow V). n.id < t.next_node_id) t.nodes
  pub ends : All (Anchored t.nodes) t.edges

module _ {V : Type 0} where
  map-inserted :
      (version_id first : ℕ) (nodes : List (Authored V))
      → map (λ (n : NodeRow V). n.authored) (inserted version_id first nodes) ≡ nodes
  unfolding inserted
  map-inserted version_id first [] = refl
  map-inserted version_id first (node ∷ nodes) =
      ap (λ rest. node ∷ rest) (map-inserted version_id (suc first) nodes)

  other_version : (v : ℕ) (n : NodeRow V) → n.workflow_version_id ≢ v → of_version v n ≡ false
  other_version v n differ = elim (Bool-cases (of_version v n)) [
    | inl e ↦ absurd (differ (eqb→eq n.workflow_version_id v e))
    | inr e ↦ e
  ]

  found_kept :
      (v w id : ℕ) (old new : List (NodeRow V)) (row : NodeRow V)
      → w ≢ v
      → find_row (has_node_id id) old ≡ some row
      → row.workflow_version_id ≡ w
      → find_row (has_node_id id) (filter (λ (n : NodeRow V). not (of_version v n)) old ++ new)
        ≡ some row
  found_kept v w id old new row differ found same =
      find_row-kept id (λ (n : NodeRow V). not (of_version v n)) old new row found
        (ap not (other_version v row (λ e. differ (sym same ∙ e))))

  Anchored-kept :
      (v : ℕ) (old new : List (NodeRow V)) (e : EdgeRow)
      → e.workflow_version_id ≢ v
      → Anchored old e
      → Anchored (filter (λ (n : NodeRow V). not (of_version v n)) old ++ new) e
  Anchored-kept v old new e differ ((s, found_s, vs), (t, found_t, vt)) =
      let w = e.workflow_version_id in
      (
        (s, found_kept v w e.source_node_id old new s differ found_s vs, vs),
        (t, found_kept v w e.target_node_id old new t differ found_t vt, vt),
      )

  -- The joins of edges that are anchored among both lists of nodes in the same rows.
  joined_edges-kept :
      (v : ℕ) (old new : List (NodeRow V)) (rows : List EdgeRow)
      → All (λ (e : EdgeRow). e.workflow_version_id ≢ v) rows
      → All (Anchored old) rows
      → joined_edges (filter (λ (n : NodeRow V). not (of_version v n)) old ++ new) rows
        ≡ joined_edges old rows
  unfolding joined_edges
  joined_edges-kept v old new [] differ ends = refl
  joined_edges-kept v old new (e ∷ rows) (differ, later)
        (((s, found_s, vs), (t, found_t, vt)), ends) =
      let w = e.workflow_version_id in
      let kept_s = found_kept v w e.source_node_id old new s differ found_s vs in
      let kept_t = found_kept v w e.target_node_id old new t differ found_t vt in
      rw (found_s, found_t, kept_s, kept_t, joined_edges)
        (ap (λ rest. edge_between s t e ∷ rest) (joined_edges-kept v old new rows later ends))

  module _ (v : ℕ) (nodes : List (Authored V)) (edges : List GraphEdge) (t : Tables V)
      {t' : Tables V} (sound : IsSound t) (replaced : replace_graph v nodes edges t ≡ ok t') where
    -- What a successful replacement wrote.
    record Replaced : Type 0 where
      joins : List EdgeRow
      resolved :
          Rejoined v t.next_node_id nodes
            (filter (λ (n : NodeRow V). not (of_version v n)) t.nodes)
            (All-filter _ _ t.nodes sound.ids)
            edges
            joins
      nodes_after :
          t'.nodes
          ≡ filter (λ (n : NodeRow V). not (of_version v n)) t.nodes
            ++ inserted v t.next_node_id nodes
      edges_after :
          t'.edges ≡ filter (λ (e : EdgeRow). not (eqb e.workflow_version_id v)) t.edges ++ joins
      counter : t'.next_node_id ≡ t.next_node_id + length nodes

    replaced_parts : Replaced
    unfolding replace_graph
    replaced_parts = elim (Bool-cases (repeated same_node_key nodes)) [
      | inl twice ↦ cc (rw (twice, replace_graph) at replaced)
      | inr apart ↦
          let rows = inserted v t.next_node_id nodes in
          let (joins, resolved, rest) =
            >>=-eq-ok (edge_rows v (ids_of [] rows) edges) _
              (rw (apart, replace_graph) at replaced) in
          elim (Bool-cases (repeated same_ends joins)) [
            | inl twice ↦ cc (rw twice at rest)
            | inr once ↦
                let written = rw once at rest in
                record {
                  joins = joins;
                  resolved =
                      edge_rows_lem v t.next_node_id nodes
                        (filter (λ (n : NodeRow V). not (of_version v n)) t.nodes)
                        (All-filter _ _ t.nodes sound.ids) edges resolved;
                  nodes_after = sym (ap (λ (r : Tables V). r.nodes) (ok-injective written));
                  edges_after = sym (ap (λ (r : Tables V). r.edges) (ok-injective written));
                  counter = sym (ap (λ (r : Tables V). r.next_node_id) (ok-injective written));
                }
          ]
    ]

    replaced_own : nodes_of v t' ≡ inserted v t.next_node_id nodes
    unfolding nodes_of
    replaced_own =
        let r = replaced_parts in
        let new = inserted v t.next_node_id nodes in
        ap (filter (of_version v)) r.nodes_after
        ∙ filter-replaced (of_version v) t.nodes new
        ∙ filter-all (of_version v) new (
            All-weaken _ _ (λ n h. let same = h.2 in ground arith) new
              (inserted_ids v t.next_node_id nodes))

    replaced_edges : edges_of v t' ≡ edges
    unfolding edges_of
    replaced_edges =
        let r = replaced_parts in
        let inside = λ (e : EdgeRow). eqb e.workflow_version_id v in
        ap (λ ns. joined_edges ns (filter inside t'.edges)) r.nodes_after
        ∙ ap
            (λ es.
              joined_edges
                (filter (λ (n : NodeRow V). not (of_version v n)) t.nodes
                  ++ inserted v t.next_node_id nodes)
                (filter inside es))
            r.edges_after
        ∙ ap (joined_edges _)
            (filter-replaced inside t.edges r.joins ∙ filter-all inside r.joins r.resolved.inside)
        ∙ r.resolved.back

    replaced_others : (w : ℕ) → w ≢ v → nodes_of w t' ≡ nodes_of w t
    unfolding nodes_of
    replaced_others w differ =
        let r = replaced_parts in
        let new = inserted v t.next_node_id nodes in
        ap (filter (of_version w)) r.nodes_after
        ∙ filter-none (of_version w) new (filter (λ (n : NodeRow V). not (of_version v n)) t.nodes)
            (All-weaken _ _ (λ n h. other_version w n (λ same. differ (sym same ∙ h.2))) new
              (inserted_ids v t.next_node_id nodes))
        ∙ filter-filter (of_version w) (λ (n : NodeRow V). not (of_version v n)) t.nodes
            (λ n e.
              ap not (
                other_version v n (λ same. differ (sym (eqb→eq n.workflow_version_id w e) ∙ same))))

    other_edges : (w : ℕ) → w ≢ v → edges_of w t' ≡ edges_of w t
    unfolding edges_of
    other_edges w differ =
        let r = replaced_parts in
        let of_w = λ (e : EdgeRow). eqb e.workflow_version_id w in
        let keep = λ (e : EdgeRow). not (eqb e.workflow_version_id v) in
        let new = inserted v t.next_node_id nodes in
        let same_rows : filter of_w t'.edges ≡ filter of_w t.edges =
          ap (filter of_w) r.edges_after
          ∙ filter-none of_w r.joins (filter keep t.edges) (
              All-weaken _ _ (λ e h. miss e w (λ same. differ (sym same ∙ eqb→eq _ v h))) r.joins
                r.resolved.inside)
          ∙ filter-filter of_w keep t.edges
              (λ e h. ap not (miss e v (λ same. differ (sym (eqb→eq _ w h) ∙ same)))) in
        ap (λ ns. joined_edges ns (filter of_w t'.edges)) r.nodes_after
        ∙ ap (joined_edges _) same_rows
        ∙ joined_edges-kept v t.nodes new (filter of_w t.edges)
            (All-weaken _ _ (λ e h same. differ (sym (eqb→eq e.workflow_version_id w h) ∙ same))
              (filter of_w t.edges) (All-kept of_w t.edges))
            (All-filter _ of_w t.edges sound.ends)
      where
        miss :
            (e : EdgeRow) (k : ℕ) → e.workflow_version_id ≢ k → eqb e.workflow_version_id k ≡ false
        miss e k apart = elim (Bool-cases (eqb e.workflow_version_id k)) [
          | inl same ↦ absurd (apart (eqb→eq e.workflow_version_id k same))
          | inr other ↦ other
        ]

    replaced-IsSound : IsSound t'
    replaced-IsSound =
        let r = replaced_parts in
        let keep = λ (e : EdgeRow). not (eqb e.workflow_version_id v) in
        let new = inserted v t.next_node_id nodes in
        let kept_ends =
          All-weaken _ (Anchored (filter (λ (n : NodeRow V). not (of_version v n)) t.nodes ++ new))
            (λ e h.
              Anchored-kept v t.nodes new e
                (λ same.
                  let here : eqb e.workflow_version_id v ≡ true = ground arith in
                  let gone = h.1 in cc)
                h.0)
            (filter keep t.edges)
            (All-both _ _ (filter keep t.edges) (All-filter _ keep t.edges sound.ends)
              (All-kept keep t.edges)) in
        record {
          ids =
              rw (r.nodes_after, r.counter)
                (All-concat _ (filter (λ (n : NodeRow V). not (of_version v n)) t.nodes) new
                  (All-weaken _ _ (λ n h. omega arith)
                    (filter (λ (n : NodeRow V). not (of_version v n)) t.nodes)
                    (All-filter _ _ t.nodes sound.ids))
                  (All-weaken _ _ (λ n h. h.1) new (inserted_ids v t.next_node_id nodes)));
          ends =
              rw (r.nodes_after, r.edges_after)
                (All-concat _ (filter keep t.edges) r.joins kept_ends r.resolved.ends);
        }

-- What a replacement leaves alone.
pub record SameRows {V : Type 0} (t t' : Tables V) : Type 0 where
  pub users : t'.users ≡ t.users
  pub workflows : t'.workflows ≡ t.workflows
  pub versions : t'.versions ≡ t.versions
  pub next_version_id : t'.next_version_id ≡ t.next_version_id

pub replace_graph-SameRows :
    {V : Type 0} (v : ℕ) (nodes : List (Authored V)) (edges : List GraphEdge) (t : Tables V)
    {t' : Tables V}
    → replace_graph v nodes edges t ≡ ok t'
    → SameRows t t'
unfolding replace_graph
replace_graph-SameRows {V} v nodes edges t h = elim (Bool-cases (repeated same_node_key nodes)) [
  | inl twice ↦ cc (rw (twice, replace_graph) at h)
  | inr apart ↦
      let (joins, resolved, rest) =
        >>=-eq-ok (edge_rows v (ids_of [] (inserted v t.next_node_id nodes)) edges) _
          (rw (apart, replace_graph) at h) in
      elim (Bool-cases (repeated same_ends joins)) [
        | inl twice ↦ cc (rw twice at rest)
        | inr once ↦
            let written = ok-injective (rw once at rest) in
            record {
              users = sym (ap (λ (r : Tables V). r.users) written);
              workflows = sym (ap (λ (r : Tables V). r.workflows) written);
              versions = sym (ap (λ (r : Tables V). r.versions) written);
              next_version_id = sym (ap (λ (r : Tables V). r.next_version_id) written);
            }
      ]
]

-- A version's graph that was replaced reads back as the nodes and the edges that were written, in
-- their order, and every other version's graph as before; the tables stay sound. The tables before
-- have ids below their counter and edges inside one version.
pub load_graph-replace_graph :
    {V : Type 0} (v : ℕ) (nodes : List (Authored V)) (edges : List GraphEdge) (t : Tables V)
    {t' : Tables V}
    → IsSound t
    → replace_graph v nodes edges t ≡ ok t'
    → (load_graph v t' ≡ as_graph nodes edges)
      × (map (λ (n : NodeRow V). n.authored) (nodes_of v t') ≡ nodes)
      × ((w : ℕ) → w ≢ v → load_graph w t' ≡ load_graph w t)
      × IsSound t'
unfolding load_graph
load_graph-replace_graph {V} v nodes edges t {t'} sound h =
    let own =
      ap (map (λ (n : NodeRow V). n.authored)) (replaced_own v nodes edges t sound h)
      ∙ map-inserted v t.next_node_id nodes in
    (
      ap (λ ns. as_graph ns (edges_of v t')) own
          ∙ ap (as_graph nodes) (replaced_edges v nodes edges t sound h),
      own,
      λ w differ.
          ap (λ ns. as_graph (map (λ (n : NodeRow V). n.authored) ns) (edges_of w t'))
            (replaced_others v nodes edges t sound h w differ)
          ∙ ap (as_graph (map (λ (n : NodeRow V). n.authored) (nodes_of w t)))
              (other_edges v nodes edges t sound h w differ),
      replaced-IsSound v nodes edges t sound h,
    )
