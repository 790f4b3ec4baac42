-- ===== src/Authoring/Drafts/Saves.antt =====
-- Saving a draft: what a save stores, and which saves are refused.
use orqent.Base.{
  ℕ, suc, String, List, [], ◌∷◌, some, Bool, true, false, eqb, eqb→eq, ok, raise, >>=-eq-ok,
  ok-injective, find_row, find_row-some, ◌≡◌, ◌≢◌, refl, ap, ◌∙◌, arith, inl, inr, Bool-cases,
  update_rows, touched, update_rows-All, update_rows-Unique, ◌<◌,
}
use mathlib.Core.Path.{subst}
use orqent.Graph.Model.{GraphEdge}
use orqent.Authoring.Tables.{
  VersionRow, Authored, WorkflowRow, UserRow, AuthoringError, Tables, replace_graph, load_graph,
  as_graph, has_version_id, bumped, bump_revision,
}
use orqent.Authoring.Tables.Stored.{
  IsSound, SameRows, replace_graph-SameRows, load_graph-replace_graph,
}
use orqent.Authoring.Drafts.{
  AuthenticatedUser, GraphView, is_draft_of, find_draft, ensure_draft, opened, replace_draft,
}
use orqent.Authoring.Drafts.Copies.{
  same_version_id, IsKeyed, find_row-own, IsKeyed-same, ensure_draft-Drafted,
}

-- An UPDATE that a test does not notice moves the row that the test finds.
find_row-update_rows :
    {A : Type 0} (p matches : A → Bool) (change : A → A) (rows : List A) (row : A)
    → ((a : A) → p (touched matches change a) ≡ p a)
    → find_row p rows ≡ some row
    → find_row p (update_rows matches change rows) ≡ some (touched matches change row)
unfolding find_row update_rows
find_row-update_rows p matches change [] row same h = cc
find_row-update_rows p matches change (first ∷ rows) row same h = elim (Bool-cases (p first)) [
  | inl e ↦
      let here : first ≡ row = ground arith in
      rw (same first ∙ e) (ap (λ a. some (touched matches change a)) here)
  | inr e ↦ rw (same first ∙ e) (find_row-update_rows p matches change rows row same (rw e at h))
]

touched_draft :
    (id workflow_id : ℕ) (v : VersionRow)
    → is_draft_of workflow_id (touched (has_version_id id) bumped v) ≡ is_draft_of workflow_id v
touched_draft id workflow_id v = elim (Bool-cases (eqb v.id id)) [
  | inl e ↦ rw e refl
  | inr e ↦ rw e refl
]

touched_id :
    (id other : ℕ) (v : VersionRow)
    → has_version_id other (touched (has_version_id id) bumped v) ≡ has_version_id other v
touched_id id other v = elim (Bool-cases (eqb v.id id)) [ inl e ↦ rw e refl | inr e ↦ rw e refl ]

touched_self : (v : VersionRow) → touched (has_version_id v.id) bumped v ≡ bumped v
touched_self v = let hit : eqb v.id v.id ≡ true = ground arith in rw hit refl

module _ {V : Type 0} where
  -- The effect of a bump of the draft that was found.
  bump_lem :
      (workflow_id : ℕ) (draft : VersionRow) (t : Tables V)
      → IsKeyed t
      → find_draft workflow_id t ≡ some draft
      → (t' : Tables V) × (bump_revision draft.id t ≡ ok (suc draft.revision, t'))
        × (find_draft workflow_id t' ≡ some (bumped draft))
        × (t'.users ≡ t.users)
        × (t'.workflows ≡ t.workflows)
        × ((w : ℕ) → load_graph w t' ≡ load_graph w t)
        × IsKeyed t'
  unfolding find_draft load_graph bump_revision
  bump_lem workflow_id draft t keyed found =
      let versions = update_rows (has_version_id draft.id) bumped t.versions in
      let there = (find_row-some (is_draft_of workflow_id) t.versions draft found).0 in
      let own =
        find_row-update_rows (has_version_id draft.id) (has_version_id draft.id) bumped t.versions
          draft (touched_id draft.id draft.id) (find_row-own draft t.versions keyed.unique there)
        ∙ ap some (touched_self draft) in
      (
        record t { versions = versions },
        rw (own, bump_revision) refl,
        find_row-update_rows (is_draft_of workflow_id) (has_version_id draft.id) bumped t.versions
              draft (touched_draft draft.id workflow_id) found
            ∙ ap some (touched_self draft),
        refl,
        refl,
        λ w. refl,
        record {
          below =
              update_rows-All (has_version_id draft.id) bumped
                (λ (v : VersionRow). v.id < t.next_version_id)
                (λ v h. elim (Bool-cases (eqb v.id draft.id)) [ inl e ↦ rw e h | inr e ↦ rw e h ])
                t.versions keyed.below;
          unique =
              update_rows-Unique (has_version_id draft.id) bumped same_version_id
                (λ a b h. ground arith) t.versions keyed.unique;
        },
      )

  found_again :
      (workflow_id : ℕ) (draft : VersionRow) (t t' : Tables V)
      → SameRows t t'
      → find_draft workflow_id t ≡ some draft
      → find_draft workflow_id t' ≡ some draft
  unfolding find_draft
  found_again workflow_id draft t t' same found =
      ap (find_row (is_draft_of workflow_id)) same.versions ∙ found

  -- A second check of the revision that a save was made from.
  refused :
      (workflow : WorkflowRow) (caller : UserRow) (user : AuthenticatedUser) (public_id : String)
      (draft : VersionRow) (revision : ℕ) (nodes : List (Authored V)) (edges : List GraphEdge)
      (t : Tables V)
      → opened user public_id t ≡ ok (caller, workflow)
      → find_draft workflow.id t ≡ some draft
      → draft.revision ≢ revision
      → replace_draft user public_id revision nodes edges t ≡ raise AuthoringError.conflict
  unfolding replace_draft ensure_draft
  refused workflow caller user public_id draft revision nodes edges t begun found differ =
      let miss : eqb draft.revision revision ≡ false =
        elim (Bool-cases (eqb draft.revision revision)) [
          | inl e ↦ absurd (differ (eqb→eq draft.revision revision e))
          | inr e ↦ e
        ] in
      rw (begun, replace_draft, found, ensure_draft, miss) refl

  -- Saves of one workflow, one after another, by anyone who may open it.
  pub data Saves (public_id : String) (workflow : WorkflowRow) : Tables V → Tables V → Type 0 where
    none_yet : {t : Tables V} → Saves public_id workflow t t
    saved :
        {t t' t'' : Tables V} {view : GraphView V} {caller : UserRow} (user : AuthenticatedUser)
        (revision : ℕ) (nodes : List (Authored V)) (edges : List GraphEdge)
        → Saves public_id workflow t t'
        → opened user public_id t' ≡ ok (caller, workflow)
        → replace_draft user public_id revision nodes edges t' ≡ ok (view, t'')
        → Saves public_id workflow t t''

  -- A draft is there, and its revision has gone past the given one.
  record Ahead (revision workflow_id : ℕ) (t : Tables V) : Type 0 where
    keyed : IsKeyed t
    draft : VersionRow
    found : find_draft workflow_id t ≡ some draft
    newer : revision < draft.revision

  save-Ahead :
      (user : AuthenticatedUser) (public_id : String) (passed revision : ℕ)
      (nodes : List (Authored V)) (edges : List GraphEdge) (workflow : WorkflowRow)
      (caller : UserRow) (t : Tables V) {view : GraphView V} {t' : Tables V}
      → opened user public_id t ≡ ok (caller, workflow)
      → Ahead passed workflow.id t
      → replace_draft user public_id revision nodes edges t ≡ ok (view, t')
      → Ahead passed workflow.id t'
  unfolding replace_draft ensure_draft
  save-Ahead user public_id passed revision nodes edges workflow caller t {view} {t'} begun a h =
      let h1 = rw (begun, replace_draft, a.found, ensure_draft) at h in
      elim (Bool-cases (eqb a.draft.revision revision)) [
        | inr stale ↦ cc (rw stale at h1)
        | inl fresh ↦
            let (t2, replaced, h2) =
              >>=-eq-ok (replace_graph a.draft.id nodes edges t) _ (rw fresh at h1) in
            let same = replace_graph-SameRows a.draft.id nodes edges t replaced in
            let found = found_again workflow.id a.draft t t2 same a.found in
            let (t3, bumped_to, found', _, _, _, keyed) =
              bump_lem workflow.id a.draft t2 (IsKeyed-same same a.keyed) found in
            let ahead : Ahead passed workflow.id t3 = record {
              keyed = keyed;
              draft = bumped a.draft;
              found = found';
              newer = let n = a.newer in omega arith;
            } in
            subst (λ (q : GraphView V × Tables V). Ahead passed workflow.id q.1)
              (ok-injective (rw bumped_to at h2)) ahead
      ]

  Saves-Ahead :
      (public_id : String) (workflow : WorkflowRow) (passed : ℕ) {t t' : Tables V}
      → Saves public_id workflow t t'
      → Ahead passed workflow.id t
      → Ahead passed workflow.id t'
  Saves-Ahead public_id workflow passed none_yet a = a
  Saves-Ahead public_id workflow passed
        (saved {t} {t'} {t''} {view} {caller} user revision nodes edges past begun h) a =
      save-Ahead user public_id passed revision nodes edges workflow caller t' begun
        (Saves-Ahead public_id workflow passed past a) h

  -- A save that returns has stored the given graph under the next revision of the draft, and the
  -- graph of every other version reads as before. After any further saves of the workflow, by anyone who
  -- may open it and from whatever revisions, and with nothing else between, a save that starts again from
  -- the replaced revision is refused with a conflict. The tables before have unique version ids, node ids
  -- below their counter and edges inside one version.
  pub replace_draft_lem :
      (user other : AuthenticatedUser) (public_id : String) (revision : ℕ)
      (nodes later_nodes : List (Authored V)) (edges later_edges : List GraphEdge) (t : Tables V)
      {view : GraphView V} {t' t'' : Tables V} {caller caller' : UserRow} {workflow : WorkflowRow}
      → IsSound t
      → IsKeyed t
      → opened user public_id t ≡ ok (caller, workflow)
      → replace_draft user public_id revision nodes edges t ≡ ok (view, t')
      → Saves public_id workflow t' t''
      → opened other public_id t'' ≡ ok (caller', workflow)
      → (view.version.revision ≡ suc revision)
        × (load_graph view.version.id t' ≡ as_graph nodes edges)
        × ((w : ℕ) → w ≢ view.version.id → load_graph w t' ≡ load_graph w t)
        × (replace_draft other public_id revision later_nodes later_edges t''
            ≡ raise AuthoringError.conflict)
  unfolding replace_draft
  replace_draft_lem user other public_id revision nodes later_nodes edges later_edges t {view} {t'}
        {t''} {caller} {caller'} {workflow} sound keyed mine h since theirs =
      let ((draft, t1), drafted, h1) =
        >>=-eq-ok (ensure_draft workflow caller t) _ (rw (mine, replace_draft) at h) in
      let d = ensure_draft-Drafted workflow caller t sound keyed drafted in
      elim (Bool-cases (eqb draft.revision revision)) [
        | inr stale ↦ cc (rw stale at h1)
        | inl fresh ↦
            let (t2, replaced, h2) =
              >>=-eq-ok (replace_graph draft.id nodes edges t1) _ (rw fresh at h1) in
            let same = replace_graph-SameRows draft.id nodes edges t1 replaced in
            let stored = load_graph-replace_graph draft.id nodes edges t1 d.sound replaced in
            let found = found_again workflow.id draft t1 t2 same d.found in
            let (t3, bumped_to, found', _, _, graphs, keyed') =
              bump_lem workflow.id draft t2 (IsKeyed-same same d.keyed) found in
            let revised = eqb→eq draft.revision revision fresh in
            let returned = ok-injective (rw bumped_to at h2) in
            let ahead : Ahead revision workflow.id t3 = record {
              keyed = keyed';
              draft = bumped draft;
              found = found';
              newer = omega (arith, revised);
            } in
            let now = Saves-Ahead public_id workflow revision since (
              subst (λ (q : GraphView V × Tables V). Ahead revision workflow.id q.1) returned
                ahead) in
            let (stored_revision, own, others) =
              subst
                (λ (q : GraphView V × Tables V).
                  (q.0.version.revision ≡ suc revision)
                  × (load_graph q.0.version.id q.1 ≡ as_graph nodes edges)
                  × ((w : ℕ) → w ≢ q.0.version.id → load_graph w q.1 ≡ load_graph w t))
                returned
                (
                  ap suc revised,
                  graphs draft.id ∙ stored.0,
                  λ w differ. graphs w ∙ stored.2 w differ ∙ d.others w differ,
                ) in
            (
              stored_revision,
              own,
              others,
              refused workflow caller' other public_id now.draft revision later_nodes later_edges
                  t'' theirs now.found (λ e. let n = now.newer in omega (arith, e)),
            )
      ]
