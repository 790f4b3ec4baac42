-- ===== src/Authoring/Keeping.antt =====
-- What an operation on the tables keeps of the versions.
use orqent.Base.{
  ℕ, ◌<◌, String, List, [], ◌∷◌, Option, none, some, true, false, eqb, eqb→eq, In, In-append,
  Unique-In, update_rows-Unique, update_rows-All, update_rows-In, ok, ok-injective, find_row,
  find_row-some, ◌≡◌, refl, sym, ap, ◌∙◌, arith, inl, inr, Bool-cases, Option-cases, update_rows,
  touched,
}
use mathlib.Core.Path.{subst}
use orqent.Graph.Model.{GraphEdge}
use orqent.Authoring.Tables.{
  VersionRow, Authored, WorkflowRow, Tables, replace_graph, load_graph, has_version_id, bumped,
  bump_revision,
}
use orqent.Authoring.Tables.Stored.{IsSound, replace_graph-SameRows, load_graph-replace_graph}
use orqent.Authoring.Drafts.{is_draft, is_draft_of, find_draft}
use orqent.Authoring.Drafts.Copies.{same_version_id, IsKeyed, IsKeyed-same, Drafted}
use orqent.Authoring.Publishing.{next_version_no, promoted}
use orqent.Authoring.Publishing.Numbers.{
  IsNumbered, IsNumbered-snoc, IsNumbered-bumped, largest_no_lem, IsNumbered-promoted,
}
use orqent.Authoring.Publishing.Promoted.{Written}

-- Unique version ids, one draft for a workflow, each number once for a workflow, node ids below their
-- counter, and edges inside one version.
pub record IsAuthored {V : Type 0} (t : Tables V) : Type 0 where
  pub sound : IsSound t
  pub keyed : IsKeyed t
  pub numbered : IsNumbered t.versions

-- A published version keeps its row and its graph.
pub record Kept {V : Type 0} (t t' : Tables V) : Type 0 where
  pub authored : IsAuthored t'
  pub frozen :
      (v : VersionRow)
      → In v t.versions
      → is_draft v.status ≡ false
      → In v t'.versions × (load_graph v.id t' ≡ load_graph v.id t)

touched-id :
    (id : ℕ) (change : VersionRow → VersionRow)
    → ((v : VersionRow) → (change v).id ≡ v.id)
    → (v : VersionRow) → (touched (has_version_id id) change v).id ≡ v.id
touched-id id change same_id v = elim (Bool-cases (eqb v.id id)) [
  | inl e ↦ rw e (same_id v)
  | inr e ↦ rw e refl
]

module _ {V : Type 0} where
  pub Kept-trans : (a b c : Tables V) → Kept a b → Kept b c → Kept a c
  Kept-trans a b c h k = record {
    authored = k.authored;
    frozen = λ v m p.
        let (m', same) = h.frozen v m p in
        let (m'', same') = k.frozen v m' p in (m'', same' ∙ same);
  }

  -- A version that is no draft is not the one that a draft was found as.
  other_id :
      (workflow_id : ℕ) (t : Tables V) (draft v : VersionRow)
      → IsKeyed t
      → find_draft workflow_id t ≡ some draft
      → In v t.versions
      → is_draft v.status ≡ false
      → eqb v.id draft.id ≡ false
  unfolding find_draft
  other_id workflow_id t draft v keyed found m p = elim (Bool-cases (eqb v.id draft.id)) [
    | inr e ↦ e
    | inl e ↦
        let (listed, fits) = find_row-some (is_draft_of workflow_id) t.versions draft found in
        let same =
          Unique-In same_version_id (λ a b h. ground arith) v draft t.versions keyed.unique m listed
            e in
        let drafted : is_draft draft.status ≡ true = ground arith in
        let not_drafted : is_draft draft.status ≡ false =
          subst (λ (r : VersionRow). is_draft r.status ≡ false) same p in
        cc
  ]

  IsNumbered-Drafted :
      (workflow : WorkflowRow) (t t' : Tables V) (draft : VersionRow)
      → Drafted workflow t draft t'
      → IsNumbered t.versions
      → IsNumbered t'.versions
  unfolding find_draft
  IsNumbered-Drafted workflow t t' draft d h = elim d.rows [
    | inl same ↦ subst IsNumbered (sym same) h
    | inr (absent, added, unnumbered, own) ↦ subst IsNumbered (sym added) (
        IsNumbered-snoc t.versions draft
          (subst (λ w. find_row (is_draft_of w) t.versions ≡ none) (sym own) absent) unnumbered h)
  ]

  listed_on :
      (workflow : WorkflowRow) (t t' : Tables V) (draft v : VersionRow)
      → Drafted workflow t draft t'
      → In v t.versions
      → In v t'.versions
  listed_on workflow t t' draft v d m = elim d.rows [
    | inl same ↦ subst (In v) (sym same) m
    | inr (_, added, _, _) ↦
        subst (In v) (sym added) ((In-append v t.versions (draft ∷ [])).1 (inl m))
  ]

  pub Drafted-Kept :
      (workflow : WorkflowRow) (t t' : Tables V) (draft : VersionRow)
      → Drafted workflow t draft t'
      → IsAuthored t
      → Kept t t'
  Drafted-Kept workflow t t' draft d h = record {
    authored = record {
      sound = d.sound;
      keyed = d.keyed;
      numbered = IsNumbered-Drafted workflow t t' draft d h.numbered;
    };
    frozen = λ v m p.
        let there = listed_on workflow t t' draft v d m in
        let apart = other_id workflow.id t' draft v d.keyed d.found there p in
        (there, d.others v.id (λ e. let hit : eqb v.id draft.id ≡ true = ground arith in cc));
  }

  pub graph-same :
      (w : ℕ) (t t' : Tables V)
      → t'.nodes ≡ t.nodes
      → t'.edges ≡ t.edges
      → load_graph w t' ≡ load_graph w t
  unfolding load_graph
  graph-same w t t' nodes edges =
      ap (λ ns. load_graph w (record t { nodes = ns; edges = t'.edges })) nodes
      ∙ ap (λ es. load_graph w (record t { edges = es })) edges

  -- An UPDATE of a version by its id: what the tables keep, and the rows that it does not touch.
  Updated-Kept :
      (id : ℕ) (change : VersionRow → VersionRow) (t t' : Tables V)
      → ((v : VersionRow) → (change v).id ≡ v.id)
      → ((v : VersionRow) → In v t.versions → is_draft v.status ≡ false → eqb v.id id ≡ false)
      → t'.versions ≡ update_rows (has_version_id id) change t.versions
      → t'.nodes ≡ t.nodes
      → t'.edges ≡ t.edges
      → t'.next_version_id ≡ t.next_version_id
      → t'.next_node_id ≡ t.next_node_id
      → IsNumbered (update_rows (has_version_id id) change t.versions)
      → IsAuthored t
      → Kept t t'
  unfolding load_graph
  Updated-Kept id change t t' same_id apart versions nodes edges next_version next_node numbered h =
      let matches = has_version_id id in
      let ids = touched-id id change same_id in
      record {
        authored = record {
          sound = record {
            ids = rw (nodes, next_node) h.sound.ids;
            ends = rw (nodes, edges) h.sound.ends;
          };
          keyed = record {
            below =
                rw (versions, next_version)
                  (update_rows-All matches change (λ (v : VersionRow). v.id < t.next_version_id)
                    (λ v b. subst (λ k. k < t.next_version_id) (sym (ids v)) b) t.versions
                    h.keyed.below);
            unique = rw versions (
                update_rows-Unique matches change same_version_id
                  (λ a b e. rw (sym (ids a), sym (ids b)) e) t.versions h.keyed.unique);
          };
          numbered = rw versions numbered;
        };
        frozen = λ v m p.
            let miss = apart v m p in
            let still : touched matches change v ≡ v = rw miss refl in
            (
              subst (In v) (sym versions) (
                  subst (λ r. In r (update_rows matches change t.versions)) still
                    (update_rows-In matches change v t.versions m)),
              graph-same v.id t t' nodes edges,
            );
      }

  bumped_rows :
      (id n : ℕ) (t : Tables V) {t' : Tables V}
      → bump_revision id t ≡ ok (n, t')
      → record t { versions = update_rows (has_version_id id) bumped t.versions } ≡ t'
  unfolding bump_revision
  bumped_rows id n t h =
      elim (Option-cases
        (find_row (has_version_id id) (update_rows (has_version_id id) bumped t.versions))) [
          | inl e ↦ cc (rw (e, bump_revision) at h)
          | inr (row, e) ↦
              ap (λ (q : ℕ × Tables V). q.1) (ok-injective (rw (e, bump_revision) at h))
        ]

  pub bump-Kept :
      (workflow_id n : ℕ) (draft : VersionRow) (t : Tables V) {t' : Tables V}
      → IsAuthored t
      → find_draft workflow_id t ≡ some draft
      → bump_revision draft.id t ≡ ok (n, t')
      → Kept t t'
  bump-Kept workflow_id n draft t h found e = subst (Kept t) (bumped_rows draft.id n t e) (
      Updated-Kept draft.id bumped t
        (record t { versions = update_rows (has_version_id draft.id) bumped t.versions })
        (λ v. refl) (λ v m p. other_id workflow_id t draft v h.keyed found m p) refl refl refl refl
        refl (IsNumbered-bumped draft.id t.versions h.numbered) h)

  -- A replaced graph of the draft.
  pub replaced-Kept :
      (workflow_id : ℕ) (draft : VersionRow) (nodes : List (Authored V)) (edges : List GraphEdge)
      (t : Tables V) {t' : Tables V}
      → IsAuthored t
      → find_draft workflow_id t ≡ some draft
      → replace_graph draft.id nodes edges t ≡ ok t'
      → Kept t t'
  replaced-Kept workflow_id draft nodes edges t h found replaced =
      let same = replace_graph-SameRows draft.id nodes edges t replaced in
      let stored = load_graph-replace_graph draft.id nodes edges t h.sound replaced in
      record {
        authored = record {
          sound = stored.3;
          keyed = IsKeyed-same same h.keyed;
          numbered = subst IsNumbered (sym same.versions) h.numbered;
        };
        frozen = λ v m p.
            let apart = other_id workflow_id t draft v h.keyed found m p in
            (
              subst (In v) (sym same.versions) m,
              stored.2 v.id (λ e. let hit : eqb v.id draft.id ≡ true = ground arith in cc),
            );
      }

  pub promoted-Kept :
      (workflow : WorkflowRow) (draft : VersionRow) (now : ℕ) (notes : Option String)
      (t t' : Tables V)
      → IsAuthored t
      → find_draft workflow.id t ≡ some draft
      → Written workflow draft now notes t t'
      → Kept t t'
  unfolding find_draft next_version_no
  promoted-Kept workflow draft now notes t t' h found w =
      let (listed, fits) = find_row-some (is_draft_of workflow.id) t.versions draft found in
      let own : draft.workflow_id ≡ workflow.id =
        eqb→eq draft.workflow_id workflow.id (ground arith) in
      Updated-Kept draft.id (promoted (next_version_no workflow.id t) now notes) t t' (λ v. refl)
        (λ v m p. other_id workflow.id t draft v h.keyed found m p) w.versions w.nodes w.edges
        w.next_version_id w.next_node_id
        (IsNumbered-promoted draft (next_version_no workflow.id t) now notes t.versions listed
          h.keyed.unique
          (λ v m same k numbered.
            let most = largest_no_lem workflow.id t.versions v k m (same ∙ own) numbered in
            omega arith)
          h.numbered)
        h

  -- A transaction that writes workflows only.
  pub untouched-Kept :
      (t t' : Tables V)
      → t'.versions ≡ t.versions
      → t'.nodes ≡ t.nodes
      → t'.edges ≡ t.edges
      → t'.next_version_id ≡ t.next_version_id
      → t'.next_node_id ≡ t.next_node_id
      → IsAuthored t
      → Kept t t'
  untouched-Kept t t' versions nodes edges next_version next_node h = record {
    authored = record {
      sound = record {
        ids = rw (nodes, next_node) h.sound.ids;
        ends = rw (nodes, edges) h.sound.ends;
      };
      keyed = record {
        below = rw (versions, next_version) h.keyed.below;
        unique = rw versions h.keyed.unique;
      };
      numbered = rw versions h.numbered;
    };
    frozen = λ v m p. (subst (In v) (sym versions) m, graph-same v.id t t' nodes edges);
  }
