-- ===== src/Authoring/Drafts/Copies.antt =====
-- What `ensure_draft` leaves behind: the draft, and every other version as it was.
use orqent.Base.{
  ℕ, ◌<◌, List, [], ◌∷◌, ◌++◌, map, none, some, Bool, true, false, eqb, any, All, In, All-In,
  All-snoc, All-weaken, Unique, Unique-snoc, any_of_In, ok, >>=-eq-ok, ok-injective, find_row,
  find_row-some, ◌≡◌, ◌≢◌, refl, sym, ap, ◌∙◌, arith, inl, inr, Bool-cases, Option-cases, ◌⊎◌,
}
use mathlib.Core.Path.{subst}
use orqent.Authoring.Tables.{
  VersionRow, NodeRow, WorkflowRow, UserRow, Tables, nodes_of, load_graph, has_version_id,
}
use orqent.Authoring.Tables.Stored.{
  IsSound, SameRows, replace_graph-SameRows, load_graph-replace_graph,
}
use orqent.Authoring.Drafts.{
  is_draft_of, find_draft, new_draft, with_draft, copy_graph, ensure_draft,
}

abbrev pub same_version_id : VersionRow → VersionRow → Bool
same_version_id a b = eqb a.id b.id

-- The primary key of the versions.
pub record IsKeyed {V : Type 0} (t : Tables V) : Type 0 where
  pub below : All (λ (v : VersionRow). v.id < t.next_version_id) t.versions
  pub unique : Unique same_version_id t.versions

pub find_row-snoc :
    {A : Type 0} (p : A → Bool) (rows : List A) (row : A)
    → find_row p rows ≡ none
    → p row ≡ true
    → find_row p (rows ++ row ∷ []) ≡ some row
unfolding find_row
find_row-snoc p [] row h fits = rw fits refl
find_row-snoc p (first ∷ rows) row h fits = elim (Bool-cases (p first)) [
  | inl e ↦ cc (rw e at h)
  | inr e ↦ rw e (find_row-snoc p rows row (rw e at h) fits)
]

pub find_row-own :
    (v : VersionRow) (rows : List VersionRow)
    → Unique same_version_id rows
    → In v rows
    → find_row (has_version_id v.id) rows ≡ some v
unfolding find_row
find_row-own v [] unique m = absurd m
find_row-own v (first ∷ rows) (here, later) (inl same) =
    let hit : eqb first.id v.id ≡ true = ground (arith, ap (λ (r : VersionRow). r.id) same) in
    rw hit (ap some (sym same))
find_row-own v (first ∷ rows) (here, later) (inr m) = elim (Bool-cases (eqb first.id v.id)) [
  | inl hit ↦ absurd (apart rows here m hit)
  | inr miss ↦ rw miss (find_row-own v rows later m)
]
  where
    apart :
        (rows : List VersionRow)
        → any (same_version_id first) rows ≡ false
        → In v rows
        → eqb first.id v.id ≡ true
        → ⊥
    apart [] none_there m hit = m
    apart (r ∷ rows) none_there (inl same) hit =
        let e = ap (λ (r : VersionRow). r.id) same in
        let clash : eqb first.id r.id ≡ true = ground arith in
        let gone : any (same_version_id first) (r ∷ rows) ≡ true = rw clash refl in cc
    apart (r ∷ rows) none_there (inr m) hit = apart rows (ground arith) m hit

module _ {V : Type 0} where
  -- The draft is there, and nothing else changed.
  pub record Drafted (workflow : WorkflowRow) (t : Tables V) (draft : VersionRow) (t' : Tables V)
      : Type 0 where
    pub found : find_draft workflow.id t' ≡ some draft
    pub listed : In draft t'.versions
    pub users : t'.users ≡ t.users
    pub workflows : t'.workflows ≡ t.workflows
    pub others : (w : ℕ) → w ≢ draft.id → load_graph w t' ≡ load_graph w t
    pub sound : IsSound t'
    pub keyed : IsKeyed t'
    pub rows :
        (t'.versions ≡ t.versions)
        ⊎ ((find_draft workflow.id t ≡ none)
            × (t'.versions ≡ t.versions ++ draft ∷ [])
            × (draft.version_no ≡ none)
            × (draft.workflow_id ≡ workflow.id))

  with_draft-IsSound :
      (draft : VersionRow) (t : Tables V) → IsSound t → IsSound (with_draft draft t)
  with_draft-IsSound draft t h = record { ids = h.ids; ends = h.ends }

  with_draft-IsKeyed :
      (workflow : WorkflowRow) (caller : UserRow) (t : Tables V)
      → IsKeyed t
      → IsKeyed (with_draft (new_draft workflow caller t) t)
  with_draft-IsKeyed workflow caller t h = record {
    below =
        All-snoc _ t.versions (new_draft workflow caller t)
          (All-weaken _ _ (λ v b. omega arith) t.versions h.below) (omega arith);
    unique =
        Unique-snoc same_version_id t.versions (new_draft workflow caller t)
          (any_of_In _ t.versions λ v m. let less = All-In _ v t.versions h.below m in ground arith)
          h.unique;
  }

  pub IsKeyed-same : {t t' : Tables V} → SameRows t t' → IsKeyed t → IsKeyed t'
  IsKeyed-same s h = record {
    below = rw (s.versions, s.next_version_id) h.below;
    unique = rw s.versions h.unique;
  }

  -- The new row is the only draft.
  found_new :
      (workflow : WorkflowRow) (caller : UserRow) (t : Tables V)
      → find_draft workflow.id t ≡ none
      → find_draft workflow.id (with_draft (new_draft workflow caller t) t)
        ≡ some (new_draft workflow caller t)
  unfolding find_draft
  found_new workflow caller t e =
      find_row-snoc (is_draft_of workflow.id) t.versions (new_draft workflow caller t) e
        (ground arith)

  listed_draft :
      (workflow_id : ℕ) (t : Tables V) (draft : VersionRow)
      → find_draft workflow_id t ≡ some draft
      → In draft t.versions
  unfolding find_draft
  listed_draft workflow_id t draft e =
      (find_row-some (is_draft_of workflow_id) t.versions draft e).0

  same_graphs :
      (draft : VersionRow) (t : Tables V) (w : ℕ)
      → load_graph w (with_draft draft t) ≡ load_graph w t
  unfolding load_graph
  same_graphs draft t w = refl

  copy_graph-Drafted :
      (workflow : WorkflowRow) (caller : UserRow) (source_id : ℕ) (t : Tables V) {t' : Tables V}
      → IsSound t
      → IsKeyed t
      → find_draft workflow.id t ≡ none
      → copy_graph source_id t.next_version_id (with_draft (new_draft workflow caller t) t) ≡ ok t'
      → Drafted workflow t (new_draft workflow caller t) t'
  unfolding copy_graph find_draft
  copy_graph-Drafted workflow caller source_id t {t'} sound keyed e h =
      let draft = new_draft workflow caller t in
      let t1 = with_draft draft t in
      let (graph, loaded, replaced) = >>=-eq-ok (load_graph source_id t1) _ h in
      let nodes = map (λ (n : NodeRow V). n.authored) (nodes_of source_id t1) in
      let same = replace_graph-SameRows t.next_version_id nodes graph.edges t1 replaced in
      let stored =
        load_graph-replace_graph t.next_version_id nodes graph.edges t1
          (with_draft-IsSound draft t sound) replaced in
      let found =
        ap (find_row (is_draft_of workflow.id)) same.versions ∙ found_new workflow caller t e in
      record {
        found = found;
        listed = listed_draft workflow.id t' draft found;
        users = same.users;
        workflows = same.workflows;
        others = λ w differ. stored.2 w differ ∙ same_graphs draft t w;
        sound = stored.3;
        keyed = IsKeyed-same same (with_draft-IsKeyed workflow caller t keyed);
        rows = inr (e, same.versions, refl, refl);
      }

  pub ensure_draft-Drafted :
      (workflow : WorkflowRow) (caller : UserRow) (t : Tables V) {draft : VersionRow}
      {t' : Tables V}
      → IsSound t
      → IsKeyed t
      → ensure_draft workflow caller t ≡ ok (draft, t')
      → Drafted workflow t draft t'
  unfolding ensure_draft
  ensure_draft-Drafted workflow caller t {draft} {t'} sound keyed h =
      elim (Option-cases (find_draft workflow.id t)) [
        | inr (old, e) ↦
            subst (λ (q : VersionRow × Tables V). Drafted workflow t q.0 q.1)
              (ok-injective (rw (e, ensure_draft) at h))
              (record {
                found = e;
                listed = listed_draft workflow.id t old e;
                users = refl;
                workflows = refl;
                others = λ w differ. refl;
                sound = sound;
                keyed = keyed;
                rows = inl refl;
              })
        | inl e ↦
            let new = new_draft workflow caller t in
            elim (Option-cases workflow.active_version_id) [
              | inl a ↦
                  let found = found_new workflow caller t e in
                  subst (λ (q : VersionRow × Tables V). Drafted workflow t q.0 q.1)
                    (ok-injective (rw (e, a, ensure_draft) at h))
                    (record {
                      found = found;
                      listed = listed_draft workflow.id (with_draft new t) new found;
                      users = refl;
                      workflows = refl;
                      others = λ w differ. same_graphs new t w;
                      sound = with_draft-IsSound new t sound;
                      keyed = with_draft-IsKeyed workflow caller t keyed;
                      rows = inr (e, refl, refl, refl);
                    })
              | inr (source_id, a) ↦
                  let (t2, copied, last) =
                    >>=-eq-ok (copy_graph source_id t.next_version_id (with_draft new t)) _
                      (rw (e, a, ensure_draft) at h) in
                  subst (λ (q : VersionRow × Tables V). Drafted workflow t q.0 q.1)
                    (ok-injective last)
                    (copy_graph-Drafted workflow caller source_id t sound keyed e copied)
            ]
      ]
