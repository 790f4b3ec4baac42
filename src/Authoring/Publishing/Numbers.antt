-- ===== src/Authoring/Publishing/Numbers.antt =====
-- The unique indexes over the versions of a workflow: one draft, and each number once.
use orqent.Base.{
  ℕ, ◌≤◌, ◌<◌, List, [], ◌∷◌, ◌++◌, Option, none, some, Bool, true, false, ◌&&◌, eqb, eqb→eq, any,
  In, any-In, any_of_In, Unique, Unique-snoc, Unique-In, update_rows-Unique, In-update_rows, ◌≡◌,
  refl, sym, ap, ◌∙◌, arith, inl, inr, Bool-cases, Option-cases, update_rows, touched, find_row,
  String,
}
use orqent.Authoring.Tables.{VersionRow, has_version_id, bumped}
use orqent.Authoring.Drafts.{is_draft, is_draft_of}
use orqent.Authoring.Drafts.Copies.{same_version_id}
use orqent.Authoring.Publishing.{largest_no, promoted}

-- The unique index over `draft_key`.
abbrev pub both_drafts : VersionRow → VersionRow → Bool
both_drafts a b = eqb a.workflow_id b.workflow_id && (is_draft a.status && is_draft b.status)

abbrev same_no : Option ℕ → Option ℕ → Bool
same_no (some m) (some n) = eqb m n
same_no _ _ = false

-- The unique index over the workflow and the number.
abbrev pub same_number : VersionRow → VersionRow → Bool
same_number a b = eqb a.workflow_id b.workflow_id && same_no a.version_no b.version_no

pub record IsNumbered (versions : List VersionRow) : Type 0 where
  pub drafts : Unique both_drafts versions
  pub numbers : Unique same_number versions

no_draft :
    (draft : VersionRow) (rows : List VersionRow)
    → find_row (is_draft_of draft.workflow_id) rows ≡ none
    → any (λ row. both_drafts row draft) rows ≡ false
unfolding find_row
no_draft draft [] e = refl
no_draft draft (row ∷ rows) e = elim (Bool-cases (is_draft_of draft.workflow_id row)) [
  | inl hit ↦ cc (rw hit at e)
  | inr miss ↦
      let ih = no_draft draft rows (rw miss at e) in
      let apart : both_drafts row draft ≡ false = ground arith in rw apart ih
]

no_number :
    (draft : VersionRow)
    → draft.version_no ≡ none
    → (rows : List VersionRow) → any (λ row. same_number row draft) rows ≡ false
no_number draft unnumbered [] = refl
no_number draft unnumbered (row ∷ rows) =
    let ih = no_number draft unnumbered rows in
    let apart : same_number row draft ≡ false = rw unnumbered (ground arith) in rw apart ih

pub IsNumbered-snoc :
    (versions : List VersionRow) (draft : VersionRow)
    → find_row (is_draft_of draft.workflow_id) versions ≡ none
    → draft.version_no ≡ none
    → IsNumbered versions
    → IsNumbered (versions ++ draft ∷ [])
IsNumbered-snoc versions draft absent unnumbered h = record {
  drafts = Unique-snoc both_drafts versions draft (no_draft draft versions absent) h.drafts;
  numbers = Unique-snoc same_number versions draft (no_number draft unnumbered versions) h.numbers;
}

pub IsNumbered-bumped :
    (id : ℕ) (versions : List VersionRow)
    → IsNumbered versions
    → IsNumbered (update_rows (has_version_id id) bumped versions)
IsNumbered-bumped id versions h = record {
  drafts = update_rows-Unique (has_version_id id) bumped both_drafts same_drafts versions h.drafts;
  numbers =
      update_rows-Unique (has_version_id id) bumped same_number same_numbers versions h.numbers;
}
  where
    same_drafts :
        (a b : VersionRow)
        → both_drafts (touched (has_version_id id) bumped a) (touched (has_version_id id) bumped b)
          ≡ true
        → both_drafts a b ≡ true
    same_drafts a b e = ground arith

    same_numbers :
        (a b : VersionRow)
        → same_number (touched (has_version_id id) bumped a) (touched (has_version_id id) bumped b)
          ≡ true
        → same_number a b ≡ true
    same_numbers a b e = ground arith

-- No version of the workflow has a larger number.
pub largest_no_lem :
    (workflow_id : ℕ) (rows : List VersionRow) (v : VersionRow) (n : ℕ)
    → In v rows
    → v.workflow_id ≡ workflow_id
    → v.version_no ≡ some n
    → n ≤ largest_no workflow_id rows
unfolding largest_no
largest_no_lem workflow_id [] v n m same numbered = absurd m
largest_no_lem workflow_id (row ∷ rows) v n (inl e) same numbered =
    let w : eqb row.workflow_id workflow_id ≡ true =
      ground (arith, ap (λ (r : VersionRow). r.workflow_id) e) in
    let k : row.version_no ≡ some n = ap (λ (r : VersionRow). r.version_no) (sym e) ∙ numbered in
    rw (w, k) (omega arith)
largest_no_lem workflow_id (row ∷ rows) v n (inr m) same numbered =
    let ih = largest_no_lem workflow_id rows v n m same numbered in
    elim (Bool-cases (eqb row.workflow_id workflow_id)) [
      | inr e ↦ rw e ih
      | inl e ↦ elim (Option-cases row.version_no) [
        | inl k ↦ rw (e, k) ih
        | inr (j, k) ↦ rw (e, k) (omega arith)
      ]
    ]

-- Promoting a draft under a number that is beyond those of its workflow.
module _ (draft : VersionRow) (number now : ℕ) (notes : Option String) where
  abbrev promotes : VersionRow → VersionRow
  promotes = touched (has_version_id draft.id) (promoted number now notes)

  promoted_drafts :
      (a b : VersionRow) → both_drafts (promotes a) (promotes b) ≡ true → both_drafts a b ≡ true
  promoted_drafts a b e = elim (Bool-cases (eqb a.id draft.id)) [
    | inl x ↦ elim (Bool-cases (eqb b.id draft.id)) [ inl y ↦ ground arith | inr y ↦ ground arith ]
    | inr x ↦ elim (Bool-cases (eqb b.id draft.id)) [ inl y ↦ ground arith | inr y ↦ ground arith ]
  ]

  -- What is asked of each row: its number is smaller, if it is of the draft's workflow.
  abbrev pub Smaller : VersionRow → Type 0
  Smaller v = (v.workflow_id ≡ draft.workflow_id) → (n : ℕ) → v.version_no ≡ some n → n < number

  fresh :
      (w : ℕ) (b : VersionRow)
      → w ≡ draft.workflow_id
      → Smaller b
      → (eqb w b.workflow_id && same_no (some number) b.version_no) ≡ false
  fresh w b own small = elim (Option-cases b.version_no) [
    | inl k ↦ rw k (ground arith)
    | inr (j, k) ↦ elim (Bool-cases (eqb w b.workflow_id)) [
      | inr e ↦ rw e refl
      | inl e ↦
          let less = small (sym (eqb→eq w b.workflow_id e) ∙ own) j k in rw (e, k) (ground arith)
    ]
  ]

  fresh_back :
      (w : ℕ) (a : VersionRow)
      → w ≡ draft.workflow_id
      → Smaller a
      → (eqb a.workflow_id w && same_no a.version_no (some number)) ≡ false
  fresh_back w a own small = elim (Option-cases a.version_no) [
    | inl k ↦ rw k (ground arith)
    | inr (j, k) ↦ elim (Bool-cases (eqb a.workflow_id w)) [
      | inr e ↦ rw e refl
      | inl e ↦ let less = small (eqb→eq a.workflow_id w e ∙ own) j k in rw (e, k) (ground arith)
    ]
  ]

  promoted_numbers :
      (a b : VersionRow)
      → same_version_id a b ≡ false
      → (has_version_id draft.id a ≡ true → a.workflow_id ≡ draft.workflow_id)
      → (has_version_id draft.id b ≡ true → b.workflow_id ≡ draft.workflow_id)
      → Smaller a
      → Smaller b
      → same_number a b ≡ false
      → same_number (promotes a) (promotes b) ≡ false
  promoted_numbers a b apart own_a own_b small_a small_b differ =
      elim (Bool-cases (eqb a.id draft.id)) [
        | inl x ↦ elim (Bool-cases (eqb b.id draft.id)) [
          | inl y ↦ let same : same_version_id a b ≡ true = ground arith in cc
          | inr y ↦ rw (x, y) (fresh a.workflow_id b (own_a x) small_b)
        ]
        | inr x ↦ elim (Bool-cases (eqb b.id draft.id)) [
          | inl y ↦ rw (x, y) (fresh_back b.workflow_id a (own_b y) small_a)
          | inr y ↦ rw (x, y) differ
        ]
      ]

  any-promoted :
      (first : VersionRow) (rows : List VersionRow)
      → any (same_version_id first) rows ≡ false
      → ((v : VersionRow)
          → In v (first ∷ rows)
          → has_version_id draft.id v ≡ true
          → v.workflow_id ≡ draft.workflow_id)
      → ((v : VersionRow) → In v (first ∷ rows) → Smaller v)
      → any (same_number first) rows ≡ false
      → any
          (same_number (promotes first))
          (update_rows (has_version_id draft.id) (promoted number now notes) rows)
        ≡ false
  any-promoted first rows apart own small differ = any_of_In _ _ λ v m.
      let (old, n, same) =
        In-update_rows (has_version_id draft.id) (promoted number now notes) v rows m in
      rw same (
        promoted_numbers first old (any-In (same_version_id first) old rows apart n)
          (own first (inl refl)) (own old (inr n)) (small first (inl refl)) (small old (inr n))
          (any-In (same_number first) old rows differ n))

  numbers-promoted :
      (rows : List VersionRow)
      → Unique same_version_id rows
      → ((v : VersionRow)
          → In v rows
          → has_version_id draft.id v ≡ true
          → v.workflow_id ≡ draft.workflow_id)
      → ((v : VersionRow) → In v rows → Smaller v)
      → Unique same_number rows
      → Unique same_number (update_rows (has_version_id draft.id) (promoted number now notes) rows)
  unfolding update_rows
  numbers-promoted [] keyed own small unique = tt
  numbers-promoted (first ∷ rows) (apart, keyed) own small (here, later) = (
    any-promoted first rows apart own small here,
    numbers-promoted rows keyed (λ v m. own v (inr m)) (λ v m. small v (inr m)) later,
  )

  pub IsNumbered-promoted :
      (rows : List VersionRow)
      → In draft rows
      → Unique same_version_id rows
      → ((v : VersionRow) → In v rows → Smaller v)
      → IsNumbered rows
      → IsNumbered (update_rows (has_version_id draft.id) (promoted number now notes) rows)
  IsNumbered-promoted rows listed keyed small h = record {
    drafts =
        update_rows-Unique (has_version_id draft.id) (promoted number now notes) both_drafts
          promoted_drafts rows h.drafts;
    numbers =
        numbers-promoted rows keyed
          (λ v m hit.
            ap (λ (r : VersionRow). r.workflow_id)
              (Unique-In same_version_id (λ a b e. ground arith) v draft rows keyed m listed hit))
          small h.numbers;
  }
