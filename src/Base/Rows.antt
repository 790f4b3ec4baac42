-- ===== src/Base/Rows.antt =====
-- Rows of a table: what an UPDATE and an INSERT do, and what they keep.
use Prim.Native.Nat.{ℕ}
use mathlib.Core.Path.{◌≡◌, refl, sym, subst, ◌∙◌}
use mathlib.Core.Logic.{inl, inr}
use mathlib.Core.Bool.{Bool, true, false}
use mathlib.Core.Option.{Option, none, some}
use mathlib.Core.List.{List, [], ◌∷◌, ◌++◌}
use native.Mathlib.Omega.{arith}
use orqent.Base.Tests.{if◌then◌else◌, Bool-cases}
use orqent.Base.Lists.{length, filter, any, All, In}

module _ {A : Type 0} where
  abbrev pub touched : (A → Bool) → (A → A) → A → A
  touched matches change row = if matches row then change row else row

  -- `UPDATE ... SET ... WHERE ...`
  unfoldable pub update_rows : (A → Bool) → (A → A) → List A → List A
  update_rows matches change [] = []
  update_rows matches change (row ∷ rows) =
      touched matches change row ∷ update_rows matches change rows

  unfoldable pub row_count : (A → Bool) → List A → ℕ
  row_count matches rows = length (filter matches rows)

  -- No row clashes with a later one.
  abbrev pub Unique : (A → A → Bool) → List A → Type 0
  Unique clash [] = Unit
  Unique clash (row ∷ rows) = (any (clash row) rows ≡ false) × Unique clash rows

  module _ (matches : A → Bool) (change : A → A) where
    module _ (clash : A → A → Bool)
        (reflects : (a b : A)
          → clash (touched matches change a) (touched matches change b) ≡ true
          → clash a b ≡ true) where
      any-update_rows :
          (row : A) (rows : List A)
          → any (clash row) rows ≡ false
          → any (clash (touched matches change row)) (update_rows matches change rows) ≡ false
      unfolding update_rows
      any-update_rows row [] h = refl
      any-update_rows row (first ∷ rows) h =
          elim (Bool-cases (clash (touched matches change row) (touched matches change first))) [
            | inl e ↦ ground (arith, reflects row first e)
            | inr e ↦ rw e (any-update_rows row rows (ground arith))
          ]

      pub update_rows-Unique :
          (rows : List A) → Unique clash rows → Unique clash (update_rows matches change rows)
      unfolding update_rows
      update_rows-Unique [] h = h
      update_rows-Unique (row ∷ rows) (here, later) =
          (any-update_rows row rows here, update_rows-Unique rows later)

    pub update_rows-All :
        (P : A → Type 0)
        → ((row : A) → P row → P (touched matches change row))
        → (rows : List A) → All P rows
        → All P (update_rows matches change rows)
    unfolding update_rows
    update_rows-All P keeps [] h = h
    update_rows-All P keeps (row ∷ rows) (here, later) =
        (keeps row here, update_rows-All P keeps rows later)

    pub update_rows-In :
        (row : A) (rows : List A)
        → In row rows
        → In (touched matches change row) (update_rows matches change rows)
    unfolding update_rows
    update_rows-In row [] m = absurd m
    update_rows-In row (first ∷ rows) (inl same) = rw same (inl refl)
    update_rows-In row (first ∷ rows) (inr later) = inr (update_rows-In row rows later)

  any-snoc :
      (test : A → Bool) (rows : List A) (task : A)
      → any test rows ≡ false
      → test task ≡ false
      → any test (rows ++ task ∷ []) ≡ false
  any-snoc test [] task h k = ground arith
  any-snoc test (row ∷ rows) task h k = ground (arith, any-snoc test rows task)

  pub Unique-snoc :
      (clash : A → A → Bool) (rows : List A) (task : A)
      → any (λ row. clash row task) rows ≡ false
      → Unique clash rows
      → Unique clash (rows ++ task ∷ [])
  Unique-snoc clash [] task free unique = (refl, tt)
  Unique-snoc clash (row ∷ rows) task free (here, later) = (
    any-snoc (clash row) rows task here (ground arith),
    Unique-snoc clash rows task (ground arith) later,
  )

  pub All-snoc :
      (P : A → Type 0) (rows : List A) (task : A) → All P rows → P task → All P (rows ++ task ∷ [])
  All-snoc P [] task h p = (p, tt)
  All-snoc P (row ∷ rows) task (here, later) p = (here, All-snoc P rows task later p)

  pub All-weaken :
      (P R : A → Type 0) → ((row : A) → P row → R row) → (rows : List A) → All P rows → All R rows
  All-weaken P R weaker [] h = h
  All-weaken P R weaker (row ∷ rows) (here, later) =
      (weaker row here, All-weaken P R weaker rows later)

  pub All-In : (P : A → Type 0) (row : A) (rows : List A) → All P rows → In row rows → P row
  All-In P row [] h m = absurd m
  All-In P row (first ∷ rows) (here, later) (inl same) = rw same here
  All-In P row (first ∷ rows) (here, later) (inr m) = All-In P row rows later m

  pub any-In :
      (p : A → Bool) (row : A) (rows : List A) → any p rows ≡ false → In row rows → p row ≡ false
  any-In p row [] h m = absurd m
  any-In p row (first ∷ rows) h (inl same) = rw same (ground arith)
  any-In p row (first ∷ rows) h (inr m) = any-In p row rows (ground arith) m

  -- Rows that clash are one row.
  pub Unique-In :
      (clash : A → A → Bool)
      → ((a b : A) → clash a b ≡ true → clash b a ≡ true)
      → (a b : A) (rows : List A) → Unique clash rows
      → In a rows
      → In b rows
      → clash a b ≡ true
      → a ≡ b
  Unique-In clash symm a b [] unique m n h = absurd m
  Unique-In clash symm a b (first ∷ rows) unique (inl p) (inl q) h = p ∙ sym q
  Unique-In clash symm a b (first ∷ rows) unique (inl p) (inr n) h =
      let apart = any-In (clash first) b rows unique.0 n in
      let here : clash first b ≡ true = subst (λ r. clash r b ≡ true) p h in cc
  Unique-In clash symm a b (first ∷ rows) unique (inr m) (inl q) h =
      let apart = any-In (clash first) a rows unique.0 m in
      let here : clash a first ≡ true = subst (λ r. clash a r ≡ true) q h in
      let back = symm a first here in cc
  Unique-In clash symm a b (first ∷ rows) unique (inr m) (inr n) h =
      Unique-In clash symm a b rows unique.1 m n h

  pub any_of_In :
      (p : A → Bool) (rows : List A)
      → ((row : A) → In row rows → p row ≡ false)
      → any p rows ≡ false
  any_of_In p [] h = refl
  any_of_In p (row ∷ rows) h =
      let here = h row (inl refl) in
      let later = any_of_In p rows (λ r m. h r (inr m)) in ground arith

  pub In-update_rows :
      (matches : A → Bool) (change : A → A) (row : A) (rows : List A)
      → In row (update_rows matches change rows)
      → (old : A) × In old rows × (row ≡ touched matches change old)
  unfolding update_rows
  In-update_rows matches change row [] m = absurd m
  In-update_rows matches change row (first ∷ rows) (inl same) = (first, inl refl, same)
  In-update_rows matches change row (first ∷ rows) (inr m) =
      let (old, n, e) = In-update_rows matches change row rows m in (old, inr n, e)

  -- An UPDATE after which no row passes a test.
  pub update_rows-clears :
      (test matches : A → Bool) (change : A → A)
      → ((row : A) → test (touched matches change row) ≡ false)
      → (rows : List A) → any test (update_rows matches change rows) ≡ false
  unfolding update_rows
  update_rows-clears test matches change clears [] = refl
  update_rows-clears test matches change clears (row ∷ rows) =
      rw (clears row) (update_rows-clears test matches change clears rows)

  -- What no row matched, no row matches after an UPDATE that does not bring it about.
  pub update_rows-none :
      (test matches : A → Bool) (change : A → A)
      → ((row : A) → test (change row) ≡ true → test row ≡ true)
      → (rows : List A) → any test rows ≡ false
      → any test (update_rows matches change rows) ≡ false
  unfolding update_rows
  update_rows-none test matches change keeps [] h = refl
  update_rows-none test matches change keeps (row ∷ rows) h =
      ground (arith, keeps row, update_rows-none test matches change keeps rows)

  -- The first row that matches, which a unique column makes the only one.
  unfoldable pub find_row : (A → Bool) → List A → Option A
  find_row matches [] = none
  find_row matches (row ∷ rows) = if matches row then some row else find_row matches rows

  pub find_row-some :
      (matches : A → Bool) (rows : List A) (row : A)
      → find_row matches rows ≡ some row
      → In row rows × (matches row ≡ true)
  unfolding find_row
  find_row-some matches [] row h = cc
  find_row-some matches (first ∷ rows) row h = elim (Bool-cases (matches first)) [
    | inl e ↦
        let same : first ≡ row = ground arith in
        (inl (sym same), subst (λ r. matches r ≡ true) same e)
    | inr e ↦ let (m, fits) = find_row-some matches rows row (ground arith) in (inr m, fits)
  ]

  -- An UPDATE that matches no row.
  pub update_rows_idle :
      (matches : A → Bool) (change : A → A) (rows : List A)
      → any matches rows ≡ false
      → update_rows matches change rows ≡ rows
  unfolding update_rows
  update_rows_idle matches change [] h = refl
  update_rows_idle matches change (row ∷ rows) h =
      let rest = update_rows_idle matches change rows (ground arith) in
      let other : matches row ≡ false = ground arith in rw (other, rest) refl

  pub row_count_none :
      (test : A → Bool) (rows : List A) → any test rows ≡ false → row_count test rows ≡ 0
  unfolding row_count
  row_count_none test [] h = refl
  row_count_none test (row ∷ rows) h =
      let rest = row_count_none test rows (ground arith) in
      let other : test row ≡ false = ground arith in rw (other, rest) refl
