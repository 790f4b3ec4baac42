-- ===== src/Queue/Selection.antt =====
-- Which row `_eligible` locks, and which one a claim takes.
use orqent.Base.{
  ℕ, List, [], ◌∷◌, Option, none, some, Bool, true, false, not, ◌&&◌, In, ◌≡◌, refl, sym, arith,
  Bool-cases, inl, inr,
}
use mathlib.Core.Path.{subst}
use orqent.Queue.{QueueTask, earlier, prefer, eligible}

-- What the select returns: a row that matches and is free, with no such row before it.
pub record Chosen (matches : QueueTask → Bool) (held : ℕ → Bool) (rows : List QueueTask)
    (row : QueueTask) : Type 0 where
  pub member : In row rows
  pub matching : matches row ≡ true
  pub free : held row.id ≡ false
  pub first :
      (other : QueueTask)
      → In other rows
      → matches other ≡ true
      → held other.id ≡ false
      → earlier other row ≡ false

earlier_irrefl : (a : QueueTask) → earlier a a ≡ false
earlier_irrefl a = ground arith

earlier_asymm : (a b : QueueTask) → earlier a b ≡ true → earlier b a ≡ false
earlier_asymm a b h = ground arith

earlier_shift :
    (a b c : QueueTask) → earlier b c ≡ false → earlier a b ≡ false → earlier a c ≡ false
earlier_shift a b c h k = ground arith

module _ (matches : QueueTask → Bool) (held : ℕ → Bool) where
  abbrev pub Selects : List QueueTask → Option QueueTask → Type 0
  Selects rows none = (row : QueueTask) → In row rows → matches row ≡ true → held row.id ≡ true
  Selects rows (some row) = Chosen matches held rows row

  Selects-skip :
      (first : QueueTask) (rows : List QueueTask) (best : Option QueueTask)
      → (matches first && not (held first.id)) ≡ false
      → Selects rows best
      → Selects (first ∷ rows) best
  Selects-skip first rows none skip none_left = λ row m fits. elim m [
    | inl same ↦
        let fits_first : matches first ≡ true = subst (λ r. matches r ≡ true) same fits in
        subst (λ r. held r.id ≡ true) (sym same) (ground arith)
    | inr later ↦ none_left row later fits
  ]
  Selects-skip first rows (some row) skip chosen = record {
    member = inr chosen.member;
    matching = chosen.matching;
    free = chosen.free;
    first = λ other m fits free. elim m [
      | inl same ↦
          let fits_first : matches first ≡ true = subst (λ r. matches r ≡ true) same fits in
          let free_first : held first.id ≡ false = subst (λ r. held r.id ≡ false) same free in
          ground arith
      | inr later ↦ chosen.first other later fits free
    ];
  }

  Selects-prefer :
      (first : QueueTask) (rows : List QueueTask) (best : Option QueueTask)
      → matches first ≡ true
      → held first.id ≡ false
      → Selects rows best
      → Selects (first ∷ rows) (prefer first best)
  Selects-prefer first rows none fits free none_left = record {
    member = inl refl;
    matching = fits;
    free = free;
    first = λ other m fits_other free_other. elim m [
      | inl same ↦ rw same (earlier_irrefl first)
      | inr later ↦ let busy = none_left other later fits_other in ground arith
    ];
  }
  Selects-prefer first rows (some row) fits free chosen = elim (Bool-cases (earlier row first)) [
    | inl e ↦ rw e (record {
      member = inr chosen.member;
      matching = chosen.matching;
      free = chosen.free;
      first = λ other m fits_other free_other. elim m [
        | inl same ↦ rw same (earlier_asymm row first e)
        | inr later ↦ chosen.first other later fits_other free_other
      ];
    })
    | inr e ↦ rw e (record {
      member = inl refl;
      matching = fits;
      free = free;
      first = λ other m fits_other free_other. elim m [
        | inl same ↦ rw same (earlier_irrefl first)
        | inr later ↦
            earlier_shift other row first e (chosen.first other later fits_other free_other)
      ];
    })
  ]

  pub eligible-Selects : (rows : List QueueTask) → Selects rows (eligible matches held rows)
  unfolding eligible
  eligible-Selects [] = λ row m fits. absurd m
  eligible-Selects (first ∷ rows) = elim (Bool-cases (matches first && not (held first.id))) [
    | inl e ↦ rw e (
        Selects-prefer first rows (eligible matches held rows) (ground arith) (ground arith)
          (eligible-Selects rows))
    | inr e ↦ rw e (Selects-skip first rows (eligible matches held rows) e (eligible-Selects rows))
  ]
