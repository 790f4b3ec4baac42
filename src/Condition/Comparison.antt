-- ===== src/Condition/Comparison.antt =====
-- What the operators of the condition mean, said of the values, and that the code's helpers decide it.
use orqent.Base.{
  ℕ, String, List, [], ◌∷◌, ◌++◌, some, true, false, ◌||◌, eqb, eqb→eq, codes, any, is_nil, In,
  Dict, lookup, ◌≡◌, ◌⊎◌, ◌↔◌, inl, inr, refl, ap, arith, and-left, and-right, Bool-cases,
  Option-cases, List-cases,
}
use mathlib.Core.Path.{subst}
use orqent.Condition.{
  Operator, equals, not_equals, greater_than, less_than, contains, is_empty, Kind, nothing, boolean,
  number, other, text, sequence, mapping, Values, ConditionConfig, is_number, starts_with,
  occurs_in, key_in, text_in, empty_value,
}

-- One list of code points stands inside another.
abbrev pub Inside : (part whole : List ℕ) → Type 0
Inside part whole = (before : List ℕ) × (after : List ℕ) × (whole ≡ before ++ (part ++ after))

starts_with_iff :
    (part whole : List ℕ)
    → (starts_with part whole ≡ true) ↔ ((after : List ℕ) × (whole ≡ part ++ after))
unfolding starts_with
starts_with_iff [] whole = (λ h. (whole, refl), λ h. refl)
starts_with_iff (p ∷ ps) [] = (λ h. cc, λ (after, e). cc)
starts_with_iff (p ∷ ps) (c ∷ cs) = (
  λ h.
      let (after, e) = (starts_with_iff ps cs).0 (and-right (eqb p c) (starts_with ps cs) h) in
      (after, rw (eqb→eq p c (and-left (eqb p c) (starts_with ps cs) h)) (ap (λ t. c ∷ t) e)),
  λ (after, e).
      let tail : cs ≡ ps ++ after = cc in
      let first : c ≡ p = cc in let rest = (starts_with_iff ps cs).1 (after, tail) in ground arith,
)

occurs_in_iff : (part whole : List ℕ) → (occurs_in part whole ≡ true) ↔ Inside part whole
unfolding occurs_in
occurs_in_iff [] [] = (λ h. ([], [], refl), λ h. refl)
occurs_in_iff (p ∷ ps) [] = (
  λ h. cc,
  λ (before, after, e). elim (List-cases before) [
    | inl empty ↦ cc (rw empty at e)
    | inr (x, rest, more) ↦ cc (rw more at e)
  ],
)
occurs_in_iff part (c ∷ cs) = (
  λ h. elim (Bool-cases (starts_with part (c ∷ cs))) [
    | inl here ↦ let (after, e) = (starts_with_iff part (c ∷ cs)).0 here in ([], after, e)
    | inr elsewhere ↦
        let later : occurs_in part cs ≡ true = ground arith in
        let (before, after, e) = (occurs_in_iff part cs).0 later in
        (c ∷ before, after, ap (λ t. c ∷ t) e)
  ],
  λ (before, after, e). elim (List-cases before) [
    | inl empty ↦
        let here = (starts_with_iff part (c ∷ cs)).1 (after, rw empty at e) in ground arith
    | inr (x, rest, more) ↦
        let whole : c ∷ cs ≡ x ∷ (rest ++ (part ++ after)) = rw more at e in
        let tail : cs ≡ rest ++ (part ++ after) = cc in
        let later = (occurs_in_iff part cs).1 (rest, after, tail) in
        elim (Bool-cases (starts_with part (c ∷ cs))) [
          | inl here ↦ rw here refl
          | inr there ↦ rw (there, later) refl
        ]
  ],
)

module _ {V : Type 0} (values : Values V) where
  -- The one subject, operator and value on which the comparison raises.
  pub record Refused (subject : V) (config : ConditionConfig V) : Type 0 where
    pub operator : config.operator ≡ Operator.contains
    pub fields : Dict V
    pub subject_kind : values.kind subject ≡ Kind.mapping fields
    pub value : values.hashable config.value ≡ false

  abbrev pub IsNumber : Kind V → Type 0
  IsNumber number = Unit
  IsNumber _ = ⊥

  -- What is empty: nothing, and text, lists and mappings without parts.
  abbrev pub IsEmpty : Kind V → Type 0
  IsEmpty nothing = Unit
  IsEmpty (text characters) = codes characters ≡ []
  IsEmpty (sequence items) = items ≡ []
  IsEmpty (mapping fields) = fields ≡ []
  IsEmpty boolean = ⊥
  IsEmpty number = ⊥
  IsEmpty other = ⊥

  -- What a subject contains: text its parts, a list the items that are the value or equal to it, a
  -- mapping its keys.
  abbrev pub Contains : Kind V → V → Type 0
  Contains (text whole) value =
      (part : String) × (values.kind value ≡ Kind.text part) × Inside (codes part) (codes whole)
  Contains (sequence items) value =
      (item : V) × In item items
      × ((values.identical item value ≡ true) ⊎ (values.equal item value ≡ true))
  Contains (mapping fields) value =
      (key : String) × (values.kind value ≡ Kind.text key)
      × ((field : V) × (lookup key fields ≡ some field))
  Contains nothing value = ⊥
  Contains boolean value = ⊥
  Contains number value = ⊥
  Contains other value = ⊥

  -- The comparison that the configuration asks for holds of the subject.
  abbrev pub Holds : Operator → V → V → Type 0
  Holds equals subject value = values.equal subject value ≡ true
  Holds not_equals subject value = values.equal subject value ≡ false
  Holds greater_than subject value =
      IsNumber (values.kind subject)
      × IsNumber (values.kind value)
      × (values.greater subject value ≡ true)
  Holds less_than subject value =
      IsNumber (values.kind subject)
      × IsNumber (values.kind value)
      × (values.less subject value ≡ true)
  Holds contains subject value = Contains (values.kind subject) value
  Holds is_empty subject value = IsEmpty (values.kind subject)

  pub is_number_iff : (k : Kind V) → (is_number k ≡ true) ↔ IsNumber k
  is_number_iff number = (λ h. tt, λ h. refl)
  is_number_iff nothing = (λ h. cc, λ h. absurd h)
  is_number_iff boolean = (λ h. cc, λ h. absurd h)
  is_number_iff other = (λ h. cc, λ h. absurd h)
  is_number_iff (text _) = (λ h. cc, λ h. absurd h)
  is_number_iff (sequence _) = (λ h. cc, λ h. absurd h)
  is_number_iff (mapping _) = (λ h. cc, λ h. absurd h)

  is_nil_iff : {A : Type 0} (xs : List A) → (is_nil xs ≡ true) ↔ (xs ≡ [])
  is_nil_iff [] = (λ h. refl, λ h. refl)
  is_nil_iff (x ∷ xs) = (λ h. cc, λ h. cc)

  pub empty_value_iff :
      (subject : V) (k : Kind V)
      → values.kind subject ≡ k
      → (empty_value values subject ≡ true) ↔ IsEmpty k
  unfolding empty_value
  empty_value_iff subject nothing e = rw (e, empty_value) (λ h. tt, λ h. refl)
  empty_value_iff subject (text characters) e = rw (e, empty_value) (is_nil_iff (codes characters))
  empty_value_iff subject (sequence items) e = rw (e, empty_value) (is_nil_iff items)
  empty_value_iff subject (mapping fields) e = rw (e, empty_value) (is_nil_iff fields)
  empty_value_iff subject boolean e = rw (e, empty_value) (λ h. cc, λ h. absurd h)
  empty_value_iff subject number e = rw (e, empty_value) (λ h. cc, λ h. absurd h)
  empty_value_iff subject other e = rw (e, empty_value) (λ h. cc, λ h. absurd h)

  pub any_item :
      (value : V) (items : List V)
      → (any (λ item. values.identical item value || values.equal item value) items ≡ true)
        ↔ Contains (Kind.sequence items) value
  any_item value [] = (λ h. cc, λ (item, m, _). absurd m)
  any_item value (x ∷ items) = (
    λ h. elim (Bool-cases (values.identical x value || values.equal x value)) [
      | inl here ↦ (
        x,
        inl refl,
        elim (Bool-cases (values.identical x value)) [
          | inl same ↦ inl same
          | inr apart ↦ inr (rw apart at here)
        ],
      )
      | inr there ↦
          let (item, m, fits) = (any_item value items).0 (rw there at h) in (item, inr m, fits)
    ],
    λ (item, m, fits). elim m [
      | inl same ↦
          let here : (values.identical x value || values.equal x value) ≡ true =
            elim (subst (λ y. (values.identical y value ≡ true) ⊎ (values.equal y value ≡ true))
              same fits) [ inl identical ↦ rw identical refl | inr equal ↦ ground arith ] in
          rw here refl
      | inr later ↦ let rest = (any_item value items).1 (item, later, fits) in ground arith
    ],
  )

  pub text_in_iff :
      (k : Kind V) (whole : String)
      → (text_in k whole ≡ true)
        ↔ ((part : String) × (k ≡ Kind.text part) × Inside (codes part) (codes whole))
  text_in_iff (text part) whole = (
    λ h. (part, refl, (occurs_in_iff (codes part) (codes whole)).0 h),
    λ (p, e, inside).
        let same : p ≡ part = cc in
        (occurs_in_iff (codes part) (codes whole)).1
          (subst (λ q. Inside (codes q) (codes whole)) same inside),
  )
  text_in_iff nothing whole = (λ h. cc, λ (p, e, inside). cc)
  text_in_iff boolean whole = (λ h. cc, λ (p, e, inside). cc)
  text_in_iff number whole = (λ h. cc, λ (p, e, inside). cc)
  text_in_iff other whole = (λ h. cc, λ (p, e, inside). cc)
  text_in_iff (sequence _) whole = (λ h. cc, λ (p, e, inside). cc)
  text_in_iff (mapping _) whole = (λ h. cc, λ (p, e, inside). cc)

  pub key_in_iff :
      (k : Kind V) (fields : Dict V)
      → (key_in k fields ≡ true)
        ↔ ((key : String) × (k ≡ Kind.text key) × ((field : V) × (lookup key fields ≡ some field)))
  key_in_iff (text key) fields = (
    λ h. elim (Option-cases (lookup key fields)) [
      | inl missing ↦ cc (rw missing at h)
      | inr (field, found) ↦ (key, refl, (field, found))
    ],
    λ (j, e, (field, found)). let same : j ≡ key = cc in rw (← same) (rw found refl),
  )
  key_in_iff nothing fields = (λ h. cc, λ (j, e, found). cc)
  key_in_iff boolean fields = (λ h. cc, λ (j, e, found). cc)
  key_in_iff number fields = (λ h. cc, λ (j, e, found). cc)
  key_in_iff other fields = (λ h. cc, λ (j, e, found). cc)
  key_in_iff (sequence _) fields = (λ h. cc, λ (j, e, found). cc)
  key_in_iff (mapping _) fields = (λ h. cc, λ (j, e, found). cc)
