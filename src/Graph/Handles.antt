-- ===== src/Graph/Handles.antt =====
-- src/app/domain/nodes/handles.py and `compatible` of
-- src/app/domain/graph/validation/handles.py: which values may flow into which handle.
use orqent.Base.{
  ℕ, Bool, true, false, ◌||◌, ◌↔◌, ◌≡◌, refl, arith, eqb, eqb→eq, ap, sym, inl, inr, Bool-cases,
}
use mathlib.Core.Path.{subst}

-- `HandleType`: only lists carry an item and only records a model, which `__post_init__` checks. A
-- model is a class, compared by identity: a number stands for it.
pub data HandleType : Type 0 where
  any : HandleType
  text : HandleType
  number : HandleType
  boolean : HandleType
  json : HandleType
  binary : HandleType
  record_of : ℕ → HandleType
  list_of : HandleType → HandleType

-- `source == target`
unfoldable pub same_type : HandleType → HandleType → Bool
same_type any any = true
same_type text text = true
same_type number number = true
same_type boolean boolean = true
same_type json json = true
same_type binary binary = true
same_type (record_of m) (record_of n) = eqb m n
same_type (list_of s) (list_of t) = same_type s t
same_type _ _ = false

abbrev pub is_any : HandleType → Bool
is_any any = true
is_any _ = false

-- `target.kind is JSON and source.kind in (JSON, RECORD)`
abbrev pub widens : HandleType → HandleType → Bool
widens json json = true
widens (record_of _) json = true
widens _ _ = false

-- The tests of `compatible` up to the last, which looks into lists.
unfoldable pub accepts : HandleType → HandleType → Bool
unfolding same_type
accepts source target =
    is_any target || is_any source || same_type source target || widens source target

unfoldable pub compatible : HandleType → HandleType → Bool
unfolding accepts
compatible (list_of s) (list_of t) = accepts (list_of s) (list_of t) || compatible s t
compatible source target = accepts source target

-- No part of the type is `any`.
abbrev pub is_definite : HandleType → Bool
is_definite any = false
is_definite (list_of item) = is_definite item
is_definite _ = true

same_type_refl : (s : HandleType) → same_type s s ≡ true
unfolding same_type
same_type_refl any = refl
same_type_refl text = refl
same_type_refl number = refl
same_type_refl boolean = refl
same_type_refl json = refl
same_type_refl binary = refl
same_type_refl (record_of m) = ground arith
same_type_refl (list_of s) = same_type_refl s

compatible_refl : (s : HandleType) → compatible s s ≡ true
unfolding compatible
compatible_refl any = refl
compatible_refl text = refl
compatible_refl number = refl
compatible_refl boolean = refl
compatible_refl json = refl
compatible_refl binary = refl
compatible_refl (record_of m) = ground arith
compatible_refl (list_of s) = ground (arith, same_type_refl s)

same_type→eq : (s t : HandleType) → same_type s t ≡ true → s ≡ t
unfolding same_type
same_type→eq (record_of m) (record_of n) h = ap record_of (eqb→eq m n h)
same_type→eq (list_of s) (list_of t) h = ap list_of (same_type→eq s t h)
same_type→eq s t h = ground arith

compatible-items :
    (s t : HandleType) → compatible (list_of s) (list_of t) ≡ true → compatible s t ≡ true
unfolding compatible
compatible-items s t h = elim (Bool-cases (same_type s t)) [
  | inl e ↦ rw (sym (same_type→eq s t e)) (compatible_refl s)
  | inr e ↦ ground arith
]

-- The closed lattice of handle types, rule by rule.
pub data Flows : HandleType → HandleType → Type 0 where
  from_any : {t : HandleType} → Flows any t
  into_any : {s : HandleType} → Flows s any
  same : {s : HandleType} → Flows s s
  widen : {m : ℕ} → Flows (record_of m) json
  items : {s t : HandleType} → Flows s t → Flows (list_of s) (list_of t)

widens-Flows : (s t : HandleType) → widens s t ≡ true → Flows s t
widens-Flows json json h = same
widens-Flows (record_of m) json h = widen
widens-Flows s t h = cc

is_any-eq : (s : HandleType) → is_any s ≡ true → s ≡ any
is_any-eq any h = refl
is_any-eq s h = cc

accepts-Flows : (s t : HandleType) → accepts s t ≡ true → Flows s t
unfolding accepts
accepts-Flows s t h = elim (Bool-cases (is_any t)) [
  | inl e ↦ subst (Flows s) (sym (is_any-eq t e)) into_any
  | inr target ↦ elim (Bool-cases (is_any s)) [
    | inl e ↦ subst (λ r. Flows r t) (sym (is_any-eq s e)) from_any
    | inr source ↦ elim (Bool-cases (same_type s t)) [
      | inl e ↦ subst (Flows s) (same_type→eq s t e) same
      | inr other ↦ widens-Flows s t (ground arith)
    ]
  ]
]

compatible-Flows : (s t : HandleType) → compatible s t ≡ true → Flows s t
unfolding compatible
compatible-Flows (list_of s) (list_of t) h = items (compatible-Flows s t (compatible-items s t h))
compatible-Flows s t h = accepts-Flows s t h

compatible_from_any : (t : HandleType) → compatible any t ≡ true
unfolding compatible
compatible_from_any t = ground arith

compatible_into_any : (s : HandleType) → compatible s any ≡ true
unfolding compatible
compatible_into_any (list_of s) = refl
compatible_into_any s = refl

Flows-compatible : {s t : HandleType} → Flows s t → compatible s t ≡ true
unfolding compatible
Flows-compatible (from_any {t}) = compatible_from_any t
Flows-compatible (into_any {s}) = compatible_into_any s
Flows-compatible (same {s}) = compatible_refl s
Flows-compatible widen = refl
Flows-compatible (items {s} {t} flow) = ground (arith, Flows-compatible flow)

-- A value of one type may flow into a handle of another exactly when a rule of the lattice says so:
-- `any` on either side, the same type, a record into `json`, or two lists whose items may flow.
pub compatible_decides : (s t : HandleType) → (compatible s t ≡ true) ↔ Flows s t
compatible_decides s t = (compatible-Flows s t, Flows-compatible)

Flows-trans : {a b c : HandleType} → Flows a b → Flows b c → is_definite b ≡ true → Flows a c
Flows-trans from_any g d = from_any
Flows-trans same g d = g
Flows-trans f same d = f
Flows-trans f into_any d = into_any
Flows-trans (items f) (items g) d = items (Flows-trans f g d)
Flows-trans into_any g d = cc

-- Compatibility composes through a type of which no part is `any`: what may flow into it may flow
-- wherever it may flow itself.
pub compatible_trans :
    (a b c : HandleType)
    → is_definite b ≡ true
    → compatible a b ≡ true
    → compatible b c ≡ true
    → compatible a c ≡ true
compatible_trans a b c definite h k =
    Flows-compatible (Flows-trans (compatible-Flows a b h) (compatible-Flows b c k) definite)
