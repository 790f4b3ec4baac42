-- ===== src/Condition/Routing.antt =====
-- Which handle the condition emits on, and how a path is followed.
use Prim.Native.Char.{code}
use orqent.Base.{
  eq_iff, ap, ◌∙◌, eqb→eq, ℕ, String, List, [], ◌∷◌, ◌++◌, Bool, true, false, not, codes, eqb, ◌==◌,
  any, lookup, Dict, Result, ok, raise, ◌≡◌, ◌⊎◌, ◌↔◌, refl, sym, arith, Bool-cases, inl, inr, ◌≢◌,
  ◌||◌, if◌then◌else◌,
}
use mathlib.Core.Path.{subst}
use orqent.Condition.{
  Operator, equals, not_equals, greater_than, less_than, contains, is_empty, Kind, nothing, boolean,
  number, other, text, sequence, mapping, Values, ConditionConfig, ConditionError, unhashable,
  key_in, text_in, empty_value, step_into, walk, resolve, ordered, incoming_of, contained, evaluate,
  split, run_condition,
}
use orqent.Condition.Comparison.{
  Refused, Contains, Holds, is_number_iff, empty_value_iff, any_item, text_in_iff, key_in_iff,
}

module _ {V : Type 0} (values : Values V) where
  -- The three ways in which a comparison ends.
  abbrev Verdict : V → ConditionConfig V → Result ConditionError Bool → Type 0
  Verdict subject config r =
      (Refused values subject config × (r ≡ raise unhashable))
      ⊎ ((¬ Refused values subject config)
          × ((Holds values config.operator subject config.value × (r ≡ ok true))
              ⊎ ((¬ Holds values config.operator subject config.value) × (r ≡ ok false))))

  -- A test that decides the comparison, where the code returns the test.
  decided :
      (subject : V) (config : ConditionConfig V) (test : Bool) (r : Result ConditionError Bool)
      → r ≡ ok test
      → (¬ Refused values subject config)
      → (test ≡ true) ↔ Holds values config.operator subject config.value
      → Verdict subject config r
  decided subject config true r returned fine exact = inr (fine, inl (exact.0 refl, returned))
  decided subject config false r returned fine exact =
      inr (fine, inr (λ h. cc (exact.1 h), returned))

  module _ (subject : V) (config : ConditionConfig V) where
    -- The meaning of the comparison, at the operator that is configured.
    meant :
        {o : Operator} (test : Bool)
        → config.operator ≡ o
        → (test ≡ true) ↔ Holds values o subject config.value
        → (test ≡ true) ↔ Holds values config.operator subject config.value
    meant test o exact =
        subst (λ op. (test ≡ true) ↔ Holds values op subject config.value) (sym o) exact

    -- Only `contains` raises.
    unrefused :
        {o : Operator}
        → config.operator ≡ o
        → o ≢ Operator.contains
        → ¬ Refused values subject config
    unrefused o apart r = apart (sym o ∙ r.operator)

    contained_decided :
        (k : Kind V) (test : Bool)
        → config.operator ≡ Operator.contains
        → values.kind subject ≡ k
        → contained values subject config.value ≡ ok test
        → (¬ Refused values subject config)
        → (test ≡ true) ↔ Contains values k config.value
        → Verdict subject config (contained values subject config.value)
    contained_decided k test o e returned fine exact =
        decided subject config test (contained values subject config.value) returned fine (
          meant test o
            (subst (λ kind. (test ≡ true) ↔ Contains values kind config.value) (sym e) exact))

    contained-Verdict :
        (k : Kind V)
        → config.operator ≡ Operator.contains
        → values.kind subject ≡ k
        → Verdict subject config (contained values subject config.value)
    unfolding contained
    contained-Verdict (mapping fields) o e = elim (Bool-cases (values.hashable config.value)) [
      | inl h ↦
          contained_decided (mapping fields) (key_in (values.kind config.value) fields) o e
            (rw (e, h, contained) refl) (λ r. let refused = r.value in cc)
            (key_in_iff values (values.kind config.value) fields)
      | inr h ↦ inl (
        record { operator = o; fields = fields; subject_kind = e; value = h },
        rw (e, h, contained) refl,
      )
    ]
    contained-Verdict (text characters) o e =
        contained_decided (text characters) (text_in (values.kind config.value) characters) o e
          (rw (e, contained) refl) (λ r. let kind = r.subject_kind in cc)
          (text_in_iff values (values.kind config.value) characters)
    contained-Verdict (sequence items) o e =
        contained_decided (sequence items)
          (any (λ item. values.identical item config.value || values.equal item config.value) items)
          o e (rw (e, contained) refl) (λ r. let kind = r.subject_kind in cc)
          (any_item values config.value items)
    contained-Verdict nothing o e =
        contained_decided nothing false o e (rw (e, contained) refl)
          (λ r. let kind = r.subject_kind in cc) (λ h. cc, λ h. absurd h)
    contained-Verdict boolean o e =
        contained_decided boolean false o e (rw (e, contained) refl)
          (λ r. let kind = r.subject_kind in cc) (λ h. cc, λ h. absurd h)
    contained-Verdict number o e =
        contained_decided number false o e (rw (e, contained) refl)
          (λ r. let kind = r.subject_kind in cc) (λ h. cc, λ h. absurd h)
    contained-Verdict other o e =
        contained_decided other false o e (rw (e, contained) refl)
          (λ r. let kind = r.subject_kind in cc) (λ h. cc, λ h. absurd h)

    ordered_iff :
        (greater : Bool)
        → (ordered values subject config.value greater ≡ true)
          ↔ Holds values
              (if greater then Operator.greater_than else Operator.less_than)
              subject
              config.value
    unfolding ordered
    ordered_iff true =
        let left = is_number_iff values (values.kind subject) in
        let right = is_number_iff values (values.kind config.value) in
        (
          λ h. (left.0 (ground arith), right.0 (ground arith), ground arith),
          λ (a, b, above). let m = left.1 a in let n = right.1 b in ground arith,
        )
    ordered_iff false =
        let left = is_number_iff values (values.kind subject) in
        let right = is_number_iff values (values.kind config.value) in
        (
          λ h. (left.0 (ground arith), right.0 (ground arith), ground arith),
          λ (a, b, below). let m = left.1 a in let n = right.1 b in ground arith,
        )

    evaluate-Verdict :
        (o : Operator)
        → config.operator ≡ o
        → Verdict subject config (evaluate values subject config)
    unfolding evaluate
    evaluate-Verdict contains o =
        subst (Verdict subject config) (sym (rw (o, evaluate) refl))
          (contained-Verdict (values.kind subject) o refl)
    evaluate-Verdict is_empty o =
        decided subject config (empty_value values subject) _ (rw (o, evaluate) refl)
          (unrefused o (λ e. cc))
          (meant (empty_value values subject) o
            (empty_value_iff values subject (values.kind subject) refl))
    evaluate-Verdict equals o =
        decided subject config (values.equal subject config.value) _ (rw (o, evaluate) refl)
          (unrefused o (λ e. cc)) (meant (values.equal subject config.value) o (λ h. h, λ h. h))
    evaluate-Verdict not_equals o =
        decided subject config (not (values.equal subject config.value)) _ (rw (o, evaluate) refl)
          (unrefused o (λ e. cc))
          (meant (not (values.equal subject config.value)) o (λ h. ground arith, λ h. ground arith))
    evaluate-Verdict greater_than o =
        decided subject config (ordered values subject config.value true) _ (rw (o, evaluate) refl)
          (unrefused o (λ e. cc))
          (meant (ordered values subject config.value true) o (ordered_iff true))
    evaluate-Verdict less_than o =
        decided subject config (ordered values subject config.value false) _ (rw (o, evaluate) refl)
          (unrefused o (λ e. cc))
          (meant (ordered values subject config.value false) o (ordered_iff false))

  -- The subject is what the path leads to in the value that came in. Where the condition asks whether a
  -- mapping contains a value that cannot be hashed, it raises. Everywhere else it forwards what came in on
  -- one handle: on "true" where the comparison holds, on "false" where it does not.
  pub run_condition_lem :
      (config : ConditionConfig V) (inputs : Dict V)
      → (Refused values (resolve values (incoming_of values inputs) config.path) config
          × (run_condition values config inputs ≡ raise unhashable))
        ⊎ ((¬ Refused values (resolve values (incoming_of values inputs) config.path) config)
            × ((Holds values config.operator
                    (resolve values (incoming_of values inputs) config.path)
                    config.value
                  × (run_condition values config inputs
                      ≡ ok (("true", incoming_of values inputs) ∷ [])))
                ⊎ ((¬ Holds values config.operator
                      (resolve values (incoming_of values inputs) config.path)
                      config.value)
                    × (run_condition values config inputs
                        ≡ ok (("false", incoming_of values inputs) ∷ [])))))
  unfolding run_condition
  run_condition_lem config inputs =
      elim (evaluate-Verdict (resolve values (incoming_of values inputs) config.path) config
        config.operator refl) [
          | inl (refused, e) ↦ inl (refused, rw (run_condition, e) refl)
          | inr (fine, inl (holds, e)) ↦ inr (fine, inl (holds, rw (run_condition, e) refl))
          | inr (fine, inr (fails, e)) ↦ inr (fine, inr (fails, rw (run_condition, e) refl))
        ]

-- The segments joined by dots, as code points.
abbrev pub dotted : List String → List ℕ
dotted [] = []
dotted (segment ∷ []) = codes segment
dotted (segment ∷ next ∷ segments) = codes segment ++ 46 ∷ dotted (next ∷ segments)

abbrev pub has_dot : String → Bool
has_dot segment = any (λ c. eqb c 46) (codes segment)

split_some :
    (s : String) → (segment : String) × (segments : List String) × (split s ≡ segment ∷ segments)
unfolding split
split_some String.[] = ("", [], refl)
split_some (String.◌∷◌ c s) = elim (Bool-cases (eqb (code c) 46)) [
  | inl e ↦ ("", split s, rw e refl)
  | inr e ↦
      let (segment, segments, rest) = split_some s in
      (String.◌∷◌ c segment, segments, rw (e, rest) refl)
]

dotted_extend :
    (c : _) (segment : String) (segments : List String)
    → dotted (String.◌∷◌ c segment ∷ segments) ≡ code c ∷ dotted (segment ∷ segments)
dotted_extend c segment [] = refl
dotted_extend c segment (next ∷ segments) = refl

dotted-split :
    (path : String) → (dotted (split path) ≡ codes path) × (any has_dot (split path) ≡ false)
unfolding split
dotted-split String.[] = (refl, refl)
dotted-split (String.◌∷◌ c s) =
    let (segment, segments, some_first) = split_some s in
    let (whole, clear) = dotted-split s in
    let w = rw some_first at whole in
    let n = rw some_first at clear in
    elim (Bool-cases (eqb (code c) 46)) [
      | inl e ↦
          let same = eqb→eq (code c) 46 e in
          (rw (e, some_first) (rw same (ap (λ cs. 46 ∷ cs) w)), rw (e, some_first) n)
      | inr e ↦ (
        rw (e, some_first) (dotted_extend c segment segments ∙ ap (λ cs. code c ∷ cs) w),
        rw (e, some_first) (rw e n),
      )
    ]

-- A value under one key after another.
abbrev pub nest : {V : Type 0} → (String → V → V) → List String → V → V
nest wrap [] v = v
nest wrap (segment ∷ segments) v = wrap segment (nest wrap segments v)

module _ {V : Type 0} (values : Values V) (wrap : String → V → V)
    (wraps : (key : String) (v : V) → values.kind (wrap key v) ≡ Kind.mapping ((key, v) ∷ [])) where
  walk-nest : (segments : List String) (v : V) → walk values (nest wrap segments v) segments ≡ v
  unfolding walk step_into lookup
  walk-nest [] v = refl
  walk-nest (segment ∷ segments) v =
      let here : (segment == segment) ≡ true = (eq_iff segment segment).1 refl in
      rw (walk, step_into, wraps segment (nest wrap segments v), lookup, here)
        (walk-nest segments v)

  -- A value that lies under the segments of a path, one mapping in the other, is what the path
  -- resolves to, and the segments are the path cut at its dots. The path is not empty, and `wrap`
  -- makes a mapping of one key.
  pub resolve-nest :
      (path : String) (v : V)
      → (path == "") ≡ false
      → (resolve values (nest wrap (split path) v) path ≡ v)
        × (dotted (split path) ≡ codes path)
        × (any has_dot (split path) ≡ false)
  unfolding resolve
  resolve-nest path v named =
      let (whole, clear) = dotted-split path in
      (rw (resolve, named) (walk-nest (split path) v), whole, clear)
