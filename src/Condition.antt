-- ===== src/Condition.antt =====
-- The condition node: src/app/infrastructure/nodes/builtin/core_condition.py. A value is what the
-- upstream nodes emit: `Values` gives what `isinstance` and `len` tell of it, its elements, and the
-- language's `is`, `==`, `<`, `>` and hashability. Membership in a list is by `is` or `==`. The validation of the configuration is left out.
pub mod Comparison
pub mod Routing
use Prim.Native.Char.{code}
use orqent.Base.{
  ℕ, String, List, [], ◌∷◌, Option, none, some, Bool, true, false, not, ◌&&◌, ◌||◌, ◌==◌,
  if◌then◌else◌, eqb, any, is_nil, is_some, codes, Dict, lookup, Result, ok, raise, ◌>>=◌,
}

pub data Operator : Type 0 where
  equals not_equals greater_than less_than contains is_empty : Operator

-- Values come out of JSON columns, so bytes and sets do not occur.
pub data Kind (V : Type 0) : Type 0 where
  nothing boolean number other : Kind V
  text : (characters : String) → Kind V
  sequence : (items : List V) → Kind V
  mapping : (fields : Dict V) → Kind V

pub record Values (V : Type 0) : Type 0 where
  pub none_value : V
  pub kind : V → Kind V
  pub identical : V → V → Bool
  pub equal : V → V → Bool
  pub greater : V → V → Bool
  pub less : V → V → Bool
  pub hashable : V → Bool

pub record ConditionConfig (V : Type 0) : Type 0 where
  pub path : String
  pub operator : Operator
  pub value : V

pub data ConditionError : Type 0 where
  unhashable : ConditionError

-- `path.split(".")`
abbrev pub prefixed : (String → String) → List String → List String
prefixed extend [] = extend "" ∷ []
prefixed extend (segment ∷ segments) = extend segment ∷ segments

unfoldable pub split : String → List String
split String.[] = "" ∷ []
split (String.◌∷◌ c s) =
    let rest = split s in if eqb (code c) 46 then "" ∷ rest else prefixed (λ t. String.◌∷◌ c t) rest

-- `value in subject` on text.
unfoldable pub starts_with : List ℕ → List ℕ → Bool
starts_with [] cs = true
starts_with (p ∷ ps) [] = false
starts_with (p ∷ ps) (c ∷ cs) = eqb p c && starts_with ps cs

unfoldable pub occurs_in : List ℕ → List ℕ → Bool
occurs_in part [] = is_nil part
occurs_in part (c ∷ cs) = starts_with part (c ∷ cs) || occurs_in part cs

abbrev pub is_number : {V : Type 0} → Kind V → Bool
is_number number = true
is_number _ = false

-- The two operands of `in` on text.
abbrev pub text_in : {V : Type 0} → Kind V → String → Bool
text_in (text part) characters = occurs_in (codes part) (codes characters)
text_in _ characters = false

abbrev pub key_in : {V : Type 0} → Kind V → Dict V → Bool
key_in (text key) fields = is_some (lookup key fields)
key_in _ fields = false

abbrev pub handle_of : Bool → String
handle_of taken = if taken then "true" else "false"

module _ {V : Type 0} (values : Values V) where
  -- `current.get(segment)` on a mapping, `None` elsewhere.
  unfoldable pub step_into : V → String → V
  step_into current segment = elim (values.kind current) [
    | mapping fields ↦ elim (lookup segment fields) [
      | none ↦ values.none_value
      | some field ↦ field
    ]
    | nothing ↦ values.none_value
    | boolean ↦ values.none_value
    | number ↦ values.none_value
    | other ↦ values.none_value
    | text _ ↦ values.none_value
    | sequence _ ↦ values.none_value
  ]

  unfoldable pub walk : V → List String → V
  walk current [] = current
  walk current (segment ∷ segments) = walk (step_into current segment) segments

  -- `_resolve`
  unfoldable pub resolve : V → String → V
  resolve value path = if path == "" then value else walk value (split path)

  -- `_is_empty`
  unfoldable pub empty_value : V → Bool
  empty_value subject = elim (values.kind subject) [
    | nothing ↦ true
    | text characters ↦ is_nil (codes characters)
    | sequence items ↦ is_nil items
    | mapping fields ↦ is_nil fields
    | boolean ↦ false
    | number ↦ false
    | other ↦ false
  ]

  -- `_ordered`: a Boolean is not a number.
  unfoldable pub ordered : V → V → Bool → Bool
  ordered subject value greater =
      is_number (values.kind subject)
      && is_number (values.kind value)
      && (if greater then values.greater subject value else values.less subject value)

  -- `_contains`: membership of a mapping hashes the value first.
  unfoldable pub contained : V → V → Result ConditionError Bool
  contained subject value = elim (values.kind subject) [
    | text characters ↦ ok (text_in (values.kind value) characters)
    | mapping fields ↦
        if values.hashable value then ok (key_in (values.kind value) fields) else raise unhashable
    | sequence items ↦
        ok (any (λ item. values.identical item value || values.equal item value) items)
    | nothing ↦ ok false
    | boolean ↦ ok false
    | number ↦ ok false
    | other ↦ ok false
  ]

  -- `_evaluate`
  unfoldable pub evaluate : V → ConditionConfig V → Result ConditionError Bool
  evaluate subject config = elim config.operator [
    | is_empty ↦ ok (empty_value subject)
    | equals ↦ ok (values.equal subject config.value)
    | not_equals ↦ ok (not (values.equal subject config.value))
    | greater_than ↦ ok (ordered subject config.value true)
    | less_than ↦ ok (ordered subject config.value false)
    | contains ↦ contained subject config.value
  ]

  -- `context.inputs.get("main")`
  abbrev pub incoming_of : Dict V → V
  incoming_of inputs = elim (lookup "main" inputs) [
    | none ↦ values.none_value
    | some incoming ↦ incoming
  ]

  -- `ConditionRunner.run`, on the inputs of the context: the outputs of `Completed`.
  unfoldable pub run_condition : ConditionConfig V → Dict V → Result ConditionError (Dict V)
  run_condition config inputs =
      evaluate (resolve (incoming_of inputs) config.path) config >>= λ taken.
      ok ((handle_of taken, incoming_of inputs) ∷ [])
