-- ===== src/Examples/Branching.antt =====
-- The condition on small values, and the theorems there.
use orqent.Base.{
  String, [], ◌∷◌, Bool, true, false, ◌==◌, ◌&&◌, any, codes, lookup, ok, raise, ◌≡◌, ◌⊎◌, refl,
}
use orqent.Condition.{
  Operator, Kind, Values, ConditionConfig, unhashable, split, step_into, walk, resolve, contained,
  evaluate, occurs_in, starts_with, empty_value, ordered, incoming_of, run_condition,
}
use orqent.Condition.Comparison.{Refused, Holds}
use orqent.Condition.Routing.{nest, dotted, has_dot, run_condition_lem, resolve-nest}

-- A field inside a mapping, text, a list without items, or nothing.
data Value : Type 0 where
  absent empty_list : Value
  plain_text : (characters : String) → Value
  field : (key : String) (value : Value) → Value

same_value : Value → Value → Bool
same_value absent absent = true
same_value empty_list empty_list = true
same_value (plain_text a) (plain_text b) = a == b
same_value (field j v) (field k w) = same_value v w && j == k
same_value _ _ = false

kind_of : Value → Kind Value
kind_of absent = Kind.nothing
kind_of empty_list = Kind.sequence []
kind_of (plain_text characters) = Kind.text characters
kind_of (field key value) = Kind.mapping ((key, value) ∷ [])

can_hash : Value → Bool
can_hash absent = true
can_hash (plain_text _) = true
can_hash _ = false

abbrev small : Values Value
unfolding same_value kind_of can_hash
small = record {
  none_value = absent;
  kind = kind_of;
  identical = same_value;
  equal = same_value;
  greater = λ _ _. false;
  less = λ _ _. false;
  hashable = can_hash;
}

condition_program : Unit {0}
unfolding same_value kind_of can_hash split step_into walk resolve contained evaluate occurs_in
    starts_with empty_value ordered run_condition lookup
condition_program = tt

abbrev gold_tier : Value
gold_tier = field "customer" (field "tier" (plain_text "gold"))

abbrev is_gold : ConditionConfig Value
is_gold = record { path = "customer.tier"; operator = Operator.equals; value = plain_text "gold" }

gold_is_true :
    run_condition small is_gold (("main", gold_tier) ∷ []) ≡ ok (("true", gold_tier) ∷ [])
unfolding condition_program
gold_is_true = refl

-- A mapping that is asked for a list raises.
abbrev asks_for_list : ConditionConfig Value
asks_for_list = record { path = ""; operator = Operator.contains; value = empty_list }

list_raises : run_condition small asks_for_list (("main", gold_tier) ∷ []) ≡ raise unhashable
unfolding condition_program
list_raises = refl

run_condition_lem_example :
    (Refused small
        (resolve small (incoming_of small (("main", gold_tier) ∷ [])) "customer.tier")
        is_gold
      × (run_condition small is_gold (("main", gold_tier) ∷ []) ≡ raise unhashable))
    ⊎ ((¬ Refused small
          (resolve small (incoming_of small (("main", gold_tier) ∷ [])) "customer.tier")
          is_gold)
        × ((Holds small Operator.equals
                (resolve small (incoming_of small (("main", gold_tier) ∷ [])) "customer.tier")
                (plain_text "gold")
              × (run_condition small is_gold (("main", gold_tier) ∷ [])
                  ≡ ok (("true", gold_tier) ∷ [])))
            ⊎ ((¬ Holds small Operator.equals
                  (resolve small (incoming_of small (("main", gold_tier) ∷ [])) "customer.tier")
                  (plain_text "gold"))
                × (run_condition small is_gold (("main", gold_tier) ∷ [])
                    ≡ ok (("false", gold_tier) ∷ [])))))
unfolding lookup
run_condition_lem_example = run_condition_lem small is_gold (("main", gold_tier) ∷ [])

field_wraps : (key : String) (v : Value) → small.kind (field key v) ≡ Kind.mapping ((key, v) ∷ [])
unfolding condition_program
field_wraps key v = refl

resolve-nest_example :
    (resolve small (nest field (split "customer.tier") (plain_text "gold")) "customer.tier"
      ≡ plain_text "gold")
    × (dotted (split "customer.tier") ≡ codes "customer.tier")
    × (any has_dot (split "customer.tier") ≡ false)
resolve-nest_example = resolve-nest small field field_wraps "customer.tier" (plain_text "gold") refl
