-- ===== src/Condition/Evaluate.antt =====
-- `evaluate_condition` and `_eval` of rule_runtime.py. A recursive call is an argument of the
-- helpers; `evaluate` gives it fuel.
use zediot_hub_connector.Common.{
  Bool, List, String, [], false, if◌then◌else◌, max, mem_text, not, suc, true, zero, ℕ, ◌&&◌, ◌=ₛ◌,
  ◌||◌, ◌∷◌,
}
use zediot_hub_connector.Condition.Documents.{
  Document, Elements, Entries, Numbers, array, boolean, element, entry, get, has, no_entry, no_more,
  object, string, truthy,
}
use zediot_hub_connector.Condition.Path.{
  Result, error, invalid_condition, invalid_operator, missing_field, no_fuel, resolve,
  type_mismatch, value,
}
use zediot_hub_connector.Condition.Compare.{compare_documents}

pub data Operator : Type 0 where
  exists_ conjunction disjunction negation comparison unsupported : Operator

unfoldable pub operator_of : String → Operator
operator_of op =
    if op =ₛ "exists"
    then exists_
    else if op =ₛ "and"
    then conjunction
    else if op =ₛ "or"
    then disjunction
    else if op =ₛ "not"
    then negation
    else if mem_text op ("eq" ∷ "ne" ∷ "gt" ∷ "gte" ∷ "lt" ∷ "lte" ∷ "contains" ∷ [])
    then comparison
    else unsupported

-- `all` and `any`
unfoldable pub all_true : List Bool → Bool
all_true [] = true
all_true (b ∷ bs) = b && all_true bs

unfoldable pub any_true : List Bool → Bool
any_true [] = false
any_true (b ∷ bs) = b || any_true bs

abbrev pub ok_then : {A B : Type 0} → Result A → (A → Result B) → Result B
ok_then (value a) f = f a
ok_then (error e) f = error e

-- `str` of a value that is no text is an argument.
module _ {P : Numbers} (str : Document P → String) where
  -- The value of a node and its trace.
  abbrev pub Evaluated : Type 0
  Evaluated = Result (Document P × Document P)

  unfoldable pub str_of : Document P → String
  str_of (string s) = s
  str_of d = str d

  -- `str(node.get(key) or "")`
  unfoldable pub text_at : String → Entries P → String
  unfolding str_of
  text_at key d = if truthy (get key d) then str_of (get key d) else ""

  -- `isinstance(value, bool)`, for the children and for one value.
  abbrev pub as_bool : Document P → Result Bool
  as_bool (boolean b) = value b
  as_bool _ = error type_mismatch

  unfoldable pub as_bools : List (Document P × Document P) → Result (List Bool)
  as_bools [] = value []
  as_bools ((v, _) ∷ children) =
      ok_then (as_bool v) (λ b. ok_then (as_bools children) (λ bs. value (b ∷ bs)))

  unfoldable pub traces_of : List (Document P × Document P) → Elements P
  traces_of [] = no_more
  traces_of ((_, trace) ∷ children) = element trace (traces_of children)

  unfoldable pub exists_answer : String → String → Bool → Evaluated
  exists_answer op path b = value (
    boolean b,
    object
        (entry "op" (string op) (entry "var" (string path) (entry "result" (boolean b) no_entry))),
  )

  module _ (context : Document P) (rec : Document P → Evaluated) where
    -- `[_eval(child, context) for child in args]`
    unfoldable pub eval_all : Elements P → Result (List (Document P × Document P))
    eval_all no_more = value []
    eval_all (element x xs) = ok_then (rec x) (λ v. ok_then (eval_all xs) (λ vs. value (v ∷ vs)))

    unfoldable pub eval_exists : String → String → Evaluated
    unfolding exists_answer
    eval_exists op path = elim (resolve path context) [
      | value _ ↦ exists_answer op path true
      | error missing_field ↦ exists_answer op path false
      | error e ↦ error e
    ]

    unfoldable pub eval_junction : String → (List Bool → Bool) → Document P → Evaluated
    unfolding eval_all as_bools traces_of
    eval_junction op join (array (element x xs)) = ok_then (eval_all (element x xs)) (λ children.
        ok_then (as_bools children) (λ bs. value (
          boolean (join bs),
          object (
              entry "op" (string op) (
                entry "args" (array (traces_of children))
                  (entry "result" (boolean (join bs)) no_entry))),
        )))
    eval_junction op join _ = error invalid_condition

    unfoldable pub eval_not : String → Document P → Evaluated
    eval_not op arg = ok_then (rec arg) (λ p. ok_then (as_bool p.0) (λ b. value (
      boolean (not b),
      object (entry "op" (string op) (entry "arg" p.1 (entry "result" (boolean (not b)) no_entry))),
    )))

    unfoldable pub eval_compare : String → Document P → Document P → Evaluated
    eval_compare op left right = ok_then (rec left) (λ l. ok_then (rec right) (λ r.
        ok_then (compare_documents op l.0 r.0) (λ b. value (
          boolean b,
          object (
              entry "op" (string op)
                (entry "left" l.1 (entry "right" r.1 (entry "result" (boolean b) no_entry)))),
        ))))

    unfoldable pub eval_operator : Operator → String → Entries P → Evaluated
    unfolding eval_exists eval_junction eval_not eval_compare text_at
    eval_operator exists_ op d = eval_exists op (text_at "var" d)
    eval_operator conjunction op d = eval_junction op all_true (get "args" d)
    eval_operator disjunction op d = eval_junction op any_true (get "args" d)
    eval_operator negation op d = eval_not op (get "arg" d)
    eval_operator comparison op d = eval_compare op (get "left" d) (get "right" d)
    eval_operator unsupported op d = error invalid_operator

    unfoldable pub eval_variable : String → Evaluated
    eval_variable path =
        ok_then (resolve path context)
          (λ v. value (v, object (entry "var" (string path) (entry "value" v no_entry))))

    -- `_eval`
    unfoldable pub eval_node : Document P → Evaluated
    unfolding eval_operator eval_variable
    eval_node (object d) =
        if has "var" d && not (truthy (get "op" d))
        then eval_variable (text_at "var" d)
        else eval_operator (operator_of (text_at "op" d)) (text_at "op" d) d
    eval_node node = value (node, object (entry "literal" node no_entry))

  unfoldable pub evaluate : ℕ → Document P → Document P → Evaluated
  unfolding eval_node
  evaluate zero context node = error no_fuel
  evaluate (suc fuel) context node = eval_node context (evaluate fuel context) node

  unfoldable mutual
    pub depth : Document P → ℕ
    depth (array xs) = suc (depth_elements xs)
    depth (object d) = suc (depth_entries d)
    depth _ = 0

    pub depth_elements : Elements P → ℕ
    depth_elements no_more = 0
    depth_elements (element x xs) = max (depth x) (depth_elements xs)

    pub depth_entries : Entries P → ℕ
    depth_entries no_entry = 0
    depth_entries (entry k v rest) = max (depth v) (depth_entries rest)

  -- `evaluate_condition`, with enough fuel for the depth of the condition.
  unfoldable pub evaluate_condition : Entries P → Document P → Result (Bool × Document P)
  unfolding evaluate depth
  evaluate_condition no_entry context =
      value (true, object (entry "op" (string "always") (entry "result" (boolean true) no_entry)))
  evaluate_condition (entry k v rest) context =
      ok_then (evaluate (suc (depth (object (entry k v rest)))) context (object (entry k v rest)))
        (λ p. ok_then (as_bool p.0) (λ b. value (b, p.1)))
