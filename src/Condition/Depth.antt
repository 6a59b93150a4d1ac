-- ===== src/Condition/Depth.antt =====
-- The evaluation of conditions in rule_runtime.py ends: a condition needs no more fuel than its depth.
use zediot_hub_connector.Common.{
  Bool, Bool-cases, List, String, [], arith, inl, inr, suc, zero, ℕ, ◌<◌, ◌=ₛ◌, ◌∷◌, ◌≢◌, ◌≤◌,
}
use zediot_hub_connector.Condition.{
  Document, Elements, Entries, Evaluated, Numbers, Operator, Result, absent, all_true, any_true,
  array, as_bool, as_bools, boolean, compare_documents, comparison, conjunction, contains, depth,
  depth_elements, depth_entries, disjunction, element, entry, error, eval_all, eval_compare,
  eval_exists, eval_junction, eval_node, eval_not, eval_operator, eval_variable, evaluate,
  evaluate_condition, exists_, exists_answer, get, negation, no_entry, no_fuel, no_more, number,
  object, ok_then, operator_of, ordered, resolve, split, string, text_at, unsupported, value, walk,
}

abbrev Ends : {A : Type 0} → Result A → Type 0
Ends r = r ≢ error no_fuel

value-Ends : {A : Type 0} (a : A) → Ends (value a)
value-Ends a e = cc

ok_then-Ends :
    {A B : Type 0} (r : Result A) (f : A → Result B)
    → Ends r
    → ((a : A) → Ends (f a))
    → Ends (ok_then r f)
ok_then-Ends (value a) f h k = k a
ok_then-Ends (error x) f h k = λ e. h (cc)

module _ {P : Numbers} where
  walk-Ends : (parts : List String) (d : Document P) → Ends (walk parts d)
  unfolding walk
  walk-Ends [] d = value-Ends d
  walk-Ends (part ∷ parts) (object d) = ground (arith, walk-Ends parts (get part d))
  walk-Ends (part ∷ parts) absent = λ e. cc
  walk-Ends (part ∷ parts) (boolean b) = λ e. cc
  walk-Ends (part ∷ parts) (number n) = λ e. cc
  walk-Ends (part ∷ parts) (string s) = λ e. cc
  walk-Ends (part ∷ parts) (array xs) = λ e. cc

  resolve-Ends : (path : String) (context : Document P) → Ends (resolve path context)
  unfolding resolve
  resolve-Ends path context = ground (arith, walk-Ends (split path) context)

  as_bool-Ends : (str : Document P → String) (d : Document P) → Ends (as_bool str d)
  as_bool-Ends str absent = λ e. cc
  as_bool-Ends str (boolean b) = value-Ends b
  as_bool-Ends str (number n) = λ e. cc
  as_bool-Ends str (string s) = λ e. cc
  as_bool-Ends str (array xs) = λ e. cc
  as_bool-Ends str (object d) = λ e. cc

  compare-Ends : (op : String) (left right : Document P) → Ends (compare_documents op left right)
  unfolding compare_documents contains ordered
  compare-Ends op left right = ground arith

  get-depth :
      (str : Document P → String) (key : String) (d : Entries P)
      → depth str (get key d) ≤ depth_entries str d
  unfolding get depth depth_entries
  get-depth str key no_entry = omega arith
  get-depth str key (entry k v rest) = elim (Bool-cases (k =ₛ key)) [
    | inl found ↦ rw found (omega arith)
    | inr other ↦ rw other (omega (arith, get-depth str key rest))
  ]

  module _ (str : Document P → String) where
    as_bools-Ends : (children : List (Document P × Document P)) → Ends (as_bools str children)
    unfolding as_bools
    as_bools-Ends [] = value-Ends []
    as_bools-Ends ((v, t) ∷ children) =
        ok_then-Ends (as_bool str v) _ (as_bool-Ends str v) (λ b.
          ok_then-Ends (as_bools str children) _ (as_bools-Ends children) (λ bs. value-Ends _))

    module _ (context : Document P) (rec : Document P → Evaluated str) (n : ℕ)
        (h : (d : Document P) → depth str d < n → Ends (rec d)) where
      eval_all-Ends :
          (xs : Elements P) → depth_elements str xs < n → Ends (eval_all str context rec xs)
      unfolding eval_all depth_elements
      eval_all-Ends no_more lt = value-Ends []
      eval_all-Ends (element x xs) lt = ok_then-Ends (rec x) _ (h x (omega arith)) (λ v.
          ok_then-Ends (eval_all str context rec xs) _ (eval_all-Ends xs (omega arith))
            (λ vs. value-Ends _))

      eval_exists-Ends : (op path : String) → Ends (eval_exists str context rec op path)
      unfolding eval_exists exists_answer
      eval_exists-Ends op path = ground (arith, resolve-Ends path context)

      eval_junction-Ends :
          (op : String) (join : List Bool → Bool) (d : Document P)
          → depth str d < n
          → Ends (eval_junction str context rec op join d)
      unfolding eval_junction depth
      eval_junction-Ends op join (array (element x xs)) lt =
          ok_then-Ends (eval_all str context rec (element x xs)) _
            (eval_all-Ends (element x xs) (omega arith))
            (λ children.
              ok_then-Ends (as_bools str children) _ (as_bools-Ends children) (λ bs. value-Ends _))
      eval_junction-Ends op join (array no_more) lt = λ e. cc
      eval_junction-Ends op join absent lt = λ e. cc
      eval_junction-Ends op join (boolean b) lt = λ e. cc
      eval_junction-Ends op join (number m) lt = λ e. cc
      eval_junction-Ends op join (string s) lt = λ e. cc
      eval_junction-Ends op join (object d) lt = λ e. cc

      eval_not-Ends :
          (op : String) (d : Document P) → depth str d < n → Ends (eval_not str context rec op d)
      unfolding eval_not
      eval_not-Ends op d lt =
          ok_then-Ends (rec d) _ (h d lt)
            (λ p. ok_then-Ends (as_bool str p.0) _ (as_bool-Ends str p.0) (λ b. value-Ends _))

      eval_compare-Ends :
          (op : String) (left right : Document P)
          → depth str left < n
          → depth str right < n
          → Ends (eval_compare str context rec op left right)
      unfolding eval_compare
      eval_compare-Ends op left right l r = ok_then-Ends (rec left) _ (h left l) (λ p.
          ok_then-Ends (rec right) _ (h right r) (λ q.
            ok_then-Ends (compare_documents op p.0 q.0) _ (compare-Ends op p.0 q.0)
              (λ b. value-Ends _)))

      eval_operator-Ends :
          (o : Operator) (op : String) (d : Entries P)
          → depth_entries str d < n
          → Ends (eval_operator str context rec o op d)
      unfolding eval_operator
      eval_operator-Ends exists_ op d lt = eval_exists-Ends op _
      eval_operator-Ends conjunction op d lt =
          eval_junction-Ends op all_true (get "args" d) (omega (arith, get-depth str "args" d))
      eval_operator-Ends disjunction op d lt =
          eval_junction-Ends op any_true (get "args" d) (omega (arith, get-depth str "args" d))
      eval_operator-Ends negation op d lt =
          eval_not-Ends op (get "arg" d) (omega (arith, get-depth str "arg" d))
      eval_operator-Ends comparison op d lt =
          eval_compare-Ends op (get "left" d) (get "right" d)
            (omega (arith, get-depth str "left" d)) (omega (arith, get-depth str "right" d))
      eval_operator-Ends unsupported op d lt = λ e. cc

      eval_variable-Ends : (path : String) → Ends (eval_variable str context rec path)
      unfolding eval_variable
      eval_variable-Ends path =
          ok_then-Ends (resolve path context) _ (resolve-Ends path context) (λ v. value-Ends _)

      eval_node-Ends : (d : Document P) → depth str d ≤ n → Ends (eval_node str context rec d)
      unfolding eval_node depth
      eval_node-Ends (object d) le = ground (
        arith,
        eval_variable-Ends (text_at str "var" d),
        eval_operator-Ends (operator_of (text_at str "op" d)) (text_at str "op" d) d (omega arith),
      )
      eval_node-Ends absent le = value-Ends _
      eval_node-Ends (boolean b) le = value-Ends _
      eval_node-Ends (number m) le = value-Ends _
      eval_node-Ends (string s) le = value-Ends _
      eval_node-Ends (array xs) le = value-Ends _

    evaluate-Ends :
        (fuel : ℕ) (context d : Document P)
        → depth str d < fuel
        → Ends (evaluate str fuel context d)
    unfolding evaluate
    evaluate-Ends zero context d lt = absurd (omega arith)
    evaluate-Ends (suc fuel) context d lt =
        eval_node-Ends context (evaluate str fuel context) fuel
          (λ x below. evaluate-Ends fuel context x below) d (omega arith)

    -- On every condition and every context `evaluate_condition` gives a truth value with its trace
    -- or one of the errors of the code: the bound by the depth of the condition is never met.
    pub evaluate_condition-Ends :
        (condition : Entries P) (context : Document P)
        → evaluate_condition str condition context ≢ error no_fuel
    unfolding evaluate_condition
    evaluate_condition-Ends no_entry context = value-Ends _
    evaluate_condition-Ends (entry k v rest) context =
        ok_then-Ends
          (evaluate str (suc (depth str (object (entry k v rest)))) context
            (object (entry k v rest)))
          _
          (evaluate-Ends (suc (depth str (object (entry k v rest)))) context
            (object (entry k v rest)) (omega arith))
          (λ p. ok_then-Ends (as_bool str p.0) _ (as_bool-Ends str p.0) (λ b. value-Ends (b, p.1)))
