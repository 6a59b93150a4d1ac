-- ===== src/Condition/Isolation.antt =====
-- A condition of rule_runtime.py sees of its context only what `_resolve` lets through.
use zediot_hub_connector.Common.{
  Bool, Bool-cases, List, String, arith, false, inl, inr, refl, subst, suc, true, zero, ℕ, ◌=ₛ◌,
  ◌≡◌,
}
use zediot_hub_connector.Condition.{
  Document, Elements, Entries, Evaluated, Numbers, Operator, absent, all_true, any_denied, any_true,
  array, boolean, comparison, conjunction, depth, disjunction, element, entry, eval_all,
  eval_compare, eval_exists, eval_junction, eval_node, eval_not, eval_operator, eval_variable,
  evaluate, evaluate_condition, exists_, get, negation, no_entry, no_more, number, object,
  operator_of, resolve, split, starts_allowed, string, text_at, unsupported, walk,
}

module _ {P : Numbers} where
  -- A dictionary is a value or stands within it.
  mutual
    pub data Inside (e : Entries P) : Document P → Type 0 where
      itself : {v : Document P} → v ≡ object e → Inside e v
      in_array : {xs : Elements P} → InsideElements e xs → Inside e (array xs)
      in_object : {d : Entries P} → InsideEntries e d → Inside e (object d)

    pub data InsideElements (e : Entries P) : Elements P → Type 0 where
      first_element :
          {v : Document P} {xs : Elements P} → Inside e v → InsideElements e (element v xs)
      later_element :
          {v : Document P} {xs : Elements P} → InsideElements e xs → InsideElements e (element v xs)

    pub data InsideEntries (e : Entries P) : Entries P → Type 0 where
      below :
          {k : String} {v : Document P} {d : Entries P} → Inside e v → InsideEntries e (entry k v d)
      beside :
          {k : String} {v : Document P} {d : Entries P}
          → InsideEntries e d
          → InsideEntries e (entry k v d)

  -- Nothing is within an absent value.
  absent-empty : (e : Entries P) (v : Document P) → v ≡ absent → Inside e v → ⊥
  absent-empty e v same (itself other) = cc
  absent-empty e (array xs) same (in_array within) = cc
  absent-empty e (object d) same (in_object within) = cc

  Inside-get :
      (e : Entries P) (key : String) (d : Entries P) → Inside e (get key d) → InsideEntries e d
  unfolding get
  Inside-get e key no_entry within = absurd (absent-empty e absent refl within)
  Inside-get e key (entry k v d) within = elim (Bool-cases (k =ₛ key)) [
    | inl y ↦ below (subst (Inside e) (rw (get, y) refl) within)
    | inr n ↦ beside (Inside-get e key d (subst (Inside e) (rw (get, n) refl) within))
  ]

  later_in :
      (e : Entries P) (x : Document P) (xs : Elements P)
      → Inside e (array xs)
      → Inside e (array (element x xs))
  later_in e x xs (itself same) = absurd cc
  later_in e x xs (in_array within) = in_array (later_element within)

module _ {P : Numbers} (str : Document P → String) where
  -- The contexts agree on the path of each dictionary in the condition, if the path has an allowed
  -- root and no denied segment.
  abbrev pub Agree : Document P → Document P → Document P → Type 0
  Agree c c' condition =
      (e : Entries P)
      → Inside e condition
      → let path = split (text_at str "var" e) in
        starts_allowed path ≡ true → any_denied path ≡ false → walk path c ≡ walk path c'

  module _ (c c' : Document P) where
    Agree-get : (key : String) (d : Entries P) → Agree c c' (object d) → Agree c c' (get key d)
    Agree-get key d h e within = h e (in_object (Inside-get e key d within))

    resolve_same :
        (path : String)
        → (starts_allowed (split path) ≡ true
            → any_denied (split path) ≡ false
            → walk (split path) c ≡ walk (split path) c')
        → resolve path c ≡ resolve path c'
    unfolding resolve
    resolve_same path agree = elim (Bool-cases (starts_allowed (split path))) [
      | inr no_root ↦ rw no_root (ground arith)
      | inl root ↦ elim (Bool-cases (any_denied (split path))) [
        | inl denied ↦ rw (root, denied) (ground arith)
        | inr open_ ↦ rw (root, open_, agree root open_) refl
      ]
    ]

    -- Two evaluations of the children agree where the contexts do.
    module _ (rec rec' : Document P → Evaluated str)
        (same : (x : Document P) → Agree c c' x → rec x ≡ rec' x) where
      eval_all_same :
          (xs : Elements P)
          → Agree c c' (array xs)
          → eval_all str c rec xs ≡ eval_all str c' rec' xs
      unfolding eval_all
      eval_all_same no_more h = refl
      eval_all_same (element x xs) h =
          let first = same x (λ e within. h e (in_array (first_element within))) in
          let rest = eval_all_same xs (λ e within. h e (later_in e x xs within)) in
          rw (first, rest) refl

      eval_junction_same :
          (op : String) (join : List Bool → Bool) (d : Document P)
          → Agree c c' d
          → eval_junction str c rec op join d ≡ eval_junction str c' rec' op join d
      unfolding eval_junction
      eval_junction_same op join (array (element x xs)) h = rw (eval_all_same (element x xs) h) refl
      eval_junction_same op join (array no_more) h = refl
      eval_junction_same op join absent h = refl
      eval_junction_same op join (boolean b) h = refl
      eval_junction_same op join (number m) h = refl
      eval_junction_same op join (string s) h = refl
      eval_junction_same op join (object d) h = refl

      eval_exists_same :
          (op path : String)
          → resolve path c ≡ resolve path c'
          → eval_exists str c rec op path ≡ eval_exists str c' rec' op path
      unfolding eval_exists
      eval_exists_same op path e = rw (eval_exists, e) refl

      eval_variable_same :
          (path : String)
          → resolve path c ≡ resolve path c'
          → eval_variable str c rec path ≡ eval_variable str c' rec' path
      unfolding eval_variable
      eval_variable_same path e = rw e refl

      resolve_var :
          (d : Entries P)
          → Agree c c' (object d)
          → resolve (text_at str "var" d) c ≡ resolve (text_at str "var" d) c'
      resolve_var d h = resolve_same (text_at str "var" d) (h d (itself refl))

      eval_operator_same :
          (o : Operator) (op : String) (d : Entries P)
          → Agree c c' (object d)
          → eval_operator str c rec o op d ≡ eval_operator str c' rec' o op d
      unfolding eval_operator eval_not eval_compare
      eval_operator_same exists_ op d h =
          eval_exists_same op (text_at str "var" d) (resolve_var d h)
      eval_operator_same conjunction op d h =
          eval_junction_same op all_true (get "args" d) (Agree-get "args" d h)
      eval_operator_same disjunction op d h =
          eval_junction_same op any_true (get "args" d) (Agree-get "args" d h)
      eval_operator_same negation op d h = rw (same (get "arg" d) (Agree-get "arg" d h)) refl
      eval_operator_same comparison op d h =
          rw
            (
              same (get "left" d) (Agree-get "left" d h),
              same (get "right" d) (Agree-get "right" d h),
            )
            refl
      eval_operator_same unsupported op d h = refl

      eval_node_same :
          (d : Document P) → Agree c c' d → eval_node str c rec d ≡ eval_node str c' rec' d
      unfolding eval_node
      eval_node_same (object d) h =
          rw
            (
              eval_variable_same (text_at str "var" d) (resolve_var d h),
              eval_operator_same (operator_of (text_at str "op" d)) (text_at str "op" d) d h,
            )
            refl
      eval_node_same absent h = refl
      eval_node_same (boolean b) h = refl
      eval_node_same (number m) h = refl
      eval_node_same (string s) h = refl
      eval_node_same (array xs) h = refl

    evaluate_same :
        (fuel : ℕ) (d : Document P) → Agree c c' d → evaluate str fuel c d ≡ evaluate str fuel c' d
    unfolding evaluate
    evaluate_same zero d h = refl
    evaluate_same (suc fuel) d h =
        eval_node_same (evaluate str fuel c) (evaluate str fuel c') (λ x k. evaluate_same fuel x k)
          d h

    -- If two contexts agree on each path that the condition names, other than those with no allowed
    -- root or with a denied segment, then the condition gives the same on both: the same truth value
    -- with the same trace, or the same error.
    pub evaluate_condition_same :
        (condition : Entries P)
        → Agree c c' (object condition)
        → evaluate_condition str condition c ≡ evaluate_condition str condition c'
    unfolding evaluate_condition
    evaluate_condition_same no_entry h = refl
    evaluate_condition_same (entry k v rest) h =
        rw (evaluate_same (suc (depth str (object (entry k v rest)))) (object (entry k v rest)) h)
          refl
