-- ===== src/RulePackage/Reviewed.antt =====
-- Lists of checks of rule_package.py, and what the checks on the actions of a package say.
use zediot_hub_connector.Common.{
  All, Bool-cases, List, String, [], ap, arith, eq_iff, false, inl, inr, none, refl, starts_with,
  true, ◌++◌, ◌||◌, ◌∷◌, ◌≡◌, ◌⊎◌,
}
use zediot_hub_connector.Condition.Documents.{
  Document, Elements, Entries, Numbers, absent, array, boolean, element, get, no_more, number,
  object, string, truthy,
}
use zediot_hub_connector.RulePackage.{Check, Tools, entries_of, first_error, is_text, text_of}
use zediot_hub_connector.RulePackage.Plan.{action_checks, action_safe, action_valid}
use zediot_hub_connector.RulePackage.Safe.{both}

abbrev pub Passes : List Check → Type 0
Passes checks = All (λ c. c.0 ≡ true) checks

pub first_error-Passes : (checks : List Check) → first_error checks ≡ none → Passes checks
unfolding first_error
first_error-Passes [] e = tt
first_error-Passes ((true, error) ∷ checks) e = (refl, first_error-Passes checks e)
first_error-Passes ((false, error) ∷ checks) e = absurd cc

pub Passes-first_error : (checks : List Check) → Passes checks → first_error checks ≡ none
unfolding first_error
Passes-first_error [] h = refl
Passes-first_error ((passes, error) ∷ checks) h = rw h.0 (Passes-first_error checks h.1)

pub Passes-split : (xs ys : List Check) → Passes (xs ++ ys) → Passes xs × Passes ys
Passes-split [] ys h = (tt, h)
Passes-split (x ∷ xs) ys h = let (a, b) = Passes-split xs ys h.1 in ((h.0, a), b)

module _ {P : Numbers} (T : Tools P) where
  -- Each action is a call of a light, to turn it on or off, that is reviewed and not destructive.
  pub record IsReviewed (a : Entries P) : Type 0 where
    of_light : get "provider_domain" a ≡ string "light"
    turns :
        (get "provider_service" a ≡ string "turn_on")
        ⊎ (get "provider_service" a ≡ string "turn_off")
    names_light : starts_with (text_of T (get "provider_entity_id" a)) "light." ≡ true
    was_reviewed : truthy (get "reviewed" (entries_of (get "command_safety_evidence" a))) ≡ true
    not_destructive :
        get "risk_class" (entries_of (get "command_safety_evidence" a)) ≡ string "non_destructive"

  abbrev pub AreReviewed : Elements P → Type 0
  AreReviewed no_more = Unit
  AreReviewed (element v rest) = IsReviewed (entries_of v) × AreReviewed rest

  pub is_text-string : (v : Document P) (t : String) → is_text v t ≡ true → v ≡ string t
  unfolding is_text
  is_text-string (string s) t h = ap string ((eq_iff s t).0 h)
  is_text-string absent t h = absurd cc
  is_text-string (boolean b) t h = absurd cc
  is_text-string (number n) t h = absurd cc
  is_text-string (array xs) t h = absurd cc
  is_text-string (object d) t h = absurd cc

  either_text :
      (v : Document P) (s t : String)
      → (is_text v s || is_text v t) ≡ true
      → (v ≡ string s) ⊎ (v ≡ string t)
  either_text v s t h = elim (Bool-cases (is_text v s)) [
    | inl y ↦ inl (is_text-string v s y)
    | inr n ↦ inr (is_text-string v t (ground arith))
  ]

  action-IsReviewed :
      (a : Entries P) → action_valid T a ≡ true → action_safe T a ≡ true → IsReviewed a
  unfolding action_valid action_safe
  action-IsReviewed a valid safe =
      let (_, h) = both _ _ valid in
      let (domain, h') = both _ _ h in
      let (service, h'') = both _ _ h' in
      let (entity, _) = both _ _ h'' in
      let (reviewed, risk) = both _ _ safe in
      record {
        of_light = is_text-string _ "light" domain;
        turns = either_text _ "turn_on" "turn_off" service;
        names_light = entity;
        was_reviewed = reviewed;
        not_destructive = is_text-string _ "non_destructive" risk;
      }

  pub action_checks-AreReviewed : (xs : Elements P) → Passes (action_checks T xs) → AreReviewed xs
  unfolding action_checks
  action_checks-AreReviewed no_more h = tt
  action_checks-AreReviewed (element v rest) (a, (b, (c, (d, e)))) =
      (action-IsReviewed (entries_of v) b d, action_checks-AreReviewed rest e)
