-- ===== src/Witnesses/Condition.antt =====
-- A condition on the value of an event, whose numbers are natural.
use zediot_hub_connector.Common.{
  String, false, if◌then◌else◌, leb, ltb, refl, subst, true, ℕ, ◌==◌, ◌≡◌, ◌≢◌,
}
use zediot_hub_connector.Condition.{
  Document, Elements, Entries, Numbers, any_denied, array, element, entry, error,
  evaluate_condition, get, has, no_entry, no_fuel, no_more, number, object, split, starts_allowed,
  str_of, string, text_at, to_first, truthy, walk,
}
use zediot_hub_connector.Condition.Depth.{evaluate_condition-Ends}
use zediot_hub_connector.Condition.Isolation.{
  Agree, Inside, InsideElements, InsideEntries, below, beside, evaluate_condition_same,
  first_element, in_array, in_object, itself, later_element,
}

abbrev pub naturals : Numbers
naturals = record {
  N = ℕ;
  same = ◌==◌;
  below = ltb;
  at_most = leb;
  of_bool = λ b. if b then 1 else 0;
  is_zero = λ n. n == 0;
}

abbrev shown : Document naturals → String
shown d = "?"

abbrev event_value : Entries naturals
event_value = entry "var" (string "event.value") no_entry

-- `event.value > 3`
abbrev above_three : Entries naturals
above_three =
    entry "op" (string "gt") (entry "left" (object event_value) (entry "right" (number 3) no_entry))

-- A context with the provider's data beside the event and within it.
abbrev context : ℕ → Document naturals
context n = object (
    entry "event"
      (object (
        entry "value" (number 5)
          (entry "raw" (object (entry "value" (number n) no_entry)) no_entry)))
      (entry "raw" (number n) no_entry))

abbrev raw_there : Entries naturals
raw_there = entry "op" (string "exists") (entry "var" (string "event.raw.value") no_entry)

-- `event.value > 3`, and whether there is an `event.raw.value`.
abbrev above_and_raw : Entries naturals
above_and_raw = entry "op" (string "and") (
    entry "args" (array (element (object above_three) (element (object raw_there) no_more)))
      no_entry)

evaluate_condition-Ends_example : evaluate_condition shown above_three (context 1) ≢ error no_fuel
evaluate_condition-Ends_example = evaluate_condition-Ends shown above_three (context 1)

abbrev Alike : Entries naturals → Type 0
Alike e =
    let path = split (text_at shown "var" e) in
    starts_allowed path ≡ true
    → any_denied path ≡ false
    → walk path (context 1) ≡ walk path (context 2)

and_node : Alike above_and_raw
unfolding split to_first text_at get truthy str_of starts_allowed
and_node root open_ = absurd cc

gt_node : Alike above_three
unfolding split to_first text_at get truthy str_of starts_allowed
gt_node root open_ = absurd cc

value_node : Alike event_value
unfolding split to_first text_at get truthy str_of walk has
value_node root open_ = refl

raw_node : Alike raw_there
unfolding split to_first text_at get truthy str_of any_denied
raw_node root open_ = absurd cc

at_string : (e : Entries naturals) (s : String) → Inside e (string s) → Alike e
at_string e s (itself same) = absurd cc

at_number : (e : Entries naturals) (n : ℕ) → Inside e (number n) → Alike e
at_number e n (itself same) = absurd cc

at_entries :
    (e : Entries naturals) (k : String) (v : Document naturals) (d : Entries naturals)
    → (Inside e v → Alike e)
    → (InsideEntries e d → Alike e)
    → InsideEntries e (entry k v d)
    → Alike e
at_entries e k v d f g (below within) = f within
at_entries e k v d f g (beside within) = g within

at_object :
    (e d : Entries naturals)
    → Alike d
    → (InsideEntries e d → Alike e)
    → Inside e (object d)
    → Alike e
at_object e d here f (itself same) = let equal : d ≡ e = cc in subst Alike equal here
at_object e d here f (in_object within) = f within

at_array :
    (e : Entries naturals) (xs : Elements naturals)
    → (InsideElements e xs → Alike e)
    → Inside e (array xs)
    → Alike e
at_array e xs f (itself same) = absurd cc
at_array e xs f (in_array within) = f within

at_elements :
    (e : Entries naturals) (v : Document naturals) (xs : Elements naturals)
    → (Inside e v → Alike e)
    → (InsideElements e xs → Alike e)
    → InsideElements e (element v xs)
    → Alike e
at_elements e v xs f g (first_element within) = f within
at_elements e v xs f g (later_element within) = g within

at_end : (e : Entries naturals) → InsideEntries e no_entry → Alike e
at_end e within = elim within [ ]

at_last : (e : Entries naturals) → InsideElements e no_more → Alike e
at_last e within = elim within [ ]

named_paths : Agree shown (context 1) (context 2) (object above_and_raw)
named_paths e = at_object e above_and_raw and_node (
    at_entries e _ _ _ (at_string e "and") (
      at_entries e _ _ _
        (at_array e _ (
          at_elements e _ _
            (at_object e above_three gt_node (
              at_entries e _ _ _ (at_string e "gt") (
                at_entries e _ _ _
                  (at_object e event_value value_node
                    (at_entries e _ _ _ (at_string e "event.value") (at_end e)))
                  (at_entries e _ _ _ (at_number e 3) (at_end e)))))
            (at_elements e _ _
              (at_object e raw_there raw_node (
                at_entries e _ _ _ (at_string e "exists")
                  (at_entries e _ _ _ (at_string e "event.raw.value") (at_end e))))
              (at_last e))))
        (at_end e)))

evaluate_condition_same_example :
    evaluate_condition shown above_and_raw (context 1)
    ≡ evaluate_condition shown above_and_raw (context 2)
evaluate_condition_same_example =
    evaluate_condition_same shown (context 1) (context 2) above_and_raw named_paths
