-- ===== src/RuleStore/Reservation.antt =====
-- `reserve_execution` of rule_store.py as a lock: the key of an execution is given out once.
use mathlib.Core.Option.{some_inj}
use zediot_hub_connector.Common.{
  Bool, Bool-cases, List, String, [], arith, eq_iff, false, inl, inr, length, length-append, none,
  refl, some, subst, sym, true, ℕ, ◌*◌, ◌++◌, ◌-◌, ◌<◌, ◌∙◌, ◌∷◌, ◌≡◌, ◌≤◌,
}
use zediot_hub_connector.Queue.{IsJson, Json, new}
use zediot_hub_connector.RuleStore.{
  ExecutionRow, Reserved, RuleStore, earlier, execution_row, find_execution, has_execution, held,
  prune, reserve_execution, reserve_new, reserved, retained, where_,
}
use zediot_hub_connector.RuleStore.Bounds.{trim_within}

module _ {A : Type 0} where
  where_-append :
      (test : A → Bool) (xs ys : List A) → where_ test (xs ++ ys) ≡ where_ test xs ++ where_ test ys
  unfolding where_
  where_-append test [] ys = refl
  where_-append test (x ∷ xs) ys = ground (arith, where_-append test xs ys)

  length-where_ : (test : A → Bool) (xs : List A) → length (where_ test xs) ≤ length xs
  unfolding where_
  length-where_ test [] = omega arith
  length-where_ test (x ∷ xs) = ground (arith, length-where_ test xs)

module _ {T : Type 0} where
  -- A key that is not found is not found among fewer rows.
  find-where_ :
      (key : String) (test : ExecutionRow T → Bool) (rows : List (ExecutionRow T))
      → find_execution key rows ≡ none
      → find_execution key (where_ test rows) ≡ none
  unfolding find_execution where_
  find-where_ key test [] h = refl
  find-where_ key test (r ∷ rows) h = ground (arith, find-where_ key test rows)

  find-append :
      (key : String) (rows : List (ExecutionRow T)) (new : ExecutionRow T)
      → find_execution key rows ≡ none
      → new.idempotency_key ≡ key
      → find_execution key (rows ++ new ∷ []) ≡ some new
  unfolding find_execution
  find-append key [] new h e = ground (arith, eq_iff new.idempotency_key key)
  find-append key (r ∷ rows) new h e = ground (arith, find-append key rows new)

  -- With room in the table `_prune` takes only what its retention lets go.
  pub prune_room :
      (s : RuleStore T) (now : ℕ)
      → length s.executions ≤ s.evidence_max_rows
      → (prune s now).executions
        ≡ where_ (retained (now - s.evidence_retention_seconds * 1_000_000)) s.executions
  unfolding prune
  prune_room s now h = trim_within s.evidence_max_rows _ (
      omega (
        arith,
        length-where_ (retained (now - s.evidence_retention_seconds * 1_000_000)) s.executions,
      ))

module _ (J : Json) where
  where_-held :
      (cutoff : ℕ) (key id : String) (evidence : J.Value) (now : ℕ)
      → let row = execution_row J key id evidence now in
        where_ (retained cutoff) (row ∷ []) ≡ row ∷ []
  unfolding where_ retained execution_row
  where_-held cutoff key id evidence now = refl

  -- The new row outlives the pruning that follows its insertion.
  pub find-reserved :
      (s : RuleStore J.Encoded) (pruned_at : ℕ) (key id : String) (evidence : J.Value) (now : ℕ)
      → find_execution key s.executions ≡ none
      → length s.executions < s.evidence_max_rows
      → let row = execution_row J key id evidence now in
        find_execution key
          (prune (record s { executions = s.executions ++ row ∷ [] }) pruned_at).executions
        ≡ some row
  find-reserved s pruned_at key id evidence now fresh room =
      let row = execution_row J key id evidence now in
      let cutoff = pruned_at - s.evidence_retention_seconds * 1_000_000 in
      let keeps : ExecutionRow J.Encoded → Bool = retained cutoff in
      rw
        (
          prune_room (record s { executions = s.executions ++ row ∷ [] }) pruned_at
              (omega (arith, length-append s.executions (row ∷ []))),
          where_-append keeps s.executions (row ∷ []),
          where_-held cutoff key id evidence now,
        )
        (find-append key (where_ keeps s.executions) row (find-where_ key keeps s.executions fresh)
          (unfold execution_row in refl))

  module _ (law : IsJson J) (s : RuleStore J.Encoded) (now pruned_at : ℕ) (key id : String)
      (evidence : J.Value) where
    pub after_reserving : RuleStore J.Encoded
    after_reserving =
        prune (record s { executions = s.executions ++ execution_row J key id evidence now ∷ [] })
          pruned_at

    pub reserve_taken :
        find_execution key s.executions ≡ none
        → has_execution id s.executions ≡ true
        → reserve_execution J s now pruned_at key id evidence ≡ none
    unfolding reserve_execution reserve_new
    reserve_taken fresh taken = rw (reserve_execution, fresh, reserve_new, taken) refl

    pub reserve_free :
        find_execution key s.executions ≡ none
        → has_execution id s.executions ≡ false
        → reserve_execution J s now pruned_at key id evidence
          ≡ some (after_reserving, reserved evidence)
    unfolding reserve_execution reserve_new after_reserving
    reserve_free fresh free = rw (reserve_execution, fresh, reserve_new, free) refl

    reserve_after :
        (now' pruned_at' : ℕ) (id' : String) (evidence' : J.Value)
        → find_execution key s.executions ≡ none
        → length s.executions < s.evidence_max_rows
        → reserve_execution J after_reserving now' pruned_at' key id' evidence'
          ≡ some (after_reserving, earlier evidence held)
    unfolding reserve_execution after_reserving execution_row
    reserve_after now' pruned_at' id' evidence' fresh room =
        rw (reserve_execution, find-reserved s pruned_at key id evidence now fresh room)
          (rw (law.loads-dumps evidence) refl)

    -- If a key that is new to a store with room is reserved, then every further reservation of it,
    -- under whatever execution id and evidence and at whatever time, returns the evidence of the
    -- first with `held` and `False`, and changes nothing, if `json` decodes what it encodes.
    pub reserve_again :
        {s' : RuleStore J.Encoded} {r : Reserved J.Value} (now' pruned_at' : ℕ) (id' : String)
        (evidence' : J.Value)
        → find_execution key s.executions ≡ none
        → length s.executions < s.evidence_max_rows
        → reserve_execution J s now pruned_at key id evidence ≡ some (s', r)
        → reserve_execution J s' now' pruned_at' key id' evidence'
          ≡ some (s', earlier evidence held)
    reserve_again {s'} {r} now' pruned_at' id' evidence' fresh room e =
        elim (Bool-cases (has_execution id s.executions)) [
          | inl taken ↦ let refused = reserve_taken fresh taken in cc
          | inr free ↦
              let same : (after_reserving, reserved evidence) ≡ (s', r) =
                some_inj.0 (sym (reserve_free fresh free) ∙ e) in
              subst
                (λ p.
                  reserve_execution J p.0 now' pruned_at' key id' evidence'
                  ≡ some (p.0, earlier evidence held))
                same (reserve_after now' pruned_at' id' evidence' fresh room)
        ]
