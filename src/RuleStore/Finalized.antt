-- ===== src/RuleStore/Finalized.antt =====
-- `finalize_execution` of rule_store.py behind a reservation: the row of the key stays.
use mathlib.Core.Option.{some_inj}
use zediot_hub_connector.Common.{
  Bool, Bool-cases, List, String, [], ap, false, inl, inr, length, length-map, map, refl, some,
  subst, sym, true, ℕ, ◌*◌, ◌-◌, ◌=ₛ◌, ◌∙◌, ◌∷◌, ◌≡◌, ◌≤◌,
}
use zediot_hub_connector.Queue.{Json}
use zediot_hub_connector.RuleStore.{
  ExecutionRow, RuleStore, finalize_execution, finalize_row, find_execution, prune, retained,
  where_,
}
use zediot_hub_connector.RuleStore.Reservation.{prune_room}

module _ {T : Type 0} where
  pub find-kept :
      (key : String) (test : ExecutionRow T → Bool) (rows : List (ExecutionRow T))
      (r : ExecutionRow T)
      → find_execution key rows ≡ some r
      → test r ≡ true
      → find_execution key (where_ test rows) ≡ some r
  unfolding find_execution where_
  find-kept key test [] r h t = absurd cc
  find-kept key test (x ∷ rows) r h t = elim (Bool-cases (x.idempotency_key =ₛ key)) [
    | inl y ↦
        let found : find_execution key (x ∷ rows) ≡ some x = rw (find_execution, y) refl in
        let same : x ≡ r = cc in
        let kept : test x ≡ true = ap test same ∙ t in rw (where_, kept, y) (ap some same)
    | inr n ↦
        let further : find_execution key rows ≡ some r = sym (rw (find_execution, n) refl) ∙ h in
        elim (Bool-cases (test x)) [
          | inl y ↦ rw (where_, y, n) (find-kept key test rows r further t)
          | inr m ↦ rw (where_, m) (find-kept key test rows r further t)
        ]
  ]

  pub find-mapped :
      (key : String) (f : ExecutionRow T → ExecutionRow T) (rows : List (ExecutionRow T))
      (r : ExecutionRow T)
      → ((x : ExecutionRow T) → (f x).idempotency_key ≡ x.idempotency_key)
      → find_execution key rows ≡ some r
      → find_execution key (map f rows) ≡ some (f r)
  unfolding find_execution
  find-mapped key f [] r keeps h = absurd cc
  find-mapped key f (x ∷ rows) r keeps h = elim (Bool-cases (x.idempotency_key =ₛ key)) [
    | inl y ↦
        let found : find_execution key (x ∷ rows) ≡ some x = rw (find_execution, y) refl in
        let same : x ≡ r = cc in
        let test : ((f x).idempotency_key =ₛ key) ≡ true = ap (λ k. k =ₛ key) (keeps x) ∙ y in
        rw (find_execution, test) (ap (λ z. some (f z)) same)
    | inr n ↦
        let further : find_execution key rows ≡ some r = sym (rw (find_execution, n) refl) ∙ h in
        let test : ((f x).idempotency_key =ₛ key) ≡ false = ap (λ k. k =ₛ key) (keeps x) ∙ n in
        rw (find_execution, test) (find-mapped key f rows r keeps further)
  ]

module _ (J : Json) where
  finalize_row-key :
      (key : String) (evidence : J.Value) (now : ℕ) (x : ExecutionRow J.Encoded)
      → (finalize_row J key evidence now x).idempotency_key ≡ x.idempotency_key
  unfolding finalize_row
  finalize_row-key key evidence now x = elim (Bool-cases (x.idempotency_key =ₛ key)) [
    | inl y ↦ rw (finalize_row, y) refl
    | inr n ↦ rw (finalize_row, n) refl
  ]

  find-key :
      (key : String) (rows : List (ExecutionRow J.Encoded)) (r : ExecutionRow J.Encoded)
      → find_execution key rows ≡ some r
      → (r.idempotency_key =ₛ key) ≡ true
  unfolding find_execution
  find-key key [] r h = absurd cc
  find-key key (x ∷ rows) r h = elim (Bool-cases (x.idempotency_key =ₛ key)) [
    | inl y ↦
        let found : find_execution key (x ∷ rows) ≡ some x = rw (find_execution, y) refl in
        let same : x ≡ r = cc in subst (λ z. (z.idempotency_key =ₛ key) ≡ true) same y
    | inr n ↦ find-key key rows r (sym (rw (find_execution, n) refl) ∙ h)
  ]

  finalized-retained :
      (cutoff : ℕ) (key : String) (evidence : J.Value) (now : ℕ) (r : ExecutionRow J.Encoded)
      → (r.idempotency_key =ₛ key) ≡ true
      → retained cutoff (finalize_row J key evidence now r) ≡ true
  unfolding retained finalize_row
  finalized-retained cutoff key evidence now r h = rw (finalize_row, h) refl

  -- A row that is within the limit of the table is still there after its evidence is final.
  pub find-finalized :
      (s s' : RuleStore J.Encoded) (now pruned_at : ℕ) (key : String) (evidence : J.Value)
      (r : ExecutionRow J.Encoded)
      → length s.executions ≤ s.evidence_max_rows
      → find_execution key s.executions ≡ some r
      → finalize_execution J s now pruned_at key evidence ≡ some s'
      → find_execution key s'.executions ≡ some (finalize_row J key evidence now r)
  unfolding finalize_execution
  find-finalized s s' now pruned_at key evidence r room found e =
      let f = finalize_row J key evidence now in
      let mapped : RuleStore J.Encoded = record s { executions = map f s.executions } in
      let done : finalize_execution J s now pruned_at key evidence ≡ some (prune mapped pruned_at) =
        rw (finalize_execution, found) refl in
      let same : prune mapped pruned_at ≡ s' = some_inj.0 (sym done ∙ e) in
      let cutoff = pruned_at - s.evidence_retention_seconds * 1_000_000 in
      let kept : find_execution key (prune mapped pruned_at).executions ≡ some (f r) =
        rw (prune_room mapped pruned_at (rw (length-map f s.executions) room)) (
          find-kept key (retained cutoff) (map f s.executions) (f r)
            (find-mapped key f s.executions r (finalize_row-key key evidence now) found)
            (finalized-retained cutoff key evidence now r (find-key key s.executions r found))) in
      subst (λ z. find_execution key z.executions ≡ some (f r)) same kept
