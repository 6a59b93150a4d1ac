-- ===== src/RuleStore/Executions.antt =====
-- The methods of `LocalRuleStore` (rule_store.py) on executions and their evidence. A clock reading
-- is an argument, in microseconds; `pruned_at` is the one for `_prune`.
use zediot_hub_connector.Common.{
  Bool, List, Option, String, [], false, if◌then◌else◌, length, ltb, map, mem_text, none, not, some,
  take, ℕ, ◌&&◌, ◌*◌, ◌++◌, ◌-◌, ◌=ₛ◌, ◌||◌, ◌∷◌,
}
use zediot_hub_connector.Queue.{Json}
use zediot_hub_connector.RuleStore.Table.{
  ExecutionRow, RuleStore, UploadStatus, complete, held, is_complete, is_pending, is_uploaded,
  order_by, pending, processing, uploaded, where_,
}

module _ {T : Type 0} where
  unfoldable pub find_execution : String → List (ExecutionRow T) → Option (ExecutionRow T)
  find_execution key [] = none
  find_execution key (r ∷ rows) =
      if r.idempotency_key =ₛ key then some r else find_execution key rows

  unfoldable pub has_execution : String → List (ExecutionRow T) → Bool
  has_execution id [] = false
  has_execution id (r ∷ rows) = r.execution_id =ₛ id || has_execution id rows

  -- `ORDER BY CASE upload_status WHEN 'uploaded' THEN 0 ELSE 1 END, created_at`
  unfoldable pub goes_before : ExecutionRow T → ExecutionRow T → Bool
  goes_before r r' =
      if is_uploaded r.upload_status
      then not (is_uploaded r'.upload_status) || ltb r.created_at r'.created_at
      else not (is_uploaded r'.upload_status) && ltb r.created_at r'.created_at

  unfoldable pub keys_of : List (ExecutionRow T) → List String
  keys_of = map (λ r. r.idempotency_key)

  unfoldable pub retained : ℕ → ExecutionRow T → Bool
  retained cutoff r = not (is_uploaded r.upload_status && ltb r.updated_at cutoff)

  -- The rows that are over the limit go, uploaded ones first and then the oldest.
  unfoldable pub trim : ℕ → List (ExecutionRow T) → List (ExecutionRow T)
  unfolding where_ order_by keys_of
  trim max_rows rows =
      let doomed = keys_of (take (length rows - max_rows) (order_by goes_before rows)) in
      where_ (λ r. not (mem_text r.idempotency_key doomed)) rows

  -- `_prune`
  unfoldable pub prune : RuleStore T → ℕ → RuleStore T
  unfolding where_ retained trim
  prune s now =
      let cutoff = now - s.evidence_retention_seconds * 1_000_000 in
      record s { executions = trim s.evidence_max_rows (where_ (retained cutoff) s.executions) }

  unfoldable pub upload_row : ℕ → List String → ExecutionRow T → ExecutionRow T
  upload_row now ids r =
      if mem_text r.execution_id ids
      then record r { upload_status = uploaded; updated_at = now }
      else r

  -- `mark_uploaded`
  unfoldable pub mark_uploaded : RuleStore T → ℕ → ℕ → List String → RuleStore T
  unfolding upload_row prune
  mark_uploaded s now pruned_at [] = s
  mark_uploaded s now pruned_at (id ∷ ids) =
      prune (record s { executions = map (upload_row now (id ∷ ids)) s.executions }) pruned_at

-- What `reserve_execution` returns: the evidence of an earlier reservation with its upload status
-- and `False`, or its own and `True`.
pub data Reserved (V : Type 0) : Type 0 where
  earlier : V → UploadStatus → Reserved V
  reserved : V → Reserved V

module _ (J : Json) where
  unfoldable pub execution_row : String → String → J.Value → ℕ → ExecutionRow J.Encoded
  execution_row key execution_id evidence now = record {
    idempotency_key = key;
    execution_id = execution_id;
    evidence_json = J.dumps evidence;
    execution_status = processing;
    upload_status = held;
    created_at = now;
    updated_at = now;
  }

  -- The part of `reserve_execution` behind its `SELECT`. `none` is an `IntegrityError`, since the
  -- execution id is unique too.
  unfoldable pub reserve_new :
      RuleStore J.Encoded
      → ℕ
      → ℕ
      → String
      → String
      → J.Value
      → Option (RuleStore J.Encoded × Reserved J.Value)
  unfolding has_execution execution_row prune
  reserve_new s now pruned_at key execution_id evidence =
      if has_execution execution_id s.executions
      then none
      else some (
        prune
            (record s {
              executions = s.executions ++ execution_row key execution_id evidence now ∷ [];
            })
            pruned_at,
        reserved evidence,
      )

  unfoldable pub reserve_execution :
      RuleStore J.Encoded
      → ℕ
      → ℕ
      → String
      → String
      → J.Value
      → Option (RuleStore J.Encoded × Reserved J.Value)
  unfolding find_execution reserve_new
  reserve_execution s now pruned_at key execution_id evidence =
      elim (find_execution key s.executions) [
        | some r ↦ some (s, earlier (J.loads r.evidence_json) r.upload_status)
        | none ↦ reserve_new s now pruned_at key execution_id evidence
      ]

  unfoldable pub finalize_row :
      String → J.Value → ℕ → ExecutionRow J.Encoded → ExecutionRow J.Encoded
  finalize_row key evidence now r =
      if r.idempotency_key =ₛ key
      then record r {
        evidence_json = J.dumps evidence;
        execution_status = complete;
        upload_status = pending;
        updated_at = now;
      }
      else r

  -- `finalize_execution`, for the key that stands in the evidence; `none` is the error
  -- LOCAL_RULE_EXECUTION_RESERVATION_MISSING.
  unfoldable pub finalize_execution :
      RuleStore J.Encoded → ℕ → ℕ → String → J.Value → Option (RuleStore J.Encoded)
  unfolding find_execution finalize_row prune
  finalize_execution s now pruned_at key evidence = elim (find_execution key s.executions) [
    | none ↦ none
    | some _ ↦ some (
        prune (record s { executions = map (finalize_row key evidence now) s.executions })
          pruned_at)
  ]

  -- `pending_evidence`
  unfoldable pub pending_evidence : RuleStore J.Encoded → ℕ → List J.Value
  unfolding where_ order_by
  pending_evidence s limit =
      map (λ r. J.loads r.evidence_json)
        (take limit (
          order_by (λ r r'. ltb r.created_at r'.created_at)
            (where_ (λ r. is_complete r.execution_status && is_pending r.upload_status)
              s.executions)))

pub record StoreSummary : Type 0 where
  pub active_package_count : ℕ
  pub execution_count : ℕ
  pub pending_evidence_count : ℕ
  pub uploaded_evidence_count : ℕ
  pub processing_count : ℕ

-- `summary`
unfoldable pub summarize : {T : Type 0} → RuleStore T → StoreSummary
unfolding where_
summarize s = record {
  active_package_count = length s.packages;
  execution_count = length s.executions;
  pending_evidence_count = length (where_ (λ r. is_pending r.upload_status) s.executions);
  uploaded_evidence_count = length (where_ (λ r. is_uploaded r.upload_status) s.executions);
  processing_count = length (where_ (λ r. not (is_complete r.execution_status)) s.executions);
}
