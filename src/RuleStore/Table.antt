-- ===== src/RuleStore/Table.antt =====
-- The two SQLite tables of `LocalRuleStore` (rule_store.py), and `ORDER BY`.
use zediot_hub_connector.Common.{Bool, List, String, [], false, if◌then◌else◌, true, ℕ, ◌∷◌}

pub record PackageRow (T : Type 0) : Type 0 where
  pub package_id : String
  pub rule_id : String
  pub package_hash : String
  pub document_json : T
  pub valid_until : ℕ
  pub updated_at : ℕ

pub data ExecutionStatus : Type 0 where
  processing complete : ExecutionStatus

pub data UploadStatus : Type 0 where
  held pending uploaded : UploadStatus

pub record ExecutionRow (T : Type 0) : Type 0 where
  pub idempotency_key : String
  pub execution_id : String
  pub evidence_json : T
  pub execution_status : ExecutionStatus
  pub upload_status : UploadStatus
  pub created_at : ℕ
  pub updated_at : ℕ

-- The settings, and the tables in the order of their row ids.
pub record RuleStore (T : Type 0) : Type 0 where
  pub evidence_max_rows : ℕ
  pub evidence_retention_seconds : ℕ
  pub packages : List (PackageRow T)
  pub executions : List (ExecutionRow T)

abbrev pub is_uploaded : UploadStatus → Bool
is_uploaded uploaded = true
is_uploaded _ = false

abbrev pub is_pending : UploadStatus → Bool
is_pending pending = true
is_pending _ = false

abbrev pub is_complete : ExecutionStatus → Bool
is_complete complete = true
is_complete processing = false

-- `WHERE`
unfoldable pub where_ : {A : Type 0} → (A → Bool) → List A → List A
where_ test [] = []
where_ test (x ∷ xs) = let rest = where_ test xs in if test x then x ∷ rest else rest

-- `ORDER BY`, for an order given as a test; rows that it does not tell apart stay in their order.
unfoldable pub insert_by : {A : Type 0} → (A → A → Bool) → A → List A → List A
insert_by before x [] = x ∷ []
insert_by before x (y ∷ ys) =
    let rest = insert_by before x ys in if before y x then y ∷ rest else x ∷ y ∷ ys

unfoldable pub order_by : {A : Type 0} → (A → A → Bool) → List A → List A
unfolding insert_by
order_by before [] = []
order_by before (x ∷ xs) = insert_by before x (order_by before xs)
