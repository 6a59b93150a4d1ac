-- ===== src/Receipts.antt =====
-- `CommandReceiptStore` (src/zediot_ha_hub_connector/command_store.py): the durable memory that
-- makes commands idempotent. `command_receipt` is a list keyed by `command_id`; each clock reading
-- of a method is an argument, in microseconds.
pub mod Lookup
pub mod Laws
use mathlib.Core.Option
use zediot_hub_connector.Common.{
  Bool, List, Option, String, [], dec_le, false, filter, if◌then◌else◌, map, none, not, some, ℕ,
  ◌*◌, ◌-◌, ◌=ₛ◌, ◌||◌, ◌∷◌,
}
use zediot_hub_connector.Queue.{Json}

pub record Row (T : Type 0) : Type 0 where
  pub command_id : String
  pub idempotency_key : String
  pub envelope_digest : String
  pub status : String
  pub reason_code : Option String
  pub evidence_json : T
  pub updated_at : ℕ

-- The dictionary that `get` returns.
pub record Receipt (V : Type 0) : Type 0 where
  pub command_id : String
  pub idempotency_key : String
  pub envelope_digest : String
  pub status : String
  pub reason_code : Option String
  pub evidence : V
  pub updated_at : ℕ

pub record Store (T : Type 0) : Type 0 where
  pub retention_seconds : ℕ
  pub rows : List (Row T)

module _ {T : Type 0} where
  unfoldable pub cutoff_at : Store T → ℕ → ℕ
  cutoff_at s now = now - s.retention_seconds * 1_000_000

  -- `_prune`: `DELETE FROM command_receipt WHERE updated_at < ?`
  unfoldable pub prune : Store T → ℕ → Store T
  prune s now = record s { rows = filter (λ r. dec_le (cutoff_at s now) r.updated_at) s.rows }

  -- `SELECT … WHERE command_id = ?`
  unfoldable pub find : String → List (Row T) → Option (Row T)
  find id [] = none
  find id (r ∷ rows) = if r.command_id =ₛ id then some r else find id rows

  -- `INSERT … ON CONFLICT(command_id) DO UPDATE`: the key and the digest of a row stay.
  unfoldable pub upsert : Row T → List (Row T) → List (Row T)
  upsert new [] = new ∷ []
  upsert new (r ∷ rows) =
      if r.command_id =ₛ new.command_id
      then record r {
        status = new.status;
        reason_code = new.reason_code;
        evidence_json = new.evidence_json;
        updated_at = new.updated_at;
      }
        ∷ rows
      else r ∷ upsert new rows

-- What a `save` is asked to write.
pub record Request (V : Type 0) : Type 0 where
  pub command_id : String
  pub idempotency_key : String
  pub digest : String
  pub status : String
  pub reason_code : Option String
  pub evidence : V

-- The three readings of the clock in `save`: in the first `get`, for the row, in the last `get`.
pub record Times : Type 0 where
  pub before : ℕ
  pub written : ℕ
  pub after : ℕ

-- `conflict` is the error HUB_COMMAND_IDEMPOTENCY_CONFLICT; `saved none` is the empty dictionary.
pub data Saved (V : Type 0) : Type 0 where
  saved : Option (Receipt V) → Saved V
  conflict : Saved V

-- `command_envelope_digest`, over `json.dumps` and SHA-256.
unfoldable pub command_envelope_digest : (E : Json) → (E.Encoded → String) → E.Value → String
command_envelope_digest E sha256 envelope = sha256 (E.dumps envelope)

module _ (J : Json) where
  unfoldable pub receipt_of_row : Row J.Encoded → Receipt J.Value
  receipt_of_row r = record {
    command_id = r.command_id;
    idempotency_key = r.idempotency_key;
    envelope_digest = r.envelope_digest;
    status = r.status;
    reason_code = r.reason_code;
    evidence = J.loads r.evidence_json;
    updated_at = r.updated_at;
  }

  unfoldable pub get : Store J.Encoded → ℕ → String → Store J.Encoded × Option (Receipt J.Value)
  get s now id = let s' = prune s now in (s', Option.map receipt_of_row (find id s'.rows))

  unfoldable pub row_of : Request J.Value → ℕ → Row J.Encoded
  row_of q now = record {
    command_id = q.command_id;
    idempotency_key = q.idempotency_key;
    envelope_digest = q.digest;
    status = q.status;
    reason_code = q.reason_code;
    evidence_json = J.dumps q.evidence;
    updated_at = now;
  }

  -- `existing["idempotency_key"] != idempotency_key or existing["envelope_digest"] != digest`
  unfoldable pub conflicts : Request J.Value → Option (Receipt J.Value) → Bool
  conflicts q none = false
  conflicts q (some r) =
      not (r.idempotency_key =ₛ q.idempotency_key) || not (r.envelope_digest =ₛ q.digest)

  unfoldable pub write : Store J.Encoded → Request J.Value → ℕ → Store J.Encoded
  write s q now = record s { rows = upsert (row_of q now) s.rows }

  unfoldable pub save : Store J.Encoded → Times → Request J.Value → Store J.Encoded × Saved J.Value
  save s t q =
      let (s', existing) = get s t.before q.command_id in
      if conflicts q existing
      then (s', conflict)
      else let (s'', result) = get (write s' q t.written) t.after q.command_id in
        (s'', saved result)
