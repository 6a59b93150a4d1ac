-- ===== src/Queue/Table.antt =====
-- The two SQLite tables of `BoundedUplinkQueue` (queue.py). `uplink_queue` is a list in the order
-- of its integer primary key, `queue_metadata` a map from its text keys.
use zediot_hub_connector.Common.{
  ℕ, ◌+◌, min, max, String, Bool, true, false, Option, none, some, List, [], ◌∷◌, ltb, ◌==◌,
  if◌then◌else◌,
}

pub record Row (T : Type 0) : Type 0 where
  pub sequence : ℕ
  pub kind : String
  pub payload_json : T
  pub byte_size : ℕ
  pub created_at : ℕ
  pub delivery_attempts : ℕ
  pub last_attempted_at : Option ℕ

module _ {T : Type 0} where
  -- `COALESCE(SUM(byte_size), 0)`
  unfoldable pub total_bytes : List (Row T) → ℕ
  total_bytes [] = 0
  total_bytes (r ∷ rows) = r.byte_size + total_bytes rows

  unfoldable pub least : ℕ → List (Row T) → ℕ
  least m [] = m
  least m (r ∷ rows) = least (min m r.sequence) rows

  -- `COALESCE(MIN(sequence), 0)`
  unfoldable pub min_sequence : List (Row T) → ℕ
  min_sequence [] = 0
  min_sequence (r ∷ rows) = least r.sequence rows

  -- `COALESCE(MAX(sequence), 0)`
  unfoldable pub max_sequence : List (Row T) → ℕ
  max_sequence [] = 0
  max_sequence (r ∷ rows) = max r.sequence (max_sequence rows)

  -- `INSERT`: a row goes to its place in the key order, and a key that is taken is an
  -- `IntegrityError`.
  unfoldable pub insert_row : Row T → List (Row T) → Option (List (Row T))
  insert_row new [] = some (new ∷ [])
  insert_row new (r ∷ rows) =
      if ltb new.sequence r.sequence
      then some (new ∷ r ∷ rows)
      else if new.sequence == r.sequence
      then none
      else elim (insert_row new rows) [ none ↦ none | some rest ↦ some (r ∷ rest) ]

pub data MetadataKey : Type 0 where
  next_sequence dropped_count acknowledged_sequence reconciliation_required : MetadataKey

abbrev pub key_eq : MetadataKey → MetadataKey → Bool
key_eq next_sequence next_sequence = true
key_eq dropped_count dropped_count = true
key_eq acknowledged_sequence acknowledged_sequence = true
key_eq reconciliation_required reconciliation_required = true
key_eq _ _ = false

abbrev pub Metadata : Type 0
Metadata = MetadataKey → Option ℕ

-- `_metadata_int`
unfoldable pub metadata_int : Metadata → MetadataKey → ℕ → ℕ
metadata_int m key default = elim (m key) [ none ↦ default | some value ↦ value ]

-- `_set_metadata`
unfoldable pub set_metadata : Metadata → MetadataKey → ℕ → Metadata
set_metadata m key value j = if key_eq j key then some value else m j

-- `INSERT OR IGNORE INTO queue_metadata`
unfoldable pub insert_or_ignore : Metadata → MetadataKey → ℕ → Metadata
insert_or_ignore m key value = elim (m key) [ none ↦ set_metadata m key value | some _ ↦ m ]
