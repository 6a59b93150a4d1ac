-- ===== src/Queue/Uplink.antt =====
-- `enqueue`, `peek`, `peek_all` and `summary` of `BoundedUplinkQueue` (queue.py).
use zediot_hub_connector.Common.{
  ℕ, ◌+◌, String, Bool, true, false, ◌||◌, Option, none, some, List, [], ◌∷◌, map, length, take,
  ltb, ◌=ₛ◌, if◌then◌else◌,
}
use zediot_hub_connector.Queue.Codec.{Json}
use zediot_hub_connector.Queue.Table.{
  Row, total_bytes, min_sequence, max_sequence, insert_row, next_sequence, dropped_count,
  reconciliation_required, metadata_int, set_metadata,
}
use zediot_hub_connector.Queue.State.{Queue, record_drop, next_of, expire_stale_queue}

pub record QueueItem (V : Type 0) : Type 0 where
  pub sequence : ℕ
  pub kind : String
  pub payload : V
  pub created_at : ℕ
  pub byte_size : ℕ
  pub delivery_attempts : ℕ
  pub last_attempted_at : Option ℕ
  pub accepted : Bool
  pub drop_reason : Option String

module _ {T : Type 0} where
  -- `WHERE kind = ?`
  unfoldable pub of_kind : String → List (Row T) → List (Row T)
  of_kind kind [] = []
  of_kind kind (r ∷ rows) =
      let rest = of_kind kind rows in if r.kind =ₛ kind then r ∷ rest else rest

pub record Summary : Type 0 where
  pub queue_depth : ℕ
  pub queue_bytes : ℕ
  pub oldest_sequence : ℕ
  pub latest_sequence : ℕ
  pub dropped : ℕ
  pub reconciliation : ℕ

unfoldable pub summary : {T : Type 0} → Queue T → ℕ → Queue T × Summary
summary q now =
    let q' = expire_stale_queue q now in
    (
      q',
      record {
        queue_depth = length q'.rows;
        queue_bytes = total_bytes q'.rows;
        oldest_sequence = min_sequence q'.rows;
        latest_sequence = max_sequence q'.rows;
        dropped = metadata_int q'.metadata dropped_count 0;
        reconciliation = metadata_int q'.metadata reconciliation_required 0;
      },
    )

-- The capacity test of `enqueue`.
unfoldable pub overflows : ℕ → ℕ → ℕ → Bool
overflows max_bytes total byte_size = ltb max_bytes byte_size || ltb max_bytes (total + byte_size)

module _ (J : Json) where
  open J use {Value, Encoded, dumps, loads, byte_length}

  unfoldable pub rejected_item : ℕ → String → Value → ℕ → QueueItem Value
  rejected_item sequence kind payload now = record {
    sequence = sequence;
    kind = kind;
    payload = payload;
    created_at = now;
    byte_size = byte_length (dumps payload);
    delivery_attempts = 0;
    last_attempted_at = none;
    accepted = false;
    drop_reason = some "queue_capacity_exceeded";
  }

  unfoldable pub new_row : ℕ → String → Value → ℕ → Row Encoded
  new_row sequence kind payload now = record {
    sequence = sequence;
    kind = kind;
    payload_json = dumps payload;
    byte_size = byte_length (dumps payload);
    created_at = now;
    delivery_attempts = 0;
    last_attempted_at = none;
  }

  -- The `QueueItem` that `peek` and `peek_all` build from a row.
  unfoldable pub item_of_row : Row Encoded → QueueItem Value
  item_of_row r = record {
    sequence = r.sequence;
    kind = r.kind;
    payload = loads r.payload_json;
    created_at = r.created_at;
    byte_size = r.byte_size;
    delivery_attempts = r.delivery_attempts;
    last_attempted_at = r.last_attempted_at;
    accepted = true;
    drop_reason = none;
  }

  unfoldable pub new_item : ℕ → String → Value → ℕ → QueueItem Value
  new_item sequence kind payload now = record {
    sequence = sequence;
    kind = kind;
    payload = payload;
    created_at = now;
    byte_size = byte_length (dumps payload);
    delivery_attempts = 0;
    last_attempted_at = none;
    accepted = true;
    drop_reason = none;
  }

  -- The part of `enqueue` behind `_expire_stale_queue`. `none` is an `IntegrityError` of the
  -- `INSERT`, which rolls the transaction back.
  unfoldable pub enqueue_fresh :
      Queue Encoded → ℕ → String → Value → Option (Queue Encoded × QueueItem Value)
  enqueue_fresh q now kind payload =
      let sequence = next_of q in
      let byte_size = byte_length (dumps payload) in
      let total = total_bytes q.rows in
      let row = new_row sequence kind payload now in
      if overflows q.max_bytes total byte_size
      then some (
        record q { metadata = record_drop q.metadata 1 },
        rejected_item sequence kind payload now,
      )
      else elim (insert_row row q.rows) [
        | none ↦ none
        | some rows ↦ some (
          record q { rows = rows; metadata = set_metadata q.metadata next_sequence (sequence + 1) },
          new_item sequence kind payload now,
        )
      ]

  unfoldable pub enqueue :
      Queue Encoded → ℕ → String → Value → Option (Queue Encoded × QueueItem Value)
  enqueue q now kind payload = enqueue_fresh (expire_stale_queue q now) now kind payload

  -- `peek`: the rows of one kind.
  unfoldable pub peek : Queue Encoded → ℕ → String → ℕ → Queue Encoded × List (QueueItem Value)
  peek q now kind limit =
      let q' = expire_stale_queue q now in (q', map item_of_row (take limit (of_kind kind q'.rows)))

  unfoldable pub peek_all : Queue Encoded → ℕ → ℕ → Queue Encoded × List (QueueItem Value)
  peek_all q now limit =
      let q' = expire_stale_queue q now in (q', map item_of_row (take limit q'.rows))
