-- ===== src/Queue/State.antt =====
-- The state of `BoundedUplinkQueue` (queue.py), its construction, expiry and the drop counters.
-- A clock reading is an argument, in microseconds. The ISO texts that SQLite compares are of UTC
-- times and order as these do.
use zediot_hub_connector.Common.{
  ℕ, zero, suc, ◌+◌, ◌-◌, ◌*◌, Bool, not, Option, none, some, List, [], map, filter, length, ◌==◌,
  if◌then◌else◌, dec_lt,
}
use zediot_hub_connector.Queue.Table.{
  Row, next_sequence, dropped_count, acknowledged_sequence, reconciliation_required, Metadata,
  metadata_int, set_metadata, insert_or_ignore,
}

pub record Queue (T : Type 0) : Type 0 where
  pub max_bytes : ℕ
  pub max_age_seconds : ℕ
  pub rows : List (Row T)
  pub metadata : Metadata

-- `COALESCE(last_attempted_at, …)`
unfoldable pub coalesce : Option ℕ → ℕ → Option ℕ
coalesce none default = some default
coalesce (some t) default = some t

-- `_record_drop`
unfoldable pub record_drop : Metadata → ℕ → Metadata
record_drop m zero = m
record_drop m (suc n) =
    let counted = set_metadata m dropped_count (metadata_int m dropped_count 0 + suc n) in
    set_metadata counted reconciliation_required 1

module _ {T : Type 0} where
  unfoldable pub next_of : Queue T → ℕ
  next_of q = metadata_int q.metadata next_sequence 1

  unfoldable pub acknowledged_of : Queue T → ℕ
  acknowledged_of q = metadata_int q.metadata acknowledged_sequence 0

  -- `SELECT COUNT(*) … WHERE created_at < ?`
  unfoldable pub expired : ℕ → List (Row T) → ℕ
  expired cutoff rows = length (filter (λ r. dec_lt r.created_at cutoff) rows)

  unfoldable pub emptied : Queue T → Queue T
  emptied q = record q {
    rows = [];
    metadata =
        record_drop (set_metadata q.metadata next_sequence (acknowledged_of q + 1)) (length q.rows);
  }

  unfoldable pub cutoff_at : Queue T → ℕ → ℕ
  cutoff_at q now = now - q.max_age_seconds * 1_000_000

  -- `_expire_stale_queue`: one stale row empties the whole queue.
  unfoldable pub expire_stale_queue : Queue T → ℕ → Queue T
  expire_stale_queue q now = if expired (cutoff_at q now) q.rows == 0 then q else emptied q

  unfoldable pub needs_reconciliation : Queue T → Bool
  needs_reconciliation q = not (metadata_int q.metadata reconciliation_required 0 == 0)

  unfoldable pub mark_reconciliation_queued : Queue T → Queue T
  mark_reconciliation_queued q = record q {
    metadata = set_metadata q.metadata reconciliation_required 0;
  }

  unfoldable pub replay_row : Row T → Row T
  replay_row r =
      if r.delivery_attempts == 0
      then record r {
        delivery_attempts = 1;
        last_attempted_at = coalesce r.last_attempted_at r.created_at;
      }
      else r

  -- `_initialize` on a database of the present schema: rows left by an earlier process count as
  -- attempted, and missing counters are set.
  unfoldable pub initialize : Queue T → Queue T
  initialize q =
      let m = insert_or_ignore q.metadata next_sequence 1 in
      let m = insert_or_ignore m dropped_count 0 in
      let m = insert_or_ignore m acknowledged_sequence 0 in
      let m = insert_or_ignore m reconciliation_required 0 in
      record q { rows = map replay_row q.rows; metadata = m }

  -- `__init__` on a new file.
  unfoldable pub new : ℕ → ℕ → Queue T
  new max_bytes max_age_seconds = initialize (record {
    max_bytes = max_bytes;
    max_age_seconds = max_age_seconds;
    rows = [];
    metadata = λ _. none;
  })
