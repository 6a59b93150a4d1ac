-- ===== src/Queue/Delivery.antt =====
-- The methods of `BoundedUplinkQueue` (queue.py) that record delivery attempts and follow the
-- server's cursor.
use zediot_hub_connector.Common.{
  ℕ, ◌+◌, ◌-◌, Bool, true, false, not, ◌&&◌, ◌||◌, Option, none, some, List, [], ◌∷◌, map, filter,
  length, ltb, leb, ◌==◌, if◌then◌else◌, dec_lt, ℤ, pos, negsuc,
}
use zediot_hub_connector.Queue.Table.{
  Row, min_sequence, max_sequence, next_sequence, acknowledged_sequence, metadata_int, set_metadata,
}
use zediot_hub_connector.Queue.State.{Queue, record_drop, coalesce, next_of, acknowledged_of}

-- `sequence IN (…)`
unfoldable pub contains : ℕ → List ℕ → Bool
contains s [] = false
contains s (t ∷ ts) = s == t || contains s ts

module _ {T : Type 0} where
  -- `UPDATE … SET delivery_attempts = delivery_attempts + 1 … WHERE sequence IN (…)`
  unfoldable pub attempt_row : ℕ → List ℕ → Row T → Row T
  attempt_row attempted_at sequences r =
      if contains r.sequence sequences
      then record r {
        delivery_attempts = r.delivery_attempts + 1;
        last_attempted_at = some attempted_at;
      }
      else r

  -- `mark_delivery_attempted`
  unfoldable pub mark_delivery_attempted : Queue T → ℕ → List ℕ → Queue T
  mark_delivery_attempted q attempted_at sequences = record q {
    rows = map (attempt_row attempted_at sequences) q.rows;
  }

  unfoldable pub uncertain_row : ℕ → Row T → Row T
  uncertain_row attempted_at r = record r {
    delivery_attempts = if r.delivery_attempts == 0 then 1 else r.delivery_attempts;
    last_attempted_at = coalesce r.last_attempted_at attempted_at;
  }

  -- `mark_pending_delivery_uncertain`
  unfoldable pub mark_pending_delivery_uncertain : Queue T → ℕ → Queue T
  mark_pending_delivery_uncertain q attempted_at = record q {
    rows = map (uncertain_row attempted_at) q.rows;
  }

  -- `DELETE FROM uplink_queue WHERE sequence <= ?`
  unfoldable pub delete_through : ℕ → List (Row T) → List (Row T)
  delete_through sequence = filter (λ r. dec_lt sequence r.sequence)

  -- `acknowledge_through`. Every stored number is at least 0, so at a negative cursor no row is
  -- deleted and neither test holds.
  unfoldable pub acknowledge_through : Queue T → ℤ → Queue T
  acknowledge_through q (negsuc _) = q
  acknowledge_through q (pos sequence) =
      let acknowledged =
        if ltb (acknowledged_of q) sequence
        then set_metadata q.metadata acknowledged_sequence sequence
        else q.metadata in
      let next =
        if leb (metadata_int acknowledged next_sequence 1) sequence
        then set_metadata acknowledged next_sequence (sequence + 1)
        else acknowledged in
      record q { rows = delete_through sequence q.rows; metadata = next }

  -- The test `contiguous` of `synchronize_with_server_cursor`.
  unfoldable pub is_contiguous : ℕ → List (Row T) → Bool
  is_contiguous expected rows =
      length rows == 0
      || (min_sequence rows == expected && length rows == max_sequence rows - min_sequence rows + 1)

  -- The transaction of `synchronize_with_server_cursor`, with its result: whether the queue was
  -- emptied.
  unfoldable pub synchronize : Queue T → ℕ → Queue T × Bool
  synchronize q sequence =
      let kept = delete_through sequence q.rows in
      let acknowledged = set_metadata q.metadata acknowledged_sequence sequence in
      let expected = sequence + 1 in
      let latest = max_sequence kept in
      if not (is_contiguous expected kept)
      then (
        record q {
          rows = [];
          metadata = record_drop (set_metadata acknowledged next_sequence expected) (length kept);
        },
        true,
      )
      else (
        record q {
          rows = kept;
          metadata =
              set_metadata acknowledged next_sequence
                (if length kept == 0 then expected else latest + 1);
        },
        false,
      )

  -- `synchronize_with_server_cursor`; `none` is the `ValueError`.
  unfoldable pub synchronize_with_server_cursor : Queue T → ℤ → Option (Queue T × Bool)
  synchronize_with_server_cursor q (negsuc _) = none
  synchronize_with_server_cursor q (pos sequence) = some (synchronize q sequence)

  unfoldable pub ensure_next_sequence_at_least : Queue T → ℕ → Queue T
  ensure_next_sequence_at_least q sequence =
      if ltb (next_of q) sequence
      then record q { metadata = set_metadata q.metadata next_sequence sequence }
      else q
