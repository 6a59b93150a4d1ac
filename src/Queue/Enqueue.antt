-- ===== src/Queue/Enqueue.antt =====
-- What `enqueue` and `peek_all` of queue.py do on a valid queue.
use mathlib.Core.List.{map-append}
use mathlib.Core.Option.{some_inj}
use zediot_hub_connector.Common.{
  All, All-append, Bool-cases, List, String, [], ap, arith, false, inl, inr, length, length-append,
  map, refl, some, subst, sym, take, take_all, true, ℕ, ◌*◌, ◌++◌, ◌+◌, ◌-◌, ◌<◌, ◌∙◌, ◌∷◌, ◌≡◌,
  ◌≤◌, ◌⊎◌,
}
use zediot_hub_connector.Queue.{
  IsJson, Json, Queue, QueueItem, Row, acknowledged_of, cutoff_at, enqueue, enqueue_fresh,
  expire_stale_queue, expired, insert_row, item_of_row, metadata_int, new, new_item, new_row,
  next_of, next_sequence, overflows, peek_all, record_drop, rejected_item, set_metadata,
  total_bytes,
}
use zediot_hub_connector.Queue.Rows.{Above-snoc, Below-snoc, insert_row_last, total_bytes-append}
use zediot_hub_connector.Queue.Expiry.{expire_keeps, expire_settled, expired_snoc, length-expire}
use zediot_hub_connector.Queue.Invariant.{IsValid, expire_stale_queue-IsValid}

total_bytes_one : {T : Type 0} (r : Row T) → total_bytes (r ∷ []) ≡ r.byte_size
unfolding total_bytes
total_bytes_one r = omega arith

module _ (J : Json) where
  -- The two results of an `enqueue` behind the expiry.
  abbrev pub refused : Queue J.Encoded → ℕ → String → J.Value → Queue J.Encoded × QueueItem J.Value
  refused q now kind payload = (
    record q { metadata = record_drop q.metadata 1 },
    rejected_item J (next_of q) kind payload now,
  )

  abbrev pub appended : Queue J.Encoded → ℕ → String → J.Value → Queue J.Encoded × QueueItem J.Value
  appended q now kind payload = (
    record q {
      rows = q.rows ++ new_row J (next_of q) kind payload now ∷ [];
      metadata = set_metadata q.metadata next_sequence (next_of q + 1);
    },
    new_item J (next_of q) kind payload now,
  )

  abbrev pub size_of : J.Value → ℕ
  size_of payload = J.byte_length (J.dumps payload)

  module _ (q : Queue J.Encoded) (now : ℕ) (kind : String) (payload : J.Value) (v : IsValid q) where
    insert_row-new :
        insert_row (new_row J (next_of q) kind payload now) q.rows
        ≡ some (q.rows ++ new_row J (next_of q) kind payload now ∷ [])
    unfolding new_row
    insert_row-new = insert_row_last _ q.rows v.below

    enqueue_fresh_full :
        overflows q.max_bytes (total_bytes q.rows) (size_of payload) ≡ true
        → enqueue_fresh J q now kind payload ≡ some (refused q now kind payload)
    unfolding enqueue_fresh
    enqueue_fresh_full h = rw h

    enqueue_fresh_fits :
        overflows q.max_bytes (total_bytes q.rows) (size_of payload) ≡ false
        → enqueue_fresh J q now kind payload ≡ some (appended q now kind payload)
    unfolding enqueue_fresh
    enqueue_fresh_fits h = rw (h, insert_row-new)

    pub refused-IsValid : IsValid (refused q now kind payload).0
    unfolding next_of acknowledged_of metadata_int set_metadata record_drop
    refused-IsValid = ground arith

    appended-IsValid :
        overflows q.max_bytes (total_bytes q.rows) (size_of payload) ≡ false
        → IsValid (appended q now kind payload).0
    unfolding next_of acknowledged_of metadata_int set_metadata overflows new_row
    appended-IsValid h =
        let row = new_row J (next_of q) kind payload now in
        ground (
          arith,
          Above-snoc row (acknowledged_of q) q.rows v.above,
          Below-snoc row q.rows v.below,
          total_bytes-append q.rows (row ∷ []),
          total_bytes_one row,
        )

    -- Without the expiry.
    pub enqueue_fresh_outcome :
        ((q.max_bytes < total_bytes q.rows + size_of payload)
          × (enqueue_fresh J q now kind payload ≡ some (refused q now kind payload)))
        ⊎ ((total_bytes q.rows + size_of payload ≤ q.max_bytes)
            × (enqueue_fresh J q now kind payload ≡ some (appended q now kind payload))
            × IsValid (appended q now kind payload).0)
    unfolding overflows
    enqueue_fresh_outcome =
        elim (Bool-cases (overflows q.max_bytes (total_bytes q.rows) (size_of payload))) [
          | inl full ↦ inl (ground arith, enqueue_fresh_full full)
          | inr fits ↦ inr (ground arith, enqueue_fresh_fits fits, appended-IsValid fits)
        ]

  -- The row of an accepted item decodes to that item.
  item_of_row-new_row :
      IsJson J
      → (sequence : ℕ) (kind : String) (payload : J.Value) (now : ℕ)
      → item_of_row J (new_row J sequence kind payload now) ≡ new_item J sequence kind payload now
  unfolding item_of_row new_row new_item
  item_of_row-new_row law sequence kind payload now = rw (law.loads-dumps payload)

  appended_settled :
      (e : Queue J.Encoded) (now : ℕ) (kind : String) (payload : J.Value)
      → expired (cutoff_at e now) e.rows ≡ 0
      → let a = (appended e now kind payload).0 in expired (cutoff_at a now) a.rows ≡ 0
  unfolding cutoff_at new_row
  appended_settled e now kind payload settled =
      expired_snoc _ e.rows (new_row J (next_of e) kind payload now) (omega arith) ∙ settled

  -- Where no row is stale, the row that `enqueue` adds is not stale either.
  peek_all-appended :
      IsJson J
      → (e : Queue J.Encoded) (now : ℕ) (kind : String) (payload : J.Value) (limit : ℕ)
      → expired (cutoff_at e now) e.rows ≡ 0
      → length e.rows < limit
      → (peek_all J (appended e now kind payload).0 now limit).1
        ≡ map (item_of_row J) e.rows ++ (appended e now kind payload).1 ∷ []
  unfolding peek_all
  peek_all-appended law e now kind payload limit settled room =
      let row = new_row J (next_of e) kind payload now in
      let item = item_of_row-new_row law (next_of e) kind payload now in
      rw (
        expire_keeps (appended e now kind payload).0 now
            (appended_settled e now kind payload settled),
        take_all limit (e.rows ++ row ∷ []) (omega (arith, length-append e.rows (row ∷ []))),
        map-append,
        item,
      )

  module _ (q : Queue J.Encoded) (now : ℕ) (kind : String) (payload : J.Value) (v : IsValid q) where
    -- Every `enqueue` on a valid queue ends in one of two ways, and never by an `IntegrityError`.
    -- After the expiry either the payload would pass the capacity, and then the rows stay and one
    -- drop is counted, or it fits, and then one row under the next sequence follows the others.
    pub enqueue_outcome :
        let e = expire_stale_queue q now in
        ((e.max_bytes < total_bytes e.rows + size_of payload)
          × (enqueue J q now kind payload ≡ some (refused e now kind payload)))
        ⊎ ((total_bytes e.rows + size_of payload ≤ e.max_bytes)
            × (enqueue J q now kind payload ≡ some (appended e now kind payload))
            × IsValid (appended e now kind payload).0)
    unfolding enqueue
    enqueue_outcome =
        let e = expire_stale_queue q now in
        let w = expire_stale_queue-IsValid q now v in enqueue_fresh_outcome e now kind payload w

    peek_all_at_once :
        IsJson J
        → (limit : ℕ) {q' : Queue J.Encoded} {item : QueueItem J.Value}
        → enqueue J q now kind payload ≡ some (q', item)
        → item.accepted ≡ true
        → length q.rows < limit
        → (peek_all J q' now limit).1 ≡ (peek_all J q now limit).1 ++ item ∷ []
    unfolding peek_all rejected_item
    peek_all_at_once law limit {q'} {item} e acc room =
        let x = expire_stale_queue q now in
        elim enqueue_outcome [
          | inl (_, r) ↦
              let same : refused x now kind payload ≡ (q', item) = some_inj.0 (sym r ∙ e) in
              cc (ap (λ p. p.1.accepted) same)
          | inr (_, r, _) ↦
              let same : appended x now kind payload ≡ (q', item) = some_inj.0 (sym r ∙ e) in
              let short : length x.rows < limit = omega (arith, length-expire q now) in
              subst (λ p. (peek_all J p.0 now limit).1 ≡ (peek_all J q now limit).1 ++ p.1 ∷ [])
                same
                (rw (take_all limit x.rows (omega arith))
                  (peek_all-appended law x now kind payload limit (expire_settled q now) short))
        ]

    -- No row of the queue is older than its maximum age at a time.
    abbrev pub IsYoung : Queue J.Encoded → ℕ → Type 0
    IsYoung x time = All (λ r. time ≤ r.created_at + x.max_age_seconds * 1_000_000) x.rows

    young_expired :
        (age time earlier : ℕ) (rows : List (Row J.Encoded))
        → earlier ≤ time
        → All (λ r. time ≤ r.created_at + age) rows
        → expired (earlier - age) rows ≡ 0
    unfolding expired
    young_expired age time earlier [] le h = refl
    young_expired age time earlier (r ∷ rows) le h =
        ground (arith, young_expired age time earlier rows le h.1, h.0)

    young_keeps :
        (x : Queue J.Encoded) (time earlier : ℕ)
        → earlier ≤ time
        → IsYoung x time
        → expire_stale_queue x earlier ≡ x
    unfolding cutoff_at
    young_keeps x time earlier le h =
        expire_keeps x earlier
          (young_expired (x.max_age_seconds * 1_000_000) time earlier x.rows le h)

    peek_all_young :
        (x : Queue J.Encoded) (time earlier limit : ℕ)
        → earlier ≤ time
        → IsYoung x time
        → (peek_all J x earlier limit).1 ≡ map (item_of_row J) (take limit x.rows)
    unfolding peek_all
    peek_all_young x time earlier limit le h = rw (young_keeps x time earlier le h) refl

    appended-IsYoung :
        (later : ℕ)
        → IsYoung q later
        → later ≤ now + q.max_age_seconds * 1_000_000
        → IsYoung (appended q now kind payload).0 later
    unfolding new_row
    appended-IsYoung later h new = All-append _ q.rows _ h (new, tt)

    -- A payload that is accepted on a valid queue is what a later `peek_all` shows last, behind the
    -- items that an earlier one showed, if `json` decodes what it encodes, the limit leaves room,
    -- and until the later peek neither a row of the queue nor the new one passes its maximum age.
    pub peek_all-enqueue :
        IsJson J
        → (before later limit : ℕ) {q' : Queue J.Encoded} {item : QueueItem J.Value}
        → enqueue J q now kind payload ≡ some (q', item)
        → item.accepted ≡ true
        → length q.rows < limit
        → before ≤ now
        → now ≤ later
        → IsYoung q later
        → later ≤ now + q.max_age_seconds * 1_000_000
        → (peek_all J q' later limit).1 ≡ (peek_all J q before limit).1 ++ item ∷ []
    unfolding rejected_item
    peek_all-enqueue law before later limit {q'} {item} e acc room le_now le_later young new =
        let x = expire_stale_queue q now in
        let fresh : x ≡ q = young_keeps q later now le_later young in
        elim enqueue_outcome [
          | inl (_, r) ↦
              let same : refused x now kind payload ≡ (q', item) = some_inj.0 (sym r ∙ e) in
              cc (ap (λ p. p.1.accepted) same)
          | inr (_, r, _) ↦
              let same : appended q now kind payload ≡ (q', item) =
                ap (λ z. appended z now kind payload) (sym fresh) ∙ some_inj.0 (sym r ∙ e) in
              let young' : IsYoung q' later =
                subst (λ p. IsYoung p.0 later) same (appended-IsYoung later young new) in
              peek_all_young q' later later limit (omega arith) young'
              ∙ sym (peek_all_young q' later now limit le_later young')
              ∙ peek_all_at_once law limit e acc room
              ∙ ap (λ items. items ++ item ∷ [])
                  (peek_all_young q later now limit le_later young
                    ∙ sym (peek_all_young q later before limit (omega arith) young))
        ]
