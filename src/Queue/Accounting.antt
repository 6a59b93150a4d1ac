-- ===== src/Queue/Accounting.antt =====
-- No row of the queue of queue.py disappears without a trace: a row leaves it because the server's
-- cursor has passed it, or it is counted as dropped and a reconciliation is asked for.
use zediot_hub_connector.Common.{
  String, [], arith, inl, inr, length, length-append, length-map, negsuc, pos, refl, suc, sym, zero,
  ℕ, ◌+◌, ◌∷◌, ◌≡◌, ◌⊎◌,
}
use zediot_hub_connector.Queue.{
  Json, Metadata, Queue, acknowledge_through, acknowledged_of, acknowledged_sequence,
  delete_through, emptied, ensure_next_sequence_at_least, expire_stale_queue, initialize,
  insert_or_ignore, mark_delivery_attempted, mark_pending_delivery_uncertain,
  mark_reconciliation_queued, metadata_int, new_row, next_of, next_sequence, peek, peek_all,
  reconciliation_required, record_drop, replay_row, set_metadata, summary, synchronize,
  synchronize_with_server_cursor,
}
use zediot_hub_connector.Queue.Step.{
  Call, acknowledges, enqueues, ensures_next, marks_attempted, marks_reconciled, marks_uncertain,
  peeks, peeks_all, reopens, step, summarizes, synchronizes,
}
use zediot_hub_connector.Queue.Rows.{count_passed, count_passed_balance}
use zediot_hub_connector.Queue.Remaining.{
  Remain, added_by, cursor_of, dropped-record_drop, dropped_of, step-Remain,
}
use zediot_hub_connector.Queue.Expiry.{expire_cases}
use zediot_hub_connector.Queue.Invariant.{IsValid}
use zediot_hub_connector.Queue.Enqueue.{appended, enqueue_outcome, refused}

abbrev pub required_of : {T : Type 0} → Queue T → ℕ
required_of q = metadata_int q.metadata reconciliation_required 0

record_drop_flags :
    (m : Metadata) (n : ℕ)
    → (n ≡ 0) ⊎ (metadata_int (record_drop m n) reconciliation_required 0 ≡ 1)
unfolding record_drop metadata_int set_metadata
record_drop_flags m zero = inl refl
record_drop_flags m (suc n) = inr refl

module _ {T : Type 0} where
  -- The queue has grown by `offered` rows and lost `confirmed` to the cursor; the rest of the
  -- difference is counted as dropped, and if that is not 0 a reconciliation is required.
  pub record Accounts (q q' : Queue T) (offered confirmed : ℕ) : Type 0 where
    pub balanced :
        length q.rows + offered + dropped_of q ≡ length q'.rows + confirmed + dropped_of q'
    pub flagged : (dropped_of q' ≡ dropped_of q) ⊎ (required_of q' ≡ 1)

  emptied-Accounts : (q : Queue T) → Accounts q (emptied q) 0 0
  unfolding emptied metadata_int set_metadata
  emptied-Accounts q =
      let m = set_metadata q.metadata next_sequence (acknowledged_of q + 1) in
      ground (arith, dropped-record_drop m (length q.rows), record_drop_flags m (length q.rows))

  expire-Accounts : (q : Queue T) (now : ℕ) → Accounts q (expire_stale_queue q now) 0 0
  expire-Accounts q now =
      expire_cases (λ e. Accounts q e 0 0) q now
        (λ _. record { balanced = omega arith; flagged = inl refl }) (λ _. emptied-Accounts q)

  acknowledge_through-Accounts :
      (q : Queue T) (s : ℕ) → Accounts q (acknowledge_through q (pos s)) 0 (count_passed s q.rows)
  unfolding acknowledge_through metadata_int set_metadata
  acknowledge_through-Accounts q s = ground (arith, count_passed_balance s q.rows)

  synchronize-Accounts :
      (q : Queue T) (s : ℕ) → Accounts q (synchronize q s).0 0 (count_passed s q.rows)
  unfolding synchronize metadata_int set_metadata
  synchronize-Accounts q s =
      let kept = delete_through s q.rows in
      let m =
        set_metadata (set_metadata q.metadata acknowledged_sequence s) next_sequence (s + 1) in
      ground (
        arith,
        count_passed_balance s q.rows,
        dropped-record_drop m (length kept),
        record_drop_flags m (length kept),
      )

  ensure-Accounts : (q : Queue T) (s : ℕ) → Accounts q (ensure_next_sequence_at_least q s) 0 0
  unfolding ensure_next_sequence_at_least metadata_int set_metadata
  ensure-Accounts q s = ground arith

  queued-Accounts : (q : Queue T) → Accounts q (mark_reconciliation_queued q) 0 0
  unfolding mark_reconciliation_queued metadata_int set_metadata
  queued-Accounts q = ground arith

  initialize-Accounts : (q : Queue T) → Accounts q (initialize q) 0 0
  unfolding initialize insert_or_ignore metadata_int set_metadata
  initialize-Accounts q = ground (arith, length-map replay_row q.rows)

  -- Two stretches in a row.
  Accounts-trans :
      (q q' q'' : Queue T) (a b c d : ℕ)
      → Accounts q q' a b
      → Accounts q' q'' c d
      → (required_of q' ≡ 1 → required_of q'' ≡ 1)
      → Accounts q q'' (a + c) (b + d)
  Accounts-trans q q' q'' a b c d x y keep = ground (arith, keep)

  Accounts-refl :
      (q q' : Queue T)
      → length q.rows ≡ length q'.rows
      → q.metadata ≡ q'.metadata
      → Accounts q q' 0 0
  Accounts-refl q q' rows meta = record {
    balanced = rw meta (omega (arith, rows));
    flagged = inl (rw meta);
  }

module _ (J : Json) where
  -- The rows that a call offers, and those that its cursor passes.
  abbrev pub offered : Call J → ℕ
  offered (enqueues _ _ _) = 1
  offered _ = 0

  abbrev pub confirmed : Queue J.Encoded → Call J → ℕ
  confirmed q (acknowledges (pos s)) = count_passed s q.rows
  confirmed q (synchronizes (pos s)) = count_passed s q.rows
  confirmed q _ = 0

  refused-Accounts :
      (q : Queue J.Encoded) (now : ℕ) (kind : String) (payload : J.Value)
      → Accounts q (refused J q now kind payload).0 1 0
  refused-Accounts q now kind payload =
      ground (arith, dropped-record_drop q.metadata 1, record_drop_flags q.metadata 1)

  appended-Accounts :
      (q : Queue J.Encoded) (now : ℕ) (kind : String) (payload : J.Value)
      → Accounts q (appended J q now kind payload).0 1 0
  unfolding metadata_int set_metadata
  appended-Accounts q now kind payload =
      ground (arith, length-append q.rows (new_row J (next_of q) kind payload now ∷ []))

  enqueue-Accounts :
      (q : Queue J.Encoded) (now : ℕ) (kind : String) (payload : J.Value)
      → IsValid q
      → Accounts q (step J q (enqueues now kind payload)) 1 0
  unfolding step metadata_int set_metadata record_drop
  enqueue-Accounts q now kind payload v =
      let e = expire_stale_queue q now in
      elim (enqueue_outcome J q now kind payload v) [
        | inl (_, r) ↦
            rw (r, step)
              (Accounts-trans q e _ 0 0 1 0 (expire-Accounts q now)
                (refused-Accounts e now kind payload) (λ h. refl))
        | inr (_, r, _) ↦
            rw (r, step)
              (Accounts-trans q e _ 0 0 1 0 (expire-Accounts q now)
                (appended-Accounts e now kind payload) (λ h. h))
      ]

  balance-Accounts :
      (q : Queue J.Encoded) (c : Call J)
      → IsValid q
      → Accounts q (step J q c) (offered c) (confirmed q c)
  unfolding step peek peek_all summary synchronize_with_server_cursor mark_delivery_attempted
      mark_pending_delivery_uncertain acknowledge_through
  balance-Accounts q (enqueues now kind payload) v = enqueue-Accounts q now kind payload v
  balance-Accounts q (peeks now kind limit) v = expire-Accounts q now
  balance-Accounts q (peeks_all now limit) v = expire-Accounts q now
  balance-Accounts q (summarizes now) v = expire-Accounts q now
  balance-Accounts q (marks_attempted now ss) v = Accounts-refl q _ (sym (length-map _ q.rows)) refl
  balance-Accounts q (marks_uncertain now) v = Accounts-refl q _ (sym (length-map _ q.rows)) refl
  balance-Accounts q (acknowledges (negsuc n)) v = Accounts-refl q q refl refl
  balance-Accounts q (acknowledges (pos s)) v = acknowledge_through-Accounts q s
  balance-Accounts q (synchronizes (negsuc n)) v = Accounts-refl q q refl refl
  balance-Accounts q (synchronizes (pos s)) v = synchronize-Accounts q s
  balance-Accounts q (ensures_next s) v = ensure-Accounts q s
  balance-Accounts q marks_reconciled v = queued-Accounts q
  balance-Accounts q reopens v = initialize-Accounts q

  -- Whatever the call on a valid queue, the rows before it and the rows that it offers are as many
  -- as the rows after it, those that the server's cursor has passed and those newly counted as
  -- dropped; if any is newly counted as dropped, a reconciliation is required, and if none is, then
  -- the queue holds just the rows that the cursor has not passed, in their order and under their
  -- sequences, and the row that the call has added.
  pub step-Accounts :
      (q : Queue J.Encoded) (c : Call J)
      → IsValid q
      → Accounts q (step J q c) (offered c) (confirmed q c)
        × Remain (cursor_of J c) (added_by J q c) q (step J q c)
  step-Accounts q c v = (balance-Accounts q c v, step-Remain J q c v)
