-- ===== src/Queue/Remaining.antt =====
-- Which rows of the queue of queue.py are left by a call that counts none as dropped.
use zediot_hub_connector.Common.{
  Bool-cases, List, String, [], ap, arith, dec_lt, false, inl, inr, length, length-filter-le, map,
  negsuc, pos, refl, suc, sym, zero, ℕ, ◌++◌, ◌+◌, ◌<◌, ◌∙◌, ◌∷◌, ◌≡◌, ◌≤◌, ◌⊎◌,
}
use zediot_hub_connector.Queue.{
  Json, Metadata, Queue, Row, acknowledge_through, acknowledged_of, acknowledged_sequence,
  attempt_row, cutoff_at, delete_through, dropped_count, emptied, ensure_next_sequence_at_least,
  expire_stale_queue, expired, initialize, is_contiguous, mark_delivery_attempted,
  mark_pending_delivery_uncertain, mark_reconciliation_queued, metadata_int, new, new_row, next_of,
  next_sequence, peek, peek_all, record_drop, replay_row, set_metadata, summary, synchronize,
  synchronize_with_server_cursor, uncertain_row,
}
use zediot_hub_connector.Queue.Step.{
  Call, acknowledges, enqueues, ensures_next, marks_attempted, marks_reconciled, marks_uncertain,
  peeks, peeks_all, reopens, step, summarizes, synchronizes,
}
use zediot_hub_connector.Queue.Rows.{Above, delete_through_above, rows_above}
use zediot_hub_connector.Queue.Expiry.{expire_cases}
use zediot_hub_connector.Queue.Invariant.{IsValid}
use zediot_hub_connector.Queue.Enqueue.{enqueue_outcome}
use mathlib.Core.Path.{ap₂}
use mathlib.Core.List.{append-nil, map-append}

abbrev pub dropped_of : {T : Type 0} → Queue T → ℕ
dropped_of q = metadata_int q.metadata dropped_count 0

abbrev pub sequences_of : {T : Type 0} → List (Row T) → List ℕ
sequences_of rows = map (λ r. r.sequence) rows

pub dropped-record_drop :
    (m : Metadata) (n : ℕ)
    → metadata_int (record_drop m n) dropped_count 0 ≡ metadata_int m dropped_count 0 + n
unfolding record_drop metadata_int set_metadata
dropped-record_drop m zero = omega arith
dropped-record_drop m (suc n) = ground arith

sequences_alike :
    {T : Type 0} (f : Row T → Row T)
    → ((r : Row T) → (f r).sequence ≡ r.sequence)
    → (rows : List (Row T)) → sequences_of (map f rows) ≡ sequences_of rows
sequences_alike f same [] = refl
sequences_alike f same (r ∷ rows) = ap₂ ◌∷◌ (same r) (sequences_alike f same rows)

module _ {T : Type 0} where
  -- If no row is newly counted as dropped, all rows above the number are left, in their order and
  -- under their sequences, in front of `new`.
  abbrev pub Remain : ℕ → List ℕ → Queue T → Queue T → Type 0
  Remain passed new q q' =
      dropped_of q' ≡ dropped_of q
      → sequences_of q'.rows ≡ sequences_of (rows_above passed q.rows) ++ new

  rows_positive : (n : ℕ) (rows : List (Row T)) → Above n rows → rows_above 0 rows ≡ rows
  rows_positive n [] a = refl
  rows_positive n (r ∷ rows) a = ground (arith, rows_positive r.sequence rows a.1)

  Remain-same :
      (q q' : Queue T) → IsValid q → sequences_of q'.rows ≡ sequences_of q.rows → Remain 0 [] q q'
  Remain-same q q' v e _ =
      e
      ∙ ap sequences_of (sym (rows_positive (acknowledged_of q) q.rows v.above))
      ∙ sym (append-nil (sequences_of (rows_above 0 q.rows)))

  expired_short : (cutoff : ℕ) (rows : List (Row T)) → expired cutoff rows ≤ length rows
  unfolding expired
  expired_short cutoff rows = length-filter-le (λ r. dec_lt r.created_at cutoff) rows

  -- An expiry that counts nothing has kept the queue.
  pub expire_counted :
      (q : Queue T) (now : ℕ)
      → (expire_stale_queue q now ≡ q) ⊎ (dropped_of q < dropped_of (expire_stale_queue q now))
  unfolding emptied metadata_int set_metadata
  expire_counted q now =
      expire_cases (λ e. (e ≡ q) ⊎ (dropped_of q < dropped_of e)) q now (λ _. inl refl)
        (λ h. inr (
          omega (
            arith,
            dropped-record_drop (set_metadata q.metadata next_sequence (acknowledged_of q + 1))
                (length q.rows),
            expired_short (cutoff_at q now) q.rows,
            h,
          )))

  pub expire_more : (q : Queue T) (now : ℕ) → dropped_of q ≤ dropped_of (expire_stale_queue q now)
  expire_more q now = elim (expire_counted q now) [
    | inl same ↦ omega (arith, ap dropped_of same)
    | inr more ↦ omega arith
  ]

  expire-Remain : (q : Queue T) (now : ℕ) → IsValid q → Remain 0 [] q (expire_stale_queue q now)
  expire-Remain q now v e = elim (expire_counted q now) [
    | inl same ↦ Remain-same q (expire_stale_queue q now) v (ap (λ x. sequences_of x.rows) same) e
    | inr more ↦ absurd (omega (arith, e, more))
  ]

  acknowledge-Remain : (q : Queue T) (s : ℕ) → Remain s [] q (acknowledge_through q (pos s))
  unfolding acknowledge_through
  acknowledge-Remain q s _ =
      rw (delete_through_above s q.rows) (sym (append-nil (sequences_of (rows_above s q.rows))))

  contiguous_none : (n : ℕ) (rows : List (Row T)) → is_contiguous n rows ≡ false → 0 < length rows
  unfolding is_contiguous
  contiguous_none n [] h = absurd cc
  contiguous_none n (r ∷ rows) h = omega arith

  synchronize-Remain : (q : Queue T) (s : ℕ) → Remain s [] q (synchronize q s).0
  unfolding synchronize metadata_int set_metadata
  synchronize-Remain q s e =
      let kept = delete_through s q.rows in
      elim (Bool-cases (is_contiguous (s + 1) kept)) [
        | inl y ↦
            rw (synchronize, y, delete_through_above s q.rows)
              (sym (append-nil (sequences_of (rows_above s q.rows))))
        | inr n ↦
            let m =
              set_metadata (set_metadata q.metadata acknowledged_sequence s) next_sequence
                (s + 1) in
            let counted : dropped_of (synchronize q s).0 ≡ dropped_of q + length kept =
              rw (synchronize, n) (dropped-record_drop m (length kept)) in
            absurd (omega (arith, counted, e, contiguous_none (s + 1) kept n))
      ]

  ensure-Remain :
      (q : Queue T) (s : ℕ) → IsValid q → Remain 0 [] q (ensure_next_sequence_at_least q s)
  unfolding ensure_next_sequence_at_least
  ensure-Remain q s v = Remain-same q (ensure_next_sequence_at_least q s) v (ground arith)

module _ (J : Json) where
  enqueue-Remain :
      (q : Queue J.Encoded) (now : ℕ) (kind : String) (payload : J.Value)
      → IsValid q
      → Remain 0 (next_of (expire_stale_queue q now) ∷ []) q (step J q (enqueues now kind payload))
  unfolding step metadata_int set_metadata new_row
  enqueue-Remain q now kind payload v =
      let e = expire_stale_queue q now in
      let row = new_row J (next_of e) kind payload now in
      elim (enqueue_outcome J q now kind payload v) [
        | inl (_, r) ↦
            rw (r, step)
              (λ h. absurd (omega (arith, h, dropped-record_drop e.metadata 1, expire_more q now)))
        | inr (_, r, _) ↦
            rw (r, step)
              (λ h. elim (expire_counted q now) [
                | inr more ↦ absurd (omega (arith, h, more))
                | inl same ↦
                    map-append (λ r. r.sequence) e.rows (row ∷ [])
                    ∙ ap (λ rows. sequences_of rows ++ next_of e ∷ [])
                        (ap (λ x. x.rows) same
                          ∙ sym (rows_positive (acknowledged_of q) q.rows v.above))
              ])
      ]

  -- The number that a cursor passes, and the sequence of a row that is offered.
  abbrev pub cursor_of : Call J → ℕ
  cursor_of (acknowledges (pos s)) = s
  cursor_of (synchronizes (pos s)) = s
  cursor_of _ = 0

  abbrev pub added_by : Queue J.Encoded → Call J → List ℕ
  added_by q (enqueues now _ _) = next_of (expire_stale_queue q now) ∷ []
  added_by q _ = []

  pub step-Remain :
      (q : Queue J.Encoded) (c : Call J)
      → IsValid q
      → Remain (cursor_of c) (added_by q c) q (step J q c)
  unfolding step peek peek_all summary synchronize_with_server_cursor mark_delivery_attempted
      mark_pending_delivery_uncertain acknowledge_through mark_reconciliation_queued initialize
      attempt_row uncertain_row replay_row
  step-Remain q (enqueues now kind payload) v = enqueue-Remain q now kind payload v
  step-Remain q (peeks now kind limit) v = expire-Remain q now v
  step-Remain q (peeks_all now limit) v = expire-Remain q now v
  step-Remain q (summarizes now) v = expire-Remain q now v
  step-Remain q (marks_attempted now ss) v =
      Remain-same q (step J q (marks_attempted now ss)) v
        (sequences_alike (attempt_row now ss) (λ r. ground arith) q.rows)
  step-Remain q (marks_uncertain now) v =
      Remain-same q (step J q (marks_uncertain now)) v
        (sequences_alike (uncertain_row now) (λ r. refl) q.rows)
  step-Remain q (acknowledges (negsuc n)) v = Remain-same q q v refl
  step-Remain q (acknowledges (pos s)) v = acknowledge-Remain q s
  step-Remain q (synchronizes (negsuc n)) v = Remain-same q q v refl
  step-Remain q (synchronizes (pos s)) v = synchronize-Remain q s
  step-Remain q (ensures_next s) v = ensure-Remain q s v
  step-Remain q marks_reconciled v = Remain-same q (step J q marks_reconciled) v refl
  step-Remain q reopens v =
      Remain-same q (step J q reopens) v (sequences_alike replay_row (λ r. ground arith) q.rows)
