-- ===== src/Runtime/Attempts.antt =====
-- What an upload of runtime.py sends and leaves in the queue, attempt by attempt.
use mathlib.Core.Path.{ap₂}
use native.Mathlib.Nat.{add-zero}
use zediot_hub_connector.Common.{
  All, Bool, List, Option, [], ap, arith, false, ltb, map, refl, subst, suc, sym, true, zero, ℕ, ℤ,
  ◌+◌, ◌||◌, ◌∙◌, ◌∷◌, ◌≡◌, ◌≤◌,
}
use zediot_hub_connector.Queue.{
  Json, Queue, Row, attempt_row, mark_delivery_attempted, mark_pending_delivery_uncertain,
  uncertain_row,
}
use zediot_hub_connector.Queue.Replay.{
  IsAttempted-IsStamped, IsStamped, attempted-IsStamped, pending-IsAttempted,
}
use zediot_hub_connector.Reliability.Retry.{
  Outcome, Tried, Tried-finished, Tried-keeps, finished, raised, retry_bounded-Tried,
  retry_bounded_count, returned,
}
use zediot_hub_connector.Runtime.State.{Config, Core, CoreError, Keys, State, Upload}
use zediot_hub_connector.Runtime.Flush.{
  Runtime, after_upload, deliver, retryable_core_error, sleep_for, transmit, upload_once,
}

abbrev pub sequences : {T : Type 0} → Queue T → List ℕ
sequences q = map (λ r. r.sequence) q.rows

sequences_map :
    {T : Type 0} (f : Row T → Row T)
    → ((r : Row T) → (f r).sequence ≡ r.sequence)
    → (rows : List (Row T)) → map (λ r. r.sequence) (map f rows) ≡ map (λ r. r.sequence) rows
sequences_map f same [] = refl
sequences_map f same (r ∷ rows) = ap₂ ◌∷◌ (same r) (sequences_map f same rows)

sequences-attempted :
    {T : Type 0} (q : Queue T) (t : ℕ) (ss : List ℕ)
    → sequences (mark_delivery_attempted q t ss) ≡ sequences q
unfolding mark_delivery_attempted attempt_row
sequences-attempted q t ss = sequences_map (attempt_row t ss) (λ r. ground arith) q.rows

sequences-pending :
    {T : Type 0} (q : Queue T) (t : ℕ)
    → sequences (mark_pending_delivery_uncertain q t) ≡ sequences q
unfolding mark_pending_delivery_uncertain uncertain_row
sequences-pending q t = sequences_map (uncertain_row t) (λ r. refl) q.rows

-- The messages of `n` attempts on top of the earlier ones, newest first: the first is marked as
-- given, each later one as a replay.
abbrev pub attempts_on :
    {V : Type 0} → (Bool → Upload V) → Bool → ℕ → List (Upload V) → List (Upload V)
attempts_on make first zero old = old
attempts_on make first (suc zero) old = make first ∷ old
attempts_on make first (suc (suc n)) old = make true ∷ attempts_on make first (suc n) old

later_replay : (b : Bool) (a n : ℕ) → (b || ltb 0 (a + suc n)) ≡ true
later_replay true a n = refl
later_replay false a n = ground arith

-- What every attempt keeps: the queued sequences, the breaker and the session; and what a queue of
-- stamped rows stays.
abbrev pub Same : {T V W : Type 0} → State T V W → State T V W → Type 0
Same s s' =
    (sequences s'.queue ≡ sequences s.queue)
    × (s'.breaker ≡ s.breaker)
    × (All IsStamped s.queue.rows → All IsStamped s'.queue.rows)

module _ (J : Json) (K : Keys J.Value) (C : Core J.Value) (config : Config) where
  -- The core has answered so to the last message that is sent.
  abbrev pub Answered : Option ℤ → Runtime J K C config → Type 0
  Answered v s =
      (w : C.World) × (message : Upload J.Value) × (older : List (Upload J.Value)) × ((C.upload w
          message).0
        ≡ returned v)
      × (s.sent ≡ message ∷ older)

  after_upload-Same :
      (r : Outcome (Option ℤ) CoreError) (s : Runtime J K C config) (a : ℕ)
      → let p = after_upload J K C config r s a in
        Same s p.1.0 × (p.1.0.sent ≡ s.sent) × (p.1.1 ≡ a + 1)
  unfolding after_upload
  after_upload-Same (returned c) s a = ((refl, refl, λ h. h), refl, refl)
  after_upload-Same (raised e) s a = (
    (
      sequences-pending s.queue _,
      refl,
      λ h. IsAttempted-IsStamped _ (pending-IsAttempted s.queue _ h),
    ),
    refl,
    refl,
  )

  transmit-Same :
      (message : Upload J.Value) (ss : List ℕ) (s : Runtime J K C config)
      → let p = transmit J K C config message ss s in Same s p.1 × (p.1.sent ≡ message ∷ s.sent)
  unfolding transmit
  transmit-Same message ss s =
      ((sequences-attempted s.queue _ ss, refl, λ h. attempted-IsStamped s.queue _ ss h), refl)

  module _ (make : Bool → Upload J.Value) (ss : List ℕ) (queued : Bool) where
    op : Runtime J K C config × ℕ → Outcome (Option ℤ) CoreError × (Runtime J K C config × ℕ)
    op = upload_once J K C config make ss queued

    op-Same :
        (s : Runtime J K C config) (a : ℕ)
        → Same s (op (s, a)).1.0
          × ((op (s, a)).1.0.sent ≡ make (queued || ltb 0 a) ∷ s.sent)
          × ((op (s, a)).1.1 ≡ a + 1)
    unfolding op upload_once
    op-Same s a =
        let t = transmit J K C config (make (queued || ltb 0 a)) ss s in
        let (x, y) = transmit-Same (make (queued || ltb 0 a)) ss s in
        let (u, v, w) = after_upload-Same t.0 t.1 a in
        ((u.0 ∙ x.0, u.1 ∙ x.1, λ h. u.2 (x.2 h)), v ∙ y, w)

    module _ (s₀ : Runtime J K C config) (a₀ : ℕ) where
      -- After `n` attempts.
      abbrev Progress : Runtime J K C config × ℕ → Type 0
      Progress (s, a) =
          Same s₀ s
          × ((n : ℕ) × (a ≡ a₀ + n) × (s.sent ≡ attempts_on make (queued || ltb 0 a₀) n s₀.sent))

      Progress-start : Progress (s₀, a₀)
      Progress-start = ((refl, refl, λ h. h), (zero, omega arith, refl))

      Progress-sent :
          (n : ℕ) (old : List (Upload J.Value))
          → make (queued || ltb 0 (a₀ + n)) ∷ attempts_on make (queued || ltb 0 a₀) n old
            ≡ attempts_on make (queued || ltb 0 a₀) (suc n) old
      Progress-sent zero old = rw (add-zero a₀)
      Progress-sent (suc n) old = rw (later_replay queued a₀ n)

      Progress-op : (p : Runtime J K C config × ℕ) → Progress p → Progress (op p).1
      Progress-op (s, a) (same, (n, e, h)) =
          let (x, y, z) = op-Same s a in
          (
            (x.0 ∙ same.0, x.1 ∙ same.1, λ k. x.2 (same.2 k)),
            (
              suc n,
              omega (arith, e, z),
              y
                  ∙ ap₂ (λ (k : ℕ) (l : List (Upload J.Value)). make (queued || ltb 0 k) ∷ l) e h
                  ∙ Progress-sent n s₀.sent,
            ),
          )

      Progress-sleep :
          (d : ℕ) (p : Runtime J K C config × ℕ)
          → Progress p
          → Progress (sleep_for J K C config d p)
      unfolding sleep_for
      Progress-sleep d (s, a) h = h

      pub deliver_sends :
          1 ≤ config.retry_max_attempts
          → let s = (deliver J K C config make ss queued (s₀, a₀)).1.0 in
            ((n : ℕ) × (1 ≤ n)
              × (n ≤ config.retry_max_attempts)
              × (s.sent ≡ attempts_on make (queued || ltb 0 a₀) n s₀.sent))
            × (sequences s.queue ≡ sequences s₀.queue)
            × (s.breaker ≡ s₀.breaker)
      unfolding deliver op sleep_for
      deliver_sends h =
          let tried =
            retry_bounded-Tried op retryable_core_error (sleep_for J K C config) C.random
              config.retry_max_attempts config.retry_base (s₀, a₀) h in
          let (same, (n, e, sent)) =
            Tried-keeps op retryable_core_error (sleep_for J K C config) C.random
              config.retry_max_attempts config.retry_base Progress Progress-op Progress-sleep tried
              Progress-start in
          let bounds =
            retry_bounded_count op retryable_core_error (sleep_for J K C config) C.random
              config.retry_max_attempts config.retry_base (λ p. p.1) (λ p. (op-Same p.0 p.1).2)
              (λ d p. refl) (s₀, a₀) h in
          ((n, omega (arith, bounds, e), omega (arith, bounds, e), sent), same.0, same.1)

      after_upload-returned :
          (r : Outcome (Option ℤ) CoreError) (s : Runtime J K C config) (a : ℕ) (v : Option ℤ)
          → (after_upload J K C config r s a).0 ≡ returned v
          → r ≡ returned v
      unfolding after_upload
      after_upload-returned (returned c) s a v h = h
      after_upload-returned (raised e) s a v h = h

      op-returned :
          (s : Runtime J K C config) (a : ℕ) (v : Option ℤ)
          → (op (s, a)).0 ≡ returned v
          → (C.upload (C.now s.world).1 (make (queued || ltb 0 a))).0 ≡ returned v
      unfolding op upload_once transmit
      op-returned s a v h =
          let (r, s') = transmit J K C config (make (queued || ltb 0 a)) ss s in
          after_upload-returned r s' a v h

      -- An upload that ends with a result ends with what the core answers to its last message.
      pub deliver_answers :
          1 ≤ config.retry_max_attempts
          → (v : Option ℤ) → (deliver J K C config make ss queued (s₀, a₀)).0 ≡ finished v
          → Answered v (deliver J K C config make ss queued (s₀, a₀)).1.0
      unfolding deliver op
      deliver_answers h v e =
          let tried =
            retry_bounded-Tried op retryable_core_error (sleep_for J K C config) C.random
              config.retry_max_attempts config.retry_base (s₀, a₀) h in
          let ended =
            subst
              (λ r.
                Tried op retryable_core_error (sleep_for J K C config) C.random
                  config.retry_max_attempts config.retry_base 1 (s₀, a₀) r
                  (deliver J K C config make ss queued (s₀, a₀)).1)
              e tried in
          let ((s, a), _, o) =
            Tried-finished op retryable_core_error (sleep_for J K C config) C.random
              config.retry_max_attempts config.retry_base (λ _. Unit {0}) (λ _ _. tt) (λ _ _ _. tt)
              ended tt in
          (
            (C.now s.world).1,
            make (queued || ltb 0 a),
            s.sent,
            op-returned s a v (ap (λ p. p.0) o),
            sym (ap (λ p. p.1.0.sent) o) ∙ (op-Same s a).1,
          )
