-- ===== src/Runtime/Sends.antt =====
-- The messages that the two uploads of runtime.py send, and which of them are marked as replays.
use mathlib.Core.Option.{some_inj}
use zediot_hub_connector.Common.{
  Bool, Bool-cases, List, Option, String, [], ap, arith, dec_lt, eq_iff, false, inl, inr, ltb,
  ltb→lt, lt→ltb, map, none, refl, some, true, ℕ, ℤ, ◌<◌, ◌||◌, ◌↔◌, ◌∙◌, ◌∷◌, ◌≡◌, ◌≤◌, ◌⊎◌,
}
use zediot_hub_connector.Queue.{Json, QueueItem}
use zediot_hub_connector.Reliability.{CircuitPermit}
use zediot_hub_connector.Reliability.Retry.{Ending, failed, finished, invalid_attempts, unreachable}
use zediot_hub_connector.Runtime.State.{Config, Core, CoreError, Keys, Upload, events, snapshot}
use zediot_hub_connector.Runtime.Flush.{
  Runtime, any_replay, conclude, deliver, events_make, flush_batch, flush_snapshot, is_replay_text,
  last_sequence, max_attempts_of, record_failure, sequences_of, snapshot_make,
}
use zediot_hub_connector.Runtime.Attempts.{attempts_on, deliver_sends}

-- `a || 0 < n` in both directions.
replay_iff : (a : Bool) (n : ℕ) → ((a || ltb 0 n) ≡ true) ↔ ((a ≡ true) ⊎ (0 < n))
replay_iff true n = (λ _. inl refl, λ _. refl)
replay_iff false n =
    (λ h. inr (ltb→lt 0 n h), λ h. elim h [ inl e ↦ absurd cc | inr lt ↦ lt→ltb 0 n lt ])

is_replay_text_iff : (o : Option String) → (is_replay_text o ≡ true) ↔ (o ≡ some "replay")
unfolding is_replay_text
is_replay_text_iff none = (λ h. absurd cc, λ h. absurd cc)
is_replay_text_iff (some mode) =
    (λ h. ap some ((eq_iff mode "replay").0 h), λ h. (eq_iff mode "replay").1 (some_inj.0 h))

module _ {V : Type 0} (K : Keys V) where
  -- An event was queued as a replay, by either of its two keys, or its row was attempted before.
  abbrev pub WasReplay : QueueItem V → Type 0
  WasReplay i =
      (K.delivery_mode i.payload ≡ some "replay")
      ⊎ (K.is_replay i.payload ≡ true)
      ⊎ (0 < i.delivery_attempts)

  abbrev pub AnyReplay : List (QueueItem V) → Type 0
  AnyReplay [] = ⊥
  AnyReplay (i ∷ items) = WasReplay i ⊎ AnyReplay items

  abbrev flag : List (QueueItem V) → Bool
  flag items = any_replay K items || ltb 0 (max_attempts_of items)

  flag-AnyReplay : (items : List (QueueItem V)) → flag items ≡ true → AnyReplay items
  unfolding any_replay max_attempts_of
  flag-AnyReplay [] h = absurd cc
  flag-AnyReplay (i ∷ items) h = elim (Bool-cases (is_replay_text (K.delivery_mode i.payload))) [
    | inl y ↦ inl (inl ((is_replay_text_iff (K.delivery_mode i.payload)).0 y))
    | inr n ↦ elim (Bool-cases (K.is_replay i.payload)) [
      | inl y ↦ inl (inr (inl y))
      | inr m ↦ elim (dec_lt 0 i.delivery_attempts) [
        | yes lt ↦ inl (inr (inr lt))
        | no zero_there ↦ inr (flag-AnyReplay items (ground arith))
      ]
    ]
  ]

  AnyReplay-flag : (items : List (QueueItem V)) → AnyReplay items → flag items ≡ true
  unfolding any_replay max_attempts_of
  AnyReplay-flag [] h = absurd h
  AnyReplay-flag (i ∷ items) (inl (inl e)) =
      rw ((is_replay_text_iff (K.delivery_mode i.payload)).1 e) refl
  AnyReplay-flag (i ∷ items) (inl (inr (inl e))) = ground arith
  AnyReplay-flag (i ∷ items) (inl (inr (inr lt))) = ground arith
  AnyReplay-flag (i ∷ items) (inr rest) = ground (arith, AnyReplay-flag items rest)

module _ (J : Json) (K : Keys J.Value) (C : Core J.Value) (config : Config) where
  -- From one to `retry_max_attempts` messages are sent, each built by `make`: the first with a flag
  -- that says whether `replay` holds, and each later one with true.
  abbrev pub Sends :
      (Bool → Upload J.Value) → Type 0 → Runtime J K C config → Runtime J K C config → Type 0
  Sends make replay s s' =
      (first : Bool) × ((first ≡ true) ↔ replay)
      × (n : ℕ) × (1 ≤ n)
      × (n ≤ config.retry_max_attempts)
      × (s'.sent ≡ attempts_on make first n s.sent)

  conclude-sent :
      (permit : CircuitPermit) (p : Ending (Option ℤ) CoreError × (Runtime J K C config × ℕ))
      → (conclude J K C config permit p).1.sent ≡ p.1.0.sent
  unfolding conclude record_failure
  conclude-sent permit (finished none, (s, a)) = refl
  conclude-sent permit (finished (some c), (s, a)) = refl
  conclude-sent permit (failed e, (s, a)) = refl
  conclude-sent permit (invalid_attempts, (s, a)) = refl
  conclude-sent permit (unreachable, (s, a)) = refl

  module _ (tries : 1 ≤ config.retry_max_attempts) (permit : CircuitPermit) where
    deliver-Sends :
        (make : Bool → Upload J.Value) (ss : List ℕ) (queued : Bool) (a : ℕ) (replay : Type 0)
        (s : Runtime J K C config)
        → ((queued || ltb 0 a) ≡ true) ↔ replay
        → Sends make replay s
            (conclude J K C config permit (deliver J K C config make ss queued (s, a))).1
    deliver-Sends make ss queued a replay s iff =
        let d = deliver J K C config make ss queued (s, a) in
        let ((n, least_one, most, sent), _, _) =
          deliver_sends J K C config make ss queued s a tries in
        (queued || ltb 0 a, iff, n, least_one, most, conclude-sent permit d ∙ sent)

    -- With at least one attempt allowed, the upload of a batch of events sends from one to
    -- `retry_max_attempts` messages, whatever the core answers. Each holds the payloads of all the
    -- events under their sequences. The first is marked as a replay exactly when one of the events
    -- was queued as a replay, by either of its two keys, or its row was attempted before, and each
    -- later message is marked so.
    pub flush_batch-Sends :
        (b : QueueItem J.Value) (batch : List (QueueItem J.Value)) (s : Runtime J K C config)
        → Sends
            (λ replay.
              events b.sequence
                (last_sequence b.sequence batch)
                (map (λ i. (i.sequence, i.payload)) (b ∷ batch))
                replay)
            (AnyReplay K (b ∷ batch))
            s
            (flush_batch J K C config permit (b ∷ batch) s).1
    unfolding flush_batch events_make last_sequence
    flush_batch-Sends b batch s =
        deliver-Sends (events_make J K C config (b ∷ batch) b.sequence) (sequences_of (b ∷ batch))
          (any_replay K (b ∷ batch)) (max_attempts_of (b ∷ batch)) (AnyReplay K (b ∷ batch)) s
          (flag-AnyReplay K (b ∷ batch), AnyReplay-flag K (b ∷ batch))

    -- With at least one attempt allowed, the upload of a snapshot sends from one to
    -- `retry_max_attempts` messages with its payload under its sequence, whatever the core answers.
    -- The first is marked as a replay exactly when the `delivery_mode` of the payload is "replay" or
    -- its row was attempted before, and each later message is marked so.
    pub flush_snapshot-Sends :
        (first : QueueItem J.Value) (s : Runtime J K C config)
        → Sends
            (snapshot first.sequence first.payload)
            ((K.delivery_mode first.payload ≡ some "replay") ⊎ (0 < first.delivery_attempts))
            s
            (flush_snapshot J K C config permit first s).1
    unfolding flush_snapshot snapshot_make
    flush_snapshot-Sends first s =
        let mode = K.delivery_mode first.payload in
        let text = is_replay_text_iff mode in
        let either = replay_iff (is_replay_text mode) first.delivery_attempts in
        deliver-Sends (snapshot_make J K C config first) (first.sequence ∷ []) (is_replay_text mode)
          first.delivery_attempts ((mode ≡ some "replay") ⊎ (0 < first.delivery_attempts)) s
          (
            λ h. elim (either.0 h) [ inl y ↦ inl (text.0 y) | inr lt ↦ inr lt ],
            λ h. either.1 (elim h [ inl e ↦ inl (text.1 e) | inr lt ↦ inr lt ]),
          )
