-- ===== src/Runtime/Outcomes.antt =====
-- What `flush_once` of runtime.py leaves of the queue and does to the breaker, however it ends.
use zediot_hub_connector.Common.{List, [], false, some, true, ℕ, ◌*◌, ◌+◌, ◌<◌, ◌∷◌, ◌≡◌, ◌⊎◌}
use zediot_hub_connector.Queue.{Json, Queue, Row, acknowledge_through}
use zediot_hub_connector.Runtime.State.{Config, Core, Keys}
use zediot_hub_connector.Runtime.Flush.{Flushed, Runtime, returns}
use zediot_hub_connector.Runtime.Attempts.{Answered, sequences}

-- A row is older than an age at a time.
abbrev pub Stale : {T : Type 0} → ℕ → ℕ → List (Row T) → Type 0
Stale age time [] = ⊥
Stale age time (r ∷ rows) = (r.created_at + age < time) ⊎ Stale age time rows

module _ (J : Json) (K : Keys J.Value) (C : Core J.Value) (config : Config) where
  -- At a time that the clock has told, a row was older than the maximum age.
  abbrev pub Lapses : Queue J.Encoded → Type 0
  Lapses q = (w : C.World) × Stale (q.max_age_seconds * 1_000_000) (C.now w).0 q.rows

  -- All sequences are still queued, or the queue has expired.
  abbrev pub Kept : Queue J.Encoded → Queue J.Encoded → Type 0
  Kept q q' = (sequences q' ≡ sequences q) ⊎ ((sequences q' ≡ []) × Lapses q)

  -- What a flush from one state does, by its result. On `True` the cursor that the core has answered
  -- to the last message is acknowledged on a queue that had lost no sequence but by its expiry; else
  -- none is lost but by an expiry. An exception counts as one failure of the breaker, a result as
  -- none.
  abbrev pub Leaves : Runtime J K C config → Flushed → Runtime J K C config → Type 0
  Leaves s (returns true) s' =
      ((q : Queue J.Encoded) × Kept s.queue q × (s'.queue ≡ acknowledge_through q s'.cursor))
      × Answered J K C config (some s'.cursor) s'
      × (s'.breaker.generation ≡ s.breaker.generation)
  Leaves s (returns false) s' =
      Kept s.queue s'.queue × (s'.breaker.generation ≡ s.breaker.generation)
  Leaves s _ s' = Kept s.queue s'.queue × (s'.breaker.generation ≡ s.breaker.generation + 1)

  abbrev From : Runtime J K C config → Runtime J K C config → Type 0
  From s s' = Kept s.queue s'.queue × (s'.breaker.generation ≡ s.breaker.generation)

  -- Before an upload: the queue is as it was, or it has expired.
  abbrev Read : Runtime J K C config → Runtime J K C config → Type 0
  Read s s' =
      ((s'.queue ≡ s.queue) ⊎ ((s'.queue.rows ≡ []) × Lapses s.queue))
      × (s'.breaker.generation ≡ s.breaker.generation)

  abbrev Flush : Runtime J K C config → Flushed × Runtime J K C config → Type 0
  Flush s p = Leaves s p.0 p.1
