-- ===== src/Runtime/Batch.antt =====
-- `_contiguous_events` of runtime.py: the batch that is cut from the front of the queue.
use zediot_hub_connector.Common.{
  Bool, Bool-cases, List, Option, String, [], ap, arith, eq_iff, false, if◌then◌else◌, inl, inr,
  none, not, refl, some, true, ℕ, ◌++◌, ◌+◌, ◌==◌, ◌=ₛ◌, ◌||◌, ◌∷◌, ◌≡◌, ◌≢◌,
}
use zediot_hub_connector.Queue.{QueueItem, new}

-- `source_id in seen_source_ids`; an item without the key has the id `None`.
unfoldable pub same_id : Option String → Option String → Bool
same_id none none = true
same_id (some a) (some b) = a =ₛ b
same_id _ _ = false

unfoldable pub seen_before : Option String → List (Option String) → Bool
seen_before id [] = false
seen_before id (j ∷ ids) = same_id id j || seen_before id ids

module _ {V : Type 0} (source_event_id : V → Option String) where
  -- The loop, with the expected sequence and the ids that the batch holds.
  unfoldable pub cut_batch : ℕ → List (Option String) → List (QueueItem V) → List (QueueItem V)
  unfolding seen_before same_id
  cut_batch expected seen [] = []
  cut_batch expected seen (item ∷ items) =
      let id = source_event_id item.payload in
      let rest = cut_batch (expected + 1) (id ∷ seen) items in
      if not (item.kind =ₛ "event") || not (item.sequence == expected)
      then []
      else if seen_before id seen
      then []
      else item ∷ rest

  -- `_contiguous_events`; on no items it raises, and `flush_once` never calls it so.
  unfoldable pub contiguous_events : List (QueueItem V) → List (QueueItem V)
  unfolding cut_batch
  contiguous_events [] = []
  contiguous_events (first ∷ items) = cut_batch first.sequence [] (first ∷ items)

  -- Not one of the ids before it.
  abbrev pub IsNew : Option String → List (Option String) → Type 0
  IsNew id [] = Unit {0}
  IsNew id (j ∷ ids) = (id ≢ j) × IsNew id ids

  -- A batch: events with consecutive sequences, each under an id that none before it has.
  abbrev pub IsBatch : ℕ → List (Option String) → List (QueueItem V) → Type 0
  IsBatch n seen [] = Unit {0}
  IsBatch n seen (i ∷ items) =
      (i.kind ≡ "event")
      × (i.sequence ≡ n)
      × IsNew (source_event_id i.payload) seen
      × IsBatch (n + 1) (source_event_id i.payload ∷ seen) items

  -- With the next item the batch would be none.
  abbrev pub IsMaximal : ℕ → List (Option String) → List (QueueItem V) → List (QueueItem V) → Type 0
  IsMaximal n seen batch [] = Unit {0}
  IsMaximal n seen batch (next ∷ rest) = ¬ IsBatch n seen (batch ++ next ∷ [])

same_id-eq : (a b : Option String) → same_id a b ≡ false → a ≢ b
unfolding same_id
same_id-eq none none h = cc
same_id-eq (some a) (some b) h = ground (arith, eq_iff a b)
same_id-eq none (some b) h = λ e. cc
same_id-eq (some a) none h = λ e. cc

same_id-true : (a b : Option String) → same_id a b ≡ true → a ≡ b
unfolding same_id
same_id-true none none h = refl
same_id-true (some a) (some b) h = ground (arith, eq_iff a b)
same_id-true none (some b) h = cc
same_id-true (some a) none h = cc

module _ {V : Type 0} (source_event_id : V → Option String) where
  seen-not-IsNew :
      (id : Option String) (seen : List (Option String))
      → seen_before id seen ≡ true
      → ¬ IsNew source_event_id id seen
  unfolding seen_before
  seen-not-IsNew id [] h n = cc
  seen-not-IsNew id (j ∷ ids) h n = ground (arith, same_id-true id j, seen-not-IsNew id ids)

  seen_before-IsNew :
      (id : Option String) (seen : List (Option String))
      → seen_before id seen ≡ false
      → IsNew source_event_id id seen
  unfolding seen_before
  seen_before-IsNew id [] h = tt
  seen_before-IsNew id (j ∷ ids) h = ground (arith, same_id-eq id j, seen_before-IsNew id ids)

  cut_batch-IsBatch :
      (n : ℕ) (seen : List (Option String)) (items : List (QueueItem V))
      → IsBatch source_event_id n seen (cut_batch source_event_id n seen items)
  unfolding cut_batch
  cut_batch-IsBatch n seen [] = tt
  cut_batch-IsBatch n seen (i ∷ items) = ground (
    arith,
    eq_iff i.kind "event",
    seen_before-IsNew (source_event_id i.payload) seen,
    cut_batch-IsBatch (n + 1) (source_event_id i.payload ∷ seen) items,
  )

  -- The rest of the queue behind a batch, and why it is not in the batch.
  abbrev pub Rest : ℕ → List (Option String) → List (QueueItem V) → List (QueueItem V) → Type 0
  Rest n seen batch items =
      (rest : List (QueueItem V)) × (items ≡ batch ++ rest)
      × IsMaximal source_event_id n seen batch rest

  Rest-cons :
      (n : ℕ) (seen : List (Option String)) (i : QueueItem V) (batch items : List (QueueItem V))
      → Rest (n + 1) (source_event_id i.payload ∷ seen) batch items
      → Rest n seen (i ∷ batch) (i ∷ items)
  Rest-cons n seen i batch items (rest, e, m) = (rest, ap (◌∷◌ i) e, maximal rest m)
    where
      maximal :
          (r : List (QueueItem V))
          → IsMaximal source_event_id (n + 1) (source_event_id i.payload ∷ seen) batch r
          → IsMaximal source_event_id n seen (i ∷ batch) r
      maximal [] k = tt
      maximal (next ∷ r) k = λ b. k b.3

  cut_batch-Rest :
      (n : ℕ) (seen : List (Option String)) (items : List (QueueItem V))
      → Rest n seen (cut_batch source_event_id n seen items) items
  unfolding cut_batch
  cut_batch-Rest n seen [] = ([], refl, tt)
  cut_batch-Rest n seen (i ∷ items) =
      elim (Bool-cases (not (i.kind =ₛ "event") || not (i.sequence == n))) [
        | inl wrong ↦ rw wrong (i ∷ items, refl, λ b. ground (arith, eq_iff i.kind "event"))
        | inr right ↦ elim (Bool-cases (seen_before (source_event_id i.payload) seen)) [
          | inl old ↦
              rw (right, old)
                (i ∷ items, refl, λ b. seen-not-IsNew (source_event_id i.payload) seen old b.2)
          | inr new ↦
              rw (right, new)
                (Rest-cons n seen i _ items
                  (cut_batch-Rest (n + 1) (source_event_id i.payload ∷ seen) items))
        ]
      ]

  -- The batch is a run of events from the first item on, with consecutive sequences and no source
  -- event id twice; the queue's front is the batch followed by the rest; and with the first item of
  -- the rest it would be no batch.
  pub contiguous_events-IsBatch :
      (first : QueueItem V) (items : List (QueueItem V))
      → let batch = contiguous_events source_event_id (first ∷ items) in
        IsBatch source_event_id first.sequence [] batch
        × Rest first.sequence [] batch (first ∷ items)
  unfolding contiguous_events
  contiguous_events-IsBatch first items = (
    cut_batch-IsBatch first.sequence [] (first ∷ items),
    cut_batch-Rest first.sequence [] (first ∷ items),
  )

  -- If the first item is an event it is in the batch, so that each upload makes progress.
  pub contiguous_events-first :
      (first : QueueItem V) (items : List (QueueItem V))
      → first.kind ≡ "event"
      → (more : List (QueueItem V)) × (contiguous_events source_event_id (first ∷ items)
          ≡ first ∷ more)
  unfolding contiguous_events
  contiguous_events-first first items h = (
    cut_batch source_event_id (first.sequence + 1) (source_event_id first.payload ∷ []) items,
    ground (arith, eq_iff first.kind "event"),
  )
