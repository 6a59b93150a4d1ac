-- ===== src/Witnesses/Queue.antt =====
-- A queue of numbers, each of which takes as many bytes as it says.
use zediot_hub_connector.Common.{
  All, List, [], arith, false, length, pos, refl, some, suc, true, ℕ, ◌*◌, ◌++◌, ◌+◌, ◌<◌, ◌↔◌, ◌∷◌,
  ◌≡◌, ◌≤◌, ◌⊎◌,
}
use zediot_hub_connector.Queue.{
  IsJson, Json, Queue, enqueue, enqueue_fresh, expire_stale_queue, expired, initialize,
  insert_or_ignore, insert_row, mark_pending_delivery_uncertain, metadata_int, new, new_item,
  new_row, next_of, overflows, peek_all, set_metadata, synchronize, total_bytes,
}
use zediot_hub_connector.Queue.Step.{Call, acknowledges, enqueues, marks_attempted, run, step}
use zediot_hub_connector.Queue.Rows.{StartsAt, count_passed, rows_above}
use zediot_hub_connector.Queue.Invariant.{IsValid}
use zediot_hub_connector.Queue.Enqueue.{
  IsYoung, appended, enqueue_outcome, peek_all-enqueue, refused,
}
use zediot_hub_connector.Queue.History.{
  IsContiguous, new-IsValid, run-new-IsContiguous, run-new-IsValid,
}
use zediot_hub_connector.Queue.Cursor.{synchronize_gap}
use zediot_hub_connector.Queue.Remaining.{Remain}
use zediot_hub_connector.Queue.Accounting.{Accounts, step-Accounts}
use zediot_hub_connector.Queue.Replay.{IsAttempted, run-new-IsAttempted}

abbrev pub numbers : Json
numbers = record { Value = ℕ; Encoded = ℕ; dumps = λ n. n; loads = λ n. n; byte_length = λ n. n }

abbrev pub numbers-IsJson : IsJson numbers
numbers-IsJson = record { loads-dumps = λ n. refl }

abbrev empty_queue : Queue ℕ
empty_queue = new 10 60

abbrev calls : List (Call numbers)
calls =
    enqueues 1_000_000 "event" 4
    ∷ enqueues 2_000_000 "event" 5
    ∷ enqueues 3_000_000 "event" 6
    ∷ marks_attempted 4_000_000 (1 ∷ [])
    ∷ acknowledges (pos 1)
    ∷ []

abbrev used : Queue ℕ
used = run numbers empty_queue calls

run-new-IsValid_example : IsValid used
run-new-IsValid_example = run-new-IsValid numbers 10 60 calls

run-new-IsContiguous_example : IsContiguous used
run-new-IsContiguous_example =
    run-new-IsContiguous numbers 10 60 calls (tt, (tt, (tt, (tt, (tt, tt)))))

step-Accounts_example :
    let q' = step numbers used (acknowledges (pos 1)) in
    Accounts used q' 0 (count_passed 1 used.rows) × Remain 1 [] used q'
step-Accounts_example =
    step-Accounts numbers used (acknowledges (pos 1)) (run-new-IsValid numbers 10 60 calls)

enqueue_outcome_example :
    let e = expire_stale_queue used 5_000_000 in
    ((e.max_bytes < total_bytes e.rows + 7)
      × (enqueue numbers used 5_000_000 "event" 7 ≡ some (refused numbers e 5_000_000 "event" 7)))
    ⊎ ((total_bytes e.rows + 7 ≤ e.max_bytes)
        × (enqueue numbers used 5_000_000 "event" 7 ≡ some (appended numbers e 5_000_000 "event" 7))
        × IsValid (appended numbers e 5_000_000 "event" 7).0)
enqueue_outcome_example =
    enqueue_outcome numbers used 5_000_000 "event" 7 (run-new-IsValid numbers 10 60 calls)

enqueue_empty :
    enqueue numbers empty_queue 0 "event" 4 ≡ some (appended numbers empty_queue 0 "event" 4)
unfolding enqueue enqueue_fresh expire_stale_queue expired new initialize insert_or_ignore next_of
    metadata_int set_metadata overflows total_bytes new_row new_item insert_row
enqueue_empty = refl

appended_accepted : (appended numbers empty_queue 0 "event" 4).1.accepted ≡ true
unfolding new_item
appended_accepted = refl

empty_short : length empty_queue.rows < 5
unfolding new initialize
empty_short = omega arith

empty_in_time : IsYoung numbers empty_queue 0 "event" 4 (new-IsValid 10 60) empty_queue 5_000_000
unfolding new initialize
empty_in_time = tt

empty_age : 5_000_000 ≤ 0 + empty_queue.max_age_seconds * 1_000_000
unfolding new initialize
empty_age = omega arith

peek_all-enqueue_example :
    (peek_all numbers (appended numbers empty_queue 0 "event" 4).0 5_000_000 5).1
    ≡ (peek_all numbers empty_queue 0 5).1 ++ (appended numbers empty_queue 0 "event" 4).1 ∷ []
peek_all-enqueue_example =
    peek_all-enqueue numbers empty_queue 0 "event" 4 (new-IsValid 10 60) numbers-IsJson 0 5_000_000
      5 enqueue_empty appended_accepted empty_short (omega arith) (omega arith) empty_in_time
      empty_age

synchronize_gap_example :
    ((synchronize used 1).1 ≡ false) ↔ StartsAt (suc 1) (rows_above 1 used.rows)
synchronize_gap_example = synchronize_gap used 1 (run-new-IsValid numbers 10 60 calls)

run-new-IsAttempted_example :
    All IsAttempted (initialize used).rows
    × All IsAttempted (mark_pending_delivery_uncertain used 9_000_000).rows
run-new-IsAttempted_example = run-new-IsAttempted numbers 10 60 calls 9_000_000
