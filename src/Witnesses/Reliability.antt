-- ===== src/Witnesses/Reliability.antt =====
-- A breaker that opens at two failures and recovers in ten units of time.
use zediot_hub_connector.Common.{
  Bool, [], arith, false, if◌then◌else◌, leb, none, refl, some, true, ℕ, ◌++◌, ◌+◌, ◌∷◌, ◌≡◌, ◌≤◌,
}
use zediot_hub_connector.Reliability.{
  CircuitBreaker, CircuitPermit, allow, allow_in, allow_probe, allows, fails, half_open, open_, run,
  step, succeeds, success,
}
use zediot_hub_connector.Reliability.States.{NoneEnds, one_probe}
use zediot_hub_connector.Reliability.Stale.{success_after_failure}
use zediot_hub_connector.Reliability.Retry.{
  Outcome, Tried, raised, retry_bounded, retry_bounded-Tried, retry_bounded_count, returned,
}

abbrev opened : CircuitBreaker
opened = record {
  failure_threshold = 2;
  recovery_seconds = 10;
  state = open_;
  failure_count = 2;
  opened_at = some 5;
  generation = 2;
}

abbrev probing : CircuitBreaker
probing = record opened { state = half_open }

abbrev probe_permit : CircuitPermit
probe_permit = record { generation = 2; half_open_probe = true }

probe_granted : (allow opened 15).1 ≡ some probe_permit
unfolding allow allow_in allow_probe
probe_granted = refl

none_ends :
    NoneEnds
      (allow opened 15).0
      (allows 16 ∷ succeeds (record { generation = 1; half_open_probe = false }) ∷ [])
unfolding allow allow_in allow_probe step success
none_ends = (λ e. e, (λ e. absurd (omega arith), tt))

one_probe_example :
    (allow
      (run
        (allow opened 15).0
        (allows 16 ∷ succeeds (record { generation = 1; half_open_probe = false }) ∷ []))
      99).1
    ≡ none
one_probe_example =
    one_probe opened 15 99
      (allows 16 ∷ succeeds (record { generation = 1; half_open_probe = false }) ∷ []) probe_granted
      refl none_ends

success_after_failure_example :
    let c = run (allow opened 15).0 ((allows 16 ∷ []) ++ fails 17 ∷ allows 18 ∷ []) in
    success c probe_permit ≡ (c, false)
success_after_failure_example =
    success_after_failure opened 15 17 (allows 16 ∷ []) (allows 18 ∷ []) probe_granted

-- An operation that fails until its third call.
abbrev third : ℕ → Outcome ℕ Bool × ℕ
third n = (if leb 2 n then returned n else raised true, n + 1)

abbrev keep : ℕ → ℕ → ℕ
keep d n = n

retry_bounded-Tried_example :
    Tried third
      (λ e. e)
      keep
      (λ _. 0)
      5
      100
      1
      0
      (retry_bounded third (λ e. e) keep (λ _. 0) 5 100 0).0
      (retry_bounded third (λ e. e) keep (λ _. 0) 5 100 0).1
retry_bounded-Tried_example = retry_bounded-Tried third (λ e. e) keep (λ _. 0) 5 100 0 (omega arith)

retry_bounded_count_example :
    let n = (retry_bounded third (λ e. e) keep (λ _. 0) 5 100 0).1 in (0 + 1 ≤ n) × (n ≤ 0 + 5)
retry_bounded_count_example =
    retry_bounded_count third (λ e. e) keep (λ _. 0) 5 100 (λ n. n) (λ n. refl) (λ d n. refl) 0
      (omega arith)
