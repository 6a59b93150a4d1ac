-- ===== src/Runtime/Waiting.antt =====
-- `_call_while_core_unavailable` and its tests in runtime.py.
use zediot_hub_connector.Common.{
  All, All-map, Bool, List, Option, [], ap, arith, false, if◌then◌else◌, leb, length, max, min,
  none, not, refl, some, suc, true, ℕ, ◌*◌, ◌++◌, ◌+◌, ◌==◌, ◌||◌, ◌∷◌, ◌≡◌, ◌≤◌,
}

-- The errors that the tests tell apart: an `httpx.TransportError`, a status, or another one.
pub data Fault : Type 0 where
  transport : Fault
  status : ℕ → Fault
  other_fault : Fault

unfoldable pub core_temporarily_unavailable : Fault → Bool
core_temporarily_unavailable transport = true
core_temporarily_unavailable (status code) = leb 500 code || code == 429
core_temporarily_unavailable other_fault = false

-- In milliseconds; a number that Core sends below 0 counts as 0.
unfoldable pub lease_conflict_wait : Option ℕ → ℕ
lease_conflict_wait none = 30_000
lease_conflict_wait (some retry_after) = min (retry_after + 1_000) 600_000

-- One run of the action: its result, or an error and whether the stop event is set by the end of
-- the wait behind it.
pub data Attempt (A : Type 0) : Type 0 where
  done : A → Attempt A
  faulted : Fault → Bool → Attempt A

-- `(True, …)`, `(False, None)`, the exception, or no end within the attempts that are given.
pub data Ended (A : Type 0) : Type 0 where
  completed : A → Ended A
  stopped : Ended A
  raised_fault : Fault → Ended A
  still_waiting : Ended A

module _ {A : Type 0} where
  -- The loop, along the attempts that the world gives, with the waits that were made; times are in
  -- milliseconds.
  unfoldable pub call_while_core_unavailable : ℕ → List (Attempt A) → List ℕ × Ended A
  unfolding core_temporarily_unavailable
  call_while_core_unavailable delay [] = ([], still_waiting)
  call_while_core_unavailable delay (done a ∷ attempts) = ([], completed a)
  call_while_core_unavailable delay (faulted fault stop ∷ attempts) =
      let (waits, ended) = call_while_core_unavailable (min (delay * 2) 60_000) attempts in
      if not (core_temporarily_unavailable fault)
      then ([], raised_fault fault)
      else if stop
      then (delay ∷ [], stopped)
      else (delay ∷ waits, ended)

  -- An attempt that is tried again.
  abbrev pub IsTransient : Attempt A → Type 0
  IsTransient (done a) = ⊥
  IsTransient (faulted fault stop) = (core_temporarily_unavailable fault ≡ true) × (stop ≡ false)

  -- However long the core is unavailable and while no stop is asked for, the first answer is
  -- returned, after one wait for each failed attempt, none longer than the first delay or 60
  -- seconds.
  pub call_returns :
      (delay : ℕ) (failing rest : List (Attempt A)) (a : A)
      → All IsTransient failing
      → let (waits, ended) = call_while_core_unavailable delay (failing ++ done a ∷ rest) in
        (ended ≡ completed a)
        × (length waits ≡ length failing)
        × All (λ w. w ≤ max delay 60_000) waits
  unfolding call_while_core_unavailable
  call_returns delay [] rest a h = (refl, refl, tt)
  call_returns delay (done b ∷ failing) rest a h = absurd h.0
  call_returns delay (faulted fault stop ∷ failing) rest a h =
      let (x, y, z) = call_returns (min (delay * 2) 60_000) failing rest a h.1 in
      rw (h.0.0, h.0.1)
        (
          x,
          ap suc y,
          (
            omega arith,
            All-map (λ w. w ≤ max (min (delay * 2) 60_000) 60_000) (λ w. w ≤ max delay 60_000)
                (λ w le. omega arith) _ z,
          ),
        )
