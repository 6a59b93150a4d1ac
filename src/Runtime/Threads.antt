-- ===== src/Runtime/Threads.antt =====
-- The start of `run_forever` of runtime.py up to its threads: `ensure_data_plane_open`, the stop
-- event and `_runtime_threads`.
use Prim.Native.String.{◌++◌ as ◌+ₛ◌}
use zediot_hub_connector.Common.{
  Bool, List, Option, String, [], false, if◌then◌else◌, mem_text, none, not, some, ℕ, ◌++◌, ◌=ₛ◌,
  ◌||◌, ◌∷◌,
}
use zediot_hub_connector.Identity.{Codec, ready}
use zediot_hub_connector.Runtime.Bootstrap.{
  Error, Result, Runtime, Service, Settings, no_fuel, ok, raises, runtime_error, stopped_waiting,
}
use zediot_hub_connector.Runtime.Bootstrap.Prepare.{prepare}
pub mod Opening

-- `session.effective_grants & {…}`
unfoldable pub any_granted : List String → List String → Bool
any_granted [] grants = false
any_granted (g ∷ wanted) grants = mem_text g grants || any_granted wanted grants

unfoldable pub thread_when : Bool → String → List String
thread_when wanted name = if wanted then name ∷ [] else []

-- The names of the threads.
unfoldable pub runtime_threads : List String → List String
unfolding any_granted thread_when
runtime_threads grants =
    thread_when (any_granted ("state_uplink" ∷ "local_rule_runtime" ∷ []) grants) "hub-subscription"
    ++ (thread_when (any_granted ("state_uplink" ∷ "inventory_read" ∷ []) grants) "hub-upload"
        ++ (thread_when (mem_text "command_downlink" grants) "hub-command"
            ++ (thread_when (mem_text "local_rule_runtime" grants) "hub-rule"
                ++ (thread_when (mem_text "inventory_read" grants) "hub-inventory"
                    ++ ("hub-maintenance" ∷ [])))))

-- Whether a bootstrap snapshot is tried, and the threads that are started. The snapshot itself stands
-- between the two in the code and is left out; a stop during it does not keep them from starting.
pub record Started : Type 0 where
  pub takes_snapshot : Bool
  pub threads : List String

module _ (C : Codec) (S : Service C.Key) where
  -- None is the pass; else the `RuntimeError`.
  unfoldable pub ensure_data_plane_open : Runtime C S → Option Error
  ensure_data_plane_open s =
      if not (s.binding_state =ₛ ready)
      then some (runtime_error ("HUB_DATA_PLANE_CLOSED: " +ₛ s.binding_state))
      else none

  unfoldable pub start_threads : Runtime C S → Result Started
  unfolding runtime_threads
  start_threads s = elim s.session [
    | none ↦ raises (runtime_error "HUB_SESSION_NOT_READY")
    | some session ↦ ok (record {
      takes_snapshot = mem_text "inventory_read" session.grants;
      threads = runtime_threads session.grants;
    })
  ]

  -- `run_forever` behind `prepare`; `stopped_waiting` is its early return.
  unfoldable pub after_prepare : Result (Unit {0}) → Runtime C S → Result Started
  unfolding ensure_data_plane_open start_threads
  after_prepare (raises error) s = raises error
  after_prepare no_fuel s = no_fuel
  after_prepare stopped_waiting s = stopped_waiting
  after_prepare (ok _) s = elim (ensure_data_plane_open s) [
    | some error ↦ raises error
    | none ↦ if S.stop_is_set s.world then stopped_waiting else start_threads s
  ]

  unfoldable pub start : ℕ → Settings → Runtime C S → Result Started × Runtime C S
  unfolding prepare after_prepare
  start fuel c s = let (r, s') = prepare C S fuel c s in (after_prepare r s', s')
