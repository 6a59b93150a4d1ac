-- ===== src/Runtime/Rules.antt =====
-- `process_rule_packages_once` of runtime.py: the controls and the packages that the core delivers.
-- A request with its retries is a parameter on the world.
use zediot_hub_connector.Common.{
  Bool, List, Option, String, [], if◌then◌else◌, mem_text, none, not, some, suc, ℕ, ◌+◌, ◌∷◌,
}
use zediot_hub_connector.Queue.{Json}
use zediot_hub_connector.Condition.Documents.{Entries, Numbers, get, has}
use zediot_hub_connector.RuleStore.{Package, RuleStore, apply_control, apply_package, summarize}
use zediot_hub_connector.RulePackage.{PackageError, VerifiedRulePackage, text_of}
use zediot_hub_connector.RulePackage.Trust.{
  as_document, rejected, verified, verify_rule_package_delivery,
}
use zediot_hub_connector.RuleRuntime.{Hooks, stable_id}
use zediot_hub_connector.RuleRuntime.Events.{str_value}
pub mod Controls
use Prim.Native.String.{◌++◌ as ◌+ₛ◌}

unfoldable pub receipt_text : String → String → String → String
receipt_text package_id package_hash status =
    package_id +ₛ (":" +ₛ (package_hash +ₛ (":" +ₛ status)))

-- What is acknowledged; the last three are `reason_code` or the evidence of an applied package.
pub data Acknowledged : Type 0 where
  applied : String → String → String → ℕ → Acknowledged
  not_applied : String → String → String → String → Acknowledged

-- A control is a status and a package id.
pub record Claimed (P : Numbers) : Type 0 where
  pub controls : List (String × String)
  pub items : List (Entries P)

-- `claim` and `acknowledge` are calls of the core through `retry_bounded`; none is an exception that
-- leaves it. `reason_of` is `str(exc)[:120]`, where none is an `IntegrityError`
-- of the table or the `KeyError` of a payload with no `rule_id`.
pub record RuleCore (P : Numbers) : Type 1 where
  pub World : Type 0
  pub claim : World → Option (Claimed P) × World
  pub acknowledge : World → Acknowledged → Bool × World
  pub reason_of : Option PackageError → String

pub data Progress : Type 0 where
  progressed : ℕ → Progress
  progress_raised : Progress

unfoldable pub add_progress : ℕ → Progress → Progress
add_progress n (progressed m) = progressed (n + m)
add_progress n progress_raised = progress_raised

module _ {T : Type 0} where
  -- The loop over the controls, with the number of those that have changed the store.
  unfoldable pub apply_controls : List (String × String) → RuleStore T → Progress × RuleStore T
  unfolding apply_control add_progress
  apply_controls [] s = (progressed 0, s)
  apply_controls ((status, package_id) ∷ controls) s = elim (apply_control s status package_id) [
    | none ↦ (progress_raised, s)
    | some (s', changed) ↦
        let (rest, s'') = apply_controls controls s' in
        (add_progress (if changed then 1 else 0) rest, s'')
  ]

module _ {P : Numbers} {J : Json} (K : Hooks P J) (C : RuleCore P) (instance_id : String)
    (trusted : List String) where
  abbrev pub Hub : Type 0
  Hub = RuleStore J.Encoded × C.World

  -- What the store takes of a verified package.
  unfoldable pub package_for : (Entries P → J.Value) → VerifiedRulePackage P → Package J.Value
  unfolding as_document get str_value
  package_for encode_document p = record {
    package_id = p.package_id;
    rule_id = str_value K (get "rule_id" p.payload);
    package_hash = p.package_hash;
    document = encode_document (as_document p);
    valid_until = p.valid_until;
  }

  -- The `try` around one item, with what is acknowledged. `now` is the clock reading of the
  -- verification and `applied_at` the one of the store.
  unfoldable pub apply_item :
      (Entries P → J.Value)
      → ℕ × ℕ
      → Entries P
      → RuleStore J.Encoded
      → Acknowledged × RuleStore J.Encoded
  unfolding verify_rule_package_delivery apply_package package_for summarize receipt_text text_of
      get has stable_id
  apply_item encode_document (now, applied_at) item s =
      let package_id = text_of K.tools (get "package_id" item) in
      let package_hash = text_of K.tools (get "payload_hash" item) in
      let receipt : String → String = λ status.
        stable_id K.tools.sha256 "rpreceipt" (receipt_text package_id package_hash status) in
      elim (verify_rule_package_delivery K.tools instance_id trusted now item) [
        | rejected reason ↦
            (not_applied package_id package_hash (receipt "failed") (C.reason_of (some reason)), s)
        | verified p ↦
            let stored =
              if has "rule_id" p.payload
              then apply_package J s applied_at (package_for encode_document p)
              else none in
            elim stored [
              | none ↦
                  (not_applied package_id package_hash (receipt "failed") (C.reason_of none), s)
              | some s' ↦ (
                applied package_id package_hash (receipt "applied")
                    (summarize s').active_package_count,
                s',
              )
            ]
      ]

  unfoldable pub apply_items :
      (Entries P → J.Value) → (ℕ → ℕ × ℕ) → ℕ → List (Entries P) → Hub → Progress × Hub
  unfolding apply_item add_progress
  apply_items encode_document clock n [] s = (progressed 0, s)
  apply_items encode_document clock n (item ∷ items) (s, w) =
      let (ack, s') = apply_item encode_document (clock n) item s in
      let (sent, w') = C.acknowledge w ack in
      let (rest, after) = apply_items encode_document clock (suc n) items (s', w') in
      if sent then (add_progress 1 rest, after) else (progress_raised, (s', w'))

  -- The argument is whether there are an identity and a session, with the session's grants.
  unfoldable pub process_rule_packages_once :
      (Entries P → J.Value) → (ℕ → ℕ × ℕ) → Option (List String) → Hub → Progress × Hub
  unfolding apply_controls apply_items add_progress
  process_rule_packages_once encode_document clock none s = (progress_raised, s)
  process_rule_packages_once encode_document clock (some grants) (s, w) =
      let (claimed, w') = C.claim w in
      if not (mem_text "local_rule_runtime" grants) then (progressed 0, (s, w)) else elim claimed [
        | none ↦ (progress_raised, (s, w'))
        | some delivery ↦
            let (first, s') = apply_controls delivery.controls s in
            elim first [
              | progress_raised ↦ (progress_raised, (s', w'))
              | progressed changed ↦
                  let (rest, after) = apply_items encode_document clock 0 delivery.items (s', w') in
                  (add_progress changed rest, after)
            ]
      ]
