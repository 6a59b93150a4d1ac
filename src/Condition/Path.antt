-- ===== src/Condition/Path.antt =====
-- `_resolve` of rule_runtime.py.
use Prim.Native.String.{◌++◌ as ◌+ₛ◌}
use zediot_hub_connector.Common.{
  Bool, List, String, [], false, if◌then◌else◌, mem_text, not, ◌=ₛ◌, ◌||◌, ◌∷◌,
}
use zediot_hub_connector.Condition.Documents.{Document, Numbers, get, has, object}

-- The reasons of a `LocalRuleEvaluationError`; `no_fuel` is none of them, and marks that the bound
-- on the depth ran out.
pub data Reason : Type 0 where
  missing_field raw_payload_access_denied invalid_condition type_mismatch invalid_operator no_fuel :
      Reason

pub data Result (A : Type 0) : Type 0 where
  value : A → Result A
  error : Reason → Result A

unfoldable pub to_first : String → List String → List String
to_first c [] = c ∷ []
to_first c (part ∷ parts) = (c +ₛ part) ∷ parts

-- `path.split(".")`
unfoldable pub split : String → List String
split String.[] = "" ∷ []
split (String.◌∷◌ c s) =
    let parts = split s in
    let head = String.◌∷◌ c String.[] in if head =ₛ "." then "" ∷ parts else to_first head parts

unfoldable pub starts_allowed : List String → Bool
starts_allowed [] = false
starts_allowed (root ∷ parts) =
    mem_text root ("event" ∷ "latest_state" ∷ "device" ∷ "space" ∷ "time" ∷ [])

-- `any(part in DENIED_SEGMENTS for part in parts)`
unfoldable pub any_denied : List String → Bool
any_denied [] = false
any_denied (part ∷ parts) =
    mem_text part
      ("raw" ∷ "raw_payload" ∷ "provider_payload" ∷ "provider_raw" ∷ "source_payload" ∷ [])
    || any_denied parts

module _ {P : Numbers} where
  -- The loop of `_resolve`.
  unfoldable pub walk : List String → Document P → Result (Document P)
  unfolding get has
  walk [] current = value current
  walk (part ∷ parts) (object d) =
      let rest = walk parts (get part d) in if has part d then rest else error missing_field
  walk (part ∷ parts) _ = error missing_field

  unfoldable pub resolve : String → Document P → Result (Document P)
  unfolding split starts_allowed any_denied walk
  resolve path context =
      let parts = split path in
      if path =ₛ "" || not (starts_allowed parts)
      then error missing_field
      else if any_denied parts
      then error raw_payload_access_denied
      else walk parts context
