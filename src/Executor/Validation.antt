-- ===== src/Executor/Validation.antt =====
-- `validate_command_envelope` of command_executor.py.
use zediot_hub_connector.Common.{
  Bool, List, Option, String, [], false, if◌then◌else◌, mem_text, none, some, starts_with, true,
  ◌&&◌, ◌=ₛ◌, ◌∷◌,
}

-- A value of a JSON object, as far as the validation looks at it: a text, or anything else, which
-- equals no text.
pub data Field : Type 0 where
  text : String → Field
  other : Field

-- An envelope as it arrives. The first three are the texts that `str(envelope.get(…) or "")` gives.
pub record RawEnvelope : Type 0 where
  pub domain : String
  pub service : String
  pub entity_id : String
  pub service_data : List (String × Field)

-- The validated envelope; its `service_data` is `{"entity_id": entity_id}`.
pub record Envelope : Type 0 where
  pub domain : String
  pub service : String
  pub entity_id : String

unfoldable pub lookup : String → List (String × Field) → Option Field
lookup k [] = none
lookup k ((j, v) ∷ d) = if j =ₛ k then some v else lookup k d

-- Every key of the dictionary is `entity_id`.
unfoldable pub only_entity_id : List (String × Field) → Bool
only_entity_id [] = true
only_entity_id ((j, v) ∷ d) = j =ₛ "entity_id" && only_entity_id d

unfoldable pub is_text : Option Field → String → Bool
is_text (some (text s)) t = s =ₛ t
is_text _ t = false

-- The negation of the test that raises. `set(service_data) != {"entity_id"}` holds of an empty
-- dictionary too, which the last test refuses.
unfoldable pub is_allowlisted : RawEnvelope → Bool
is_allowlisted e =
    e.domain =ₛ "light"
    && (mem_text e.service ("turn_on" ∷ "turn_off" ∷ [])
        && (starts_with e.entity_id "light."
            && (only_entity_id e.service_data
                && is_text (lookup "entity_id" e.service_data) e.entity_id)))

unfoldable pub validate_command_envelope : RawEnvelope → Option Envelope
validate_command_envelope e =
    if is_allowlisted e
    then some (record { domain = e.domain; service = e.service; entity_id = e.entity_id })
    else none
