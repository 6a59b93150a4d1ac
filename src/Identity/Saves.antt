-- ===== src/Identity/Saves.antt =====
-- The arguments of the `save_…` methods of identity.py, and the changes that they merge.
use zediot_hub_connector.Common.{Option, String, [], if◌then◌else◌, some, ◌++◌, ◌∷◌}
use zediot_hub_connector.Identity.{
  Codec, Dict, Loaded, Store, device_secret, is_given, pairing_code, ready, save,
}

pub record Exchange : Type 0 where
  pub enrollment_id : String
  pub connector_id : String
  pub credential_id : String
  pub exchange_receipt : String

pub record Activated : Type 0 where
  pub tenant_id : String
  pub product_key : String
  pub device_name : String
  pub identity_id : Option String
  pub binding_state : String
  pub bound_space_node_id : Option String
  pub connector_id : Option String
  pub credential_id : Option String

pub record Bound : Type 0 where
  pub binding_state : String
  pub bound_space_node_id : Option String
  pub connector_id : Option String
  pub credential_id : Option String

-- `if value: payload[key] = value`
unfoldable pub when_given : String → Option String → Dict
unfolding is_given
when_given key value = if is_given value then (key, value) ∷ [] else []

unfoldable pub exchange_changes : Exchange → Dict
exchange_changes e =
    ("enrollment_id", some e.enrollment_id)
    ∷ ("connector_id", some e.connector_id)
    ∷ ("credential_id", some e.credential_id)
    ∷ ("exchange_receipt", some e.exchange_receipt)
    ∷ ("bootstrap_mode", some pairing_code)
    ∷ ("binding_state", some ready)
    ∷ []

-- The dictionary `payload` of `save_activation` before its two tests.
unfoldable pub activation_payload : Activated → Dict
activation_payload a =
    ("tenant_id", some a.tenant_id)
    ∷ ("product_key", some a.product_key)
    ∷ ("device_name", some a.device_name)
    ∷ ("identity_id", a.identity_id)
    ∷ ("binding_state", some a.binding_state)
    ∷ ("bound_space_node_id", a.bound_space_node_id)
    ∷ ("bootstrap_mode", some device_secret)
    ∷ []

unfoldable pub activation_changes : Activated → Dict
activation_changes a =
    activation_payload a
    ++ (when_given "connector_id" a.connector_id ++ when_given "credential_id" a.credential_id)

unfoldable pub binding_changes : Bound → Dict
binding_changes b =
    (("binding_state", some b.binding_state) ∷ [])
    ++ (when_given "bound_space_node_id" b.bound_space_node_id
        ++ (when_given "connector_id" b.connector_id ++ when_given "credential_id" b.credential_id))

module _ (C : Codec) where
  unfoldable pub save_exchange : Exchange → C.Key → Store C → Loaded C
  unfolding save exchange_changes
  save_exchange e = save C (exchange_changes e)

  unfoldable pub save_activation : Activated → C.Key → Store C → Loaded C
  unfolding save activation_changes
  save_activation a = save C (activation_changes a)

  unfoldable pub save_binding_state : Bound → C.Key → Store C → Loaded C
  unfolding save binding_changes
  save_binding_state b = save C (binding_changes b)
