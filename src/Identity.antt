-- ===== src/Identity.antt =====
-- identity.py: the connector's key and its stored identity. The Ed25519 library and `json` are
-- parameters; a disk holds the contents of the two files, which are replaced as a whole.
use zediot_hub_connector.Common.{
  Bool, List, Option, String, [], false, if◌then◌else◌, none, not, some, ◌=ₛ◌, ◌∷◌,
}
pub mod Saves
pub mod Merging
pub mod Laws
pub mod Kept
pub mod Held

-- The stored object; a value is a text or null. Other values are not modelled.
abbrev pub Dict : Type 0
Dict = List (String × Option String)

-- `d.get(key)`
unfoldable pub get : Dict → String → Option String
get [] key = none
get ((k, v) ∷ d) key = if key =ₛ k then v else get d key

unfoldable pub put : String → Option String → Dict → Dict
put key v [] = (key, v) ∷ []
put key v ((k, u) ∷ d) = let rest = put key v d in if key =ₛ k then (k, v) ∷ d else (k, u) ∷ rest

-- `{**d, **changes}`
unfoldable pub merge : Dict → Dict → Dict
merge d [] = d
merge d ((k, v) ∷ changes) = merge (put k v d) changes

-- Whether Python takes the value for true.
unfoldable pub is_given : Option String → Bool
is_given none = false
is_given (some s) = not (s =ₛ "")

-- `value or fallback`
unfoldable pub given_or : Option String → String → String
given_or none fallback = fallback
given_or (some s) fallback = if s =ₛ "" then fallback else s

abbrev pub ed25519 : String
ed25519 = "Ed25519"

abbrev pub pairing_code : String
pairing_code = "pairing_code"

abbrev pub device_secret : String
device_secret = "device_secret"

abbrev pub awaiting_activation : String
awaiting_activation = "awaiting_activation"

abbrev pub awaiting_binding : String
awaiting_binding = "awaiting_binding"

abbrev pub ready : String
ready = "ready"

pub record ConnectorIdentity (K : Type 0) : Type 0 where
  pub private_key : K
  pub enrollment_id : Option String
  pub connector_id : Option String
  pub credential_id : Option String
  pub exchange_receipt : Option String
  pub signature_algorithm : String
  pub tenant_id : Option String
  pub product_key : Option String
  pub device_name : Option String
  pub identity_id : Option String
  pub binding_state : Option String
  pub bound_space_node_id : Option String
  pub bootstrap_mode : Option String

-- `none` is an exception: a key that is none, or a file that is no JSON object.
pub record Codec : Type 1 where
  pub Key : Type 0
  pub Bytes : Type 0
  pub private_bytes : Key → Bytes
  pub load_pem_private_key : Bytes → Option Key
  pub dumps : Dict → Bytes
  pub loads : Bytes → Option Dict

-- The files `connector_ed25519.pem` and `connector_identity.json`.
pub record Disk (B : Type 0) : Type 0 where
  pub key_file : Option B
  pub state_file : Option B

unfoldable pub effective_bootstrap_mode : {K : Type 0} → ConnectorIdentity K → String
effective_bootstrap_mode identity = given_or identity.bootstrap_mode pairing_code

module _ (C : Codec) where
  abbrev pub Store : Type 0
  Store = Disk C.Bytes

  abbrev pub Loaded : Type 0
  Loaded = Option (ConnectorIdentity C.Key) × Store

  unfoldable pub load_state : Store → Option Dict
  load_state disk = elim disk.state_file [ none ↦ some [] | some bytes ↦ C.loads bytes ]

  unfoldable pub write_state : Dict → Store → Store
  write_state state disk = record disk { state_file = some (C.dumps state) }

  -- The argument is what `Ed25519PrivateKey.generate` would give.
  unfoldable pub load_or_create_key : C.Key → Store → Option C.Key × Store
  load_or_create_key fresh disk = elim disk.key_file [
    | none ↦ (some fresh, record disk { key_file = some (C.private_bytes fresh) })
    | some bytes ↦ (C.load_pem_private_key bytes, disk)
  ]

  -- The identity of a state whose algorithm is known.
  unfoldable pub identity_of : C.Key → Dict → ConnectorIdentity C.Key
  identity_of key state = record {
    private_key = key;
    enrollment_id = get state "enrollment_id";
    connector_id = get state "connector_id";
    credential_id = get state "credential_id";
    exchange_receipt = get state "exchange_receipt";
    signature_algorithm = ed25519;
    tenant_id = get state "tenant_id";
    product_key = get state "product_key";
    device_name = get state "device_name";
    identity_id = get state "identity_id";
    binding_state = get state "binding_state";
    bound_space_node_id = get state "bound_space_node_id";
    bootstrap_mode = get state "bootstrap_mode";
  }

  -- `load_or_create` behind the key: a state without an algorithm is written back with one.
  unfoldable pub load_identity : C.Key → Dict → Store → Loaded
  unfolding identity_of write_state merge
  load_identity key state disk = elim (get state "signature_algorithm") [
    | none ↦
        let marked = merge state (("signature_algorithm", some ed25519) ∷ []) in
        (some (identity_of key marked), write_state marked disk)
    | some algorithm ↦
        if algorithm =ₛ ed25519 then (some (identity_of key state), disk) else (none, disk)
  ]

  unfoldable pub load_or_create : C.Key → Store → Loaded
  unfolding load_or_create_key load_state load_identity
  load_or_create fresh disk =
      let (loaded, disk') = load_or_create_key fresh disk in
      elim loaded [
        | none ↦ (none, disk')
        | some key ↦ elim (load_state disk') [
          | none ↦ (none, disk')
          | some state ↦ load_identity key state disk'
        ]
      ]

  -- `_merge_state`; `none` is the exception of `_load_state`.
  unfoldable pub merge_state : Dict → Store → Option Store
  unfolding load_state merge write_state
  merge_state changes disk = elim (load_state disk) [
    | none ↦ none
    | some state ↦ some (write_state (merge state changes) disk)
  ]

  unfoldable pub save : Dict → C.Key → Store → Loaded
  unfolding merge_state load_or_create
  save changes fresh disk = elim (merge_state changes disk) [
    | none ↦ (none, disk)
    | some disk' ↦ load_or_create fresh disk'
  ]
