-- ===== src/Witnesses/Bootstrap.antt =====
-- Files that hold a key and an object as they are, and a core service over a counter.
use zediot_hub_connector.Common.{
  All, List, Option, [], false, leb, none, pos, refl, some, suc, true, zero, ℕ, ◌+◌, ◌-◌, ◌∷◌, ◌≡◌,
  ◌⊎◌,
}
use zediot_hub_connector.Identity.{
  Codec, ConnectorIdentity, Dict, Store, awaiting_activation, awaiting_binding,
  effective_bootstrap_mode, get, given_or, identity_of, is_given, load_identity, load_or_create,
  load_or_create_key, load_state, merge, put, ready,
}
use zediot_hub_connector.Identity.Laws.{Holds, IsJson, IsPem, holds, load_or_create-again}
use zediot_hub_connector.Identity.Kept.{
  Save, run_saves, run_saves-keeps, saves_activation, saves_binding_state, stored,
}
use zediot_hub_connector.Queue.{Queue, new, synchronize, synchronize_with_server_cursor}
use zediot_hub_connector.Runtime.Waiting.{lease_conflict_wait, transport}
use zediot_hub_connector.Runtime.Bootstrap.{
  Activation, Connect, Runtime, Service, Session, Settings, activates, activation, answered, called,
  connected, failed_with, lease_conflict, no_fuel, not_reached, ok, raises, runtime_error,
}
use zediot_hub_connector.Runtime.Bootstrap.Sessions.{
  adopt_session, authenticate_and_connect, connect, core_authenticate, establish_session, go_live,
  resume_sequence, returns_anyway, while_unavailable,
}
use zediot_hub_connector.Runtime.Bootstrap.Prepare.{
  after_status, check_enrollment, choose_path, has_provisioning_triple, poll, prepare,
  prepare_existing, prepare_paired_existing,
}
use zediot_hub_connector.Runtime.Bootstrap.Quiet.{IsQuiet, prepare-Quiet}
use zediot_hub_connector.Runtime.Bootstrap.Unenrolled.{not_enrolled, poll-unenrolled}
use zediot_hub_connector.Runtime.Threads.{
  Started, after_prepare, any_granted, ensure_data_plane_open, runtime_threads, start,
  start_threads, thread_when,
}
use zediot_hub_connector.Runtime.Threads.Opening.{start-unreachable}

data Content : Type 0 where
  pem : ℕ → Content
  json : Dict → Content

abbrev load_pem : Content → Option ℕ
load_pem (pem key) = some key
load_pem (json _) = none

abbrev load_json : Content → Option Dict
load_json (pem _) = none
load_json (json d) = some d

abbrev files : Codec
files = record {
  Key = ℕ;
  Bytes = Content;
  private_bytes = pem;
  load_pem_private_key = load_pem;
  dumps = json;
  loads = load_json;
}

files-IsJson : IsJson files
files-IsJson d = (d, refl, λ key. refl)

files-IsPem : IsPem files
files-IsPem key = refl

-- A gateway that was paired before the signature algorithm was stored.
abbrev old_state : Dict
old_state =
    ("enrollment_id", some "e1")
    ∷ ("connector_id", some "c1")
    ∷ ("credential_id", some "k1")
    ∷ ("exchange_receipt", some "r1")
    ∷ []

abbrev old_disk : Store files
old_disk = record { key_file = some (pem 7); state_file = some (json old_state) }

abbrev pub old_identity : ConnectorIdentity ℕ
old_identity = record {
  private_key = 7;
  enrollment_id = some "e1";
  connector_id = some "c1";
  credential_id = some "k1";
  exchange_receipt = some "r1";
  signature_algorithm = "Ed25519";
  tenant_id = none;
  product_key = none;
  device_name = none;
  identity_id = none;
  binding_state = none;
  bound_space_node_id = none;
  bootstrap_mode = none;
}

old_loads : (load_or_create files 8 old_disk).0 ≡ some old_identity
unfolding load_or_create load_or_create_key load_state load_identity get put merge
old_loads = refl

load_or_create-again_example :
    let disk' = (load_or_create files 8 old_disk).1 in
    load_or_create files 9 disk' ≡ (some old_identity, disk')
load_or_create-again_example =
    load_or_create-again files 8 9 old_disk old_identity files-IsJson files-IsPem old_loads

abbrev later_saves : List (Save files)
later_saves =
    saves_activation (record {
      tenant_id = "t";
      product_key = "p";
      device_name = "d";
      identity_id = none;
      binding_state = awaiting_binding;
      bound_space_node_id = none;
      connector_id = none;
      credential_id = none;
    })
    ∷ saves_binding_state (record {
      binding_state = ready;
      bound_space_node_id = some "room";
      connector_id = some "c2";
      credential_id = none;
    })
    ∷ []

old_connector : is_given (stored files old_disk "connector_id") ≡ true
unfolding stored load_state get is_given
old_connector = refl

run_saves-keeps_example :
    let after = run_saves files later_saves 8 old_disk in
    (is_given (stored files after "connector_id") ≡ true)
    × (stored files after "enrollment_id" ≡ stored files old_disk "enrollment_id")
    × (stored files after "exchange_receipt" ≡ stored files old_disk "exchange_receipt")
run_saves-keeps_example = run_saves-keeps files later_saves 8 old_disk files-IsJson old_connector

abbrev session : Session
session = record {
  session_id = "s1";
  grants = "command_downlink" ∷ "inventory_read" ∷ [];
  resume_cursor = some (pos 0);
}

-- A core whose first answers are that the lease is held and that it is away.
abbrev connects_later : ℕ → Connect
connects_later zero = lease_conflict (some 5_000)
connects_later (suc zero) = lease_conflict none
connects_later _ = connected session

abbrev complete : Activation
complete = record {
  identity_id = some "i1";
  binding_state = some ready;
  bound_space_node_id = none;
  connector_id = some "c9";
  credential_id = none;
}

abbrev core : Service ℕ
core = record {
  World = ℕ;
  fresh_key = 8;
  Encoded = ℕ;
  upper = λ s. s;
  activate = λ w identity. (activation complete, w + 1);
  exchange = λ w identity. (failed_with transport, w + 1);
  enrollment_status = λ w enrollment_id receipt. (answered "approved", w + 1);
  authenticate = λ w identity. (none, w + 1);
  connect_session = λ w identity cursor. (connects_later (w - 4), w + 1);
  take_claim_code = λ w. ("", w);
  stop_is_set = λ w. false;
  stop_wait = λ w ms. (false, w + 1);
}

abbrev settings : Settings
settings = record {
  tenant_id = some "t";
  product_key = some "p";
  device_name = some "d";
  device_secret = some "s";
  pairing_code = none;
  binding_poll_initial = 5_000;
  binding_poll_max = 300_000;
}

abbrev hub : Runtime files core
hub = record {
  world = 0;
  disk = old_disk;
  queue = zediot_hub_connector.Queue.new 10 60;
  identity = none;
  session = none;
  has_rule_runtime = false;
  cursor = pos 0;
  binding_state = awaiting_activation;
  binding_failure = none;
  calls = [];
}

prepare-Quiet_example : All IsQuiet (prepare files core 5 settings hub).1.calls
unfolding is_given
prepare-Quiet_example = prepare-Quiet files core 5 settings hub old_identity old_loads refl tt

abbrev started : Started
started = record {
  takes_snapshot = true;
  threads = "hub-upload" ∷ "hub-command" ∷ "hub-inventory" ∷ "hub-maintenance" ∷ [];
}

hub_starts : (start files core 5 settings hub).0 ≡ ok started
unfolding start prepare choose_path prepare_existing prepare_paired_existing check_enrollment
    after_status go_live while_unavailable authenticate_and_connect core_authenticate
    establish_session connect adopt_session returns_anyway resume_sequence called after_prepare
    ensure_data_plane_open start_threads runtime_threads any_granted thread_when load_or_create
    load_or_create_key load_state load_identity get put merge is_given given_or
    effective_bootstrap_mode lease_conflict_wait synchronize_with_server_cursor synchronize
hub_starts = refl

-- A gateway that has its key and nothing else.
abbrev new_disk : Store files
new_disk = record {
  key_file = some (pem 8);
  state_file = some (json (("signature_algorithm", some "Ed25519") ∷ []));
}

abbrev new_identity : ConnectorIdentity ℕ
new_identity = record {
  private_key = 8;
  enrollment_id = none;
  connector_id = none;
  credential_id = none;
  exchange_receipt = none;
  signature_algorithm = "Ed25519";
  tenant_id = none;
  product_key = none;
  device_name = none;
  identity_id = none;
  binding_state = none;
  bound_space_node_id = none;
  bootstrap_mode = none;
}

new_held : Holds files new_identity new_disk
unfolding get identity_of
new_held = holds refl refl refl refl

abbrev new_hub : Runtime files core
new_hub = record hub { disk = new_disk }

poll-unenrolled_example :
    let (r, s') = poll files core 2 3 settings new_identity 5_000 new_hub in
    (r ≡ not_enrolled)
    × (s'.calls ≡ activates ∷ [])
    × ((prepare files core 4 settings (record hub { disk = s'.disk })).0 ≡ not_enrolled)
unfolding is_given
poll-unenrolled_example =
    poll-unenrolled files core settings complete refl refl 1 2 5_000 3 new_identity 1 new_hub hub
      settings files-IsJson new_held refl refl refl refl

-- A core that is away, and a stop that comes after two waits.
abbrev core_away : Service ℕ
core_away = record core {
  activate = λ w identity. (not_reached "timed out", w);
  stop_is_set = λ w. leb 2 w;
}

abbrev away_hub : Runtime files core_away
away_hub = record hub { disk = new_disk }

new_loads : (load_or_create files 8 new_disk).0 ≡ some new_identity
unfolding load_or_create load_or_create_key load_state load_identity get put merge
new_loads = refl

start-unreachable_example :
    ((start files core_away 9 settings away_hub).0 ≡ no_fuel)
    ⊎ ((start files core_away 9 settings away_hub).0
        ≡ raises (runtime_error "HUB_DATA_PLANE_CLOSED: awaiting_activation"))
unfolding is_given has_provisioning_triple
start-unreachable_example =
    start-unreachable files core_away 9 settings away_hub new_identity
      (λ w identity. ("timed out", refl)) new_loads refl refl
