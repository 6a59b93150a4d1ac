-- ===== src/Identity/Held.antt =====
-- The identity that a save of identity.py gives back, when one was stored before.
use zediot_hub_connector.Common.{String, ap, refl, some, subst, ◌∙◌, ◌≡◌}
use zediot_hub_connector.Identity.{
  Codec, ConnectorIdentity, Dict, Loaded, Store, ed25519, get, identity_of, load_state, merge,
  merge_state, save, write_state,
}
use zediot_hub_connector.Identity.Merging.{get-merge, last_of}
use zediot_hub_connector.Identity.Laws.{Holds, Holds-load, IsJson, holds}

module _ (C : Codec) where
  -- The fields that decide how the connector starts, after changes.
  pub record Follows (changes : Dict) (before after : ConnectorIdentity C.Key) : Type 0 where
    pub connector_follows : after.connector_id ≡ last_of changes "connector_id" before.connector_id
    pub credential_follows :
        after.credential_id ≡ last_of changes "credential_id" before.credential_id
    pub binding_follows : after.binding_state ≡ last_of changes "binding_state" before.binding_state
    pub mode_follows : after.bootstrap_mode ≡ last_of changes "bootstrap_mode" before.bootstrap_mode

  -- The result of a save.
  pub record Saved (changes : Dict) (before : ConnectorIdentity C.Key) (r : Loaded C) : Type 0 where
    pub after : ConnectorIdentity C.Key
    pub disk : Store C
    pub is_result : r ≡ (some after, disk)
    pub is_held : Holds C after disk
    pub follows : Follows changes before after

  pub save-Saved :
      (changes : Dict) (fresh : C.Key) (identity : ConnectorIdentity C.Key) (disk : Store C)
      → IsJson C
      → last_of changes "signature_algorithm" (some ed25519) ≡ some ed25519
      → Holds C identity disk
      → Saved changes identity (save C changes fresh disk)
  unfolding save merge_state load_state write_state identity_of
  save-Saved changes fresh identity disk json unmarked
        (holds {pem = pem} {key = key} {state = state} p l a e) =
      let (state', l', same) = json (merge state changes) in
      let got : (k : String) → get state' k ≡ last_of changes k (get state k) =
        λ k. same k ∙ get-merge state changes k in
      let marked : get state' "signature_algorithm" ≡ some ed25519 =
        got "signature_algorithm" ∙ ap (last_of changes "signature_algorithm") a ∙ unmarked in
      let written : Store C = record {
        key_file = some pem;
        state_file = some (C.dumps (merge state changes));
      } in
      let held : Holds C (identity_of C key state') written = holds p l' marked refl in
      record {
        after = identity_of C key state';
        disk = written;
        is_result =
            rw (save, merge_state, load_state, l)
              (Holds-load C (identity_of C key state') written fresh held);
        is_held = held;
        follows =
            subst (λ i. Follows changes i (identity_of C key state')) e
              (record {
                connector_follows = got "connector_id";
                credential_follows = got "credential_id";
                binding_follows = got "binding_state";
                mode_follows = got "bootstrap_mode";
              });
      }
