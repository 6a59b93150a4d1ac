-- ===== src/Identity/Laws.antt =====
-- The identity over restarts and over the saves of the provisioned path.
use zediot_hub_connector.Common.{
  Bool-cases, Option, Option-cases, String, [], ap, eq_iff, inl, inr, none, refl, some, subst, ◌=ₛ◌,
  ◌∙◌, ◌∷◌, ◌≡◌,
}
use zediot_hub_connector.Identity.{
  Codec, ConnectorIdentity, Dict, Loaded, Store, ed25519, get, identity_of, load_identity,
  load_or_create, load_or_create_key, load_state, merge, write_state,
}
use zediot_hub_connector.Identity.Merging.{get-merge, last_of}

module _ (C : Codec) where
  -- `json` decodes what it encodes, up to the order of the keys.
  abbrev pub IsJson : Type 0
  IsJson =
      (d : Dict)
      → (e : Dict) × (C.loads (C.dumps d) ≡ some e) × ((key : String) → get e key ≡ get d key)

  abbrev pub IsPem : Type 0
  IsPem = (key : C.Key) → C.load_pem_private_key (C.private_bytes key) ≡ some key

  identity_same :
      (key : C.Key) (d e : Dict)
      → ((k : String) → get e k ≡ get d k)
      → identity_of C key e ≡ identity_of C key d
  unfolding identity_of
  identity_same key d e h =
      rw
        (
          h "enrollment_id",
          h "connector_id",
          h "credential_id",
          h "exchange_receipt",
          h "tenant_id",
          h "product_key",
          h "device_name",
          h "identity_id",
          h "binding_state",
          h "bound_space_node_id",
          h "bootstrap_mode",
        )
        refl

  -- The files from which an identity is loaded as they stand.
  pub data Holds (identity : ConnectorIdentity C.Key) : Store C → Type 0 where
    holds :
        {pem bytes : C.Bytes} {key : C.Key} {state : Dict}
        → C.load_pem_private_key pem ≡ some key
        → C.loads bytes ≡ some state
        → get state "signature_algorithm" ≡ some ed25519
        → identity_of C key state ≡ identity
        → Holds identity (record { key_file = some pem; state_file = some bytes })

  pub Holds-load :
      (identity : ConnectorIdentity C.Key) (disk : Store C) (fresh : C.Key)
      → Holds identity disk
      → load_or_create C fresh disk ≡ (some identity, disk)
  unfolding load_or_create load_or_create_key load_state load_identity
  Holds-load identity disk fresh (holds p l a e) =
      rw (load_or_create_key, p, load_state, l, load_identity, a, e) refl

  data Loads : Loaded C → Type 0 where
    refused : {disk : Store C} → Loads (none, disk)
    held :
        {identity : ConnectorIdentity C.Key} {disk : Store C}
        → Holds identity disk
        → Loads (some identity, disk)

  Loads-Holds :
      {identity : ConnectorIdentity C.Key} {disk : Store C}
      → Loads (some identity, disk)
      → Holds identity disk
  Loads-Holds (held h) = h

  marked-Loads :
      (key : C.Key) (pem : C.Bytes) (marked : Dict)
      → IsJson
      → C.load_pem_private_key pem ≡ some key
      → get marked "signature_algorithm" ≡ some ed25519
      → Loads (
        some (identity_of C key marked),
        record { key_file = some pem; state_file = some (C.dumps marked) },
      )
  marked-Loads key pem marked json p a =
      let (state, l, same) = json marked in
      held (holds p l (same "signature_algorithm" ∙ a) (identity_same key marked state same))

  get-marked :
      (state : Dict)
      → get (merge state (("signature_algorithm", some ed25519) ∷ [])) "signature_algorithm"
        ≡ some ed25519
  unfolding last_of
  get-marked state =
      get-merge state (("signature_algorithm", some ed25519) ∷ []) "signature_algorithm"

  load_identity-Loads :
      (key : C.Key) (pem bytes : C.Bytes) (state : Dict)
      → IsJson
      → C.load_pem_private_key pem ≡ some key
      → C.loads bytes ≡ some state
      → Loads (load_identity C key state (record { key_file = some pem; state_file = some bytes }))
  unfolding load_identity write_state
  load_identity-Loads key pem bytes state json p l =
      elim (Option-cases (get state "signature_algorithm")) [
        | inl e ↦
            rw (load_identity, e)
              (marked-Loads key pem (merge state (("signature_algorithm", some ed25519) ∷ [])) json
                p (get-marked state))
        | inr (algorithm, e) ↦ elim (Bool-cases (algorithm =ₛ ed25519)) [
          | inl y ↦
              rw (load_identity, e, y)
                (held (holds p l (e ∙ ap some ((eq_iff algorithm ed25519).0 y)) refl))
          | inr n ↦ rw (load_identity, e, n) refused
        ]
      ]

  opened-Loads :
      (key : C.Key) (pem : C.Bytes) (file : Option C.Bytes)
      → IsJson
      → C.load_pem_private_key pem ≡ some key
      → let disk : Store C = record { key_file = some pem; state_file = file } in
        Loads (elim (load_state C disk) [
          | none ↦ (none, disk)
          | some state ↦ load_identity C key state disk
        ])
  unfolding load_state load_identity write_state get
  opened-Loads key pem none json p =
      marked-Loads key pem (merge [] (("signature_algorithm", some ed25519) ∷ [])) json p
        (get-marked [])
  opened-Loads key pem (some bytes) json p = elim (Option-cases (C.loads bytes)) [
    | inl e ↦ rw (load_state, e) refused
    | inr (state, e) ↦ rw (load_state, e) (load_identity-Loads key pem bytes state json p e)
  ]

  files-Loads :
      (fresh : C.Key) (pem file : Option C.Bytes)
      → IsJson
      → IsPem
      → Loads (load_or_create C fresh (record { key_file = pem; state_file = file }))
  unfolding load_or_create load_or_create_key
  files-Loads fresh none file json pem =
      opened-Loads fresh (C.private_bytes fresh) file json (pem fresh)
  files-Loads fresh (some bytes) file json pem =
      elim (Option-cases (C.load_pem_private_key bytes)) [
        | inl e ↦ rw (load_or_create_key, e) refused
        | inr (key, e) ↦ rw (load_or_create_key, e) (opened-Loads key bytes file json e)
      ]

  -- Once an identity has been loaded or created, every later start of the connector loads the same
  -- one, its key included, and writes nothing, if `json` decodes what it encodes up to the order
  -- of keys and the key loads from its PEM text.
  pub load_or_create-again :
      (fresh later : C.Key) (disk : Store C) (identity : ConnectorIdentity C.Key)
      → IsJson
      → IsPem
      → (load_or_create C fresh disk).0 ≡ some identity
      → let disk' = (load_or_create C fresh disk).1 in
        load_or_create C later disk' ≡ (some identity, disk')
  load_or_create-again fresh later disk identity json pem e =
      Holds-load identity (load_or_create C fresh disk).1 later (
        Loads-Holds (
          subst (λ r. Loads (r, (load_or_create C fresh disk).1)) e
            (files-Loads fresh disk.key_file disk.state_file json pem)))
