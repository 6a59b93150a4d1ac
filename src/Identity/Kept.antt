-- ===== src/Identity/Kept.antt =====
-- What the files still hold after the saves of the provisioned path.
use zediot_hub_connector.Common.{
  All, Bool-cases, List, Option, Option-cases, String, [], ap, eq_refl, false, if◌then◌else◌, inl,
  inr, none, refl, some, subst, sym, true, ◌++◌, ◌=ₛ◌, ◌∙◌, ◌∷◌, ◌≡◌, ◌⊎◌,
}
use zediot_hub_connector.Identity.{
  Codec, Dict, Loaded, Store, ed25519, get, is_given, load_identity, load_or_create,
  load_or_create_key, load_state, merge, merge_state, save, write_state,
}
use zediot_hub_connector.Identity.Saves.{
  Activated, Bound, activation_changes, activation_payload, binding_changes, when_given,
}
use zediot_hub_connector.Identity.Merging.{get-merge, last_of}
use zediot_hub_connector.Identity.Laws.{IsJson}

module _ (C : Codec) where
  -- What the stored object has under a key; nothing if it cannot be read.
  unfoldable pub stored : Store C → String → Option String
  stored disk key = elim (load_state C disk) [ none ↦ none | some state ↦ get state key ]

  stored-write :
      (state : Dict) (disk : Store C) (key : String)
      → IsJson C
      → stored (write_state C state disk) key ≡ get state key
  unfolding stored write_state load_state
  stored-write state disk key json =
      let (decoded, e, same) = json state in rw (stored, e) (same key)

  load_identity-stored :
      (k : C.Key) (state : Dict) (disk : Store C) (key : String)
      → IsJson C
      → load_state C disk ≡ some state
      → (key =ₛ "signature_algorithm") ≡ false
      → stored (load_identity C k state disk).1 key ≡ stored disk key
  unfolding load_identity stored last_of
  load_identity-stored k state disk key json l other =
      elim (Option-cases (get state "signature_algorithm")) [
        | inl e ↦
            let changes : Dict = ("signature_algorithm", some ed25519) ∷ [] in
            let before : stored disk key ≡ get state key = rw (stored, l) refl in
            let found : get (merge state changes) key ≡ get state key =
              get-merge state changes key ∙ rw other refl in
            rw (load_identity, e)
              (stored-write (merge state changes) disk key json ∙ found ∙ sym before)
        | inr (algorithm, e) ↦ elim (Bool-cases (algorithm =ₛ ed25519)) [
          | inl y ↦ rw (load_identity, e, y) refl
          | inr n ↦ rw (load_identity, e, n) refl
        ]
      ]

  opened-stored :
      (loaded : Option C.Key) (disk : Store C) (key : String)
      → IsJson C
      → (key =ₛ "signature_algorithm") ≡ false
      → let r : Loaded C = elim loaded [
        | none ↦ (none, disk)
        | some k ↦ elim (load_state C disk) [
          | none ↦ (none, disk)
          | some state ↦ load_identity C k state disk
        ]
      ] in
        stored r.1 key ≡ stored disk key
  opened-stored none disk key json other = refl
  opened-stored (some k) disk key json other = elim (Option-cases (load_state C disk)) [
    | inl e ↦ rw e refl
    | inr (state, e) ↦ rw e (load_identity-stored k state disk key json e other)
  ]

  files-stored :
      (fresh : C.Key) (pem file : Option C.Bytes) (key : String)
      → IsJson C
      → (key =ₛ "signature_algorithm") ≡ false
      → let disk : Store C = record { key_file = pem; state_file = file } in
        stored (load_or_create C fresh disk).1 key ≡ stored disk key
  unfolding load_or_create load_or_create_key stored load_state
  files-stored fresh none file key json other =
      opened-stored (some fresh)
        (record { key_file = some (C.private_bytes fresh); state_file = file }) key json other
  files-stored fresh (some pem) file key json other =
      opened-stored (C.load_pem_private_key pem) (record { key_file = some pem; state_file = file })
        key json other

  -- A saved value is what the changes give, and what was stored where they give none.
  save-stored :
      (changes : Dict) (fresh : C.Key) (disk : Store C) (key : String)
      → IsJson C
      → (key =ₛ "signature_algorithm") ≡ false
      → (stored (save C changes fresh disk).1 key ≡ stored disk key)
        ⊎ (stored (save C changes fresh disk).1 key ≡ last_of changes key (stored disk key))
  unfolding save merge_state stored get
  save-stored changes fresh disk key json other = elim (Option-cases (load_state C disk)) [
    | inl e ↦ inl (rw (save, merge_state, e) refl)
    | inr (state, e) ↦
        let before : stored disk key ≡ get state key = rw (stored, e) refl in
        let written = write_state C (merge state changes) disk in
        inr (
          rw (save, merge_state, e)
            (files-stored fresh written.key_file written.state_file key json other
              ∙ stored-write (merge state changes) disk key json
              ∙ get-merge state changes key
              ∙ ap (last_of changes key) (sym before)))
  ]

  -- The saves of the provisioned path.
  pub data Save : Type 0 where
    saves_activation : Activated → Save
    saves_binding_state : Bound → Save

  unfoldable pub changes_of : Save → Dict
  unfolding activation_changes binding_changes
  changes_of (saves_activation a) = activation_changes a
  changes_of (saves_binding_state b) = binding_changes b

  unfoldable pub run_saves : List Save → C.Key → Store C → Store C
  unfolding save changes_of
  run_saves [] fresh disk = disk
  run_saves (s ∷ saves) fresh disk = run_saves saves fresh (save C (changes_of s) fresh disk).1

  last_of-append :
      (xs ys : Dict) (key : String) (o : Option String)
      → last_of (xs ++ ys) key o ≡ last_of ys key (last_of xs key o)
  unfolding last_of
  last_of-append [] ys key o = refl
  last_of-append ((k, v) ∷ xs) ys key o = last_of-append xs ys key (if key =ₛ k then v else o)

  when_given-keeps :
      (key : String) (v o : Option String)
      → is_given o ≡ true
      → is_given (last_of (when_given key v) key o) ≡ true
  unfolding when_given last_of
  when_given-keeps key v o h = elim (Bool-cases (is_given v)) [
    | inl y ↦ rw (y, eq_refl key) y
    | inr n ↦ rw n h
  ]

  when_given-other :
      (k key : String) (v o : Option String)
      → (key =ₛ k) ≡ false
      → last_of (when_given k v) key o ≡ o
  unfolding when_given last_of
  when_given-other k key v o h = elim (Bool-cases (is_given v)) [
    | inl y ↦ rw (y, h) refl
    | inr n ↦ rw n refl
  ]

  append-other :
      (xs ys : Dict) (key : String) (o : Option String)
      → last_of xs key o ≡ o
      → last_of ys key o ≡ o
      → last_of (xs ++ ys) key o ≡ o
  append-other xs ys key o x y = last_of-append xs ys key o ∙ ap (last_of ys key) x ∙ y

  ids-other :
      (key : String) (connector credential o : Option String)
      → (key =ₛ "connector_id") ≡ false
      → (key =ₛ "credential_id") ≡ false
      → last_of (when_given "connector_id" connector ++ when_given "credential_id" credential) key o
        ≡ o
  ids-other key connector credential o x y =
      append-other (when_given "connector_id" connector) (when_given "credential_id" credential) key
        o (when_given-other "connector_id" key connector o x)
        (when_given-other "credential_id" key credential o y)

  -- A key that neither save writes.
  abbrev IsUnwritten : String → Type 0
  IsUnwritten key =
      All (λ k. (key =ₛ k) ≡ false)
        ("tenant_id" ∷ "product_key" ∷ "device_name" ∷ "identity_id" ∷ "binding_state"
          ∷ "bound_space_node_id" ∷ "bootstrap_mode" ∷ "connector_id" ∷ "credential_id" ∷ [])

  payload-other :
      (a : Activated) (key : String) (o : Option String)
      → (key =ₛ "tenant_id") ≡ false
      → (key =ₛ "product_key") ≡ false
      → (key =ₛ "device_name") ≡ false
      → (key =ₛ "identity_id") ≡ false
      → (key =ₛ "binding_state") ≡ false
      → (key =ₛ "bound_space_node_id") ≡ false
      → (key =ₛ "bootstrap_mode") ≡ false
      → last_of (activation_payload a) key o ≡ o
  unfolding activation_payload last_of
  payload-other a key o h1 h2 h3 h4 h5 h6 h7 = rw (h1, h2, h3, h4, h5, h6, h7) refl

  changes-other :
      (s : Save) (key : String) (o : Option String)
      → IsUnwritten key
      → last_of (changes_of s) key o ≡ o
  unfolding changes_of activation_changes binding_changes last_of
  changes-other (saves_activation a) key o (h1, (h2, (h3, (h4, (h5, (h6, (h7, (h8, (h9, _))))))))) =
      append-other (activation_payload a) _ key o (payload-other a key o h1 h2 h3 h4 h5 h6 h7)
        (ids-other key a.connector_id a.credential_id o h8 h9)
  changes-other (saves_binding_state b) key o
        (h1, (h2, (h3, (h4, (h5, (h6, (h7, (h8, (h9, _))))))))) =
      let state : Dict = ("binding_state", some b.binding_state) ∷ [] in
      let unwritten : last_of state key o ≡ o = rw (last_of, h5) refl in
      let space = when_given "bound_space_node_id" b.bound_space_node_id in
      let ids =
        when_given "connector_id" b.connector_id ++ when_given "credential_id" b.credential_id in
      append-other state (space ++ ids) key o unwritten (
        append-other space ids key o
          (when_given-other "bound_space_node_id" key b.bound_space_node_id o h6)
          (ids-other key b.connector_id b.credential_id o h8 h9))

  connector-keeps :
      (connector credential o : Option String)
      → is_given o ≡ true
      → is_given (
          last_of
            (when_given "connector_id" connector ++ when_given "credential_id" credential)
            "connector_id"
            o)
        ≡ true
  connector-keeps connector credential o h =
      rw
        (
          last_of-append (when_given "connector_id" connector)
              (when_given "credential_id" credential) "connector_id" o,
          when_given-other "credential_id" "connector_id" credential
              (last_of (when_given "connector_id" connector) "connector_id" o) refl,
        )
        (when_given-keeps "connector_id" connector o h)

  changes-connector_id :
      (s : Save) (o : Option String)
      → is_given o ≡ true
      → is_given (last_of (changes_of s) "connector_id" o) ≡ true
  unfolding changes_of activation_changes activation_payload binding_changes last_of
  changes-connector_id (saves_activation a) o h =
      rw
        (last_of-append (activation_payload a)
          (when_given "connector_id" a.connector_id ++ when_given "credential_id" a.credential_id)
          "connector_id" o)
        (connector-keeps a.connector_id a.credential_id o h)
  changes-connector_id (saves_binding_state b) o h =
      let ids =
        when_given "connector_id" b.connector_id ++ when_given "credential_id" b.credential_id in
      let space = when_given "bound_space_node_id" b.bound_space_node_id in
      let path : last_of (space ++ ids) "connector_id" o ≡ last_of ids "connector_id" o =
        last_of-append space ids "connector_id" o
        ∙ ap (last_of ids "connector_id")
            (when_given-other "bound_space_node_id" "connector_id" b.bound_space_node_id o refl) in
      subst (λ x. is_given x ≡ true) (sym path) (connector-keeps b.connector_id b.credential_id o h)

  -- Whatever the saves of the provisioned path write, in whatever order: a stored connector id is
  -- never lost, and the enrollment and its receipt stay as they are, if `json` decodes what it
  -- encodes up to the order of keys.
  pub run_saves-keeps :
      (saves : List Save) (fresh : C.Key) (disk : Store C)
      → IsJson C
      → is_given (stored disk "connector_id") ≡ true
      → let after = run_saves saves fresh disk in
        (is_given (stored after "connector_id") ≡ true)
        × (stored after "enrollment_id" ≡ stored disk "enrollment_id")
        × (stored after "exchange_receipt" ≡ stored disk "exchange_receipt")
  unfolding run_saves
  run_saves-keeps [] fresh disk json h = (h, refl, refl)
  run_saves-keeps (s ∷ saves) fresh disk json h =
      let next = (save C (changes_of s) fresh disk).1 in
      let kept : is_given (stored next "connector_id") ≡ true =
        elim (save-stored (changes_of s) fresh disk "connector_id" json refl) [
          | inl e ↦ rw e h
          | inr e ↦ rw e (changes-connector_id s (stored disk "connector_id") h)
        ] in
      let same : (key : String)
          → (key =ₛ "signature_algorithm") ≡ false
          → (last_of (changes_of s) key (stored disk key) ≡ stored disk key)
          → stored next key ≡ stored disk key =
        λ key other unwritten. elim (save-stored (changes_of s) fresh disk key json other) [
          | inl e ↦ e
          | inr e ↦ e ∙ unwritten
        ] in
      let (x, y, z) = run_saves-keeps saves fresh next json kept in
      (
        x,
        y
            ∙ same "enrollment_id" refl (
                changes-other s "enrollment_id" _
                  (refl, (refl, (refl, (refl, (refl, (refl, (refl, (refl, (refl, tt)))))))))),
        z
            ∙ same "exchange_receipt" refl (
                changes-other s "exchange_receipt" _
                  (refl, (refl, (refl, (refl, (refl, (refl, (refl, (refl, (refl, tt)))))))))),
      )
