-- ===== src/RulePackage/Safe.antt =====
-- What `ensure_safe` of rule_package.py excludes: a forbidden key at any depth.
use zediot_hub_connector.Common.{
  Bool, String, false, mem_text, not, refl, subst, sym, true, ◌&&◌, ◌≡◌,
}
use zediot_hub_connector.Condition.Documents.{
  Document, Elements, Entries, Numbers, absent, array, boolean, element, entry, no_entry, no_more,
  number, object, string,
}
use zediot_hub_connector.RulePackage.{Tools, are_safe, entries_safe, forbidden_keys, is_safe}

module _ {P : Numbers} where
  -- A dictionary within a value has a key.
  mutual
    pub data KeyIn (key : String) : Document P → Type 0 where
      in_array : {xs : Elements P} → KeyInElements key xs → KeyIn key (array xs)
      in_object : {d : Entries P} → KeyInEntries key d → KeyIn key (object d)

    pub data KeyInElements (key : String) : Elements P → Type 0 where
      first_element :
          {v : Document P} {xs : Elements P} → KeyIn key v → KeyInElements key (element v xs)
      later_element :
          {v : Document P} {xs : Elements P}
          → KeyInElements key xs
          → KeyInElements key (element v xs)

    pub data KeyInEntries (key : String) : Entries P → Type 0 where
      here :
          {k : String} {v : Document P} {d : Entries P} → key ≡ k → KeyInEntries key (entry k v d)
      below :
          {k : String} {v : Document P} {d : Entries P}
          → KeyIn key v
          → KeyInEntries key (entry k v d)
      beside :
          {k : String} {v : Document P} {d : Entries P}
          → KeyInEntries key d
          → KeyInEntries key (entry k v d)

refuted : (b : Bool) → not b ≡ true → b ≡ false
refuted true h = absurd cc
refuted false h = refl

pub both : (a b : Bool) → (a && b) ≡ true → (a ≡ true) × (b ≡ true)
both true b h = (refl, h)
both false b h = absurd cc

module _ {P : Numbers} (T : Tools P) (key : String) where
  abbrev pub Allowed : Type 0
  Allowed = mem_text (T.normalize key) forbidden_keys ≡ false

  mutual
    unfolding is_safe are_safe entries_safe

    pub safe-KeyIn : (v : Document P) → is_safe T v ≡ true → KeyIn key v → Allowed
    safe-KeyIn (array xs) h (in_array within) = safe-KeyInElements xs h within
    safe-KeyIn (object d) h (in_object within) = safe-KeyInEntries d h within
    safe-KeyIn absent h within = elim within [ ]
    safe-KeyIn (boolean b) h within = elim within [ ]
    safe-KeyIn (number n) h within = elim within [ ]
    safe-KeyIn (string s) h within = elim within [ ]

    safe-KeyInElements : (xs : Elements P) → are_safe T xs ≡ true → KeyInElements key xs → Allowed
    safe-KeyInElements no_more h within = elim within [ ]
    safe-KeyInElements (element v xs) h (first_element within) =
        safe-KeyIn v (both (is_safe T v) (are_safe T xs) h).0 within
    safe-KeyInElements (element v xs) h (later_element within) =
        safe-KeyInElements xs (both (is_safe T v) (are_safe T xs) h).1 within

    safe-KeyInEntries : (d : Entries P) → entries_safe T d ≡ true → KeyInEntries key d → Allowed
    safe-KeyInEntries no_entry h within = elim within [ ]
    safe-KeyInEntries (entry k v d) h (here e) =
        let allowed =
          (both (not (mem_text (T.normalize k) forbidden_keys)) (is_safe T v && entries_safe T d)
            h).0 in
        subst (λ z. mem_text (T.normalize z) forbidden_keys ≡ false) (sym e)
          (refuted (mem_text (T.normalize k) forbidden_keys) allowed)
    safe-KeyInEntries (entry k v d) h (below within) =
        let rest =
          (both (not (mem_text (T.normalize k) forbidden_keys)) (is_safe T v && entries_safe T d)
            h).1 in
        safe-KeyIn v (both (is_safe T v) (entries_safe T d) rest).0 within
    safe-KeyInEntries (entry k v d) h (beside within) =
        let rest =
          (both (not (mem_text (T.normalize k) forbidden_keys)) (is_safe T v && entries_safe T d)
            h).1 in
        safe-KeyInEntries d (both (is_safe T v) (entries_safe T d) rest).1 within
