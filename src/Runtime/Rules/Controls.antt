-- ===== src/Runtime/Rules/Controls.antt =====
-- The controls of runtime.py when the core sends the same ones again.
use zediot_hub_connector.Common.{
  All, Bool, Bool-cases, List, String, [], arith, false, inl, inr, mem_text, not, refl, subst, sym,
  true, ℕ, ◌=ₛ◌, ◌∷◌, ◌≡◌, ◌⊎◌,
}
use zediot_hub_connector.RuleStore.{PackageRow, RuleStore, apply_control, has_package, where_}
use zediot_hub_connector.Runtime.Rules.{
  Progress, add_progress, apply_controls, progress_raised, progressed,
}

Progress-cases : (p : Progress) → ((n : ℕ) × (p ≡ progressed n)) ⊎ (p ≡ progress_raised)
Progress-cases (progressed n) = inl (n, refl)
Progress-cases progress_raised = inr refl

module _ {T : Type 0} where
  abbrev other_than : String → PackageRow T → Bool
  other_than id r = not (r.package_id =ₛ id)

  where_-absent :
      (id : String) (rows : List (PackageRow T))
      → has_package id rows ≡ false
      → where_ (other_than id) rows ≡ rows
  unfolding has_package where_
  where_-absent id [] h = refl
  where_-absent id (r ∷ rows) h = ground (arith, where_-absent id rows)

  has_package-deleted :
      (id : String) (rows : List (PackageRow T))
      → has_package id (where_ (other_than id) rows) ≡ false
  unfolding has_package where_
  has_package-deleted id [] = refl
  has_package-deleted id (r ∷ rows) = ground (arith, has_package-deleted id rows)

  has_package-where_ :
      (id : String) (test : PackageRow T → Bool) (rows : List (PackageRow T))
      → has_package id rows ≡ false
      → has_package id (where_ test rows) ≡ false
  unfolding has_package where_
  has_package-where_ id test [] h = refl
  has_package-where_ id test (r ∷ rows) h = ground (arith, has_package-where_ id test rows)

  -- A control that is one of the two known ones, and whose package is gone.
  abbrev Gone : List (String × String) → RuleStore T → Type 0
  Gone controls s =
      All
        (λ c.
          (mem_text c.0 ("revoked" ∷ "expired" ∷ []) ≡ true) × (has_package c.1 s.packages ≡ false))
        controls

  Gone-again :
      (controls : List (String × String)) (s : RuleStore T)
      → Gone controls s
      → apply_controls controls s ≡ (progressed 0, s)
  unfolding apply_controls apply_control add_progress
  Gone-again [] s h = refl
  Gone-again ((status, id) ∷ controls) s ((known, gone), h) =
      let rest = Gone-again controls s h in
      rw (apply_controls, apply_control, known, gone, where_-absent id s.packages gone, rest) refl

  apply_controls-absent :
      (controls : List (String × String)) (s : RuleStore T) (id : String)
      → has_package id s.packages ≡ false
      → has_package id (apply_controls controls s).1.packages ≡ false
  unfolding apply_controls apply_control
  apply_controls-absent [] s id h = h
  apply_controls-absent ((status, other) ∷ controls) s id h =
      elim (Bool-cases (mem_text status ("revoked" ∷ "expired" ∷ []))) [
        | inr n ↦ rw (apply_controls, apply_control, n) h
        | inl y ↦
            let next : RuleStore T = record s { packages = where_ (other_than other) s.packages } in
            rw (apply_controls, apply_control, y)
              (apply_controls-absent controls next id
                (has_package-where_ id (other_than other) s.packages h))
      ]

  controls-Gone :
      (controls : List (String × String)) (s : RuleStore T) (n : ℕ)
      → (apply_controls controls s).0 ≡ progressed n
      → Gone controls (apply_controls controls s).1
  unfolding apply_controls apply_control
  controls-Gone [] s n h = tt
  controls-Gone ((status, id) ∷ controls) s n h =
      let next : RuleStore T = record s { packages = where_ (other_than id) s.packages } in
      elim (Bool-cases (mem_text status ("revoked" ∷ "expired" ∷ []))) [
        | inr unknown ↦
            let raised : (apply_controls ((status, id) ∷ controls) s).0 ≡ progress_raised =
              rw (apply_controls, apply_control, unknown) refl in
            absurd cc
        | inl known ↦ elim (Progress-cases (apply_controls controls next).0) [
          | inr raised_later ↦
              let raised : (apply_controls ((status, id) ∷ controls) s).0 ≡ progress_raised =
                rw (apply_controls, apply_control, known, raised_later)
                  (unfold add_progress in refl) in
              absurd cc
          | inl (m, later) ↦
              let goes_on : (apply_controls ((status, id) ∷ controls) s).1
                  ≡ (apply_controls controls next).1 =
                rw (apply_controls, apply_control, known) refl in
              subst (Gone ((status, id) ∷ controls)) (sym goes_on) (
                (known, apply_controls-absent controls next id (has_package-deleted id s.packages)),
                controls-Gone controls next m later,
              )
        ]
      ]

  -- The core sends the list of its controls with every claim. When a list has been worked off, the
  -- same list makes no progress and leaves the store as it is.
  pub apply_controls-again :
      (controls : List (String × String)) (s : RuleStore T) (n : ℕ)
      → (apply_controls controls s).0 ≡ progressed n
      → let s' = (apply_controls controls s).1 in apply_controls controls s' ≡ (progressed 0, s')
  apply_controls-again controls s n h =
      Gone-again controls (apply_controls controls s).1 (controls-Gone controls s n h)
