-- ===== src/Identity/Merging.antt =====
-- What a merged state holds under a key.
use zediot_hub_connector.Common.{
  Bool-cases, Option, String, [], ap, eq_iff, false, if◌then◌else◌, inl, inr, refl, subst, sym,
  true, ◌=ₛ◌, ◌∙◌, ◌∷◌, ◌≡◌,
}
use mathlib.Core.Bool.{true≢false}
use zediot_hub_connector.Identity.{Dict, get, merge, put}

-- The last value that the changes give for a key.
unfoldable pub last_of : Dict → String → Option String → Option String
last_of [] key o = o
last_of ((k, v) ∷ changes) key o = last_of changes key (if key =ₛ k then v else o)

pub get-put :
    (k key : String) (v : Option String) (d : Dict)
    → get (put k v d) key ≡ (if key =ₛ k then v else get d key)
unfolding get put
get-put k key v [] = elim (Bool-cases (key =ₛ k)) [ inl e ↦ rw e refl | inr n ↦ rw n refl ]
get-put k key v ((k', u) ∷ d) = elim (Bool-cases (k =ₛ k')) [
  | inl same ↦
      let e = (eq_iff k k').0 same in
      elim (Bool-cases (key =ₛ k)) [
        | inl y ↦ rw (same, y, subst (λ x. (key =ₛ x) ≡ true) e y) refl
        | inr n ↦ rw (same, n, subst (λ x. (key =ₛ x) ≡ false) e n) refl
      ]
  | inr other ↦ elim (Bool-cases (key =ₛ k')) [
    | inl y ↦
        let e = (eq_iff key k').0 y in
        elim (Bool-cases (key =ₛ k)) [
          | inl z ↦
              let clash : (k =ₛ k') ≡ true = (eq_iff k k').1 (sym ((eq_iff key k).0 z) ∙ e) in
              absurd (true≢false (sym clash ∙ other))
          | inr n ↦ rw (other, y, n) refl
        ]
    | inr n ↦ rw (other, n) (get-put k key v d)
  ]
]

pub get-merge :
    (d changes : Dict) (key : String) → get (merge d changes) key ≡ last_of changes key (get d key)
unfolding merge last_of
get-merge d [] key = refl
get-merge d ((k, v) ∷ changes) key =
    get-merge (put k v d) changes key ∙ ap (last_of changes key) (get-put k key v d)
