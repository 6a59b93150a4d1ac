-- ===== src/Receipts/Lookup.antt =====
-- Lookup in `command_receipt` under the statements of command_store.py.
use zediot_hub_connector.Common.{
  List, Option, String, [], arith, dec_le, eq_iff, filter, none, refl, some, ℕ, ◌∷◌, ◌≡◌, ◌≢◌, ◌≤◌,
}
use zediot_hub_connector.Receipts.{Row, find, upsert}

module _ {T : Type 0} where
  -- No two rows share a key: the primary key.
  abbrev pub Absent : String → List (Row T) → Type 0
  Absent id [] = Unit {0}
  Absent id (r ∷ rows) = (r.command_id ≢ id) × Absent id rows

  abbrev pub IsKeyed : List (Row T) → Type 0
  IsKeyed [] = Unit {0}
  IsKeyed (r ∷ rows) = Absent r.command_id rows × IsKeyed rows

  abbrev pub kept : ℕ → List (Row T) → List (Row T)
  kept cutoff = filter (λ r. dec_le cutoff r.updated_at)

  Absent-kept :
      (id : String) (c : ℕ) (rows : List (Row T)) → Absent id rows → Absent id (kept c rows)
  Absent-kept id c [] h = tt
  Absent-kept id c (r ∷ rows) h = ground (arith, Absent-kept id c rows h.1)

  pub kept-IsKeyed : (c : ℕ) (rows : List (Row T)) → IsKeyed rows → IsKeyed (kept c rows)
  kept-IsKeyed c [] h = tt
  kept-IsKeyed c (r ∷ rows) h =
      ground (arith, kept-IsKeyed c rows h.1, Absent-kept r.command_id c rows h.0)

  pub find-Absent : (id : String) (rows : List (Row T)) → Absent id rows → find id rows ≡ none
  unfolding find
  find-Absent id [] h = refl
  find-Absent id (r ∷ rows) h = ground (arith, eq_iff r.command_id id, find-Absent id rows h.1)

  Absent-upsert :
      (id : String) (new : Row T) (rows : List (Row T))
      → new.command_id ≢ id
      → Absent id rows
      → Absent id (upsert new rows)
  unfolding upsert
  Absent-upsert id new [] n h = (n, tt)
  Absent-upsert id new (r ∷ rows) n h = ground (arith, Absent-upsert id new rows n h.1)

  pub upsert-IsKeyed :
      (new : Row T) (rows : List (Row T)) → IsKeyed rows → IsKeyed (upsert new rows)
  unfolding upsert
  upsert-IsKeyed new [] h = (tt, tt)
  upsert-IsKeyed new (r ∷ rows) h = ground (
    arith,
    eq_iff r.command_id new.command_id,
    upsert-IsKeyed new rows h.1,
    Absent-upsert r.command_id new rows,
  )

  -- The row that an `upsert` leaves under its key.
  unfoldable pub merged : Option (Row T) → Row T → Row T
  merged none new = new
  merged (some r) new = record new {
    command_id = r.command_id;
    idempotency_key = r.idempotency_key;
    envelope_digest = r.envelope_digest;
  }

  pub find-upsert_self :
      (new : Row T) (rows : List (Row T))
      → find new.command_id (upsert new rows) ≡ some (merged (find new.command_id rows) new)
  unfolding find upsert merged
  find-upsert_self new [] = ground (arith, eq_iff new.command_id new.command_id)
  find-upsert_self new (r ∷ rows) = ground (arith, find-upsert_self new rows)

  pub find-upsert_ne :
      (id : String) (new : Row T) (rows : List (Row T))
      → new.command_id ≢ id
      → find id (upsert new rows) ≡ find id rows
  unfolding find upsert
  find-upsert_ne id new [] n = ground (arith, eq_iff new.command_id id)
  find-upsert_ne id new (r ∷ rows) n = ground (
    arith,
    eq_iff new.command_id id,
    eq_iff r.command_id id,
    eq_iff r.command_id new.command_id,
    find-upsert_ne id new rows n,
  )

  -- A live row is found behind the pruning.
  pub find-kept :
      (id : String) (c : ℕ) (rows : List (Row T)) {r : Row T}
      → IsKeyed rows
      → find id rows ≡ some r
      → c ≤ r.updated_at
      → find id (kept c rows) ≡ some r
  unfolding find
  find-kept id c [] k e h = cc
  find-kept id c (x ∷ rows) {r} k e h =
      ground (arith, eq_iff x.command_id id, find-kept id c rows {r = r} k.1)

  -- What is found behind the pruning was there, and is live.
  pub find-kept-some :
      (id : String) (c : ℕ) (rows : List (Row T)) {r : Row T}
      → IsKeyed rows
      → find id (kept c rows) ≡ some r
      → (find id rows ≡ some r) × (c ≤ r.updated_at)
  unfolding find
  find-kept-some id c [] k e = cc
  find-kept-some id c (x ∷ rows) {r} k e = ground (
    arith,
    eq_iff x.command_id id,
    find-kept-some id c rows {r = r} k.1,
    find-Absent x.command_id (kept c rows) (Absent-kept x.command_id c rows k.0),
  )

  -- What is found has the key.
  pub find_key :
      (id : String) (rows : List (Row T)) {r : Row T} → find id rows ≡ some r → r.command_id ≡ id
  unfolding find
  find_key id [] e = cc
  find_key id (x ∷ rows) {r} e = ground (arith, eq_iff x.command_id id, find_key id rows {r = r})
