-- ===== src/Receipts/Laws.antt =====
-- What `get` and `save` of command_store.py promise.
use mathlib.Core.Option
use zediot_hub_connector.Common.{
  List, Option, String, ap, arith, eq_iff, false, inl, inr, none, refl, some, sym, ℕ, ◌∙◌, ◌≡◌, ◌≢◌,
  ◌≤◌, ◌⊎◌,
}
use zediot_hub_connector.Queue.{Json, IsJson}
use zediot_hub_connector.Receipts.{
  Receipt, Request, Row, Store, Times, conflict, conflicts, cutoff_at, find, get, prune,
  receipt_of_row, row_of, save, saved, upsert, write,
}
use zediot_hub_connector.Receipts.Lookup.{
  IsKeyed, find-kept, find-upsert_self, find_key, kept-IsKeyed, merged, upsert-IsKeyed,
}

module _ (J : Json) where
  abbrev pub IsValid : Store J.Encoded → Type 0
  IsValid s = IsKeyed s.rows

  get-IsValid :
      (s : Store J.Encoded) (now : ℕ) (id : String) → IsValid s → IsValid (get J s now id).0
  unfolding get prune
  get-IsValid s now id v = kept-IsKeyed (cutoff_at s now) s.rows v

  write-IsValid :
      (s : Store J.Encoded) (q : Request J.Value) (now : ℕ) → IsValid s → IsValid (write J s q now)
  unfolding write
  write-IsValid s q now v = upsert-IsKeyed (row_of J q now) s.rows v

  -- `save` keeps the keys of the table distinct, also when it raises.
  pub save-IsValid :
      (s : Store J.Encoded) (t : Times) (q : Request J.Value) → IsValid s → IsValid (save J s t q).0
  unfolding save
  save-IsValid s t q v =
      let s' = (get J s t.before q.command_id).0 in
      let w = get-IsValid s t.before q.command_id v in
      ground (
        arith,
        w,
        get-IsValid (write J s' q t.written) t.after q.command_id (write-IsValid s' q t.written w),
      )

  -- What a `save` returns is the row that it leaves under the command.
  pub save-stored :
      (s : Store J.Encoded) (t : Times) (q : Request J.Value) {x : Option (Receipt J.Value)}
      → (save J s t q).1 ≡ saved x
      → x ≡ Option.map (receipt_of_row J) (find q.command_id (save J s t q).0.rows)
  unfolding save get
  save-stored s t q {x} e = ground arith

  -- A command identity that is live under another idempotency key or another envelope digest
  -- is refused, and no row is written.
  save_conflict :
      (s : Store J.Encoded) (t : Times) (q : Request J.Value) {r : Receipt J.Value}
      → (get J s t.before q.command_id).1 ≡ some r
      → (r.idempotency_key ≢ q.idempotency_key) ⊎ (r.envelope_digest ≢ q.digest)
      → save J s t q ≡ ((get J s t.before q.command_id).0, conflict)
  unfolding save conflicts
  save_conflict s t q {r} e n =
      rw (e, conflicts)
        (ground
          (arith, eq_iff r.idempotency_key q.idempotency_key, eq_iff r.envelope_digest q.digest))

  -- The receipt that a `save` without conflict hands back.
  abbrev pub result_of : Request J.Value → ℕ → Receipt J.Value
  result_of q written = record {
    command_id = q.command_id;
    idempotency_key = q.idempotency_key;
    envelope_digest = q.digest;
    status = q.status;
    reason_code = q.reason_code;
    evidence = q.evidence;
    updated_at = written;
  }

  receipt_of_row-row_of :
      IsJson J
      → (q : Request J.Value) (now : ℕ) → receipt_of_row J (row_of J q now) ≡ result_of q now
  unfolding receipt_of_row row_of
  receipt_of_row-row_of law q now = rw (law.loads-dumps q.evidence)

  -- Behind the conflict test the row under the key is the request's, whether it is new or not.
  find-write :
      (rows : List (Row J.Encoded)) (q : Request J.Value) (now : ℕ) (o : Option (Row J.Encoded))
      → find q.command_id rows ≡ o
      → conflicts J q (Option.map (receipt_of_row J) o) ≡ false
      → find q.command_id (upsert (row_of J q now) rows) ≡ some (row_of J q now)
  unfolding conflicts receipt_of_row merged row_of
  find-write rows q now none e h = find-upsert_self (row_of J q now) rows ∙ rw e
  find-write rows q now (some r) e h =
      find-upsert_self (row_of J q now) rows
      ∙ rw e (
          ground (
            arith,
            find_key q.command_id rows e,
            eq_iff r.idempotency_key q.idempotency_key,
            eq_iff r.envelope_digest q.digest,
          ))

  -- A row that is found and live is what `get` returns.
  pub get-find :
      (s : Store J.Encoded) (now : ℕ) (id : String) (r : Row J.Encoded)
      → IsValid s
      → find id s.rows ≡ some r
      → cutoff_at s now ≤ r.updated_at
      → (get J s now id).1 ≡ some (receipt_of_row J r)
  unfolding get prune
  get-find s now id r v e h = rw (find-kept id (cutoff_at s now) s.rows v e h)

  module _ (law : IsJson J) (s : Store J.Encoded) (t : Times) (q : Request J.Value) (v : IsValid s)
      (agrees : conflicts J q (get J s t.before q.command_id).1 ≡ false) where
    pruned : Store J.Encoded
    pruned = (get J s t.before q.command_id).0

    written_store : Store J.Encoded
    written_store = write J pruned q t.written

    written_store-IsValid : IsValid written_store
    unfolding written_store pruned
    written_store-IsValid = write-IsValid _ q t.written (get-IsValid s t.before q.command_id v)

    find-written_store : find q.command_id written_store.rows ≡ some (row_of J q t.written)
    unfolding written_store pruned write get
    find-written_store =
        find-write (prune s t.before).rows q t.written (find q.command_id (prune s t.before).rows)
          refl (unfold get in agrees)

    cutoff-written_store : (now : ℕ) → cutoff_at written_store now ≡ cutoff_at s now
    unfolding written_store pruned write get prune cutoff_at
    cutoff-written_store now = refl

    written_at : (row_of J q t.written).updated_at ≡ t.written
    unfolding row_of
    written_at = refl

    get-written_store :
        (now : ℕ)
        → cutoff_at s now ≤ t.written
        → (get J written_store now q.command_id).1 ≡ some (result_of q t.written)
    get-written_store now h =
        get-find written_store now q.command_id (row_of J q t.written) written_store-IsValid
          find-written_store (omega (arith, cutoff-written_store now, written_at))
        ∙ ap some (receipt_of_row-row_of law q t.written)

    save-written : save J s t q ≡ (
      (get J written_store t.after q.command_id).0,
      saved (get J written_store t.after q.command_id).1,
    )
    unfolding save written_store pruned
    save-written = rw agrees

    -- A `save` on a store with distinct keys that meets no conflict returns what it was asked to
    -- write, if `json` decodes what it encodes and the retention has not run out by the time of its
    -- last reading.
    pub save_returns :
        cutoff_at s t.after ≤ t.written → (save J s t q).1 ≡ saved (some (result_of q t.written))
    save_returns h = rw save-written (ap saved (get-written_store t.after h))

    find-saved :
        cutoff_at s t.after ≤ t.written
        → find q.command_id (save J s t q).0.rows ≡ some (row_of J q t.written)
    find-saved h = rw save-written (
        unfold get prune in
        find-kept q.command_id (cutoff_at written_store t.after) written_store.rows
          written_store-IsValid find-written_store
          (omega (arith, cutoff-written_store t.after, written_at)))

    cutoff-saved : (now : ℕ) → cutoff_at (save J s t q).0 now ≡ cutoff_at s now
    cutoff-saved now =
        rw save-written (unfold get prune cutoff_at written_store pruned write in refl)

    -- After a `save` without conflict on a store with distinct keys a `get` of the same command
    -- returns what was saved, if `json` decodes what it encodes, until the retention has run out.
    pub get-save :
        (now : ℕ)
        → cutoff_at s t.after ≤ t.written
        → cutoff_at s now ≤ t.written
        → (get J (save J s t q).0 now q.command_id).1 ≡ some (result_of q t.written)
    get-save now h h' =
        get-find (save J s t q).0 now q.command_id (row_of J q t.written) (save-IsValid s t q v)
          (find-saved h) (omega (arith, cutoff-saved now, written_at))
        ∙ ap some (receipt_of_row-row_of law q t.written)

    pruned_again :
        (t' : Times) (q' : Request J.Value)
        → cutoff_at s t.after ≤ t.written
        → cutoff_at s t'.before ≤ t.written
        → find q.command_id (get J (save J s t q).0 t'.before q'.command_id).0.rows
          ≡ some (row_of J q t.written)
    unfolding get prune
    pruned_again t' q' h h' =
        find-kept q.command_id (cutoff_at (save J s t q).0 t'.before) (save J s t q).0.rows
          (save-IsValid s t q v) (find-saved h) (omega (arith, cutoff-saved t'.before, written_at))

    still_live :
        (t' : Times) (q' : Request J.Value) (now : ℕ)
        → cutoff_at s now ≤ t.written
        → cutoff_at (get J (save J s t q).0 t'.before q'.command_id).0 now
          ≤ (row_of J q t.written).updated_at
    still_live t' q' now h =
        let same : cutoff_at (get J (save J s t q).0 t'.before q'.command_id).0 now
            ≡ cutoff_at (save J s t q).0 now =
          unfold get prune cutoff_at in refl in
        omega (arith, same, cutoff-saved now, written_at)

    -- A command identity is taken by the first `save` under it. When a `save` on a store with
    -- distinct keys has met no conflict, a later one under the same command with another
    -- idempotency key or another envelope digest is refused, and behind it a `get` of the command
    -- still returns what the first has saved, if `json` decodes what it encodes, until the
    -- retention of the first has run out.
    pub second_request_refused :
        (t' : Times) (q' : Request J.Value) (now : ℕ)
        → q'.command_id ≡ q.command_id
        → (q'.idempotency_key ≢ q.idempotency_key) ⊎ (q'.digest ≢ q.digest)
        → cutoff_at s t.after ≤ t.written
        → cutoff_at s t'.before ≤ t.written
        → cutoff_at s now ≤ t.written
        → let again = save J (save J s t q).0 t' q' in
          (again.1 ≡ conflict) × ((get J again.0 now q.command_id).1 ≡ some (result_of q t.written))
    second_request_refused t' q' now same differs h h' h'' =
        let first = (save J s t q).0 in
        let found : (get J first t'.before q'.command_id).1 ≡ some (result_of q t.written) =
          rw same (get-save t'.before h h') in
        let other : ((result_of q t.written).idempotency_key ≢ q'.idempotency_key)
            ⊎ ((result_of q t.written).envelope_digest ≢ q'.digest) =
          elim differs [ inl k ↦ inl (λ e. k (sym e)) | inr d ↦ inr (λ e. d (sym e)) ] in
        let refused = save_conflict first t' q' found other in
        let left = (get J first t'.before q'.command_id).0 in
        (
          ap (λ p. p.1) refused,
          ap (λ p. (get J p.0 now q.command_id).1) refused
              ∙ get-find left now q.command_id (row_of J q t.written)
                  (get-IsValid first t'.before q'.command_id (save-IsValid s t q v))
                  (pruned_again t' q' h h') (still_live t' q' now h'')
              ∙ ap some (receipt_of_row-row_of law q t.written),
        )
