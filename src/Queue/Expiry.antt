-- ===== src/Queue/Expiry.antt =====
-- Expiry (`_expire_stale_queue` of queue.py): all rows or none.
use zediot_hub_connector.Common.{
  List, [], arith, length, refl, ℕ, ℕ_discrete, ◌++◌, ◌∷◌, ◌≡◌, ◌≢◌, ◌≤◌,
}
use zediot_hub_connector.Queue.{Queue, Row, cutoff_at, emptied, expire_stale_queue, expired, new}

module _ {T : Type 0} (q : Queue T) (now : ℕ) where
  pub expire_keeps : expired (cutoff_at q now) q.rows ≡ 0 → expire_stale_queue q now ≡ q
  unfolding expire_stale_queue
  expire_keeps h = rw h

  pub expire_empties : expired (cutoff_at q now) q.rows ≢ 0 → expire_stale_queue q now ≡ emptied q
  unfolding expire_stale_queue
  expire_empties h = ground arith

pub expire_cases {ℓ} :
    {T : Type 0} (P : Queue T → Type ℓ) (q : Queue T) (now : ℕ)
    → (expired (cutoff_at q now) q.rows ≡ 0 → P q)
    → (expired (cutoff_at q now) q.rows ≢ 0 → P (emptied q))
    → P (expire_stale_queue q now)
expire_cases P q now kept lost = elim (ℕ_discrete (expired (cutoff_at q now) q.rows) 0) [
  | yes h ↦ rw (expire_keeps q now h) (kept h)
  | no h ↦ rw (expire_empties q now h) (lost h)
]

-- A second expiry at the same time changes nothing.
pub expire_idem :
    {T : Type 0} (q : Queue T) (now : ℕ)
    → expire_stale_queue (expire_stale_queue q now) now ≡ expire_stale_queue q now
unfolding expired emptied
expire_idem q now =
    expire_cases (λ e. expire_stale_queue e now ≡ e) q now (expire_keeps q now)
      (λ h. expire_keeps (emptied q) now refl)

-- After an expiry no row is stale.
pub expire_settled :
    {T : Type 0} (q : Queue T) (now : ℕ)
    → let e = expire_stale_queue q now in expired (cutoff_at e now) e.rows ≡ 0
unfolding expired emptied
expire_settled q now =
    expire_cases (λ e. expired (cutoff_at e now) e.rows ≡ 0) q now (λ h. h) (λ h. refl)

pub length-expire :
    {T : Type 0} (q : Queue T) (now : ℕ) → length (expire_stale_queue q now).rows ≤ length q.rows
unfolding emptied
length-expire q now =
    expire_cases (λ e. length e.rows ≤ length q.rows) q now (λ h. omega arith) (λ h. omega arith)

pub expired_snoc :
    {T : Type 0} (cutoff : ℕ) (rows : List (Row T)) (new : Row T)
    → cutoff ≤ new.created_at
    → expired cutoff (rows ++ new ∷ []) ≡ expired cutoff rows
unfolding expired
expired_snoc c [] new h = ground arith
expired_snoc c (r ∷ rows) new h = ground (arith, expired_snoc c rows new h)
