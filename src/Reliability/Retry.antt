-- ===== src/Reliability/Retry.antt =====
-- `retry_bounded` of reliability.py. The operation, `retryable` and `sleep` are arguments, over a
-- state of any type that stands for the world. `random.random()` is a number of 2 ^ 53-ths, given
-- for each attempt; a base delay is in milliseconds and a slept time in 2 ^ 55-ths of them.
use zediot_hub_connector.Common.{
  ==_iff, Bool, Bool-cases, ap, arith, false, if◌then◌else◌, inl, inr, ltb, min, not, refl, subst,
  suc, true, zero, ℕ, ℕ_discrete, ◌*◌, ◌+◌, ◌-◌, ◌<◌, ◌==◌, ◌^◌, ◌||◌, ◌≡◌, ◌≤◌,
}

pub data Outcome (A E : Type 0) : Type 0 where
  returned : A → Outcome A E
  raised : E → Outcome A E

-- How the call ends: with a result, with the exception of the operation, with the `ValueError` for
-- `max_attempts`, or with the `RuntimeError` behind the loop.
pub data Ending (A E : Type 0) : Type 0 where
  finished : A → Ending A E
  failed : E → Ending A E
  invalid_attempts : Ending A E
  unreachable : Ending A E

-- `min(base_seconds * (2 ** (attempt - 1)), 30.0)`
unfoldable pub cap_of : ℕ → ℕ → ℕ
cap_of base attempt = min (base * 2 ^ (attempt - 1)) 30_000

-- `cap * (0.75 + random.random() * 0.5)`
unfoldable pub delay_of : ℕ → ℕ → ℕ → ℕ
delay_of base attempt random = cap_of base attempt * (3 * 2 ^ 53 + 2 * random)

mul_bound : (c r m : ℕ) → r ≤ m → c * r ≤ c * m
mul_bound c r m h = grind arith

cap_bound : (base attempt : ℕ) → cap_of base attempt ≤ 30_000
unfolding cap_of
cap_bound base attempt = omega arith

-- If `random.random()` lies below 1, every sleep lasts from three quarters to five quarters of the
-- capped delay, and less than 37.5 seconds.
pub delay_bounds :
    (base attempt random : ℕ)
    → random < 2 ^ 53
    → (3 * 2 ^ 53 * cap_of base attempt ≤ delay_of base attempt random)
      × (delay_of base attempt random ≤ 5 * 2 ^ 53 * cap_of base attempt)
      × (delay_of base attempt random < 37_500 * 2 ^ 55)
unfolding delay_of
delay_bounds base attempt random h =
    let c = cap_of base attempt in
    let product : c * random ≤ c * (2 ^ 53 - 1) = mul_bound c random (2 ^ 53 - 1) (omega arith) in
    (omega arith, omega (arith, product), omega (arith, product, cap_bound base attempt))

module _ {S A E : Type 0} (operation : S → Outcome A E × S) (retryable : E → Bool)
    (sleep : ℕ → S → S) (random : ℕ → ℕ) (max_attempts base : ℕ) where
  unfoldable pub pause : ℕ → S → S
  pause attempt s = sleep (delay_of base attempt (random attempt)) s

  -- The `try` of one round; `rest` is the rest of the loop, from the state after the operation.
  unfoldable pub settle : ℕ → Outcome A E × S → (S → Ending A E × S) → Ending A E × S
  settle attempt (returned a, s') rest = (finished a, s')
  settle attempt (raised e, s') rest =
      let again = rest s' in
      if attempt == max_attempts || not (retryable e) then (failed e, s') else again

  -- The loop from an attempt on, with the number of rounds of the `range` that are left.
  unfoldable pub retry_from : ℕ → ℕ → S → Ending A E × S
  unfolding settle pause
  retry_from zero attempt s = (unreachable, s)
  retry_from (suc left) attempt s =
      settle attempt (operation s) (λ s'. retry_from left (attempt + 1) (pause attempt s'))

  unfoldable pub retry_bounded : S → Ending A E × S
  unfolding retry_from
  retry_bounded s =
      if ltb max_attempts 1 then (invalid_attempts, s) else retry_from max_attempts 1 s

  -- What the caller may rely on, attempt by attempt.
  pub data Tried : ℕ → S → Ending A E → S → Type 0 where
    at_once :
        {n : ℕ} {s s' : S} {a : A} → operation s ≡ (returned a, s') → Tried n s (finished a) s'
    for_good :
        {n : ℕ} {s s' : S} {e : E}
        → operation s ≡ (raised e, s')
        → retryable e ≡ false
        → Tried n s (failed e) s'
    at_last :
        {n : ℕ} {s s' : S} {e : E}
        → operation s ≡ (raised e, s')
        → n ≡ max_attempts
        → Tried n s (failed e) s'
    again :
        {n : ℕ} {s s' s'' : S} {e : E} {r : Ending A E}
        → operation s ≡ (raised e, s')
        → retryable e ≡ true
        → n < max_attempts
        → Tried (n + 1) (pause n s') r s''
        → Tried n s r s''

  after_raise :
      (n : ℕ) (s s' : S) (e : E) (rest : Ending A E × S)
      → operation s ≡ (raised e, s')
      → n ≤ max_attempts
      → (n < max_attempts → Tried (n + 1) (pause n s') rest.0 rest.1)
      → let r = if n == max_attempts || not (retryable e) then (failed e, s') else rest in
        Tried n s r.0 r.1
  after_raise n s s' e rest o h ih = elim (ℕ_discrete n max_attempts) [
    | yes last ↦ rw ((==_iff n max_attempts).1 last) (at_last o last)
    | no more ↦
        let differ : (n == max_attempts) ≡ false = ground arith in
        elim (Bool-cases (retryable e)) [
          | inl yes_retry ↦
              rw (differ, yes_retry) (again o yes_retry (omega arith) (ih (omega arith)))
          | inr no_retry ↦ rw (differ, no_retry) (for_good o no_retry)
        ]
  ]

  settle-Tried :
      (n : ℕ) (s : S) (p : Outcome A E × S) (rest : S → Ending A E × S)
      → operation s ≡ p
      → n ≤ max_attempts
      → ((s' : S) → n < max_attempts → Tried (n + 1) (pause n s') (rest s').0 (rest s').1)
      → Tried n s (settle n p rest).0 (settle n p rest).1
  unfolding settle
  settle-Tried n s (returned a, s') rest o h ih = at_once o
  settle-Tried n s (raised e, s') rest o h ih = after_raise n s s' e (rest s') o h (ih s')

  retry_from-Tried :
      (left n : ℕ) (s : S)
      → n ≤ max_attempts
      → left + n ≡ max_attempts + 1
      → Tried n s (retry_from left n s).0 (retry_from left n s).1
  unfolding retry_from
  retry_from-Tried zero n s h e = absurd (omega arith)
  retry_from-Tried (suc left) n s h e =
      settle-Tried n s (operation s) (λ s'. retry_from left (n + 1) (pause n s')) refl h
        (λ s' lt. retry_from-Tried left (n + 1) (pause n s') (omega arith) (omega arith))

  -- With a positive `max_attempts` the call does what `Tried` says from the first attempt on: it
  -- ends with the first result, with an exception that is not retryable, or with the exception of
  -- the last attempt, and sleeps between two attempts.
  pub retry_bounded-Tried :
      (s : S) → 1 ≤ max_attempts → Tried 1 s (retry_bounded s).0 (retry_bounded s).1
  unfolding retry_bounded
  retry_bounded-Tried s h =
      let test : ltb max_attempts 1 ≡ false = ground arith in
      rw test (retry_from-Tried max_attempts 1 s h refl)

  -- What the operation and sleeping keep holds at the end, and how an ending came about.
  module _ {ℓ} (P : S → Type ℓ) (op_keeps : (s : S) → P s → P (operation s).1)
      (sleep_keeps : (d : ℕ) (s : S) → P s → P (sleep d s)) where
    pub Tried-failed :
        {n : ℕ} {s s' : S} {e : E}
        → Tried n s (failed e) s'
        → P s
        → (x : S) × P x × (operation x ≡ (raised e, s'))
    unfolding pause
    Tried-failed {s = x} (for_good o _) h = (x, h, o)
    Tried-failed {s = x} (at_last o _) h = (x, h, o)
    Tried-failed {n = k} {s = x} (again {s' = y} o _ _ rest) h =
        Tried-failed rest
          (sleep_keeps (delay_of base k (random k)) y (subst (λ p. P p.1) o (op_keeps x h)))

    pub Tried-finished :
        {n : ℕ} {s s' : S} {a : A}
        → Tried n s (finished a) s'
        → P s
        → (x : S) × P x × (operation x ≡ (returned a, s'))
    unfolding pause
    Tried-finished {s = x} (at_once o) h = (x, h, o)
    Tried-finished {n = k} {s = x} (again {s' = y} o _ _ rest) h =
        Tried-finished rest
          (sleep_keeps (delay_of base k (random k)) y (subst (λ p. P p.1) o (op_keeps x h)))

    pub Tried-keeps : {n : ℕ} {s s' : S} {r : Ending A E} → Tried n s r s' → P s → P s'
    unfolding pause
    Tried-keeps {s = x} (at_once o) h = subst (λ p. P p.1) o (op_keeps x h)
    Tried-keeps {s = x} (for_good o _) h = subst (λ p. P p.1) o (op_keeps x h)
    Tried-keeps {s = x} (at_last o _) h = subst (λ p. P p.1) o (op_keeps x h)
    Tried-keeps {n = k} {s = x} (again {s' = y} o _ _ rest) h =
        Tried-keeps rest
          (sleep_keeps (delay_of base k (random k)) y (subst (λ p. P p.1) o (op_keeps x h)))

  module _ (count : S → ℕ) (counts : (s : S) → count (operation s).1 ≡ count s + 1)
      (free : (d : ℕ) (s : S) → count (sleep d s) ≡ count s) where
    Tried-count :
        {n : ℕ} {s s' : S} {r : Ending A E}
        → Tried n s r s'
        → n ≤ max_attempts
        → (count s + 1 ≤ count s') × (count s' + n ≤ count s + max_attempts + 1)
    unfolding pause
    Tried-count {s = x} (at_once o) h = omega (arith, counts x, ap (λ p. count p.1) o)
    Tried-count {s = x} (for_good o _) h = omega (arith, counts x, ap (λ p. count p.1) o)
    Tried-count {s = x} (at_last o _) h = omega (arith, counts x, ap (λ p. count p.1) o)
    Tried-count {n = k} {s = x} (again {s' = y} o _ lt rest) h = omega (
      arith,
      counts x,
      ap (λ p. count p.1) o,
      free (delay_of base k (random k)) y,
      Tried-count rest (omega arith),
    )

    -- With a positive `max_attempts` the operation is called at least once and that often at most, if the count is one
    -- that each call of the operation raises by one and that sleeping leaves alone.
    pub retry_bounded_count :
        (s : S)
        → 1 ≤ max_attempts
        → let s' = (retry_bounded s).1 in
          (count s + 1 ≤ count s') × (count s' ≤ count s + max_attempts)
    retry_bounded_count s h = omega (arith, Tried-count (retry_bounded-Tried s h) h)
