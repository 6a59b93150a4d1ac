-- ===== src/Executor/Memory.antt =====
-- What `execute` of command_executor.py returns is what its receipt store remembers.
use mathlib.Core.Option
use mathlib.Core.Option.{some_inj}
use zediot_hub_connector.Common.{
  Bool, Bool-cases, Option, String, ap, arith, false, if◌then◌else◌, inl, inr, none, refl, some,
  subst, suc, sym, true, zero, ℕ, ◌=ₛ◌, ◌∙◌, ◌≡◌, ◌≢◌, ◌≤◌,
}
use zediot_hub_connector.Receipts.{
  Receipt, Request, Row, Times, cutoff_at, find, get, prune, receipt_of_row, save,
}
use zediot_hub_connector.Receipts.Lookup.{IsKeyed, kept-IsKeyed}
use zediot_hub_connector.Receipts.Laws.{get-find, save-IsValid, save-stored}
use zediot_hub_connector.Executor.{
  Action, Delivery, Envelope, Error, Evidence, Home, Library, Machine, Reading, Result, ServiceCall,
  ServiceOutcome, accepted, after_call, after_readback, after_reading, attempt, attempt_by,
  call_failed, call_service, dispatch, err, execute, execute_valid, get_receipt, is_terminal, json,
  missing, not_allowlisted, nothing, now, observed, ok, poll, poll_rounds, read_state, request,
  round, save_at, save_receipt, sleep, timed_out, unless_expired, unless_terminal, unreadable,
  validate_command_envelope, wait_for_readback, ◌>>=◌, ◌>>◌,
}

module _ (L : Library) (H : Home) where
  -- The receipts are those of before.
  abbrev IsStill : {A : Type 0} → Action L H A → Type 0
  IsStill a = (m : Machine L H) → (a m).1.receipts ≡ m.receipts

  after_reading-IsStill :
      (r : Reading) (expected : String) (rest : Action L H (Option String))
      → IsStill rest
      → IsStill (after_reading L H r expected rest)
  unfolding after_reading
  after_reading-IsStill (observed state) expected rest h m = ground (arith, h m)
  after_reading-IsStill missing expected rest h m = h m
  after_reading-IsStill unreadable expected rest h m = refl

  round-IsStill :
      (b : Bool) (entity_id expected : String) (rest : Action L H (Option String))
      → IsStill rest
      → IsStill (round L H b entity_id expected rest)
  unfolding round read_state
  round-IsStill false entity_id expected rest h m = refl
  round-IsStill true entity_id expected rest h m = after_reading-IsStill _ expected rest h _

  poll-IsStill :
      (fuel : ℕ) (entity_id expected : String) (deadline : ℕ)
      → IsStill (poll L H fuel entity_id expected deadline)
  unfolding poll now sleep
  poll-IsStill zero entity_id expected deadline m = refl
  poll-IsStill (suc fuel) entity_id expected deadline m =
      round-IsStill _ entity_id expected
        (◌>>◌ L H (sleep L H 200_000) (poll L H fuel entity_id expected deadline))
        (λ m'. poll-IsStill fuel entity_id expected deadline _) _

  wait-IsStill :
      (entity_id expected : String) (deadline : ℕ)
      → IsStill (wait_for_readback L H entity_id expected deadline)
  unfolding wait_for_readback now
  wait-IsStill entity_id expected deadline m = poll-IsStill poll_rounds entity_id expected _ _

  abbrev HasKeys : Machine L H → Type 0
  HasKeys m = IsKeyed m.receipts.rows

  -- The receipt of the row that is stored under a command.
  abbrev stored : String → Machine L H → Option (Receipt Evidence)
  stored id m = Option.map (receipt_of_row (json L)) (find id m.receipts.rows)

  -- The action keeps the keys of the table distinct, and what it returns is stored.
  abbrev Remembers : String → Action L H (Option (Receipt Evidence)) → Type 0
  Remembers id a =
      (m : Machine L H)
      → HasKeys m
      → HasKeys (a m).1 × ((x : Option (Receipt Evidence)) → (a m).0 ≡ ok x → x ≡ stored id (a m).1)

  bind-Remembers :
      {A : Type 0} (id : String) (a : Action L H A) (f : A → Action L H (Option (Receipt Evidence)))
      → ((m : Machine L H) → HasKeys m → HasKeys (a m).1)
      → ((x : A) → Remembers id (f x))
      → Remembers id (◌>>=◌ L H a f)
  bind-Remembers {A} id a f ka rf m k = go (a m).0 (a m).1 (ka m k)
    where
      go :
          (r : Result A) (m' : Machine L H)
          → HasKeys m'
          → let p = elim r as (λ _. Result (Option (Receipt Evidence)) × Machine L H) [
            | ok x ↦ f x m'
            | err e ↦ (err e, m')
          ] in
            HasKeys p.1 × ((x : Option (Receipt Evidence)) → p.0 ≡ ok x → x ≡ stored id p.1)
      go (ok x) m' h = rf x m' h
      go (err e) m' h = (h, λ x p. cc)

  save_at-Remembers : (t : Times) (q : Request Evidence) → Remembers q.command_id (save_at L H t q)
  unfolding save_at
  save_at-Remembers t q m k =
      let s = save (json L) m.receipts t q in
      ground (arith, save-IsValid (json L) m.receipts t q k, save-stored (json L) m.receipts t q)

  save_receipt-Remembers : (q : Request Evidence) → Remembers q.command_id (save_receipt L H q)
  unfolding save_receipt now
  save_receipt-Remembers q m k = save_at-Remembers _ q _ k

  save-HasKeys :
      (q : Request Evidence) (m : Machine L H) → HasKeys m → HasKeys (save_receipt L H q m).1
  save-HasKeys q m k = (save_receipt-Remembers q m k).0

  module _ (d : Delivery) (e : Envelope) where
    after_readback-Remembers :
        (request_id : String) (o : Option String)
        → Remembers d.command_id (after_readback L H d e request_id o)
    unfolding after_readback request now
    after_readback-Remembers request_id none m k = save_receipt-Remembers _ _ k
    after_readback-Remembers request_id (some state) m k = save_receipt-Remembers _ _ k

    after_call-Remembers :
        (deadline : ℕ) (o : ServiceOutcome) → Remembers d.command_id (after_call L H d e deadline o)
    unfolding after_call request
    after_call-Remembers deadline timed_out m k = save_receipt-Remembers _ m k
    after_call-Remembers deadline call_failed m k = save_receipt-Remembers _ m k
    after_call-Remembers deadline (accepted request_id) m k =
        let wait =
          wait_for_readback L H e.entity_id (if e.service =ₛ "turn_on" then "on" else "off")
            deadline in
        bind-Remembers d.command_id wait (after_readback L H d e request_id)
          (λ x h.
            subst (λ s. IsKeyed s.rows)
              (sym (
                wait-IsStill e.entity_id (if e.service =ₛ "turn_on" then "on" else "off") deadline
                  x))
              h)
          (after_readback-Remembers request_id) m k

    dispatch-Remembers : (deadline : ℕ) → Remembers d.command_id (dispatch L H d e deadline)
    unfolding dispatch call_service
    dispatch-Remembers deadline =
        let call : ServiceCall = record {
          domain = e.domain;
          service = e.service;
          entity_id = e.entity_id;
        } in
        bind-Remembers d.command_id (save_receipt L H (request L H d e "accepted" none nothing))
          (λ _. ◌>>=◌ L H (call_service L H call) (after_call L H d e deadline)) (save-HasKeys _)
          (λ x m k. after_call-Remembers deadline _ _ k)

    unless_expired-Remembers :
        (b : Bool) (deadline : ℕ) → Remembers d.command_id (unless_expired L H b d e deadline)
    unfolding unless_expired request
    unless_expired-Remembers true deadline m k = save_receipt-Remembers _ m k
    unless_expired-Remembers false deadline m k = dispatch-Remembers deadline m k

    attempt_by-Remembers : (o : Option ℕ) → Remembers d.command_id (attempt_by L H d e o)
    unfolding attempt_by now
    attempt_by-Remembers none m k = (k, λ x p. cc)
    attempt_by-Remembers (some deadline) m k = unless_expired-Remembers _ deadline _ k

    unless_terminal-Remembers :
        (o : Option (Receipt Evidence)) (m : Machine L H)
        → HasKeys m
        → o ≡ stored d.command_id m
        → let p = unless_terminal L H d e o m in
          HasKeys p.1 × ((x : Option (Receipt Evidence)) → p.0 ≡ ok x → x ≡ stored d.command_id p.1)
    unfolding unless_terminal attempt
    unless_terminal-Remembers none m k s = attempt_by-Remembers (L.deadline d.deadline_at) m k
    unless_terminal-Remembers (some r) m k s = elim (Bool-cases (is_terminal r.status)) [
      | inl over ↦ rw over (k, λ x p. cc)
      | inr open_ ↦ rw open_ (attempt_by-Remembers (L.deadline d.deadline_at) m k)
    ]

    valid-Remembers : Remembers d.command_id (execute_valid L H d (some e))
    unfolding execute_valid get_receipt now get prune
    valid-Remembers m k = unless_terminal-Remembers _ _ (kept-IsKeyed _ m.receipts.rows k) refl

  execute-Remembers : (d : Delivery) → Remembers d.command_id (execute L H d)
  unfolding execute
  execute-Remembers d = go (validate_command_envelope d.envelope)
    where
      go : (o : Option Envelope) → Remembers d.command_id (execute_valid L H d o)
      go none m k = unfold execute_valid in (k, λ x p. cc)
      go (some e) m k = valid-Remembers d e m k

  -- A receipt that is stored and live is what `get_receipt` reads.
  get-stored :
      (id : String) (m m' : Machine L H) (t : ℕ) {r : Receipt Evidence}
      → HasKeys m
      → some r ≡ stored id m
      → m'.receipts ≡ m.receipts
      → cutoff_at m.receipts t ≤ r.updated_at
      → (get (json L) m'.receipts t id).1 ≡ some r
  get-stored id m m' t {r} k s same live = rw same (found (find id m.receipts.rows) refl)
    where
      found :
          (o : Option (Row L.Encoded))
          → find id m.receipts.rows ≡ o
          → (get (json L) m.receipts t id).1 ≡ some r
      found none e = cc
      found (some row) e =
          let same_r : r ≡ receipt_of_row (json L) row =
            some_inj.0 (s ∙ ap (Option.map (receipt_of_row (json L))) e) in
          get-find (json L) m.receipts t id row k e
            (unfold receipt_of_row in omega (arith, live, ap (λ x. x.updated_at) same_r))
          ∙ ap some (sym same_r)

  ok-err : {x : Option (Receipt Evidence)} {e : Error} → ok x ≢ err e
  ok-err p = cc

  answer_terminal :
      (d : Delivery) (e : Envelope) (m : Machine L H) {r : Receipt Evidence}
      → (get (json L) m.receipts (H.now m.world).0 d.command_id).1 ≡ some r
      → is_terminal r.status ≡ true
      → ((execute_valid L H d (some e) m).0 ≡ ok (some r))
        × ((execute_valid L H d (some e) m).1.calls ≡ m.calls)
  unfolding execute_valid get_receipt now unless_terminal
  answer_terminal d e m g over = rw (g, over) (refl, refl)

  -- On a store with distinct keys, once an `execute` has returned a terminal receipt, another one of
  -- the same delivery, in whatever world but on the receipts that the first has left, returns that
  -- receipt and makes no service call, as long as the retention of the receipt has not run out.
  pub execute_again :
      (d : Delivery) (m later : Machine L H) {r : Receipt Evidence}
      → IsKeyed m.receipts.rows
      → (execute L H d m).0 ≡ ok (some r)
      → is_terminal r.status ≡ true
      → later.receipts ≡ (execute L H d m).1.receipts
      → cutoff_at later.receipts (H.now later.world).0 ≤ r.updated_at
      → ((execute L H d later).0 ≡ ok (some r)) × ((execute L H d later).1.calls ≡ later.calls)
  execute_again d m later {r} k e over same live =
      let (keys, mem) = execute-Remembers d m k in
      let held =
        get-stored d.command_id (execute L H d m).1 later (H.now later.world).0 keys
          (mem (some r) e) same
          (subst (λ s. cutoff_at s (H.now later.world).0 ≤ r.updated_at) same live) in
      go (validate_command_envelope d.envelope) refl held
    where
      go :
          (o : Option Envelope)
          → validate_command_envelope d.envelope ≡ o
          → (get (json L) later.receipts (H.now later.world).0 d.command_id).1 ≡ some r
          → ((execute L H d later).0 ≡ ok (some r)) × ((execute L H d later).1.calls ≡ later.calls)
      go none v g =
          let raised : (execute L H d m).0 ≡ err not_allowlisted =
            unfold execute execute_valid in rw v refl in
          absurd (ok-err (sym e ∙ raised))
      go (some x) v g = unfold execute in rw v (answer_terminal d x later g over)
