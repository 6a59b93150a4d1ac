-- ===== src/Witnesses/Receipts.antt =====
-- A store of receipts whose evidence is a number.
use zediot_hub_connector.Common.{
  [], arith, dec_le, eq_iff, false, inl, none, refl, some, true, ℕ, ◌∷◌, ◌≡◌, ◌≢◌, ◌≤◌,
}
use zediot_hub_connector.Receipts.{
  Request, Store, Times, conflict, conflicts, cutoff_at, find, get, prune, receipt_of_row, save,
}
use zediot_hub_connector.Receipts.Laws.{IsValid, get-save, result_of, second_request_refused}
use zediot_hub_connector.Witnesses.Queue.{numbers, numbers-IsJson}

abbrev turn_on : Request ℕ
turn_on = record {
  command_id = "c1";
  idempotency_key = "k1";
  digest = "d1";
  status = "executed";
  reason_code = none;
  evidence = 7;
}

abbrev other_key : Request ℕ
other_key = record turn_on { idempotency_key = "k2" }

abbrev times : Times
times = record { before = 5_000_000; written = 5_000_001; after = 5_000_002 }

abbrev later_times : Times
later_times = record { before = 8_000_000; written = 8_000_001; after = 8_000_002 }

-- It holds the receipt of the accepted command.
abbrev store : Store ℕ
store = record {
  retention_seconds = 60;
  rows =
      record {
        command_id = "c1";
        idempotency_key = "k1";
        envelope_digest = "d1";
        status = "accepted";
        reason_code = none;
        evidence_json = 0;
        updated_at = 4_000_000;
      }
      ∷ [];
}

store-IsValid : IsValid numbers store
store-IsValid = (tt, tt)

no_conflict : conflicts numbers turn_on (get numbers store 5_000_000 "c1").1 ≡ false
unfolding get prune find receipt_of_row cutoff_at dec_le conflicts
no_conflict = refl

live : (now : ℕ) → now ≤ 60_000_000 → cutoff_at store now ≤ 5_000_001
unfolding cutoff_at
live now h = omega arith

other_differs : other_key.idempotency_key ≢ turn_on.idempotency_key
other_differs e = let same : false ≡ true = (eq_iff "k2" "k1").1 e in cc

get-save_example :
    (get numbers (save numbers store times turn_on).0 9_000_000 "c1").1
    ≡ some (result_of numbers turn_on 5_000_001)
get-save_example =
    get-save numbers numbers-IsJson store times turn_on store-IsValid no_conflict 9_000_000
      (live 5_000_002 (omega arith)) (live 9_000_000 (omega arith))

second_request_refused_example :
    let again = save numbers (save numbers store times turn_on).0 later_times other_key in
    (again.1 ≡ conflict)
    × ((get numbers again.0 9_000_000 "c1").1 ≡ some (result_of numbers turn_on 5_000_001))
second_request_refused_example =
    second_request_refused numbers numbers-IsJson store times turn_on store-IsValid no_conflict
      later_times other_key 9_000_000 refl (inl other_differs) (live 5_000_002 (omega arith))
      (live 8_000_000 (omega arith)) (live 9_000_000 (omega arith))
