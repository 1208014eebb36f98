-- ===== src/Checkout/Tests.antt =====
-- Runs of the payment server on concrete requests, and its theorems at those runs.
use cauripay.Common.{false, ℕ, ◌+◌, ◌*◌, ◌<◌, ◌≡◌, ◌↔◌, refl, true, none, some, [], ◌∷◌, map, arith}
use cauripay.Common.Int.{pos}
use cauripay.Common.Dict.{lookup, insert}
use cauripay.Rules.{trim}
use cauripay.Checkout.Store.{
  Status, Currency, Mode, Payment, Timer, Store, Config, is_checkout_blocked,
}
use cauripay.Checkout.Payments.{
  ok, CreatePaymentInput, Draw, create_payment, transition, approve, chosen_methods,
}
use cauripay.Checkout.Journal.{history, Trail, FinalRows}
use cauripay.Checkout.Timeline.{
  Run, here, next, create, approve_act, empty, Run-Trail, Run-FinalRows,
}
use cauripay.Checkout.Serialize.{payment_to_json, payments_to_json_many, payments_to_json_many-map}
use cauripay.Checkout.Attempts.{wrong_pins, is_checkout_blocked_iff}
use cauripay.Checkout.Listing.{list_payments, all_payments, sort_desc, insert_desc}
use cauripay.Checkout.Cursor.{list_payments-after}
use cauripay.Checkout.Creation.{create_payment_twice}

abbrev config : Config
config = record { checkout_max_pin_failures = 5; checkout_block_minutes = 15 }

abbrev draw : Draw
draw = record { now = 1000; fresh_id = 1; fresh_token = 77 }

abbrev input : CreatePaymentInput
input = record {
  amount_minor = some (pos 5000);
  currency = Currency.xof;
  methods = [];
  description = [];
  metadata = none;
  redirect_url = none;
  idempotency_key = some 9;
}

abbrev made : Store
made = (create_payment draw 3 Mode.test input empty).1

abbrev approved : Store
approved = (approve 2000 44 3 1 made).1

abbrev final_row : Payment
final_row = record {
  id = 1;
  merchant_id = 3;
  amount_minor = 5000;
  currency = Currency.xof;
  methods = chosen_methods [];
  status = Status.succeeded;
  provider = none;
  provider_ref = some 44;
  phone = none;
  description = [];
  metadata = none;
  redirect_url = none;
  idempotency_key = some 9;
  mode = Mode.test;
  checkout_token = 77;
  created_at = 1000;
  updated_at = 2000;
}

approved_row : lookup 1 approved.payments ≡ some final_row
unfolding create_payment approve transition lookup insert trim
approved_row = refl

approved-Run : Run config empty approved
unfolding lookup
approved-Run = next (next here (create draw 3 Mode.test input refl)) (approve_act 2000 44 3 1)

Run-Trail_example : Trail (history 1 approved.events) Status.succeeded
Run-Trail_example = Run-Trail approved-Run 1 final_row approved_row

Run-FinalRows_example : FinalRows approved approved
Run-FinalRows_example = Run-FinalRows approved-Run here

payments_to_json_many-map_example :
    payments_to_json_many approved.events (final_row ∷ final_row ∷ [])
    ≡ map (payment_to_json approved.events) (final_row ∷ final_row ∷ [])
payments_to_json_many-map_example =
    payments_to_json_many-map approved.events (final_row ∷ final_row ∷ [])

is_checkout_blocked_iff_example :
    (is_checkout_blocked 2000 77 (wrong_pins config 1000 77 5 approved) ≡ true)
    ↔ ((◌≡◌ {A = ℕ} 5 5) × (2000 < 1000 + 15 * 60_000))
unfolding create_payment approve transition lookup insert
is_checkout_blocked_iff_example =
    is_checkout_blocked_iff config 1000 2000 77 5 approved refl (omega arith) (omega arith)

abbrev late : Timer
late = record { token = 77; merchant_id = 3; payment_id = 1; wrong_pin = true }

create_payment_twice_example :
    create_payment (record { now = 3000; fresh_id = 2; fresh_token = 78 }) 3 Mode.live input made
    ≡ (
      ok (
        record final_row { status = Status.pending; provider_ref = none; updated_at = 1000 },
        true,
      ),
      made,
    )
unfolding create_payment lookup trim
create_payment_twice_example =
    create_payment_twice draw (record { now = 3000; fresh_id = 2; fresh_token = 78 }) 3 Mode.test
      Mode.live input input empty 9 5000
      (record final_row { status = Status.pending; provider_ref = none; updated_at = 1000 }) refl
      refl refl refl refl

abbrev newer_row : Payment
newer_row = record final_row { id = 2; created_at = 3000; checkout_token = 78 }

abbrev two_rows : Store
two_rows = record made { payments = (1, final_row) ∷ (2, newer_row) ∷ [] }

listed_newest_first : all_payments 3 none two_rows ≡ newer_row ∷ final_row ∷ []
unfolding sort_desc insert_desc
listed_newest_first = refl

list_payments-after_example :
    list_payments 3 none (some (pos 1)) (some 2) two_rows
    ≡ record { rows = final_row ∷ []; has_more = false }
unfolding lookup
list_payments-after_example =
    list_payments-after 3 none (some (pos 1)) two_rows newer_row [] (final_row ∷ [])
      (((λ e. absurd (omega (arith, e))), tt), (tt, tt)) refl listed_newest_first
