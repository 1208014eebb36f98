-- ===== src/Checkout/Creation.antt =====
-- legacy/server/src/payments.ts: the idempotency key of `createPayment`.

use mathlib.Core.Bool.{true≢false}
use cauripay.Common.{
  ℕ, ◌≡◌, refl, sym, ap, ◌∙◌, Bool, true, false, Option, none, some, [], ◌∷◌, arith, ◌==◌, ==_iff,
  ==_self, if◌then◌else◌, find, ◌&&◌,
}
use cauripay.Common.Dict.{Dict, row_of, find_row, lookup, insert}
use cauripay.Checkout.Store.{Mode, Payment, Store}
use cauripay.Checkout.Payments.{
  Reply, ok, err, CreatePaymentInput, Draw, find_duplicate, create_checked, create_or_existing,
  new_payment, same_key, create_payment, check_input,
}

-- A search that finds nothing finds what is added.
find_row-insert :
    (q : Payment → Bool) (id : ℕ) (p : Payment) (d : Dict Payment)
    → find_row q d ≡ none
    → lookup id d ≡ none
    → q p ≡ true
    → find_row q (insert id p d) ≡ some p
unfolding lookup insert
find_row-insert q id p [] e new h = rw h refl
find_row-insert q id p ((k, r) ∷ d) e new h =
    by_tests (λ e new. find_row-insert q id p d e new h) (k == id) (q r) refl e new
  where
    by_tests :
        (find_row q d ≡ none → lookup id d ≡ none → find_row q (insert id p d) ≡ some p)
        → (b c : Bool) → q r ≡ c
        → row_of (if c then some (k, r) else find (λ (x : ℕ × Payment). q x.1) d) ≡ none
        → (if b then some r else lookup id d) ≡ none
        → find_row q (if b then (id, p) ∷ d else (k, r) ∷ insert id p d) ≡ some p
    by_tests rest true c t e new = ground arith
    by_tests rest false true t e new = ground arith
    by_tests rest false false t e new = rw t (rest e new)

abbrev is_duplicate : Reply (Payment × Bool) → Bool
is_duplicate (ok (p, b)) = b
is_duplicate (err e) = false

abbrev payment_or : Payment → Reply (Payment × Bool) → Payment
payment_or q (ok (p, b)) = p
payment_or q (err e) = q

-- What a creation that is no duplicate leaves.
abbrev Created : Draw → ℕ → CreatePaymentInput → Store → Payment → Store → Type 0
Created draw merchant input s p v =
    (find_duplicate merchant input.idempotency_key s ≡ none)
    × (v.payments ≡ insert draw.fresh_id p s.payments)
    × (p.merchant_id ≡ merchant)
    × (p.idempotency_key ≡ input.idempotency_key)

create_checked-Created :
    (draw : Draw) (merchant : ℕ) (mode : Mode) (input : CreatePaymentInput) (s : Store)
    (p : Payment) (r : Reply ℕ)
    → (create_checked draw merchant mode input r s).0 ≡ ok (p, false)
    → Created draw merchant input s p (create_checked draw merchant mode input r s).1
create_checked-Created draw merchant mode input s p (err e) h = ground arith
create_checked-Created draw merchant mode input s p (ok amount) h =
    by_search (find_duplicate merchant input.idempotency_key s) refl h
  where
    fresh : Payment
    fresh = new_payment draw merchant mode input amount

    by_search :
        (o : Option Payment)
        → find_duplicate merchant input.idempotency_key s ≡ o
        → (create_or_existing o fresh s).0 ≡ ok (p, false)
        → Created draw merchant input s p (create_or_existing o fresh s).1
    by_search (some q) e h = elim (true≢false (ap is_duplicate h)) [ ]
    by_search none e h =
        let same : fresh ≡ p = ap (payment_or p) h in
        (
          e,
          ap (λ x. insert draw.fresh_id x s.payments) same,
          ap (λ (x : Payment). x.merchant_id) (sym same),
          ap (λ (x : Payment). x.idempotency_key) (sym same),
        )

replay :
    (later : Draw) (merchant : ℕ) (mode : Mode) (again : CreatePaymentInput) (v : Store)
    (key amount : ℕ) (p : Payment)
    → check_input again ≡ ok amount
    → again.idempotency_key ≡ some key
    → find_duplicate merchant (some key) v ≡ some p
    → create_payment later merchant mode again v ≡ (ok (p, true), v)
unfolding create_payment
replay later merchant mode again v key amount p c k e = rw (c, k, e) refl

-- After a creation under a key and a new id, the merchant's next request with that key, if it passes
-- the checks of the input, answers with the payment that was created, as a duplicate, and writes
-- nothing, whatever else it asks for.
pub create_payment_twice :
    (draw later : Draw) (merchant : ℕ) (mode mode' : Mode) (input again : CreatePaymentInput)
    (s : Store) (key amount : ℕ) (p : Payment)
    → (create_payment draw merchant mode input s).0 ≡ ok (p, false)
    → lookup draw.fresh_id s.payments ≡ none
    → input.idempotency_key ≡ some key
    → again.idempotency_key ≡ some key
    → check_input again ≡ ok amount
    → let v = (create_payment draw merchant mode input s).1 in
      create_payment later merchant mode' again v ≡ (ok (p, true), v)
unfolding create_payment
create_payment_twice draw later merchant mode mode' input again s key amount p r new k k' c =
    let has_key = λ (x : Payment). x.merchant_id == merchant && same_key key x.idempotency_key in
    let (unused, rows, owner, kept) =
      create_checked-Created draw merchant mode input s p (check_input input) r in
    let v = (create_payment draw merchant mode input s).1 in
    let held : has_key p ≡ true =
      rw ((==_iff p.merchant_id merchant).1 owner, kept ∙ k, ==_self key) refl in
    replay later merchant mode' again v key amount p c k' (
      ap (find_row has_key) rows
      ∙ find_row-insert has_key draw.fresh_id p s.payments
          (ap (λ o. find_duplicate merchant o s) (sym k) ∙ unused) new held)
