-- ===== src/Reconcile/Totals.antt =====
-- services/reconciliation-service/src/reconciliation/reconciliation.service.ts: what BALANCED says.
use cauripay.Common.{
  ℕ, ◌+◌, ◌≤◌, ◌≡◌, ◌↔◌, refl, true, some, List, [], ◌∷◌, map, arith, sum_by, ap, ◌∙◌,
}
use cauripay.Common.Int.{ℤ, pos, ◌+ℤ◌, ◌-ℤ◌, pos_part, neg_part, is_zero, +ℤ_parts, -ℤ_parts}
use cauripay.Common.Text.{Text, same_text}
use cauripay.Reconcile.{
  Numbers, ReportStatus, WalletTotal, Reports, line_of, add_up, delta_of, status_of, generate, get,
  save, id_of,
}

abbrev pub magnitude : ℤ → ℕ
magnitude a = pos_part a + neg_part a

abbrev pub exact_limit : ℕ
exact_limit = 9_007_199_254_740_992

-- IEEE 754 doubles, as ECMAScript has them: integers up to 2 ^ 53 have a representation `of`, and an
-- addition or a subtraction of two of them whose result is also one of them is exact.
pub record IsExact (num : Numbers) (of : ℤ → num.Double) : Type 0 where
  pub start : num.zero ≡ of (pos 0)
  pub adds :
      (a b : ℤ)
      → magnitude a ≤ exact_limit
      → magnitude b ≤ exact_limit
      → magnitude (a +ℤ b) ≤ exact_limit
      → num.add (of a) (of b) ≡ of (a +ℤ b)
  pub subs :
      (a b : ℤ)
      → magnitude a ≤ exact_limit
      → magnitude b ≤ exact_limit
      → magnitude (a -ℤ b) ≤ exact_limit
      → num.sub (of a) (of b) ≡ of (a -ℤ b)
  pub tests : (a : ℤ) → magnitude a ≤ exact_limit → num.is_zero (of a) ≡ is_zero a

magnitude_add : (a b : ℤ) → magnitude (a +ℤ b) ≤ magnitude a + magnitude b
unfolding ◌+ℤ◌
magnitude_add a b = ground arith

magnitude_sub : (a b : ℤ) → magnitude (a -ℤ b) ≤ magnitude a + magnitude b
unfolding ◌-ℤ◌
magnitude_sub a b = ground arith

-- The sum of the deltas over the integers.
abbrev delta_sum : ℤ → List (WalletTotal ℤ) → ℤ
delta_sum a [] = a
delta_sum a (t ∷ ts) = delta_sum (a +ℤ (t.computed -ℤ t.stored)) ts

-- The sums of the computed and of the stored balances, each as credits and debits.
abbrev pub computed_credit : List (WalletTotal ℤ) → ℕ
computed_credit ts = sum_by (λ (t : WalletTotal ℤ). pos_part t.computed) ts

abbrev pub computed_debit : List (WalletTotal ℤ) → ℕ
computed_debit ts = sum_by (λ (t : WalletTotal ℤ). neg_part t.computed) ts

abbrev pub stored_credit : List (WalletTotal ℤ) → ℕ
stored_credit ts = sum_by (λ (t : WalletTotal ℤ). pos_part t.stored) ts

abbrev pub stored_debit : List (WalletTotal ℤ) → ℕ
stored_debit ts = sum_by (λ (t : WalletTotal ℤ). neg_part t.stored) ts

-- All the money of the snapshot, without signs.
abbrev pub volume : List (WalletTotal ℤ) → ℕ
volume ts = sum_by (λ (t : WalletTotal ℤ). magnitude t.computed + magnitude t.stored) ts

delta_sum_parts :
    (a : ℤ) (ts : List (WalletTotal ℤ))
    → pos_part (delta_sum a ts) + (neg_part a + (computed_debit ts + stored_credit ts))
      ≡ neg_part (delta_sum a ts) + (pos_part a + (computed_credit ts + stored_debit ts))
delta_sum_parts a [] = omega arith
delta_sum_parts a (t ∷ ts) =
    let d = t.computed -ℤ t.stored in
    omega (arith, delta_sum_parts (a +ℤ d) ts, +ℤ_parts a d, -ℤ_parts t.computed t.stored)

delta_sum_bound :
    (a : ℤ) (ts : List (WalletTotal ℤ)) → magnitude (delta_sum a ts) ≤ magnitude a + volume ts
delta_sum_bound a [] = omega arith
delta_sum_bound a (t ∷ ts) =
    let d = t.computed -ℤ t.stored in
    omega (arith, delta_sum_bound (a +ℤ d) ts, magnitude_add a d, magnitude_sub t.computed t.stored)

module _ (num : Numbers) (of : ℤ → num.Double) where
  abbrev pub number_total : WalletTotal ℤ → WalletTotal num.Double
  number_total t = record {
    wallet_id = t.wallet_id;
    computed = of t.computed;
    stored = of t.stored;
  }

  module _ (exact : IsExact num of) where
    add_up-exact :
        (a : ℤ) (ts : List (WalletTotal ℤ))
        → magnitude a + volume ts ≤ exact_limit
        → add_up num (delta_of num) (of a) (map (line_of num) (map number_total ts))
          ≡ of (delta_sum a ts)
    unfolding add_up
    add_up-exact a [] h = refl
    add_up-exact a (t ∷ ts) h =
        let d = t.computed -ℤ t.stored in
        let small : magnitude d ≤ magnitude t.computed + magnitude t.stored =
          magnitude_sub t.computed t.stored in
        let sum : magnitude (a +ℤ d) ≤ magnitude a + magnitude d = magnitude_add a d in
        let step : num.add (of a) (num.sub (of t.computed) (of t.stored)) ≡ of (a +ℤ d) =
          ap (num.add (of a)) (
            exact.subs t.computed t.stored (omega (arith, h)) (omega (arith, h))
              (omega (arith, h, small)))
          ∙ exact.adds a d (omega (arith, h)) (omega (arith, h, small))
              (omega (arith, h, small, sum)) in
        ap (λ x. add_up num (delta_of num) x (map (line_of num) (map number_total ts))) step
        ∙ add_up-exact (a +ℤ d) ts (omega (arith, h, small, sum))

balanced_zero :
    (num : Numbers) (x : num.Double) (d : ℤ)
    → num.is_zero x ≡ is_zero d
    → (status_of num x ≡ ReportStatus.balanced) ↔ (pos_part d ≡ neg_part d)
balanced_zero num x d e = rw e (λ h. ground arith, λ h. ground arith)

-- Where the amounts are integers and their magnitudes sum to at most 2 ^ 53, a report is BALANCED
-- exactly when the sum of all computed balances is the sum of all stored ones, each sum with its
-- credits and its debits: deltas of opposite sign cancel. The hypothesis on the numbers is that
-- integer arithmetic within that range is exact; nothing is said of other amounts.
pub generate_balanced_iff :
    (num : Numbers) (of : ℤ → num.Double)
    → IsExact num of
    → (now : ℕ) (ts : List (WalletTotal ℤ)) (date : Text) (reports : Reports num.Double)
    → volume ts ≤ exact_limit
    → ((generate num now (map (number_total num of) ts) date reports).0.status
        ≡ ReportStatus.balanced)
      ↔ (computed_credit ts + stored_debit ts ≡ computed_debit ts + stored_credit ts)
unfolding generate
generate_balanced_iff num of exact now ts date reports small =
    let d = delta_sum (pos 0) ts in
    let bound : magnitude d ≤ exact_limit = omega (arith, delta_sum_bound (pos 0) ts, small) in
    let parts = delta_sum_parts (pos 0) ts in
    let total : add_up num (delta_of num) num.zero
          (map (line_of num) (map (number_total num of) ts))
        ≡ of d =
      ap (λ x. add_up num (delta_of num) x (map (line_of num) (map (number_total num of) ts)))
        exact.start
      ∙ add_up-exact num of exact (pos 0) ts (omega (arith, small)) in
    let iff = balanced_zero num _ d (ap num.is_zero total ∙ exact.tests d bound) in
    (λ h. omega (arith, iff.0 h, parts), λ e. iff.1 (omega (arith, e, parts)))

same_text_self : (t : Text) → same_text t t ≡ true
unfolding same_text
same_text_self [] = refl
same_text_self (c ∷ t) = ground (arith, same_text_self t)

-- A report that was generated is the one that its date gives, whatever was stored before and
-- whatever the numbers are.
pub get-generate :
    (num : Numbers) (now : ℕ) (totals : List (WalletTotal num.Double)) (date : Text)
    (reports : Reports num.Double)
    → get date (generate num now totals date reports).1
      ≡ some (generate num now totals date reports).0
unfolding get generate save
get-generate num now totals date reports = rw (same_text_self (id_of date)) refl
