-- ===== src/Reconcile/Tests.antt =====
-- Two wallets whose differences cancel.
use cauripay.Common.{◌+◌, ◌≡◌, ◌↔◌, refl, List, [], ◌∷◌, map, arith, ltb, if◌then◌else◌}
use cauripay.Common.Int.{ℤ, pos, ◌+ℤ◌, ◌-ℤ◌, is_zero, pos_part}
use cauripay.Common.Text.{Text}
use cauripay.Reconcile.{Numbers, ReportStatus, WalletTotal, generate, add_up}
use cauripay.Reconcile.Totals.{
  computed_credit, computed_debit, stored_credit, stored_debit, generate_balanced_iff, IsExact,
  number_total,
}

-- Numbers that never round.
abbrev integers : Numbers
integers = record {
  Double = ℤ;
  zero = pos 0;
  add = λ a b. a +ℤ b;
  sub = λ a b. a -ℤ b;
  negate = λ a. pos 0 -ℤ a;
  max = λ a b. if ltb (pos_part a) (pos_part b) then b else pos (pos_part a);
  is_zero = is_zero;
}

integers-IsExact : IsExact integers (λ a. a)
integers-IsExact = record {
  start = refl;
  adds = λ a b h k l. refl;
  subs = λ a b h k l. refl;
  tests = λ a h. refl;
}

abbrev totals : List (WalletTotal ℤ)
totals =
    record { wallet_id = 1; computed = pos 100; stored = pos 40 }
    ∷ record { wallet_id = 2; computed = pos 10; stored = pos 70 }
    ∷ []

abbrev date : Text
date = b'1' ∷ b'-' ∷ b'2' ∷ []

generate_balanced_iff_example :
    ((generate integers 0 (map (number_total integers (λ a. a)) totals) date []).0.status
      ≡ ReportStatus.balanced)
    ↔ (computed_credit totals + stored_debit totals ≡ computed_debit totals + stored_credit totals)
generate_balanced_iff_example =
    generate_balanced_iff integers (λ a. a) integers-IsExact 0 totals date [] (omega arith)

-- Both wallets are off by 60, and the day is BALANCED.
cancelled : (generate integers 0 totals date []).0.status ≡ ReportStatus.balanced
unfolding generate add_up ◌+ℤ◌ ◌-ℤ◌
cancelled = refl
