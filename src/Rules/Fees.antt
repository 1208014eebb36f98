-- ===== src/Rules/Fees.antt =====
-- What `calculate_fee` charges.
use cauripay.Common.{ℕ, ◌+◌, ◌*◌, ◌≤◌, ◌<◌, ◌≡◌, ◌↔◌, arith}
use cauripay.Common.Int.{ℤ, pos, pos_part}
use cauripay.Rules.{TransactionType, FeeResult, bad_amount, fee, fee_table, calculate_fee}

-- The exact charge lies within half a hundredth of the fee, a tie goes up, and the fee never
-- exceeds the amount: for an amount of `n` > 0 hundredths the fee `f` is the only number with
-- `1000 f ≤ n * rate + 500 < 1000 (f + 1)`, and the base of the breakdown is the same number.
pub calculate_fee_half_up :
    (type : TransactionType) (n f base : ℕ)
    → calculate_fee type (pos n) ≡ fee f base
    → (1000 * f ≤ n * (fee_table type).rate_permille + 500)
      × (n * (fee_table type).rate_permille + 500 < 1000 * (f + 1))
      × (base ≡ f)
      × (f ≤ n)
unfolding calculate_fee
calculate_fee_half_up TransactionType.p2p n f base e = ground arith
calculate_fee_half_up _ n f base e = ground arith

-- The call throws exactly when the amount is zero or negative.
pub calculate_fee_throws_iff :
    (type : TransactionType) (a : ℤ) → (calculate_fee type a ≡ bad_amount) ↔ (pos_part a ≡ 0)
unfolding calculate_fee
calculate_fee_throws_iff type a = ground arith

abbrev pub fee_of : FeeResult → ℕ
fee_of bad_amount = 0
fee_of (fee f base) = f

-- A larger amount is never charged less, whatever the type.
pub calculate_fee_mono :
    (type : TransactionType) (m n : ℕ)
    → m ≤ n
    → fee_of (calculate_fee type (pos m)) ≤ fee_of (calculate_fee type (pos n))
unfolding calculate_fee
calculate_fee_mono TransactionType.p2p m n h = ground arith
calculate_fee_mono _ m n h = ground arith
