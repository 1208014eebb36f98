-- ===== src/Rules.antt =====
-- packages/validation-rules/src/index.ts: phone numbers, the fee table and the KYC limits.
--
-- An amount is an integer number of hundredths of the minor unit, since every amount has at most
-- two decimals (the columns are Decimal(15, 2) and the request classes match `\d+(\.\d{1,2})?`).
-- A rate in percent is kept in tenths of a percent: 1 is 10, 0.5 is 5, 0.8 is 8. Amounts of that
-- size stay within the twenty significant digits to which decimal.js divides, so the quotients
-- that the code rounds are exact.
pub mod Fees
pub mod Limits
mod Tests
use cauripay.Common.{
  ℕ, suc, ◌+◌, ◌*◌, ◌/◌, Bool, false, true, ◌&&◌, ◌||◌, List, [], ◌∷◌, leb, ltb, ◌==◌, length, all,
  if◌then◌else◌,
}
use cauripay.Common.Int.{ℤ, pos, negsuc}
use mathlib.Core.List.{reverse}

-- shared-types: `TransactionType`
pub data TransactionType : Type 0 where
  p2p cash_in cash_out bill_payment merchant_payment : TransactionType

-- shared-types: `KycLevel`
pub data KycLevel : Type 0 where
  basic verified premium : KycLevel

pub record FeeTableEntry : Type 0 where
  pub rate_permille : ℕ
  pub fixed : ℕ

abbrev pub fee_table : TransactionType → FeeTableEntry
fee_table TransactionType.p2p = record { rate_permille = 10; fixed = 0 }
fee_table TransactionType.cash_in = record { rate_permille = 0; fixed = 0 }
fee_table TransactionType.cash_out = record { rate_permille = 10; fixed = 0 }
fee_table TransactionType.bill_payment = record { rate_permille = 5; fixed = 0 }
fee_table TransactionType.merchant_payment = record { rate_permille = 8; fixed = 0 }

-- The fee and the base of its breakdown, in hundredths; `bad_amount` is the thrown error. The
-- type is one of the five, so the code's second error cannot arise.
pub data FeeResult : Type 0 where
  bad_amount : FeeResult
  fee : ℕ → ℕ → FeeResult

-- `toDecimalPlaces(2, ROUND_HALF_UP)` of a number of thousandths of a hundredth.
abbrev pub round_half_up : ℕ → ℕ
round_half_up n = (n + 500) / 1000

unfoldable pub calculate_fee : TransactionType → ℤ → FeeResult
calculate_fee type (negsuc n) = bad_amount
calculate_fee type (pos n) =
    let entry = fee_table type in
    let base = n * entry.rate_permille in
    if n == 0
    then bad_amount
    else fee (round_half_up (base + 1000 * entry.fixed)) (round_half_up base)

pub record KycLimits : Type 0 where
  pub daily_max : ℕ
  pub monthly_max : ℕ
  pub max_balance : ℕ
  pub max_per_transaction : ℕ

-- The table's figures, in hundredths.
abbrev pub kyc_limits : KycLevel → KycLimits
kyc_limits KycLevel.basic = record {
  daily_max = 5_000_000;
  monthly_max = 30_000_000;
  max_balance = 50_000_000;
  max_per_transaction = 5_000_000;
}
kyc_limits KycLevel.verified = record {
  daily_max = 50_000_000;
  monthly_max = 300_000_000;
  max_balance = 500_000_000;
  max_per_transaction = 50_000_000;
}
kyc_limits KycLevel.premium = record {
  daily_max = 500_000_000;
  monthly_max = 3_000_000_000;
  max_balance = 5_000_000_000;
  max_per_transaction = 500_000_000;
}

-- `reason`; the check allows the operation exactly when it is `ok`.
pub data LimitCheck : Type 0 where
  ok daily_limit monthly_limit over_balance over_transaction : LimitCheck

unfoldable pub check_kyc_limit : KycLevel → ℕ → ℕ → ℕ → ℕ → LimitCheck
check_kyc_limit level amount daily monthly balance =
    let limits = kyc_limits level in
    if ltb limits.max_per_transaction amount
    then over_transaction
    else if ltb limits.daily_max (daily + amount)
    then daily_limit
    else if ltb limits.monthly_max (monthly + amount)
    then monthly_limit
    else if ltb limits.max_balance (balance + amount)
    then over_balance
    else ok

-- The characters that `String.prototype.trim` removes, and `trim`.
abbrev pub is_space : ℕ → Bool
is_space c =
    leb 9 c && leb c 13
    || c == 32
    || c == 160
    || c == 0x1680
    || leb 0x2000 c && leb c 0x200a
    || c == 0x2028
    || c == 0x2029
    || c == 0x202f
    || c == 0x205f
    || c == 0x3000
    || c == 0xfeff

unfoldable pub trim_start : List ℕ → List ℕ
trim_start [] = []
trim_start (c ∷ s) = if is_space c then trim_start s else c ∷ s

unfoldable pub trim : List ℕ → List ℕ
unfolding trim_start
trim s = reverse (trim_start (reverse (trim_start s)))

abbrev pub is_digit : ℕ → Bool
is_digit c = leb b'0' c && leb c b'9'

-- /^\+235[0-9]{8}$/
unfoldable pub phone_re : List ℕ → Bool
phone_re (p ∷ a ∷ b ∷ c ∷ rest) =
    p == b'+' && a == b'2' && b == b'3' && c == b'5' && length rest == 8 && all is_digit rest
phone_re _ = false

unfoldable pub validate_phone_number : List ℕ → Bool
unfolding trim phone_re
validate_phone_number phone = phone_re (trim phone)
