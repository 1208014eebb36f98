-- ===== src/Rules/Tests.antt =====
-- Runs of the rules at the inputs of their unit tests, and the theorems at concrete inputs.
use cauripay.Common.{◌+◌, ◌*◌, ◌≤◌, ◌<◌, ◌≡◌, refl, ◌↔◌, true, List, [], ◌∷◌, ℕ}
use cauripay.Common.Int.{pos}
use cauripay.Rules.{
  TransactionType, fee, calculate_fee, KycLevel, kyc_limits, ok, check_kyc_limit,
  validate_phone_number, over_transaction,
}
use cauripay.Rules.Fees.{calculate_fee_half_up}
use cauripay.Rules.Limits.{WithinLimits, check_kyc_limit_iff}

fee_p2p : calculate_fee TransactionType.p2p (pos 1_000_000) ≡ fee 10_000 10_000
unfolding calculate_fee
fee_p2p = refl

basic_refuses_60000 : check_kyc_limit KycLevel.basic 6_000_000 0 0 0 ≡ over_transaction
unfolding check_kyc_limit
basic_refuses_60000 = refl

abbrev phone : List ℕ
phone = 32 ∷ b'+' ∷ b'2' ∷ b'3' ∷ b'5' ∷ b'6' ∷ b'6' ∷ b'0' ∷ b'0' ∷ b'0' ∷ b'0' ∷ b'0' ∷ b'1' ∷ []

phone_ok : validate_phone_number phone ≡ true
unfolding validate_phone_number
phone_ok = refl

calculate_fee_half_up_example :
    (1000 * 11 ≤ 1050 * 10 + 500)
    × (1050 * 10 + 500 < 1000 * (11 + 1))
    × (◌≡◌ {A = ℕ} 11 11)
    × (11 ≤ 1050)
unfolding calculate_fee
calculate_fee_half_up_example = calculate_fee_half_up TransactionType.p2p 1050 11 11 refl

check_kyc_limit_iff_example :
    (check_kyc_limit KycLevel.basic 3_000_000 2_000_000 0 0 ≡ ok)
    ↔ WithinLimits (kyc_limits KycLevel.basic) 3_000_000 2_000_000 0 0
check_kyc_limit_iff_example = check_kyc_limit_iff KycLevel.basic 3_000_000 2_000_000 0 0
