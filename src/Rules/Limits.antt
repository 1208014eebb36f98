-- ===== src/Rules/Limits.antt =====
-- What `check_kyc_limit` and `validate_phone_number` accept.
use cauripay.Common.{ℕ, ◌+◌, ◌≤◌, ◌≡◌, ◌↔◌, arith}
use cauripay.Rules.{KycLevel, KycLimits, kyc_limits, ok, check_kyc_limit}

pub record WithinLimits (l : KycLimits) (amount daily monthly balance : ℕ) : Type 0 where
  pub transaction : amount ≤ l.max_per_transaction
  pub day : daily + amount ≤ l.daily_max
  pub month : monthly + amount ≤ l.monthly_max
  pub held : balance + amount ≤ l.max_balance

-- The check answers OK exactly when all four ceilings of the level are respected.
pub check_kyc_limit_iff :
    (level : KycLevel) (amount daily monthly balance : ℕ)
    → (check_kyc_limit level amount daily monthly balance ≡ ok)
      ↔ WithinLimits (kyc_limits level) amount daily monthly balance
unfolding check_kyc_limit
check_kyc_limit_iff KycLevel.basic amount daily monthly balance = ground arith
check_kyc_limit_iff _ amount daily monthly balance = ground arith
