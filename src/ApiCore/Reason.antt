-- ===== src/ApiCore/Reason.antt =====
-- Rules to prove a property `Q` of an action's outcome, one for each way in which a handler goes
-- on or throws.
use cauripay.Common.{ℕ, ◌≡◌, ◌≢◌, refl, arith, Bool, true, false, Option, none, some}
use cauripay.Rules.{FeeResult, bad_amount, fee, LimitCheck}
use cauripay.ApiCore.World.{
  World, ApiError, Action, Result, ok, err, or_raise, raise_if, and_then, kyc_limit_exceeded,
  unexpected,
}
use cauripay.ApiCore.Transactions.{require_ok, charge}

module _ {A B : Type 0} (Q : Result B × World → Type 0) (w : World) (f : A → Action B) where
  pub or_raise_rule :
      (o : Option A) (e : ApiError)
      → (o ≡ none → Q (err e, w))
      → ((a : A) → o ≡ some a → Q (f a w))
      → Q (and_then (or_raise o e w) f)
  or_raise_rule none e missing found = missing refl
  or_raise_rule (some a) e missing found = found a refl

  pub result_rule :
      (r : Result A)
      → ((e : ApiError) → r ≡ err e → Q (err e, w))
      → ((a : A) → r ≡ ok a → Q (f a w))
      → Q (and_then (r, w) f)
  result_rule (ok a) failed done = done a refl
  result_rule (err e) failed done = failed e refl

module _ {B : Type 0} (Q : Result B × World → Type 0) (w : World) where
  pub raise_if_rule :
      (f : Unit {0} → Action B) (c : Bool) (e : ApiError)
      → (c ≡ true → Q (err e, w))
      → (c ≡ false → Q (f tt w))
      → Q (and_then (raise_if c e w) f)
  raise_if_rule f true e stop go = stop refl
  raise_if_rule f false e stop go = go refl

  pub require_ok_rule :
      (f : Unit {0} → Action B) (c : LimitCheck)
      → (c ≢ LimitCheck.ok → Q (err (kyc_limit_exceeded c), w))
      → (c ≡ LimitCheck.ok → Q (f tt w))
      → Q (and_then (require_ok c w) f)
  require_ok_rule f LimitCheck.ok stop go = go refl
  require_ok_rule f LimitCheck.daily_limit stop go = stop (ground arith)
  require_ok_rule f LimitCheck.monthly_limit stop go = stop (ground arith)
  require_ok_rule f LimitCheck.over_balance stop go = stop (ground arith)
  require_ok_rule f LimitCheck.over_transaction stop go = stop (ground arith)

  pub charge_rule :
      (f : ℕ → Action B) (c : FeeResult)
      → (c ≡ bad_amount → Q (err unexpected, w))
      → ((n base : ℕ) → c ≡ fee n base → Q (f n w))
      → Q (and_then (charge c w) f)
  charge_rule f bad_amount stop go = stop refl
  charge_rule f (fee n base) stop go = go n base refl
