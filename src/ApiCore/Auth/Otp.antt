-- ===== src/ApiCore/Auth/Otp.antt =====
-- One-time codes.
use cauripay.Common.{ℕ, ◌+◌, ◌<◌, ◌≡◌, ◌↔◌, none, arith, ==_self, true, is_some, Bool}
use cauripay.ApiCore.World.{World, Env, User, Purpose, ok, err, invalid_otp}
use cauripay.ApiCore.Auth.{send_otp, verify_otp, find_by_phone}

module _ (scrypt : ℕ → ℕ → ℕ) where
  pub refused :
      (env : Env) (phone code : ℕ) (p : Purpose) (w : World)
      → w.otps p phone ≡ none
      → (verify_otp scrypt env phone code p w).0 ≡ err invalid_otp
  unfolding verify_otp
  refused env phone code p w gone = simp gone

  pub verified_erases :
      (env : Env) (phone code : ℕ) (p : Purpose) (w v : World)
      → verify_otp scrypt env phone code p w ≡ (ok tt, v)
      → v.otps p phone ≡ none
  unfolding verify_otp
  verified_erases env phone code Purpose.login w v e = ground arith
  verified_erases env phone code Purpose.cash_in w v e = ground arith
  verified_erases env phone code Purpose.cash_out w v e = ground arith

  abbrev pub may_mark : Purpose → ℕ → World → Bool
  may_mark Purpose.login phone w = is_some (find_by_phone phone w)
  may_mark _ phone w = true

  -- A code that was just sent is accepted exactly within 300,000 milliseconds, where its digest under
  -- the stored salt agrees, and, for a login code, where some user has the phone.
  pub send_verify_iff :
      (env later : Env) (user : User) (code : ℕ) (p : Purpose) (w : World)
      → ((verify_otp scrypt later user.phone code p (send_otp scrypt env user p w).1).0 ≡ ok tt) ↔ (
          (later.now < env.now + 300_000)
          × (scrypt code env.salt ≡ scrypt env.otp_code env.salt)
          × (may_mark p user.phone w ≡ true))
  unfolding verify_otp send_otp
  send_verify_iff env later user code Purpose.login w = simp (==_self user.phone) (ground arith)
  send_verify_iff env later user code Purpose.cash_in w = simp (==_self user.phone) (ground arith)
  send_verify_iff env later user code Purpose.cash_out w = simp (==_self user.phone) (ground arith)
