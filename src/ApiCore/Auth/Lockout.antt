-- ===== src/ApiCore/Auth/Lockout.antt =====
-- The lock that three failed logins leave.
use cauripay.Common.{ℕ, ◌+◌, ◌≡◌, true, false, Option, none, some, find, ◌==◌}
use cauripay.Common.Dict.{insert}
use cauripay.Rules.{validate_phone_number}
use cauripay.ApiCore.World.{World, Env, User, UserStatus, err, live, invalid_credentials}
use cauripay.ApiCore.Auth.{Texts, verify_secret, login, lockout_ttl, count_failure, live_entry}

-- The first row of a phone, under its own id.
abbrev pub HasUser : ℕ → User → World → Type 0
HasUser phone u w = find (λ (e : ℕ × User). e.1.phone == phone) w.users ≡ some (u.id, u)

module _ (scrypt : ℕ → ℕ → ℕ) (texts : Texts) where
  module _ (env : Env) (phone wrong : ℕ) (w : World) (u : User) (expiry : Option ℕ)
      (valid : validate_phone_number (texts.spell phone) ≡ true)
      (unlocked : live env.now (w.locks phone) ≡ none) (has : HasUser phone u w)
      (bad : verify_secret scrypt wrong u.password_hash ≡ false)
      (counted : live_entry env.now (w.fails phone)
        ≡ some (record { value = 2; expires_at = expiry })) where
    pub login_fails :
        login scrypt texts env phone wrong w
        ≡ (err invalid_credentials, count_failure env phone (some u) w)
    unfolding login
    login_fails = simp (valid, unlocked, has, bad)

    abbrev pub locked : User
    locked = record u { status = UserStatus.locked; locked_until = some (env.now + lockout_ttl) }

    pub locks_user : (count_failure env phone (some u) w).users ≡ insert u.id locked w.users
    locks_user = simp counted
