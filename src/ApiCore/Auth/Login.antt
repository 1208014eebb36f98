-- ===== src/ApiCore/Auth/Login.antt =====
-- Who can log in.
use cauripay.Common.{
  ℕ, ◌≡◌, ◌↔◌, refl, ◌⊎◌, inl, inr, true, false, not, Option, none, some, arith, is_some,
  Bool-cases, sym, ap, ◌∙◌,
}
use cauripay.Rules.{validate_phone_number}
use cauripay.ApiCore.World.{
  World, Env, User, Result, ok, err, live, invalid_credentials, invalid_phone, account_locked,
  phone_not_verified, account_suspended,
}
use cauripay.ApiCore.Reason.{raise_if_rule}
use cauripay.ApiCore.Auth.{
  Texts, check_password, find_by_phone, verify_secret, user_is_active, login, AuthTokens,
  issue_tokens, count_failure,
}

-- What must hold for a login to give tokens.
pub record MayLogIn (scrypt : ℕ → ℕ → ℕ) (texts : Texts) (env : Env) (phone password : ℕ)
    (w : World) (u : User) : Type 0 where
  pub phone_ok : validate_phone_number (texts.spell phone) ≡ true
  pub unlocked : is_some (live env.now (w.locks phone)) ≡ false
  pub known : find_by_phone phone w ≡ some u
  pub password_ok : verify_secret scrypt password u.password_hash ≡ true
  pub verified : u.phone_verified ≡ true
  pub active : user_is_active u.status ≡ true

module _ (scrypt : ℕ → ℕ → ℕ) (texts : Texts) where
  module _ (env : Env) (phone password : ℕ) where
    login_ok :
        (w : World) (u : User)
        → MayLogIn scrypt texts env phone password w u
        → (login scrypt texts env phone password w).0 ≡ ok (issue_tokens u)
    unfolding login
    login_ok w u m = simp (m.phone_ok, m.unlocked, m.known, m.password_ok, m.verified, m.active)

    -- The outcome of a login from `w`: tokens for a user who may log in, or no write but the count
    -- of a failed attempt.
    abbrev LoginOutcome : World → Result AuthTokens × World → Type 0
    LoginOutcome w (ok t, v) =
        (u : User) × MayLogIn scrypt texts env phone password w u × (t ≡ issue_tokens u)
    LoginOutcome w (err e, v) = (v ≡ w) ⊎ (v ≡ count_failure env phone (find_by_phone phone w) w)

    module _ (w : World) where
      check_password-cases :
          (found : Option User)
          → ((u : User) × (found ≡ some u)
              × (verify_secret scrypt password u.password_hash ≡ true)
              × (check_password scrypt env phone password found w ≡ (ok u, w)))
            ⊎ (check_password scrypt env phone password found w
                ≡ (err invalid_credentials, count_failure env phone found w))
      check_password-cases none = inr refl
      check_password-cases (some u) =
          elim (Bool-cases (verify_secret scrypt password u.password_hash)) [
            | inl right ↦ inl (u, refl, right, rw right)
            | inr wrong ↦ inr (rw wrong)
          ]

      login-outcome : LoginOutcome w (login scrypt texts env phone password w)
      unfolding login
      login-outcome =
          raise_if_rule Q w _ (not (validate_phone_number (texts.spell phone))) invalid_phone
            (λ _. inl refl)
            λ phone_ok.
              raise_if_rule Q w _ (is_some (live env.now (w.locks phone))) account_locked
                (λ _. inl refl)
                λ unlocked. elim (check_password-cases (find_by_phone phone w)) [
                  | inl (u, known, right, same) ↦ rw same (
                      raise_if_rule Q w _ (not u.phone_verified) phone_not_verified (λ _. inl refl)
                        λ verified.
                          raise_if_rule Q w _ (not (user_is_active u.status)) account_suspended
                            (λ _. inl refl)
                            λ active. (
                              u,
                              record {
                                phone_ok = ground arith;
                                unlocked = unlocked;
                                known = known;
                                password_ok = right;
                                verified = ground arith;
                                active = ground arith;
                              },
                              refl,
                            ))
                  | inr same ↦ rw same (inr refl)
                ]
        where
          Q : Result AuthTokens × World → Type 0
          Q = LoginOutcome w

      tokens_of :
          (t : AuthTokens) (r : Result AuthTokens × World)
          → LoginOutcome w r
          → r.0 ≡ ok t
          → (u : User) × MayLogIn scrypt texts env phone password w u × (t ≡ issue_tokens u)
      tokens_of t (ok t', v) (u, may, same) e = let is : t' ≡ t = cc e in (u, may, sym is ∙ same)
      tokens_of t (err x, v) h e = cc

      -- A login gives tokens exactly when the phone is well formed and not locked, the user is
      -- known, the password is right, the phone is verified and the account is active; the tokens
      -- are then that user's.
      pub login_iff :
          (t : AuthTokens)
          → ((login scrypt texts env phone password w).0 ≡ ok t)
            ↔ ((u : User) × MayLogIn scrypt texts env phone password w u × (t ≡ issue_tokens u))
      login_iff t = (sound, complete)
        where
          sound :
              (login scrypt texts env phone password w).0 ≡ ok t
              → (u : User) × MayLogIn scrypt texts env phone password w u × (t ≡ issue_tokens u)
          sound = tokens_of t (login scrypt texts env phone password w) login-outcome

          complete :
              ((u : User) × MayLogIn scrypt texts env phone password w u × (t ≡ issue_tokens u))
              → (login scrypt texts env phone password w).0 ≡ ok t
          complete (u, may, same) = login_ok w u may ∙ ap ok (sym same)
