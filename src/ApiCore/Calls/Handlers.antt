-- ===== src/ApiCore/Calls/Handlers.antt =====
-- Every request keeps a property that the writes keep.
use cauripay.Common.{
  ℕ, ◌≡◌, refl, inl, inr, true, false, not, Option, none, some, List, arith, ◌==◌, ◌&&◌, is_some,
  Bool-cases, ltb, leb, length, all, ap, ◌∙◌,
}
use cauripay.Common.Dict.{Dict, lookup, find_row}
use cauripay.Rules.{validate_phone_number, is_digit}
use cauripay.ApiCore.World.{
  World, Action, Env, User, Wallet, Transaction, LedgerCall, Purpose, Result, live, invalid_phone,
  weak_password, phone_taken, account_locked, invalid_mpin, not_found, unexpected, invalid_refresh,
  and_then, phone_not_verified, account_suspended,
}
use cauripay.ApiCore.Ledger.{Exchange}
use cauripay.ApiCore.Reason.{or_raise_rule, raise_if_rule}
use cauripay.ApiCore.Auth.{
  Texts, find_by_phone, mark_verified, code_matches, verify_otp, send_otp, register, login,
  check_password, verify_secret, count_failure, lock_user, user_is_active, change_mpin,
  old_mpin_wrong, refresh, drop_plus, lockout_after, tick, live_entry, put_otp,
}
use cauripay.ApiCore.Calls.{Call, sends}
use cauripay.ApiCore.Calls.Keeps.{Codes, Closed, Kept, found-HoldsRow, looked-HoldsRow}

none_of_free : (o : Option User) → is_some o ≡ false → o ≡ none
none_of_free o h = ground arith

module _ (U : Dict User → Type 0) (T : Dict Transaction → Type 0) (O : Codes → Type 0)
    (serve : List LedgerCall → Exchange) (scrypt : ℕ → ℕ → ℕ) (texts : Texts)
    (verify_refresh : ℕ → Option ℕ) where
  abbrev Good : {A : Type 0} → Result A × World → Type 0
  Good x = Kept U T O x.1

  module _ {env : Env} {c : Call} (closed : Closed U T O env c) where
    pub mark_verified-Kept :
        (phone : ℕ) (p : Purpose) (w : World) → Kept U T O w → Good (mark_verified scrypt phone p w)
    mark_verified-Kept phone Purpose.login w (u, t, o) =
        or_raise_rule Good w _ (find_by_phone phone w) unexpected (λ _. (u, t, o))
          λ x found. (
            closed.edited x _ w.users (found-HoldsRow _ x w.users found)
                (record { id = refl; phone = refl; status = inl refl }) u,
            t,
            o,
          )
    mark_verified-Kept phone Purpose.cash_in w h = h
    mark_verified-Kept phone Purpose.cash_out w h = h

    pub verify_otp-Kept :
        (phone code : ℕ) (p : Purpose) (w : World)
        → Kept U T O w
        → Good (verify_otp scrypt env phone code p w)
    unfolding verify_otp
    verify_otp-Kept phone code p w (u, t, o) =
        raise_if_rule Good w _ (not (code_matches scrypt code (live env.now (w.otps p phone)))) _
          (λ _. (u, t, o))
          λ _.
            mark_verified-Kept phone p (put_otp p phone none w)
              (u, t, closed.erased p phone w.otps o)

    lock_user-Kept :
        (phone : ℕ) (w : World)
        → (x : Option User) → find_by_phone phone w ≡ x
        → (v : World) → v.users ≡ w.users
        → Kept U T O v
        → Kept U T O (lock_user env x v)
    lock_user-Kept phone w none e v same h = h
    lock_user-Kept phone w (some x) e v same (u, t, o) = (
      closed.edited x _ v.users
          (found-HoldsRow (λ (r : User). r.phone == phone) x v.users
            (ap (find_row (λ (r : User). r.phone == phone)) same ∙ e))
          (record { id = refl; phone = refl; status = inr refl }) u,
      t,
      o,
    )

    count_failure-Kept :
        (phone : ℕ) (w : World) (x : Option User)
        → find_by_phone phone w ≡ x
        → Kept U T O w
        → Kept U T O (count_failure env phone x w)
    count_failure-Kept phone w x found h =
        elim (Bool-cases
          (leb lockout_after (tick env.now (live_entry env.now (w.fails phone))).value)) [
            | inl e ↦ rw e (lock_user-Kept phone w x found _ refl h)
            | inr e ↦ rw e h
          ]

    checked-Kept :
        {B : Type 0} (phone password : ℕ) (w : World) (f : User → Action B) (x : Option User)
        → find_by_phone phone w ≡ x
        → Kept U T O w
        → ((r : User) → x ≡ some r → Good (f r w))
        → Good (and_then (check_password scrypt env phone password x w) f)
    checked-Kept phone password w f none e h go = count_failure-Kept phone w none e h
    checked-Kept phone password w f (some r) e h go =
        elim (Bool-cases (verify_secret scrypt password r.password_hash)) [
          | inl right ↦ rw right (go r refl)
          | inr wrong ↦ rw wrong (count_failure-Kept phone w (some r) e h)
        ]

    pub login-Kept :
        (phone password : ℕ) (w : World)
        → Kept U T O w
        → Good (login scrypt texts env phone password w)
    unfolding login
    login-Kept phone password w (u, t, o) =
        raise_if_rule Good w _ (not (validate_phone_number (texts.spell phone))) invalid_phone
          (λ _. (u, t, o))
          λ _.
            raise_if_rule Good w _ (is_some (live env.now (w.locks phone))) account_locked
              (λ _. (u, t, o))
              λ _.
                checked-Kept phone password w _ (find_by_phone phone w) refl (u, t, o)
                  λ x found.
                    raise_if_rule Good w _ (not x.phone_verified) phone_not_verified
                      (λ _. (u, t, o))
                      λ _.
                        raise_if_rule Good w _ (not (user_is_active x.status)) account_suspended
                          (λ _. (u, t, o))
                          λ _. (
                            closed.edited x _ w.users (found-HoldsRow _ x w.users found)
                                (record { id = refl; phone = refl; status = inl refl }) u,
                            t,
                            o,
                          )

    pub register-Kept :
        (phone password : ℕ) (w : World)
        → sends c Purpose.login phone ≡ true
        → Kept U T O w
        → Good (register scrypt texts env phone password w)
    unfolding register send_otp
    register-Kept phone password w may (u, t, o) =
        raise_if_rule Good w _ (not (validate_phone_number (texts.spell phone))) invalid_phone
          (λ _. (u, t, o))
          λ _.
            raise_if_rule Good w _ (ltb (length (texts.spell password)) 8) weak_password
              (λ _. (u, t, o))
              λ _.
                raise_if_rule Good w _ (is_some (find_by_phone phone w)) phone_taken
                  (λ _. (u, t, o))
                  λ free.
                    elim (Bool-cases (
                      is_some (
                        find_row
                          (λ (x : Wallet).
                            x.account_number == texts.number (drop_plus (texts.spell phone)))
                          w.wallets))) [
                            | inl taken ↦ rw taken (u, t, o)
                            | inr unused ↦ rw unused (
                              closed.created _ w.users refl
                                  (none_of_free (find_by_phone phone w) free) u,
                              t,
                              closed.sent Purpose.login phone _ w.otps may o,
                            )
                          ]

    pub change_mpin-Kept :
        (user_id : ℕ) (old : Option ℕ) (new : ℕ) (w : World)
        → Kept U T O w
        → Good (change_mpin scrypt texts env user_id old new w)
    unfolding change_mpin
    change_mpin-Kept user_id old new w (u, t, o) =
        raise_if_rule Good w _
          (not (length (texts.spell new) == 6 && all is_digit (texts.spell new))) invalid_mpin
          (λ _. (u, t, o))
          λ _.
            or_raise_rule Good w _ (lookup user_id w.users) not_found (λ _. (u, t, o))
              λ x found.
                raise_if_rule Good w _ (old_mpin_wrong scrypt texts old x.mpin_hash) invalid_mpin
                  (λ _. (u, t, o))
                  λ _. (
                    closed.edited x _ w.users (looked-HoldsRow user_id x w.users found)
                        (record { id = refl; phone = refl; status = inl refl }) u,
                    t,
                    o,
                  )

    pub refresh-Kept :
        (token : ℕ) (w : World) → Kept U T O w → Good (refresh verify_refresh token w)
    unfolding refresh
    refresh-Kept token w h =
        or_raise_rule Good w _ (verify_refresh token) unexpected (λ _. h)
          λ subject _.
            or_raise_rule Good w _ (lookup subject w.users) invalid_refresh (λ _. h)
              λ x _.
                raise_if_rule Good w _ (not (user_is_active x.status)) invalid_refresh (λ _. h)
                  λ _. h
