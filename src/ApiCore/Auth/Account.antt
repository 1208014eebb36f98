-- ===== src/ApiCore/Auth/Account.antt =====
-- Registration, and the change of an MPIN.
use cauripay.Common.{
  ℕ, ◌≤◌, ◌≡◌, refl, true, false, not, none, some, Option, Bool-cases, inl, inr, ap, ◌∙◌, arith,
  length, all, is_some, ltb, ◌==◌,
}
use cauripay.Common.Dict.{lookup, insert, find_row, lookup-insert_self}
use cauripay.Rules.{validate_phone_number, is_digit, KycLevel}
use cauripay.ApiCore.World.{
  World, Env, User, Wallet, WalletStatus, Result, ok, err, invalid_phone, weak_password,
  phone_taken,
}
use cauripay.ApiCore.Reason.{raise_if_rule}
use cauripay.ApiCore.Auth.{Texts, drop_plus, find_by_phone, hash_secret, register, change_mpin}

none_of_free : (o : Option User) → is_some o ≡ false → o ≡ none
none_of_free o h = ground arith

module _ (scrypt : ℕ → ℕ → ℕ) (texts : Texts) where
  -- What holds after a registration that succeeded.
  pub record Registered (env : Env) (phone password : ℕ) (w : World) (id : ℕ) (v : World)
      : Type 0 where
    pub user : User
    pub wallet : Wallet
    pub phone_ok : validate_phone_number (texts.spell phone) ≡ true
    pub long_enough : 8 ≤ length (texts.spell password)
    pub was_free : find_by_phone phone w ≡ none
    pub stored : lookup id v.users ≡ some user
    pub has_phone : user.phone ≡ phone
    pub level : user.kyc_level ≡ KycLevel.basic
    pub unverified : user.phone_verified ≡ false
    pub has_wallet : lookup id v.wallets ≡ some wallet
    pub owner : wallet.owner_id ≡ some id
    pub open_wallet : wallet.status ≡ WalletStatus.active

  abbrev pub RegisterOutcome : Env → ℕ → ℕ → World → Result ℕ × World → Type 0
  RegisterOutcome env phone password w (ok id, v) = Registered env phone password w id v
  RegisterOutcome env phone password w (err e, v) = v ≡ w

  -- Registration is all or nothing: it stores the user and an active wallet of theirs, with the
  -- lowest KYC level and an unverified phone, under a well-formed and unused phone and a password
  -- of eight characters or more; or it throws and changes nothing.
  pub register-outcome :
      (env : Env) (phone password : ℕ) (w : World)
      → RegisterOutcome env phone password w (register scrypt texts env phone password w)
  unfolding register
  register-outcome env phone password w =
      raise_if_rule Q w _ (not (validate_phone_number (texts.spell phone))) invalid_phone
        (λ _. refl)
        λ phone_ok.
          raise_if_rule Q w _ (ltb (length (texts.spell password)) 8) weak_password (λ _. refl)
            λ long.
              raise_if_rule Q w _ (is_some (find_by_phone phone w)) phone_taken (λ _. refl)
                λ free.
                  elim (Bool-cases (
                    is_some (
                      find_row
                        (λ (x : Wallet).
                          x.account_number == texts.number (drop_plus (texts.spell phone)))
                        w.wallets))) [
                          | inl taken ↦ rw taken refl
                          | inr unused ↦ rw unused record {
                            user = _;
                            wallet = _;
                            phone_ok = ground arith;
                            long_enough = ground arith;
                            was_free = none_of_free (find_by_phone phone w) free;
                            stored = lookup-insert_self _ _ _;
                            has_phone = refl;
                            level = refl;
                            unverified = refl;
                            has_wallet = lookup-insert_self _ _ _;
                            owner = refl;
                            open_wallet = refl;
                          }
                        ]
    where
      Q : Result ℕ × World → Type 0
      Q = RegisterOutcome env phone password w

  -- The old MPIN is asked for only where the caller sends one: without it, a known user's MPIN is
  -- replaced by any six digits, although one is stored.
  pub change_mpin_without_old :
      (env : Env) (user_id new : ℕ) (u : User) (w : World)
      → length (texts.spell new) ≡ 6
      → all is_digit (texts.spell new) ≡ true
      → lookup user_id w.users ≡ some u
      → u.id ≡ user_id
      → let (r, v) = change_mpin scrypt texts env user_id none new w in
        (r ≡ ok tt)
        × (lookup user_id v.users
            ≡ some (record u { mpin_hash = some (hash_secret scrypt env.salt new) }))
  unfolding change_mpin
  change_mpin_without_old env user_id new u w six digits known own =
      simp (six, digits, known)
        (
          refl,
          ap (λ i. lookup user_id (insert i changed w.users)) own
              ∙ lookup-insert_self user_id changed w.users,
        )
    where
      changed : User
      changed = record u { mpin_hash = some (hash_secret scrypt env.salt new) }
