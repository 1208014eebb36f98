-- ===== src/ApiCore/Auth.antt =====
-- services/api-core/src/auth/auth.service.ts and password.util.ts. Texts that are only compared
-- are numbers; `spell` gives the characters of one and `number` the number of a spelling. The
-- digest of scrypt is the parameter `scrypt value salt`; `verify_refresh` is what the JWT library
-- says of a refresh token: the subject of a valid one, or an exception.
pub mod Login
pub mod Otp
pub mod Account
pub mod Lockout
use cauripay.Common.{
  ℕ, ◌+◌, ◌*◌, Bool, false, true, ◌||◌, ◌&&◌, not, Option, none, some, List, [], ◌∷◌, ltb, leb,
  ◌==◌, if◌then◌else◌, find, all, length, is_some,
}
use cauripay.Common.Dict.{Dict, lookup, insert, find_row}
use cauripay.Rules.{validate_phone_number, is_digit, KycLevel}
use cauripay.ApiCore.World.{
  Secret, Role, UserStatus, User, WalletType, WalletStatus, Wallet, AuditAction, AuditLog, Purpose,
  OtpRow, Entry, World, Env, Action, pure, raise, gets, or_raise, raise_if, modify, ◌>>=◌, ◌>>◌,
  live, ok, err, invalid_phone, weak_password, phone_taken, account_locked, invalid_credentials,
  phone_not_verified, account_suspended, invalid_otp, invalid_refresh, invalid_mpin, not_found,
  unexpected,
}

abbrev pub lockout_after : ℕ
lockout_after = 3

-- LOCKOUT_TTL_SECONDS and OTP_TTL_SECONDS, in milliseconds.
abbrev pub lockout_ttl : ℕ
lockout_ttl = 1_800_000

abbrev pub otp_ttl : ℕ
otp_ttl = 300_000

pub record Texts : Type 0 where
  pub spell : ℕ → List ℕ
  pub number : List ℕ → ℕ

-- `phone.replace('+', '')`: the first plus sign goes.
abbrev pub drop_plus : List ℕ → List ℕ
drop_plus [] = []
drop_plus (c ∷ s) = if c == b'+' then s else c ∷ drop_plus s

abbrev pub same_purpose : Purpose → Purpose → Bool
same_purpose Purpose.login Purpose.login = true
same_purpose Purpose.cash_in Purpose.cash_in = true
same_purpose Purpose.cash_out Purpose.cash_out = true
same_purpose _ _ = false

abbrev pub is_login : Purpose → Bool
is_login Purpose.login = true
is_login _ = false

abbrev pub user_is_active : UserStatus → Bool
user_is_active UserStatus.active = true
user_is_active _ = false

-- `set`, `del` of one Redis key.
abbrev pub put : {V : Type 0} → ℕ → V → (ℕ → V) → ℕ → V
put k v f j = if k == j then v else f j

abbrev pub put_otp : Purpose → ℕ → Option (Entry Secret) → World → World
put_otp p k v w = record w { otps = λ q j. if same_purpose p q && k == j then v else w.otps q j }

abbrev pub find_by_phone : ℕ → World → Option User
find_by_phone phone w = find_row (λ u. u.phone == phone) w.users

abbrev pub save_user : User → World → World
save_user u w = record w { users = insert u.id u w.users }

pub record AuthTokens : Type 0 where
  pub subject : ℕ
  pub expires_in : ℕ

abbrev pub issue_tokens : User → AuthTokens
issue_tokens u = record { subject = u.id; expires_in = 900 }

abbrev pub tick : ℕ → Option (Entry ℕ) → Entry ℕ
tick now none = record { value = 1; expires_at = some (now + lockout_ttl) }
tick now (some e) = record { value = e.value + 1; expires_at = e.expires_at }

-- The entry that `incr` finds: an expired one is gone.
abbrev pub live_entry : ℕ → Option (Entry ℕ) → Option (Entry ℕ)
live_entry now none = none
live_entry now (some e) = if is_some (live now (some e)) then some e else none

abbrev pub lock_user : Env → Option User → World → World
lock_user env none w = w
lock_user env (some u) w =
    save_user (record u { status = UserStatus.locked; locked_until = some (env.now + lockout_ttl) })
      w

-- The failed branch of `login`: count the attempt, and lock the account at the third.
abbrev pub count_failure : Env → ℕ → Option User → World → World
count_failure env phone found w =
    let counted = tick env.now (live_entry env.now (w.fails phone)) in
    if leb lockout_after counted.value
    then lock_user env found (record w {
      locks =
          put phone (some (record { value = tt; expires_at = some (env.now + lockout_ttl) }))
            w.locks;
      fails = put phone none w.fails;
    })
    else record w { fails = put phone (some counted) w.fails }

module _ (scrypt : ℕ → ℕ → ℕ) where
  abbrev pub hash_secret : ℕ → ℕ → Secret
  hash_secret salt value = record { salt = salt; digest = scrypt value salt }

  abbrev pub verify_secret : ℕ → Secret → Bool
  verify_secret value stored = scrypt value stored.salt == stored.digest

  unfoldable pub send_otp : Env → User → Purpose → Action (Unit {0})
  send_otp env user purpose = do
    let code_hash = hash_secret env.salt env.otp_code
    modify (
        put_otp purpose user.phone
          (some (record { value = code_hash; expires_at = some (env.now + otp_ttl) })))
    modify λ w. record w {
      otp_rows =
          record {
            user_id = user.id;
            code_hash = code_hash;
            purpose = purpose;
            expires_at = env.now + otp_ttl;
          }
          ∷ w.otp_rows;
    }

  -- The update of a verified login code; it throws where no user has the phone.
  abbrev pub mark_verified : ℕ → Purpose → Action (Unit {0})
  mark_verified phone Purpose.login = do
    user ← or_raise (← gets (find_by_phone phone)) unexpected
    modify (save_user (record user { phone_verified = true }))
  mark_verified phone _ = pure tt

  abbrev pub code_matches : ℕ → Option Secret → Bool
  code_matches code none = false
  code_matches code (some stored) = verify_secret code stored

  unfoldable pub verify_otp : Env → ℕ → ℕ → Purpose → Action (Unit {0})
  verify_otp env phone code purpose = do
    stored ← gets λ w. live env.now (w.otps purpose phone)
    raise_if (not (code_matches code stored)) invalid_otp
    modify (put_otp purpose phone none)
    mark_verified phone purpose

  abbrev pub check_password : Env → ℕ → ℕ → Option User → Action User
  check_password env phone password none = do
    modify (count_failure env phone none)
    raise invalid_credentials
  check_password env phone password (some u) =
      if verify_secret password u.password_hash
      then pure u
      else (do modify (count_failure env phone (some u)); raise invalid_credentials)

  module _ (texts : Texts) where
    -- The `$transaction` of `register`; the account number is unique, so that a taken one rolls
    -- everything back.
    abbrev pub create_account : Env → ℕ → ℕ → Action User
    create_account env phone password w =
        let account_number = texts.number (drop_plus (texts.spell phone)) in
        let user : User = record {
          id = env.fresh_id;
          phone = phone;
          password_hash = hash_secret env.salt password;
          mpin_hash = none;
          role = Role.customer;
          status = UserStatus.active;
          kyc_level = KycLevel.basic;
          phone_verified = false;
          failed_attempts = 0;
          locked_until = none;
        } in
        let wallet : Wallet = record {
          id = env.fresh_id;
          account_number = account_number;
          type = WalletType.customer;
          status = WalletStatus.active;
          owner_id = some env.fresh_id;
        } in
        let log : AuditLog = record {
          action = AuditAction.register;
          resource_id = env.fresh_id;
          actor_id = some env.fresh_id;
        } in
        if is_some (find_row (λ (x : Wallet). x.account_number == account_number) w.wallets)
        then (err unexpected, w)
        else (
          ok user,
          record w {
            users = insert env.fresh_id user w.users;
            wallets = insert env.fresh_id wallet w.wallets;
            kyc_records = env.fresh_id ∷ w.kyc_records;
            audit_logs = log ∷ w.audit_logs;
          },
        )

    unfoldable pub register : Env → ℕ → ℕ → Action ℕ
    unfolding send_otp
    register env phone password = do
      raise_if (not (validate_phone_number (texts.spell phone))) invalid_phone
      raise_if (ltb (length (texts.spell password)) 8) weak_password
      raise_if (is_some (← gets (find_by_phone phone))) phone_taken
      user ← create_account env phone password
      send_otp env user Purpose.login
      pure user.id

    unfoldable pub login : Env → ℕ → ℕ → Action AuthTokens
    login env phone password = do
      raise_if (not (validate_phone_number (texts.spell phone))) invalid_phone
      raise_if (is_some (← gets (λ w. live env.now (w.locks phone)))) account_locked
      user ← check_password env phone password (← gets (find_by_phone phone))
      raise_if (not user.phone_verified) phone_not_verified
      raise_if (not (user_is_active user.status)) account_suspended
      modify λ w. record w { fails = put phone none w.fails }
      modify (save_user (record user { failed_attempts = 0; locked_until = none }))
      pure (issue_tokens user)

    abbrev pub old_mpin_wrong : Option ℕ → Option Secret → Bool
    old_mpin_wrong (some old) (some stored) = not (verify_secret old stored)
    old_mpin_wrong _ _ = false

    -- An old MPIN that is absent or empty is `none`.
    unfoldable pub change_mpin : Env → ℕ → Option ℕ → ℕ → Action (Unit {0})
    change_mpin env user_id old_mpin new_mpin = do
      let digits = texts.spell new_mpin
      raise_if (not (length digits == 6 && all is_digit digits)) invalid_mpin
      user ← or_raise (← gets (λ w. lookup user_id w.users)) not_found
      raise_if (old_mpin_wrong old_mpin user.mpin_hash) invalid_mpin
      modify (save_user (record user { mpin_hash = some (hash_secret env.salt new_mpin) }))
      modify λ w. record w {
        audit_logs =
            record {
              action = AuditAction.change_mpin;
              resource_id = user_id;
              actor_id = some user_id;
            }
            ∷ w.audit_logs;
      }

unfoldable pub refresh : (ℕ → Option ℕ) → ℕ → Action AuthTokens
refresh verify_refresh token = do
  subject ← or_raise (verify_refresh token) unexpected
  user ← or_raise (← gets (λ w. lookup subject w.users)) invalid_refresh
  raise_if (not (user_is_active user.status)) invalid_refresh
  pure (issue_tokens user)
