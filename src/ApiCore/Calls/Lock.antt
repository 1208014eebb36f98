-- ===== src/ApiCore/Calls/Lock.antt =====
-- The lock that three failed logins leave, over every run of requests.
use cauripay.Common.{
  ℕ, ◌≡◌, ◌≢◌, refl, true, false, Option, none, some, List, arith, All, All-imp, ap, sym, ◌==◌,
  find_sound, is_some,
}
use mathlib.Core.Path.{subst}
use cauripay.Common.Dict.{lookup-insert_self}
use cauripay.Rules.{validate_phone_number}
use cauripay.ApiCore.World.{
  World, Env, User, UserStatus, LedgerCall, ok, err, live, invalid_credentials,
}
use cauripay.ApiCore.Ledger.{Exchange}
use cauripay.ApiCore.Auth.{
  Texts, AuthTokens, user_is_active, verify_secret, login, count_failure, live_entry,
}
use cauripay.ApiCore.Auth.Login.{login_iff}
use cauripay.ApiCore.Auth.Lockout.{HasUser, login_fails, locked, locks_user}
use cauripay.ApiCore.Calls.{Call, run_calls}
use cauripay.ApiCore.Calls.Keeps.{Closed, found-HoldsRow, All-HoldsRow, find_row_sound}
use cauripay.ApiCore.Calls.Runs.{run_calls-Kept}
use cauripay.ApiCore.Calls.LockedRows.{
  UsersKeyed, RowLocked, StaysLocked, Locked-Closed, locked-All,
}

module _ (serve : List LedgerCall → Exchange) (scrypt : ℕ → ℕ → ℕ) (texts : Texts)
    (verify_refresh : ℕ → Option ℕ) where
  -- No request of a run gives tokens to a phone whose row is LOCKED.
  refused_login :
      (env : Env) (phone id password : ℕ) (w : World) (t : AuthTokens)
      → StaysLocked phone id w.users
      → (login scrypt texts env phone password w).0 ≢ ok t
  refused_login env phone id password w t (hs, there) e =
      let (u, may, _) = (login_iff scrypt texts env phone password w t).0 e in
      let (k, row) =
        All-HoldsRow (RowLocked phone id) u w.users hs (found-HoldsRow _ u w.users may.known) in
      let mine : u.phone ≡ phone =
        ground (arith, find_row_sound (λ (x : User). x.phone == phone) u w.users may.known) in
      let status : u.status ≡ UserStatus.locked = row.3 (row.1 mine) in
      cc (ap user_is_active status, may.active)

  -- Where ids and phones are unique, the third failed login in a row of a known, well-formed and
  -- unlocked phone throws INVALID_CREDENTIALS, and no later login of that phone gives tokens,
  -- with whatever password, at whatever time, also when the thirty minutes have passed, and
  -- whatever requests were answered in between, one after the other, where none of them drew the
  -- same id for a new user.
  pub lockout_is_permanent :
      (env : Env) (phone wrong : ℕ) (w : World) (u : User) (expiry : Option ℕ)
      → validate_phone_number (texts.spell phone) ≡ true
      → live env.now (w.locks phone) ≡ none
      → UsersKeyed w.users
      → HasUser phone u w
      → verify_secret scrypt wrong u.password_hash ≡ false
      → live_entry env.now (w.fails phone) ≡ some (record { value = 2; expires_at = expiry })
      → (cs : List (Env × Call)) → All (λ (x : Env × Call). x.0.fresh_id ≢ u.id) cs
      → (later : Env) (password : ℕ) (t : AuthTokens)
      → let (r, v) = login scrypt texts env phone wrong w in
        (r ≡ err invalid_credentials)
        × ((login scrypt texts later phone password
              (run_calls serve scrypt texts verify_refresh cs v)).0
            ≢ ok t)
  lockout_is_permanent env phone wrong w u expiry valid unlocked keyed has bad counted cs fresh
        later password t =
      let has_phone : u.phone ≡ phone =
        ground (arith, find_sound (λ (e : ℕ × User). e.1.phone == phone) w.users (u.id, u) has) in
      let v = count_failure env phone (some u) w in
      let new = locked scrypt texts env phone wrong w u expiry valid unlocked has bad counted in
      let stored =
        locks_user scrypt texts env phone wrong w u expiry valid unlocked has bad counted in
      let start : StaysLocked phone u.id v.users = subst (StaysLocked phone u.id) (sym stored) (
        locked-All phone u.id u new w.users keyed has
            (refl, (λ _. refl), (λ _. has_phone), λ _. refl),
        ap is_some (lookup-insert_self u.id new w.users),
      ) in
      rw (login_fails scrypt texts env phone wrong w u expiry valid unlocked has bad counted) (
        refl,
        refused_login later phone u.id password _ t
            (run_calls-Kept (StaysLocked phone u.id) (λ _. Unit) (λ _. Unit) serve scrypt texts
              verify_refresh cs v
              (All-imp (λ (x : Env × Call). x.0.fresh_id ≢ u.id)
                (λ (x : Env × Call).
                  Closed (StaysLocked phone u.id) (λ _. Unit) (λ _. Unit) x.0 x.1)
                (λ x q. Locked-Closed phone u.id x.0 x.1 q) cs fresh)
              (start, tt, tt)).0,
      )
