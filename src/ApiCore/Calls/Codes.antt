-- ===== src/ApiCore/Calls/Codes.antt =====
-- A code that has served, over every run of requests.
use cauripay.Common.{ℕ, ◌≡◌, refl, true, false, Option, none, List, arith, All, All-imp}
use cauripay.ApiCore.World.{World, Env, Purpose, Entry, Secret, LedgerCall, ok, err, invalid_otp}
use cauripay.ApiCore.Ledger.{Exchange}
use cauripay.ApiCore.Auth.{Texts, same_purpose, verify_otp}
use cauripay.ApiCore.Auth.Otp.{refused, verified_erases}
use cauripay.ApiCore.Calls.{Call, sends, run_calls}
use cauripay.ApiCore.Calls.Keeps.{Codes, set_code, Closed}
use cauripay.ApiCore.Calls.Runs.{run_calls-Kept}

pub same_purpose_sound : (p q : Purpose) → same_purpose p q ≡ true → p ≡ q
same_purpose_sound Purpose.login q e = ground arith
same_purpose_sound Purpose.cash_in q e = ground arith
same_purpose_sound Purpose.cash_out q e = ground arith

module _ (p : Purpose) (k : ℕ) where
  abbrev Gone : Codes → Type 0
  Gone f = f p k ≡ none

  pub set-Gone :
      (q : Purpose) (j : ℕ) (v : Option (Entry Secret)) (f : Codes)
      → (same_purpose q p ≡ true → j ≡ k → v ≡ none)
      → Gone f
      → Gone (set_code q j v f)
  set-Gone q j v f only h = ground arith

  Gone-Closed :
      (env : Env) (c : Call) → sends c p k ≡ false → Closed (λ _. Unit) (λ _. Unit) Gone env c
  Gone-Closed env c quiet = record {
    edited = λ u v d m e h. tt;
    created = λ u d e f h. tt;
    added = λ t d e h. tt;
    moved = λ i s t d e f g h. tt;
    erased = λ q j f h. set-Gone q j none f (λ _ _. refl) h;
    sent = λ q j v f may h.
        set-Gone q j v f (λ same e. absurd (clash (same_purpose_sound q p same) e may)) h;
  }
    where
      clash : {q : Purpose} {j : ℕ} → q ≡ p → j ≡ k → sends c q j ≡ true → ⊥
      clash same e may = cc (same, e, may, quiet)

-- A code serves once: after a verification that succeeded, a verification for the same phone and
-- purpose fails with INVALID_OTP, at any time and for any code, whatever requests were answered
-- in between, one after the other, where none of them was a registration (for a login code) or a
-- cash-in (for a cash-in code) of that phone, which may send a new code.
pub otp_single_use :
    (serve : List LedgerCall → Exchange) (scrypt : ℕ → ℕ → ℕ) (texts : Texts)
    (verify_refresh : ℕ → Option ℕ) (env later : Env) (phone code again : ℕ) (p : Purpose)
    (w v : World) (cs : List (Env × Call))
    → verify_otp scrypt env phone code p w ≡ (ok tt, v)
    → All (λ (x : Env × Call). sends x.1 p phone ≡ false) cs
    → (verify_otp scrypt later phone again p (run_calls serve scrypt texts verify_refresh cs v)).0
      ≡ err invalid_otp
otp_single_use serve scrypt texts verify_refresh env later phone code again p w v cs e quiet =
    refused scrypt later phone again p _
      (run_calls-Kept (λ _. Unit) (λ _. Unit) (Gone p phone) serve scrypt texts verify_refresh cs v
        (All-imp (λ (x : Env × Call). sends x.1 p phone ≡ false)
          (λ (x : Env × Call). Closed (λ _. Unit) (λ _. Unit) (Gone p phone) x.0 x.1)
          (λ x q. Gone-Closed p phone x.0 x.1 q) cs quiet)
        (tt, tt, verified_erases scrypt env phone code p w v e)).2
