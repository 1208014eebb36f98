-- ===== src/ApiCore/Calls/CashOuts.antt =====
-- Cash-outs, over every run of requests: no request sends the code that one needs.
use cauripay.Common.{ℕ, ◌≡◌, ◌≢◌, refl, true, false, not, none, List, arith, All, Option, [], ◌∷◌}
use cauripay.Common.Dict.{lookup}
use cauripay.ApiCore.World.{
  World, Env, Purpose, LedgerCall, Transaction, Result, ok, err, live, invalid_otp, and_then,
}
use cauripay.ApiCore.Ledger.{Exchange}
use cauripay.ApiCore.Reason.{result_rule, raise_if_rule}
use cauripay.ApiCore.Auth.{Texts, code_matches}
use cauripay.ApiCore.Transactions.{CashDto, RequiredRole, role_result, cash_out, pay_out}
use cauripay.ApiCore.Calls.{
  Call, sends, run_calls, post_register, post_login, post_verify, post_refresh, post_change_mpin,
  post_transfer, post_cash_in, post_confirm_cash_in, post_cash_out, post_reverse,
}
use cauripay.ApiCore.Calls.Keeps.{Codes, Closed}
use cauripay.ApiCore.Calls.Codes.{set-Gone, same_purpose_sound}
use cauripay.ApiCore.Calls.Runs.{run_calls-Kept}

abbrev NoCashOutCode : Codes → Type 0
NoCashOutCode f = (k : ℕ) → f Purpose.cash_out k ≡ none

never_sent : (c : Call) (k : ℕ) → sends c Purpose.cash_out k ≡ false
never_sent (post_register phone password) k = refl
never_sent (post_login phone password) k = refl
never_sent (post_verify phone code p) k = refl
never_sent (post_refresh token) k = refl
never_sent (post_change_mpin user_id old new) k = refl
never_sent (post_transfer user_id dto) k = refl
never_sent (post_cash_in agent_id dto) k = refl
never_sent (post_confirm_cash_in agent_id id phone otp) k = refl
never_sent (post_cash_out agent_id dto) k = refl
never_sent (post_reverse user_id id) k = refl

sent_other : (c : Call) (p : Purpose) (j : ℕ) → sends c p j ≡ true → p ≢ Purpose.cash_out
sent_other c p j may is = ground (arith, never_sent c j)

NoCashOutCode-Closed : (env : Env) (c : Call) → Closed (λ _. Unit) (λ _. Unit) NoCashOutCode env c
NoCashOutCode-Closed env c = record {
  edited = λ u v d m e h. tt;
  created = λ u d e f h. tt;
  added = λ t d e h. tt;
  moved = λ i s t d e f g h. tt;
  erased = λ q j f h k. set-Gone Purpose.cash_out k q j none f (λ _ _. refl) (h k);
  sent = λ q j v f may h k.
      set-Gone Purpose.cash_out k q j v f
        (λ same _. absurd (sent_other c q j may (same_purpose_sound q Purpose.cash_out same)))
        (h k);
}

All-Closed :
    (cs : List (Env × Call))
    → All (λ (x : Env × Call). Closed (λ _. Unit) (λ _. Unit) NoCashOutCode x.0 x.1) cs
All-Closed [] = tt
All-Closed ((env, c) ∷ cs) = (NoCashOutCode-Closed env c, All-Closed cs)

module _ (serve : List LedgerCall → Exchange) (scrypt : ℕ → ℕ → ℕ) where
  codeless :
      (env : Env) (agent_id : ℕ) (dto : CashDto) (d : Transaction) (w : World)
      → NoCashOutCode w.otps
      → (cash_out serve scrypt env agent_id dto w).0 ≢ ok d
  unfolding cash_out
  codeless env agent_id dto d w h =
      result_rule Q w _ (role_result RequiredRole.needs_agent (lookup agent_id w.users))
        (λ _ _. differs)
        λ agent _.
          raise_if_rule (λ r. Q (and_then r (λ _. pay_out serve scrypt env dto agent))) w _
            (not (
              code_matches scrypt dto.otp
                (live env.now (w.otps Purpose.cash_out dto.client_phone))))
            invalid_otp (λ _. differs) (λ given. absurd (no_match given))
    where
      Q : Result Transaction × World → Type 0
      Q x = x.0 ≢ ok d

      differs : {e : _} → err e ≢ ok d
      differs = cc

      no_match :
          not (
              code_matches scrypt dto.otp (live env.now (w.otps Purpose.cash_out dto.client_phone)))
            ≡ false
          → ⊥
      no_match given = ground (arith, h dto.client_phone)

-- Cash-outs never succeed: from a state without cash-out codes, whatever requests the two
-- services have answered, one after the other, every cash-out throws, whoever asks and whatever
-- code is given.
pub cash_out-refused :
    (serve : List LedgerCall → Exchange) (scrypt : ℕ → ℕ → ℕ) (texts : Texts)
    (verify_refresh : ℕ → Option ℕ) (cs : List (Env × Call)) (w : World)
    → ((k : ℕ) → w.otps Purpose.cash_out k ≡ none)
    → (env : Env) (agent_id : ℕ) (dto : CashDto) (d : Transaction)
    → (cash_out serve scrypt env agent_id dto (run_calls serve scrypt texts verify_refresh cs w)).0
      ≢ ok d
cash_out-refused serve scrypt texts verify_refresh cs w none_yet env agent_id dto d =
    codeless serve scrypt env agent_id dto d _
      (run_calls-Kept (λ _. Unit) (λ _. Unit) NoCashOutCode serve scrypt texts verify_refresh cs w
        (All-Closed cs) (tt, tt, none_yet)).2
