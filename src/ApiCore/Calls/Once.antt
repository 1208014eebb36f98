-- ===== src/ApiCore/Calls/Once.antt =====
-- A cash-in that was confirmed, over every run of requests.
use cauripay.Common.{ℕ, ◌≡◌, ◌≢◌, refl, Option, some, List, arith, All, All-imp, ap, sym, ◌∙◌}
use mathlib.Core.Path.{subst}
use cauripay.Common.Dict.{Dict, lookup, insert, lookup-insert}
use cauripay.ApiCore.World.{World, Env, Transaction, TransactionStatus, LedgerCall, ok}
use cauripay.ApiCore.Ledger.{Exchange}
use cauripay.ApiCore.Auth.{Texts}
use cauripay.ApiCore.Transactions.{confirm_cash_in}
use cauripay.ApiCore.Transactions.Cash.{
  TransactionsKeyed, Confirmed, ConfirmOutcome, confirm_cash_in-outcome, insert-Keyed,
  settled_not_pending,
}
use cauripay.ApiCore.Calls.{Call, run_calls}
use cauripay.ApiCore.Calls.Keeps.{Closed}
use cauripay.ApiCore.Calls.Runs.{run_calls-Kept}

module _ (serve : List LedgerCall → Exchange) (scrypt : ℕ → ℕ → ℕ) (id : ℕ) where
  abbrev OffPending : Dict Transaction → Type 0
  OffPending d = (r : Transaction) → lookup id d ≡ some r → r.status ≢ TransactionStatus.pending

  abbrev Past : Dict Transaction → Type 0
  Past d = ((i : ℕ) (r : Transaction) → lookup i d ≡ some r → r.id ≡ i) × OffPending d

  off_here :
      (i : ℕ) (t : Transaction) (d : Dict Transaction)
      → (i ≡ id → t.status ≢ TransactionStatus.pending)
      → OffPending d
      → OffPending (insert i t d)
  off_here i t d here h r e is = grind (arith, lookup-insert i id t d, h r)

  Past-Closed :
      (env : Env) (c : Call) → env.fresh_id ≢ id → Closed (λ _. Unit) Past (λ _. Unit) env c
  Past-Closed env c fresh = record {
    edited = λ u v d m e h. tt;
    created = λ u d e f h. tt;
    added = λ t d new h. (
      insert-Keyed serve scrypt t.id t d h.0 refl,
      off_here t.id t d (λ e. absurd (fresh (sym new ∙ e))) h.1,
    );
    moved = λ i s t d found same off h.
        (insert-Keyed serve scrypt i t d h.0 (same ∙ h.0 i s found), off_here i t d (λ _. off) h.1);
    erased = λ q j f h. tt;
    sent = λ q j v f may h. tt;
  }

-- A cash-in is confirmed at most once, where every row is stored under its own id: after a
-- confirmation that succeeded, and whatever requests were answered in between, one after the
-- other, where none of them drew the same id for a new row, no confirmation of that row
-- succeeds, at whatever time, by whatever agent and with whatever code.
pub confirm_cash_in_once :
    (serve : List LedgerCall → Exchange) (scrypt : ℕ → ℕ → ℕ) (texts : Texts)
    (verify_refresh : ℕ → Option ℕ) (env : Env) (agent_id id phone code : ℕ) (w v : World)
    (d : Transaction) (cs : List (Env × Call))
    → TransactionsKeyed w
    → confirm_cash_in serve scrypt env agent_id id phone code w ≡ (ok d, v)
    → All (λ (x : Env × Call). x.0.fresh_id ≢ id) cs
    → (env' : Env) (agent_id' phone' code' : ℕ) (v' : World) (d' : Transaction)
    → confirm_cash_in serve scrypt env' agent_id' id phone' code'
        (run_calls serve scrypt texts verify_refresh cs v)
      ≢ (ok d', v')
confirm_cash_in_once serve scrypt texts verify_refresh env agent_id id phone code w v d cs keyed e
      fresh env' agent_id' phone' code' v' d' e' =
    let c : Confirmed serve scrypt env agent_id id phone code w d v =
      subst (ConfirmOutcome serve scrypt env agent_id id phone code w) e
        (confirm_cash_in-outcome serve scrypt env agent_id id phone code w keyed) in
    let past : Past serve scrypt id v.transactions = subst (Past serve scrypt id) (sym c.stored) (
      insert-Keyed serve scrypt c.row.id d w.transactions keyed
          (ap (λ (t : Transaction). t.id) c.result),
      λ r found.
          settled_not_pending serve scrypt id c.row r d w.transactions env c.entries found c.own_id
            c.result,
    ) in
    let u = run_calls serve scrypt texts verify_refresh cs v in
    let kept : Past serve scrypt id u.transactions =
      (run_calls-Kept (λ _. Unit) (Past serve scrypt id) (λ _. Unit) serve scrypt texts
        verify_refresh cs v
        (All-imp (λ (x : Env × Call). x.0.fresh_id ≢ id)
          (λ (x : Env × Call). Closed (λ _. Unit) (Past serve scrypt id) (λ _. Unit) x.0 x.1)
          (λ x q. Past-Closed serve scrypt id x.0 x.1 q) cs fresh)
        (tt, past, tt)).1 in
    let c' : Confirmed serve scrypt env' agent_id' id phone' code' u d' v' =
      subst (ConfirmOutcome serve scrypt env' agent_id' id phone' code' u) e'
        (confirm_cash_in-outcome serve scrypt env' agent_id' id phone' code' u kept.0) in
    kept.1 c'.row c'.found c'.was_pending
