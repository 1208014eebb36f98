-- ===== src/ApiCore/Transactions/Reverse.antt =====
-- Reversals by the support.
use cauripay.Common.{ℕ, ◌≡◌, ◌⊎◌, some, List, ◌∷◌}
use cauripay.Common.Dict.{lookup, insert}
use cauripay.ApiCore.World.{
  TransactionStatus, Transaction, LedgerCall, rev, World, Env, Result, ok, err, User, AuditAction,
}
use cauripay.ApiCore.Ledger.{Exchange}
use cauripay.ApiCore.Transactions.{RequiredRole, role_result, reverse}

module _ (serve : List LedgerCall → Exchange) (scrypt : ℕ → ℕ → ℕ) where
  abbrev pub reversal : Transaction → LedgerCall
  reversal t = LedgerCall.reverse t.id (rev t.id)

  -- What holds of a reversal that succeeded.
  pub record Reversed (env : Env) (user_id id : ℕ) (w : World) (d : Transaction) (v : World)
      : Type 0 where
    pub officer : User
    pub row : Transaction
    pub is_support : role_result RequiredRole.needs_support_l2 (lookup user_id w.users) ≡ ok officer
    pub found : lookup id w.transactions ≡ some row
    pub was_success : row.status ≡ TransactionStatus.success
    pub asked : v.calls ≡ reversal row ∷ w.calls
    pub result : d ≡ record row { status = TransactionStatus.reversed; reversed_at = some env.now }
    pub stored : v.transactions ≡ insert id d w.transactions
    pub logged :
        v.audit_logs
        ≡ record { action = AuditAction.reverse; resource_id = id; actor_id = some user_id }
          ∷ w.audit_logs

  -- A reversal that threw wrote nothing: its only possible trace is the call that the ledger refused.
  pub record NotReversed (w v : World) : Type 0 where
    pub rows : v.transactions ≡ w.transactions
    pub unlogged : v.audit_logs ≡ w.audit_logs
    pub asked : (v.calls ≡ w.calls) ⊎ ((t : Transaction) × (v.calls ≡ reversal t ∷ w.calls))

  abbrev pub ReverseOutcome : Env → ℕ → ℕ → World → Result Transaction × World → Type 0
  ReverseOutcome env user_id id w (ok d, v) = Reversed env user_id id w d v
  ReverseOutcome env user_id id w (err e, v) = NotReversed w v
