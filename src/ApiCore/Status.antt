-- ===== src/ApiCore/Status.antt =====
-- services/api-core/src/transactions/transaction-state.ts
pub mod Steps
use cauripay.Common.{Bool, true, false, List, [], ◌∷◌, any, if◌then◌else◌}
use cauripay.ApiCore.World.{TransactionStatus, invalid_transition, Action, Result, ok, err}

abbrev pub same_status : TransactionStatus → TransactionStatus → Bool
same_status TransactionStatus.pending TransactionStatus.pending = true
same_status TransactionStatus.processing TransactionStatus.processing = true
same_status TransactionStatus.success TransactionStatus.success = true
same_status TransactionStatus.failed TransactionStatus.failed = true
same_status TransactionStatus.cancelled TransactionStatus.cancelled = true
same_status TransactionStatus.reversed TransactionStatus.reversed = true
same_status _ _ = false

-- VALID_TRANSITIONS
abbrev pub valid_transitions : TransactionStatus → List TransactionStatus
valid_transitions TransactionStatus.pending =
    TransactionStatus.processing ∷ TransactionStatus.cancelled ∷ TransactionStatus.failed ∷ []
valid_transitions TransactionStatus.processing =
    TransactionStatus.success ∷ TransactionStatus.failed ∷ []
valid_transitions TransactionStatus.success = TransactionStatus.reversed ∷ []
valid_transitions _ = []

abbrev pub transition_result : TransactionStatus → TransactionStatus → Result (Unit {0})
transition_result from to =
    if any (same_status to) (valid_transitions from)
    then ok tt
    else err (invalid_transition from to)

abbrev pub assert_transition : TransactionStatus → TransactionStatus → Action (Unit {0})
assert_transition from to w = (transition_result from to, w)

-- The transitions that the table describes, one constructor each.
pub data Step : TransactionStatus → TransactionStatus → Type 0 where
  start : Step TransactionStatus.pending TransactionStatus.processing
  cancel : Step TransactionStatus.pending TransactionStatus.cancelled
  reject : Step TransactionStatus.pending TransactionStatus.failed
  settle : Step TransactionStatus.processing TransactionStatus.success
  fail : Step TransactionStatus.processing TransactionStatus.failed
  undo : Step TransactionStatus.success TransactionStatus.reversed

pub data Reach (s : TransactionStatus) : TransactionStatus → Type 0 where
  here : Reach s s
  next : {t u : TransactionStatus} → Reach s t → Step t u → Reach s u
