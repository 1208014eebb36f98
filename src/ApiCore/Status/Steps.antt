-- ===== src/ApiCore/Status/Steps.antt =====
-- The transition table against the relation that it describes.
use cauripay.Common.{ℕ, ◌<◌, ◌≡◌, ◌↔◌, refl, ◌⊎◌, inl, inr, arith}
use cauripay.ApiCore.World.{TransactionStatus, ok}
use cauripay.ApiCore.Status.{
  transition_result, Step, start, cancel, reject, settle, fail, undo, Reach, here, next,
}

sound : (from to : TransactionStatus) → transition_result from to ≡ ok tt → Step from to
sound TransactionStatus.pending TransactionStatus.processing e = start
sound TransactionStatus.pending TransactionStatus.cancelled e = cancel
sound TransactionStatus.pending TransactionStatus.failed e = reject
sound TransactionStatus.processing TransactionStatus.success e = settle
sound TransactionStatus.processing TransactionStatus.failed e = fail
sound TransactionStatus.success TransactionStatus.reversed e = undo
sound _ _ e = cc

complete : {from to : TransactionStatus} → Step from to → transition_result from to ≡ ok tt
complete start = refl
complete cancel = refl
complete reject = refl
complete settle = refl
complete fail = refl
complete undo = refl

-- The assertion passes exactly for the steps of the state machine.
pub transition_result_iff :
    (from to : TransactionStatus) → (transition_result from to ≡ ok tt) ↔ Step from to
transition_result_iff from to = (sound from to, complete)

-- How far a status stands from the start.
abbrev pub rank : TransactionStatus → ℕ
rank TransactionStatus.pending = 0
rank TransactionStatus.processing = 1
rank TransactionStatus.success = 2
rank _ = 3

Step-rank : {s t : TransactionStatus} → Step s t → rank s < rank t
Step-rank start = omega arith
Step-rank cancel = omega arith
Step-rank reject = omega arith
Step-rank settle = omega arith
Step-rank fail = omega arith
Step-rank undo = omega arith

further :
    (s t u : TransactionStatus) → (s ≡ t) ⊎ (rank s < rank t) → rank t < rank u → rank s < rank u
further s t u (inl same) lt = rw same lt
further s t u (inr less) lt = omega arith

-- The machine never comes back: along any run of steps the status is the same or strictly further,
-- so that a row that is FAILED, CANCELLED or REVERSED keeps its status.
pub Reach-rank : {s t : TransactionStatus} → Reach s t → (s ≡ t) ⊎ (rank s < rank t)
Reach-rank here = inl refl
Reach-rank (next r step) = inr (further _ _ _ (Reach-rank r) (Step-rank step))
