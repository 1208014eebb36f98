-- ===== src/Bulk/Moves.antt =====
-- services/business-service/src/bulk/bulk.service.ts: how one operation moves a batch along
-- DRAFT, PENDING_APPROVAL, APPROVED, COMPLETED or FAILED.
use cauripay.Common.{ℕ, ◌≡◌, ◌≢◌, refl, Bool, true, false, some, arith, ltb, ◌==◌, if◌then◌else◌}
use cauripay.Common.Dict.{lookup, insert, lookup-insert_self, lookup-insert_ne}
use cauripay.Bulk.{
  BulkStatus, BulkPayment, Batches, BulkError, err, submit, approve, reject, execute, executed,
  end_status, is_draft, is_pending, is_approved, when_allowed, update, maker_checker,
}
use cauripay.Bulk.Workflow.{Action, submit_by, approve_by, reject_by, execute_at, act}

pub data Edge : BulkStatus → BulkStatus → Type 0 where
  stay : {s : BulkStatus} → Edge s s
  submitted : Edge BulkStatus.draft BulkStatus.pending_approval
  approved : Edge BulkStatus.pending_approval BulkStatus.approved
  rejected : Edge BulkStatus.pending_approval BulkStatus.draft
  completed : Edge BulkStatus.approved BulkStatus.completed
  failed : Edge BulkStatus.approved BulkStatus.failed

-- What one operation on `id` does to the batch `b` of that id, and to the others.
pub record Moved (id : ℕ) (b : BulkPayment) (w v : Batches) : Type 0 where
  pub after : BulkPayment
  pub found : lookup id v ≡ some after
  pub edge : Edge b.status after.status
  pub same_maker : after.created_by ≡ b.created_by
  pub same_merchant : after.merchant_id ≡ b.merchant_id
  pub same_lines : after.lines ≡ b.lines
  pub others : (j : ℕ) → id ≢ j → lookup j v ≡ lookup j w

draft_edge : (s : BulkStatus) → is_draft s ≡ true → Edge s BulkStatus.pending_approval
draft_edge BulkStatus.draft e = submitted
draft_edge BulkStatus.pending_approval e = cc e
draft_edge BulkStatus.approved e = cc e
draft_edge BulkStatus.processing e = cc e
draft_edge BulkStatus.completed e = cc e
draft_edge BulkStatus.failed e = cc e

pending_edges :
    (s : BulkStatus) → is_pending s ≡ true → Edge s BulkStatus.approved × Edge s BulkStatus.draft
pending_edges BulkStatus.pending_approval e = (approved, rejected)
pending_edges BulkStatus.draft e = cc e
pending_edges BulkStatus.approved e = cc e
pending_edges BulkStatus.processing e = cc e
pending_edges BulkStatus.completed e = cc e
pending_edges BulkStatus.failed e = cc e

end_edge : (s : BulkStatus) (n : ℕ) → is_approved s ≡ true → Edge s (end_status n)
end_edge BulkStatus.approved n e = by_test (ltb 0 n)
  where
    by_test :
        (b : Bool)
        → Edge BulkStatus.approved (if b then BulkStatus.completed else BulkStatus.failed)
    by_test true = completed
    by_test false = failed
end_edge BulkStatus.draft n e = cc e
end_edge BulkStatus.pending_approval n e = cc e
end_edge BulkStatus.processing n e = cc e
end_edge BulkStatus.completed n e = cc e
end_edge BulkStatus.failed n e = cc e

module _ (id : ℕ) (b : BulkPayment) (w : Batches) (known : lookup id w ≡ some b) where
  unmoved : Moved id b w w
  unmoved = record {
    after = b;
    found = known;
    edge = stay;
    same_maker = refl;
    same_merchant = refl;
    same_lines = refl;
    others = λ j h. refl;
  }

  changed :
      (after : BulkPayment)
      → Edge b.status after.status
      → after.created_by ≡ b.created_by
      → after.merchant_id ≡ b.merchant_id
      → after.lines ≡ b.lines
      → Moved id b w (insert id after w)
  changed after edge maker merchant lines = record {
    after = after;
    found = lookup-insert_self id after w;
    edge = edge;
    same_maker = maker;
    same_merchant = merchant;
    same_lines = lines;
    others = λ j h. lookup-insert_ne id j after w h;
  }

  submit-Moved :
      (t : Bool)
      → is_draft b.status ≡ t
      → Moved id b w
          (when_allowed t w (update id (record b { status = BulkStatus.pending_approval }) w)).1
  submit-Moved true e = changed _ (draft_edge b.status e) refl refl refl
  submit-Moved false e = unmoved

  approve-Moved :
      (checker_id : ℕ) (t : Bool)
      → is_pending b.status ≡ t
      → Moved id b w
          (when_allowed t w (
            if b.created_by == checker_id
            then (err maker_checker, w)
            else update id
                (record b { status = BulkStatus.approved; approved_by = some checker_id })
                w)).1
  approve-Moved checker_id false e = unmoved
  approve-Moved checker_id true e = by_test (b.created_by == checker_id)
    where
      by_test :
          (s : Bool)
          → Moved id b w
              (if s
                then (err maker_checker, w)
                else update id
                    (record b { status = BulkStatus.approved; approved_by = some checker_id })
                    w).1
      by_test true = unmoved
      by_test false = changed _ (pending_edges b.status e).0 refl refl refl

  reject-Moved :
      (t : Bool)
      → is_pending b.status ≡ t
      → Moved id b w (when_allowed t w (update id (record b { status = BulkStatus.draft }) w)).1
  reject-Moved true e = changed _ (pending_edges b.status e).1 refl refl refl
  reject-Moved false e = unmoved

  execute-Moved :
      (now : ℕ) (t : Bool)
      → is_approved b.status ≡ t
      → Moved id b w
          (when_allowed t w (
            update id (record b { status = end_status (executed b); completed_at = some now }) w)).1
  execute-Moved now true e = changed _ (end_edge b.status (executed b) e) refl refl refl
  execute-Moved now false e = unmoved

  -- An operation on a batch leaves it where it is or moves it along one edge of the diagram: draft
  -- to pending, pending to approved or back to draft, approved to completed or failed. Its maker,
  -- its merchant and its lines stay, and so does every other batch.
  pub act-Moved : (a : Action) → Moved id b w (act a id w).1
  unfolding submit approve reject execute
  act-Moved (submit_by user_id) = rw known (submit-Moved (is_draft b.status) refl)
  act-Moved (approve_by checker_id) = rw known (approve-Moved checker_id (is_pending b.status) refl)
  act-Moved (reject_by checker_id) = rw known (reject-Moved (is_pending b.status) refl)
  act-Moved (execute_at now) = rw known (execute-Moved now (is_approved b.status) refl)

-- An operation that is refused changes no batch, whatever the reason.
pub act_refused :
    (a : Action) (id : ℕ) (w : Batches) (e : BulkError)
    → (act a id w).0 ≡ err e
    → (act a id w).1 ≡ w
unfolding submit approve reject execute
act_refused (submit_by user_id) id w e h = ground arith
act_refused (approve_by checker_id) id w e h = ground arith
act_refused (reject_by checker_id) id w e h = ground arith
act_refused (execute_at now) id w e h = ground arith
