-- ===== src/Bulk/Workflow.antt =====
-- services/business-service/src/bulk/bulk.service.ts: the maker-checker workflow of a batch.
use cauripay.Common.{
  ℕ, ◌<◌, ◌≡◌, ◌≢◌, ◌-◌, not, filter, length, refl, Bool, true, false, ◌⊎◌, inl, inr, Option, none,
  some, List, [], ◌∷◌, arith, ltb, ◌==◌, if◌then◌else◌, Bool-cases,
}
use mathlib.Core.Path.{subst}
use cauripay.Common.Text.{Text}
use cauripay.Common.Dict.{lookup, insert, lookup-insert}
use cauripay.Rules.{trim}
use cauripay.Bulk.{
  BulkStatus, BulkPayment, Batches, Result, Numeral, Draw, err, upload, submit, submit_batch,
  approve, approve_batch, reject, reject_batch, execute, execute_batch, executed, end_status,
  is_draft, is_pending, is_approved, when_allowed, with_batch, update, new_batch, store_batch,
  split_lines, validate_from, tail_of, is_empty, maker_checker, bulk_too_large, bulk_too_slow,
  max_lines,
}

pub data Action : Type 0 where
  submit_by approve_by reject_by execute_at : ℕ → Action

abbrev pub act : Action → ℕ → Batches → Result BulkPayment × Batches
act (submit_by user_id) id w = submit id user_id w
act (approve_by checker_id) id w = approve id checker_id w
act (reject_by checker_id) id w = reject id checker_id w
act (execute_at now) id w = execute now id w

pub data Op : Type 0 where
  upload_csv : Draw → ℕ → ℕ → Text → Op
  act_on : ℕ → Action → Op

abbrev pub run_op : (Text → Numeral) → Op → Batches → Batches
run_op number (upload_csv draw merchant_id user_id csv) w =
    (upload number draw merchant_id user_id csv w).1
run_op number (act_on id a) w = (act a id w).1

unfoldable pub run_ops : (Text → Numeral) → List Op → Batches → Batches
run_ops number [] w = w
run_ops number (op ∷ ops) w = run_ops number ops (run_op number op w)

-- Somebody other than the maker approved the batch.
abbrev pub ApprovedByOther : BulkPayment → Type 0
ApprovedByOther b = (c : ℕ) × (b.approved_by ≡ some c) × (b.created_by ≢ c)

abbrev pub SoundAs : BulkStatus → BulkPayment → Type 0
SoundAs BulkStatus.draft b = (b.approved_by ≡ none) × (b.completed_at ≡ none)
SoundAs BulkStatus.pending_approval b = (b.approved_by ≡ none) × (b.completed_at ≡ none)
SoundAs BulkStatus.approved b = ApprovedByOther b
SoundAs BulkStatus.processing b = ⊥
SoundAs BulkStatus.completed b = ApprovedByOther b × (0 < executed b)
SoundAs BulkStatus.failed b = ApprovedByOther b × (executed b ≡ 0)

abbrev pub Sound : BulkPayment → Type 0
Sound b = SoundAs b.status b

abbrev pub AllSound : Batches → Type 0
AllSound w = (id : ℕ) (b : BulkPayment) → lookup id w ≡ some b → Sound b

draft_facts :
    (s : BulkStatus) (b : BulkPayment)
    → is_draft s ≡ true
    → SoundAs s b
    → (b.approved_by ≡ none) × (b.completed_at ≡ none)
draft_facts BulkStatus.draft b e h = h
draft_facts BulkStatus.pending_approval b e h = cc e
draft_facts BulkStatus.approved b e h = cc e
draft_facts BulkStatus.processing b e h = cc e
draft_facts BulkStatus.completed b e h = cc e
draft_facts BulkStatus.failed b e h = cc e

pending_facts :
    (s : BulkStatus) (b : BulkPayment)
    → is_pending s ≡ true
    → SoundAs s b
    → (b.approved_by ≡ none) × (b.completed_at ≡ none)
pending_facts BulkStatus.pending_approval b e h = h
pending_facts BulkStatus.draft b e h = cc e
pending_facts BulkStatus.approved b e h = cc e
pending_facts BulkStatus.processing b e h = cc e
pending_facts BulkStatus.completed b e h = cc e
pending_facts BulkStatus.failed b e h = cc e

approved_facts :
    (s : BulkStatus) (b : BulkPayment) → is_approved s ≡ true → SoundAs s b → ApprovedByOther b
approved_facts BulkStatus.approved b e h = h
approved_facts BulkStatus.pending_approval b e h = cc e
approved_facts BulkStatus.draft b e h = cc e
approved_facts BulkStatus.processing b e h = cc e
approved_facts BulkStatus.completed b e h = cc e
approved_facts BulkStatus.failed b e h = cc e

insert-AllSound :
    (id : ℕ) (b : BulkPayment) (w : Batches) → AllSound w → Sound b → AllSound (insert id b w)
insert-AllSound id b w h s j x e = by_key (Bool-cases (id == j))
  where
    by_key : ((id == j) ≡ true) ⊎ ((id == j) ≡ false) → Sound x
    by_key (inl same) =
        let found : b ≡ x = ground (arith, lookup-insert id j b w) in subst Sound found s
    by_key (inr other) = h j x (ground (arith, lookup-insert id j b w))

-- A guarded change keeps every batch sound when the changed one is.
guarded-AllSound :
    (t : Bool) (id : ℕ) (b : BulkPayment) (w : Batches)
    → AllSound w
    → (t ≡ true → Sound b)
    → AllSound (when_allowed t w (update id b w)).1
guarded-AllSound true id b w h s = insert-AllSound id b w h (s refl)
guarded-AllSound false id b w h s = h

with_batch-AllSound :
    (f : BulkPayment → Result BulkPayment × Batches) (o : Option BulkPayment) (w : Batches)
    → AllSound w
    → ((b : BulkPayment) → o ≡ some b → AllSound (f b).1)
    → AllSound (with_batch f o w).1
with_batch-AllSound f none w h k = h
with_batch-AllSound f (some b) w h k = k b refl

approve-AllSound :
    (t : Bool) (id checker_id : ℕ) (b : BulkPayment) (w : Batches)
    → AllSound w
    → AllSound
        (when_allowed t w (
          if b.created_by == checker_id
          then (err maker_checker, w)
          else update id
              (record b { status = BulkStatus.approved; approved_by = some checker_id })
              w)).1
approve-AllSound false id checker_id b w h = h
approve-AllSound true id checker_id b w h = elim (Bool-cases (b.created_by == checker_id)) [
  | inl same ↦ rw same h
  | inr other ↦ rw other (
      insert-AllSound id (record b { status = BulkStatus.approved; approved_by = some checker_id })
        w h (checker_id, refl, ground arith))
]

end-Sound :
    (now : ℕ) (b : BulkPayment)
    → ApprovedByOther b
    → Sound (record b { status = end_status (executed b); completed_at = some now })
end-Sound now b a = elim (Bool-cases (ltb 0 (executed b))) [
  | inl some_valid ↦ rw some_valid (a, ground arith)
  | inr none_valid ↦ rw none_valid (a, ground arith)
]

act-AllSound : (a : Action) (id : ℕ) (w : Batches) → AllSound w → AllSound (act a id w).1
unfolding submit approve reject execute
act-AllSound (submit_by user_id) id w h =
    with_batch-AllSound (λ b. submit_batch id b w) (lookup id w) w h
      (λ b e.
        guarded-AllSound (is_draft b.status) id (record b { status = BulkStatus.pending_approval })
          w h (λ t. draft_facts b.status b t (h id b e)))
act-AllSound (approve_by checker_id) id w h =
    with_batch-AllSound (λ b. approve_batch id checker_id b w) (lookup id w) w h
      (λ b e. approve-AllSound (is_pending b.status) id checker_id b w h)
act-AllSound (reject_by checker_id) id w h =
    with_batch-AllSound (λ b. reject_batch id b w) (lookup id w) w h
      (λ b e.
        guarded-AllSound (is_pending b.status) id (record b { status = BulkStatus.draft }) w h
          (λ t. pending_facts b.status b t (h id b e)))
act-AllSound (execute_at now) id w h =
    with_batch-AllSound (λ b. execute_batch now id b w) (lookup id w) w h
      (λ b e.
        guarded-AllSound (is_approved b.status) id
          (record b { status = end_status (executed b); completed_at = some now }) w h
          (λ t. end-Sound now b (approved_facts b.status b t (h id b e))))

upload-AllSound :
    (number : Text → Numeral) (draw : Draw) (merchant_id user_id : ℕ) (csv : Text) (w : Batches)
    → AllSound w
    → AllSound (upload number draw merchant_id user_id csv w).1
unfolding upload
upload-AllSound number draw merchant_id user_id csv w h =
    let raw_lines = filter (λ (l : Text). not (is_empty (trim l))) (split_lines csv) in
    let lines = validate_from number 2 (tail_of raw_lines) in
    by_tests (ltb max_lines (length lines)) (ltb 5000 (draw.end - draw.start))
      (new_batch draw merchant_id user_id lines) (refl, refl)
  where
    by_tests :
        (large slow : Bool) (b : BulkPayment)
        → Sound b
        → AllSound
            (if large
              then (err bulk_too_large, w)
              else if slow
              then (err (bulk_too_slow (draw.end - draw.start)), w)
              else store_batch b w).1
    by_tests true slow b s = h
    by_tests false true b s = h
    by_tests false false b s = insert-AllSound b.id b w h s

-- Whatever is uploaded, submitted, approved, rejected and executed, in whatever order, from no
-- batches: a batch that is approved, completed or failed was approved by somebody other than its
-- maker, a completed one has a valid line, a failed one has none, a batch that waits for approval or
-- is a draft has no approver and no end, and none is left in PROCESSING.
pub run_ops-AllSound :
    (number : Text → Numeral) (ops : List Op) (id : ℕ) (b : BulkPayment)
    → lookup id (run_ops number ops []) ≡ some b
    → Sound b
unfolding run_ops lookup
run_ops-AllSound number ops = runs ops [] (λ id b e. cc e)
  where
    step : (op : Op) (w : Batches) → AllSound w → AllSound (run_op number op w)
    step (upload_csv draw merchant_id user_id csv) w h =
        upload-AllSound number draw merchant_id user_id csv w h
    step (act_on id a) w h = act-AllSound a id w h

    runs : (ops : List Op) (w : Batches) → AllSound w → AllSound (run_ops number ops w)
    runs [] w h = h
    runs (op ∷ ops) w h = runs ops (run_op number op w) (step op w h)
