-- ===== src/Notify/Batch.antt =====
-- services/notification-service/src/notifications/retry-cron.service.ts: what one run of the cron
-- picks.
use cauripay.Common.{
  ℕ, zero, suc, ◌≤◌, ◌≡◌, refl, ap, ◌∙◌, Bool, true, false, inl, inr, List, [], ◌∷◌, arith, leb,
  if◌then◌else◌, filter, length, take, All, All-imp, Bool-cases, min,
}
use cauripay.Notify.{
  World, Notification, is_due, retry_time, insert_by_retry, sort_by_retry, due_batch, rows_of,
  batch_size,
}

abbrev Earlier : Notification → Notification → Type 0
Earlier n m = retry_time n.next_retry_at ≤ retry_time m.next_retry_at

-- Each row is due no later than those after it.
abbrev pub InOrder : List Notification → Type 0
InOrder [] = Unit
InOrder (n ∷ ns) = All (Earlier n) ns × InOrder ns

abbrev pub Due : ℕ → Notification → Type 0
Due now n = is_due now n ≡ true

module _ {κ} (P : Notification → Type κ) where
  pub All-take : (k : ℕ) (ns : List Notification) → All P ns → All P (take k ns)
  All-take zero ns h = tt
  All-take (suc k) [] h = tt
  All-take (suc k) (n ∷ ns) (h, hs) = (h, All-take k ns hs)

  pub insert-All :
      (n : Notification) (ns : List Notification) → P n → All P ns → All P (insert_by_retry n ns)
  unfolding insert_by_retry
  insert-All n [] p h = (p, tt)
  insert-All n (m ∷ ms) p (h, hs) =
      by_test (leb (retry_time n.next_retry_at) (retry_time m.next_retry_at)) (insert-All n ms p hs)
    where
      by_test :
          (b : Bool)
          → All P (insert_by_retry n ms)
          → All P (if b then n ∷ m ∷ ms else m ∷ insert_by_retry n ms)
      by_test true k = (p, (h, hs))
      by_test false k = (h, k)

  pub sort-All : (ns : List Notification) → All P ns → All P (sort_by_retry ns)
  unfolding sort_by_retry
  sort-All [] h = tt
  sort-All (n ∷ ns) (h, hs) = insert-All n (sort_by_retry ns) h (sort-All ns hs)

pub filter-Due : (now : ℕ) (ns : List Notification) → All (Due now) (filter (is_due now) ns)
filter-Due now [] = tt
filter-Due now (n ∷ ns) = by_test (is_due now n) refl (filter-Due now ns)
  where
    by_test :
        (b : Bool)
        → is_due now n ≡ b
        → All (Due now) (filter (is_due now) ns)
        → All (Due now) (if b then n ∷ filter (is_due now) ns else filter (is_due now) ns)
    by_test true e h = (e, h)
    by_test false e h = h

insert-InOrder :
    (n : Notification) (ns : List Notification) → InOrder ns → InOrder (insert_by_retry n ns)
unfolding insert_by_retry
insert-InOrder n [] h = (tt, tt)
insert-InOrder n (m ∷ ms) (h, hs) =
    elim (Bool-cases (leb (retry_time n.next_retry_at) (retry_time m.next_retry_at))) [
      | inl first ↦
          rw first
            ((ground arith, All-imp (Earlier m) (Earlier n) (λ x k. ground arith) ms h), (h, hs))
      | inr later ↦ rw later (insert-All (Earlier m) n ms (ground arith) h, insert-InOrder n ms hs)
    ]

sort-InOrder : (ns : List Notification) → InOrder (sort_by_retry ns)
unfolding sort_by_retry
sort-InOrder [] = tt
sort-InOrder (n ∷ ns) = insert-InOrder n (sort_by_retry ns) (sort-InOrder ns)

take-InOrder : (k : ℕ) (ns : List Notification) → InOrder ns → InOrder (take k ns)
take-InOrder zero ns h = tt
take-InOrder (suc k) [] h = tt
take-InOrder (suc k) (n ∷ ns) (h, hs) = (All-take (Earlier n) k ns h, take-InOrder k ns hs)

length-insert :
    (n : Notification) (ns : List Notification) → length (insert_by_retry n ns) ≡ suc (length ns)
unfolding insert_by_retry
length-insert n [] = refl
length-insert n (m ∷ ms) = ground (arith, length-insert n ms)

length-sort : (ns : List Notification) → length (sort_by_retry ns) ≡ length ns
unfolding sort_by_retry
length-sort [] = refl
length-sort (n ∷ ns) = omega (arith, length-insert n (sort_by_retry ns), length-sort ns)

length-take : (k : ℕ) (ns : List Notification) → length (take k ns) ≡ min k (length ns)
length-take zero ns = omega arith
length-take (suc k) [] = omega arith
length-take (suc k) (n ∷ ns) = omega (arith, length-take k ns)

-- One run of the cron takes rows that are pending and due, those with the earliest retry first, and
-- as many as there are, up to a hundred.
pub due_batch-InOrder :
    (now : ℕ) (w : World)
    → All (λ (n : Notification). is_due now n ≡ true) (due_batch now w)
      × InOrder (due_batch now w)
      × (length (due_batch now w) ≡ min batch_size (length (filter (is_due now) (rows_of w.rows))))
unfolding due_batch
due_batch-InOrder now w =
    let due = filter (is_due now) (rows_of w.rows) in
    (
      All-take (Due now) batch_size (sort_by_retry due)
          (sort-All (Due now) due (filter-Due now (rows_of w.rows))),
      take-InOrder batch_size (sort_by_retry due) (sort-InOrder due),
      length-take batch_size (sort_by_retry due) ∙ ap (min batch_size) (length-sort due),
    )
