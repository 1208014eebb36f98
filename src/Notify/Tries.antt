-- ===== src/Notify/Tries.antt =====
-- services/notification-service/src: how often a notification is sent, over all messages, tests and
-- runs of the cron.
use cauripay.Common.{
  ℕ, ◌+◌, ◌≤◌, ◌<◌, ◌≡◌, ◌≢◌, refl, sym, ap, ◌∙◌, true, false, ◌⊎◌, inl, inr, Option, none, some,
  List, [], ◌∷◌, arith, leb, ◌==◌, if◌then◌else◌, filter, take, sum_by, All, All-filter, Bool-cases,
}
use mathlib.Core.Path.{subst}
use cauripay.Common.Dict.{Dict, lookup, insert, lookup-insert, lookup-insert_self, lookup-insert_ne}
use cauripay.Notify.{
  World, Channels, Channel, Notification, NotificationStatus, Send, SendError, channel_error,
  unknown_channel, dispatch_notification, after_send, after_failure, send_of, set_failed, set_sent,
  set_exhausted, set_waiting, get_delay_ms, max_attempts, is_due, rows_of, due_batch, sort_by_retry,
  batch_size, dispatch_all, retry_due_notifications, create_and_dispatch, handle_message,
  handle_valid, handle_channel, validate, Message, Event, send_test,
}
use cauripay.Notify.Keys.{
  Differs, Apart, Keyed, Current, sort-Apart, take-Apart, filter-Apart, Keyed-Apart, Keyed-Current,
  insert-Keyed, looked_up,
}
use cauripay.Notify.Batch.{All-take, sort-All, filter-Due}

abbrev is_for : ℕ → Send → ℕ
is_for id s = if s.notification_id == id then 1 else 0

-- How often a notification was sent.
abbrev pub sends_of : ℕ → List Send → ℕ
sends_of id sends = sum_by (is_for id) sends

abbrev pub sent_once : NotificationStatus → ℕ
sent_once NotificationStatus.sent = 1
sent_once _ = 0

-- A failed send raises `attempts`, a successful one sets the status.
pub record RowCounted (sends : List Send) (next_id : ℕ) (n : Notification) : Type 0 where
  pub old : n.id < next_id
  pub counted : sends_of n.id sends ≡ n.attempts + sent_once n.status
  pub capped : sends_of n.id sends ≤ max_attempts
  pub below : n.status ≡ NotificationStatus.pending → n.attempts < max_attempts

record Counted (d : Dict Notification) (sends : List Send) (next_id : ℕ) : Type 0 where
  keyed : Keyed d
  rows : (id : ℕ) (n : Notification) → lookup id d ≡ some n → RowCounted sends next_id n
  fresh : (id : ℕ) → next_id ≤ id → sends_of id sends ≡ 0

abbrev IsCounted : World → Type 0
IsCounted w = Counted w.rows w.sends w.next_id

-- A row is written; only its own count may have changed.
write-Counted :
    (m : Notification) (d : Dict Notification) (sends sends' : List Send) (next_id : ℕ)
    → Counted d sends next_id
    → ((j : ℕ) → m.id ≢ j → sends_of j sends' ≡ sends_of j sends)
    → RowCounted sends' next_id m
    → Counted (insert m.id m d) sends' next_id
write-Counted m d sends sends' next_id c same own = record {
  keyed = insert-Keyed m.id m d refl c.keyed;
  rows = λ id n e. by_key id n e (Bool-cases (m.id == id));
  fresh = λ id le. same id (λ e. absurd (omega (arith, own.old, e, le))) ∙ c.fresh id le;
}
  where
    by_key :
        (id : ℕ) (n : Notification)
        → lookup id (insert m.id m d) ≡ some n
        → ((m.id == id) ≡ true) ⊎ ((m.id == id) ≡ false)
        → RowCounted sends' next_id n
    by_key id n e (inl k) =
        let found : m ≡ n = ground (arith, lookup-insert m.id id m d) in
        subst (RowCounted sends' next_id) found own
    by_key id n e (inr k) =
        let found : lookup id d ≡ some n = ground (arith, lookup-insert m.id id m d) in
        let h = c.rows id n found in
        let own_key : n.id ≡ id = looked_up d id n c.keyed found in
        let kept : sends_of n.id sends' ≡ sends_of n.id sends = same n.id (ground arith) in
        record {
          old = h.old;
          counted = kept ∙ h.counted;
          capped = omega (arith, kept, h.capped);
          below = h.below;
        }

record Stepped (n : Notification) (w v : World) : Type 0 where
  counts : IsCounted v
  others : (j : ℕ) → n.id ≢ j → lookup j v.rows ≡ lookup j w.rows

module _ (channels : Channels) (now : ℕ) (n : Notification) (w : World) (c : IsCounted w)
    (known : lookup n.id w.rows ≡ some n) (pending : n.status ≡ NotificationStatus.pending) where
  written-Stepped :
      (m : Notification) (sends : List Send) (v : World)
      → m.id ≡ n.id
      → ((j : ℕ) → m.id ≢ j → sends_of j sends ≡ sends_of j w.sends)
      → RowCounted sends w.next_id m
      → v.rows ≡ insert m.id m w.rows
      → v.sends ≡ sends
      → v.next_id ≡ w.next_id
      → Stepped n w v
  written-Stepped m sends v i same own r s x = record {
    counts =
        subst (λ (d : Dict Notification). Counted d v.sends v.next_id) (sym r)
          (subst (λ (l : List Send). Counted (insert m.id m w.rows) l v.next_id) (sym s)
            (subst (Counted (insert m.id m w.rows) sends) (sym x)
              (write-Counted m w.rows w.sends sends w.next_id c same own)));
    others = λ j h. ap (lookup j) r ∙ lookup-insert_ne m.id j m w.rows (λ e. h (sym i ∙ e));
  }

  before : RowCounted w.sends w.next_id n
  before = c.rows n.id n known

  not_sent : sent_once n.status ≡ 0
  not_sent = ap sent_once pending

  other_sends : (j : ℕ) → n.id ≢ j → sends_of j (send_of n ∷ w.sends) ≡ sends_of j w.sends
  other_sends j h = ground arith

  below_four : n.attempts < max_attempts
  below_four = before.below pending

  failure-Stepped :
      (e : SendError)
      → Stepped n w (after_failure now n e (record w { sends = send_of n ∷ w.sends }))
  failure-Stepped e = elim (Bool-cases (leb max_attempts (n.attempts + 1))) [
    | inl last ↦
        rw (last, known)
          (written-Stepped (set_exhausted (n.attempts + 1) e n) (send_of n ∷ w.sends) _ refl
            other_sends
            (record {
              old = before.old;
              counted = ground (arith, before.counted, not_sent);
              capped = ground (arith, before.counted, not_sent, below_four);
              below = λ x. cc x;
            })
            refl refl refl)
    | inr more ↦
        rw (more, known)
          (written-Stepped (set_waiting (n.attempts + 1) (now + get_delay_ms (n.attempts + 1)) e n)
            (send_of n ∷ w.sends) _ refl other_sends
            (record {
              old = before.old;
              counted = ground (arith, before.counted, not_sent);
              capped = ground (arith, before.counted, not_sent, below_four);
              below = λ x. ground arith;
            })
            refl refl refl)
  ]

  answer-Stepped :
      (o : Option ℕ) → Stepped n w (after_send now n o (record w { sends = send_of n ∷ w.sends }))
  answer-Stepped (some e) = failure-Stepped (channel_error e)
  answer-Stepped none = rw known (
      written-Stepped (set_sent now n) (send_of n ∷ w.sends) _ refl other_sends
        (record {
          old = before.old;
          counted = ground (arith, before.counted, not_sent);
          capped = ground (arith, before.counted, not_sent, below_four);
          below = λ x. cc x;
        })
        refl refl refl)

  dispatch-Stepped : Stepped n w (dispatch_notification channels now n w)
  unfolding dispatch_notification
  dispatch-Stepped = elim (Bool-cases (channels.has_adapter n.channel)) [
    | inl has ↦ rw has (answer-Stepped (channels.send w.sends n.channel (send_of n)))
    | inr missing ↦
        rw (missing, known)
          (written-Stepped (set_failed (unknown_channel n.channel) n) w.sends _ refl (λ j h. refl)
            (record {
              old = before.old;
              counted = ground (arith, before.counted, not_sent);
              capped = before.capped;
              below = λ x. cc x;
            })
            refl refl refl)
  ]

module _ (channels : Channels) (now : ℕ) where
  -- The rows of a batch stay what they were until their turn.
  dispatch_all-IsCounted :
      (ns : List Notification) (w : World)
      → IsCounted w
      → Apart ns
      → All (Current w.rows) ns
      → All (λ (n : Notification). n.status ≡ NotificationStatus.pending) ns
      → IsCounted (dispatch_all channels now ns w)
  unfolding dispatch_all
  dispatch_all-IsCounted [] w c a r p = c
  dispatch_all-IsCounted (n ∷ ns) w c (a, as') (r, rs) (p, ps) =
      let s = dispatch-Stepped channels now n w c r p in
      dispatch_all-IsCounted ns (dispatch_notification channels now n w) s.counts as'
        (still ns (dispatch_notification channels now n w) s.others a rs) ps
    where
      still :
          (ms : List Notification) (v : World)
          → ((j : ℕ) → n.id ≢ j → lookup j v.rows ≡ lookup j w.rows)
          → All (Differs n) ms
          → All (Current w.rows) ms
          → All (Current v.rows) ms
      still [] v o d k = tt
      still (m ∷ ms) v o (d, ds) (k, ks) = (o m.id d ∙ k, still ms v o ds ks)

  due_batch-Pending :
      (ns : List Notification)
      → All (λ (n : Notification). is_due now n ≡ true) ns
      → All (λ (n : Notification). n.status ≡ NotificationStatus.pending) ns
  due_batch-Pending [] h = tt
  due_batch-Pending (n ∷ ns) (h, hs) = (ground arith, due_batch-Pending ns hs)

  cron-IsCounted : (w : World) → IsCounted w → IsCounted (retry_due_notifications channels now w)
  unfolding retry_due_notifications due_batch
  cron-IsCounted w c =
      let rows = rows_of w.rows in
      let due = filter (is_due now) rows in
      dispatch_all-IsCounted (take batch_size (sort_by_retry due)) w c
        (take-Apart batch_size (sort_by_retry due)
          (sort-Apart due (filter-Apart (is_due now) rows (Keyed-Apart w.rows c.keyed))))
        (All-take (Current w.rows) batch_size (sort_by_retry due) (
          sort-All (Current w.rows) due
            (All-filter (Current w.rows) (is_due now) rows (Keyed-Current w.rows c.keyed))))
        (due_batch-Pending (take batch_size (sort_by_retry due)) (
          All-take (λ (n : Notification). is_due now n ≡ true) batch_size (sort_by_retry due)
            (sort-All (λ (n : Notification). is_due now n ≡ true) due (filter-Due now rows))))

  create-IsCounted :
      (n : Notification) (w : World)
      → IsCounted w
      → n.id ≡ w.next_id
      → n.status ≡ NotificationStatus.pending
      → n.attempts ≡ 0
      → IsCounted (create_and_dispatch channels now n w)
  unfolding create_and_dispatch
  create-IsCounted n w c i p z =
      let none_yet : sends_of n.id w.sends ≡ 0 = c.fresh n.id (omega (arith, i)) in
      let later : Counted w.rows w.sends (w.next_id + 1) = record {
        keyed = c.keyed;
        rows = λ id m e.
            let h = c.rows id m e in
            record {
              old = omega (arith, h.old);
              counted = h.counted;
              capped = h.capped;
              below = h.below;
            };
        fresh = λ id le. c.fresh id (omega arith);
      } in
      let v : World = record w { rows = insert n.id n w.rows; next_id = w.next_id + 1 } in
      let made : IsCounted v =
        write-Counted n w.rows w.sends w.sends (w.next_id + 1) later (λ j h. refl)
          (record {
            old = omega (arith, i);
            counted = none_yet ∙ sym (omega (arith, z, ap sent_once p));
            capped = omega (arith, none_yet);
            below = λ x. omega (arith, z);
          }) in
      (dispatch-Stepped channels now n v made (lookup-insert_self n.id n w.rows) p).counts

  handle-IsCounted :
      (raw : Option Message) (w : World)
      → IsCounted w
      → IsCounted (handle_message channels now raw w)
  unfolding handle_message
  handle-IsCounted none w c = c
  handle-IsCounted (some m) w c = by_event (validate m)
    where
      by_event : (o : Option Event) → IsCounted (handle_valid channels now o w)
      by_event none = c
      by_event (some v) = by_channel v.channel
        where
          by_channel : (o : Option Channel) → IsCounted (handle_channel channels now v o w)
          by_channel none = c
          by_channel (some x) = create-IsCounted _ w c refl refl refl

pub data Op : Type 0 where
  message : ℕ → Option Message → Op
  cron : ℕ → Op
  test_send : ℕ → ℕ → Channel → Op

abbrev pub run_op : Channels → Op → World → World
run_op channels (message now raw) w = handle_message channels now raw w
run_op channels (cron now) w = retry_due_notifications channels now w
run_op channels (test_send now user_id channel) w = (send_test channels now user_id channel w).0

unfoldable pub run_ops : Channels → List Op → World → World
run_ops channels [] w = w
run_ops channels (op ∷ ops) w = run_ops channels ops (run_op channels op w)

abbrev pub empty_world : World
empty_world = record { rows = []; sends = []; dead = []; next_id = 1 }

run_op-IsCounted :
    (channels : Channels) (op : Op) (w : World) → IsCounted w → IsCounted (run_op channels op w)
unfolding send_test
run_op-IsCounted channels (message now raw) w c = handle-IsCounted channels now raw w c
run_op-IsCounted channels (cron now) w c = cron-IsCounted channels now w c
run_op-IsCounted channels (test_send now user_id channel) w c =
    create-IsCounted channels now _ w c refl refl refl

-- Whatever messages arrive, tests are sent and crons run, one after the other, from an empty table:
-- a notification was sent as often as its failed attempts and its success say, at most four times,
-- and one that is pending has failed fewer than four times.
pub run_ops-RowCounted :
    (channels : Channels) (ops : List Op) (id : ℕ) (n : Notification)
    → lookup id (run_ops channels ops empty_world).rows ≡ some n
    → RowCounted
        (run_ops channels ops empty_world).sends
        (run_ops channels ops empty_world).next_id
        n
unfolding run_ops lookup
run_ops-RowCounted channels ops =
    (runs ops empty_world
      (record { keyed = tt; rows = λ id n e. cc e; fresh = λ id le. refl })).rows
  where
    runs : (ops : List Op) (w : World) → IsCounted w → IsCounted (run_ops channels ops w)
    runs [] w c = c
    runs (op ∷ ops) w c = runs ops (run_op channels op w) (run_op-IsCounted channels op w c)
