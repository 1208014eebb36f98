-- ===== src/Notify/Dispatch.antt =====
-- services/notification-service/src/notifications/dispatch.service.ts: how a notification that is
-- dispatched again and again ends.
use cauripay.Common.{
  ℕ, zero, suc, ◌+◌, ◌-◌, ◌≤◌, ◌<◌, ◌≡◌, refl, sym, ap, ◌∙◌, Bool, true, false, ◌⊎◌, inl, inr,
  Option, none, some, List, ◌∷◌, arith, leb, if◌then◌else◌, length, Bool-cases,
}
use mathlib.Core.Path.{subst}
use cauripay.Common.Dict.{lookup, lookup-insert_self}
use cauripay.Notify.{
  World, Channels, Channel, Notification, NotificationStatus, SendError, DeadLetter, channel_error,
  unknown_channel, dispatch_notification, after_send, after_failure, send_of, set_failed, set_sent,
  set_exhausted, set_waiting, get_delay_ms, max_attempts, is_pending,
}

-- The row as each run of the cron finds it, dispatched while it is pending; `clock` gives the times.
unfoldable pub redispatch : Channels → (ℕ → ℕ) → ℕ → ℕ → World → World
redispatch channels clock zero id w = w
redispatch channels clock (suc f) id w = elim (lookup id w.rows) [
  | none ↦ w
  | some n ↦
      if is_pending n.status
      then redispatch channels clock f id (dispatch_notification channels (clock f) n w)
      else w
]

-- How a notification has ended, as its status says.
abbrev pub EndedAs : NotificationStatus → Bool → Notification → World → World → Type 0
EndedAs NotificationStatus.pending has m w v = ⊥
EndedAs NotificationStatus.sent has m w v = (has ≡ true) × (v.dead ≡ w.dead)
EndedAs NotificationStatus.failed has m w v =
    ((has ≡ true) × (m.attempts ≡ max_attempts) × (length v.dead ≡ suc (length w.dead)))
    ⊎ ((has ≡ false) × (v.dead ≡ w.dead) × (v.sends ≡ w.sends))

pub record Ended (channels : Channels) (n : Notification) (w v : World) : Type 0 where
  pub row : Notification
  pub found : lookup n.id v.rows ≡ some row
  pub ending : EndedAs row.status (channels.has_adapter n.channel) row w v
  pub tries : length v.sends ≤ length w.sends + (max_attempts - n.attempts)

record Waiting (channels : Channels) (n : Notification) (w v : World) : Type 0 where
  row : Notification
  found : lookup n.id v.rows ≡ some row
  same_id : row.id ≡ n.id
  same_channel : row.channel ≡ n.channel
  still : row.status ≡ NotificationStatus.pending
  counted : row.attempts ≡ n.attempts + 1
  below : row.attempts < max_attempts
  no_letter : v.dead ≡ w.dead
  adapted : channels.has_adapter n.channel ≡ true
  one_send : length v.sends ≡ suc (length w.sends)

module _ (channels : Channels) (now : ℕ) (n : Notification) (w : World)
    (known : lookup n.id w.rows ≡ some n) (below : n.attempts < max_attempts) where
  failure_step :
      (e : SendError)
      → channels.has_adapter n.channel ≡ true
      → Ended channels n w (after_failure now n e (record w { sends = send_of n ∷ w.sends }))
        ⊎ Waiting channels n w (after_failure now n e (record w { sends = send_of n ∷ w.sends }))
  failure_step e has = elim (Bool-cases (leb max_attempts (n.attempts + 1))) [
    | inl last ↦
        rw (last, known)
          (inl (record {
            row = set_exhausted (n.attempts + 1) e n;
            found = lookup-insert_self n.id _ w.rows;
            ending = inl (has, ground arith, refl);
            tries = omega arith;
          }))
    | inr more ↦
        rw (more, known)
          (inr (record {
            row = set_waiting (n.attempts + 1) (now + get_delay_ms (n.attempts + 1)) e n;
            found = lookup-insert_self n.id _ w.rows;
            same_id = refl;
            same_channel = refl;
            still = refl;
            counted = refl;
            below = ground arith;
            no_letter = refl;
            adapted = has;
            one_send = refl;
          }))
  ]

  dispatch_step :
      Ended channels n w (dispatch_notification channels now n w)
      ⊎ Waiting channels n w (dispatch_notification channels now n w)
  unfolding dispatch_notification
  dispatch_step = elim (Bool-cases (channels.has_adapter n.channel)) [
    | inr missing ↦
        rw (missing, known)
          (inl (record {
            row = set_failed (unknown_channel n.channel) n;
            found = lookup-insert_self n.id _ w.rows;
            ending = inr (missing, refl, refl);
            tries = omega arith;
          }))
    | inl has ↦ rw has (by_answer has (channels.send w.sends n.channel (send_of n)))
  ]
    where
      by_answer :
          channels.has_adapter n.channel ≡ true
          → (o : Option ℕ)
          → Ended channels n w (after_send now n o (record w { sends = send_of n ∷ w.sends }))
            ⊎ Waiting channels n w (after_send now n o (record w { sends = send_of n ∷ w.sends }))
      by_answer has (some e) = failure_step (channel_error e) has
      by_answer has none = rw known (
          inl (record {
            row = set_sent now n;
            found = lookup-insert_self n.id _ w.rows;
            ending = (has, refl);
            tries = omega arith;
          }))

later_ending :
    (s : NotificationStatus) (has : Bool) (m : Notification) (w u v : World)
    → has ≡ true
    → u.dead ≡ w.dead
    → EndedAs s has m u v
    → EndedAs s has m w v
later_ending NotificationStatus.pending has m w u v a d h = h
later_ending NotificationStatus.sent has m w u v a d h = (h.0, h.1 ∙ d)
later_ending NotificationStatus.failed has m w u v a d (inl (x, y, z)) =
    inl (x, y, z ∙ ap (λ (l : List DeadLetter). suc (length l)) d)
later_ending NotificationStatus.failed has m w u v a d (inr (x, y, z)) = cc (a, x)

later_Ended :
    (channels : Channels) (n : Notification) (w u v : World) (r : Waiting channels n w u)
    → Ended channels r.row u v
    → Ended channels n w v
later_Ended channels n w u v r e = record {
  row = e.row;
  found = subst (λ (i : ℕ). lookup i v.rows ≡ some e.row) r.same_id e.found;
  ending =
      later_ending e.row.status (channels.has_adapter n.channel) e.row w u v r.adapted r.no_letter (
        subst (λ (c : Channel). EndedAs e.row.status (channels.has_adapter c) e.row u v)
          r.same_channel e.ending);
  tries = omega (arith, e.tries, r.one_send, r.counted, r.below);
}

settled_row :
    (channels : Channels) (clock : ℕ → ℕ) (f : ℕ) (n : Notification) (w v : World)
    → Ended channels n w v
    → redispatch channels clock f n.id v ≡ v
unfolding redispatch
settled_row channels clock zero n w v e = refl
settled_row channels clock (suc f) n w v e =
    rw (e.found, redispatch) (by_status e.row.status e.ending)
  where
    by_status :
        (s : NotificationStatus)
        → EndedAs s (channels.has_adapter n.channel) e.row w v
        → (if is_pending s
            then redispatch channels clock f n.id (dispatch_notification channels (clock f) e.row v)
            else v)
          ≡ v
    by_status NotificationStatus.pending h = absurd h
    by_status NotificationStatus.sent h = refl
    by_status NotificationStatus.failed h = refl

-- A pending notification that has failed fewer than four times, and that is dispatched again as
-- long as it is pending, ends within the tries that are left of four, whatever its channel answers:
-- it is sent, with no dead letter; or it has failed four times and one dead letter is published; or
-- its channel has no adapter, and then it has failed with no send and no dead letter.
pub redispatch-Ended :
    (channels : Channels) (clock : ℕ → ℕ) (f : ℕ) (n : Notification) (w : World)
    → lookup n.id w.rows ≡ some n
    → n.status ≡ NotificationStatus.pending
    → n.attempts < max_attempts
    → max_attempts ≤ n.attempts + f
    → Ended channels n w (redispatch channels clock f n.id w)
unfolding redispatch
redispatch-Ended channels clock zero n w known p below enough =
    absurd (omega (arith, below, enough))
redispatch-Ended channels clock (suc f) n w known p below enough =
    let pend : is_pending n.status ≡ true = ap is_pending p in
    rw (known, pend, redispatch)
      (by_step (redispatch-Ended channels clock f)
        (dispatch_step channels (clock f) n w known below))
  where
    by_step :
        ((m : Notification) (u : World)
          → lookup m.id u.rows ≡ some m
          → m.status ≡ NotificationStatus.pending
          → m.attempts < max_attempts
          → max_attempts ≤ m.attempts + f
          → Ended channels m u (redispatch channels clock f m.id u))
        → Ended channels n w (dispatch_notification channels (clock f) n w)
          ⊎ Waiting channels n w (dispatch_notification channels (clock f) n w)
        → Ended channels n w
            (redispatch channels clock f n.id (dispatch_notification channels (clock f) n w))
    by_step again (inl e) = rw (settled_row channels clock f n w _ e) e
    by_step again (inr r) = later_Ended channels n w _ _ r (
        subst
          (λ (i : ℕ).
            Ended channels r.row (dispatch_notification channels (clock f) n w)
              (redispatch channels clock f i (dispatch_notification channels (clock f) n w)))
          r.same_id
          (again r.row (dispatch_notification channels (clock f) n w)
            (subst
              (λ (i : ℕ). lookup i (dispatch_notification channels (clock f) n w).rows ≡ some r.row)
              (sym r.same_id) r.found)
            r.still r.below (omega (arith, r.counted, enough))))
