-- ===== src/Webhooks/Settlement.antt =====
-- legacy/server/src/webhooks.ts: `dispatchEvent` and what its attempts come to.
use cauripay.Common.{
  ℕ, zero, suc, ◌+◌, ◌*◌, ◌≤◌, ◌<◌, ◌≡◌, refl, sym, ap, Bool, true, false, ◌⊎◌, inl, inr, Option,
  none, List, [], ◌∷◌, arith, ◌==◌, if◌then◌else◌, All, All-imp, All-filter, is_some, find, filter,
  length, length-filter, sum_by,
}
use mathlib.Core.Path.{subst}
use cauripay.Checkout.Store.{Mode}
use cauripay.Webhooks.{
  World, Net, Timer, AttemptRow, AttemptStatus, WebhookRow, Payload, payload, max_attempts,
  attempt_now, dispatch_to, dispatch_event, subscribed, wants, first_try, new_attempt,
  insert_attempt, sign_payload, merchant_webhook_secret, deliver_with_retry,
}
use cauripay.Webhooks.Timers.{
  Fires, Runs, here, next, work, deliver-work, Fires-work, Runs-work, tries_left,
}
use cauripay.Webhooks.Delivery.{settled, accounted, known, Known, Kept, deliver-Kept, Runs-Kept}

abbrev RowKnown : List WebhookRow → WebhookRow → Type 0
RowKnown whs r = is_some (find (λ (x : WebhookRow). x.id == r.id) whs) ≡ true

-- Each row of the table is found under its id.
rows_known : (whs : List WebhookRow) → All (RowKnown whs) whs
rows_known [] = tt
rows_known (r ∷ whs) = (
  ground arith,
  All-imp (RowKnown whs) (RowKnown (r ∷ whs)) (λ x h. ground arith) whs (rows_known whs),
)

module _ (net : Net) (now : ℕ) where
  module _ (n : ℕ) (whs : List WebhookRow) (wh : WebhookRow) (event_id : Option ℕ) (event_type : ℕ)
      (body : Payload) (w : World) where
    attempt_now-Kept :
        RowKnown whs wh
        → Kept n whs w
        → Kept n whs (attempt_now net now wh event_id event_type body w)
    unfolding attempt_now
    attempt_now-Kept j a =
        let signature =
          sign_payload net now (merchant_webhook_secret wh.merchant_id wh.mode w) body in
        let r = new_attempt now w.next_id wh.id event_id event_type body signature in
        let job = first_try now r in
        subst
          (λ (l : List WebhookRow). Kept n l (deliver_with_retry net now job (insert_attempt r w)))
          a.same_webhooks
          (deliver-Kept net n now job (job ∷ w.timers) (insert_attempt r w) (λ x. ground arith)
            (
              ground arith,
              All-imp (λ (x : AttemptRow). accounted n w.timers x ≡ true)
                  (λ (x : AttemptRow). accounted n (job ∷ w.timers) x ≡ true) (λ x e. ground arith)
                  w.attempts a.rows,
            )
            (subst (λ (l : List WebhookRow). RowKnown l wh) (sym a.same_webhooks) j) a.timers_known)

    attempt_now-work : work (attempt_now net now wh event_id event_type body w) ≤ work w + 3
    unfolding attempt_now
    attempt_now-work =
        let signature =
          sign_payload net now (merchant_webhook_secret wh.merchant_id wh.mode w) body in
        let r = new_attempt now w.next_id wh.id event_id event_type body signature in
        omega (arith, deliver-work net now (first_try now r) (insert_attempt r w))

  module _ (event_type body : ℕ) where
    dispatch_to-Kept :
        (n : ℕ) (all : List WebhookRow) (whs : List WebhookRow) (w : World)
        → All (RowKnown all) whs
        → Kept n all w
        → Kept n all (dispatch_to net now event_type body whs w)
    unfolding dispatch_to
    dispatch_to-Kept n all [] w j a = a
    dispatch_to-Kept n all (wh ∷ whs) w (j, js) a =
        dispatch_to-Kept n all whs
          (if wants event_type wh
            then attempt_now net now wh none event_type (payload event_type body now) w
            else w)
          js (by_test (wants event_type wh))
      where
        by_test :
            (b : Bool)
            → Kept n all (
                if b
                then attempt_now net now wh none event_type (payload event_type body now) w
                else w)
        by_test true = attempt_now-Kept n all wh none event_type (payload event_type body now) w j a
        by_test false = a

    dispatch_to-work :
        (whs : List WebhookRow) (w : World)
        → work (dispatch_to net now event_type body whs w) ≤ work w + 3 * length whs
    unfolding dispatch_to
    dispatch_to-work [] w = omega arith
    dispatch_to-work (wh ∷ whs) w =
        let v =
          if wants event_type wh
          then attempt_now net now wh none event_type (payload event_type body now) w
          else w in
        ground (
          arith,
          dispatch_to-work whs v,
          attempt_now-work 0 [] wh none event_type (payload event_type body now) w,
        )

runs_first :
    {net : Net} {w v x : World} {n : ℕ} → Fires net w v → Runs net v n x → Runs net w (suc n) x
runs_first f here = next here f
runs_first f (next r g) = next (runs_first f r) g

-- A run that goes on until no timer is left.
pub record Rest (net : Net) (w : World) : Type 0 where
  pub fired : ℕ
  pub end : World
  pub run : Runs net w fired end
  pub quiet : end.timers ≡ []

to_rest : (net : Net) (f : ℕ) (w : World) → work w ≤ f → Rest net w
to_rest net f w h = by_timers f w w.timers refl h
  where
    by_timers : (f : ℕ) (w : World) (ts : List Timer) → w.timers ≡ ts → work w ≤ f → Rest net w
    by_timers f w [] e h = record { fired = 0; end = w; run = here; quiet = e }
    by_timers zero w (t ∷ ts) e h = absurd (omega (arith, h, ap (sum_by tries_left) e))
    by_timers (suc f) w (t ∷ ts) e h =
        let v = deliver_with_retry net 0 t (record w { timers = ts }) in
        let g : Fires net w v = record {
          before = [];
          after = ts;
          timer = t;
          now = 0;
          waiting = e;
          result = refl;
        } in
        let r = by_timers f v v.timers refl (omega (arith, Fires-work g)) in
        record { fired = suc r.fired; end = r.end; run = runs_first g r.run; quiet = r.quiet }

-- Delivered, or tried at least as often as `MAX_ATTEMPTS` says.
abbrev pub IsSettled : AttemptRow → Type 0
IsSettled r = (r.status ≡ AttemptStatus.delivered) ⊎ (max_attempts ≤ r.attempts)

settled-IsSettled : (r : AttemptRow) → settled r ≡ true → IsSettled r
settled-IsSettled r h = by_status r.status refl
  where
    by_status : (s : AttemptStatus) → r.status ≡ s → IsSettled r
    by_status AttemptStatus.delivered e = inl e
    by_status AttemptStatus.failed e = inr (ground arith)

module _ (net : Net) (now merchant_id : ℕ) (mode : Mode) (event_type body : ℕ) (w : World) where
  dispatch_event-Kept :
      All (λ (r : AttemptRow). r.id < w.next_id) w.attempts
      → Known w
      → Kept w.next_id w.webhooks (dispatch_event net now merchant_id mode event_type body w)
  unfolding dispatch_event
  dispatch_event-Kept h k =
      dispatch_to-Kept net now event_type body w.next_id w.webhooks
        (filter (subscribed merchant_id mode) w.webhooks) w
        (All-filter (RowKnown w.webhooks) (subscribed merchant_id mode) w.webhooks
          (rows_known w.webhooks))
        (record {
          rows =
              All-imp (λ (r : AttemptRow). r.id < w.next_id)
                (λ (r : AttemptRow). accounted w.next_id w.timers r ≡ true) (λ r e. ground arith)
                w.attempts h;
          timers_known = k;
          same_webhooks = refl;
        })

  dispatch_event-work :
      work (dispatch_event net now merchant_id mode event_type body w)
      ≤ work w + 3 * length w.webhooks
  unfolding dispatch_event
  dispatch_event-work = omega (
    arith,
    dispatch_to-work net now event_type body (filter (subscribed merchant_id mode) w.webhooks) w,
    length-filter (subscribed merchant_id mode) w.webhooks,
  )

-- However the timers fire after an event is dispatched: no run of them is longer than the tries left
-- before and three more for each webhook, and from wherever a run has come, the timers can go on
-- until none is left, whatever the receivers answer.
pub dispatch_event-Rest :
    (net : Net) (now merchant_id : ℕ) (mode : Mode) (event_type body : ℕ) (w : World) (k : ℕ)
    (v : World)
    → Runs net (dispatch_event net now merchant_id mode event_type body w) k v
    → (k ≤ work w + 3 * length w.webhooks) × Rest net v
dispatch_event-Rest net now merchant_id mode event_type body w k v r = (
  omega (arith, Runs-work r, dispatch_event-work net now merchant_id mode event_type body w),
  to_rest net (work v) v (omega arith),
)

-- Where the ids of the earlier rows are below the next one and the waiting timers belong to webhooks
-- that exist: once a run of timers has left none after an event is dispatched, each row that was
-- written for the event is delivered or has been tried at least four times, whatever the receivers
-- answered and in whatever order the timers fired.
pub dispatch_event-IsSettled :
    (net : Net) (now merchant_id : ℕ) (mode : Mode) (event_type body : ℕ) (w : World) (k : ℕ)
    (v : World)
    → All (λ (r : AttemptRow). r.id < w.next_id) w.attempts
    → Known w
    → Runs net (dispatch_event net now merchant_id mode event_type body w) k v
    → v.timers ≡ []
    → All (λ (r : AttemptRow). w.next_id ≤ r.id → IsSettled r) v.attempts
dispatch_event-IsSettled net now merchant_id mode event_type body w k v h known run e =
    let a = dispatch_event-Kept net now merchant_id mode event_type body w h known in
    let b = Runs-Kept w.next_id run a.rows a.timers_known in
    All-imp (λ (r : AttemptRow). accounted w.next_id v.timers r ≡ true)
      (λ (r : AttemptRow). w.next_id ≤ r.id → IsSettled r)
      (λ r x le.
        settled-IsSettled r (ground (arith, ap (λ (ts : List Timer). accounted w.next_id ts r) e)))
      v.attempts b.rows
