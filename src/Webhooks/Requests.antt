-- ===== src/Webhooks/Requests.antt =====
-- legacy/server/src/webhooks.ts: every call of `fetch` was let through by the check of its
-- address.
use cauripay.Common.{
  ℕ, zero, suc, ◌≡◌, Bool, true, false, Option, none, some, List, [], ◌∷◌, arith, if◌then◌else◌,
  All, find, filter, refl, ◌==◌,
}
use cauripay.Checkout.Store.{Mode}
use cauripay.Webhooks.{
  World, Net, Timer, Try, AttemptRow, WebhookRow, Payload, payload, Post, conclude,
  deliver_with_retry, deliver_to, find_webhook, try_post, try_checked, post_of, attempt_now,
  dispatch_to, dispatch_event, subscribed, wants, replay_last_event, replay_last, replay_to,
  send_test_ping, ping_to, resume_pending_retries,
}
use cauripay.Webhooks.Url.{UrlReason, is_safe_webhook_url}
use cauripay.Webhooks.Guarded.{IsSafe, is_safe_webhook_url_iff}

-- A timer of the list, and the others.
unfoldable pub pick : ℕ → List Timer → Option (Timer × List Timer)
pick i [] = none
pick zero (t ∷ ts) = some (t, ts)
pick (suc i) (t ∷ ts) = elim (pick i ts) [ none ↦ none | some (x, rest) ↦ some (x, t ∷ rest) ]

abbrev fire_picked : Net → ℕ → Option (Timer × List Timer) → World → World
fire_picked net now none w = w
fire_picked net now (some (t, ts)) w = deliver_with_retry net now t (record w { timers = ts })

-- What runs in the process: the exported functions, and a timer of the list.
pub data Op : Type 0 where
  dispatch : ℕ → ℕ → Mode → ℕ → ℕ → Op
  replay : ℕ → ℕ → Op
  test_ping : ℕ → ℕ → Op
  resume : ℕ → Op
  fire : ℕ → ℕ → Op

abbrev pub run_op : Net → Op → World → World
run_op net (dispatch now merchant_id mode event_type body) w =
    dispatch_event net now merchant_id mode event_type body w
run_op net (replay now webhook_id) w = (replay_last_event net now webhook_id w).1
run_op net (test_ping now webhook_id) w = (send_test_ping net now webhook_id w).1
run_op net (resume now) w = (resume_pending_retries now w).1
run_op net (fire now i) w = fire_picked net now (pick i w.timers) w

unfoldable pub run_ops : Net → List Op → World → World
run_ops net [] w = w
run_ops net (op ∷ ops) w = run_ops net ops (run_op net op w)

abbrev pub Checked : Net → World → Type 0
Checked net w = All (λ (p : Post). IsSafe net.dns net.options p.checked_at p.url) w.posts

conclude-posts :
    (now : ℕ) (job : Timer) (t : Try) (w : World) → (conclude now job (t, w)).posts ≡ w.posts
unfolding conclude
conclude-posts now job t w = ground arith

module _ (net : Net) (now : ℕ) where
  deliver-Checked :
      (job : Timer) (w : World) → Checked net w → Checked net (deliver_with_retry net now job w)
  unfolding deliver_with_retry try_post
  deliver-Checked job w h = by_webhook (find_webhook job.webhook_id w)
    where
      by_webhook : (o : Option WebhookRow) → Checked net (deliver_to net now job o w)
      by_webhook none = h
      by_webhook (some wh) =
          by_check (is_safe_webhook_url net.dns net.options now wh.url)
            (is_safe_webhook_url_iff net.dns net.options now wh.url).0
        where
          by_check :
              (o : Option UrlReason)
              → (o ≡ none → IsSafe net.dns net.options now wh.url)
              → Checked net (conclude now job (try_checked net (post_of now wh job) o w))
          by_check none safe = rw (conclude-posts now job) (safe refl, h)
          by_check (some x) safe = rw (conclude-posts now job) h

  attempt_now-Checked :
      (wh : WebhookRow) (event_id : Option ℕ) (event_type : ℕ) (body : Payload) (w : World)
      → Checked net w
      → Checked net (attempt_now net now wh event_id event_type body w)
  unfolding attempt_now
  attempt_now-Checked wh event_id event_type body w h = deliver-Checked _ _ h

  dispatch_to-Checked :
      (event_type body : ℕ) (whs : List WebhookRow) (w : World)
      → Checked net w
      → Checked net (dispatch_to net now event_type body whs w)
  unfolding dispatch_to
  dispatch_to-Checked event_type body [] w h = h
  dispatch_to-Checked event_type body (wh ∷ whs) w h =
      dispatch_to-Checked event_type body whs _ (by_test (wants event_type wh))
    where
      by_test :
          (b : Bool)
          → Checked net (
              if b
              then attempt_now net now wh none event_type (payload event_type body now) w
              else w)
      by_test true = attempt_now-Checked wh none event_type (payload event_type body now) w h
      by_test false = h

  replay-Checked :
      (last : Option AttemptRow) (webhook_id : ℕ) (w : World)
      → Checked net w
      → Checked net (replay_last net now webhook_id last w).1
  replay-Checked none webhook_id w h = h
  replay-Checked (some last) webhook_id w h = by_webhook (find_webhook webhook_id w)
    where
      by_webhook : (o : Option WebhookRow) → Checked net (replay_to net now last o w).1
      by_webhook none = h
      by_webhook (some wh) = attempt_now-Checked wh last.event_id last.event_type last.payload w h

  ping-Checked :
      (o : Option WebhookRow) (w : World) → Checked net w → Checked net (ping_to net now o w).1
  ping-Checked none w h = h
  ping-Checked (some wh) w h = attempt_now-Checked wh none _ _ w h

  fire-Checked :
      (o : Option (Timer × List Timer)) (w : World)
      → Checked net w
      → Checked net (fire_picked net now o w)
  fire-Checked none w h = h
  fire-Checked (some (t, ts)) w h = deliver-Checked t (record w { timers = ts }) h

run_op-Checked : (net : Net) (op : Op) (w : World) → Checked net w → Checked net (run_op net op w)
unfolding dispatch_event replay_last_event send_test_ping resume_pending_retries
run_op-Checked net (dispatch now merchant_id mode event_type body) w h =
    dispatch_to-Checked net now event_type body (filter (subscribed merchant_id mode) w.webhooks) w
      h
run_op-Checked net (replay now webhook_id) w h =
    replay-Checked net now (find (λ (r : AttemptRow). r.webhook_id == webhook_id) w.attempts)
      webhook_id w h
run_op-Checked net (test_ping now webhook_id) w h =
    ping-Checked net now (find_webhook webhook_id w) w h
run_op-Checked net (resume now) w h = h
run_op-Checked net (fire now i) w h = fire-Checked net now (pick i w.timers) w h

-- Whatever is dispatched, replayed, tried or resumed, and whatever timers fire, from a state where
-- this holds already: every URL that is handed to `fetch` was safe when it was checked just before,
-- that is, its protocol is one that the options admit and its host, where private addresses are
-- blocked, is a public address or resolved to public addresses only. What `fetch` then does, its own
-- resolution of the host and any redirect, is not covered.
pub run_ops-Checked :
    (net : Net) (ops : List Op) (w : World) → Checked net w → Checked net (run_ops net ops w)
unfolding run_ops
run_ops-Checked net [] w h = h
run_ops-Checked net (op ∷ ops) w h = run_ops-Checked net ops _ (run_op-Checked net op w h)
