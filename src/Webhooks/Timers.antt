-- ===== src/Webhooks/Timers.antt =====
-- legacy/server/src/webhooks.ts: what the timers of `deliverWithRetry` come to, in whatever order
-- and at whatever times they fire.
use cauripay.Common.{
  ℕ, zero, suc, ◌+◌, ◌-◌, ◌≤◌, ◌≡◌, refl, ap, Option, none, some, List, [], ◌∷◌, ◌++◌, arith,
  sum_by, sum_by-append,
}
use cauripay.Webhooks.{
  World, Net, Timer, Try, WebhookRow, max_attempts, conclude, deliver_with_retry, deliver_to,
  find_webhook, try_post, try_checked, post_of, retry_of, delay_at, backoff_ms,
}
use cauripay.Webhooks.Url.{UrlReason, is_safe_webhook_url}

-- One timer fires: it leaves the list, and its delivery runs.
pub record Fires (net : Net) (w v : World) : Type 0 where
  pub before : List Timer
  pub after : List Timer
  pub timer : Timer
  pub now : ℕ
  pub waiting : w.timers ≡ before ++ timer ∷ after
  pub result : v ≡ deliver_with_retry net now timer (record w { timers = before ++ after })

-- A number of timers that fire one after the other.
pub data Runs (net : Net) (w : World) : ℕ → World → Type 0 where
  here : Runs net w zero w
  next : {n : ℕ} {v x : World} → Runs net w n v → Fires net v x → Runs net w (suc n) x

-- The tries that a timer can still lead to.
abbrev pub tries_left : Timer → ℕ
tries_left t = suc (max_attempts - t.attempt)

abbrev pub work : World → ℕ
work w = sum_by tries_left w.timers

conclude-work :
    (now : ℕ) (job : Timer) (t : Try) (w : World)
    → work (conclude now job (t, w)) ≤ work w + (max_attempts - job.attempt)
unfolding conclude
conclude-work now job t w = ground (
  arith,
  sum_by-append tries_left w.timers
      (retry_of (now + delay_at backoff_ms (job.attempt - 1)) job ∷ []),
)

module _ (net : Net) (now : ℕ) where
  pub try_post-keeps :
      (wh : WebhookRow) (job : Timer) (w : World)
      → ((try_post net now wh job w).1.timers ≡ w.timers)
        × ((try_post net now wh job w).1.attempts ≡ w.attempts)
        × ((try_post net now wh job w).1.webhooks ≡ w.webhooks)
  unfolding try_post
  try_post-keeps wh job w = by_check (is_safe_webhook_url net.dns net.options now wh.url)
    where
      by_check :
          (o : Option UrlReason)
          → ((try_checked net (post_of now wh job) o w).1.timers ≡ w.timers)
            × ((try_checked net (post_of now wh job) o w).1.attempts ≡ w.attempts)
            × ((try_checked net (post_of now wh job) o w).1.webhooks ≡ w.webhooks)
      by_check none = (refl, refl, refl)
      by_check (some e) = (refl, refl, refl)

  pub deliver-work :
      (job : Timer) (w : World)
      → work (deliver_with_retry net now job w) ≤ work w + (max_attempts - job.attempt)
  unfolding deliver_with_retry
  deliver-work job w = by_webhook (find_webhook job.webhook_id w)
    where
      by_webhook :
          (o : Option WebhookRow)
          → work (deliver_to net now job o w) ≤ work w + (max_attempts - job.attempt)
      by_webhook none = omega arith
      by_webhook (some wh) =
          let (t, v) = try_post net now wh job w in
          let h = conclude-work now job t v in
          omega (arith, h, ap (sum_by tries_left) (try_post-keeps wh job w).0)

pub Fires-work : {net : Net} {w v : World} → Fires net w v → suc (work v) ≤ work w
Fires-work {net} {w} {v} f =
    let h = deliver-work net f.now f.timer (record w { timers = f.before ++ f.after }) in
    omega (
      arith,
      h,
      ap work f.result,
      ap (sum_by tries_left) f.waiting,
      sum_by-append tries_left f.before f.after,
      sum_by-append tries_left f.before (f.timer ∷ f.after),
    )

pub Runs-work : {net : Net} {w v : World} {n : ℕ} → Runs net w n v → n + work v ≤ work w
Runs-work here = omega arith
Runs-work (next r f) = omega (arith, Runs-work r, Fires-work f)
