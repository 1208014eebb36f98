-- ===== src/Webhooks/Delivery.antt =====
-- legacy/server/src/webhooks.ts: what becomes of the rows that `dispatchEvent` writes.
use cauripay.Common.{
  ℕ, ◌+◌, ◌-◌, ◌≡◌, refl, sym, ◌∙◌, Bool, true, not, ◌||◌, inl, inr, Option, none, some, List, [],
  ◌∷◌, ◌++◌, arith, ltb, leb, ◌==◌, any, any-append, All, All-append, All-append_left,
  All-append_right, All-map, is_some, Bool-cases, find,
}
use mathlib.Core.Path.{subst}
use cauripay.Webhooks.{
  World, Net, Timer, Try, AttemptRow, WebhookRow, is_failed, max_attempts, conclude,
  deliver_with_retry, deliver_to, find_webhook, try_post, retry_of, update_row, update_attempt,
  add_timer, try_checked, post_of, set_delivered, set_exhausted, set_waiting, delay_at, backoff_ms,
}
use cauripay.Webhooks.Url.{UrlReason, is_safe_webhook_url}
use cauripay.Webhooks.Timers.{Fires, Runs, here, next}

-- Delivered, or tried as often as the code allows.
abbrev pub settled : AttemptRow → Bool
settled r = not (is_failed r.status) || leb max_attempts r.attempts

abbrev pub waits : List Timer → AttemptRow → Bool
waits ts r = any (λ (t : Timer). t.attempt_id == r.id) ts

-- Of the rows from the id `n` on: settled, or a timer will try again.
abbrev pub accounted : ℕ → List Timer → AttemptRow → Bool
accounted n ts r = ltb r.id n || settled r || waits ts r

abbrev pub Accounted : ℕ → World → Type 0
Accounted n w = All (λ (r : AttemptRow). accounted n w.timers r ≡ true) w.attempts

abbrev pub known : List WebhookRow → Timer → Bool
known whs t = is_some (find (λ (r : WebhookRow). r.id == t.webhook_id) whs)

-- The webhook of each timer is still there.
abbrev pub Known : World → Type 0
Known w = All (λ (t : Timer). known w.webhooks t ≡ true) w.timers

abbrev waits_one : ℕ → Timer → Bool
waits_one id t = t.attempt_id == id

split_waits :
    (before after : List Timer) (job : Timer) (r : AttemptRow)
    → waits (before ++ job ∷ after) r ≡ (waits (before ++ after) r || (job.attempt_id == r.id))
split_waits before after job r = ground (
  arith,
  any-append (waits_one r.id) before (job ∷ after),
  any-append (waits_one r.id) before after,
)

-- The job has been taken out of the timers `old`, and its try is over.
module _ (n now : ℕ) (job : Timer) (old : List Timer) (t : Try) (w : World)
    (split : (r : AttemptRow) → waits old r ≡ (waits w.timers r || (job.attempt_id == r.id)))
    (before : All (λ (r : AttemptRow). accounted n old r ≡ true) w.attempts) where
  -- A row that the try settles, and the others.
  updated-Accounted :
      (f : AttemptRow → AttemptRow)
      → ((r : AttemptRow) → settled (f r) ≡ true)
      → Accounted n (update_attempt job.attempt_id f w)
  updated-Accounted f s =
      All-map (λ (r : AttemptRow). accounted n old r ≡ true)
        (λ (r : AttemptRow). accounted n w.timers r ≡ true) (update_row job.attempt_id f)
        (λ r h. ground (arith, split r, s r)) w.attempts before

  waiting-Accounted :
      (next_at : ℕ)
      → Accounted n (
          add_timer
            (retry_of next_at job)
            (update_attempt job.attempt_id (set_waiting next_at job t) w))
  waiting-Accounted next_at =
      All-map (λ (r : AttemptRow). accounted n old r ≡ true)
        (λ (r : AttemptRow). accounted n (w.timers ++ retry_of next_at job ∷ []) r ≡ true)
        (update_row job.attempt_id (set_waiting next_at job t))
        (λ r h.
          ground (arith, split r, any-append (waits_one r.id) w.timers (retry_of next_at job ∷ [])))
        w.attempts before

  conclude-Accounted : Accounted n (conclude now job (t, w))
  unfolding conclude
  conclude-Accounted = elim (Bool-cases t.delivered) [
    | inl d ↦ rw d (updated-Accounted (set_delivered now job t) (λ r. refl))
    | inr d ↦ elim (Bool-cases (leb max_attempts job.attempt)) [
      | inl e ↦ rw (d, e) (updated-Accounted (set_exhausted job t) (λ r. cc e))
      | inr e ↦ rw (d, e) (waiting-Accounted (now + delay_at backoff_ms (job.attempt - 1)))
    ]
  ]

conclude-Known :
    (now : ℕ) (job : Timer) (t : Try) (w : World)
    → known w.webhooks job ≡ true
    → Known w
    → Known (conclude now job (t, w))
unfolding conclude
conclude-Known now job t w j h = elim (Bool-cases t.delivered) [
  | inl d ↦ rw d h
  | inr d ↦ elim (Bool-cases (leb max_attempts job.attempt)) [
    | inl e ↦ rw (d, e) h
    | inr e ↦ rw (d, e) (All-append (λ (t : Timer). known w.webhooks t ≡ true) w.timers _ h (j, tt))
  ]
]

conclude-webhooks :
    (now : ℕ) (job : Timer) (t : Try) (w : World) → (conclude now job (t, w)).webhooks ≡ w.webhooks
unfolding conclude
conclude-webhooks now job t w = ground arith

pub record Kept (n : ℕ) (whs : List WebhookRow) (v : World) : Type 0 where
  pub rows : Accounted n v
  pub timers_known : Known v
  pub same_webhooks : v.webhooks ≡ whs

module _ (net : Net) (n now : ℕ) (job : Timer) (old : List Timer) where
  conclude-Kept :
      (t : Try) (w : World)
      → ((r : AttemptRow) → waits old r ≡ (waits w.timers r || (job.attempt_id == r.id)))
      → All (λ (r : AttemptRow). accounted n old r ≡ true) w.attempts
      → known w.webhooks job ≡ true
      → Known w
      → Kept n w.webhooks (conclude now job (t, w))
  conclude-Kept t w split before j k = record {
    rows = conclude-Accounted n now job old t w split before;
    timers_known = conclude-Known now job t w j k;
    same_webhooks = conclude-webhooks now job t w;
  }

  pub deliver-Kept :
      (w : World)
      → ((r : AttemptRow) → waits old r ≡ (waits w.timers r || (job.attempt_id == r.id)))
      → All (λ (r : AttemptRow). accounted n old r ≡ true) w.attempts
      → known w.webhooks job ≡ true
      → Known w
      → Kept n w.webhooks (deliver_with_retry net now job w)
  unfolding deliver_with_retry try_post
  deliver-Kept w split before j k = by_webhook (find_webhook job.webhook_id w) j
    where
      by_webhook :
          (o : Option WebhookRow)
          → is_some o ≡ true
          → Kept n w.webhooks (deliver_to net now job o w)
      by_webhook none e = cc e
      by_webhook (some wh) e = by_check (is_safe_webhook_url net.dns net.options now wh.url)
        where
          by_check :
              (o : Option UrlReason)
              → Kept n w.webhooks (conclude now job (try_checked net (post_of now wh job) o w))
          by_check none =
              conclude-Kept _ (record w { posts = post_of now wh job ∷ w.posts }) split before j k
          by_check (some x) = conclude-Kept _ w split before j k

-- A timer that fires leaves every row accounted for.
Fires-Kept :
    (n : ℕ) {net : Net} {w v : World}
    → Fires net w v
    → Accounted n w
    → Known w
    → Kept n w.webhooks v
Fires-Kept n {net} {w} {v} f h k =
    let ks : All (λ (t : Timer). known w.webhooks t ≡ true) (f.before ++ f.timer ∷ f.after) =
      subst (All (λ (t : Timer). known w.webhooks t ≡ true)) f.waiting k in
    let right : All (λ (t : Timer). known w.webhooks t ≡ true) (f.timer ∷ f.after) =
      All-append_right (λ (t : Timer). known w.webhooks t ≡ true) f.before (f.timer ∷ f.after) ks in
    subst (Kept n w.webhooks) (sym f.result) (
      deliver-Kept net n f.now f.timer (f.before ++ f.timer ∷ f.after)
        (record w { timers = f.before ++ f.after }) (split_waits f.before f.after f.timer)
        (subst (λ (ts : List Timer). All (λ (r : AttemptRow). accounted n ts r ≡ true) w.attempts)
          f.waiting h)
        right.0
        (All-append (λ (t : Timer). known w.webhooks t ≡ true) f.before f.after
          (All-append_left (λ (t : Timer). known w.webhooks t ≡ true) f.before _ ks) right.1))

pub Runs-Kept :
    (n : ℕ) {net : Net} {w v : World} {k : ℕ}
    → Runs net w k v
    → Accounted n w
    → Known w
    → Kept n w.webhooks v
Runs-Kept n here h k = record { rows = h; timers_known = k; same_webhooks = refl }
Runs-Kept n (next r f) h k =
    let a = Runs-Kept n r h k in
    let b = Fires-Kept n f a.rows a.timers_known in
    record {
      rows = b.rows;
      timers_known = b.timers_known;
      same_webhooks = b.same_webhooks ∙ a.same_webhooks;
    }
