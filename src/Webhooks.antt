-- ===== src/Webhooks.antt =====
-- legacy/server/src/webhooks.ts: the rows of `webhooks` and `webhook_attempts`, the delivery of an
-- event with its retries, replays, test pings and the restart.
--
-- The rows of `webhook_attempts` are kept newest first (created_at DESC, rowid DESC). Times are
-- milliseconds. `timers` is what `setTimeout` holds; `posts` records the calls of
-- `fetch`, not what `fetch` does with one: its own resolution of the host and the redirects that it
-- follows are part of the parameter `Net.fetch`. The HMAC
-- is a parameter, and so is what the network answers, as a function of the posts made so far: two
-- deliveries to one address may end differently. One call reads the clock once, at its start. The
-- ids come from a counter, as random ids are taken not to collide.
pub mod Url
pub mod Timers
pub mod Delivery
pub mod Settlement
pub mod Guarded
pub mod Ranges
pub mod Requests
pub mod Restart
mod Tests
use cauripay.Common.{
  ℕ, suc, ◌+◌, ◌-◌, ◌/◌, Bool, true, false, not, ◌&&◌, ◌||◌, Option, none, some, List, [], ◌∷◌,
  ◌++◌, map, zero, leb, ◌==◌, if◌then◌else◌, find, any, filter, length,
}
use cauripay.Common.Dict.{Dict, lookup}
use cauripay.Checkout.Store.{Mode}
use mathlib.Core.List.{reverse}
use cauripay.Common.Text.{Text}
use cauripay.Webhooks.Url.{Dns, UrlReason, UrlOptions, is_safe_webhook_url}

-- An entry of `events`: `*`, or the name of a type.
pub data EventPattern : Type 0 where
  every : EventPattern
  only : ℕ → EventPattern

-- `events` is JSON text; `none` stands for a text that does not parse.
pub record WebhookRow : Type 0 where
  pub id : ℕ
  pub merchant_id : ℕ
  pub url : ℕ
  pub events : Option (List EventPattern)
  pub mode : Mode
  pub active : Bool

-- `webhook.test`, or one of the others.
pub data Payload : Type 0 where
  payload : ℕ → ℕ → ℕ → Payload
  ping : ℕ → Payload

-- `t=<unix>,v1=<hmac>`
pub record Signature : Type 0 where
  pub t : ℕ
  pub v1 : ℕ

pub data AttemptStatus : Type 0 where
  delivered failed : AttemptStatus

pub data DeliveryError : Type 0 where
  blocked : UrlReason → DeliveryError
  http_error : ℕ → DeliveryError
  thrown : ℕ → DeliveryError

pub record AttemptRow : Type 0 where
  pub id : ℕ
  pub webhook_id : ℕ
  pub event_id : Option ℕ
  pub event_type : ℕ
  pub payload : Payload
  pub signature : Signature
  pub status : AttemptStatus
  pub http_status : Option ℕ
  pub attempts : ℕ
  pub next_retry_at : Option ℕ
  pub last_error : Option DeliveryError
  pub created_at : ℕ
  pub delivered_at : Option ℕ

-- The arguments of a call of `deliverWithRetry`; `due` is when its timer fires.
pub record Timer : Type 0 where
  pub webhook_id : ℕ
  pub attempt_id : ℕ
  pub event_type : ℕ
  pub payload : Payload
  pub signature : Signature
  pub attempt : ℕ
  pub due : ℕ

-- A call of `fetch`, with the time of the check of its address just before.
pub record Post : Type 0 where
  pub checked_at : ℕ
  pub url : ℕ
  pub payload : Payload
  pub signature : Signature

pub record Merchant : Type 0 where
  pub wsec_test : Text
  pub wsec_live : Text

pub record World : Type 0 where
  pub merchants : Dict Merchant
  pub webhooks : List WebhookRow
  pub attempts : List AttemptRow
  pub timers : List Timer
  pub posts : List Post
  pub next_id : ℕ

-- What a call of `fetch` comes to, after any redirects: a response with its status, or an exception.
pub data FetchResult : Type 0 where
  response : ℕ → FetchResult
  exception : ℕ → FetchResult

pub record Net : Type 0 where
  pub dns : Dns
  pub options : UrlOptions
  pub hmac : Text → ℕ → Payload → ℕ
  pub fetch : List Post → Post → FetchResult

abbrev pub sign_payload : Net → ℕ → Text → Payload → Signature
sign_payload net now secret body = record { t = now / 1000; v1 = net.hmac secret (now / 1000) body }

abbrev pub secret_of : Mode → Option Merchant → Text
secret_of mode none = []
secret_of Mode.test (some m) = m.wsec_test
secret_of Mode.live (some m) = m.wsec_live

abbrev pub merchant_webhook_secret : ℕ → Mode → World → Text
merchant_webhook_secret merchant_id mode w = secret_of mode (lookup merchant_id w.merchants)

abbrev pub backoff_ms : List ℕ
backoff_ms = 1000 ∷ 5000 ∷ 30000 ∷ 300000 ∷ []

abbrev pub max_attempts : ℕ
max_attempts = length backoff_ms

-- `BACKOFF_MS[i]`; it is read at 0, 1 and 2 only.
abbrev pub delay_at : List ℕ → ℕ → ℕ
delay_at [] i = 0
delay_at (d ∷ ds) zero = d
delay_at (d ∷ ds) (suc i) = delay_at ds i

abbrev pub find_webhook : ℕ → World → Option WebhookRow
find_webhook id w = find (λ (r : WebhookRow). r.id == id) w.webhooks

-- What one try gave: the status, whether it was delivered, and the error.
pub record Try : Type 0 where
  pub http_status : Option ℕ
  pub delivered : Bool
  pub error : Option DeliveryError

-- `res.ok`: a status from 200 to 299.
abbrev pub read_response : FetchResult → Try
read_response (response status) =
    if leb 200 status && leb status 299
    then record { http_status = some status; delivered = true; error = none }
    else record { http_status = some status; delivered = false; error = some (http_error status) }
read_response (exception e) = record {
  http_status = none;
  delivered = false;
  error = some (thrown e);
}

abbrev pub post_of : ℕ → WebhookRow → Timer → Post
post_of now wh job = record {
  checked_at = now;
  url = wh.url;
  payload = job.payload;
  signature = job.signature;
}

abbrev pub try_checked : Net → Post → Option UrlReason → World → Try × World
try_checked net post (some reason) w =
    (record { http_status = none; delivered = false; error = some (blocked reason) }, w)
try_checked net post none w =
    (read_response (net.fetch w.posts post), record w { posts = post ∷ w.posts })

-- The check of the address, and the request when it is safe.
unfoldable pub try_post : Net → ℕ → WebhookRow → Timer → World → Try × World
try_post net now wh job w =
    try_checked net (post_of now wh job) (is_safe_webhook_url net.dns net.options now wh.url) w

-- UPDATE … WHERE id = ?
abbrev pub update_row : ℕ → (AttemptRow → AttemptRow) → AttemptRow → AttemptRow
update_row id f r = if r.id == id then f r else r

abbrev pub update_attempt : ℕ → (AttemptRow → AttemptRow) → World → World
update_attempt id f w = record w { attempts = map (update_row id f) w.attempts }

abbrev pub set_delivered : ℕ → Timer → Try → AttemptRow → AttemptRow
set_delivered now job t r = record r {
  status = AttemptStatus.delivered;
  http_status = t.http_status;
  attempts = job.attempt;
  delivered_at = some now;
  last_error = none;
}

abbrev pub set_exhausted : Timer → Try → AttemptRow → AttemptRow
set_exhausted job t r = record r {
  status = AttemptStatus.failed;
  http_status = t.http_status;
  attempts = job.attempt;
  last_error = t.error;
}

abbrev pub set_waiting : ℕ → Timer → Try → AttemptRow → AttemptRow
set_waiting next_at job t r = record r {
  http_status = t.http_status;
  attempts = job.attempt;
  next_retry_at = some next_at;
  last_error = t.error;
}

abbrev pub retry_of : ℕ → Timer → Timer
retry_of due job = record job { attempt = job.attempt + 1; due = due }

abbrev pub add_timer : Timer → World → World
add_timer t w = record w { timers = w.timers ++ t ∷ [] }

-- What is stored after a try, and the timer of the next one.
unfoldable pub conclude : ℕ → Timer → Try × World → World
conclude now job (t, w) =
    let next_at = now + delay_at backoff_ms (job.attempt - 1) in
    if t.delivered
    then update_attempt job.attempt_id (set_delivered now job t) w
    else if leb max_attempts job.attempt
    then update_attempt job.attempt_id (set_exhausted job t) w
    else add_timer (retry_of next_at job)
        (update_attempt job.attempt_id (set_waiting next_at job t) w)

abbrev pub deliver_to : Net → ℕ → Timer → Option WebhookRow → World → World
deliver_to net now job none w = w
deliver_to net now job (some wh) w = conclude now job (try_post net now wh job w)

unfoldable pub deliver_with_retry : Net → ℕ → Timer → World → World
deliver_with_retry net now job w = deliver_to net now job (find_webhook job.webhook_id w) w

abbrev pub new_attempt : ℕ → ℕ → ℕ → Option ℕ → ℕ → Payload → Signature → AttemptRow
new_attempt now id webhook_id event_id event_type body signature = record {
  id = id;
  webhook_id = webhook_id;
  event_id = event_id;
  event_type = event_type;
  payload = body;
  signature = signature;
  status = AttemptStatus.failed;
  http_status = none;
  attempts = 0;
  next_retry_at = none;
  last_error = none;
  created_at = now;
  delivered_at = none;
}

abbrev pub first_try : ℕ → AttemptRow → Timer
first_try now r = record {
  webhook_id = r.webhook_id;
  attempt_id = r.id;
  event_type = r.event_type;
  payload = r.payload;
  signature = r.signature;
  attempt = 1;
  due = now;
}

abbrev pub insert_attempt : AttemptRow → World → World
insert_attempt r w = record w { attempts = r ∷ w.attempts; next_id = w.next_id + 1 }

-- The INSERT and the first, awaited delivery, which dispatch, replay and ping share.
unfoldable pub attempt_now : Net → ℕ → WebhookRow → Option ℕ → ℕ → Payload → World → World
attempt_now net now wh event_id event_type body w =
    let signature = sign_payload net now (merchant_webhook_secret wh.merchant_id wh.mode w) body in
    let r = new_attempt now w.next_id wh.id event_id event_type body signature in
    deliver_with_retry net now (first_try now r) (insert_attempt r w)

abbrev pub types_of : Option (List EventPattern) → List EventPattern
types_of none = every ∷ []
types_of (some l) = l

abbrev pub covers : ℕ → EventPattern → Bool
covers event_type every = true
covers event_type (only e) = e == event_type

-- `types.includes('*') || types.includes(eventType)`
abbrev pub wants : ℕ → WebhookRow → Bool
wants event_type wh = any (covers event_type) (types_of wh.events)

abbrev pub same_mode : Mode → Mode → Bool
same_mode Mode.test Mode.test = true
same_mode Mode.live Mode.live = true
same_mode _ _ = false

abbrev pub subscribed : ℕ → Mode → WebhookRow → Bool
subscribed merchant_id mode wh =
    (wh.merchant_id == merchant_id) && same_mode wh.mode mode && wh.active

unfoldable pub dispatch_to : Net → ℕ → ℕ → ℕ → List WebhookRow → World → World
dispatch_to net now event_type body [] w = w
dispatch_to net now event_type body (wh ∷ whs) w = dispatch_to net now event_type body whs (
    if wants event_type wh
    then attempt_now net now wh none event_type (payload event_type body now) w
    else w)

unfoldable pub dispatch_event : Net → ℕ → ℕ → Mode → ℕ → ℕ → World → World
dispatch_event net now merchant_id mode event_type body w =
    dispatch_to net now event_type body (filter (subscribed merchant_id mode) w.webhooks) w

pub data ReplayError : Type 0 where
  no_attempt no_webhook : ReplayError

pub data Reply : Type 0 where
  done : ℕ → Reply
  refused : ReplayError → Reply

abbrev pub replay_to : Net → ℕ → AttemptRow → Option WebhookRow → World → Reply × World
replay_to net now last none w = (refused no_webhook, w)
replay_to net now last (some wh) w =
    (done w.next_id, attempt_now net now wh last.event_id last.event_type last.payload w)

abbrev pub replay_last : Net → ℕ → ℕ → Option AttemptRow → World → Reply × World
replay_last net now webhook_id none w = (refused no_attempt, w)
replay_last net now webhook_id (some last) w = replay_to net now last (find_webhook webhook_id w) w

unfoldable pub replay_last_event : Net → ℕ → ℕ → World → Reply × World
replay_last_event net now webhook_id w =
    replay_last net now webhook_id
      (find (λ (r : AttemptRow). r.webhook_id == webhook_id) w.attempts) w

-- `webhook.test` as a type of events.
abbrev pub test_type : ℕ
test_type = 0

abbrev pub ping_to : Net → ℕ → Option WebhookRow → World → Reply × World
ping_to net now none w = (refused no_webhook, w)
ping_to net now (some wh) w = (done w.next_id, attempt_now net now wh none test_type (ping now) w)

unfoldable pub send_test_ping : Net → ℕ → ℕ → World → Reply × World
send_test_ping net now webhook_id w = ping_to net now (find_webhook webhook_id w) w

abbrev pub retry_due : ℕ → Option ℕ → Bool
retry_due now none = false
retry_due now (some t) = leb t now

abbrev pub is_failed : AttemptStatus → Bool
is_failed AttemptStatus.failed = true
is_failed AttemptStatus.delivered = false

abbrev pub is_pending : ℕ → AttemptRow → Bool
is_pending now r =
    is_failed r.status && not (leb max_attempts r.attempts) && retry_due now r.next_retry_at

-- `Math.max(0, next_retry_at - now)` after now.
abbrev pub resume_due : ℕ → Option ℕ → ℕ
resume_due now none = now
resume_due now (some t) = now + (t - now)

abbrev pub resumed : ℕ → AttemptRow → Timer
resumed now r = record {
  webhook_id = r.webhook_id;
  attempt_id = r.id;
  event_type = r.event_type;
  payload = r.payload;
  signature = r.signature;
  attempt = r.attempts + 1;
  due = resume_due now r.next_retry_at;
}

-- ORDER BY created_at ASC is the order of the inserts, the rows' own in reverse.
unfoldable pub resume_pending_retries : ℕ → World → ℕ × World
resume_pending_retries now w =
    let pending = filter (is_pending now) (reverse w.attempts) in
    (length pending, record w { timers = w.timers ++ map (resumed now) pending })
