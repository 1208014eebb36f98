-- ===== src/Notify.antt =====
-- services/notification-service/src: a notification from its message to its end, with its retries.
--
-- The rows of the table are kept by id. What a channel answers is a parameter, as a function of the
-- sends made so far; which channels have an adapter is another. The publisher of dead letters is
-- connected, as it is once the module has started. Times are milliseconds.
pub mod Dispatch
pub mod Batch
pub mod Keys
pub mod Tries
mod Tests
use cauripay.Common.{
  ℕ, zero, suc, ◌+◌, ◌*◌, ◌-◌, Bool, true, false, not, ◌&&◌, ◌||◌, Option, none, some, List, [],
  ◌∷◌, ◌++◌, map, leb, ltb, ◌==◌, if◌then◌else◌, filter, length, take, min, max, is_some,
}
use cauripay.Common.Dict.{Dict, lookup, insert}

pub data NotificationStatus : Type 0 where
  pending sent failed : NotificationStatus

pub data Channel : Type 0 where
  sms email push whatsapp : Channel

pub data NotificationType : Type 0 where
  transaction agent_float_low kyc aml system : NotificationType

pub data SendError : Type 0 where
  unknown_channel : Channel → SendError
  channel_error : ℕ → SendError

pub record Notification : Type 0 where
  pub id : ℕ
  pub user_id : ℕ
  pub type : NotificationType
  pub channel : Channel
  pub title : ℕ
  pub body : ℕ
  pub payload : Option ℕ
  pub status : NotificationStatus
  pub attempts : ℕ
  pub next_retry_at : Option ℕ
  pub delivered_at : Option ℕ
  pub last_error : Option SendError

-- A new row, with the defaults of the table.
abbrev pub new_row : ℕ → ℕ → NotificationType → Channel → ℕ → ℕ → Option ℕ → Notification
new_row id user_id type channel title body payload = record {
  id = id;
  user_id = user_id;
  type = type;
  channel = channel;
  title = title;
  body = body;
  payload = payload;
  status = NotificationStatus.pending;
  attempts = 0;
  next_retry_at = none;
  delivered_at = none;
  last_error = none;
}

-- What an adapter is given.
pub record Send : Type 0 where
  pub notification_id : ℕ
  pub user_id : ℕ
  pub type : NotificationType
  pub title : ℕ
  pub body : ℕ
  pub payload : Option ℕ

pub record DeadLetter : Type 0 where
  pub user_id : ℕ
  pub type : NotificationType
  pub channel : Channel
  pub title : ℕ
  pub body : ℕ
  pub payload : Option ℕ
  pub last_error : SendError

pub record World : Type 0 where
  pub rows : Dict Notification
  pub sends : List Send
  pub dead : List DeadLetter
  pub next_id : ℕ

-- The adapters that are registered, and what a send does: `none` when it resolves.
pub record Channels : Type 0 where
  pub has_adapter : Channel → Bool
  pub send : List Send → Channel → Send → Option ℕ

abbrev pub max_attempts : ℕ
max_attempts = 4

abbrev pub backoff_schedule_ms : List ℕ
backoff_schedule_ms = 30_000 ∷ 120_000 ∷ 600_000 ∷ 1_800_000 ∷ []

abbrev pub delay_at : List ℕ → ℕ → ℕ
delay_at [] i = 0
delay_at (d ∷ ds) zero = d
delay_at (d ∷ ds) (suc i) = delay_at ds i

-- `Math.max(0, …)` is what the subtraction does here.
abbrev pub get_delay_ms : ℕ → ℕ
get_delay_ms attempt = delay_at backoff_schedule_ms (min (attempt - 1) 3)

abbrev pub update_found : ℕ → (Notification → Notification) → Option Notification → World → World
update_found id f none w = w
update_found id f (some n) w = record w { rows = insert id (f n) w.rows }

-- UPDATE … WHERE id = ?; rows are never deleted.
abbrev pub update : ℕ → (Notification → Notification) → World → World
update id f w = update_found id f (lookup id w.rows) w

abbrev pub set_failed : SendError → Notification → Notification
set_failed e n = record n { status = NotificationStatus.failed; last_error = some e }

abbrev pub set_sent : ℕ → Notification → Notification
set_sent now n = record n {
  status = NotificationStatus.sent;
  delivered_at = some now;
  last_error = none;
}

abbrev pub set_exhausted : ℕ → SendError → Notification → Notification
set_exhausted attempts e n = record n {
  status = NotificationStatus.failed;
  attempts = attempts;
  last_error = some e;
}

abbrev pub set_waiting : ℕ → ℕ → SendError → Notification → Notification
set_waiting attempts next e n = record n {
  status = NotificationStatus.pending;
  attempts = attempts;
  next_retry_at = some next;
  last_error = some e;
}

abbrev pub dead_letter_of : Notification → SendError → DeadLetter
dead_letter_of n e = record {
  user_id = n.user_id;
  type = n.type;
  channel = n.channel;
  title = n.title;
  body = n.body;
  payload = n.payload;
  last_error = e;
}

abbrev pub bury : DeadLetter → World → World
bury d w = record w { dead = d ∷ w.dead }

-- The catch of a failed send.
abbrev pub after_failure : ℕ → Notification → SendError → World → World
after_failure now n e w =
    let attempts = n.attempts + 1 in
    if leb max_attempts attempts
    then bury (dead_letter_of n e) (update n.id (set_exhausted attempts e) w)
    else update n.id (set_waiting attempts (now + get_delay_ms attempts) e) w

abbrev pub after_send : ℕ → Notification → Option ℕ → World → World
after_send now n none w = update n.id (set_sent now) w
after_send now n (some e) w = after_failure now n (channel_error e) w

abbrev pub send_of : Notification → Send
send_of n = record {
  notification_id = n.id;
  user_id = n.user_id;
  type = n.type;
  title = n.title;
  body = n.body;
  payload = n.payload;
}

-- The row is the caller's copy, which may be older than the table's.
unfoldable pub dispatch_notification : Channels → ℕ → Notification → World → World
dispatch_notification channels now n w =
    if channels.has_adapter n.channel
    then after_send now n (channels.send w.sends n.channel (send_of n))
        (record w { sends = send_of n ∷ w.sends })
    else update n.id (set_failed (unknown_channel n.channel)) w

abbrev pub is_pending : NotificationStatus → Bool
is_pending NotificationStatus.pending = true
is_pending _ = false

abbrev pub retry_due : ℕ → Option ℕ → Bool
retry_due now none = false
retry_due now (some t) = leb t now

abbrev pub is_due : ℕ → Notification → Bool
is_due now n = is_pending n.status && retry_due now n.next_retry_at

abbrev pub retry_time : Option ℕ → ℕ
retry_time none = 0
retry_time (some t) = t

-- ORDER BY nextRetryAt ASC
unfoldable pub insert_by_retry : Notification → List Notification → List Notification
insert_by_retry n [] = n ∷ []
insert_by_retry n (m ∷ ms) =
    let rest = insert_by_retry n ms in
    if leb (retry_time n.next_retry_at) (retry_time m.next_retry_at) then n ∷ m ∷ ms else m ∷ rest

unfoldable pub sort_by_retry : List Notification → List Notification
unfolding insert_by_retry
sort_by_retry [] = []
sort_by_retry (n ∷ ns) = insert_by_retry n (sort_by_retry ns)

abbrev pub batch_size : ℕ
batch_size = 100

abbrev pub rows_of : Dict Notification → List Notification
rows_of d = map (λ (e : ℕ × Notification). e.1) d

unfoldable pub due_batch : ℕ → World → List Notification
due_batch now w = take batch_size (sort_by_retry (filter (is_due now) (rows_of w.rows)))

unfoldable pub dispatch_all : Channels → ℕ → List Notification → World → World
dispatch_all channels now [] w = w
dispatch_all channels now (n ∷ ns) w =
    dispatch_all channels now ns (dispatch_notification channels now n w)

unfoldable pub retry_due_notifications : Channels → ℕ → World → World
retry_due_notifications channels now w = dispatch_all channels now (due_batch now w) w

-- The INSERT of a new row and its first dispatch.
unfoldable pub create_and_dispatch : Channels → ℕ → Notification → World → World
create_and_dispatch channels now n w =
    dispatch_notification channels now n
      (record w { rows = insert n.id n w.rows; next_id = w.next_id + 1 })

-- A message of the queue: `none` for a field that is not there. A type or a channel is one of the
-- enum's or another text; `extra` tells whether it has a field that the schema does not name.
pub data TypeName : Type 0 where
  listed : NotificationType → TypeName
  unlisted : ℕ → TypeName

pub data ChannelName : Type 0 where
  known : Channel → ChannelName
  unknown : ℕ → ChannelName

pub record Message : Type 0 where
  pub user_id : Option ℕ
  pub type : Option TypeName
  pub channel : Option ChannelName
  pub title : Option ℕ
  pub body : Option ℕ
  pub payload : Option ℕ
  pub extra : Bool

-- What the schema lets through; a channel is optional.
pub record Event : Type 0 where
  pub user_id : ℕ
  pub type : NotificationType
  pub channel : Option Channel
  pub title : ℕ
  pub body : ℕ
  pub payload : Option ℕ

abbrev pub valid_type : Option TypeName → Option NotificationType
valid_type (some (listed t)) = some t
valid_type _ = none

abbrev pub valid_channel : Option ChannelName → Option (Option Channel)
valid_channel none = some none
valid_channel (some (known c)) = some (some c)
valid_channel (some (unknown c)) = none

abbrev pub check_parts :
    Option ℕ
    → Bool
    → Option ℕ
    → Option NotificationType
    → Option (Option Channel)
    → Option ℕ
    → Option ℕ
    → Option Event
check_parts payload false (some user_id) (some type) (some channel) (some title) (some body) =
    some (record {
      user_id = user_id;
      type = type;
      channel = channel;
      title = title;
      body = body;
      payload = payload;
    })
check_parts payload _ _ _ _ _ _ = none

abbrev pub validate : Message → Option Event
validate m =
    check_parts m.payload m.extra m.user_id (valid_type m.type) (valid_channel m.channel) m.title
      m.body

abbrev pub handle_channel : Channels → ℕ → Event → Option Channel → World → World
handle_channel channels now v none w = w
handle_channel channels now v (some c) w =
    create_and_dispatch channels now (new_row w.next_id v.user_id v.type c v.title v.body v.payload)
      w

abbrev pub handle_valid : Channels → ℕ → Option Event → World → World
handle_valid channels now none w = w
handle_valid channels now (some v) w = handle_channel channels now v v.channel w

abbrev pub handle_parsed : Channels → ℕ → Option Message → World → World
handle_parsed channels now none w = w
handle_parsed channels now (some m) w = handle_valid channels now (validate m) w

-- `none` is a text that is not JSON.
unfoldable pub handle_message : Channels → ℕ → Option Message → World → World
handle_message channels now raw w = handle_parsed channels now raw w

-- The title and the body of the test are fixed texts.
unfoldable pub send_test : Channels → ℕ → ℕ → Channel → World → World × Option Notification
send_test channels now user_id channel w =
    let id = w.next_id in
    let v =
      create_and_dispatch channels now
        (new_row id user_id NotificationType.system channel 0 1 (some 2)) w in
    (v, lookup id v.rows)
