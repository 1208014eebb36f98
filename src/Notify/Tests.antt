-- ===== src/Notify/Tests.antt =====
-- A channel that fails once, and the theorems at a notification that goes through it.
use cauripay.Common.{List, ◌+◌, ◌≡◌, refl, true, none, some, [], ◌∷◌, arith}
use cauripay.Common.Dict.{lookup, insert}
use cauripay.Notify.{
  NotificationStatus, send_test, create_and_dispatch, dispatch_notification,
  retry_due_notifications, dispatch_all, due_batch, sort_by_retry, insert_by_retry, World, Channels,
  Channel, Notification, NotificationType, new_row, get_delay_ms,
}
use cauripay.Notify.Tries.{
  Op, cron, test_send, run_ops, empty_world, RowCounted, run_ops-RowCounted,
}
use cauripay.Notify.Dispatch.{Ended, redispatch, redispatch-Ended}

abbrev channels : Channels
channels = record {
  has_adapter = λ c. true;
  send = λ sends c s. elim sends [ [] ↦ some 9 | _ ↦ none ];
}

abbrev row : Notification
row = new_row 1 7 NotificationType.system Channel.sms 0 1 none

abbrev world : World
world = record { rows = (1, row) ∷ []; sends = []; dead = []; next_id = 2 }

redispatch-Ended_example : Ended channels row world (redispatch channels (λ i. i) 4 1 world)
unfolding lookup
redispatch-Ended_example =
    redispatch-Ended channels (λ i. i) 4 row world refl refl (omega arith) (omega arith)

-- The delays after the first, the second and the third failure; a fourth is the last.
delays : (get_delay_ms 1 + get_delay_ms 2) + get_delay_ms 3 ≡ 750_000
delays = refl

abbrev ops : List Op
ops = test_send 10 7 Channel.sms ∷ cron 40_000 ∷ []

abbrev sent_row : Notification
sent_row = record row {
  status = NotificationStatus.sent;
  attempts = 1;
  next_retry_at = some 30_010;
  delivered_at = some 40_000;
  payload = some 2;
}

sent_found : lookup 1 (run_ops channels ops empty_world).rows ≡ some sent_row
unfolding run_ops lookup insert send_test create_and_dispatch dispatch_notification
    retry_due_notifications dispatch_all due_batch sort_by_retry insert_by_retry
sent_found = refl

run_ops-RowCounted_example :
    RowCounted
      (run_ops channels ops empty_world).sends
      (run_ops channels ops empty_world).next_id
      sent_row
run_ops-RowCounted_example = run_ops-RowCounted channels ops 1 sent_row sent_found
