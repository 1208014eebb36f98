-- ===== src/Webhooks/Tests.antt =====
-- A webhook whose receiver fails once and then answers, and the theorems at it.
use cauripay.Common.{◌+◌, ◌*◌, ◌≤◌, ◌≡◌, refl, true, false, none, some, List, [], ◌∷◌, arith, All}
use cauripay.Checkout.Store.{Mode}
use cauripay.Webhooks.{
  World, Net, EventPattern, AttemptRow, Timer, Post, FetchResult, response, Payload, dispatch_event,
  dispatch_to, attempt_now, deliver_with_retry, try_post, conclude, resume_pending_retries,
}
use cauripay.Common.Text.{Text, same_text, split}
use cauripay.Webhooks.Url.{
  Dns, Protocol, is_safe_webhook_url, is_private_address, is_private_ipv4, digits_value,
  is_private_ipv6, to_lower_case, after_prefix,
}
use cauripay.Webhooks.Timers.{Fires, here, next, work}
use cauripay.Webhooks.Settlement.{Rest, IsSettled, dispatch_event-Rest, dispatch_event-IsSettled}
use cauripay.Webhooks.Guarded.{IsSafe, is_safe_webhook_url_iff}
use cauripay.Webhooks.Ranges.{in_private_block, address, is_private_ipv4-block}
use cauripay.Webhooks.Requests.{dispatch, fire, run_ops, Checked, run_ops-Checked}
use cauripay.Webhooks.Restart.{restart}

abbrev public_ip : Text
public_ip = b'8' ∷ b'.' ∷ b'8' ∷ b'.' ∷ b'8' ∷ b'.' ∷ b'8' ∷ []

abbrev private_host : Text
private_host = b'1' ∷ b'0' ∷ b'.' ∷ b'1' ∷ b'.' ∷ b'2' ∷ b'.' ∷ b'3' ∷ []

abbrev dns : Dns
dns = record {
  parse_url = λ u. some (record { protocol = Protocol.https; hostname = public_ip });
  is_ip = λ t. 4;
  resolve = λ now t. none;
}

abbrev answers : List Post → Post → FetchResult
answers [] p = response 500
answers (q ∷ qs) p = response 200

abbrev net : Net
net = record {
  dns = dns;
  options = record { block_private = true; require_https = true };
  hmac = λ secret t body. 5;
  fetch = answers;
}

abbrev world : World
world = record {
  merchants = (1, record { wsec_test = []; wsec_live = [] }) ∷ [];
  webhooks =
      record {
        id = 3;
        merchant_id = 1;
        url = 9;
        events = some (EventPattern.every ∷ []);
        mode = Mode.test;
        active = true;
      }
      ∷ [];
  attempts = [];
  timers = [];
  posts = [];
  next_id = 1;
}

abbrev tried : World
tried = dispatch_event net 1000 1 Mode.test 7 8 world

abbrev retry : Timer
retry = record {
  webhook_id = 3;
  attempt_id = 1;
  event_type = 7;
  payload = Payload.payload 7 8 1000;
  signature = record { t = 1; v1 = 5 };
  attempt = 2;
  due = 2000;
}

abbrev retried : World
retried = deliver_with_retry net 2000 retry (record tried { timers = [] })

tried_timers : tried.timers ≡ retry ∷ []
unfolding dispatch_event dispatch_to attempt_now deliver_with_retry try_post conclude
    is_safe_webhook_url is_private_address is_private_ipv4 split digits_value
tried_timers = refl

fires : Fires net tried retried
fires = record {
  before = [];
  after = [];
  timer = retry;
  now = 2000;
  waiting = tried_timers;
  result = refl;
}

retried_timers : retried.timers ≡ []
unfolding dispatch_event dispatch_to attempt_now deliver_with_retry try_post conclude
    is_safe_webhook_url is_private_address is_private_ipv4 split digits_value
retried_timers = refl

dispatch_event-Rest_example : (1 ≤ work world + 3 * 1) × Rest net retried
dispatch_event-Rest_example =
    dispatch_event-Rest net 1000 1 Mode.test 7 8 world 1 retried (next here fires)

dispatch_event-IsSettled_example : All (λ (r : AttemptRow). 1 ≤ r.id → IsSettled r) retried.attempts
dispatch_event-IsSettled_example =
    dispatch_event-IsSettled net 1000 1 Mode.test 7 8 world 1 retried tt tt (next here fires)
      retried_timers

is_safe_webhook_url_iff_example :
    (is_safe_webhook_url dns net.options 0 9 ≡ none → IsSafe dns net.options 0 9)
    × (IsSafe dns net.options 0 9 → is_safe_webhook_url dns net.options 0 9 ≡ none)
is_safe_webhook_url_iff_example = is_safe_webhook_url_iff dns net.options 0 9

is_private_ipv4-block_example : is_private_ipv4 private_host ≡ in_private_block (address 10 1 2 3)
unfolding split digits_value
is_private_ipv4-block_example =
    is_private_ipv4-block private_host (b'1' ∷ b'0' ∷ []) (b'1' ∷ []) (b'2' ∷ []) (b'3' ∷ []) 10 1 2
      3 refl refl refl refl refl (omega arith) (omega arith) (omega arith)

run_ops-Checked_example :
    Checked net (run_ops net (dispatch 1000 1 Mode.test 7 8 ∷ fire 2000 0 ∷ []) world)
run_ops-Checked_example =
    run_ops-Checked net (dispatch 1000 1 Mode.test 7 8 ∷ fire 2000 0 ∷ []) world tt

-- The retry that was due at 2000 is lost by a restart at 1500.
lost_at_restart : (restart 1500 tried).timers ≡ []
unfolding dispatch_event dispatch_to attempt_now deliver_with_retry try_post conclude
    is_safe_webhook_url is_private_address is_private_ipv4 split digits_value resume_pending_retries
lost_at_restart = refl

-- `::ffff:7f00:1` is 127.0.0.1.
mapped_loopback : Text
mapped_loopback =
    b':' ∷ b':' ∷ b'f' ∷ b'f' ∷ b'f' ∷ b'f' ∷ b':' ∷ b'7' ∷ b'f' ∷ b'0' ∷ b'0' ∷ b':' ∷ b'1' ∷ []

mapped_in_hex : is_private_ipv6 mapped_loopback ≡ false
unfolding mapped_loopback is_private_ipv6 is_private_ipv4 split digits_value same_text after_prefix
    to_lower_case
mapped_in_hex = refl
