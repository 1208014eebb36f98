-- ===== src/Lib.antt =====
-- CauriPay / GOURSI, a mobile-money platform: wallets and transactions (services/api-core), the
-- shared rules on fees and limits (packages/validation-rules), the anti-money-laundering service
-- (services/aml-service), the menus of *100# (services/ussd-service), the review of identity
-- documents (services/kyc-service), bulk payments (services/business-service), notifications
-- (services/notification-service), API keys and their quota (services/developer-gateway), the daily
-- reconciliation (services/reconciliation-service), and the payment page for merchants with its
-- webhooks (legacy/server). The services talk over HTTP and message queues: the menus and the
-- applications call api-core, which calls the ledger, a Java service that keeps the balances and
-- stands as a parameter here; the alerts reach api-core as messages, and the notices of the
-- kyc-service reach the notification-service in the same way.
--
-- How code becomes definitions. A handler is a function from its input and the state (the tables,
-- the Redis keys, what was published, the calls made to the ledger) to a result or a thrown error
-- and the new state; what was written before a throw stays written. The clock and the random
-- values of a request are its arguments. One request runs at a time, as each handler's writes are
-- looked at on their own; Kyc.Overlap alone runs two requests between each other's reads and
-- writes. What happens over time (timers, crons, retries) is a sequence of such steps.
-- Identifiers, phones used as keys and digests are natural numbers, since they are only compared.
-- Amounts are decimals with two digits in the source and natural numbers of hundredths here, but
-- for the reconciliation, whose sums of doubles are over an arithmetic that is a parameter. No
-- number wraps, since the source uses decimals and small doubles. Every loop of the source runs
-- over a list. The timers of a webhook are a step relation with no bound of its own; `redispatch`
-- of Notify.Dispatch runs the retries of one notification on fuel, of which four units are enough.
--
-- Common, with Common.Tests, Common.Lists, Common.Int, Common.Dict and Common.Text: Boolean tests,
--   lists, integers, association lists and texts.
-- Rules (packages/validation-rules/src/index.ts): calculate_fee is calculateFee, check_kyc_limit
--   is checkKycLimit, validate_phone_number is validatePhoneNumber. Proofs: Rules.Fees,
--   Rules.Limits.
-- ApiCore.World (services/api-core/prisma/schema.prisma): the tables and the state.
-- ApiCore.Status (services/api-core/src/transactions/transaction-state.ts): transition_result is
--   assertTransition; Step and Reach describe the state machine (ApiCore.Status.Steps).
-- ApiCore.Ledger (services/api-core/src/ledger-client/ledger-client.service.ts): request; the
--   parameter `serve` is what the ledger answers after a sequence of calls.
-- ApiCore.Auth (services/api-core/src/auth/auth.service.ts and password.util.ts): register, login,
--   send_otp, verify_otp, refresh, change_mpin. The parameter `scrypt` is the hash function, and
--   `Texts` gives the characters of what is stored as a number. Proofs: ApiCore.Auth.Login,
--   Lockout, Otp, Account.
-- ApiCore.Transactions (services/api-core/src/transactions/transactions.service.ts and
--   fees-limits.service.ts): transfer, cash_in, confirm_cash_in, cash_out, reverse. Proofs:
--   ApiCore.Transactions.Transfer, Cash, CashOut, Reverse, by the rules of ApiCore.Reason.
-- ApiCore.Calls (services/api-core/src/auth/auth.controller.ts, transactions/
--   transactions.controller.ts): the requests of both services, one after the other; `sends` tells
--   which of them may send a code. ApiCore.Calls.Keeps lists what the handlers write as closure
--   conditions; Handlers, Payments and CashIns prove that each request keeps a property that is
--   closed under them, and Runs lifts this to every run. Once, Codes, CashOuts, LockedRows and Lock
--   apply it.
-- Checkout.Store, Payments, Pages, Serialize, Listing (legacy/server/src: payments.ts,
--   registries.ts, throttle.ts, routes/checkout.ts, routes/payments.ts, isValidPhone of util.ts):
--   create_payment, transition, initiate, confirm, the timer `fire`, and the throttle of wrong PINs.
--   Proofs: Checkout.Journal and Timeline (runs of the server), Serialize, Attempts, Creation,
--   Cursor.
-- Aml.Names, Screen, Score, Alerts (services/aml-service/src: screening/list-screener.service.ts,
--   scoring/risk-scorer.service.ts, aml/aml.service.ts; services/api-core/src/amq/
--   aml-consumer.service.ts): screen, score, analyze, act_on_alert, handle_aml_alert. The
--   parameters `nfd` and `lower` are the Unicode tables of the runtime. Proofs: Aml.Distance,
--   Screen, Score, Decisions.
-- Ussd.Menu, Session (services/ussd-service/src: menus/menu-tree.ts, ussd/ussd.service.ts,
--   session/session-store.service.ts): render_menu and handle. The parameter `inherited` tells the
--   names of Object.prototype, `serve` is what api-core answers. Proofs: Ussd.Invariant, Language.
-- Webhooks.Url (legacy/server/src/util.ts): is_safe_webhook_url is isSafeWebhookUrl, with
--   isPrivateIPv4, isPrivateIPv6 and isPrivateAddress under the same names; `Dns` holds the URL
--   parser, isIP and the resolver. Proofs: Webhooks.Guarded, Ranges.
-- Webhooks (legacy/server/src/webhooks.ts): dispatch_event, deliver_with_retry, replay_last_event,
--   send_test_ping, resume_pending_retries; `Net` holds the receivers,
--   and all that a call of `fetch` does after it is made. Proofs: Webhooks.Timers,
--   Delivery, Settlement (the timers), Requests (what is handed to fetch), Restart.
-- Kyc (services/kyc-service/src/kyc/kyc.service.ts, amq/kyc-events.publisher.ts): submit_kyc,
--   approve_kyc, reject_kyc, queue, get_by_id. Proofs: Kyc.Review, Overlap, Queue.
-- Bulk (services/business-service/src/bulk/bulk.service.ts): upload, submit, approve, reject,
--   execute, export_csv, validate_line. Proofs: Bulk.Lines, Workflow, Moves.
-- Notify (services/notification-service/src: notifications/dispatch.service.ts, backoff.service.ts,
--   retry-cron.service.ts, notifications.service.ts, amq/notification-consumer.service.ts):
--   handle_message, dispatch_notification, retry_due_notifications, send_test; `Channels` holds the
--   adapters. Proofs: Notify.Dispatch, Batch, Keys, Tries.
-- Gateway (services/developer-gateway/src/rate-limit/rate-limit.service.ts): consume. Proofs:
--   Gateway.Quota.
-- Gateway.ApiKeys (services/developer-gateway/src/api-keys/api-keys.service.ts): create, revoke,
--   rotate, authenticate. Proofs: Gateway.Revocation.
-- Reconcile (services/reconciliation-service/src/reconciliation/reconciliation.service.ts):
--   generate, get, over the parameter `Numbers`; IsExact says which integer operations on doubles
--   are exact. Proofs: Reconcile.Totals.
--
-- Not modelled: the HTTP layer (controllers, guards, DTO decorators, filters), JWT, AMQP and
-- database connections, cryptography, the texts of messages, the SVG receipt and the HTML pages;
-- the Java ledger; the merchant and API-key routes of legacy/server; the routing of payments, the
-- merchants and the webhooks of business-service; the sandbox and the webhooks of
-- developer-gateway; the older in-memory notification.service.ts and the channel adapters; the
-- exports of the reconciliation; the web applications and the SDKs.
pub mod Aml
pub mod ApiCore
pub mod Bulk
pub mod Checkout
pub mod Common
pub mod Gateway
pub mod Kyc
pub mod Notify
pub mod Reconcile
pub mod Rules
pub mod Ussd
pub mod Webhooks
