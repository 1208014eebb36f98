-- ===== src/Ussd/Session.antt =====
-- services/ussd-service/src/ussd/ussd.service.ts and session/session-store.service.ts: one call of the
-- operator's gateway. Times are milliseconds; the session keys of Redis are maps to entries that
-- expire. The parameters are the names of `Object.prototype` and what api-core answers to a call
-- after the calls made before.
use cauripay.Common.{
  ℕ, ◌+◌, Bool, true, false, Option, none, some, List, ◌∷◌, leb, if◌then◌else◌, is_some,
}
use cauripay.Rules.{trim}
use cauripay.ApiCore.World.{Entry, live}
use cauripay.ApiCore.Auth.{put}
use cauripay.Ussd.Menu.{
  Text, Lang, ActionType, StepId, MenuData, no_data, Screen, RenderResult, key, lang_choice,
  render_menu, or_empty,
}

-- Three minutes, and a day.
abbrev pub session_ttl : ℕ
session_ttl = 180_000

abbrev pub seen_ttl : ℕ
seen_ttl = 86_400_000

pub record UssdSession : Type 0 where
  pub msisdn : Text
  pub step : StepId
  pub lang : Option Lang
  pub data_so_far : MenuData

-- The idempotency key of a transfer is the number and the time.
pub data ApiCall : Type 0 where
  get_balance : (msisdn : Text) → ApiCall
  transfer : (msisdn : Text) (now : ℕ) (recipient amount : Text) → ApiCall

pub data ErrorCode : Type 0 where
  recipient_not_found kyc_limit_exceeded wallet_inactive insufficient other_code : ErrorCode

pub data ApiReply : Type 0 where
  balance_of : Text → ApiReply
  reference : Text → ApiReply
  refused : (status : ℕ) (code : ErrorCode) → ApiReply

-- The last text of a session. `insufficient` stands for the codes that begin with INSUFFICIENT.
pub data Final : Type 0 where
  balance_label : Text → Final
  transfer_success : (amount recipient ref : Text) → Final
  bill_success : (amount provider : Text) → Final
  withdraw_success service_unavailable recipient_unknown limit_exceeded : Final
  account_inactive insufficient_funds operation_failed : Final

pub data Response : Type 0 where
  screen : Lang → Screen → (invalid : Bool) → Response
  final : Lang → Final → Response
  session_expired internal_error : Response

pub record Store : Type 0 where
  pub sessions : ℕ → Option (Entry UssdSession)
  pub seen : ℕ → Option (Entry (Unit {0}))
  pub calls : List ApiCall

abbrev pub map_error : ℕ → ErrorCode → Final
map_error status recipient_not_found = recipient_unknown
map_error status kyc_limit_exceeded = limit_exceeded
map_error status wallet_inactive = account_inactive
map_error status insufficient = insufficient_funds
map_error status other_code = if leb 500 status then service_unavailable else operation_failed

abbrev pub balance_text : ApiReply → Final
balance_text (balance_of t) = balance_label t
balance_text (reference t) = balance_label t
balance_text (refused status code) = map_error status code

abbrev pub transfer_text : Text → Text → ApiReply → Final
transfer_text amount recipient (balance_of t) = transfer_success amount recipient t
transfer_text amount recipient (reference t) = transfer_success amount recipient t
transfer_text amount recipient (refused status code) = map_error status code

abbrev pub newer : Option Text → Option Text → Option Text
newer none old = old
newer (some t) old = some t

-- `{ ...data, ...update }`.
abbrev pub merge : MenuData → MenuData → MenuData
merge d u = record {
  recipient = newer u.recipient d.recipient;
  amount = newer u.amount d.amount;
  provider = newer u.provider d.provider;
  otp = newer u.otp d.otp;
}

-- The stored language, or what the first input chooses, or French.
abbrev pub lang_of : Option Lang → Option Lang → Lang
lang_of (some l) choice = l
lang_of none (some l) = l
lang_of none none = Lang.fr

-- The menu that answers a choice at the root is in the chosen language already.
abbrev pub shown_lang : StepId → Option Lang → Lang → Lang
shown_lang StepId.root (some choice) lang = choice
shown_lang _ choice lang = lang

abbrev pub remember : ℕ → ℕ → UssdSession → Store → Store
remember now id session w = record w {
  sessions =
      put id (some (record { value = session; expires_at = some (now + session_ttl) })) w.sessions;
  seen = put id (some (record { value = tt; expires_at = some (now + seen_ttl) })) w.seen;
}

abbrev pub forget : ℕ → Store → Store
forget id w = record w { sessions = put id none w.sessions }

module _ (inherited : Text → Bool) (serve : List ApiCall → ApiCall → ApiReply) where
  abbrev pub call_api : ApiCall → Store → ApiReply × Store
  call_api c w = (serve w.calls c, record w { calls = c ∷ w.calls })

  abbrev pub execute_action : ℕ → ActionType → UssdSession → Store → Final × Store
  execute_action now ActionType.balance session w =
      let (r, v) = call_api (get_balance session.msisdn) w in (balance_text r, v)
  execute_action now ActionType.transfer session w =
      let amount = or_empty session.data_so_far.amount in
      let recipient = or_empty session.data_so_far.recipient in
      let (r, v) = call_api (transfer session.msisdn now recipient amount) w in
      (transfer_text amount recipient r, v)
  execute_action now ActionType.bill session w = (
    bill_success (or_empty session.data_so_far.amount) (or_empty session.data_so_far.provider),
    w,
  )
  execute_action now ActionType.withdraw session w = (withdraw_success, w)

  -- What follows the navigation: the session is stored, and at the end the action runs.
  abbrev pub conclude :
      ℕ → ℕ → Lang → UssdSession → RenderResult → Option ActionType → Store → Response × Store
  conclude now id lang session r none w =
      (screen lang r.screen r.invalid, remember now id session w)
  conclude now id lang session r (some action) w =
      let (text, v) = execute_action now action session (remember now id session w) in
      (final lang text, forget id v)

  abbrev pub next_session : Text → Lang → UssdSession → RenderResult → UssdSession
  next_session msisdn lang session r = record {
    msisdn = msisdn;
    step = r.step;
    lang = some lang;
    data_so_far = merge session.data_so_far r.data_update;
  }

  abbrev pub navigate :
      ℕ → ℕ → Text → Lang → Lang → UssdSession → Option RenderResult → Store → Response × Store
  navigate now id msisdn lang shown session none w = (internal_error, w)
  navigate now id msisdn lang shown session (some r) w =
      conclude now id shown (next_session msisdn lang session r) r r.action w

  abbrev pub continue_with : ℕ → ℕ → Text → Text → UssdSession → Store → Response × Store
  continue_with now id msisdn input session w =
      let choice = lang_choice (key (trim input)) in
      let lang = lang_of session.lang choice in
      navigate now id msisdn lang (shown_lang session.step choice lang) session
        (render_menu inherited session.step (trim input) session.data_so_far) w

  abbrev pub fresh_session : Text → UssdSession
  fresh_session msisdn = record {
    msisdn = msisdn;
    step = StepId.root;
    lang = none;
    data_so_far = no_data;
  }

  abbrev pub open_session :
      ℕ → ℕ → Text → Text → Option UssdSession → Bool → Store → Response × Store
  open_session now id msisdn input (some session) seen w =
      continue_with now id msisdn input session w
  open_session now id msisdn input none true w = (session_expired, w)
  open_session now id msisdn input none false w =
      continue_with now id msisdn input (fresh_session msisdn) w

  unfoldable pub handle : ℕ → ℕ → Text → Text → Store → Response × Store
  handle now id msisdn input w =
      open_session now id msisdn input (live now (w.sessions id)) (is_some (live now (w.seen id))) w
