-- ===== src/Aml/Decisions.antt =====
-- services/aml-service/src/aml/aml.service.ts: which events raise an alert, what becomes of one, and
-- what api-core does with the messages.
use cauripay.Common.{
  ℕ, ◌≤◌, ◌<◌, ◌≡◌, ◌↔◌, ◌⊎◌, inl, inr, refl, sym, ap, ◌∙◌, Bool, true, false, ◌||◌, Option, none,
  some, List, [], ◌∷◌, arith, ltb, leb, if◌then◌else◌, length, Bool-cases, All, ◌++◌, suc,
}
use mathlib.Core.Bool.{true≢false}
use mathlib.Core.Path.{subst}
use cauripay.Common.Dict.{lookup, lookup-insert_self}
use cauripay.Rules.{trim}
use cauripay.ApiCore.World.{World}
use cauripay.Aml.Names.{Text}
use cauripay.Aml.Screen.{SanctionedEntity, Kind, Match, hit, screen}
use cauripay.Aml.Score.{RiskScore, score, payment_points, score-alert}
use cauripay.Aml.Alerts.{
  Json, FinancialEvent, Alert, Action, AmlStore, Analysis, no_alert, created, first_found,
  kind_found, is_exact, risk_input, raise_alert, alert_of, new_alert, alert_created, decide,
  screened, analyze, ActResult, updated, next_status, act_found, act_on_alert, comment_required,
  alert_not_found, alert_resolved, resolve, wallet_id_of, handle_aml_alert,
}

-- What a match and the payment need for an alert.
abbrev pub Alarming : FinancialEvent → Option Match → Type 0
Alarming event found =
    (kind_found found ≡ some Kind.exact)
    ⊎ ((kind_found found ≡ some Kind.fuzzy) × (20 ≤ payment_points (risk_input event found)))

abbrev is_created : Analysis → Bool
is_created (created id) = true
is_created _ = false

not_true : (b : Bool) → ¬ (b ≡ true) → b ≡ false
not_true true h = elim (h refl) [ ]
not_true false h = refl

or_exact :
    (k : Option Kind) (alert : Bool) (P : Type 0)
    → (alert ≡ true) ↔ ((k ≡ some Kind.exact) ⊎ ((k ≡ some Kind.fuzzy) × P))
    → ((alert || is_exact k) ≡ true) ↔ ((k ≡ some Kind.exact) ⊎ ((k ≡ some Kind.fuzzy) × P))
or_exact k true P h = (λ e. h.0 refl, λ x. refl)
or_exact none false P h = h
or_exact (some Kind.exact) false P h = (λ e. inl refl, λ x. refl)
or_exact (some Kind.fuzzy) false P h = h

alarm_iff :
    (event : FinancialEvent) (found : Option Match)
    → (((score (risk_input event found)).alert || is_exact (kind_found found)) ≡ true)
      ↔ Alarming event found
alarm_iff event found =
    or_exact (kind_found found) (score (risk_input event found)).alert
      (20 ≤ payment_points (risk_input event found)) (score-alert (risk_input event found)).1

decide-created :
    (b : Bool) (id : ℕ) (event : FinancialEvent) (critical : Bool) (s : RiskScore)
    (store : AmlStore)
    → alert_of event.transaction_id store ≡ none
    → (((decide b id event critical s store).0 ≡ created id) ↔ (b ≡ true))
      × ((b ≡ false) → decide b id event critical s store ≡ (no_alert, store))
decide-created true id event critical s store e =
    rw e ((λ x. refl, λ x. refl), λ x. elim (true≢false x) [ ])
decide-created false id event critical s store e = (
  (λ x. elim (true≢false (sym (ap is_created x))) [ ], λ x. elim (true≢false (sym x)) [ ]),
  λ x. refl,
)

-- The match that decides: the sender's, or else the recipient's.
abbrev pub match_of :
    (nfd lower : Text → Text) → List SanctionedEntity → FinancialEvent → Option Match
match_of nfd lower lists event =
    first_found (screened (screen nfd lower lists) event.sender_name)
      (screened (screen nfd lower lists) event.recipient_name)

-- An event whose transaction has no alert yet raises one exactly when the deciding match is exact,
-- or is fuzzy with at least twenty points of the payment; any other such event changes nothing.
pub analyze_iff :
    (nfd lower : Text → Text) (lists : List SanctionedEntity) (id : ℕ) (event : FinancialEvent)
    (store : AmlStore)
    → alert_of event.transaction_id store ≡ none
    → (((analyze nfd lower lists id event store).0 ≡ created id)
        ↔ Alarming event (match_of nfd lower lists event))
      × (¬ Alarming event (match_of nfd lower lists event)
          → analyze nfd lower lists id event store ≡ (no_alert, store))
unfolding analyze
analyze_iff nfd lower lists id event store e =
    let found = match_of nfd lower lists event in
    let s = score (risk_input event found) in
    let alarm = alarm_iff event found in
    let (made, quiet) =
      decide-created (s.alert || is_exact (kind_found found)) id event (is_exact (kind_found found))
        s store e in
    (
      (λ x. alarm.0 (made.0 x), λ x. made.1 (alarm.1 x)),
      λ calm. quiet (not_true _ (λ x. calm (alarm.0 x))),
    )

-- An exact match of the recipient is passed over when the sender has a fuzzy one: if the payment has
-- fewer than twenty points, and its transaction no alert yet, none is raised, nothing is published,
-- and the store stays as it was.
pub exact_recipient_missed :
    (nfd lower : Text → Text) (lists : List SanctionedEntity) (id : ℕ) (event : FinancialEvent)
    (store : AmlStore) (sender recipient : Text) (m n : Match)
    → alert_of event.transaction_id store ≡ none
    → event.sender_name ≡ some sender
    → event.recipient_name ≡ some recipient
    → screen nfd lower lists sender ≡ hit m
    → m.kind ≡ Kind.fuzzy
    → screen nfd lower lists recipient ≡ hit n
    → n.kind ≡ Kind.exact
    → payment_points (risk_input event (some m)) < 20
    → analyze nfd lower lists id event store ≡ (no_alert, store)
exact_recipient_missed nfd lower lists id event store sender recipient m n e es er hs ks hr kr low =
    (analyze_iff nfd lower lists id event store e).1 (λ alarm. calm m ks low (
      subst (Alarming event)
        (ap
            (λ o.
              first_found (screened (screen nfd lower lists) o)
                (screened (screen nfd lower lists) event.recipient_name))
            es
          ∙ ap (λ r. first_found r (screened (screen nfd lower lists) event.recipient_name)) hs)
        alarm))
  where
    calm :
        (m : Match)
        → m.kind ≡ Kind.fuzzy
        → payment_points (risk_input event (some m)) < 20
        → Alarming event (some m)
        → ⊥
    calm m k low (inl e) = elim (true≢false (ap is_exact (sym e ∙ ap some k))) [ ]
    calm m k low (inr (e, h)) = omega arith

-- A message that api-core passes over.
abbrev pub Ignored : Json → Type 0
Ignored message = (w : World) → handle_aml_alert message w ≡ w

no_wallet-Ignored : (message : Json) → wallet_id_of message ≡ none → Ignored message
unfolding handle_aml_alert
no_wallet-Ignored message e w = rw e refl

decide-Ignored :
    (b : Bool) (id : ℕ) (event : FinancialEvent) (critical : Bool) (s : RiskScore)
    (store : AmlStore)
    → All Ignored store.published
    → All Ignored (decide b id event critical s store).1.published
decide-Ignored false id event critical s store h = h
decide-Ignored true id event critical s store h =
    by_search (alert_of event.transaction_id store) (new_alert id event critical s) event.wallet_ids
      (critical || leb 85 s.score)
  where
    by_search :
        (o : Option Alert) (a : Alert) (wallets : List ℕ) (frozen : Bool)
        → All Ignored (raise_alert o a (alert_created a wallets frozen) store).1.published
    by_search (some old) a wallets frozen = h
    by_search none a wallets frozen = (no_wallet-Ignored (alert_created a wallets frozen) refl, h)

resolve-Ignored :
    (action : Action) (a : Alert) (store : AmlStore)
    → All Ignored store.published
    → All Ignored (resolve action a store).published
resolve-Ignored Action.review a store h = h
resolve-Ignored Action.confirm a store h =
    (no_wallet-Ignored (alert_resolved a.id a.transaction_id Action.confirm) refl, h)
resolve-Ignored Action.false_positive a store h =
    (no_wallet-Ignored (alert_resolved a.id a.transaction_id Action.false_positive) refl, h)

act-Ignored :
    (id : ℕ) (action : Action) (comment : Text) (actor : Option ℕ) (store : AmlStore)
    → All Ignored store.published
    → All Ignored (act_on_alert id action comment actor store).1.published
unfolding act_on_alert
act-Ignored id action comment actor store h =
    by_length (ltb (length (trim comment)) 5) (lookup id store.alerts)
  where
    by_length :
        (short : Bool) (o : Option Alert)
        → let r : ActResult × AmlStore =
            if short
            then (comment_required, store)
            else act_found o id action comment actor store in
          All Ignored r.1.published
    by_length true o = h
    by_length false none = h
    by_length false (some a) = resolve-Ignored action a _ h

-- Nothing that the alerts publish makes api-core freeze a wallet: if its consumer passes over every
-- message so far, it passes over every message after one more event and after one more decision,
-- those that name wallets and ask to freeze them included.
pub published-Ignored :
    (nfd lower : Text → Text) (lists : List SanctionedEntity) (id : ℕ) (event : FinancialEvent)
    (action : Action) (comment : Text) (actor : Option ℕ) (store : AmlStore)
    → All Ignored store.published
    → All Ignored (analyze nfd lower lists id event store).1.published
      × All Ignored (act_on_alert id action comment actor store).1.published
unfolding analyze
published-Ignored nfd lower lists id event action comment actor store h =
    let found = match_of nfd lower lists event in
    let s = score (risk_input event found) in
    (
      decide-Ignored (s.alert || is_exact (kind_found found)) id event (is_exact (kind_found found))
          s store h,
      act-Ignored id action comment actor store h,
    )

-- The message of a decision, which a review does not send.
abbrev pub decision_messages : Action → Alert → List Json
decision_messages Action.review a = []
decision_messages action a = alert_resolved a.id a.transaction_id action ∷ []

abbrev pub ActOutcome : ℕ → Action → Text → AmlStore → ActResult × AmlStore → Type 0
ActOutcome id action comment store (comment_required, v) = (length (trim comment) < 5) × (v ≡ store)
ActOutcome id action comment store (alert_not_found, v) =
    (5 ≤ length (trim comment)) × (lookup id store.alerts ≡ none) × (v ≡ store)
ActOutcome id action comment store (updated a, v) =
    (5 ≤ length (trim comment))
    × ((old : Alert) × (lookup id store.alerts ≡ some old)
        × (lookup id v.alerts ≡ some a)
        × (a.status ≡ next_status action)
        × (a.comment ≡ some (trim comment))
        × (a.risk_score ≡ old.risk_score)
        × (length v.actions ≡ suc (length store.actions))
        × (v.published ≡ decision_messages action old ++ store.published))

-- A decision needs a comment of five characters, spaces at its ends aside, and an alert that is
-- there. It then sets the status that it names, keeps the score, records the comment and one more
-- action, and, unless it is a review, publishes one message; otherwise nothing changes.
pub act_on_alert-outcome :
    (id : ℕ) (action : Action) (comment : Text) (actor : Option ℕ) (store : AmlStore)
    → ActOutcome id action comment store (act_on_alert id action comment actor store)
unfolding act_on_alert
act_on_alert-outcome id action comment actor store =
    elim (Bool-cases (ltb (length (trim comment)) 5)) [
      | inl short ↦ rw short (ground arith, refl)
      | inr long ↦ rw long (by_row action (lookup id store.alerts) refl (ground arith))
    ]
  where
    by_row :
        (action : Action) (o : Option Alert)
        → lookup id store.alerts ≡ o
        → 5 ≤ length (trim comment)
        → ActOutcome id action comment store (act_found o id action comment actor store)
    by_row action none e h = (h, e, refl)
    by_row Action.review (some old) e h =
        (h, (old, e, lookup-insert_self id _ store.alerts, refl, refl, refl, refl, refl))
    by_row Action.confirm (some old) e h =
        (h, (old, e, lookup-insert_self id _ store.alerts, refl, refl, refl, refl, refl))
    by_row Action.false_positive (some old) e h =
        (h, (old, e, lookup-insert_self id _ store.alerts, refl, refl, refl, refl, refl))
