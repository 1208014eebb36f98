-- ===== src/Ussd/Invariant.antt =====
-- services/ussd-service/src: what a stored session holds at each step, and what therefore reaches
-- api-core.
use mathlib.Core.Path.{subst}
use cauripay.Common.{
  ℕ, ◌≡◌, refl, Bool, true, false, Option, none, some, List, [], ◌∷◌, ltb, ◌==◌, if◌then◌else◌,
  is_some, All,
}
use cauripay.Rules.{trim}
use cauripay.ApiCore.World.{Entry, live}
use cauripay.ApiCore.Auth.{put}
use cauripay.Ussd.Menu.{
  Text, ActionType, StepId, MenuData, Screen, RenderResult, Key, empty, one, two, three, four,
  french, arabic, other, key, phone_re, amount_re, otp_re, typed, root_result, main_result,
  confirm_result, provider_result, provider_label, render_menu, or_empty, lang_choice, Lang,
}
use cauripay.Ussd.Session.{
  UssdSession, ApiCall, get_balance, transfer, ApiReply, Store, merge, remember, execute_action,
  conclude, next_session, navigate, continue_with, fresh_session, open_session, handle, lang_of,
  shown_lang,
}

abbrev pub Holds : (Text → Bool) → Option Text → Type 0
Holds test none = ⊥
Holds test (some t) = test t ≡ true

abbrev pub any_text : Text → Bool
any_text t = true

-- What has been typed and checked before a step is reached.
abbrev pub SessionOk : StepId → MenuData → Type 0
SessionOk StepId.transfer_amount d = Holds phone_re d.recipient
SessionOk StepId.transfer_confirm d = Holds phone_re d.recipient × Holds amount_re d.amount
SessionOk StepId.bill_amount d = Holds any_text d.provider
SessionOk StepId.bill_confirm d = Holds any_text d.provider × Holds amount_re d.amount
SessionOk StepId.withdraw_confirm d = Holds otp_re d.otp
SessionOk _ d = Unit

-- A transfer is run at its confirmation only.
abbrev ActionOk : StepId → Option ActionType → Type 0
ActionOk step (some ActionType.transfer) = step ≡ StepId.transfer_confirm
ActionOk step _ = Unit

abbrev ResultOk : MenuData → Option RenderResult → Type 0
ResultOk d none = Unit
ResultOk d (some r) = SessionOk r.step (merge d r.data_update) × ActionOk r.step r.action

typed-ResultOk :
    (d : MenuData) (b : Bool) (x y : RenderResult)
    → (b ≡ true → ResultOk d (some x))
    → ResultOk d (some y)
    → ResultOk d (some (typed b x y))
typed-ResultOk d true x y f h = f refl
typed-ResultOk d false x y f h = h

root-ResultOk : (d : MenuData) (k : Key) → ResultOk d (some (root_result k))
root-ResultOk d empty = (tt, tt)
root-ResultOk d one = (tt, tt)
root-ResultOk d two = (tt, tt)
root-ResultOk d three = (tt, tt)
root-ResultOk d four = (tt, tt)
root-ResultOk d french = (tt, tt)
root-ResultOk d arabic = (tt, tt)
root-ResultOk d other = (tt, tt)

main-ResultOk : (d : MenuData) (k : Key) → ResultOk d (some (main_result k))
main-ResultOk d empty = (tt, tt)
main-ResultOk d one = (tt, tt)
main-ResultOk d two = (tt, tt)
main-ResultOk d three = (tt, tt)
main-ResultOk d four = (tt, tt)
main-ResultOk d french = (tt, tt)
main-ResultOk d arabic = (tt, tt)
main-ResultOk d other = (tt, tt)

confirm-ResultOk :
    (d : MenuData) (step : StepId) (action : ActionType) (screen : Screen) (k : Key)
    → SessionOk step d
    → ActionOk step (some action)
    → ResultOk d (some (confirm_result step action screen k))
confirm-ResultOk d step action screen one h a = (h, a)
confirm-ResultOk d step action screen two h a = (tt, tt)
confirm-ResultOk d step action screen empty h a = (h, tt)
confirm-ResultOk d step action screen three h a = (h, tt)
confirm-ResultOk d step action screen four h a = (h, tt)
confirm-ResultOk d step action screen french h a = (h, tt)
confirm-ResultOk d step action screen arabic h a = (h, tt)
confirm-ResultOk d step action screen other h a = (h, tt)

provider-ResultOk :
    (d : MenuData) (inherited : Bool) (label : Option Text)
    → ResultOk d (provider_result inherited label)
provider-ResultOk d inherited (some label) = (refl, tt)
provider-ResultOk d true none = tt
provider-ResultOk d false none = (tt, tt)

render_menu-ResultOk :
    (inherited : Text → Bool) (step : StepId) (raw : Text) (d : MenuData)
    → SessionOk step d
    → ResultOk d (render_menu inherited step raw d)
unfolding render_menu
render_menu-ResultOk inherited StepId.root raw d h = root-ResultOk d (key raw)
render_menu-ResultOk inherited StepId.main raw d h = main-ResultOk d (key raw)
render_menu-ResultOk inherited StepId.transfer_recipient raw d h =
    typed-ResultOk d (phone_re raw) _ _ (λ e. (e, tt)) (tt, tt)
render_menu-ResultOk inherited StepId.transfer_amount raw d h =
    typed-ResultOk d (amount_re raw) _ _ (λ e. ((h, e), tt)) (h, tt)
render_menu-ResultOk inherited StepId.transfer_confirm raw d h =
    confirm-ResultOk d StepId.transfer_confirm ActionType.transfer _ (key raw) h refl
render_menu-ResultOk inherited StepId.bill_provider raw d h =
    provider-ResultOk d (inherited raw) (provider_label (key raw))
render_menu-ResultOk inherited StepId.bill_amount raw d h =
    typed-ResultOk d (amount_re raw) _ _ (λ e. ((h, e), tt)) (h, tt)
render_menu-ResultOk inherited StepId.bill_confirm raw d h =
    confirm-ResultOk d StepId.bill_confirm ActionType.bill _ (key raw) h tt
render_menu-ResultOk inherited StepId.withdraw_otp raw d h =
    typed-ResultOk d (otp_re raw) _ _ (λ e. (e, tt)) (tt, tt)
render_menu-ResultOk inherited StepId.withdraw_confirm raw d h =
    confirm-ResultOk d StepId.withdraw_confirm ActionType.withdraw _ (key raw) h tt

abbrev pub EntryOk : Option (Entry UssdSession) → Type 0
EntryOk none = Unit
EntryOk (some e) = SessionOk e.value.step e.value.data_so_far

-- A transfer that was asked for has a phone number and an amount of the right form.
abbrev pub CallOk : ApiCall → Type 0
CallOk (get_balance msisdn) = Unit
CallOk (transfer msisdn now recipient amount) =
    (phone_re recipient ≡ true) × (amount_re amount ≡ true)

abbrev pub StoreOk : Store → Type 0
StoreOk w = ((id : ℕ) → EntryOk (w.sessions id)) × All CallOk w.calls

put-EntryOk :
    (id : ℕ) (o : Option (Entry UssdSession)) (f : ℕ → Option (Entry UssdSession))
    → EntryOk o
    → ((j : ℕ) → EntryOk (f j))
    → (j : ℕ) → EntryOk (put id o f j)
put-EntryOk id o f h hs j = by_test (id == j)
  where
    by_test : (b : Bool) → EntryOk (if b then o else f j)
    by_test true = h
    by_test false = hs j

abbrev StoredOk : Option UssdSession → Type 0
StoredOk none = Unit
StoredOk (some s) = SessionOk s.step s.data_so_far

live-StoredOk : (now : ℕ) (o : Option (Entry UssdSession)) → EntryOk o → StoredOk (live now o)
live-StoredOk now none h = tt
live-StoredOk now (some x) h = by_expiry x.expires_at
  where
    by_test : (b : Bool) → StoredOk (if b then some x.value else none)
    by_test true = h
    by_test false = tt

    by_expiry :
        (t : Option ℕ)
        → StoredOk
            (elim t [ none ↦ some x.value | some t ↦ if ltb now t then some x.value else none ])
    by_expiry none = h
    by_expiry (some t) = by_test (ltb now t)

module _ (inherited : Text → Bool) (serve : List ApiCall → ApiCall → ApiReply) where
  execute_action-CallOk :
      (now : ℕ) (action : ActionType) (s : UssdSession) (w : Store)
      → SessionOk s.step s.data_so_far
      → ActionOk s.step (some action)
      → All CallOk w.calls
      → All CallOk (execute_action inherited serve now action s w).1.calls
  execute_action-CallOk now ActionType.balance s w h a c = (tt, c)
  execute_action-CallOk now ActionType.transfer s w h a c =
      (typed_texts s.data_so_far (subst (λ x. SessionOk x s.data_so_far) a h), c)
    where
      typed_texts :
          (d : MenuData)
          → SessionOk StepId.transfer_confirm d
          → CallOk (transfer s.msisdn now (or_empty d.recipient) (or_empty d.amount))
      typed_texts d h = checked d.recipient d.amount h
        where
          checked :
              (r a : Option Text)
              → Holds phone_re r × Holds amount_re a
              → CallOk (transfer s.msisdn now (or_empty r) (or_empty a))
          checked (some r) (some a) h = h
          checked none a h = elim h.0 [ ]
          checked (some r) none h = elim h.1 [ ]
  execute_action-CallOk now ActionType.bill s w h a c = c
  execute_action-CallOk now ActionType.withdraw s w h a c = c

  execute_action-EntryOk :
      (now : ℕ) (action : ActionType) (s : UssdSession) (w : Store)
      → ((j : ℕ) → EntryOk (w.sessions j))
      → (j : ℕ) → EntryOk ((execute_action inherited serve now action s w).1.sessions j)
  execute_action-EntryOk now ActionType.balance s w hs = hs
  execute_action-EntryOk now ActionType.transfer s w hs = hs
  execute_action-EntryOk now ActionType.bill s w hs = hs
  execute_action-EntryOk now ActionType.withdraw s w hs = hs

  remember-StoreOk :
      (now id : ℕ) (s : UssdSession) (w : Store)
      → SessionOk s.step s.data_so_far
      → StoreOk w
      → StoreOk (remember now id s w)
  remember-StoreOk now id s w h (hs, c) = (put-EntryOk id _ w.sessions h hs, c)

  conclude-StoreOk :
      (now id : ℕ) (lang : Lang) (s : UssdSession) (r : RenderResult) (a : Option ActionType)
      (w : Store)
      → SessionOk s.step s.data_so_far
      → ActionOk s.step a
      → StoreOk w
      → StoreOk (conclude inherited serve now id lang s r a w).1
  conclude-StoreOk now id lang s r none w h a k = remember-StoreOk now id s w h k
  conclude-StoreOk now id lang s r (some action) w h a k =
      let (hs, c) = remember-StoreOk now id s w h k in
      let v = remember now id s w in
      (
        put-EntryOk id none (execute_action inherited serve now action s v).1.sessions tt
            (execute_action-EntryOk now action s v hs),
        execute_action-CallOk now action s v h a c,
      )

  continue-StoreOk :
      (now id : ℕ) (msisdn input : Text) (s : UssdSession) (w : Store)
      → SessionOk s.step s.data_so_far
      → StoreOk w
      → StoreOk (continue_with inherited serve now id msisdn input s w).1
  continue-StoreOk now id msisdn input s w h k =
      by_result (render_menu inherited s.step (trim input) s.data_so_far)
        (render_menu-ResultOk inherited s.step (trim input) s.data_so_far h)
        (lang_of s.lang (lang_choice (key (trim input))))
        (shown_lang s.step (lang_choice (key (trim input)))
          (lang_of s.lang (lang_choice (key (trim input)))))
    where
      by_result :
          (o : Option RenderResult)
          → ResultOk s.data_so_far o
          → (lang shown : Lang)
          → StoreOk (navigate inherited serve now id msisdn lang shown s o w).1
      by_result none g lang shown = k
      by_result (some r) (g, a) lang shown =
          conclude-StoreOk now id shown (next_session inherited serve msisdn lang s r) r r.action w
            g a k

  handle-StoreOk :
      (now id : ℕ) (msisdn input : Text) (w : Store)
      → StoreOk w
      → StoreOk (handle inherited serve now id msisdn input w).1
  unfolding handle
  handle-StoreOk now id msisdn input w k =
      opened (live now (w.sessions id)) (is_some (live now (w.seen id)))
        (live-StoredOk now (w.sessions id) (k.0 id))
    where
      opened :
          (o : Option UssdSession) (b : Bool)
          → StoredOk o
          → StoreOk (open_session inherited serve now id msisdn input o b w).1
      opened (some s) b h = continue-StoreOk now id msisdn input s w h k
      opened none true h = k
      opened none false h =
          continue-StoreOk now id msisdn input (fresh_session inherited serve msisdn) w tt k

-- The gateway's calls, in their order.
pub record Input : Type 0 where
  pub now : ℕ
  pub session_id : ℕ
  pub msisdn : Text
  pub input : Text

unfoldable pub run :
    (Text → Bool) → (List ApiCall → ApiCall → ApiReply) → List Input → Store → Store
run inherited serve [] w = w
run inherited serve (i ∷ is) w =
    run inherited serve is (handle inherited serve i.now i.session_id i.msisdn i.input w).1

abbrev pub empty_store : Store
empty_store = record { sessions = λ _. none; seen = λ _. none; calls = [] }

run-StoreOk :
    (inherited : Text → Bool) (serve : List ApiCall → ApiCall → ApiReply) (is : List Input)
    (w : Store)
    → StoreOk w
    → StoreOk (run inherited serve is w)
unfolding run
run-StoreOk inherited serve [] w k = k
run-StoreOk inherited serve (i ∷ is) w k =
    run-StoreOk inherited serve is _
      (handle-StoreOk inherited serve i.now i.session_id i.msisdn i.input w k)

-- Whatever is typed in whatever sessions, and whatever api-core answers: every transfer that is asked
-- of api-core has a phone number and an amount that passed their tests, and every stored session
-- holds what its step needs.
pub run_calls-CallOk :
    (inherited : Text → Bool) (serve : List ApiCall → ApiCall → ApiReply) (is : List Input)
    → All CallOk (run inherited serve is empty_store).calls
      × ((id : ℕ) → EntryOk ((run inherited serve is empty_store).sessions id))
run_calls-CallOk inherited serve is =
    let k = run-StoreOk inherited serve is empty_store ((λ id. tt), tt) in (k.1, k.0)
