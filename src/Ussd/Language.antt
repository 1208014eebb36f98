-- ===== src/Ussd/Language.antt =====
-- services/ussd-service/src/ussd/ussd.service.ts: the language of a session.
use cauripay.Common.{
  ℕ, ◌+◌, ◌<◌, ◌≡◌, refl, ap, ◌∙◌, Bool, true, Option, none, some, List, arith, ltb, ==_self,
}
use cauripay.Rules.{trim}
use cauripay.ApiCore.World.{Entry, live}
use cauripay.Ussd.Menu.{
  Text, Lang, StepId, Key, empty, one, two, three, four, french, arabic, other, key, root_result,
  render_menu, lang_choice, no_data,
}
use cauripay.Ussd.Session.{
  UssdSession, ApiCall, ApiReply, Store, session_ttl, handle, continue_with, remember, next_session,
  lang_of, conclude, shown_lang,
}

abbrev pub lang_stored : Option (Entry UssdSession) → Option Lang
lang_stored none = none
lang_stored (some e) = e.value.lang

module _ (inherited : Text → Bool) (serve : List ApiCall → ApiCall → ApiReply) where
  remembered_lang :
      (now id : ℕ) (s : UssdSession) (w : Store)
      → lang_stored ((remember now id s w).sessions id) ≡ s.lang
  remembered_lang now id s w = rw (==_self id) refl

  -- A call at the root stores a session, in the language that it had or got.
  root_call :
      (now id : ℕ) (msisdn input : Text) (s : UssdSession) (w : Store)
      → s.step ≡ StepId.root
      → lang_stored ((continue_with inherited serve now id msisdn input s w).1.sessions id)
        ≡ some (lang_of s.lang (lang_choice (key (trim input))))
  unfolding render_menu
  root_call now id msisdn input s w e = rw e (
      by_key (key (trim input)) (lang_of s.lang (lang_choice (key (trim input)))) (
        shown_lang StepId.root (lang_choice (key (trim input)))
          (lang_of s.lang (lang_choice (key (trim input))))))
    where
      by_key :
          (k : Key) (lang shown : Lang)
          → let s' =
              next_session inherited serve msisdn lang
                (record s { step = StepId.root })
                (root_result k) in
            lang_stored (
              (conclude inherited serve now id shown s'
                  (root_result k)
                  (root_result k).action
                  w).1.sessions
                id)
            ≡ some lang
      by_key empty lang shown = remembered_lang now id _ w
      by_key one lang shown = remembered_lang now id _ w
      by_key two lang shown = remembered_lang now id _ w
      by_key three lang shown = remembered_lang now id _ w
      by_key four lang shown = remembered_lang now id _ w
      by_key french lang shown = remembered_lang now id _ w
      by_key arabic lang shown = remembered_lang now id _ w
      by_key other lang shown = remembered_lang now id _ w

  abbrev blank_session : Text → UssdSession
  blank_session msisdn = record {
    msisdn = msisdn;
    step = StepId.root;
    lang = some Lang.fr;
    data_so_far = no_data;
  }

  first_call :
      (now id : ℕ) (msisdn blank : Text) (w : Store)
      → live now (w.sessions id) ≡ none
      → live now (w.seen id) ≡ none
      → key (trim blank) ≡ empty
      → (handle inherited serve now id msisdn blank w).1 ≡ remember now id (blank_session msisdn) w
  unfolding handle render_menu
  first_call now id msisdn blank w e e' k = rw (e, e', k) refl

  live_again :
      (now later id : ℕ) (s : UssdSession) (w : Store)
      → later < now + session_ttl
      → live later ((remember now id s w).sessions id) ≡ some s
  live_again now later id s w h =
      let t : ltb later (now + session_ttl) ≡ true = ground arith in rw (==_self id, t) refl

  -- The gateway's first call of a session, which has no input, already stores French: whatever the
  -- customer then answers to the choice of the language, Arabic included, the session stays French.
  pub french_after_empty :
      (now later id : ℕ) (msisdn blank input : Text) (w : Store)
      → live now (w.sessions id) ≡ none
      → live now (w.seen id) ≡ none
      → key (trim blank) ≡ empty
      → later < now + session_ttl
      → lang_stored (
          (handle inherited serve later id msisdn input
              (handle inherited serve now id msisdn blank w).1).1.sessions
            id)
        ≡ some Lang.fr
  unfolding handle
  french_after_empty now later id msisdn blank input w e e' k h =
      let v = remember now id (blank_session msisdn) w in
      let first = first_call now id msisdn blank w e e' k in
      let again = live_again now later id (blank_session msisdn) w h in
      ap (λ u. lang_stored ((handle inherited serve later id msisdn input u).1.sessions id)) first
      ∙ second v again
    where
      second :
          (v : Store)
          → live later (v.sessions id) ≡ some (blank_session msisdn)
          → lang_stored ((handle inherited serve later id msisdn input v).1.sessions id)
            ≡ some Lang.fr
      second v again = rw again (root_call later id msisdn input (blank_session msisdn) v refl)
