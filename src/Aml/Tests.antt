-- ===== src/Aml/Tests.antt =====
-- Names, scores and alerts on concrete values, and the theorems at them. The texts are ASCII in lower
-- case, on which `nfd` and `lower` are the identity.
use cauripay.Common.{◌≤◌, ◌≡◌, ◌↔◌, ◌⊎◌, refl, true, none, some, List, [], ◌∷◌, All}
use cauripay.Rules.{TransactionType}
use cauripay.Aml.Names.{Text, levenshtein, inner, outer, count_from}
use cauripay.Aml.Distance.{distance, onto, levenshtein-distance}
use cauripay.Aml.Screen.{
  SanctionedEntity, SanctionList, Kind, screen, kind_of, expected_kind, screen-kind,
}
use cauripay.Aml.Score.{RiskInput, score, payment_points, score-alert}
use cauripay.Aml.Alerts.{FinancialEvent, Action, AmlStore, no_alert, created, analyze, act_on_alert}
use cauripay.Aml.Decisions.{Alarming, match_of, analyze_iff, Ignored, published-Ignored}

abbrev same : Text → Text
same t = t

abbrev kone : Text
kone = b'k' ∷ b'o' ∷ b'n' ∷ b'e' ∷ []

abbrev konee : Text
konee = b'k' ∷ b'o' ∷ b'n' ∷ b'e' ∷ b'e' ∷ []

abbrev entity : SanctionedEntity
entity = record { name = kone; country = none; list = SanctionList.gabac; aliases = [] }

abbrev lists : List SanctionedEntity
lists = entity ∷ []

three_edits : levenshtein kone konee ≡ 1
unfolding levenshtein inner outer count_from
three_edits = refl

levenshtein-distance_example : levenshtein kone konee ≡ distance (onto kone []) (onto konee [])
levenshtein-distance_example = levenshtein-distance kone konee

screen-kind_example : kind_of (screen same same lists konee) ≡ expected_kind same same lists konee
screen-kind_example = screen-kind same same lists konee

abbrev input : RiskInput
input = record {
  amount = some 50_000_000;
  type = TransactionType.p2p;
  country = none;
  today_count = 0;
  sanctions_hit = some Kind.fuzzy;
}

score-alert_example :
    ((score input).score ≤ 100)
    × (((score input).alert ≡ true) ↔ (
        (some Kind.fuzzy ≡ some Kind.exact)
        ⊎ ((some Kind.fuzzy ≡ some Kind.fuzzy) × (20 ≤ payment_points input))))
score-alert_example = score-alert input

abbrev event : FinancialEvent
event = record {
  transaction_id = 70;
  type = none;
  amount_minor = some 100;
  sender_name = some konee;
  recipient_name = some kone;
  wallet_ids = 21 ∷ [];
}

abbrev store : AmlStore
store = record { alerts = []; actions = []; published = [] }

analyze_iff_example :
    (((analyze same same lists 5 event store).0 ≡ created 5)
      ↔ Alarming event (match_of same same lists event))
    × (¬ Alarming event (match_of same same lists event)
        → analyze same same lists 5 event store ≡ (no_alert, store))
analyze_iff_example = analyze_iff same same lists 5 event store refl

published-Ignored_example :
    All Ignored (analyze same same lists 5 (record event { sender_name = none }) store).1.published
    × All Ignored (act_on_alert 5 Action.confirm kone none store).1.published
published-Ignored_example =
    published-Ignored same same lists 5 (record event { sender_name = none }) Action.confirm kone
      none store tt
