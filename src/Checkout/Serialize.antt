-- ===== src/Checkout/Serialize.antt =====
-- legacy/server/src/payments.ts: the timeline of one payment (`paymentToJson`) and of a page of
-- payments at once (`paymentsToJsonMany`). The other columns are
-- passed on unchanged.
use cauripay.Common.{
  ℕ, ◌≡◌, refl, ◌∙◌, ap, sym, Bool, true, false, Option, none, some, List, [], ◌∷◌, ◌++◌, map,
  arith, ◌==◌, ==_iff, Bool-cases, inl, inr, if◌then◌else◌, any,
}
use mathlib.Core.Bool.{true≢false}
use cauripay.Common.Dict.{Dict, lookup, insert, lookup-insert}
use cauripay.Checkout.Store.{EventType, Payment, Event}

pub record TimelineEntry : Type 0 where
  pub type : EventType
  pub created_at : ℕ

abbrev entry : Event → TimelineEntry
entry e = record { type = e.type; created_at = e.created_at }

-- The events of one payment, oldest first; the table is given newest first.
unfoldable pub timeline : ℕ → List Event → List TimelineEntry
timeline id [] = []
timeline id (e ∷ older) =
    if e.payment_id == id then timeline id older ++ (entry e ∷ []) else timeline id older

abbrev pub payment_to_json : List Event → Payment → Payment × List TimelineEntry
payment_to_json events row = (row, timeline row.id events)

abbrev pub or_empty : Option (List TimelineEntry) → List TimelineEntry
or_empty none = []
or_empty (some es) = es

abbrev pub listed : ℕ → List ℕ → Bool
listed id ids = any (λ i. id == i) ids

-- `payment_id IN (…)`.
unfoldable pub selected : List ℕ → List Event → List Event
selected ids [] = []
selected ids (e ∷ older) =
    if listed e.payment_id ids then e ∷ selected ids older else selected ids older

-- The map that the loop over the events, oldest first, fills.
unfoldable pub by_payment : List Event → Dict (List TimelineEntry)
by_payment [] = []
by_payment (e ∷ older) =
    let m = by_payment older in
    insert e.payment_id (or_empty (lookup e.payment_id m) ++ (entry e ∷ [])) m

abbrev pub ids_of : List Payment → List ℕ
ids_of [] = []
ids_of (r ∷ rows) = r.id ∷ ids_of rows

abbrev pub with_timelines :
    Dict (List TimelineEntry) → List Payment → List (Payment × List TimelineEntry)
with_timelines m [] = []
with_timelines m (r ∷ rows) = (r, or_empty (lookup r.id m)) ∷ with_timelines m rows

unfoldable pub payments_to_json_many :
    List Event → List Payment → List (Payment × List TimelineEntry)
payments_to_json_many events rows = with_timelines (by_payment (selected (ids_of rows) events)) rows

-- One more event in the map is one more entry at the end of its payment's list.
by_payment-timeline :
    (id : ℕ) (events : List Event) → or_empty (lookup id (by_payment events)) ≡ timeline id events
unfolding by_payment timeline lookup
by_payment-timeline id [] = refl
by_payment-timeline id (e ∷ older) =
    rw
      (lookup-insert e.payment_id id
        (or_empty (lookup e.payment_id (by_payment older)) ++ (entry e ∷ [])) (by_payment older))
      (choose (by_payment-timeline id older) (e.payment_id == id) (==_iff e.payment_id id).0)
  where
    choose :
        or_empty (lookup id (by_payment older)) ≡ timeline id older
        → (b : Bool) → (b ≡ true → e.payment_id ≡ id)
        → or_empty (
            if b
            then some (or_empty (lookup e.payment_id (by_payment older)) ++ (entry e ∷ []))
            else lookup id (by_payment older))
          ≡ (if b then timeline id older ++ (entry e ∷ []) else timeline id older)
    choose ih true h =
        ap (λ k. or_empty (lookup k (by_payment older)) ++ (entry e ∷ [])) (h refl)
        ∙ ap (λ t. t ++ (entry e ∷ [])) ih
    choose ih false h = ih

unlisted : (a b : ℕ) (ids : List ℕ) → listed a ids ≡ false → listed b ids ≡ true → (a == b) ≡ false
unlisted a b ids out listed_b = elim (Bool-cases (a == b)) [
  | inl e ↦
      elim (true≢false (sym listed_b ∙ ap (λ k. listed k ids) (sym ((==_iff a b).0 e)) ∙ out)) [ ]
  | inr e ↦ e
]

-- Leaving out the events of other payments does not change a timeline.
timeline-selected :
    (id : ℕ) (ids : List ℕ) (events : List Event)
    → listed id ids ≡ true
    → timeline id (selected ids events) ≡ timeline id events
unfolding selected timeline
timeline-selected id ids [] h = refl
timeline-selected id ids (e ∷ older) h =
    choose (timeline-selected id ids older h) (listed e.payment_id ids)
      (λ out. unlisted e.payment_id id ids out h)
  where
    choose :
        timeline id (selected ids older) ≡ timeline id older
        → (b : Bool) → (b ≡ false → (e.payment_id == id) ≡ false)
        → timeline id (if b then e ∷ selected ids older else selected ids older)
          ≡ (if e.payment_id == id then timeline id older ++ (entry e ∷ []) else timeline id older)
    choose ih true out = ap (λ t. if e.payment_id == id then t ++ (entry e ∷ []) else t) ih
    choose ih false out = rw (out refl) ih

with_timelines-map :
    (ids : List ℕ) (events : List Event) (rows : List Payment)
    → ((r : Payment) → listed r.id (ids_of rows) ≡ true → listed r.id ids ≡ true)
    → with_timelines (by_payment (selected ids events)) rows ≡ map (payment_to_json events) rows
with_timelines-map ids events [] h = refl
with_timelines-map ids events (r ∷ rows) h =
    rw
      (
        by_payment-timeline r.id (selected ids events),
        timeline-selected r.id ids events (h r (ground arith)),
        with_timelines-map ids events rows (λ q e. h q (ground arith)),
      )
      refl

-- The batch gives each row the timeline that the row gets on its own, so a page of payments reads
-- the same as its payments one by one.
pub payments_to_json_many-map :
    (events : List Event) (rows : List Payment)
    → payments_to_json_many events rows ≡ map (payment_to_json events) rows
unfolding payments_to_json_many
payments_to_json_many-map events rows = with_timelines-map (ids_of rows) events rows (λ r e. e)
