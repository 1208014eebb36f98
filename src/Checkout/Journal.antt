-- ===== src/Checkout/Journal.antt =====
-- legacy/server/src/payments.ts: a move and a creation write a payment together with its event.
use cauripay.Common.{
  ℕ, ◌≡◌, refl, sym, ap, ◌∙◌, Bool, false, true, Option, none, some, List, [], ◌∷◌, arith, ◌==◌,
  ==_iff, if◌then◌else◌,
}
use mathlib.Core.Path.{subst}
use mathlib.Core.Bool.{true≢false}
use cauripay.Common.Dict.{lookup, lookup-insert}
use cauripay.Checkout.Store.{
  Status, EventType, transitions, is_terminal, Payment, Reason, Event, Store,
}
use cauripay.Checkout.Payments.{
  emit, save_payment, moved, move_row, transition_found, owned, get_payment, TransitionExtra,
  transition, insert_payment,
}

-- The event types of a payment, newest first.
abbrev pub history : ℕ → List Event → List EventType
history id [] = []
history id (e ∷ es) = if e.payment_id == id then e.type ∷ history id es else history id es

-- The status that a history leads to, each event being the step of the state machine it names.
pub data Trail : List EventType → Status → Type 0 where
  begin : Trail (EventType.created ∷ []) Status.pending
  go :
      {h : List EventType} {s t : Status} {e : EventType}
      → Trail h s
      → transitions s t ≡ some e
      → Trail (e ∷ h) t

abbrev pub Fits : ℕ → Option Payment → List EventType → Type 0
Fits id none h = h ≡ []
Fits id (some p) h = (p.id ≡ id) × Trail h p.status

abbrev pub Journal : Store → Type 0
Journal s = (id : ℕ) → Fits id (lookup id s.payments) (history id s.events)

fits_if :
    (b : Bool) (id : ℕ) (p : Payment) (type : EventType) (o : Option Payment) (h : List EventType)
    → (b ≡ true → Fits id (some p) (type ∷ h))
    → Fits id o h
    → Fits id (if b then some p else o) (if b then type ∷ h else h)
fits_if true id p type o h new old = new refl
fits_if false id p type o h new old = old

-- A payment is written with the event that its status needs.
emit-Journal :
    (p : Payment) (type : EventType) (r : Option Reason) (now : ℕ) (s : Store)
    → Trail (type ∷ history p.id s.events) p.status
    → Journal s
    → Journal (emit p type r now (save_payment p s))
emit-Journal p type r now s trail j id = rw (lookup-insert p.id id p s.payments) (
    fits_if (p.id == id) id p type (lookup id s.payments) (history id s.events)
      (λ e.
        let same = (==_iff p.id id).0 e in
        (same, subst (λ k. Trail (type ∷ history k s.events) p.status) same trail))
      (j id))

-- A stored payment is stored under its own id, after its own events.
pub found :
    (id : ℕ) (o : Option Payment) (h : List EventType) (p : Payment)
    → Fits id o h
    → o ≡ some p
    → Fits id (some p) h
found id o h p f e = subst (λ x. Fits id x h) e f

owned-found :
    (merchant : ℕ) (o : Option Payment) (p : Payment) → owned merchant o ≡ some p → o ≡ some p
owned-found merchant none p e = ground arith
owned-found merchant (some q) p e = ground arith

not_terminal : (s t : Status) (e : EventType) → transitions s t ≡ some e → is_terminal s ≡ false
not_terminal Status.pending t e h = refl
not_terminal Status.processing t e h = refl
not_terminal Status.succeeded t e h = ground arith
not_terminal Status.failed t e h = ground arith
not_terminal Status.cancelled t e h = ground arith
not_terminal Status.expired t e h = ground arith

abbrev terminal_of : Option Payment → Bool
terminal_of none = false
terminal_of (some p) = is_terminal p.status

-- What one act keeps: the journal, and every row that is terminal.
abbrev pub FinalRows : Store → Store → Type 0
FinalRows s v =
    (id : ℕ) (p : Payment)
    → lookup id s.payments ≡ some p
    → is_terminal p.status ≡ true
    → lookup id v.payments ≡ some p

abbrev pub Kept : Store → Store → Type 0
Kept s v = Journal s → Journal v × FinalRows s v

pub Kept-here : (s : Store) → Kept s s
Kept-here s j = (j, λ id p e t. e)

pub Kept-next : (s v u : Store) → Kept s v → Kept v u → Kept s u
Kept-next s v u f g j =
    let (jv, a) = f j in let (ju, b) = g jv in (ju, λ id p e t. b id p (a id p e t) t)

else_branch : {A : Type 0} (b : Bool) (x : A) {y : A} → (b ≡ true → ⊥) → (if b then x else y) ≡ y
else_branch true x h = elim (h refl) [ ]
else_branch false x h = refl

-- Writing a payment over one that is not terminal, or under a new id.
other_rows :
    (p : Payment) (s : Store)
    → ((q : Payment) → lookup p.id s.payments ≡ some q → is_terminal q.status ≡ false)
    → FinalRows s (save_payment p s)
other_rows p s h id q e t = rw (lookup-insert p.id id p s.payments) (
    else_branch (p.id == id) (some p) (λ same.
      true≢false
        (sym t ∙ h q (subst (λ k. lookup k s.payments ≡ some q) (sym ((==_iff p.id id).0 same)) e)))
    ∙ e)

move_row-Kept :
    (now : ℕ) (target : Status) (extra : TransitionExtra) (p : Payment) (o : Option EventType)
    (s : Store) (id : ℕ)
    → lookup id s.payments ≡ some p
    → transitions p.status target ≡ o
    → Kept s (move_row now target extra p o s).1
move_row-Kept now target extra p none s id e step = Kept-here s
move_row-Kept now target extra p (some type) s id e step = λ j.
    let fits = found id (lookup id s.payments) (history id s.events) p (j id) e in
    let at = subst (λ k. lookup k s.payments ≡ some p) (sym fits.0) e in
    let fresh = moved now target extra p in
    (
      emit-Journal fresh type extra.reason now s
          (go (subst (λ k. Trail (history k s.events) p.status) (sym fits.0) fits.1) step) j,
      other_rows fresh s
          (λ q e'. ap terminal_of (sym e' ∙ at) ∙ not_terminal p.status target type step),
    )

pub transition-Kept :
    (now merchant id : ℕ) (target : Status) (extra : TransitionExtra) (s : Store)
    → Kept s (transition now merchant id target extra s).1
unfolding transition
transition-Kept now merchant id target extra s =
    found-Kept (get_payment merchant id s) (λ p e. owned-found merchant (lookup id s.payments) p e)
  where
    found-Kept :
        (o : Option Payment)
        → ((p : Payment) → o ≡ some p → lookup id s.payments ≡ some p)
        → Kept s (transition_found now target extra o s).1
    found-Kept none h = Kept-here s
    found-Kept (some p) h =
        move_row-Kept now target extra p (transitions p.status target) s id (h p refl) refl

pub insert_payment-Kept :
    (p : Payment) (s : Store)
    → lookup p.id s.payments ≡ none
    → p.status ≡ Status.pending
    → Kept s (insert_payment p s).1
insert_payment-Kept p s new e j =
    let blank : history p.id s.events ≡ [] =
      subst (λ o. Fits p.id o (history p.id s.events)) new (j p.id) in
    (
      emit-Journal p EventType.created none p.created_at s
          (subst (λ h. Trail (EventType.created ∷ h) p.status) (sym blank)
            (subst (Trail (EventType.created ∷ [])) (sym e) begin))
          j,
      other_rows p s (λ q e'. ap terminal_of (sym e' ∙ new)),
    )
