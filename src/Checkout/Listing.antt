-- ===== src/Checkout/Listing.antt =====
-- legacy/server/src/payments.ts: `listPayments`, the pages of a merchant's payments, newest first.
--
-- The ids are compared here as texts are; they stand for numbers in the same order.
use cauripay.Common.{
  ℕ, ◌+◌, Bool, true, false, ◌&&◌, ◌||◌, Option, none, some, List, [], ◌∷◌, map, ltb, ◌==◌,
  if◌then◌else◌, filter, length, take, min, max,
}
use cauripay.Common.Int.{ℤ, pos, negsuc}
use cauripay.Common.Dict.{Dict}
use cauripay.Checkout.Store.{Status, Payment, Store}
use cauripay.Checkout.Payments.{get_payment}

-- `opts.limit || 25`, between 1 and 100; `none` is NaN.
abbrev pub limit_of : Option ℤ → ℕ
limit_of none = 25
limit_of (some (pos n)) = min (max (if n == 0 then 25 else n) 1) 100
limit_of (some (negsuc n)) = 1

-- The text of a status, or another text.
pub data StatusName : Type 0 where
  listed : Status → StatusName
  unlisted : StatusName

abbrev pub same_status : Status → Status → Bool
same_status Status.pending Status.pending = true
same_status Status.processing Status.processing = true
same_status Status.succeeded Status.succeeded = true
same_status Status.failed Status.failed = true
same_status Status.cancelled Status.cancelled = true
same_status Status.expired Status.expired = true
same_status _ _ = false

abbrev pub has_status : Option StatusName → Status → Bool
has_status none s = true
has_status (some unlisted) s = false
has_status (some (listed t)) s = same_status t s

abbrev pub selected : ℕ → Option StatusName → Payment → Bool
selected merchant status p = (p.merchant_id == merchant) && has_status status p.status

-- `p` comes before `q` in ORDER BY created_at DESC, id DESC.
abbrev pub newer : Payment → Payment → Bool
newer p q = ltb q.created_at p.created_at || ((q.created_at == p.created_at) && ltb q.id p.id)

unfoldable pub insert_desc : Payment → List Payment → List Payment
insert_desc p [] = p ∷ []
insert_desc p (q ∷ qs) = let rest = insert_desc p qs in if newer p q then p ∷ q ∷ qs else q ∷ rest

unfoldable pub sort_desc : List Payment → List Payment
unfolding insert_desc
sort_desc [] = []
sort_desc (p ∷ ps) = insert_desc p (sort_desc ps)

abbrev pub rows_of : Dict Payment → List Payment
rows_of d = map (λ (e : ℕ × Payment). e.1) d

-- The row of `before` has to be the merchant's own.
abbrev pub cursor : ℕ → Option ℕ → Store → Option Payment
cursor merchant none s = none
cursor merchant (some id) s = get_payment merchant id s

-- `created_at < ? OR (created_at = ? AND id < ?)`
abbrev pub is_after : Option Payment → Payment → Bool
is_after none p = true
is_after (some b) p = newer b p

pub record Listing : Type 0 where
  pub rows : List Payment
  pub has_more : Bool

abbrev pub page_of : ℕ → List Payment → Listing
page_of limit rows = record { rows = take limit rows; has_more = ltb limit (length rows) }

unfoldable pub list_payments : ℕ → Option StatusName → Option ℤ → Option ℕ → Store → Listing
list_payments merchant status limit before s =
    let found = sort_desc (
      filter (λ (p : Payment). selected merchant status p && is_after (cursor merchant before s) p)
        (rows_of s.payments)) in
    page_of (limit_of limit) (take (limit_of limit + 1) found)

-- All payments of the merchant with the status, newest first.
abbrev pub all_payments : ℕ → Option StatusName → Store → List Payment
all_payments merchant status s = sort_desc (filter (selected merchant status) (rows_of s.payments))
