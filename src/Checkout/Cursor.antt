-- ===== src/Checkout/Cursor.antt =====
-- legacy/server/src/payments.ts: `listPayments` walks through all of a merchant's payments, page
-- after page.
use cauripay.Common.{
  ℕ, zero, suc, ◌+◌, ◌≡◌, ◌≢◌, refl, sym, ap, ◌∙◌, Bool, true, false, ◌&&◌, inl, inr, Option, some,
  List, [], ◌∷◌, ◌++◌, arith, ltb, if◌then◌else◌, filter, length, take, All, All-filter, All-imp,
  Bool-cases,
}
use mathlib.Core.Path.{subst}
use cauripay.Common.Int.{ℤ}
use cauripay.Checkout.Store.{Payment, Store}
use cauripay.Checkout.Payments.{get_payment}
use cauripay.Checkout.Listing.{
  StatusName, newer, insert_desc, sort_desc, rows_of, selected, page_of, limit_of, list_payments,
  all_payments,
}

abbrev pub Distinct : List Payment → Type 0
Distinct [] = Unit
Distinct (p ∷ ps) = All (λ (q : Payment). p.id ≢ q.id) ps × Distinct ps

abbrev Before : Payment → Payment → Type 0
Before p q = newer p q ≡ true

-- Strictly from the newest to the oldest.
abbrev Desc : List Payment → Type 0
Desc [] = Unit
Desc (p ∷ ps) = All (Before p) ps × Desc ps

insert-All :
    (P : Payment → Type 0) (p : Payment) (ps : List Payment)
    → P p
    → All P ps
    → All P (insert_desc p ps)
unfolding insert_desc
insert-All P p [] h k = (h, tt)
insert-All P p (q ∷ qs) h (k, ks) = by_test (newer p q) (insert-All P p qs h ks)
  where
    by_test :
        (b : Bool)
        → All P (insert_desc p qs)
        → All P (if b then p ∷ q ∷ qs else q ∷ insert_desc p qs)
    by_test true a = (h, (k, ks))
    by_test false a = (k, a)

sort-All : (P : Payment → Type 0) (ps : List Payment) → All P ps → All P (sort_desc ps)
unfolding sort_desc
sort-All P [] h = tt
sort-All P (p ∷ ps) (h, hs) = insert-All P p (sort_desc ps) h (sort-All P ps hs)

insert-Desc :
    (p : Payment) (ps : List Payment)
    → All (λ (q : Payment). p.id ≢ q.id) ps
    → Desc ps
    → Desc (insert_desc p ps)
unfolding insert_desc
insert-Desc p [] h d = (tt, tt)
insert-Desc p (q ∷ qs) (h, hs) (d, ds) = elim (Bool-cases (newer p q)) [
  | inl first ↦
      rw first (((first, All-imp (Before q) (Before p) (λ x k. ground arith) qs d)), (d, ds))
  | inr later ↦ rw later (insert-All (Before q) p qs (ground arith) d, insert-Desc p qs hs ds)
]

sort-Desc : (ps : List Payment) → Distinct ps → Desc (sort_desc ps)
unfolding sort_desc
sort-Desc [] h = tt
sort-Desc (p ∷ ps) (h, hs) =
    insert-Desc p (sort_desc ps) (sort-All (λ (q : Payment). p.id ≢ q.id) ps h) (sort-Desc ps hs)

insert_front : (p : Payment) (ps : List Payment) → All (Before p) ps → insert_desc p ps ≡ p ∷ ps
unfolding insert_desc
insert_front p [] h = refl
insert_front p (q ∷ qs) (h, hs) = rw h refl

filter-insert :
    (f : Payment → Bool) (p : Payment) (ps : List Payment)
    → Desc ps
    → filter f (insert_desc p ps) ≡ (if f p then insert_desc p (filter f ps) else filter f ps)
unfolding insert_desc
filter-insert f p [] d = refl
filter-insert f p (q ∷ qs) (d, ds) = elim (Bool-cases (newer p q)) [
  | inl first ↦
      let front : insert_desc p (filter f (q ∷ qs)) ≡ p ∷ filter f (q ∷ qs) =
        insert_front p (filter f (q ∷ qs)) (
          All-filter (Before p) f (q ∷ qs)
            (first, All-imp (Before q) (Before p) (λ x k. ground arith) qs d)) in
      rw first (ap (λ (l : List Payment). if f p then l else filter f (q ∷ qs)) (sym front))
  | inr later ↦ rw later (kept (f q) (f p) later (filter-insert f p qs ds))
]
  where
    kept :
        (b c : Bool)
        → newer p q ≡ false
        → filter f (insert_desc p qs) ≡ (if c then insert_desc p (filter f qs) else filter f qs)
        → (if b then q ∷ filter f (insert_desc p qs) else filter f (insert_desc p qs)) ≡ (
            if c
            then insert_desc p (if b then q ∷ filter f qs else filter f qs)
            else if b
            then q ∷ filter f qs
            else filter f qs)
    kept true true later e = rw later (ap (λ (l : List Payment). q ∷ l) e)
    kept true false later e = ap (λ (l : List Payment). q ∷ l) e
    kept false true later e = e
    kept false false later e = e

-- A selection of the sorted rows is the sorted selection.
filter-sort :
    (f : Payment → Bool) (ps : List Payment)
    → Distinct ps
    → filter f (sort_desc ps) ≡ sort_desc (filter f ps)
unfolding sort_desc
filter-sort f [] h = refl
filter-sort f (p ∷ ps) (h, hs) =
    filter-insert f p (sort_desc ps) (sort-Desc ps hs) ∙ by_test (f p) (filter-sort f ps hs)
  where
    by_test :
        (b : Bool)
        → filter f (sort_desc ps) ≡ sort_desc (filter f ps)
        → (if b then insert_desc p (filter f (sort_desc ps)) else filter f (sort_desc ps))
          ≡ sort_desc (if b then p ∷ filter f ps else filter f ps)
    by_test true e = ap (insert_desc p) e
    by_test false e = e

filter-and :
    (f g : Payment → Bool) (ps : List Payment)
    → filter (λ (p : Payment). f p && g p) ps ≡ filter g (filter f ps)
filter-and f g [] = refl
filter-and f g (p ∷ ps) = ground (arith, filter-and f g ps)

All-mid :
    (P : Payment → Type 0) (pre : List Payment) (b : Payment) (rest : List Payment)
    → All P (pre ++ b ∷ rest)
    → P b
All-mid P [] b rest (h, hs) = h
All-mid P (p ∷ pre) b rest (h, hs) = All-mid P pre b rest hs

-- What comes after a row of the sorted list.
filter-after :
    (pre : List Payment) (b : Payment) (rest : List Payment)
    → Desc (pre ++ b ∷ rest)
    → filter (newer b) (pre ++ b ∷ rest) ≡ rest
filter-after [] b rest (d, ds) =
    let none_b : newer b b ≡ false = ground arith in rw none_b (all_kept rest d)
  where
    all_kept : (l : List Payment) → All (Before b) l → filter (newer b) l ≡ l
    all_kept [] h = refl
    all_kept (x ∷ l) (h, hs) = rw h (ap (λ (m : List Payment). x ∷ m) (all_kept l hs))
filter-after (p ∷ pre) b rest (d, ds) =
    let ahead : newer p b ≡ true = All-mid (Before p) pre b rest d in
    let not_after : newer b p ≡ false = ground arith in rw not_after (filter-after pre b rest ds)

filter-Distinct : (f : Payment → Bool) (ps : List Payment) → Distinct ps → Distinct (filter f ps)
filter-Distinct f [] h = tt
filter-Distinct f (p ∷ ps) (h, hs) =
    by_test (f p) (All-filter (λ (q : Payment). p.id ≢ q.id) f ps h) (filter-Distinct f ps hs)
  where
    by_test :
        (b : Bool)
        → All (λ (q : Payment). p.id ≢ q.id) (filter f ps)
        → Distinct (filter f ps)
        → Distinct (if b then p ∷ filter f ps else filter f ps)
    by_test true a d = (a, d)
    by_test false a d = d

take-take : (k : ℕ) (ps : List Payment) → take k (take (suc k) ps) ≡ take k ps
take-take zero ps = refl
take-take (suc k) [] = refl
take-take (suc k) (p ∷ ps) = ap (λ (l : List Payment). p ∷ l) (take-take k ps)

more-take : (k : ℕ) (ps : List Payment) → ltb k (length (take (suc k) ps)) ≡ ltb k (length ps)
more-take zero [] = refl
more-take zero (p ∷ ps) = ground arith
more-take (suc k) [] = refl
more-take (suc k) (p ∷ ps) = ground (arith, more-take k ps)

page-take :
    (k : ℕ) (ps : List Payment)
    → page_of k (take (k + 1) ps) ≡ record { rows = take k ps; has_more = ltb k (length ps) }
page-take k ps = let e : k + 1 ≡ suc k = omega arith in rw (e, take-take k ps, more-take k ps) refl

-- The ids of the payments being distinct, and the cursor being one of the merchant's payments with
-- the status: the page holds those that come after it in the list of all such payments, newest first,
-- as many as the limit allows, and says whether more are left.
pub list_payments-after :
    (merchant : ℕ) (status : Option StatusName) (limit : Option ℤ) (s : Store) (b : Payment)
    (pre rest : List Payment)
    → Distinct (rows_of s.payments)
    → get_payment merchant b.id s ≡ some b
    → all_payments merchant status s ≡ pre ++ b ∷ rest
    → list_payments merchant status limit (some b.id) s
      ≡ record { rows = take (limit_of limit) rest; has_more = ltb (limit_of limit) (length rest) }
unfolding list_payments
list_payments-after merchant status limit s b pre rest apart found all =
    let base = filter (selected merchant status) (rows_of s.payments) in
    let distinct = filter-Distinct (selected merchant status) (rows_of s.payments) apart in
    let sorted : sort_desc (filter (newer b) base) ≡ rest =
      sym (filter-sort (newer b) base distinct)
      ∙ ap (filter (newer b)) all
      ∙ filter-after pre b rest (subst Desc all (sort-Desc base distinct)) in
    rw (found, filter-and (selected merchant status) (newer b) (rows_of s.payments), sorted)
      (page-take (limit_of limit) rest)
