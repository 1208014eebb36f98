-- ===== src/Notify/Keys.antt =====
-- The table of notifications as a map: rows under their own ids, and what keeps lists of rows apart.
use cauripay.Common.{
  ℕ, zero, suc, ◌≡◌, ◌≢◌, sym, ◌∙◌, Bool, true, false, ◌⊎◌, inl, inr, some, List, [], ◌∷◌, arith,
  leb, ◌==◌, if◌then◌else◌, filter, take, All, All-filter, Bool-cases,
}
use mathlib.Core.Path.{subst}
use cauripay.Common.Dict.{Dict, lookup, insert}
use cauripay.Notify.{Notification, rows_of, sort_by_retry, insert_by_retry}
use cauripay.Notify.Batch.{All-take, insert-All, sort-All}

abbrev pub Differs : Notification → Notification → Type 0
Differs n m = n.id ≢ m.id

-- Rows with ids of their own.
abbrev pub Apart : List Notification → Type 0
Apart [] = Unit
Apart (n ∷ ns) = All (Differs n) ns × Apart ns

insert-Apart :
    (n : Notification) (ns : List Notification)
    → All (Differs n) ns
    → Apart ns
    → Apart (insert_by_retry n ns)
unfolding insert_by_retry
insert-Apart n [] h k = (tt, tt)
insert-Apart n (m ∷ ms) (h, hs) (k, ks) = by_test (leb _ _) (insert-Apart n ms hs ks)
  where
    by_test :
        (b : Bool)
        → Apart (insert_by_retry n ms)
        → Apart (if b then n ∷ m ∷ ms else m ∷ insert_by_retry n ms)
    by_test true a = ((h, hs), (k, ks))
    by_test false a = (insert-All (Differs m) n ms (λ e. h (sym e)) k, a)

pub sort-Apart : (ns : List Notification) → Apart ns → Apart (sort_by_retry ns)
unfolding sort_by_retry
sort-Apart [] h = tt
sort-Apart (n ∷ ns) (h, hs) =
    insert-Apart n (sort_by_retry ns) (sort-All (Differs n) ns h) (sort-Apart ns hs)

pub take-Apart : (k : ℕ) (ns : List Notification) → Apart ns → Apart (take k ns)
take-Apart zero ns h = tt
take-Apart (suc k) [] h = tt
take-Apart (suc k) (n ∷ ns) (h, hs) = (All-take (Differs n) k ns h, take-Apart k ns hs)

pub filter-Apart :
    (p : Notification → Bool) (ns : List Notification) → Apart ns → Apart (filter p ns)
filter-Apart p [] h = tt
filter-Apart p (n ∷ ns) (h, hs) =
    by_test (p n) (All-filter (Differs n) p ns h) (filter-Apart p ns hs)
  where
    by_test :
        (b : Bool)
        → All (Differs n) (filter p ns)
        → Apart (filter p ns)
        → Apart (if b then n ∷ filter p ns else filter p ns)
    by_test true a k = (a, k)
    by_test false a k = k

-- Each row lies under its own id, and the ids differ.
abbrev pub Keyed : Dict Notification → Type 0
Keyed [] = Unit
Keyed ((k, n) ∷ d) = (n.id ≡ k) × All (λ (e : ℕ × Notification). k ≢ e.0) d × Keyed d

abbrev pub Current : Dict Notification → Notification → Type 0
Current d n = lookup n.id d ≡ some n

abbrev pub Other : ℕ → ℕ × Notification → Type 0
Other k e = k ≢ e.0

others-Differs :
    (k : ℕ) (n : Notification) (d : Dict Notification)
    → n.id ≡ k
    → All (Other k) d
    → Keyed d
    → All (Differs n) (rows_of d)
others-Differs k n [] e h q = tt
others-Differs k n ((j, m) ∷ d) e (h, hs) (i, r, q) =
    (λ same. h (sym e ∙ same ∙ i), others-Differs k n d e hs q)

pub Keyed-Apart : (d : Dict Notification) → Keyed d → Apart (rows_of d)
Keyed-Apart [] q = tt
Keyed-Apart ((k, n) ∷ d) (i, h, q) = (others-Differs k n d i h q, Keyed-Apart d q)

others-Current :
    (k : ℕ) (n : Notification) (d ds : Dict Notification)
    → All (Other k) ds
    → Keyed ds
    → All (Current d) (rows_of ds)
    → All (Current ((k, n) ∷ d)) (rows_of ds)
unfolding lookup
others-Current k n d [] h q c = tt
others-Current k n d ((j, m) ∷ ds) (h, hs) (i, r, q) (c, cs) =
    (ground arith, others-Current k n d ds hs q cs)

pub Keyed-Current : (d : Dict Notification) → Keyed d → All (Current d) (rows_of d)
unfolding lookup
Keyed-Current [] q = tt
Keyed-Current ((k, n) ∷ d) (i, h, q) =
    (ground arith, others-Current k n d d h q (Keyed-Current d q))

insert-Other :
    (j k : ℕ) (n : Notification) (d : Dict Notification)
    → j ≢ k
    → All (Other j) d
    → All (Other j) (insert k n d)
unfolding insert
insert-Other j k n [] e h = (e, tt)
insert-Other j k n ((i, m) ∷ d) e (h, hs) = by_test (i == k) (insert-Other j k n d e hs)
  where
    by_test :
        (b : Bool)
        → All (Other j) (insert k n d)
        → All (Other j) (if b then (k, n) ∷ d else (i, m) ∷ insert k n d)
    by_test true a = (e, hs)
    by_test false a = (h, a)

pub insert-Keyed :
    (k : ℕ) (n : Notification) (d : Dict Notification) → n.id ≡ k → Keyed d → Keyed (insert k n d)
unfolding insert
insert-Keyed k n [] e q = (e, tt, tt)
insert-Keyed k n ((i, m) ∷ d) e (f, h, q) = by_test (Bool-cases (i == k)) (insert-Keyed k n d e q)
  where
    by_test :
        ((i == k) ≡ true) ⊎ ((i == k) ≡ false)
        → Keyed (insert k n d)
        → Keyed (if i == k then (k, n) ∷ d else (i, m) ∷ insert k n d)
    by_test (inl same) r =
        let j : i ≡ k = ground arith in rw same (e, subst (λ (x : ℕ). All (Other x) d) j h, q)
    by_test (inr other) r = rw other (f, insert-Other i k n d (ground arith) h, r)

pub looked_up :
    (d : Dict Notification) (id : ℕ) (n : Notification) → Keyed d → lookup id d ≡ some n → n.id ≡ id
unfolding lookup
looked_up [] id n q e = cc e
looked_up ((k, m) ∷ d) id n (i, h, q) e = ground (arith, looked_up d id n q)
