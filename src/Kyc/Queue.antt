-- ===== src/Kyc/Queue.antt =====
-- services/kyc-service/src/kyc/kyc.service.ts: the pages of the review queue.
use cauripay.Common.{
  ℕ, zero, suc, ◌+◌, ◌*◌, ◌-◌, ◌≤◌, ◌≡◌, refl, sym, ap, ◌∙◌, some, List, [], ◌∷◌, ◌++◌, arith,
  filter, length, take, max,
}
use cauripay.Kyc.{World, KycRecord, QueueFilters, queue, matches, records_of, drop, page_size}

-- One request for each page, up to a page.
unfoldable pub pages : ℕ → QueueFilters → World → List KycRecord
pages zero filters w = []
pages (suc n) filters w =
    pages n filters w ++ (queue (record filters { page = some (suc n) }) w).items

take-add : (a b : ℕ) (xs : List KycRecord) → take (a + b) xs ≡ take a xs ++ take b (drop a xs)
take-add zero b xs = let e : zero + b ≡ b = omega arith in ap (λ (k : ℕ). take k xs) e
take-add (suc a) b [] =
    let e : suc a + b ≡ suc (a + b) = omega arith in ap (λ (k : ℕ). take k none_left) e ∙ taken b
  where
    none_left : List KycRecord
    none_left = []

    taken : (b : ℕ) → take (suc (a + b)) none_left ≡ take b none_left
    taken zero = refl
    taken (suc b) = refl
take-add (suc a) b (x ∷ xs) =
    let e : suc a + b ≡ suc (a + b) = omega arith in
    ap (λ (k : ℕ). take k (x ∷ xs)) e ∙ ap (λ (l : List KycRecord). x ∷ l) (take-add a b xs)

length-take_all : (k : ℕ) (xs : List KycRecord) → length xs ≤ k → take k xs ≡ xs
length-take_all zero [] h = refl
length-take_all zero (x ∷ xs) h = absurd (omega (arith, h))
length-take_all (suc k) [] h = refl
length-take_all (suc k) (x ∷ xs) h = ap (λ l. x ∷ l) (length-take_all k xs (omega (arith, h)))

pages-take :
    (n : ℕ) (filters : QueueFilters) (w : World)
    → pages n filters w ≡ take (n * 25) (filter (matches filters) (records_of w.records))
unfolding pages queue
pages-take zero filters w = refl
pages-take (suc n) filters w =
    let found = filter (matches filters) (records_of w.records) in
    ap (λ (l : List KycRecord). l ++ take page_size (drop ((max 1 (suc n) - 1) * page_size) found))
      (pages-take n filters w)
    ∙ ap (λ (k : ℕ). take (n * 25) found ++ take page_size (drop k found)) (before n)
    ∙ sym (take-add (n * 25) page_size found)
    ∙ ap (λ (k : ℕ). take k found) (after n)
  where
    before : (n : ℕ) → (max 1 (suc n) - 1) * page_size ≡ n * 25
    before n = omega arith

    after : (n : ℕ) → n * 25 + page_size ≡ suc n * 25
    after n = omega arith

-- The pages of the queue in their order, up to one that is far enough, are the records that match
-- the filters, in the order in which they were submitted: none is left out, none comes twice.
pub pages-matches :
    (n : ℕ) (filters : QueueFilters) (w : World)
    → length (filter (matches filters) (records_of w.records)) ≤ n * 25
    → pages n filters w ≡ filter (matches filters) (records_of w.records)
pages-matches n filters w h = pages-take n filters w ∙ length-take_all (n * 25) _ h
