-- ===== src/Aml/Distance.antt =====
-- The edit distance of services/aml-service/src/screening/list-screener.service.ts: the table that
-- `levenshtein` fills row by row against the recursive definition of the distance.
use cauripay.Common.{
  ℕ, suc, ◌+◌, ◌≤◌, ◌≡◌, refl, sym, ap, ◌∙◌, min, max, true, List, [], ◌∷◌, arith, if◌then◌else◌,
  length, inl, inr, Bool-cases,
}
use cauripay.Aml.Names.{
  Text, same_text, is_empty, cost, inner, pass, outer, count_from, last, levenshtein,
}

-- The cheapest way to turn one text into the other by inserting, deleting and replacing single
-- characters, read from the last characters on: `add` extends the distances of a text `a` by one
-- more character of the first text.
unfoldable pub add : (Text → ℕ) → ℕ → ℕ → Text → ℕ
add f x n [] = n
add f x n (y ∷ b) = min (min (f (y ∷ b) + 1) (add f x n b + 1)) (f b + cost x y)

unfoldable pub distance : Text → Text → ℕ
distance [] b = length b
distance (x ∷ a) b = add (distance a) x (suc (length a)) b

-- A row of the table: the distances of `a` to the prefixes of a text, `seen` being the one read.
abbrev row : Text → Text → Text → List ℕ
row a seen [] = distance a seen ∷ []
row a seen (y ∷ b) = distance a seen ∷ row a (y ∷ seen) b

abbrev tail : List ℕ → List ℕ
tail [] = []
tail (d ∷ dp) = dp

first_row : (seen b : Text) → count_from (length seen) b ≡ row [] seen b
unfolding count_from distance
first_row seen [] = refl
first_row seen (y ∷ b) =
    ap (λ dp. length seen ∷ dp) (ap (λ n. count_from n b) (omega arith) ∙ first_row (y ∷ seen) b)

inner-row :
    (x : ℕ) (a seen b : Text)
    → inner x (distance a seen) (distance (x ∷ a) seen) b (tail (row a seen b))
      ≡ tail (row (x ∷ a) seen b)
unfolding inner distance add
inner-row x a seen [] = refl
inner-row x a seen (y ∷ []) = refl
inner-row x a seen (y ∷ z ∷ b) =
    ap (λ dp. distance (x ∷ a) (y ∷ seen) ∷ dp) (inner-row x a (y ∷ seen) (z ∷ b))

distance-empty : (a : Text) → distance a [] ≡ length a
unfolding distance add
distance-empty [] = refl
distance-empty (x ∷ a) = refl

pass-row : (x i : ℕ) (a b : Text) → i ≡ suc (length a) → pass x i b (row a [] b) ≡ row (x ∷ a) [] b
unfolding distance add inner
pass-row x i a [] e = ap (λ n. n ∷ []) e
pass-row x i a (y ∷ b) e =
    ap (λ n. n ∷ inner x (distance a []) n (y ∷ b) (row a (y ∷ []) b)) e
    ∙ ap (λ dp. suc (length a) ∷ dp) (inner-row x a [] (y ∷ b))

-- `a` reversed in front of `seen`.
abbrev pub onto : Text → Text → Text
onto [] seen = seen
onto (x ∷ a) seen = onto a (x ∷ seen)

outer-row :
    (i : ℕ) (a seen b : Text)
    → i ≡ suc (length seen)
    → outer i a b (row seen [] b) ≡ row (onto a seen) [] b
unfolding outer
outer-row i [] seen b e = refl
outer-row i (x ∷ a) seen b e =
    ap (outer (i + 1) a b) (pass-row x i seen b e) ∙ outer-row (i + 1) a (x ∷ seen) b (omega arith)

last-row : (a seen b : Text) → last (row a seen b) ≡ distance a (onto b seen)
last-row a seen [] = refl
last-row a seen (y ∷ []) = refl
last-row a seen (y ∷ z ∷ b) = last-row a (y ∷ seen) (z ∷ b)

length-onto : (a seen : Text) → length (onto a seen) ≡ length a + length seen
length-onto [] seen = omega arith
length-onto (x ∷ a) seen = omega (arith, length-onto a (x ∷ seen))

distance_self : (a : Text) → distance a a ≡ 0
unfolding distance add
distance_self [] = refl
distance_self (x ∷ a) = ground (arith, distance_self a)

same_text_iff : (a b : Text) → same_text a b ≡ true → a ≡ b
same_text_iff [] [] e = refl
same_text_iff [] (d ∷ b) e = ground arith
same_text_iff (c ∷ a) [] e = ground arith
same_text_iff (c ∷ a) (d ∷ b) e = ground (arith, same_text_iff a b)

full_table :
    (a b : Text)
    → (if is_empty a
        then length b
        else if is_empty b
        then length a
        else last (outer 1 a b (count_from 0 b)))
      ≡ distance (onto a []) (onto b [])
unfolding distance
full_table [] b = omega (arith, length-onto b [])
full_table (x ∷ a) [] =
    sym (distance-empty (onto (x ∷ a) []) ∙ length-onto (x ∷ a) [] ∙ omega arith)
full_table (x ∷ a) (y ∷ b) =
    ap (λ dp. last (outer 1 (x ∷ a) (y ∷ b) dp)) (first_row [] (y ∷ b))
    ∙ ap last (outer-row 1 (x ∷ a) [] (y ∷ b) refl)
    ∙ last-row (onto (x ∷ a) []) [] (y ∷ b)

-- The table gives the edit distance of the two texts, the early answers included.
pub levenshtein-distance : (a b : Text) → levenshtein a b ≡ distance (onto a []) (onto b [])
unfolding levenshtein
levenshtein-distance a b = elim (Bool-cases (same_text a b)) [
  | inl e ↦ rw e (
      sym (distance_self (onto a []))
      ∙ ap (λ t. distance (onto a []) (onto t [])) (same_text_iff a b e))
  | inr e ↦ rw e (full_table a b)
]

add_le :
    (f : Text → ℕ) (x n : ℕ)
    → ((b : Text) → f b ≤ max n (length b))
    → (b : Text) → add f x (suc n) b ≤ max (suc n) (length b)
unfolding add
add_le f x n h [] = omega arith
add_le f x n h (y ∷ b) = ground (arith, h b)

pub distance_le : (a b : Text) → distance a b ≤ max (length a) (length b)
unfolding distance
distance_le [] b = omega arith
distance_le (x ∷ a) b = add_le (distance a) x (length a) (distance_le a) b

-- The result is at most the length of the longer text, so that the similarity of characters, one
-- minus the result over that length, is never negative.
pub levenshtein_le : (a b : Text) → levenshtein a b ≤ max (length a) (length b)
levenshtein_le a b = omega (
  arith,
  levenshtein-distance a b,
  distance_le (onto a []) (onto b []),
  length-onto a [],
  length-onto b [],
)
