-- ===== src/Aml/Names.antt =====
-- services/aml-service/src/screening/list-screener.service.ts: names, tokens and the two measures.
-- A text is a list of code points. `nfd` and `lower` are `normalize('NFD')` and `toLowerCase` of the
-- runtime, which are tables of Unicode. A ratio is a pair of numbers, so it is compared exactly;
-- doubles can differ in the last digit, which matters only between two candidates that are as close.
use cauripay.Common.{
  ℕ, suc, ◌+◌, ◌-◌, ◌*◌, min, max, Bool, true, false, ◌&&◌, ◌||◌, not, List, [], ◌∷◌, ◌++◌, ltb,
  leb, ◌==◌, if◌then◌else◌, length, filter, any,
}

abbrev pub Text : Type 0
Text = List ℕ

abbrev pub same_text : Text → Text → Bool
same_text [] [] = true
same_text (c ∷ a) (d ∷ b) = c == d && same_text a b
same_text _ _ = false

abbrev pub is_diacritic : ℕ → Bool
is_diacritic c = leb 768 c && leb c 879

-- `[a-z0-9]`.
abbrev pub is_letter : ℕ → Bool
is_letter c = leb b'a' c && leb c b'z' || leb b'0' c && leb c b'9'

-- `split(/\s+/).filter(Boolean)`, once every run of other characters is a space: the runs of
-- letters and digits.
unfoldable pub words_of : Text → List Text
words_of [] = []
words_of (c ∷ s) = let rest = words_of s in if is_letter c then join c s rest else rest
  where
    join : ℕ → Text → List Text → List Text
    join c [] rest = (c ∷ []) ∷ rest
    join c (d ∷ s) [] = (c ∷ []) ∷ []
    join c (d ∷ s) (w ∷ rest) = if is_letter d then (c ∷ w) ∷ rest else (c ∷ []) ∷ w ∷ rest

-- The words with one space between them.
abbrev pub spaced : List Text → Text
spaced [] = []
spaced (w ∷ []) = w
spaced (w ∷ v ∷ ws) = w ++ (32 ∷ spaced (v ∷ ws))

module _ (nfd lower : Text → Text) where
  -- `tokenize`; `normalizeName` keeps one space between the tokens.
  abbrev pub tokenize : Text → List Text
  tokenize name = words_of (lower (filter (λ c. not (is_diacritic c)) (nfd name)))

  abbrev pub normalize_name : Text → Text
  normalize_name name = spaced (tokenize name)

abbrev pub has : Text → List Text → Bool
has t ts = any (same_text t) ts

-- The size of a `Set`.
abbrev pub distinct : List Text → ℕ
distinct [] = 0
distinct (t ∷ ts) = if has t ts then distinct ts else suc (distinct ts)

pub record Ratio : Type 0 where
  pub part : ℕ
  pub whole : ℕ

abbrev pub zero_ratio : Ratio
zero_ratio = record { part = 0; whole = 1 }

-- `a / b ≥ n / m`.
abbrev pub at_least : Ratio → Ratio → Bool
at_least a b = leb (b.part * a.whole) (a.part * b.whole)

abbrev pub above : Ratio → Ratio → Bool
above a b = ltb (b.part * a.whole) (a.part * b.whole)

abbrev pub max_ratio : Ratio → Ratio → Ratio
max_ratio a b = if above b a then b else a

abbrev pub token_jaccard : List Text → List Text → Ratio
token_jaccard [] b = zero_ratio
token_jaccard (t ∷ ts) [] = zero_ratio
token_jaccard (t ∷ ts) (u ∷ us) = record {
  part = length (filter (λ x. has x (u ∷ us)) (t ∷ ts));
  whole = distinct ((t ∷ ts) ++ (u ∷ us));
}

abbrev pub cost : ℕ → ℕ → ℕ
cost x y = if x == y then 0 else 1

-- The inner loop: `dp` from the second place on, given `prev` and the value just written.
unfoldable pub inner : ℕ → (prev left : ℕ) → Text → List ℕ → List ℕ
inner x prev left [] dp = []
inner x prev left (y ∷ b) [] = []
inner x prev left (y ∷ b) (d ∷ dp) =
    let new = min (min (d + 1) (left + 1)) (prev + cost x y) in new ∷ inner x d new b dp

-- One pass of the outer loop, which writes `dp[0] = i`.
abbrev pub pass : ℕ → ℕ → Text → List ℕ → List ℕ
pass x i b [] = []
pass x i b (d ∷ dp) = i ∷ inner x d i b dp

-- The outer loop from `i` on.
unfoldable pub outer : ℕ → Text → Text → List ℕ → List ℕ
outer i [] b dp = dp
outer i (x ∷ a) b dp = outer (i + 1) a b (pass x i b dp)

-- `Array.from({ length: b.length + 1 }, (_, i) => i)`, counting from `i`.
unfoldable pub count_from : ℕ → Text → List ℕ
count_from i [] = i ∷ []
count_from i (y ∷ b) = i ∷ count_from (i + 1) b

-- `dp[b.length]`.
abbrev pub last : List ℕ → ℕ
last [] = 0
last (d ∷ []) = d
last (d ∷ e ∷ dp) = last (e ∷ dp)

abbrev pub is_empty : Text → Bool
is_empty [] = true
is_empty (c ∷ s) = false

unfoldable pub levenshtein : Text → Text → ℕ
levenshtein a b =
    if same_text a b
    then 0
    else if is_empty a
    then length b
    else if is_empty b
    then length a
    else last (outer 1 a b (count_from 0 b))

abbrev pub char_similarity : Text → Text → Ratio
char_similarity a b =
    let max_len = max (length a) (length b) in
    if max_len == 0
    then record { part = 1; whole = 1 }
    else record { part = max_len - levenshtein a b; whole = max_len }
