-- ===== src/Aml/Screen.antt =====
-- services/aml-service/src/screening/list-screener.service.ts: `screen` over a list of entities.
use cauripay.Common.{
  ◌≡◌, refl, ap, sym, ◌∙◌, Bool, true, false, ◌||◌, ◌&&◌, Option, none, some, List, [], ◌∷◌,
  if◌then◌else◌, find, any, is_some,
}
use cauripay.Aml.Names.{
  Text, same_text, tokenize, normalize_name, token_jaccard, char_similarity, Ratio, at_least, above,
  max_ratio,
}

pub data SanctionList : Type 0 where
  ofac un gabac : SanctionList

pub record SanctionedEntity : Type 0 where
  pub name : Text
  pub country : Option Text
  pub list : SanctionList
  pub aliases : List Text

pub data Kind : Type 0 where
  exact fuzzy : Kind

pub record Match : Type 0 where
  pub kind : Kind
  pub entity : SanctionedEntity
  pub confidence : Ratio

-- `{ hit: false, kind: null }`, or a hit. `countryMatched` is left out: nothing reads it.
pub data ScreeningResult : Type 0 where
  miss : ScreeningResult
  hit : Match → ScreeningResult

abbrev pub three_fifths : Ratio
three_fifths = record { part = 3; whole = 5 }

abbrev pub three_quarters : Ratio
three_quarters = record { part = 3; whole = 4 }

abbrev pub certain : Ratio
certain = record { part = 1; whole = 1 }

abbrev pub no_tokens : List Text → Bool
no_tokens [] = true
no_tokens (t ∷ ts) = false

abbrev pub exact_hit : SanctionedEntity → ScreeningResult
exact_hit e = hit (record { kind = Kind.exact; entity = e; confidence = certain })

abbrev pub first_hit : Option SanctionedEntity → ScreeningResult → ScreeningResult
first_hit none rest = rest
first_hit (some e) rest = exact_hit e

pub record Best : Type 0 where
  pub entity : SanctionedEntity
  pub sim : Ratio

-- `!best || sim > best.sim`.
abbrev pub improves : Ratio → Option Best → Bool
improves sim none = true
improves sim (some b) = above sim b.sim

abbrev pub fuzzy_result : Option Best → ScreeningResult
fuzzy_result none = miss
fuzzy_result (some b) = hit (record { kind = Kind.fuzzy; entity = b.entity; confidence = b.sim })

module _ (nfd lower : Text → Text) where
  abbrev pub same_name : Text → Text → Bool
  same_name normalized name = same_text (normalize_name nfd lower name) normalized

  abbrev pub name_hit : Text → SanctionedEntity → Bool
  name_hit normalized e = same_name normalized e.name

  abbrev pub alias_hit : Text → SanctionedEntity → Bool
  alias_hit normalized e = any (same_name normalized) e.aliases

  -- The candidate is close enough: by tokens or by characters.
  abbrev pub close : Text → Text → Bool
  close name candidate =
      at_least (token_jaccard (tokenize nfd lower name) (tokenize nfd lower candidate)) three_fifths
      || at_least
          (char_similarity (normalize_name nfd lower name) (normalize_name nfd lower candidate))
          three_quarters

  abbrev pub similarity : Text → Text → Ratio
  similarity name candidate =
      max_ratio (token_jaccard (tokenize nfd lower name) (tokenize nfd lower candidate))
        (char_similarity (normalize_name nfd lower name) (normalize_name nfd lower candidate))

  -- One turn of the inner loop.
  abbrev pub consider : Text → SanctionedEntity → Text → Option Best → Option Best
  consider name e candidate best =
      let sim = similarity name candidate in
      if close name candidate && improves sim best
      then some (record { entity = e; sim = sim })
      else best

  unfoldable pub consider_all : Text → SanctionedEntity → List Text → Option Best → Option Best
  consider_all name e [] best = best
  consider_all name e (c ∷ cs) best = consider_all name e cs (consider name e c best)

  unfoldable pub best_match : Text → List SanctionedEntity → Option Best → Option Best
  best_match name [] best = best
  best_match name (e ∷ es) best = best_match name es (consider_all name e (e.name ∷ e.aliases) best)

  unfoldable pub screen : List SanctionedEntity → Text → ScreeningResult
  screen lists name =
      let normalized = normalize_name nfd lower name in
      if no_tokens (tokenize nfd lower name)
      then miss
      else first_hit (find (name_hit normalized) lists) (
          first_hit (find (alias_hit normalized) lists) (fuzzy_result (best_match name lists none)))

  -- Some name or alias of the list is the same text once normalized.
  abbrev pub listed_exactly : List SanctionedEntity → Text → Bool
  listed_exactly lists name =
      let normalized = normalize_name nfd lower name in
      any (λ (e : SanctionedEntity). name_hit normalized e || alias_hit normalized e) lists

  abbrev pub listed_closely : List SanctionedEntity → Text → Bool
  listed_closely lists name =
      any (λ (e : SanctionedEntity). any (close name) (e.name ∷ e.aliases)) lists

  -- The kind that a description of the list gives, with no loop and no best candidate.
  abbrev pub expected_kind : List SanctionedEntity → Text → Option Kind
  expected_kind lists name =
      if no_tokens (tokenize nfd lower name)
      then none
      else if listed_exactly lists name
      then some Kind.exact
      else if listed_closely lists name
      then some Kind.fuzzy
      else none

abbrev pub kind_of : ScreeningResult → Option Kind
kind_of miss = none
kind_of (hit m) = some m.kind

find-is_some : {A : Type 0} (p : A → Bool) (xs : List A) → is_some (find p xs) ≡ any p xs
find-is_some p [] = refl
find-is_some p (x ∷ xs) = by_test (p x) (find-is_some p xs)
  where
    by_test :
        (b : Bool)
        → is_some (find p xs) ≡ any p xs
        → is_some (if b then some x else find p xs) ≡ (b || any p xs)
    by_test true e = refl
    by_test false e = e

any-or :
    {A : Type 0} (p q : A → Bool) (xs : List A) → any (λ x. p x || q x) xs ≡ (any p xs || any q xs)
any-or p q [] = refl
any-or p q (x ∷ xs) = rw (any-or p q xs) (four (p x) (q x) (any p xs) (any q xs))
  where
    four : (a b c d : Bool) → ((a || b) || (c || d)) ≡ ((a || c) || (b || d))
    four true b c d = refl
    four false true true d = refl
    four false true false d = refl
    four false false c d = refl

taken : (b : Bool) (x : Best) → is_some (if b && true then some x else none) ≡ b
taken true x = refl
taken false x = refl

kept : (b : Bool) (x y : Best) → is_some (if b then some x else some y) ≡ true
kept true x y = refl
kept false x y = refl

or_false : (a : Bool) → a ≡ (a || false)
or_false true = refl
or_false false = refl

or_assoc : (a b c : Bool) → ((a || b) || c) ≡ (a || (b || c))
or_assoc true b c = refl
or_assoc false b c = refl

result-kind :
    (t : Bool) (o o' : Option SanctionedEntity) (b : Option Best)
    → kind_of (if t then miss else first_hit o (first_hit o' (fuzzy_result b))) ≡ (
        if t
        then none
        else if is_some o || is_some o'
        then some Kind.exact
        else if is_some b
        then some Kind.fuzzy
        else none)
result-kind true o o' b = refl
result-kind false (some e) o' b = refl
result-kind false none (some e) b = refl
result-kind false none none (some b) = refl
result-kind false none none none = refl

module _ (nfd lower : Text → Text) where
  consider-is_some :
      (name : Text) (e : SanctionedEntity) (c : Text) (best : Option Best)
      → is_some (consider nfd lower name e c best) ≡ (is_some best || close nfd lower name c)
  consider-is_some name e c none =
      taken (close nfd lower name c) (record { entity = e; sim = similarity nfd lower name c })
  consider-is_some name e c (some best) =
      kept (close nfd lower name c && above (similarity nfd lower name c) best.sim)
        (record { entity = e; sim = similarity nfd lower name c }) best

  consider_all-is_some :
      (name : Text) (e : SanctionedEntity) (cs : List Text) (best : Option Best)
      → is_some (consider_all nfd lower name e cs best)
        ≡ (is_some best || any (close nfd lower name) cs)
  unfolding consider_all
  consider_all-is_some name e [] best = or_false (is_some best)
  consider_all-is_some name e (c ∷ cs) best =
      consider_all-is_some name e cs (consider nfd lower name e c best)
      ∙ ap (λ b. b || any (close nfd lower name) cs) (consider-is_some name e c best)
      ∙ or_assoc (is_some best) (close nfd lower name c) (any (close nfd lower name) cs)

  best_match-is_some :
      (name : Text) (lists : List SanctionedEntity) (best : Option Best)
      → is_some (best_match nfd lower name lists best)
        ≡ (is_some best || listed_closely nfd lower lists name)
  unfolding best_match
  best_match-is_some name [] best = or_false (is_some best)
  best_match-is_some name (e ∷ es) best =
      best_match-is_some name es (consider_all nfd lower name e (e.name ∷ e.aliases) best)
      ∙ ap (λ b. b || listed_closely nfd lower es name)
          (consider_all-is_some name e (e.name ∷ e.aliases) best)
      ∙ or_assoc (is_some best) (any (close nfd lower name) (e.name ∷ e.aliases))
          (listed_closely nfd lower es name)

  -- What is screened: nothing for a name with no letter or digit; an exact match exactly when the
  -- name is a listed name or alias once both are normalized; else a fuzzy match exactly when some
  -- listed name or alias shares three fifths of the tokens or three quarters of the characters.
  pub screen-kind :
      (lists : List SanctionedEntity) (name : Text)
      → kind_of (screen nfd lower lists name) ≡ expected_kind nfd lower lists name
  unfolding screen
  screen-kind lists name =
      let n = normalize_name nfd lower name in
      let by_name = name_hit nfd lower n in
      let by_alias = alias_hit nfd lower n in
      result-kind (no_tokens (tokenize nfd lower name)) (find by_name lists) (find by_alias lists)
        (best_match nfd lower name lists none)
      ∙ ap
          (λ x.
            if no_tokens (tokenize nfd lower name)
            then none
            else if x
            then some Kind.exact
            else if is_some (best_match nfd lower name lists none)
            then some Kind.fuzzy
            else none)
          (ap (λ x. x || is_some (find by_alias lists)) (find-is_some by_name lists)
            ∙ ap (λ x. any by_name lists || x) (find-is_some by_alias lists)
            ∙ sym (any-or by_name by_alias lists))
      ∙ ap
          (λ x.
            if no_tokens (tokenize nfd lower name)
            then none
            else if listed_exactly nfd lower lists name
            then some Kind.exact
            else if x
            then some Kind.fuzzy
            else none)
          (best_match-is_some name lists none)
