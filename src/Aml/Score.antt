-- ===== src/Aml/Score.antt =====
-- services/aml-service/src/scoring/risk-scorer.service.ts. Amounts are hundredths; `none` stands for
-- a text that is no number, or one below zero. Country codes are ASCII.
use cauripay.Common.{
  ℕ, ◌+◌, ◌≤◌, ◌≡◌, ◌↔◌, ◌⊎◌, inl, inr, refl, min, Bool, true, false, Option, none, some, List, [],
  ◌∷◌, ◌++◌, ◌-◌, ◌&&◌, ◌||◌, arith, ltb, leb, if◌then◌else◌,
}
use cauripay.Rules.{TransactionType}
use cauripay.Aml.Names.{Text, same_text}
use cauripay.Aml.Screen.{Kind}

pub record RiskInput : Type 0 where
  pub amount : Option ℕ
  pub type : TransactionType
  pub country : Option Text
  pub today_count : ℕ
  pub sanctions_hit : Option Kind

pub data Reason : Type 0 where
  match_exact_sanctions match_fuzzy_sanctions high_amount risky_country risky_type : Reason
  high_frequency : Reason

pub record RiskScore : Type 0 where
  pub score : ℕ
  pub reasons : List Reason
  pub alert : Bool

abbrev pub amount_threshold : ℕ
amount_threshold = 50_000_000

abbrev pub frequency_threshold : ℕ
frequency_threshold = 5

abbrev pub is_risky_type : TransactionType → Bool
is_risky_type TransactionType.cash_out = true
is_risky_type _ = false

abbrev upper : Text → Text
upper [] = []
upper (c ∷ s) = (if leb b'a' c && leb c b'z' then c - 32 else c) ∷ upper s

abbrev pub is_risky_country : Option Text → Bool
is_risky_country none = false
is_risky_country (some c) =
    same_text (upper c) (b'X' ∷ b'X' ∷ []) || same_text (upper c) (b'Z' ∷ b'Z' ∷ [])

abbrev pub is_high_amount : Option ℕ → Bool
is_high_amount none = false
is_high_amount (some n) = leb amount_threshold n

-- One rule: the points that it adds and its reason.
abbrev pub rule : Bool → ℕ → Reason → ℕ × List Reason → ℕ × List Reason
rule true points reason (score, reasons) = (score + points, reasons ++ (reason ∷ []))
rule false points reason so_far = so_far

abbrev pub sanctions_rule : Option Kind → ℕ × List Reason
sanctions_rule none = (0, [])
sanctions_rule (some Kind.exact) = (100, Reason.match_exact_sanctions ∷ [])
sanctions_rule (some Kind.fuzzy) = (60, Reason.match_fuzzy_sanctions ∷ [])

abbrev pub cap : ℕ × List Reason → RiskScore
cap (score, reasons) = record {
  score = min 100 score;
  reasons = reasons;
  alert = ltb 70 (min 100 score);
}

unfoldable pub score : RiskInput → RiskScore
score input = cap (
    rule (leb frequency_threshold input.today_count) 10 Reason.high_frequency (
      rule (is_risky_type input.type) 10 Reason.risky_type (
        rule (is_risky_country input.country) 10 Reason.risky_country (
          rule (is_high_amount input.amount) 20 Reason.high_amount
            (sanctions_rule input.sanctions_hit)))))

abbrev pub points : Bool → ℕ → ℕ
points true n = n
points false n = 0

-- The points of the four rules that look at the payment itself.
abbrev pub payment_points : RiskInput → ℕ
payment_points input =
    points (is_high_amount input.amount) 20
    + points (is_risky_country input.country) 10
    + points (is_risky_type input.type) 10
    + points (leb frequency_threshold input.today_count) 10

rule-points :
    (b : Bool) (n : ℕ) (r : Reason) (x : ℕ × List Reason) → (rule b n r x).0 ≡ x.0 + points b n
rule-points true n r x = refl
rule-points false n r x = omega arith

points_le : (b : Bool) (n : ℕ) → points b n ≤ n
points_le true n = omega arith
points_le false n = omega arith

-- The payment's points are ten at most, or twenty at least.
gap :
    (a b c d : Bool)
    → let p = points a 20 + points b 10 + points c 10 + points d 10 in (p ≤ 10) ⊎ (20 ≤ p)
gap true b c d = inr (omega arith)
gap false true true d = inr (omega arith)
gap false true false true = inr (omega arith)
gap false true false false = inl (omega arith)
gap false false true true = inr (omega arith)
gap false false true false = inl (omega arith)
gap false false false true = inl (omega arith)
gap false false false false = inl (omega arith)

Verdict : Option Kind → ℕ → ℕ → Type 0
Verdict k p n =
    (min 100 n ≤ 100)
    × ((ltb 70 (min 100 n) ≡ true) ↔ ((k ≡ some Kind.exact) ⊎ ((k ≡ some Kind.fuzzy) × (20 ≤ p))))

verdict :
    (k : Option Kind) (p n : ℕ)
    → (p ≤ 10) ⊎ (20 ≤ p)
    → p ≤ 50
    → n ≡ (sanctions_rule k).0 + p
    → Verdict k p n
unfolding Verdict
verdict none p n g h e = ground arith
verdict (some Kind.exact) p n g h e = ground arith
verdict (some Kind.fuzzy) p n g h e = ground arith

-- The score is never above a hundred. An alert needs a match with a sanctions list: an exact one
-- raises it alone, a fuzzy one together with twenty points of the payment, and without a match no
-- payment raises it, whatever its amount, country, type and frequency.
pub score-alert :
    (input : RiskInput)
    → ((score input).score ≤ 100)
      × (((score input).alert ≡ true) ↔ (
          (input.sanctions_hit ≡ some Kind.exact)
          ⊎ ((input.sanctions_hit ≡ some Kind.fuzzy) × (20 ≤ payment_points input))))
unfolding score Verdict
score-alert input =
    let k = input.sanctions_hit in
    let a = is_high_amount input.amount in
    let b = is_risky_country input.country in
    let c = is_risky_type input.type in
    let d = leb frequency_threshold input.today_count in
    let x0 = sanctions_rule k in
    let x1 = rule a 20 Reason.high_amount x0 in
    let x2 = rule b 10 Reason.risky_country x1 in
    let x3 = rule c 10 Reason.risky_type x2 in
    let x4 = rule d 10 Reason.high_frequency x3 in
    verdict k (payment_points input) x4.0 (gap a b c d)
      (omega (arith, points_le a 20, points_le b 10, points_le c 10, points_le d 10))
      (omega (
        arith,
        rule-points a 20 Reason.high_amount x0,
        rule-points b 10 Reason.risky_country x1,
        rule-points c 10 Reason.risky_type x2,
        rule-points d 10 Reason.high_frequency x3,
      ))
