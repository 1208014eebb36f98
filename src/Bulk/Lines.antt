-- ===== src/Bulk/Lines.antt =====
-- services/business-service/src/bulk/bulk.service.ts: which lines of a CSV are valid, and the
-- amounts that are kept for them.
use cauripay.Common.{ℕ, ◌+◌, ◌*◌, ◌/◌, ◌<◌, ◌≡◌, ◌↔◌, refl, true, false, List, [], ◌∷◌, arith}
use cauripay.Common.Text.{Text, split}
use cauripay.Common.Int.{pos}
use cauripay.Rules.{trim, validate_phone_number}
use cauripay.Bulk.{
  Numeral, fraction, whole, validate_line, line_errors, no_errors, is_empty, not_positive,
}

-- The four columns of a line: somebody, a phone number, an amount above zero, and a reference.
pub record GoodColumns (number : Text → Numeral) (parts : List Text) : Type 0 where
  pub recipient : Text
  pub phone : Text
  pub amount : Text
  pub reference : Text
  pub four : parts ≡ recipient ∷ phone ∷ amount ∷ reference ∷ []
  pub named : is_empty (trim recipient) ≡ false
  pub reachable : validate_phone_number phone ≡ true
  pub given : is_empty amount ≡ false
  pub positive : not_positive (number amount) ≡ false
  pub referenced : is_empty (trim reference) ≡ false

valid_iff :
    (number : Text → Numeral) (parts : List Text)
    → (no_errors (line_errors number parts) ≡ true) ↔ GoodColumns number parts
valid_iff number [] = (λ h. ground arith, λ g. cc g.four)
valid_iff number (a ∷ []) = (λ h. ground arith, λ g. cc g.four)
valid_iff number (a ∷ b ∷ []) = (λ h. ground arith, λ g. cc g.four)
valid_iff number (a ∷ b ∷ c ∷ []) = (λ h. ground arith, λ g. cc g.four)
valid_iff number (a ∷ b ∷ c ∷ d ∷ []) = (
  λ h. record {
    recipient = a;
    phone = b;
    amount = c;
    reference = d;
    four = refl;
    named = ground arith;
    reachable = ground arith;
    given = ground arith;
    positive = ground arith;
    referenced = ground arith;
  },
  λ g. ground arith,
)
valid_iff number (a ∷ b ∷ c ∷ d ∷ e ∷ rest) = (λ h. ground arith, λ g. cc g.four)

-- A line is valid exactly when it has four columns: a name that is not blank, a phone number that
-- passes its test, an amount that is given and above zero, and a reference that is not blank.
pub validate_line_iff :
    (number : Text → Numeral) (line_number : ℕ) (raw : Text)
    → ((validate_line number line_number raw).valid ≡ true) ↔ GoodColumns number (split b',' raw)
unfolding validate_line
validate_line_iff number line_number raw = valid_iff number (split b',' raw)

below_half : (n d : ℕ) → 2 * n < d → (2 * n + d) / (2 * d) ≡ 0
below_half n d h = grind arith

-- A line whose amount is a positive fraction below one half is valid when its other columns are
-- good, and the amount that is kept for it is 0.
pub small_amount_rounds :
    (number : Text → Numeral) (line_number : ℕ) (raw : Text) (n d : ℕ)
    (g : GoodColumns number (split b',' raw))
    → number g.amount ≡ fraction n d
    → 2 * n < d
    → ((validate_line number line_number raw).valid ≡ true)
      × ((validate_line number line_number raw).amount_minor ≡ whole (pos 0))
unfolding validate_line
small_amount_rounds number line_number raw n d g e h =
    ((valid_iff number (split b',' raw)).1 g, rw (g.four, e, below_half n d h) refl)
