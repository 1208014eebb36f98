-- ===== src/Bulk.antt =====
-- services/business-service/src/bulk/bulk.service.ts: bulk payments, from the CSV to their end.
--
-- `batches` is the map of the service. The random id of an upload and the two readings of its clock
-- are drawn outside. `Number(text)` is a parameter: a function from texts to the numbers of the
-- language, which are written as fractions.
pub mod Lines
pub mod Workflow
pub mod Moves
mod Tests
use cauripay.Common.{
  ℕ, suc, ◌+◌, ◌*◌, ◌-◌, ◌/◌, Bool, true, false, not, ◌&&◌, ◌||◌, Option, none, some, List, [], ◌∷◌,
  ◌++◌, map, leb, ltb, ◌==◌, if◌then◌else◌, filter, length, zero,
}
use cauripay.Common.Dict.{Dict, lookup, insert}
use cauripay.Common.Int.{ℤ, pos, negsuc}
use cauripay.Common.Text.{Text, split, cons_part}
use cauripay.Rules.{trim, validate_phone_number}

pub data BulkStatus : Type 0 where
  draft pending_approval approved processing completed failed : BulkStatus

pub data LineError : Type 0 where
  recipient_missing phone_invalid amount_invalid reference_missing extra_columns : LineError

-- A number of the language: NaN, an infinity, n / d, or -n / d; a denominator is not 0.
pub data Numeral : Type 0 where
  nan infinity minus_infinity : Numeral
  fraction minus_fraction : ℕ → ℕ → Numeral

-- `amountMinor`: a number that `Math.round` returned.
pub data Amount : Type 0 where
  whole : ℤ → Amount
  infinite minus_infinite : Amount

pub record BulkLine : Type 0 where
  pub line_number : ℕ
  pub receiver_phone : Text
  pub amount_minor : Amount
  pub reference : Text
  pub errors : List LineError
  pub valid : Bool

pub record BulkPayment : Type 0 where
  pub id : ℕ
  pub merchant_id : ℕ
  pub created_by : ℕ
  pub approved_by : Option ℕ
  pub status : BulkStatus
  pub lines : List BulkLine
  pub created_at : ℕ
  pub completed_at : Option ℕ

pub data BulkError : Type 0 where
  bulk_too_large bulk_not_found maker_checker invalid_transition : BulkError
  bulk_too_slow : ℕ → BulkError

pub data Result (A : Type 0) : Type 0 where
  ok : A → Result A
  err : BulkError → Result A

abbrev pub Batches : Type 0
Batches = Dict BulkPayment

abbrev pub is_empty : Text → Bool
is_empty [] = true
is_empty (c ∷ s) = false

abbrev pub part : ℕ → List Text → Option Text
part i [] = none
part zero (p ∷ ps) = some p
part (suc i) (p ∷ ps) = part i ps

abbrev pub or_empty : Option Text → Text
or_empty none = []
or_empty (some t) = t

-- `!text?.trim()`
abbrev pub is_blank : Option Text → Bool
is_blank none = true
is_blank (some t) = is_empty (trim t)

abbrev pub has_extra : List Text → Bool
has_extra (a ∷ b ∷ c ∷ d ∷ e ∷ rest) = true
has_extra _ = false

-- `Number(undefined)` is NaN.
abbrev pub number_of : (Text → Numeral) → Option Text → Numeral
number_of number none = nan
number_of number (some t) = number t

-- `Number.isNaN(amount) || amount <= 0`
abbrev pub not_positive : Numeral → Bool
not_positive nan = true
not_positive infinity = false
not_positive minus_infinity = true
not_positive (fraction n d) = n == 0
not_positive (minus_fraction n d) = true

-- `Math.round` gives the nearest integer, upwards from a half.
abbrev pub negated : ℕ → ℤ
negated zero = pos 0
negated (suc n) = negsuc n

abbrev pub rounded : Numeral → Amount
rounded nan = whole (pos 0)
rounded infinity = infinite
rounded minus_infinity = minus_infinite
rounded (fraction n d) = whole (pos ((2 * n + d) / (2 * d)))
rounded (minus_fraction n d) = whole (negated ((2 * n + d - 1) / (2 * d)))

abbrev pub error_if : Bool → LineError → List LineError
error_if true e = e ∷ []
error_if false e = []

abbrev pub is_missing : Option Text → Bool
is_missing none = true
is_missing (some t) = is_empty t

abbrev pub line_errors : (Text → Numeral) → List Text → List LineError
line_errors number parts =
    error_if (is_blank (part 0 parts)) recipient_missing
    ++ (error_if (not (validate_phone_number (or_empty (part 1 parts)))) phone_invalid
        ++ (error_if (is_missing (part 2 parts) || not_positive (number_of number (part 2 parts)))
              amount_invalid
            ++ (error_if (is_blank (part 3 parts)) reference_missing
                ++ error_if (has_extra parts) extra_columns)))

abbrev pub no_errors : List LineError → Bool
no_errors [] = true
no_errors (e ∷ es) = false

abbrev pub line_of : (Text → Numeral) → ℕ → List Text → BulkLine
line_of number line_number parts = record {
  line_number = line_number;
  receiver_phone = trim (or_empty (part 1 parts));
  amount_minor = rounded (number_of number (part 2 parts));
  reference = trim (or_empty (part 3 parts));
  errors = line_errors number parts;
  valid = no_errors (line_errors number parts);
}

unfoldable pub validate_line : (Text → Numeral) → ℕ → Text → BulkLine
unfolding split
validate_line number line_number raw = line_of number line_number (split b',' raw)

abbrev pub next_is_newline : Text → Bool
next_is_newline [] = false
next_is_newline (c ∷ s) = c == 10

-- `csvText.split(/\r?\n/)`
unfoldable pub split_lines : Text → List Text
split_lines [] = [] ∷ []
split_lines (c ∷ s) =
    let rest = split_lines s in
    if c == 10 then [] ∷ rest else if c == 13 && next_is_newline s then rest else cons_part c rest

abbrev pub tail_of {ℓ} : {A : Type ℓ} → List A → List A
tail_of [] = []
tail_of (x ∷ xs) = xs

unfoldable pub validate_from : (Text → Numeral) → ℕ → List Text → List BulkLine
validate_from number i [] = []
validate_from number i (l ∷ ls) = validate_line number i l ∷ validate_from number (i + 1) ls

abbrev pub max_lines : ℕ
max_lines = 10_000

-- What an upload draws: its random id, and the clock before and after the validation.
pub record Draw : Type 0 where
  pub id : ℕ
  pub start : ℕ
  pub end : ℕ

abbrev pub new_batch : Draw → ℕ → ℕ → List BulkLine → BulkPayment
new_batch draw merchant_id user_id lines = record {
  id = draw.id;
  merchant_id = merchant_id;
  created_by = user_id;
  approved_by = none;
  status = BulkStatus.draft;
  lines = lines;
  created_at = draw.end;
  completed_at = none;
}

abbrev pub store_batch : BulkPayment → Batches → Result BulkPayment × Batches
store_batch b w = (ok b, insert b.id b w)

unfoldable pub upload :
    (Text → Numeral) → Draw → ℕ → ℕ → Text → Batches → Result BulkPayment × Batches
upload number draw merchant_id user_id csv_text w =
    let raw_lines = filter (λ (l : Text). not (is_empty (trim l))) (split_lines csv_text) in
    let lines = validate_from number 2 (tail_of raw_lines) in
    let elapsed = draw.end - draw.start in
    if ltb max_lines (length lines)
    then (err bulk_too_large, w)
    else if ltb 5000 elapsed
    then (err (bulk_too_slow elapsed), w)
    else store_batch (new_batch draw merchant_id user_id lines) w

abbrev pub is_draft : BulkStatus → Bool
is_draft BulkStatus.draft = true
is_draft _ = false

abbrev pub is_pending : BulkStatus → Bool
is_pending BulkStatus.pending_approval = true
is_pending _ = false

abbrev pub is_approved : BulkStatus → Bool
is_approved BulkStatus.approved = true
is_approved _ = false

-- `assert`, and the change that it guards.
abbrev pub when_allowed :
    Bool → Batches → Result BulkPayment × Batches → Result BulkPayment × Batches
when_allowed true w next = next
when_allowed false w next = (err invalid_transition, w)

-- `require`
abbrev pub with_batch :
    (BulkPayment → Result BulkPayment × Batches)
    → Option BulkPayment
    → Batches
    → Result BulkPayment × Batches
with_batch f none w = (err bulk_not_found, w)
with_batch f (some b) w = f b

-- A batch is changed where it lies in the map.
abbrev pub update : ℕ → BulkPayment → Batches → Result BulkPayment × Batches
update id b w = (ok b, insert id b w)

abbrev pub submit_batch : ℕ → BulkPayment → Batches → Result BulkPayment × Batches
submit_batch id b w =
    when_allowed (is_draft b.status) w
      (update id (record b { status = BulkStatus.pending_approval }) w)

unfoldable pub submit : ℕ → ℕ → Batches → Result BulkPayment × Batches
submit id user_id w = with_batch (λ b. submit_batch id b w) (lookup id w) w

abbrev pub approve_batch : ℕ → ℕ → BulkPayment → Batches → Result BulkPayment × Batches
approve_batch id checker_id b w = when_allowed (is_pending b.status) w (
    if b.created_by == checker_id
    then (err maker_checker, w)
    else update id (record b { status = BulkStatus.approved; approved_by = some checker_id }) w)

unfoldable pub approve : ℕ → ℕ → Batches → Result BulkPayment × Batches
approve id checker_id w = with_batch (λ b. approve_batch id checker_id b w) (lookup id w) w

abbrev pub reject_batch : ℕ → BulkPayment → Batches → Result BulkPayment × Batches
reject_batch id b w =
    when_allowed (is_pending b.status) w (update id (record b { status = BulkStatus.draft }) w)

unfoldable pub reject : ℕ → ℕ → Batches → Result BulkPayment × Batches
reject id checker_id w = with_batch (λ b. reject_batch id b w) (lookup id w) w

abbrev pub executed : BulkPayment → ℕ
executed b = length (filter (λ (l : BulkLine). l.valid) b.lines)

abbrev pub end_status : ℕ → BulkStatus
end_status n = if ltb 0 n then BulkStatus.completed else BulkStatus.failed

abbrev pub execute_batch : ℕ → ℕ → BulkPayment → Batches → Result BulkPayment × Batches
execute_batch now id b w =
    when_allowed (is_approved b.status) w
      (update id (record b { status = end_status (executed b); completed_at = some now }) w)

unfoldable pub execute : ℕ → ℕ → Batches → Result BulkPayment × Batches
execute now id w = with_batch (λ b. execute_batch now id b w) (lookup id w) w

-- A row of the export, before its cells are joined by commas.
pub record ExportRow : Type 0 where
  pub line : ℕ
  pub telephone : Text
  pub montant : Amount
  pub reference : Text
  pub statut : Bool
  pub erreurs : List LineError

abbrev pub export_row : BulkLine → ExportRow
export_row l = record {
  line = l.line_number;
  telephone = l.receiver_phone;
  montant = l.amount_minor;
  reference = l.reference;
  statut = l.valid;
  erreurs = l.errors;
}

abbrev pub export_batch : Option BulkPayment → Result (List ExportRow)
export_batch none = err bulk_not_found
export_batch (some b) = ok (map export_row b.lines)

unfoldable pub export_csv : ℕ → Batches → Result (List ExportRow)
export_csv id w = export_batch (lookup id w)
