-- ===== src/Ussd/Menu.antt =====
-- services/ussd-service/src/menus/menu-tree.ts: `renderMenu`. A screen stands for its text in the two
-- languages; amounts on it are as they were typed, without the formatting of `formatAmount`.
use cauripay.Common.{
  ℕ, ◌+◌, Bool, true, false, ◌&&◌, ◌||◌, Option, none, some, List, [], ◌∷◌, leb, ◌==◌,
  if◌then◌else◌, length, all,
}
use cauripay.Rules.{is_digit}

abbrev pub Text : Type 0
Text = List ℕ

pub data Lang : Type 0 where
  fr ar : Lang

pub data ActionType : Type 0 where
  balance transfer bill withdraw : ActionType

pub data StepId : Type 0 where
  root main transfer_recipient transfer_amount transfer_confirm : StepId
  bill_provider bill_amount bill_confirm withdraw_otp withdraw_confirm : StepId

pub record MenuData : Type 0 where
  pub recipient : Option Text
  pub amount : Option Text
  pub provider : Option Text
  pub otp : Option Text

abbrev pub no_data : MenuData
no_data = record { recipient = none; amount = none; provider = none; otp = none }

pub data Screen : Type 0 where
  lang_menu main_menu recipient_prompt amount_prompt provider_prompt : Screen
  bill_amount_prompt otp_prompt confirm_withdraw : Screen
  confirm_transfer : (recipient amount : Text) → Screen
  confirm_bill : (provider amount : Text) → Screen

-- `invalid` is whether the text begins with « Saisie invalide ».
pub record RenderResult : Type 0 where
  pub step : StepId
  pub screen : Screen
  pub invalid : Bool
  pub action : Option ActionType
  pub data_update : MenuData

abbrev pub digits : Text → Bool
digits t = all is_digit t

abbrev pub until_point : Text → Text
until_point [] = []
until_point (c ∷ s) = if c == b'.' then [] else c ∷ until_point s

abbrev pub after_point : Text → Option Text
after_point [] = none
after_point (c ∷ s) = if c == b'.' then some s else after_point s

abbrev pub fraction_ok : Option Text → Bool
fraction_ok none = true
fraction_ok (some f) = digits f && leb 1 (length f) && leb (length f) 2

-- `AMOUNT_RE`: one to nine digits, then a point and one or two digits or nothing.
unfoldable pub amount_re : Text → Bool
amount_re t =
    let whole = until_point t in
    digits whole && leb 1 (length whole) && leb (length whole) 9 && fraction_ok (after_point t)

abbrev pub without_plus : Text → Text
without_plus [] = []
without_plus (c ∷ s) = if c == b'+' then s else c ∷ s

-- `PHONE_RE`: an optional plus sign and eight to fifteen digits.
unfoldable pub phone_re : Text → Bool
phone_re t = let n = without_plus t in digits n && leb 8 (length n) && leb (length n) 15

-- `OTP_RE`.
unfoldable pub otp_re : Text → Bool
otp_re t = digits t && length t == 6

-- What the menus tell apart in a short input.
pub data Key : Type 0 where
  empty one two three four french arabic other : Key

abbrev pub letter : ℕ → ℕ → Bool
letter lower c = c == lower || c + 32 == lower

unfoldable pub key : Text → Key
key [] = empty
key (c ∷ []) =
    if c == b'1'
    then one
    else if c == b'2'
    then two
    else if c == b'3'
    then three
    else if c == b'4'
    then four
    else other
key (c ∷ d ∷ []) =
    if letter b'f' c && letter b'r' d
    then french
    else if letter b'a' c && letter b'r' d
    then arabic
    else other
key (c ∷ d ∷ e ∷ s) = other

-- `isLangChoice`.
abbrev pub lang_choice : Key → Option Lang
lang_choice french = some Lang.fr
lang_choice one = some Lang.fr
lang_choice arabic = some Lang.ar
lang_choice two = some Lang.ar
lang_choice _ = none

abbrev pub or_empty : Option Text → Text
or_empty none = []
or_empty (some t) = t

abbrev pub goes : StepId → Screen → MenuData → RenderResult
goes step screen d = record {
  step = step;
  screen = screen;
  invalid = false;
  action = none;
  data_update = d;
}

-- The current screen again.
abbrev pub again : StepId → Screen → RenderResult
again step screen = record {
  step = step;
  screen = screen;
  invalid = true;
  action = none;
  data_update = no_data;
}

-- `isEnd`, with the action to run; the final text is the executor's.
abbrev pub ends : StepId → ActionType → RenderResult
ends step action = record {
  step = step;
  screen = main_menu;
  invalid = false;
  action = some action;
  data_update = no_data;
}

-- The label of a provider, without the words in brackets, where alone the languages differ.
abbrev pub provider_label : Key → Option Text
provider_label one = some (b'S' ∷ b'N' ∷ b'E' ∷ [])
provider_label two = some (b'S' ∷ b'T' ∷ b'E' ∷ b'E' ∷ [])
provider_label three = some (b'C' ∷ b'a' ∷ b'n' ∷ b'a' ∷ b'l' ∷ b'+' ∷ [])
provider_label _ = none

abbrev pub root_result : Key → RenderResult
root_result empty = goes StepId.root lang_menu no_data
root_result french = goes StepId.main main_menu no_data
root_result one = goes StepId.main main_menu no_data
root_result arabic = goes StepId.main main_menu no_data
root_result two = goes StepId.main main_menu no_data
root_result _ = again StepId.root lang_menu

abbrev pub main_result : Key → RenderResult
main_result one = ends StepId.main ActionType.balance
main_result two = goes StepId.transfer_recipient recipient_prompt no_data
main_result three = goes StepId.bill_provider provider_prompt no_data
main_result four = goes StepId.withdraw_otp otp_prompt no_data
main_result _ = again StepId.main main_menu

-- The three confirmations: `1` runs the action, `2` goes back.
abbrev pub confirm_result : StepId → ActionType → Screen → Key → RenderResult
confirm_result step action screen one = ends step action
confirm_result step action screen two = goes StepId.main main_menu no_data
confirm_result step action screen _ = again step screen

-- `BILL_PROVIDERS[raw]`: a name that every object inherits, such as `constructor`, is found too, and
-- its missing label throws.
abbrev pub provider_result : Bool → Option Text → Option RenderResult
provider_result inherited (some label) =
    some (goes StepId.bill_amount bill_amount_prompt (record no_data { provider = some label }))
provider_result true none = none
provider_result false none = some (again StepId.bill_provider provider_prompt)

abbrev pub typed : Bool → RenderResult → RenderResult → RenderResult
typed true yes' no' = yes'
typed false yes' no' = no'

-- `renderMenu`, on the trimmed input; `none` is an exception. `inherited` tells the names of
-- `Object.prototype`.
unfoldable pub render_menu : (Text → Bool) → StepId → Text → MenuData → Option RenderResult
render_menu inherited StepId.root raw d = some (root_result (key raw))
render_menu inherited StepId.main raw d = some (main_result (key raw))
render_menu inherited StepId.transfer_recipient raw d = some (
    typed (phone_re raw)
      (goes StepId.transfer_amount amount_prompt (record no_data { recipient = some raw }))
      (again StepId.transfer_recipient recipient_prompt))
render_menu inherited StepId.transfer_amount raw d = some (
    typed (amount_re raw)
      (goes StepId.transfer_confirm (confirm_transfer (or_empty d.recipient) raw)
        (record no_data { amount = some raw }))
      (again StepId.transfer_amount amount_prompt))
render_menu inherited StepId.transfer_confirm raw d = some (
    confirm_result StepId.transfer_confirm ActionType.transfer
      (confirm_transfer (or_empty d.recipient) (or_empty d.amount)) (key raw))
render_menu inherited StepId.bill_provider raw d =
    provider_result (inherited raw) (provider_label (key raw))
render_menu inherited StepId.bill_amount raw d = some (
    typed (amount_re raw)
      (goes StepId.bill_confirm (confirm_bill (or_empty d.provider) raw)
        (record no_data { amount = some raw }))
      (again StepId.bill_amount bill_amount_prompt))
render_menu inherited StepId.bill_confirm raw d = some (
    confirm_result StepId.bill_confirm ActionType.bill
      (confirm_bill (or_empty d.provider) (or_empty d.amount)) (key raw))
render_menu inherited StepId.withdraw_otp raw d = some (
    typed (otp_re raw)
      (goes StepId.withdraw_confirm confirm_withdraw (record no_data { otp = some raw }))
      (again StepId.withdraw_otp otp_prompt))
render_menu inherited StepId.withdraw_confirm raw d =
    some (confirm_result StepId.withdraw_confirm ActionType.withdraw confirm_withdraw (key raw))
