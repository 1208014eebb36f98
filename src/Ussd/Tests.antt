-- ===== src/Ussd/Tests.antt =====
-- Sessions of *100# as they are typed, and the theorems at them.
use cauripay.Common.{ℕ, ◌≡◌, refl, Bool, false, List, [], ◌∷◌, All}
use cauripay.Rules.{trim}
use cauripay.Ussd.Menu.{Text, key, render_menu, phone_re, amount_re}
use cauripay.Ussd.Session.{ApiCall, transfer, ApiReply, reference, handle}
use cauripay.Ussd.Invariant.{Input, run, empty_store, CallOk, EntryOk, run_calls-CallOk}

abbrev inherited : Text → Bool
inherited t = false

abbrev serve : List ApiCall → ApiCall → ApiReply
serve calls c = reference []

abbrev msisdn : Text
msisdn = b'6' ∷ []

abbrev phone : Text
phone = b'6' ∷ b'6' ∷ b'0' ∷ b'0' ∷ b'0' ∷ b'0' ∷ b'0' ∷ b'1' ∷ []

abbrev amount : Text
amount = b'5' ∷ b'0' ∷ b'0' ∷ []

abbrev typed : Text → Input
typed t = record { now = 1000; session_id = 4; msisdn = msisdn; input = t }

-- French, send money, the number, the amount, confirm.
abbrev inputs : List Input
inputs = typed (b'1' ∷ []) ∷ typed (b'2' ∷ []) ∷ typed phone ∷ typed amount ∷ typed (b'1' ∷ []) ∷ []

one_transfer :
    (run inherited serve inputs empty_store).calls ≡ transfer msisdn 1000 phone amount ∷ []
unfolding run handle render_menu key trim phone_re amount_re
one_transfer = refl

run_calls-CallOk_example :
    All CallOk (run inherited serve inputs empty_store).calls
    × ((id : ℕ) → EntryOk ((run inherited serve inputs empty_store).sessions id))
run_calls-CallOk_example = run_calls-CallOk inherited serve inputs
