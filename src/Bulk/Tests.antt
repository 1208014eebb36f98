-- ===== src/Bulk/Tests.antt =====
-- One batch from its CSV to its end, and the theorems at it.
use cauripay.Common.{◌≡◌, ◌↔◌, refl, true, none, some, List, [], ◌∷◌, ◌++◌}
use cauripay.Common.Text.{Text, split}
use cauripay.Common.Dict.{lookup, insert}
use cauripay.Rules.{trim, validate_phone_number}
use cauripay.Bulk.{
  BulkStatus, BulkPayment, Numeral, Draw, upload, submit, approve, execute, validate_line,
  validate_from, split_lines, fraction,
}
use cauripay.Bulk.Workflow.{
  Op, upload_csv, act_on, submit_by, approve_by, execute_at, act, run_ops, Sound, run_ops-AllSound,
}
use cauripay.Bulk.Lines.{GoodColumns, validate_line_iff}
use cauripay.Bulk.Moves.{Moved, act-Moved}

-- Every amount reads as 2 / 5.
abbrev number : Text → Numeral
number t = fraction 2 5

abbrev phone : Text
phone = b'+' ∷ b'2' ∷ b'3' ∷ b'5' ∷ b'6' ∷ b'6' ∷ b'1' ∷ b'2' ∷ b'3' ∷ b'4' ∷ b'5' ∷ b'6' ∷ []

abbrev line : Text
line = b'A' ∷ b',' ∷ (phone ++ b',' ∷ b'0' ∷ b'.' ∷ b'4' ∷ b',' ∷ b'R' ∷ [])

abbrev draw : Draw
draw = record { id = 5; start = 0; end = 10 }

abbrev ops : List Op
ops =
    upload_csv draw 1 2 (b'h' ∷ 10 ∷ line)
    ∷ act_on 5 (submit_by 2)
    ∷ act_on 5 (approve_by 3)
    ∷ act_on 5 (execute_at 99)
    ∷ []

abbrev ended : BulkPayment
ended = record {
  id = 5;
  merchant_id = 1;
  created_by = 2;
  approved_by = some 3;
  status = BulkStatus.completed;
  lines = validate_line number 2 line ∷ [];
  created_at = 10;
  completed_at = some 99;
}

ended_found : lookup 5 (run_ops number ops []) ≡ some ended
unfolding run_ops lookup insert upload submit approve execute validate_line validate_from
    split_lines split trim validate_phone_number
ended_found = refl

run_ops-AllSound_example : Sound ended
run_ops-AllSound_example = run_ops-AllSound number ops 5 ended ended_found

good : GoodColumns number (split b',' line)
unfolding split trim validate_phone_number
good = record {
  recipient = b'A' ∷ [];
  phone = phone;
  amount = b'0' ∷ b'.' ∷ b'4' ∷ [];
  reference = b'R' ∷ [];
  four = refl;
  named = refl;
  reachable = refl;
  given = refl;
  positive = refl;
  referenced = refl;
}

validate_line_iff_example :
    ((validate_line number 2 line).valid ≡ true) ↔ GoodColumns number (split b',' line)
validate_line_iff_example = validate_line_iff number 2 line

abbrev waiting : BulkPayment
waiting = record ended {
  status = BulkStatus.pending_approval;
  approved_by = none;
  completed_at = none;
}

act-Moved_example : Moved 5 waiting ((5, waiting) ∷ []) (act (approve_by 3) 5 ((5, waiting) ∷ [])).1
unfolding lookup
act-Moved_example = act-Moved 5 waiting ((5, waiting) ∷ []) refl (approve_by 3)
