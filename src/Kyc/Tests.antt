-- ===== src/Kyc/Tests.antt =====
-- One record that is submitted and rejected, and the theorems at it.
use cauripay.Common.{ℕ, ◌+◌, ◌≡◌, refl, true, none, some, List, [], ◌∷◌}
use cauripay.Common.Dict.{lookup, insert}
use cauripay.Rules.{KycLevel}
use cauripay.Notify
use cauripay.Notify.{Channels}
use cauripay.Kyc.{
  World, Env, KycRecord, KycStatus, DocumentType, SubmitKycDto, QueueFilters, submit_kyc,
  reject_kyc, reject_checked, get_pending, ok, rejected_row, approved_row, approve_checked,
}
use cauripay.Kyc.Review.{
  Op, submitted, rejection, run_ops, empty_world, RowAudited, run_ops-RowAudited, decisions,
}
use cauripay.Kyc.Overlap.{overlapping_decisions}

abbrev encrypt : ℕ → ℕ → ℕ
encrypt iv document = iv + document

abbrev env : Env
env = record { now = 10; document_iv = 3; selfie_iv = 4; connected = true }

abbrev dto : SubmitKycDto
dto = record {
  level = KycLevel.verified;
  document_type = DocumentType.passport;
  document = 50;
  selfie = none;
  country = none;
}

abbrev ops : List Op
ops = submitted env 7 dto ∷ rejection env 1 8 5 ∷ []

abbrev waiting_row : KycRecord
waiting_row = record {
  id = 1;
  user_id = 7;
  level = KycLevel.verified;
  document_type = DocumentType.passport;
  document_encrypted = 53;
  selfie_encrypted = none;
  status = KycStatus.pending;
  country = none;
  reject_reason = none;
  reviewed_by = none;
  reviewed_at = none;
}

rejected_found :
    lookup 1 (run_ops encrypt ops empty_world).records ≡ some (rejected_row env 8 5 waiting_row)
unfolding run_ops submit_kyc reject_kyc reject_checked get_pending lookup insert
rejected_found = refl

run_ops-RowAudited_example :
    RowAudited
      (run_ops encrypt ops empty_world).history
      (run_ops encrypt ops empty_world).next_id
      1
      (rejected_row env 8 5 waiting_row)
run_ops-RowAudited_example = run_ops-RowAudited encrypt ops 1 _ rejected_found

abbrev waiting : World
waiting = (submit_kyc encrypt env 7 dto empty_world).1

waiting_checked : get_pending 1 waiting ≡ ok waiting_row
unfolding submit_kyc get_pending lookup insert
waiting_checked = refl

overlapping_decisions_example :
    (decisions 1
        (reject_checked env 9 5 waiting_row (approve_checked env 8 waiting_row waiting).1).1.history
      ≡ decisions 1 waiting.history + 2)
    × (lookup 1
          (reject_checked env 9 5 waiting_row
            (approve_checked env 8 waiting_row waiting).1).1.records
        ≡ some (rejected_row env 9 5 (approved_row env 8 waiting_row)))
overlapping_decisions_example =
    overlapping_decisions env env 8 9 5 waiting_row waiting waiting_checked

abbrev channels : Channels
channels = record { has_adapter = λ c. true; send = λ sends c s. none }

abbrev nothing_sent : Notify.World
nothing_sent = record { rows = []; sends = []; dead = []; next_id = 1 }

abbrev filters : QueueFilters
filters = record { status = none; level = none; document_type = none; page = none }
