-- ===== src/Kyc.antt =====
-- services/kyc-service/src/kyc/kyc.service.ts and amq/kyc-events.publisher.ts: KYC records, their
-- review, the audit entries and the messages that are published.
--
-- Encryption is a parameter, a function of a random value and the document. A message that the
-- broker does not take is only logged; `connected` tells whether it takes one. The rows and the audit
-- entries are kept in the order in which they were written (submittedAt, createdAt).
pub mod Review
pub mod Overlap
pub mod Queue
mod Tests
use cauripay.Common.{
  ℕ, zero, suc, ◌+◌, ◌*◌, ◌-◌, Bool, true, false, not, ◌&&◌, ◌||◌, Option, none, some, List, [],
  ◌∷◌, ◌++◌, map, leb, ltb, ◌==◌, if◌then◌else◌, filter, length, take, max, is_some,
}
use cauripay.Common.Dict.{Dict, lookup, insert}
use mathlib.Core.List.{reverse}
use cauripay.Rules.{KycLevel}
use cauripay.Notify.{Message, TypeName, unlisted}

pub data KycStatus : Type 0 where
  pending approved rejected : KycStatus

pub data DocumentType : Type 0 where
  national_id passport driver_license business_registration utility_bill : DocumentType

pub record KycRecord : Type 0 where
  pub id : ℕ
  pub user_id : ℕ
  pub level : KycLevel
  pub document_type : DocumentType
  pub document_encrypted : ℕ
  pub selfie_encrypted : Option ℕ
  pub status : KycStatus
  pub country : Option ℕ
  pub reject_reason : Option ℕ
  pub reviewed_by : Option ℕ
  pub reviewed_at : Option ℕ

pub data AuditAction : Type 0 where
  submit approve : AuditAction
  reject : ℕ → AuditAction

pub record KycAuditLog : Type 0 where
  pub kyc_id : ℕ
  pub actor : ℕ
  pub action : AuditAction

-- `kyc.submitted`, `kyc.approved` and `kyc.rejected` with their fields.
pub data KycEvent : Type 0 where
  kyc_submitted : ℕ → ℕ → KycLevel → DocumentType → KycEvent
  kyc_approved : ℕ → ℕ → KycLevel → KycEvent
  kyc_rejected : ℕ → ℕ → KycLevel → ℕ → KycEvent

pub record World : Type 0 where
  pub records : Dict KycRecord
  pub history : List KycAuditLog
  pub events : List KycEvent
  pub notices : List Message
  pub next_id : ℕ

-- What one request draws: the clock, two random values, and whether the broker takes messages.
pub record Env : Type 0 where
  pub now : ℕ
  pub document_iv : ℕ
  pub selfie_iv : ℕ
  pub connected : Bool

pub data KycError : Type 0 where
  kyc_not_found kyc_already_reviewed : KycError

pub data Result (A : Type 0) : Type 0 where
  ok : A → Result A
  err : KycError → Result A

pub record SubmitKycDto : Type 0 where
  pub level : KycLevel
  pub document_type : DocumentType
  pub document : ℕ
  pub selfie : Option ℕ
  pub country : Option ℕ

abbrev pub publish : Env → KycEvent → World → World
publish env e w = if env.connected then record w { events = w.events ++ e ∷ [] } else w

-- `{ type, userId, kycId }`: no title, no body, no channel, and a field that is not in the schema
-- of the receiver.
abbrev pub notice_of : ℕ → ℕ → Message
notice_of type user_id = record {
  user_id = some user_id;
  type = some (unlisted type);
  channel = none;
  title = none;
  body = none;
  payload = none;
  extra = true;
}

abbrev pub publish_notification : Env → ℕ → ℕ → World → World
publish_notification env type user_id w =
    if env.connected then record w { notices = w.notices ++ notice_of type user_id ∷ [] } else w

-- 'kyc.rejected', which is no NotificationType.
abbrev pub rejected_type : ℕ
rejected_type = 1

abbrev pub encrypt_selfie : (ℕ → ℕ → ℕ) → ℕ → Option ℕ → Option ℕ
encrypt_selfie encrypt iv none = none
encrypt_selfie encrypt iv (some s) = some (encrypt iv s)

abbrev pub new_record : (ℕ → ℕ → ℕ) → Env → ℕ → ℕ → SubmitKycDto → KycRecord
new_record encrypt env id user_id dto = record {
  id = id;
  user_id = user_id;
  level = dto.level;
  document_type = dto.document_type;
  document_encrypted = encrypt env.document_iv dto.document;
  selfie_encrypted = encrypt_selfie encrypt env.selfie_iv dto.selfie;
  status = KycStatus.pending;
  country = dto.country;
  reject_reason = none;
  reviewed_by = none;
  reviewed_at = none;
}

-- A write of a row with its audit entry, which Prisma makes in one transaction.
abbrev pub write : KycRecord → ℕ → AuditAction → World → World
write r actor action w = record w {
  records = insert r.id r w.records;
  history = w.history ++ record { kyc_id = r.id; actor = actor; action = action } ∷ [];
}

unfoldable pub submit_kyc : (ℕ → ℕ → ℕ) → Env → ℕ → SubmitKycDto → World → KycRecord × World
submit_kyc encrypt env user_id dto w =
    let r = new_record encrypt env w.next_id user_id dto in
    let v = write r user_id AuditAction.submit (record w { next_id = w.next_id + 1 }) in
    (r, publish env (kyc_submitted r.id user_id r.level r.document_type) v)

abbrev pub is_pending : KycStatus → Bool
is_pending KycStatus.pending = true
is_pending _ = false

abbrev pub pending_found : Option KycRecord → Result KycRecord
pending_found none = err kyc_not_found
pending_found (some r) = if is_pending r.status then ok r else err kyc_already_reviewed

unfoldable pub get_pending : ℕ → World → Result KycRecord
get_pending id w = pending_found (lookup id w.records)

pub record ReviewResult : Type 0 where
  pub id : ℕ
  pub status : KycStatus

abbrev pub approved_row : Env → ℕ → KycRecord → KycRecord
approved_row env officer_id r = record r {
  status = KycStatus.approved;
  reviewed_by = some officer_id;
  reviewed_at = some env.now;
}

abbrev pub rejected_row : Env → ℕ → ℕ → KycRecord → KycRecord
rejected_row env officer_id reason r = record r {
  status = KycStatus.rejected;
  reject_reason = some reason;
  reviewed_by = some officer_id;
  reviewed_at = some env.now;
}

-- UPDATE … WHERE id = ?: the columns that are named, of the row as it is in the table.
abbrev pub update_found :
    (KycRecord → KycRecord) → ℕ → AuditAction → Option KycRecord → World → World
update_found f actor action none w = w
update_found f actor action (some r) w = write (f r) actor action w

-- What follows the check: `r` is the row that was read.
unfoldable pub approve_checked : Env → ℕ → KycRecord → World → ReviewResult × World
approve_checked env officer_id r w =
    let v =
      update_found (approved_row env officer_id) officer_id AuditAction.approve
        (lookup r.id w.records) w in
    (
      record { id = r.id; status = KycStatus.approved },
      publish env (kyc_approved r.id r.user_id r.level) v,
    )

unfoldable pub reject_checked : Env → ℕ → ℕ → KycRecord → World → ReviewResult × World
reject_checked env officer_id reason r w =
    let v =
      update_found (rejected_row env officer_id reason) officer_id (AuditAction.reject reason)
        (lookup r.id w.records) w in
    (
      record { id = r.id; status = KycStatus.rejected },
      publish_notification env rejected_type r.user_id
          (publish env (kyc_rejected r.id r.user_id r.level reason) v),
    )

abbrev pub reviewed :
    Result KycRecord → (KycRecord → ReviewResult × World) → World → Result ReviewResult × World
reviewed (err e) f w = (err e, w)
reviewed (ok r) f w = let out = f r in (ok out.0, out.1)

unfoldable pub approve_kyc : Env → ℕ → ℕ → World → Result ReviewResult × World
approve_kyc env id officer_id w =
    reviewed (get_pending id w) (λ r. approve_checked env officer_id r w) w

unfoldable pub reject_kyc : Env → ℕ → ℕ → ℕ → World → Result ReviewResult × World
reject_kyc env id officer_id reason w =
    reviewed (get_pending id w) (λ r. reject_checked env officer_id reason r w) w

pub record QueueFilters : Type 0 where
  pub status : Option KycStatus
  pub level : Option KycLevel
  pub document_type : Option DocumentType
  pub page : Option ℕ

abbrev pub same_status : KycStatus → KycStatus → Bool
same_status KycStatus.pending KycStatus.pending = true
same_status KycStatus.approved KycStatus.approved = true
same_status KycStatus.rejected KycStatus.rejected = true
same_status _ _ = false

abbrev pub same_level : KycLevel → KycLevel → Bool
same_level KycLevel.basic KycLevel.basic = true
same_level KycLevel.verified KycLevel.verified = true
same_level KycLevel.premium KycLevel.premium = true
same_level _ _ = false

abbrev pub same_document : DocumentType → DocumentType → Bool
same_document DocumentType.national_id DocumentType.national_id = true
same_document DocumentType.passport DocumentType.passport = true
same_document DocumentType.driver_license DocumentType.driver_license = true
same_document DocumentType.business_registration DocumentType.business_registration = true
same_document DocumentType.utility_bill DocumentType.utility_bill = true
same_document _ _ = false

abbrev pub wanted_status : Option KycStatus → KycStatus
wanted_status none = KycStatus.pending
wanted_status (some s) = s

abbrev pub level_matches : Option KycLevel → KycLevel → Bool
level_matches none l = true
level_matches (some k) l = same_level k l

abbrev pub document_matches : Option DocumentType → DocumentType → Bool
document_matches none d = true
document_matches (some k) d = same_document k d

abbrev pub matches : QueueFilters → KycRecord → Bool
matches filters r =
    same_status (wanted_status filters.status) r.status
    && level_matches filters.level r.level
    && document_matches filters.document_type r.document_type

abbrev pub page_of : Option ℕ → ℕ
page_of none = 1
page_of (some p) = max 1 p

abbrev pub page_size : ℕ
page_size = 25

abbrev pub drop {ℓ} : {A : Type ℓ} → ℕ → List A → List A
drop zero xs = xs
drop (suc n) [] = []
drop (suc n) (x ∷ xs) = drop n xs

pub record QueuePage : Type 0 where
  pub items : List KycRecord
  pub total : ℕ
  pub page : ℕ

abbrev pub records_of : Dict KycRecord → List KycRecord
records_of d = map (λ (e : ℕ × KycRecord). e.1) d

-- The last five audit entries that each item carries are left to `history_of`.
unfoldable pub queue : QueueFilters → World → QueuePage
queue filters w =
    let page = page_of filters.page in
    let found = filter (matches filters) (records_of w.records) in
    record {
      items = take page_size (drop ((page - 1) * page_size) found);
      total = length found;
      page = page;
    }

-- ORDER BY createdAt DESC
abbrev pub history_of : ℕ → List KycAuditLog → List KycAuditLog
history_of id entries = filter (λ (h : KycAuditLog). h.kyc_id == id) (reverse entries)

abbrev pub with_history : World → Option KycRecord → Result (KycRecord × List KycAuditLog)
with_history w none = err kyc_not_found
with_history w (some r) = ok (r, history_of r.id w.history)

unfoldable pub get_by_id : ℕ → World → Result (KycRecord × List KycAuditLog)
get_by_id id w = with_history w (lookup id w.records)
