-- ===== src/Kyc/Overlap.antt =====
-- services/kyc-service/src/kyc/kyc.service.ts: two reviews that overlap, and the notice of a
-- rejection in the notification-service.
use cauripay.Common.{ℕ, ◌+◌, ◌≡◌, refl, ap, ◌∙◌, some, [], ◌∷◌, ◌++◌, arith, sum_by-append}
use cauripay.Common.Dict.{lookup, insert, lookup-insert_self}
use cauripay.Notify.{Channels, handle_message}
use cauripay.Notify
use cauripay.Kyc.{
  World, Env, KycRecord, AuditAction, KycEvent, ok, get_pending, approve_checked, reject_checked,
  publish, publish_notification, kyc_approved, kyc_rejected, rejected_type, update_found,
  approved_row, rejected_row, notice_of,
}
use cauripay.Kyc.Review.{decisions, decides}

publish-keeps :
    (env : Env) (e : KycEvent) (w : World)
    → ((publish env e w).records ≡ w.records) × ((publish env e w).history ≡ w.history)
publish-keeps env e w = ground arith

notice-keeps :
    (env : Env) (type user_id : ℕ) (w : World)
    → ((publish_notification env type user_id w).records ≡ w.records)
      × ((publish_notification env type user_id w).history ≡ w.history)
notice-keeps env type user_id w = ground arith

get_pending-found :
    (id : ℕ) (w : World) (r : KycRecord) → get_pending id w ≡ ok r → lookup id w.records ≡ some r
unfolding get_pending
get_pending-found id w r h = ground arith

approve_checked-effect :
    (env : Env) (a : ℕ) (r : KycRecord) (w : World)
    → lookup r.id w.records ≡ some r
    → ((approve_checked env a r w).1.records ≡ insert r.id (approved_row env a r) w.records)
      × ((approve_checked env a r w).1.history
          ≡ w.history ++ record { kyc_id = r.id; actor = a; action = AuditAction.approve } ∷ [])
unfolding approve_checked
approve_checked-effect env a r w found =
    let k =
      publish-keeps env (kyc_approved r.id r.user_id r.level)
        (update_found (approved_row env a) a AuditAction.approve (lookup r.id w.records) w) in
    (k.0 ∙ rw found refl, k.1 ∙ rw found refl)

reject_checked-effect :
    (env : Env) (b reason : ℕ) (r x : KycRecord) (w : World)
    → x.id ≡ r.id
    → lookup r.id w.records ≡ some x
    → ((reject_checked env b reason r w).1.records
        ≡ insert x.id (rejected_row env b reason x) w.records)
      × ((reject_checked env b reason r w).1.history
          ≡ w.history
            ++ record { kyc_id = x.id; actor = b; action = AuditAction.reject reason } ∷ [])
unfolding reject_checked
reject_checked-effect env b reason r x w same found =
    let u =
      update_found (rejected_row env b reason) b (AuditAction.reject reason) (lookup r.id w.records)
        w in
    let k = publish-keeps env (kyc_rejected r.id r.user_id r.level reason) u in
    let n =
      notice-keeps env rejected_type r.user_id
        (publish env (kyc_rejected r.id r.user_id r.level reason) u) in
    (n.0 ∙ k.0 ∙ rw found refl, n.1 ∙ k.1 ∙ rw found refl)

-- Two requests of which each reads the pending row before the other writes: both succeed. The record
-- is approved and then rejected, with two decisions more among its audit entries, and ends as the
-- later one left it.
pub overlapping_decisions :
    (first second : Env) (a b reason : ℕ) (r : KycRecord) (w : World)
    → get_pending r.id w ≡ ok r
    → let v = (reject_checked second b reason r (approve_checked first a r w).1).1 in
      (decisions r.id v.history ≡ decisions r.id w.history + 2)
      × (lookup r.id v.records ≡ some (rejected_row second b reason (approved_row first a r)))
overlapping_decisions first second a b reason r w checked =
    let x = approved_row first a r in
    let u = (approve_checked first a r w).1 in
    let e = approve_checked-effect first a r w (get_pending-found r.id w r checked) in
    let known : lookup r.id u.records ≡ some x =
      ap (lookup r.id) e.0 ∙ lookup-insert_self r.id x w.records in
    let f = reject_checked-effect second b reason r x u refl known in
    (
      ap (decisions r.id) f.1
          ∙ ground (
            arith,
            sum_by-append (decides r.id) u.history
                (record { kyc_id = r.id; actor = b; action = AuditAction.reject reason } ∷ []),
            ap (decisions r.id) e.1,
            sum_by-append (decides r.id) w.history
                (record { kyc_id = r.id; actor = a; action = AuditAction.approve } ∷ []),
          ),
      ap (lookup r.id) f.0 ∙ lookup-insert_self r.id _ u.records,
    )

-- The notice of a rejection, whoever it is for, changes nothing in the notification-service: the
-- message does not pass its schema.
pub notice_ignored :
    (channels : Channels) (now user_id : ℕ) (w : Notify.World)
    → handle_message channels now (some (notice_of rejected_type user_id)) w ≡ w
unfolding handle_message
notice_ignored channels now user_id w = refl
