-- ===== src/Kyc/Review.antt =====
-- services/kyc-service/src/kyc/kyc.service.ts: every record is decided at most once, and its audit
-- entries say so.
use cauripay.Common.{
  ℕ, ◌+◌, ◌≤◌, ◌<◌, ◌≡◌, refl, sym, ap, ◌∙◌, Bool, true, false, not, ◌&&◌, ◌⊎◌, inl, inr, Option,
  none, some, List, [], ◌∷◌, ◌++◌, arith, ◌==◌, if◌then◌else◌, is_some, sum_by, sum_by-append,
  Bool-cases,
}
use mathlib.Core.Path.{subst}
use cauripay.Common.Dict.{Dict, lookup, insert, lookup-insert}
use cauripay.Kyc.{
  World, Env, KycRecord, KycStatus, KycAuditLog, AuditAction, KycEvent, SubmitKycDto, ReviewResult,
  KycError, ok, err, submit_kyc, approve_kyc, reject_kyc, get_pending, pending_found,
  approve_checked, reject_checked, reviewed, is_pending, publish, publish_notification, write,
  update_found, approved_row, rejected_row, new_record, notice_of,
}

abbrev pub is_decision : AuditAction → Bool
is_decision AuditAction.submit = false
is_decision _ = true

abbrev pub decides : ℕ → KycAuditLog → ℕ
decides id h = if (h.kyc_id == id) && is_decision h.action then 1 else 0

-- How often a record was decided, as its audit entries say.
abbrev pub decisions : ℕ → List KycAuditLog → ℕ
decisions id history = sum_by (decides id) history

abbrev pub decided : KycStatus → ℕ
decided s = if is_pending s then 0 else 1

pub record RowAudited (history : List KycAuditLog) (next_id id : ℕ) (r : KycRecord) : Type 0 where
  pub own_id : r.id ≡ id
  pub old : id < next_id
  pub entries : decisions id history ≡ decided r.status
  pub signed : is_some r.reviewed_by ≡ not (is_pending r.status)

pub record Audited (records : Dict KycRecord) (history : List KycAuditLog) (next_id : ℕ)
    : Type 0 where
  pub rows : (id : ℕ) (r : KycRecord) → lookup id records ≡ some r → RowAudited history next_id id r
  pub fresh : (id : ℕ) → next_id ≤ id → decisions id history ≡ 0

abbrev pub IsAudited : World → Type 0
IsAudited w = Audited w.records w.history w.next_id

publish-IsAudited :
    (env : Env) (e : KycEvent) (w : World) → IsAudited w → IsAudited (publish env e w)
publish-IsAudited env e w a = by_test env.connected
  where
    by_test : (b : Bool) → IsAudited (if b then record w { events = w.events ++ e ∷ [] } else w)
    by_test true = a
    by_test false = a

notice-IsAudited :
    (env : Env) (type user_id : ℕ) (w : World)
    → IsAudited w
    → IsAudited (publish_notification env type user_id w)
notice-IsAudited env type user_id w a = by_test env.connected
  where
    by_test :
        (b : Bool)
        → IsAudited
            (if b then record w { notices = w.notices ++ notice_of type user_id ∷ [] } else w)
    by_test true = a
    by_test false = a

-- A row is written with an entry of its own; the others keep theirs.
write-IsAudited :
    (r : KycRecord) (actor : ℕ) (action : AuditAction) (w : World)
    → IsAudited w
    → r.id < w.next_id
    → decisions r.id w.history + (if is_decision action then 1 else 0) ≡ decided r.status
    → is_some r.reviewed_by ≡ not (is_pending r.status)
    → IsAudited (write r actor action w)
write-IsAudited r actor action w a old count signed = record {
  rows = λ id x e. by_key id x e (Bool-cases (r.id == id));
  fresh = λ id le. ground (arith, added id, a.fresh id le);
}
  where
    entry : KycAuditLog
    entry = record { kyc_id = r.id; actor = actor; action = action }

    added :
        (id : ℕ)
        → decisions id (w.history ++ entry ∷ []) ≡ decisions id w.history + (decides id entry + 0)
    added id = sum_by-append (decides id) w.history (entry ∷ [])

    by_key :
        (id : ℕ) (x : KycRecord)
        → lookup id (insert r.id r w.records) ≡ some x
        → ((r.id == id) ≡ true) ⊎ ((r.id == id) ≡ false)
        → RowAudited (w.history ++ entry ∷ []) w.next_id id x
    by_key id x e (inl same) =
        let i : r.id ≡ id = ground arith in
        let own : RowAudited (w.history ++ entry ∷ []) w.next_id r.id r = record {
          own_id = refl;
          old = old;
          entries = ground (arith, added r.id);
          signed = signed;
        } in
        subst (λ (j : ℕ). RowAudited (w.history ++ entry ∷ []) w.next_id j x) i
          (subst (RowAudited (w.history ++ entry ∷ []) w.next_id r.id)
            (ground (arith, lookup-insert r.id id r w.records)) own)
    by_key id x e (inr other) =
        let h = a.rows id x (ground (arith, lookup-insert r.id id r w.records)) in
        record {
          own_id = h.own_id;
          old = h.old;
          entries = ground (arith, added id, h.entries);
          signed = h.signed;
        }

pub data Op : Type 0 where
  submitted : Env → ℕ → SubmitKycDto → Op
  approval : Env → ℕ → ℕ → Op
  rejection : Env → ℕ → ℕ → ℕ → Op

abbrev pub run_op : (ℕ → ℕ → ℕ) → Op → World → World
run_op encrypt (submitted env user_id dto) w = (submit_kyc encrypt env user_id dto w).1
run_op encrypt (approval env id officer_id) w = (approve_kyc env id officer_id w).1
run_op encrypt (rejection env id officer_id reason) w = (reject_kyc env id officer_id reason w).1

unfoldable pub run_ops : (ℕ → ℕ → ℕ) → List Op → World → World
run_ops encrypt [] w = w
run_ops encrypt (op ∷ ops) w = run_ops encrypt ops (run_op encrypt op w)

abbrev pub empty_world : World
empty_world = record { records = []; history = []; events = []; notices = []; next_id = 1 }

pending_none : (s : KycStatus) → is_pending s ≡ true → decided s ≡ 0
pending_none s e = rw e

module _ (id : ℕ) (w : World) (a : IsAudited w) where
  -- A decision on a row that is still pending.
  decide-IsAudited :
      (f : KycRecord → KycRecord) (actor : ℕ) (action : AuditAction) (r : KycRecord)
      → ((x : KycRecord) → (f x).id ≡ x.id)
      → ((x : KycRecord) → is_pending (f x).status ≡ false)
      → ((x : KycRecord) → is_some (f x).reviewed_by ≡ true)
      → is_decision action ≡ true
      → lookup id w.records ≡ some r
      → is_pending r.status ≡ true
      → IsAudited (update_found f actor action (lookup r.id w.records) w)
  decide-IsAudited f actor action r keeps done signs decision found pending =
      let h = a.rows id r found in
      let own : lookup r.id w.records ≡ some r =
        subst (λ (i : ℕ). lookup i w.records ≡ some r) (sym h.own_id) found in
      let none_yet : decisions r.id w.history ≡ 0 =
        subst (λ (i : ℕ). decisions i w.history ≡ 0) (sym h.own_id)
          (h.entries ∙ pending_none r.status pending) in
      subst (λ (o : Option KycRecord). IsAudited (update_found f actor action o w)) (sym own)
        (write-IsAudited (f r) actor action w a (omega (arith, keeps r, h.own_id, h.old))
          (rw (decision, done r)
            (ap (λ (n : ℕ). n + 1) (ap (λ (i : ℕ). decisions i w.history) (keeps r) ∙ none_yet)))
          (signs r ∙ ap not (sym (done r))))

  reviewed-IsAudited :
      (f : KycRecord → ReviewResult × World)
      → ((r : KycRecord)
          → lookup id w.records ≡ some r
          → is_pending r.status ≡ true
          → IsAudited (f r).1)
      → IsAudited (reviewed (get_pending id w) f w).1
  unfolding get_pending
  reviewed-IsAudited f k = by_row (lookup id w.records) (λ r e. k r e)
    where
      by_row :
          (o : Option KycRecord)
          → ((r : KycRecord) → o ≡ some r → is_pending r.status ≡ true → IsAudited (f r).1)
          → IsAudited (reviewed (pending_found o) f w).1
      by_row none k = a
      by_row (some r) k = by_status (is_pending r.status) (k r refl)
        where
          by_status :
              (b : Bool)
              → (b ≡ true → IsAudited (f r).1)
              → IsAudited (reviewed (if b then ok r else err KycError.kyc_already_reviewed) f w).1
          by_status true h = h refl
          by_status false h = a

run_op-IsAudited :
    (encrypt : ℕ → ℕ → ℕ) (op : Op) (w : World) → IsAudited w → IsAudited (run_op encrypt op w)
unfolding submit_kyc approve_kyc reject_kyc approve_checked reject_checked
run_op-IsAudited encrypt (submitted env user_id dto) w a = publish-IsAudited env _ _ (
    write-IsAudited (new_record encrypt env w.next_id user_id dto) user_id AuditAction.submit
      (record w { next_id = w.next_id + 1 })
      (record {
        rows = λ id r e.
            let h = a.rows id r e in
            record {
              own_id = h.own_id;
              old = omega (arith, h.old);
              entries = h.entries;
              signed = h.signed;
            };
        fresh = λ id le. a.fresh id (omega arith);
      })
      (omega arith) (omega (arith, a.fresh w.next_id (omega arith))) refl)
run_op-IsAudited encrypt (approval env id officer_id) w a =
    reviewed-IsAudited id w a (λ r. approve_checked env officer_id r w)
      (λ r e p. publish-IsAudited env _ _ (
        decide-IsAudited id w a (approved_row env officer_id) officer_id AuditAction.approve r
          (λ x. refl) (λ x. refl) (λ x. refl) refl e p))
run_op-IsAudited encrypt (rejection env id officer_id reason) w a =
    reviewed-IsAudited id w a (λ r. reject_checked env officer_id reason r w)
      (λ r e p. notice-IsAudited env _ _ _ (
        publish-IsAudited env _ _ (
          decide-IsAudited id w a (rejected_row env officer_id reason) officer_id
            (AuditAction.reject reason) r (λ x. refl) (λ x. refl) (λ x. refl) refl e p)))

-- Whatever is submitted, approved and rejected, one request after the other, from no records: a
-- record that is pending has no decision among its audit entries and no reviewer, and one that is
-- approved or rejected has exactly one decision and a reviewer.
pub run_ops-RowAudited :
    (encrypt : ℕ → ℕ → ℕ) (ops : List Op) (id : ℕ) (r : KycRecord)
    → lookup id (run_ops encrypt ops empty_world).records ≡ some r
    → RowAudited
        (run_ops encrypt ops empty_world).history
        (run_ops encrypt ops empty_world).next_id
        id
        r
unfolding run_ops lookup
run_ops-RowAudited encrypt ops =
    (runs ops empty_world (record { rows = λ id r e. cc e; fresh = λ id le. refl })).rows
  where
    runs : (ops : List Op) (w : World) → IsAudited w → IsAudited (run_ops encrypt ops w)
    runs [] w a = a
    runs (op ∷ ops) w a = runs ops (run_op encrypt op w) (run_op-IsAudited encrypt op w a)
