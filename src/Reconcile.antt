-- ===== src/Reconcile.antt =====
-- services/reconciliation-service/src/reconciliation/reconciliation.service.ts: the daily report on
-- the wallets.
--
-- The amounts are JavaScript numbers: their arithmetic is the parameter `Numbers`, so that nothing is
-- assumed about rounding. What the ledger's snapshot gives is an argument. The reports are kept in a
-- list, at most one for each id. The exports format a stored report and are left out.
pub mod Totals
mod Tests
use cauripay.Common.{ℕ, Bool, not, Option, List, [], ◌∷◌, map, ◌==◌, if◌then◌else◌, filter, find}
use cauripay.Common.Text.{Text, same_text}

-- The operations on numbers that the report uses: `+`, `-`, unary `-`, `Math.max`, `=== 0`.
pub record Numbers : Type 1 where
  pub Double : Type 0
  pub zero : Double
  pub add : Double → Double → Double
  pub sub : Double → Double → Double
  pub negate : Double → Double
  pub max : Double → Double → Double
  pub is_zero : Double → Bool

pub data ReportStatus : Type 0 where
  balanced unbalanced : ReportStatus

pub record WalletTotal (D : Type 0) : Type 0 where
  pub wallet_id : ℕ
  pub computed : D
  pub stored : D

pub record WalletLine (D : Type 0) : Type 0 where
  pub wallet_id : ℕ
  pub computed : D
  pub stored : D
  pub delta : D

pub record ReconciliationReport (D : Type 0) : Type 0 where
  pub id : Text
  pub date : Text
  pub status : ReportStatus
  pub total_credit : D
  pub total_debit : D
  pub delta : D
  pub lines : List (WalletLine D)
  pub created_at : ℕ

-- `date.replace(/-/g, '')` after `rec_`.
abbrev pub id_of : Text → Text
id_of date = b'r' ∷ b'e' ∷ b'c' ∷ b'_' ∷ filter (λ (c : ℕ). not (c == b'-')) date

abbrev pub Reports : Type 0 → Type 0
Reports D = List (ReconciliationReport D)

unfoldable pub save : {D : Type 0} → ReconciliationReport D → Reports D → Reports D
save {D} r reports = r ∷ filter (λ (x : ReconciliationReport D). not (same_text x.id r.id)) reports

unfoldable pub get : {D : Type 0} → Text → Reports D → Option (ReconciliationReport D)
get {D} date reports = find (λ (x : ReconciliationReport D). same_text x.id (id_of date)) reports

module _ (num : Numbers) where
  abbrev pub line_of : WalletTotal num.Double → WalletLine num.Double
  line_of t = record {
    wallet_id = t.wallet_id;
    computed = t.computed;
    stored = t.stored;
    delta = num.sub t.computed t.stored;
  }

  -- `lines.reduce((a, l) => a + f(l), start)`
  unfoldable pub add_up :
      (WalletLine num.Double → num.Double) → num.Double → List (WalletLine num.Double) → num.Double
  add_up f a [] = a
  add_up f a (l ∷ ls) = add_up f (num.add a (f l)) ls

  -- `Math.max(l.computed, 0)` and `Math.max(-l.computed, 0)`
  abbrev pub credit_of : WalletLine num.Double → num.Double
  credit_of l = num.max l.computed num.zero

  abbrev pub debit_of : WalletLine num.Double → num.Double
  debit_of l = num.max (num.negate l.computed) num.zero

  abbrev pub delta_of : WalletLine num.Double → num.Double
  delta_of l = l.delta

  abbrev pub status_of : num.Double → ReportStatus
  status_of delta = if num.is_zero delta then ReportStatus.balanced else ReportStatus.unbalanced

  abbrev pub report_of : ℕ → Text → List (WalletLine num.Double) → ReconciliationReport num.Double
  report_of now date lines = record {
    id = id_of date;
    date = date;
    status = status_of (add_up delta_of num.zero lines);
    total_credit = add_up credit_of num.zero lines;
    total_debit = add_up debit_of num.zero lines;
    delta = add_up delta_of num.zero lines;
    lines = lines;
    created_at = now;
  }

  unfoldable pub generate :
      ℕ
      → List (WalletTotal num.Double)
      → Text
      → Reports num.Double
      → ReconciliationReport num.Double × Reports num.Double
  generate now totals date reports =
      let report = report_of now date (map line_of totals) in (report, save report reports)
