-- ===== src/ApiCore/Transactions/Cash.antt =====
-- Cash-in and cash-out at an agent.
use cauripay.Common.{
  ℕ, ◌≡◌, ◌≢◌, refl, true, not, ◌⊎◌, inl, inr, Bool, none, some, List, ◌∷◌, arith, ap, ==_self, sym,
  ◌∙◌,
}
use cauripay.Common.Dict.{Dict, lookup-insert, lookup, insert, lookup-insert_self}
use cauripay.Rules.{TransactionType}
use cauripay.ApiCore.World.{
  TransactionStatus, Transaction, LedgerCall, credit, tx, World, Env, ApiError, Result, ok, err,
  User, Purpose, live, invalid_otp, not_found, no_wallet, and_then,
}
use cauripay.ApiCore.Ledger.{Exchange, Payload, read_exchange}
use cauripay.ApiCore.Status.{transition_result}
use cauripay.ApiCore.Auth.{put_otp, code_matches}
use cauripay.ApiCore.Reason.{or_raise_rule, raise_if_rule, result_rule}
use cauripay.ApiCore.Transactions.{
  RequiredRole, role_result, is_cash_in, succeed, update_tx, credit_client, confirm_cash_in,
}

-- Every row is stored under its own id.
abbrev pub TransactionsKeyed : World → Type 0
TransactionsKeyed w = (id : ℕ) (t : Transaction) → lookup id w.transactions ≡ some t → t.id ≡ id

row_here :
    (w : World) (id : ℕ) (row : Transaction)
    → TransactionsKeyed w
    → lookup id w.transactions ≡ some row
    → lookup row.id w.transactions ≡ some row
row_here w id row keyed found = ap (λ i. lookup i w.transactions) (keyed id row found) ∙ found

module _ (serve : List LedgerCall → Exchange) (scrypt : ℕ → ℕ → ℕ) where
  abbrev code_ok : Env → ℕ → ℕ → Purpose → World → Bool
  code_ok env phone code purpose w = code_matches scrypt code (live env.now (w.otps purpose phone))

  -- What holds of a confirmed cash-in.
  pub record Confirmed (env : Env) (agent_id id phone code : ℕ) (w : World) (d : Transaction)
      (v : World) : Type 0 where
    pub agent : User
    pub row : Transaction
    pub wallet : ℕ
    pub is_agent : role_result RequiredRole.needs_agent (lookup agent_id w.users) ≡ ok agent
    pub code_given : code_ok env phone code Purpose.cash_in w ≡ true
    pub found : lookup id w.transactions ≡ some row
    pub type : is_cash_in row.type ≡ true
    pub was_pending : row.status ≡ TransactionStatus.pending
    pub to_wallet : row.recipient_wallet_id ≡ some wallet
    pub own_id : row.id ≡ id
    pub entries : List ℕ
    pub asked : v.calls ≡ credit (tx row.id) row.id wallet row.amount ∷ w.calls
    pub result : d ≡ succeed env entries row
    pub stored : v.transactions ≡ insert row.id d w.transactions

  -- A confirmation that threw wrote no row, published no event and called the ledger at most once.
  pub record Unconfirmed (w v : World) : Type 0 where
    pub rows : v.transactions ≡ w.transactions
    pub silent : v.events ≡ w.events
    pub asked :
        (v.calls ≡ w.calls)
        ⊎ ((id wallet amount : ℕ) × (v.calls ≡ credit (tx id) id wallet amount ∷ w.calls))

  abbrev pub ConfirmOutcome : Env → ℕ → ℕ → ℕ → ℕ → World → Result Transaction × World → Type 0
  ConfirmOutcome env agent_id id phone code w (ok d, v) = Confirmed env agent_id id phone code w d v
  ConfirmOutcome env agent_id id phone code w (err e, v) = Unconfirmed w v

  untouched-Unconfirmed :
      (w v : World)
      → v.transactions ≡ w.transactions
      → v.events ≡ w.events
      → v.calls ≡ w.calls
      → Unconfirmed w v
  untouched-Unconfirmed w v rows silent same = record {
    rows = rows;
    silent = silent;
    asked = inl same;
  }

  pending_of_transition :
      (s : TransactionStatus) (u : Unit {0})
      → transition_result s TransactionStatus.processing ≡ ok u
      → s ≡ TransactionStatus.pending
  pending_of_transition s u e = ground arith

  module _ (env : Env) (agent_id id phone code : ℕ) (w : World) (keyed : TransactionsKeyed w) where
    used : World
    used = put_otp Purpose.cash_in phone none w

    -- A cash-in is credited only to an agent's request, with a live code, and only while the row is
    -- PENDING; the ledger is then asked once, for the row's own amount and wallet, and the row ends
    -- as SUCCESS. Any other confirmation leaves every row and event as it was.
    pub confirm_cash_in-outcome :
        ConfirmOutcome env agent_id id phone code w
          (confirm_cash_in serve scrypt env agent_id id phone code w)
    unfolding confirm_cash_in credit_client used
    confirm_cash_in-outcome =
        result_rule Q w _ (role_result RequiredRole.needs_agent (lookup agent_id w.users))
          (λ _ _. untouched-Unconfirmed w w refl refl refl)
          λ agent is_agent.
            raise_if_rule (λ r. Q (and_then r (λ _. credit_client serve scrypt env id))) w _
              (not (code_ok env phone code Purpose.cash_in w)) _
              (λ _. untouched-Unconfirmed w w refl refl refl)
              λ code_given.
                or_raise_rule Q used _ (lookup id w.transactions) not_found
                  (λ _. untouched-Unconfirmed w used refl refl refl)
                  λ row found.
                    raise_if_rule Q used _ (not (is_cash_in row.type)) not_found
                      (λ _. untouched-Unconfirmed w used refl refl refl)
                      λ type.
                        result_rule Q used _
                          (transition_result row.status TransactionStatus.processing)
                          (λ _ _. untouched-Unconfirmed w used refl refl refl)
                          λ u legal.
                            or_raise_rule Q used _ row.recipient_wallet_id no_wallet
                              (λ _. untouched-Unconfirmed w used refl refl refl)
                              λ wallet to_wallet.
                                result_rule Q
                                  (record used {
                                    calls = credit (tx row.id) row.id wallet row.amount ∷ w.calls;
                                  })
                                  _
                                  (read_exchange
                                    (serve (credit (tx row.id) row.id wallet row.amount ∷ w.calls)))
                                  (λ _ _. record {
                                    rows = refl;
                                    silent = refl;
                                    asked = inr (row.id, wallet, row.amount, refl);
                                  })
                                  λ reply answered.
                                    let own : row.id ≡ id = keyed id row found in
                                    let here : lookup row.id w.transactions ≡ some row =
                                      row_here w id row keyed found in
                                    rw (here, update_tx)
                                      record {
                                        agent = agent;
                                        row = row;
                                        wallet = wallet;
                                        is_agent = is_agent;
                                        code_given = ground arith;
                                        found = found;
                                        type = ground arith;
                                        was_pending = pending_of_transition row.status u legal;
                                        to_wallet = to_wallet;
                                        own_id = own;
                                        entries = reply.ledger_entry_ids;
                                        asked = refl;
                                        result = refl;
                                        stored = refl;
                                      }
      where
        Q : Result Transaction × World → Type 0
        Q = ConfirmOutcome env agent_id id phone code w

    -- The row that is confirmed and the phone whose code is checked are independent: with a live
    -- code of any phone an agent confirms any pending cash-in, whoever its client is.
    pub confirm_cash_in_any_phone :
        {agent : User} {row : Transaction} {wallet : ℕ} {reply : Payload}
        → role_result RequiredRole.needs_agent (lookup agent_id w.users) ≡ ok agent
        → code_ok env phone code Purpose.cash_in w ≡ true
        → lookup id w.transactions ≡ some row
        → row.type ≡ TransactionType.cash_in
        → row.status ≡ TransactionStatus.pending
        → row.recipient_wallet_id ≡ some wallet
        → read_exchange (serve (credit (tx row.id) row.id wallet row.amount ∷ w.calls)) ≡ ok reply
        → (confirm_cash_in serve scrypt env agent_id id phone code w).0
          ≡ ok (succeed env reply.ledger_entry_ids row)
    unfolding confirm_cash_in credit_client
    confirm_cash_in_any_phone {agent} {row} a c f ty st wa an =
        let here : lookup row.id w.transactions ≡ some row = row_here w id row keyed f in
        simp (a, c, f, ty, st, wa, an, here)

    -- A credit that the ledger refuses leaves every row as it was, the confirmed one PENDING, and
    -- uses the code up: the agent's next confirmation with that phone is INVALID_OTP at any time
    -- and for any code.
    pub confirm_cash_in_refused :
        {agent : User} {row : Transaction} {wallet : ℕ} (e : ApiError)
        → role_result RequiredRole.needs_agent (lookup agent_id w.users) ≡ ok agent
        → code_ok env phone code Purpose.cash_in w ≡ true
        → lookup id w.transactions ≡ some row
        → row.type ≡ TransactionType.cash_in
        → row.status ≡ TransactionStatus.pending
        → row.recipient_wallet_id ≡ some wallet
        → read_exchange (serve (credit (tx row.id) row.id wallet row.amount ∷ w.calls)) ≡ err e
        → let (r, v) = confirm_cash_in serve scrypt env agent_id id phone code w in
          (r ≡ err e)
          × (v.transactions ≡ w.transactions)
          × ((later : Env) (again : ℕ)
              → (confirm_cash_in serve scrypt later agent_id id phone again v).0 ≡ err invalid_otp)
    unfolding confirm_cash_in credit_client
    confirm_cash_in_refused {agent} {row} e a c f ty st wa an =
        simp (a, c, f, ty, st, wa, an) (refl, refl, λ later again. simp (==_self phone))

  pub insert-Keyed :
      (k : ℕ) (t : Transaction) (d : Dict Transaction)
      → ((id : ℕ) (r : Transaction) → lookup id d ≡ some r → r.id ≡ id)
      → t.id ≡ k
      → (id : ℕ) (r : Transaction) → lookup id (insert k t d) ≡ some r
      → r.id ≡ id
  insert-Keyed k t d keyed own id r e = grind (arith, lookup-insert k id t d, keyed id r)

  pub settled_not_pending :
      (id : ℕ) (row row' d : Transaction) (rows : Dict Transaction) (env : Env) (entries : List ℕ)
      → lookup id (insert row.id d rows) ≡ some row'
      → row.id ≡ id
      → d ≡ succeed env entries row
      → row'.status ≢ TransactionStatus.pending
  settled_not_pending id row row' d rows env entries found own is pending =
      let same : d ≡ row' = cc (
        sym (lookup-insert_self row.id d rows)
        ∙ ap (λ i. lookup i (insert row.id d rows)) own
        ∙ found) in
      cc (ap (λ (t : Transaction). t.status) same, ap (λ (t : Transaction). t.status) is)
