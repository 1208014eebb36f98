-- ===== src/ApiCore/Calls/Keeps.antt =====
-- What the handlers write, as closure conditions on a property of the users, of the transactions and
-- of the codes.
use cauripay.Common.{
  ℕ, ◌≡◌, ◌≢◌, refl, ◌⊎◌, inl, inr, Bool, true, false, ◌&&◌, Option, none, some, [], ◌∷◌, arith,
  ◌==◌, if◌then◌else◌, All, sym,
}
use cauripay.Common.Dict.{Dict, lookup, insert, find_row}
use cauripay.ApiCore.World.{
  World, Env, User, UserStatus, Transaction, TransactionStatus, Purpose, Entry, Secret, Action,
  and_then,
}
use cauripay.ApiCore.Auth.{same_purpose}
use cauripay.ApiCore.Transactions.{update_tx, write_row}
use cauripay.ApiCore.Calls.{Call, sends}

abbrev pub Codes : Type 0
Codes = Purpose → ℕ → Option (Entry Secret)

abbrev pub set_code : Purpose → ℕ → Option (Entry Secret) → Codes → Codes
set_code p k v f q j = if same_purpose p q && k == j then v else f q j

-- The value stands in the table.
abbrev pub HoldsRow : {V : Type 0} → V → Dict V → Type 0
HoldsRow v [] = ⊥
HoldsRow v (e ∷ d) = (e.1 ≡ v) ⊎ HoldsRow v d

module _ {V : Type 0} where
  pub found-HoldsRow : (p : V → Bool) (v : V) (d : Dict V) → find_row p d ≡ some v → HoldsRow v d
  found-HoldsRow p v [] e = cc e
  found-HoldsRow p v (x ∷ d) e = ground (arith, found-HoldsRow p v d)

  pub find_row_sound : (p : V → Bool) (v : V) (d : Dict V) → find_row p d ≡ some v → p v ≡ true
  find_row_sound p v [] e = cc e
  find_row_sound p v (x ∷ d) e = ground (arith, find_row_sound p v d)

  pub looked-HoldsRow : (k : ℕ) (v : V) (d : Dict V) → lookup k d ≡ some v → HoldsRow v d
  unfolding lookup
  looked-HoldsRow k v [] e = cc e
  looked-HoldsRow k v (x ∷ d) e = ground (arith, looked-HoldsRow k v d)

  pub All-HoldsRow :
      (P : ℕ × V → Type 0) (v : V) (d : Dict V) → All P d → HoldsRow v d → (k : ℕ) × P (k, v)
  All-HoldsRow P v [] h m = absurd m
  All-HoldsRow P v ((k, u) ∷ d) (h, hs) (inl e) = (k, rw (sym e) h)
  All-HoldsRow P v ((k, u) ∷ d) (h, hs) (inr m) = All-HoldsRow P v d hs m

  pub All-insert :
      (P : ℕ × V → Type 0) (k : ℕ) (v : V) (d : Dict V) → All P d → P (k, v) → All P (insert k v d)
  unfolding insert
  All-insert P k v [] hs h = (h, tt)
  All-insert P k v ((j, w) ∷ d) (g, hs) h = by_test (j == k) (All-insert P k v d hs h)
    where
      by_test :
          (b : Bool)
          → All P (insert k v d)
          → All P (if b then (k, v) ∷ d else (j, w) ∷ insert k v d)
      by_test true rest = (h, hs)
      by_test false rest = (g, rest)

-- An update of a user keeps the id and the phone, and sets the status to LOCKED or keeps it.
pub record Edits (u v : User) : Type 0 where
  pub id : v.id ≡ u.id
  pub phone : v.phone ≡ u.phone
  pub status : (v.status ≡ u.status) ⊎ (v.status ≡ UserStatus.locked)

module _ (U : Dict User → Type 0) (T : Dict Transaction → Type 0) (O : Codes → Type 0) where
  -- What a request writes keeps the three properties.
  pub record Closed (env : Env) (c : Call) : Type 0 where
    pub edited : (u v : User) (d : Dict User) → HoldsRow u d → Edits u v → U d → U (insert v.id v d)
    pub created :
        (u : User) (d : Dict User)
        → u.id ≡ env.fresh_id
        → find_row (λ (x : User). x.phone == u.phone) d ≡ none
        → U d
        → U (insert env.fresh_id u d)
    pub added :
        (t : Transaction) (d : Dict Transaction) → t.id ≡ env.fresh_id → T d → T (insert t.id t d)
    pub moved :
        (id : ℕ) (s t : Transaction) (d : Dict Transaction)
        → lookup id d ≡ some s
        → t.id ≡ s.id
        → t.status ≢ TransactionStatus.pending
        → T d
        → T (insert id t d)
    pub erased : (p : Purpose) (k : ℕ) (f : Codes) → O f → O (set_code p k none f)
    pub sent :
        (p : Purpose) (k : ℕ) (v : Option (Entry Secret)) (f : Codes)
        → sends c p k ≡ true
        → O f
        → O (set_code p k v f)

  abbrev pub Kept : World → Type 0
  Kept w = U w.users × T w.transactions × O w.otps

  module _ {env : Env} {c : Call} (closed : Closed env c) where
    -- The update of a stored row, and what follows.
    pub update-Kept :
        {B : Type 0} (id : ℕ) (change : Transaction → Transaction) (f : Transaction → Action B)
        (w : World)
        → ((t : Transaction) → (change t).id ≡ t.id)
        → ((t : Transaction) → (change t).status ≢ TransactionStatus.pending)
        → ((d : Transaction) (v : World) → Kept v → Kept (f d v).1)
        → Kept w
        → Kept (and_then (update_tx id change w) f).1
    update-Kept {B} id change f w same off go (u, t, o) = by_row (lookup id w.transactions) refl
      where
        by_row :
            (r : Option Transaction)
            → lookup id w.transactions ≡ r
            → Kept (and_then (write_row r id change w) f).1
        by_row none e = (u, t, o)
        by_row (some s) e =
            go (change s) (record w { transactions = insert id (change s) w.transactions })
              (u, closed.moved id s (change s) w.transactions e (same s) (off s) t, o)
