-- ===== src/ApiCore/Calls/LockedRows.antt =====
-- The row of a locked user, under what the requests write.
use cauripay.Common.{
  ℕ, ◌≡◌, ◌≢◌, refl, ◌⊎◌, inl, inr, true, false, none, some, [], ◌∷◌, arith, All, sym, ◌∙◌, ◌==◌,
  find, is_some, Bool-cases,
}
use mathlib.Core.Path.{subst}
use cauripay.Common.Dict.{Dict, lookup, insert, find_row, lookup-insert}
use cauripay.ApiCore.World.{Env, User, UserStatus}
use cauripay.ApiCore.Calls.{Call}
use cauripay.ApiCore.Calls.Keeps.{Closed, Edits, All-HoldsRow, All-insert}

-- `id` is the primary key of the users, and `phone` is unique.
abbrev pub UsersKeyed : Dict User → Type 0
UsersKeyed [] = Unit
UsersKeyed ((k, u) ∷ d) =
    (k ≡ u.id) × All (λ (e : ℕ × User). (e.0 ≢ k) × (e.1.phone ≢ u.phone)) d × UsersKeyed d

module _ (phone id : ℕ) where
  -- Of the rows, the one of this id has the phone and is LOCKED.
  abbrev pub RowLocked : ℕ × User → Type 0
  RowLocked e =
      (e.0 ≡ e.1.id)
      × (e.1.phone ≡ phone → e.1.id ≡ id)
      × (e.1.id ≡ id → e.1.phone ≡ phone)
      × (e.1.id ≡ id → e.1.status ≡ UserStatus.locked)

  abbrev pub StaysLocked : Dict User → Type 0
  StaysLocked d = All RowLocked d × (is_some (lookup id d) ≡ true)

  still_there :
      (k : ℕ) (u : User) (d : Dict User)
      → is_some (lookup id d) ≡ true
      → is_some (lookup id (insert k u d)) ≡ true
  still_there k u d h = ground (arith, lookup-insert k id u d)

  -- While the locked row is there, its phone is not free.
  taken :
      (d : Dict User)
      → All RowLocked d
      → is_some (lookup id d) ≡ true
      → find_row (λ (x : User). x.phone == phone) d ≡ none
      → ⊥
  unfolding lookup
  taken [] hs there free = cc there
  taken ((k, u) ∷ d) (h, hs) there free = ground (arith, taken d hs)

  edited-RowLocked : (k : ℕ) (u v : User) → RowLocked (k, u) → Edits u v → RowLocked (v.id, v)
  edited-RowLocked k u v h e = (
    refl,
    (λ p. e.id ∙ h.1 (sym e.phone ∙ p)),
    (λ i. e.phone ∙ h.2 (sym e.id ∙ i)),
    λ i. by_status e.status (h.3 (sym e.id ∙ i)),
  )
    where
      by_status :
          (v.status ≡ u.status) ⊎ (v.status ≡ UserStatus.locked)
          → u.status ≡ UserStatus.locked
          → v.status ≡ UserStatus.locked
      by_status (inl same) was = same ∙ was
      by_status (inr now) was = now

  created-RowLocked :
      (fresh : ℕ) (u : User) (d : Dict User)
      → fresh ≢ id
      → u.id ≡ fresh
      → find_row (λ (x : User). x.phone == u.phone) d ≡ none
      → StaysLocked d
      → RowLocked (fresh, u)
  created-RowLocked fresh u d other own free (hs, there) = (
    sym own,
    (λ p.
        absurd
          (taken d hs there (subst (λ j. find_row (λ (x : User). x.phone == j) d ≡ none) p free))),
    (λ i. absurd (other (sym own ∙ i))),
    λ i. absurd (other (sym own ∙ i)),
  )

  pub Locked-Closed :
      (env : Env) (c : Call) → env.fresh_id ≢ id → Closed StaysLocked (λ _. Unit) (λ _. Unit) env c
  Locked-Closed env c fresh = record {
    edited = λ u v d m e h.
        let (k, row) = All-HoldsRow RowLocked u d h.0 m in
        (
          All-insert RowLocked v.id v d h.0 (edited-RowLocked k u v row e),
          still_there v.id v d h.1,
        );
    created = λ u d own free h. (
      All-insert RowLocked env.fresh_id u d h.0
          (created-RowLocked env.fresh_id u d fresh own free h),
      still_there env.fresh_id u d h.1,
    );
    added = λ t d e h. tt;
    moved = λ i s t d e f g h. tt;
    erased = λ q j f h. tt;
    sent = λ q j v f may h. tt;
  }

  -- The rows beside the one of the phone.
  others :
      (d : Dict User)
      → UsersKeyed d
      → All (λ (e : ℕ × User). (e.0 ≢ id) × (e.1.phone ≢ phone)) d
      → All RowLocked d
  others [] keyed hs = tt
  others ((k, x) ∷ d) (own, apart, keyed) ((not_id, not_phone), hs) = (
    (
      own,
      (λ p. absurd (not_phone p)),
      (λ i. absurd (not_id (own ∙ i))),
      λ i. absurd (not_id (own ∙ i)),
    ),
    others d keyed hs,
  )

  apart_found :
      (k : ℕ) (p : ℕ) (u : User) (d : Dict User)
      → All (λ (e : ℕ × User). (e.0 ≢ k) × (e.1.phone ≢ p)) d
      → find (λ (e : ℕ × User). e.1.phone == phone) d ≡ some (id, u)
      → k ≢ id
  apart_found k p u [] hs e same = cc e
  apart_found k p u (x ∷ d) ((h, h'), hs) e same = ground (arith, apart_found k p u d hs)

  pub locked-All :
      (u v : User) (d : Dict User)
      → UsersKeyed d
      → find (λ (e : ℕ × User). e.1.phone == phone) d ≡ some (id, u)
      → RowLocked (id, v)
      → All RowLocked (insert id v d)
  unfolding insert
  locked-All u v [] keyed e h = cc e
  locked-All u v ((k, x) ∷ d) (own, apart, keyed) e h = elim (Bool-cases (x.phone == phone)) [
    | inl same ↦
        let here : k ≡ id = ground arith in
        let mine : x.phone ≡ phone = ground arith in
        rw (==_of here) (
          h,
          others d keyed (
              subst (λ j. All (λ (r : ℕ × User). (r.0 ≢ id) × (r.1.phone ≢ j)) d) mine
                (subst (λ i. All (λ (r : ℕ × User). (r.0 ≢ i) × (r.1.phone ≢ x.phone)) d) here
                  apart)),
        )
    | inr other ↦
        let later : find (λ (r : ℕ × User). r.1.phone == phone) d ≡ some (id, u) = ground arith in
        let away : k ≢ id = apart_found k x.phone u d apart later in
        rw (==_ne away) (
          (
            own,
            (λ p. absurd (differs p other)),
            (λ i. absurd (away (own ∙ i))),
            λ i. absurd (away (own ∙ i)),
          ),
          locked-All u v d keyed later h,
        )
  ]
    where
      differs : x.phone ≡ phone → (x.phone == phone) ≡ false → ⊥
      differs p o = ground arith

      ==_of : k ≡ id → (k == id) ≡ true
      ==_of e' = ground arith

      ==_ne : k ≢ id → (k == id) ≡ false
      ==_ne n = ground arith
