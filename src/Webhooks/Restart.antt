-- ===== src/Webhooks/Restart.antt =====
-- legacy/server/src/webhooks.ts: `resumePendingRetries`, which runs once when the server starts.
use cauripay.Common.{
  ℕ, ◌≡◌, refl, ap, ◌∙◌, Bool, ◌&&◌, List, [], ◌∷◌, map, arith, ◌==◌, any, any-append, filter,
}
use mathlib.Core.List.{reverse, reverse-cons}
use cauripay.Webhooks.{World, Timer, AttemptRow, is_pending, resumed, resume_pending_retries}

any-reverse {ℓ} : {A : Type ℓ} (p : A → Bool) (xs : List A) → any p (reverse xs) ≡ any p xs
any-reverse p [] = refl
any-reverse p (x ∷ xs) =
    ap (any p) (reverse-cons x xs)
    ∙ ground (arith, any-append p (reverse xs) (x ∷ []), any-reverse p xs)

-- A process that starts has no timers; it resumes the pending rows.
abbrev pub restart : ℕ → World → World
restart now w = (resume_pending_retries now (record w { timers = [] })).1

any-pending :
    (now id : ℕ) (rows : List AttemptRow)
    → any (λ (t : Timer). t.attempt_id == id) (map (resumed now) (filter (is_pending now) rows))
      ≡ any (λ (r : AttemptRow). (r.id == id) && is_pending now r) rows
any-pending now id [] = refl
any-pending now id (r ∷ rows) = ground (arith, any-pending now id rows)

-- After a restart a timer waits for a row exactly when a row of its id is still marked failed, has
-- been tried fewer than four times, and the time of its next try has passed already.
pub restart-waits :
    (now id : ℕ) (w : World)
    → any (λ (t : Timer). t.attempt_id == id) (restart now w).timers
      ≡ any (λ (r : AttemptRow). (r.id == id) && is_pending now r) w.attempts
unfolding resume_pending_retries
restart-waits now id w =
    any-pending now id (reverse w.attempts)
    ∙ any-reverse (λ (r : AttemptRow). (r.id == id) && is_pending now r) w.attempts
