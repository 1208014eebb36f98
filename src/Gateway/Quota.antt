-- ===== src/Gateway/Quota.antt =====
-- services/developer-gateway/src/rate-limit/rate-limit.service.ts: how many calls of one key are let
-- through in any sixty seconds.
use cauripay.Common.{
  ℕ, suc, ◌+◌, ◌-◌, ◌≤◌, ◌<◌, ◌≡◌, refl, ap, ◌∙◌, Bool, ◌&&◌, Option, none, some, List, [], ◌∷◌,
  ◌++◌, zero, arith, leb, ltb, ◌==◌, if◌then◌else◌, Bool-cases, ==_self, inl, inr,
}
use mathlib.Core.Path.{subst}
use cauripay.Common.Dict.{Dict, lookup, insert, lookup-insert_self, lookup-insert_ne}
use cauripay.Gateway.{RateLimitState, Verdict, consume, consume_found, first_call, window_ms, limit}

pub record Call : Type 0 where
  pub now : ℕ
  pub raw_key : ℕ

-- The calls come at times that do not go back.
abbrev pub Ordered : ℕ → List Call → Type 0
Ordered s [] = Unit
Ordered s (c ∷ cs) = (s ≤ c.now) × Ordered c.now cs

abbrev pub within : ℕ → ℕ → Bool
within t now = leb t now && ltb now (t + window_ms)

-- How many calls of one bucket are let through from `t` on, for sixty seconds.
unfoldable pub allowed_from : (ℕ → ℕ) → ℕ → ℕ → List Call → Dict RateLimitState → ℕ
allowed_from sha256 b t [] w = 0
allowed_from sha256 b t (c ∷ cs) w =
    let (v, w') = consume sha256 c.now c.raw_key w in
    (if (sha256 c.raw_key == b) && within t c.now && v.allowed then 1 else 0)
    + allowed_from sha256 b t cs w'

-- The same count, by the state of the one bucket: a call of another key leaves it.
unfoldable count_from : (ℕ → ℕ) → ℕ → ℕ → List Call → Option RateLimitState → ℕ
count_from sha256 b t [] o = 0
count_from sha256 b t (c ∷ cs) o =
    let (v, s) = consume_found c.now o in
    let mine = count_from sha256 b t cs (some s) in
    let other = count_from sha256 b t cs o in
    if sha256 c.raw_key == b then (if within t c.now && v.allowed then 1 else 0) + mine else other

allowed_from-count :
    (sha256 : ℕ → ℕ) (b t : ℕ) (cs : List Call) (w : Dict RateLimitState)
    → allowed_from sha256 b t cs w ≡ count_from sha256 b t cs (lookup b w)
unfolding allowed_from count_from consume
allowed_from-count sha256 b t [] w = refl
allowed_from-count sha256 b t (c ∷ cs) w = elim (Bool-cases (sha256 c.raw_key == b)) [
  | inl same ↦
      let k : sha256 c.raw_key ≡ b = ground arith in
      subst
        (λ (x : ℕ).
          allowed_from sha256 x t (c ∷ cs) w ≡ count_from sha256 x t (c ∷ cs) (lookup x w))
        k
        (rw (==_self (sha256 c.raw_key)) (
          ap (λ (n : ℕ). (if within t c.now && out.0.allowed then 1 else 0) + n)
            (allowed_from-count sha256 (sha256 c.raw_key) t cs w'
              ∙ ap (count_from sha256 (sha256 c.raw_key) t cs)
                  (lookup-insert_self (sha256 c.raw_key) out.1 w))))
  | inr other ↦ rw other (
      omega (
        arith,
        allowed_from-count sha256 b t cs w',
        ap (count_from sha256 b t cs)
            (lookup-insert_ne (sha256 c.raw_key) b out.1 w (ground arith)),
      ))
]
  where
    out : Verdict × RateLimitState
    out = consume_found c.now (lookup (sha256 c.raw_key) w)

    w' : Dict RateLimitState
    w' = insert (sha256 c.raw_key) out.1 w

module _ (sha256 : ℕ → ℕ) (b t : ℕ) where
  -- No call counts once the sixty seconds are over.
  late-count :
      (now : ℕ) (cs : List Call) (o : Option RateLimitState)
      → Ordered now cs
      → t + window_ms ≤ now
      → count_from sha256 b t cs o ≡ 0
  unfolding count_from
  late-count now [] o h l = refl
  late-count now (c ∷ cs) o h l = ground (
    arith,
    late-count c.now cs (some (consume_found c.now o).1) h.1 (omega (arith, h.0)),
    late-count c.now cs o h.1 (omega (arith, h.0)),
    h.0,
  )

  -- A window that began at `t` or later.
  same-count :
      (now : ℕ) (cs : List Call) (s : RateLimitState)
      → Ordered now cs
      → t ≤ s.window_start
      → count_from sha256 b t cs (some s) ≤ limit - s.count
  unfolding count_from
  same-count now [] s h l = omega arith
  same-count now (c ∷ cs) s h l = ground (
    arith,
    same-count c.now cs s h.1 l,
    same-count c.now cs (record { count = s.count + 1; window_start = s.window_start }) h.1 l,
    late-count c.now cs (some (first_call c.now).1) h.1,
  )

  -- The calls that a window still lets through, and those of the next one.
  room : Option RateLimitState → ℕ
  room none = limit
  room (some s) = (limit - s.count) + limit

  early-count :
      (now : ℕ) (cs : List Call) (o : Option RateLimitState)
      → Ordered now cs
      → t ≤ now
      → count_from sha256 b t cs o ≤ room o
  unfolding count_from room
  early-count now [] none h l = omega arith
  early-count now [] (some s) h l = omega arith
  early-count now (c ∷ cs) none h l =
      ground
        (arith, h.0, early-count c.now cs none h.1, same-count c.now cs (first_call c.now).1 h.1)
  early-count now (c ∷ cs) (some s) h l = ground (
    arith,
    h.0,
    early-count c.now cs (some s) h.1,
    early-count c.now cs (some (record { count = s.count + 1; window_start = s.window_start })) h.1,
    same-count c.now cs (first_call c.now).1 h.1,
  )

  any-count :
      (now : ℕ) (cs : List Call) (o : Option RateLimitState)
      → Ordered now cs
      → count_from sha256 b t cs o ≤ limit + limit
  unfolding count_from room
  any-count now [] o h = omega arith
  any-count now (c ∷ cs) o h = elim (Bool-cases (leb t c.now)) [
    | inl early ↦
        let k = early-count c.now (c ∷ cs) o (omega arith, h.1) (ground arith) in
        omega (arith, k, room-le o)
    | inr before ↦
        ground
          (arith, any-count c.now cs o h.1, any-count c.now cs (some (consume_found c.now o).1) h.1)
  ]
    where
      room-le : (o : Option RateLimitState) → room o ≤ limit + limit
      room-le none = omega arith
      room-le (some s) = omega arith

-- In any sixty seconds, at most 2000 calls of the keys of one bucket are let through, whatever other
-- calls come between, when the clock does not go back: twice the limit, since the windows are fixed.
pub allowed_from-le :
    (sha256 : ℕ → ℕ) (b t start : ℕ) (cs : List Call) (w : Dict RateLimitState)
    → Ordered start cs
    → allowed_from sha256 b t cs w ≤ 2000
allowed_from-le sha256 b t start cs w h =
    omega (arith, allowed_from-count sha256 b t cs w, any-count sha256 b t start cs (lookup b w) h)

unfoldable pub repeat : ℕ → Call → List Call
repeat zero c = []
repeat (suc n) c = c ∷ repeat n c

-- Calls at one time, with room in their window, are all let through.
repeat-count :
    (sha256 : ℕ → ℕ) (t n : ℕ) (c : Call) (rest : List Call) (s : RateLimitState)
    → s.count + n ≤ limit
    → c.now - s.window_start < window_ms
    → t ≤ c.now
    → c.now < t + window_ms
    → count_from sha256 (sha256 c.raw_key) t (repeat n c ++ rest) (some s)
      ≡ n
        + count_from sha256
            (sha256 c.raw_key)
            t
            rest
            (some (record { count = s.count + n; window_start = s.window_start }))
unfolding count_from repeat
repeat-count sha256 t zero c rest s fits inside le lt = ground arith
repeat-count sha256 t (suc n) c rest s fits inside le lt = ground (
  arith,
  repeat-count sha256 t n c rest (record { count = s.count + 1; window_start = s.window_start })
      (omega (arith, fits)) inside le lt,
)

-- One call opens a window; 999 follow in its last millisecond, and a thousand as soon as it is over.
unfoldable pub burst : ℕ → ℕ → List Call
burst key s =
    record { now = s; raw_key = key }
    ∷ (repeat 999 (record { now = s + 59_999; raw_key = key })
        ++ (record { now = s + 60_000; raw_key = key }
            ∷ (repeat 999 (record { now = s + 60_000; raw_key = key }) ++ [])))

-- From the last millisecond of a window on, 1999 calls of one key are let through within two
-- milliseconds.
pub burst-count :
    (sha256 : ℕ → ℕ) (key s : ℕ)
    → allowed_from sha256 (sha256 key) (s + 59_999) (burst key s) [] ≡ 1999
unfolding burst lookup count_from
burst-count sha256 key s =
    let last : Call = record { now = s + 60_000; raw_key = key } in
    let opened : RateLimitState = record { count = 1; window_start = s } in
    let reopened : RateLimitState = record { count = 1; window_start = s + 60_000 } in
    ground (
      arith,
      allowed_from-count sha256 (sha256 key) (s + 59_999) (burst key s) [],
      repeat-count sha256 (s + 59_999) 999 (record { now = s + 59_999; raw_key = key })
          (last ∷ (repeat 999 last ++ [])) opened,
      repeat-count sha256 (s + 59_999) 999 last [] reopened,
    )
