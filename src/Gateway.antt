-- ===== src/Gateway.antt =====
-- services/developer-gateway/src/rate-limit/rate-limit.service.ts: the quota of an API key.
--
-- SHA-256 is a parameter. Times are milliseconds.
pub mod Quota
pub mod ApiKeys
pub mod Revocation
mod Tests
use cauripay.Common.{ℕ, ◌+◌, ◌-◌, Bool, true, false, Option, none, some, leb, if◌then◌else◌}
use cauripay.Common.Dict.{Dict, lookup, insert}

pub record RateLimitState : Type 0 where
  pub count : ℕ
  pub window_start : ℕ

pub record Verdict : Type 0 where
  pub allowed : Bool
  pub limit : ℕ
  pub remaining : ℕ
  pub reset_at : ℕ

abbrev pub window_ms : ℕ
window_ms = 60_000

abbrev pub limit : ℕ
limit = 1000

abbrev pub first_call : ℕ → Verdict × RateLimitState
first_call now = (
  record { allowed = true; limit = limit; remaining = limit - 1; reset_at = now + window_ms },
  record { count = 1; window_start = now },
)

-- `Math.max(0, …)` is what the subtraction does.
abbrev pub next_call : RateLimitState → Verdict × RateLimitState
next_call s =
    let count = s.count + 1 in
    (
      record {
        allowed = leb count limit;
        limit = limit;
        remaining = limit - count;
        reset_at = s.window_start + window_ms;
      },
      record { count = count; window_start = s.window_start },
    )

abbrev pub consume_found : ℕ → Option RateLimitState → Verdict × RateLimitState
consume_found now none = first_call now
consume_found now (some s) =
    if leb window_ms (now - s.window_start) then first_call now else next_call s

-- The bucket of a key is changed where it lies in the map.
unfoldable pub consume : (ℕ → ℕ) → ℕ → ℕ → Dict RateLimitState → Verdict × Dict RateLimitState
consume sha256 now raw_key buckets =
    let out = consume_found now (lookup (sha256 raw_key) buckets) in
    (out.0, insert (sha256 raw_key) out.1 buckets)
