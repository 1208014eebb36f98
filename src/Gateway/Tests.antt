-- ===== src/Gateway/Tests.antt =====
-- The quota at one call, and a key that is revoked and rotated.
use cauripay.Common.{refl, ◌≡◌, none, false, ◌≤◌, [], ◌∷◌, arith}
use cauripay.Common.Dict.{lookup}
use cauripay.Gateway.ApiKeys.{DevApiKey, KeyMode, KeyPrefix, Draw, authenticate, revoke}
use cauripay.Gateway.Revocation.{rotation, run_ops, revoke-authenticate}
use cauripay.Gateway.Quota.{allowed_from, allowed_from-le}

allowed_from-le_example :
    allowed_from (λ k. k) 4 10 (record { now = 20; raw_key = 4 } ∷ []) [] ≤ 2000
allowed_from-le_example =
    allowed_from-le (λ k. k) 4 10 0 (record { now = 20; raw_key = 4 } ∷ []) [] (omega arith)

abbrev key : DevApiKey
key = record {
  id = 1;
  developer_id = 5;
  mode = KeyMode.live;
  key_prefix = KeyPrefix.sk;
  key_hash = 40;
  revoked = false;
  created_at = 0;
}

abbrev draw : Draw
draw = record { id = 2; raw = 41; now = 9 }

revoke-authenticate_example :
    authenticate
      (λ r. r)
      40
      (run_ops (λ r. r) (rotation draw 5 1 ∷ []) (revoke 1 ((1, key) ∷ [])).1)
    ≡ none
unfolding lookup
revoke-authenticate_example =
    revoke-authenticate (λ r. r) 40 1 key ((1, key) ∷ []) (rotation draw 5 1 ∷ []) refl refl
      ((λ e. absurd (omega (arith, e)), λ e. absurd (omega (arith, e))), tt)
