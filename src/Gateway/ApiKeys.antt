-- ===== src/Gateway/ApiKeys.antt =====
-- services/developer-gateway/src/api-keys/api-keys.service.ts: the keys of developers.
--
-- SHA-256 is a parameter; the random id and the random key of a creation are drawn outside.
use cauripay.Common.{
  ℕ, Bool, true, false, Option, none, some, List, ◌==◌, if◌then◌else◌, filter, map,
}
use cauripay.Common.Dict.{Dict, lookup, insert, find_row}

pub data KeyMode : Type 0 where
  sandbox live : KeyMode

pub data KeyPrefix : Type 0 where
  sk pk : KeyPrefix

pub record DevApiKey : Type 0 where
  pub id : ℕ
  pub developer_id : ℕ
  pub mode : KeyMode
  pub key_prefix : KeyPrefix
  pub key_hash : ℕ
  pub revoked : Bool
  pub created_at : ℕ

pub record Draw : Type 0 where
  pub id : ℕ
  pub raw : ℕ
  pub now : ℕ

abbrev pub Keys : Type 0
Keys = Dict DevApiKey

-- The raw key is given once, and only its hash is kept.
unfoldable pub create : (ℕ → ℕ) → Draw → ℕ → KeyMode → KeyPrefix → Keys → (DevApiKey × ℕ) × Keys
create sha256 draw developer_id mode prefix keys =
    let key : DevApiKey = record {
      id = draw.id;
      developer_id = developer_id;
      mode = mode;
      key_prefix = prefix;
      key_hash = sha256 draw.raw;
      revoked = false;
      created_at = draw.now;
    } in
    ((key, draw.raw), insert draw.id key keys)

abbrev pub revoke_found : ℕ → Option DevApiKey → Keys → Bool × Keys
revoke_found id none keys = (false, keys)
revoke_found id (some key) keys = (true, insert id (record key { revoked = true }) keys)

unfoldable pub revoke : ℕ → Keys → Bool × Keys
revoke id keys = revoke_found id (lookup id keys) keys

unfoldable pub rotate : (ℕ → ℕ) → Draw → ℕ → ℕ → Keys → (DevApiKey × ℕ) × Keys
rotate sha256 draw developer_id id keys =
    create sha256 draw developer_id KeyMode.sandbox KeyPrefix.sk (revoke id keys).1

abbrev pub unrevoked : Option DevApiKey → Option DevApiKey
unrevoked none = none
unrevoked (some key) = if key.revoked then none else some key

-- The first key with the hash, in the order of creation.
unfoldable pub authenticate : (ℕ → ℕ) → ℕ → Keys → Option DevApiKey
authenticate sha256 raw keys =
    unrevoked (find_row (λ (k : DevApiKey). k.key_hash == sha256 raw) keys)

unfoldable pub list : ℕ → Keys → List DevApiKey
list developer_id keys =
    filter (λ (k : DevApiKey). k.developer_id == developer_id)
      (map (λ (e : ℕ × DevApiKey). e.1) keys)
