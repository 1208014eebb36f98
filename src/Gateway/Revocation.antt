-- ===== src/Gateway/Revocation.antt =====
-- services/developer-gateway/src/api-keys/api-keys.service.ts: a revoked key, and the rotation.
use cauripay.Common.{
  ℕ, ◌≡◌, ◌≢◌, ◌∙◌, ap, refl, Bool, true, Option, none, some, List, [], ◌∷◌, arith, ◌==◌, find,
  find_sound, sym, inl, inr, All, Bool-cases,
}
use mathlib.Core.Path.{subst}
use cauripay.Common.Dict.{lookup, insert, row_of, lookup-insert_self, lookup-insert_ne}
use cauripay.Gateway.ApiKeys.{
  DevApiKey, KeyMode, KeyPrefix, Draw, Keys, create, revoke, revoke_found, rotate, authenticate,
  unrevoked,
}

pub data Op : Type 0 where
  created : Draw → ℕ → KeyMode → KeyPrefix → Op
  revocation : ℕ → Op
  rotation : Draw → ℕ → ℕ → Op

abbrev pub run_op : (ℕ → ℕ) → Op → Keys → Keys
run_op sha256 (created draw developer_id mode prefix) keys =
    (create sha256 draw developer_id mode prefix keys).1
run_op sha256 (revocation id) keys = (revoke id keys).1
run_op sha256 (rotation draw developer_id id) keys = (rotate sha256 draw developer_id id keys).1

unfoldable pub run_ops : (ℕ → ℕ) → List Op → Keys → Keys
run_ops sha256 [] keys = keys
run_ops sha256 (op ∷ ops) keys = run_ops sha256 ops (run_op sha256 op keys)

-- What an operation draws is neither the id nor, up to its hash, the key.
abbrev pub Spares : (ℕ → ℕ) → ℕ → ℕ → Op → Type 0
Spares sha256 id h (created draw developer_id mode prefix) = (draw.id ≢ id) × (sha256 draw.raw ≢ h)
Spares sha256 id h (revocation k) = Unit
Spares sha256 id h (rotation draw developer_id k) = (draw.id ≢ id) × (sha256 draw.raw ≢ h)

abbrev has_hash : ℕ → ℕ × DevApiKey → Bool
has_hash h e = e.1.key_hash == h

module _ (h id : ℕ) where
  -- `id` holds the first key with the hash.
  abbrev Holds : DevApiKey → Keys → Type 0
  Holds k keys = (find (has_hash h) keys ≡ some (id, k)) × (lookup id keys ≡ some k)

  find-insert_own :
      (k x : DevApiKey) (keys : Keys)
      → x.key_hash ≡ h
      → find (has_hash h) keys ≡ some (id, k)
      → lookup id keys ≡ some k
      → find (has_hash h) (insert id x keys) ≡ some (id, x)
  unfolding insert lookup
  find-insert_own k x [] e f l = cc l
  find-insert_own k x ((i, m) ∷ keys) e f l = ground (arith, find-insert_own k x keys e)

  find-insert_other :
      (j : ℕ) (k x : DevApiKey) (keys : Keys)
      → j ≢ id
      → x.key_hash ≢ h
      → find (has_hash h) keys ≡ some (id, k)
      → find (has_hash h) (insert j x keys) ≡ some (id, k)
  unfolding insert
  find-insert_other j k x [] n e f = cc f
  find-insert_other j k x ((i, m) ∷ keys) n e f = ground (arith, find-insert_other j k x keys n e)

  find-revoke_other :
      (j : ℕ) (k y : DevApiKey) (keys : Keys)
      → j ≢ id
      → lookup j keys ≡ some y
      → find (has_hash h) keys ≡ some (id, k)
      → find (has_hash h) (insert j (record y { revoked = true }) keys) ≡ some (id, k)
  unfolding insert lookup
  find-revoke_other j k y [] n l f = cc f
  find-revoke_other j k y ((i, m) ∷ keys) n l f = ground (arith, find-revoke_other j k y keys n)

  -- `id` holds the first key with the hash, and it is revoked.
  record Dead (keys : Keys) : Type 0 where
    key : DevApiKey
    found : find (has_hash h) keys ≡ some (id, key)
    row : lookup id keys ≡ some key
    revoked : key.revoked ≡ true

  create-Dead :
      (sha256 : ℕ → ℕ) (draw : Draw) (developer_id : ℕ) (mode : KeyMode) (prefix : KeyPrefix)
      (keys : Keys)
      → draw.id ≢ id
      → sha256 draw.raw ≢ h
      → Dead keys
      → Dead (create sha256 draw developer_id mode prefix keys).1
  unfolding create
  create-Dead sha256 draw developer_id mode prefix keys n e d = record {
    key = d.key;
    found = find-insert_other draw.id d.key _ keys n e d.found;
    row = lookup-insert_ne draw.id id _ keys n ∙ d.row;
    revoked = d.revoked;
  }

  revoke-Dead : (j : ℕ) (keys : Keys) → Dead keys → Dead (revoke j keys).1
  unfolding revoke
  revoke-Dead j keys d = by_row (lookup j keys) refl
    where
      same_key :
          (y : DevApiKey)
          → lookup j keys ≡ some y
          → Dead (insert j (record y { revoked = true }) keys)
      same_key y l = elim (Bool-cases (j == id)) [
        | inl same ↦
            let i : id ≡ j = ground arith in
            let k : some d.key ≡ some y = sym d.row ∙ ap (λ (x : ℕ). lookup x keys) i ∙ l in
            subst (λ (x : ℕ). Dead (insert x (record y { revoked = true }) keys)) i
              (record {
                key = record y { revoked = true };
                found =
                    find-insert_own d.key (record y { revoked = true }) keys
                      (hash_of d.key y k
                        (ground (arith, find_sound (has_hash h) keys (id, d.key) d.found)))
                      d.found d.row;
                row = lookup-insert_self id _ keys;
                revoked = refl;
              })
        | inr other ↦ record {
          key = d.key;
          found = find-revoke_other j d.key y keys (ground arith) l d.found;
          row = lookup-insert_ne j id _ keys (ground arith) ∙ d.row;
          revoked = d.revoked;
        }
      ]
        where
          hash_of : (k y : DevApiKey) → some k ≡ some y → k.key_hash ≡ h → y.key_hash ≡ h
          hash_of k y e f = cc (e, f)

      by_row : (o : Option DevApiKey) → lookup j keys ≡ o → Dead (revoke_found j o keys).1
      by_row none l = d
      by_row (some y) l = same_key y l

  run_op-Dead :
      (sha256 : ℕ → ℕ) (op : Op) (keys : Keys)
      → Spares sha256 id h op
      → Dead keys
      → Dead (run_op sha256 op keys)
  unfolding rotate
  run_op-Dead sha256 (created draw developer_id mode prefix) keys (n, e) d =
      create-Dead sha256 draw developer_id mode prefix keys n e d
  run_op-Dead sha256 (revocation j) keys s d = revoke-Dead j keys d
  run_op-Dead sha256 (rotation draw developer_id j) keys (n, e) d =
      create-Dead sha256 draw developer_id KeyMode.sandbox KeyPrefix.sk (revoke j keys).1 n e
        (revoke-Dead j keys d)

  run_ops-Dead :
      (sha256 : ℕ → ℕ) (ops : List Op) (keys : Keys)
      → All (Spares sha256 id h) ops
      → Dead keys
      → Dead (run_ops sha256 ops keys)
  unfolding run_ops
  run_ops-Dead sha256 [] keys s d = d
  run_ops-Dead sha256 (op ∷ ops) keys (s, ss) d =
      run_ops-Dead sha256 ops (run_op sha256 op keys) ss (run_op-Dead sha256 op keys s d)

-- A key that authenticates is revoked: whatever is created, revoked and rotated afterwards, as long
-- as no creation draws its id or its key again, it never authenticates any more.
pub revoke-authenticate :
    (sha256 : ℕ → ℕ) (raw id : ℕ) (k : DevApiKey) (keys : Keys) (ops : List Op)
    → find (λ (e : ℕ × DevApiKey). e.1.key_hash == sha256 raw) keys ≡ some (id, k)
    → lookup id keys ≡ some k
    → All (Spares sha256 id (sha256 raw)) ops
    → authenticate sha256 raw (run_ops sha256 ops (revoke id keys).1) ≡ none
unfolding authenticate revoke
revoke-authenticate sha256 raw id k keys ops found row spares =
    let dead : Dead (sha256 raw) id (insert id (record k { revoked = true }) keys) = record {
      key = record k { revoked = true };
      found =
          find-insert_own (sha256 raw) id k (record k { revoked = true }) keys
            (ground (arith, find_sound (has_hash (sha256 raw)) keys (id, k) found)) found row;
      row = lookup-insert_self id _ keys;
      revoked = refl;
    } in
    let d = run_ops-Dead (sha256 raw) id sha256 ops _ spares dead in
    rw row (ap (λ (o : Option (ℕ × DevApiKey)). unrevoked (row_of o)) d.found ∙ rw d.revoked refl)
