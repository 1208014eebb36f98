-- ===== src/Webhooks/Ranges.antt =====
-- legacy/server/src/util.ts: the private IPv4 addresses as blocks of 32-bit numbers.
use cauripay.Common.{ℕ, ◌+◌, ◌*◌, ◌<◌, ◌≡◌, Bool, ◌&&◌, ◌||◌, some, [], ◌∷◌, arith, ltb, leb}
use cauripay.Common.Text.{Text, split}
use cauripay.Webhooks.Url.{number, is_private_ipv4, private_prefix}

abbrev pub address : ℕ → ℕ → ℕ → ℕ → ℕ
address a b c d = a * 16_777_216 + b * 65_536 + c * 256 + d

abbrev in_block : ℕ → ℕ → ℕ → Bool
in_block n base size = leb base n && ltb n (base + size)

-- 0.0.0.0/8, 10.0.0.0/8, 127.0.0.0/8, 100.64.0.0/10, 169.254.0.0/16, 172.16.0.0/12 and
-- 192.168.0.0/16.
abbrev pub in_private_block : ℕ → Bool
in_private_block n =
    in_block n 0 16_777_216
    || in_block n 167_772_160 16_777_216
    || in_block n 2_130_706_432 16_777_216
    || in_block n 1_681_915_904 4_194_304
    || in_block n 2_851_995_648 65_536
    || in_block n 2_886_729_728 1_048_576
    || in_block n 3_232_235_520 65_536

pub private_prefix-block :
    (a b c d : ℕ)
    → b < 256
    → c < 256
    → d < 256
    → private_prefix (some a) (some b) ≡ in_private_block (address a b c d)
private_prefix-block a b c d hb hc hd = ground arith

-- The test of an IPv4 address in four dotted decimal parts, the last three below 256, is membership
-- of its 32-bit number in one of seven blocks: 0/8, 10/8, 127/8, 100.64/10, 169.254/16, 172.16/12
-- and 192.168/16.
pub is_private_ipv4-block :
    (ip p q r s : Text) (a b c d : ℕ)
    → split b'.' ip ≡ p ∷ q ∷ r ∷ s ∷ []
    → number p ≡ some a
    → number q ≡ some b
    → number r ≡ some c
    → number s ≡ some d
    → b < 256
    → c < 256
    → d < 256
    → is_private_ipv4 ip ≡ in_private_block (address a b c d)
unfolding is_private_ipv4
is_private_ipv4-block ip p q r s a b c d e ep eq er es hb hc hd =
    rw (e, ep, eq) (private_prefix-block a b c d hb hc hd)
