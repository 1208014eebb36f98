-- ===== src/Webhooks/Url.antt =====
-- legacy/server/src/util.ts: the check of the address of a webhook against requests to the
-- server's own network. The URL parser, `isIP` of node:net and the DNS are parameters.
use cauripay.Common.{
  ℕ, ◌+◌, ◌*◌, ◌-◌, Bool, true, false, not, ◌&&◌, ◌||◌, Option, none, some, List, [], ◌∷◌, leb,
  ◌==◌, if◌then◌else◌, all, find,
}
use cauripay.Common.Text.{Text, same_text, split}
use cauripay.Rules.{is_digit}

-- `s.startsWith(prefix)`, and what follows the prefix.
unfoldable pub after_prefix : Text → Text → Option Text
after_prefix [] s = some s
after_prefix (p ∷ ps) [] = none
after_prefix (p ∷ ps) (c ∷ s) = let rest = after_prefix ps s in if p == c then rest else none

abbrev pub starts_with : Text → Text → Bool
starts_with p s = elim (after_prefix p s) [ none ↦ false | some _ ↦ true ]

unfoldable pub digits_value : ℕ → Text → Option ℕ
digits_value n [] = some n
digits_value n (c ∷ s) =
    let rest = digits_value (n * 10 + (c - b'0')) s in if is_digit c then rest else none

-- `Number(part)` of a text of digits; any other part gives `none` for NaN.
abbrev pub number : Text → Option ℕ
number s = digits_value 0 s

abbrev pub is_number : Option ℕ → ℕ → Bool
is_number none k = false
is_number (some a) k = a == k

abbrev pub in_range : Option ℕ → ℕ → ℕ → Bool
in_range none lo hi = false
in_range (some b) lo hi = leb lo b && leb b hi

abbrev pub private_prefix : Option ℕ → Option ℕ → Bool
private_prefix a b =
    is_number a 0
    || is_number a 10
    || is_number a 127
    || (is_number a 100 && in_range b 64 127)
    || (is_number a 169 && is_number b 254)
    || (is_number a 172 && in_range b 16 31)
    || (is_number a 192 && is_number b 168)

abbrev pub private_parts : List Text → Bool
private_parts (a ∷ b ∷ c ∷ d ∷ []) = private_prefix (number a) (number b)
private_parts _ = false

unfoldable pub is_private_ipv4 : Text → Bool
unfolding split digits_value
is_private_ipv4 ip = private_parts (split b'.' ip)

unfoldable pub to_lower_case : Text → Text
to_lower_case [] = []
to_lower_case (c ∷ s) = (if leb b'A' c && leb c b'Z' then c + 32 else c) ∷ to_lower_case s

-- `\d+`
abbrev digits_part : Text → Bool
digits_part [] = false
digits_part (c ∷ s) = is_digit c && all is_digit s

abbrev four_parts : List Text → Bool
four_parts (a ∷ b ∷ c ∷ d ∷ []) = digits_part a && digits_part b && digits_part c && digits_part d
four_parts _ = false

abbrev mapped_prefix : Text
mapped_prefix = b':' ∷ b':' ∷ b'f' ∷ b'f' ∷ b'f' ∷ b'f' ∷ b':' ∷ []

abbrev loopback6 : Text
loopback6 = b':' ∷ b':' ∷ b'1' ∷ []

abbrev unspecified6 : Text
unspecified6 = b':' ∷ b':' ∷ []

-- `^::ffff:(\d+\.\d+\.\d+\.\d+)$`
abbrev private_mapped : Option Text → Bool
private_mapped none = false
private_mapped (some rest) = four_parts (split b'.' rest) && is_private_ipv4 rest

abbrev private_lower6 : Text → Bool
private_lower6 lower =
    same_text lower unspecified6
    || same_text lower loopback6
    || starts_with (b'f' ∷ b'c' ∷ []) lower
    || starts_with (b'f' ∷ b'd' ∷ []) lower
    || starts_with (b'f' ∷ b'e' ∷ b'8' ∷ []) lower
    || starts_with (b'f' ∷ b'e' ∷ b'9' ∷ []) lower
    || starts_with (b'f' ∷ b'e' ∷ b'a' ∷ []) lower
    || starts_with (b'f' ∷ b'e' ∷ b'b' ∷ []) lower
    || private_mapped (after_prefix mapped_prefix lower)

unfoldable pub is_private_ipv6 : Text → Bool
unfolding same_text after_prefix split is_private_ipv4 to_lower_case
is_private_ipv6 ip = private_lower6 (to_lower_case ip)

-- `isIP` gives 4, 6, or 0 for a text that is no address.
unfoldable pub is_private_address : (Text → ℕ) → Text → Bool
is_private_address is_ip host =
    let v = is_ip host in
    if v == 4 then is_private_ipv4 host else if v == 6 then is_private_ipv6 host else false

pub data Protocol : Type 0 where
  http https : Protocol
  other : ℕ → Protocol

pub record Url : Type 0 where
  pub protocol : Protocol
  pub hostname : Text

pub record UrlOptions : Type 0 where
  pub block_private : Bool
  pub require_https : Bool

pub data UrlReason : Type 0 where
  invalid_url unsupported_protocol https_required private_ip unknown_host dns_failure : UrlReason
  resolves_to_private : Text → UrlReason

-- `new URL` (`none` when it throws), `isIP`, and `lookup` at a time (`none` when it throws).
pub record Dns : Type 0 where
  pub parse_url : ℕ → Option Url
  pub is_ip : Text → ℕ
  pub resolve : ℕ → Text → Option (List Text)

abbrev pub is_http : Protocol → Bool
is_http Protocol.http = true
is_http Protocol.https = true
is_http (Protocol.other _) = false

abbrev pub is_https : Protocol → Bool
is_https Protocol.https = true
is_https _ = false

abbrev pub check_found : Option Text → Option UrlReason
check_found none = none
check_found (some bad) = some (resolves_to_private bad)

abbrev pub check_resolved : (Text → Bool) → Option (List Text) → Option UrlReason
check_resolved is_private none = some dns_failure
check_resolved is_private (some []) = some unknown_host
check_resolved is_private (some (a ∷ addrs)) = check_found (find is_private (a ∷ addrs))

abbrev pub check_host : Dns → ℕ → Text → Option UrlReason
check_host dns now host =
    if not (dns.is_ip host == 0)
    then if is_private_address dns.is_ip host then some private_ip else none
    else check_resolved (is_private_address dns.is_ip) (dns.resolve now host)

abbrev pub check_url : Dns → UrlOptions → ℕ → Option Url → Option UrlReason
check_url dns opts now none = some invalid_url
check_url dns opts now (some u) =
    if not (is_http u.protocol)
    then some unsupported_protocol
    else if opts.require_https && not (is_https u.protocol)
    then some https_required
    else if not opts.block_private
    then none
    else check_host dns now u.hostname

-- `none` is `{ ok: true }`.
unfoldable pub is_safe_webhook_url : Dns → UrlOptions → ℕ → ℕ → Option UrlReason
unfolding is_private_address
is_safe_webhook_url dns opts now raw_url = check_url dns opts now (dns.parse_url raw_url)
