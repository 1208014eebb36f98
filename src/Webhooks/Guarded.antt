-- ===== src/Webhooks/Guarded.antt =====
-- legacy/server/src/webhooks.ts and util.ts: no request leaves for an address that fails the check,
-- and what the check lets through.
use cauripay.Common.{
  ℕ, ◌≡◌, ◌≢◌, ◌↔◌, refl, sym, Bool, true, false, not, ◌&&◌, ◌⊎◌, inl, inr, Option, none, some,
  List, [], ◌∷◌, arith, ◌==◌, if◌then◌else◌, All, find, Bool-cases,
}
use mathlib.Core.Path.{subst}
use cauripay.Common.Text.{Text}
use cauripay.Webhooks.Url.{
  Url, Dns, UrlOptions, UrlReason, Protocol, is_safe_webhook_url, check_url, check_host,
  check_resolved, check_found, is_private_address, is_http, is_https, private_ip,
}

-- A protocol that the check admits.
abbrev pub AdmittedProtocol : UrlOptions → Protocol → Type 0
AdmittedProtocol opts Protocol.https = Unit
AdmittedProtocol opts Protocol.http = opts.require_https ≡ false
AdmittedProtocol opts (Protocol.other _) = ⊥

-- The host is a public address, or a name that resolves, and to public addresses only.
abbrev pub PublicHost : Dns → ℕ → Text → Type 0
PublicHost dns now host =
    ((dns.is_ip host ≢ 0) × (is_private_address dns.is_ip host ≡ false))
    ⊎ ((dns.is_ip host ≡ 0)
        × ((a : Text) × (l : List Text) × (dns.resolve now host ≡ some (a ∷ l))
            × All (λ (x : Text). is_private_address dns.is_ip x ≡ false) (a ∷ l)))

abbrev pub IsSafe : Dns → UrlOptions → ℕ → ℕ → Type 0
IsSafe dns opts now raw_url =
    (u : Url) × (dns.parse_url raw_url ≡ some u)
    × AdmittedProtocol opts u.protocol
    × ((opts.block_private ≡ false) ⊎ PublicHost dns now u.hostname)

find-none_iff {ℓ} :
    {A : Type ℓ} (p : A → Bool) (l : List A) → (find p l ≡ none) ↔ All (λ (x : A). p x ≡ false) l
find-none_iff p [] = (λ h. tt, λ h. refl)
find-none_iff {A = A} p (x ∷ l) = by_test (p x) refl (find-none_iff p l)
  where
    by_test :
        (b : Bool)
        → p x ≡ b
        → (find p l ≡ none) ↔ All (λ (y : A). p y ≡ false) l
        → ((if b then some x else find p l) ≡ none) ↔ ((b ≡ false) × All (λ (y : A). p y ≡ false) l)
    by_test true e h = (λ k. cc k, λ k. cc k.0)
    by_test false e h = (λ k. (refl, h.0 k), λ k. h.1 k.1)

check_found-none : (o : Option Text) → (check_found o ≡ none) ↔ (o ≡ none)
check_found-none none = (λ h. refl, λ h. refl)
check_found-none (some a) = (λ h. cc h, λ h. cc h)

check_resolved_iff :
    (f : Text → Bool) (o : Option (List Text))
    → (check_resolved f o ≡ none) ↔ (
        (a : Text) × (l : List Text) × (o ≡ some (a ∷ l)) × All (λ (x : Text). f x ≡ false) (a ∷ l))
check_resolved_iff f none = (λ h. cc h, λ (a, l, e, k). cc e)
check_resolved_iff f (some []) = (λ h. cc h, λ (a, l, e, k). cc e)
check_resolved_iff f (some (a ∷ l)) =
    let found = check_found-none (find f (a ∷ l)) in
    let iff = find-none_iff f (a ∷ l) in
    (
      λ h. (a, l, refl, iff.0 (found.0 h)),
      λ (b, m, e, k). found.1 (iff.1 (subst (kept (a ∷ l)) (sym (lists e)) k)),
    )
  where
    kept : List Text → List Text → Type 0
    kept xs ys = All (λ (x : Text). f x ≡ false) ys

    lists : {xs ys : List Text} → some xs ≡ some ys → xs ≡ ys
    lists e = cc e

module _ (dns : Dns) (opts : UrlOptions) (now : ℕ) where
  check_host_iff : (host : Text) → (check_host dns now host ≡ none) ↔ PublicHost dns now host
  check_host_iff host = elim (Bool-cases (dns.is_ip host == 0)) [
    | inl name ↦ rw name (
      λ h. inr (ground arith, iff.0 h),
      λ k. elim k [ inl (ip, _) ↦ absurd (ip (ground arith)) | inr (_, r) ↦ iff.1 r ],
    )
    | inr literal ↦ rw literal (
      λ h. inl (ground arith, by_private (is_private_address dns.is_ip host) h),
      λ k. elim k [ inl (_, pub_ip) ↦ rw pub_ip | inr (ip, _) ↦ ground arith ],
    )
  ]
    where
      iff : (check_resolved (is_private_address dns.is_ip) (dns.resolve now host) ≡ none) ↔ (
          (a : Text) × (l : List Text) × (dns.resolve now host ≡ some (a ∷ l))
          × All (λ (x : Text). is_private_address dns.is_ip x ≡ false) (a ∷ l))
      iff = check_resolved_iff (is_private_address dns.is_ip) (dns.resolve now host)

      by_private : (b : Bool) → (if b then some private_ip else none) ≡ none → b ≡ false
      by_private b h = ground arith

  admitted_iff :
      (p : Protocol) (r : Option UrlReason)
      → ((if not (is_http p)
            then some UrlReason.unsupported_protocol
            else if opts.require_https && not (is_https p)
            then some UrlReason.https_required
            else r)
          ≡ none)
        ↔ (AdmittedProtocol opts p × (r ≡ none))
  admitted_iff Protocol.https r = (λ h. (tt, ground arith), λ h. ground arith)
  admitted_iff Protocol.http r = (λ h. (ground arith, ground arith), λ h. ground arith)
  admitted_iff (Protocol.other x) r = (λ h. cc h, λ h. absurd h.0)

  private_off_iff :
      (host : Text)
      → ((if not opts.block_private then none else check_host dns now host) ≡ none)
        ↔ ((opts.block_private ≡ false) ⊎ PublicHost dns now host)
  private_off_iff host = elim (Bool-cases opts.block_private) [
    | inl on ↦ rw on (
      λ h. inr ((check_host_iff host).0 h),
      λ k. elim k [ inl e ↦ cc e | inr p ↦ (check_host_iff host).1 p ],
    )
    | inr off ↦ rw off (λ h. inl refl, λ k. refl)
  ]

  -- The check lets a URL through exactly when it parses, its protocol is https, or http where https
  -- is not required, and, where private addresses are blocked, its host is an address that is not
  -- private, or a name that resolves to one address at least and to no private one.
  pub is_safe_webhook_url_iff :
      (raw_url : ℕ)
      → (is_safe_webhook_url dns opts now raw_url ≡ none) ↔ IsSafe dns opts now raw_url
  unfolding is_safe_webhook_url
  is_safe_webhook_url_iff raw_url = by_url (dns.parse_url raw_url)
    where
      by_url :
          (o : Option Url)
          → (check_url dns opts now o ≡ none) ↔ (
              (u : Url) × (o ≡ some u)
              × AdmittedProtocol opts u.protocol
              × ((opts.block_private ≡ false) ⊎ PublicHost dns now u.hostname))
      by_url none = (λ h. cc h, λ (u, e, p, k). cc e)
      by_url (some u) =
          let r : Option UrlReason =
            if not opts.block_private then none else check_host dns now u.hostname in
          let iff = admitted_iff u.protocol r in
          (
            λ h. let (p, k) = iff.0 h in (u, refl, p, (private_off_iff u.hostname).0 k),
            λ (v, e, p, k).
                let same : u ≡ v = cc e in
                iff.1 (
                  subst (λ (x : Url). AdmittedProtocol opts x.protocol) (sym same) p,
                  (private_off_iff u.hostname).1 (
                      subst
                        (λ (x : Url). (opts.block_private ≡ false) ⊎ PublicHost dns now x.hostname)
                        (sym same) k),
                ),
          )
