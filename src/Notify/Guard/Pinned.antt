-- ===== src/Notify/Guard/Pinned.antt =====
-- `PinWebhookDial` of internal/notify/ssrf.go lets through what it may.
use flux_tap.Notify.Guard.{
  IsPublic, IsLocalHttp, Picked, loopback, literal, resolved, Outcome, is_refused, is_allowed,
}
use flux_tap.Notify.{
  Url, Net, Dial, is_local_hostname, is_blocked_ip, scheme_of, host_of, is_local_http, check_url,
  validate_shape, any_blocked, dial, dial_first, dial_host, dial_parsed, pin_webhook_dial,
  check_parsed,
}
use flux_tap.Prelude.Words.{Bytes}
use flux_tap.Prelude.{
  ◌≡◌, refl, Bool, true, false, ◌&&◌, not, ◌⊎◌, inl, inr, Option, none, some, List, [], ◌∷◌, arith,
  if◌then◌else◌, Option-cases, Bool-cases, All, ap, sym, ◌∙◌,
}
use flux_tap.Text.{text, text_eq, text_eq_iff, trim_space}

module _ (net : Net) where
  -- A URL whose shape is accepted is of HTTPS, or HTTP on this machine.
  check_url-scheme :
      (u : Url)
      → check_url net u ≡ none
      → (is_local_http net u ≡ true) ⊎ (text_eq (scheme_of net u) (text "https") ≡ true)
  unfolding check_url
  check_url-scheme u e = ground arith

  not_blocked : (ip : Bytes) → is_blocked_ip net (some ip) ≡ false → IsPublic net ip
  unfolding is_blocked_ip
  not_blocked ip free = record {
    not_loopback = ground (arith, free);
    not_private = ground (arith, free);
    not_link_local = ground (arith, free);
    not_link_group = ground (arith, free);
    not_group = ground (arith, free);
    not_unspecified = ground (arith, free);
    not_metadata = λ b e first second. ground (arith, free, e, first, second);
    not_shared = λ b e first low high. ground (arith, free, e, first, low, high);
  }

  all_free : (ips : List Bytes) → any_blocked net ips ≡ false → All (IsPublic net) ips
  unfolding any_blocked
  all_free [] free = tt
  all_free (ip ∷ ips) free = (not_blocked ip (ground arith), all_free ips (ground arith))

  local-IsLocalHttp : (u : Url) → is_local_http net u ≡ true → IsLocalHttp net u
  unfolding is_local_hostname
  local-IsLocalHttp u e = record {
    http = (text_eq_iff _ _).0 (ground (arith, e));
    local = elim (Bool-cases (text_eq (host_of net u) (text "localhost"))) [
      | inl named ↦ inl ((text_eq_iff _ _).0 named)
      | inr other ↦ inr (elim (Bool-cases (text_eq (host_of net u) (text "127.0.0.1"))) [
        | inl four ↦ inl ((text_eq_iff _ _).0 four)
        | inr six ↦ inr ((text_eq_iff _ _).0 (ground (arith, e, other, six)))
      ])
    ];
  }

  module _ (no_name : net.parse_ip (text "localhost") ≡ none) where
    -- A literal that names this machine is a loopback address.
    local_literal :
        (u : Url) (ip : Bytes)
        → IsLocalHttp net u
        → net.parse_ip (net.lower u.host) ≡ some ip
        → (some ip ≡ net.parse_ip (text "127.0.0.1")) ⊎ (some ip ≡ net.parse_ip (text "::1"))
    local_literal u ip h e = which h.local
      where
        which :
            (net.lower u.host ≡ text "localhost")
              ⊎ ((net.lower u.host ≡ text "127.0.0.1") ⊎ (net.lower u.host ≡ text "::1"))
            → (some ip ≡ net.parse_ip (text "127.0.0.1")) ⊎ (some ip ≡ net.parse_ip (text "::1"))
        which (inl named) = absurd (clash (sym no_name ∙ ap net.parse_ip (sym named) ∙ e))
          where
            clash : (none ≡ some ip) → ⊥
            clash q = cc
        which (inr (inl four)) = inl (sym e ∙ ap net.parse_ip four)
        which (inr (inr six)) = inr (sym e ∙ ap net.parse_ip six)

    module _ (raw : Bytes) (u : Url) (parsed : net.parse_url (trim_space raw) ≡ some u)
        (scheme : (is_local_http net u ≡ true)
          ⊎ (text_eq (scheme_of net u) (text "https") ≡ true)) where
      dialled : (pick : Option Bytes) → Picked net u pick → Outcome net raw (dial net u pick)
      unfolding dial
      dialled pick ok =
          is_allowed _
            (record { url = u; pick = pick; parsed = parsed; picked = ok; dialled = refl })

      https : is_local_http net u ≡ false → net.lower u.scheme ≡ text "https"
      https far = elim scheme [ inl local ↦ absurd (ground arith) | inr e ↦ (text_eq_iff _ _).0 e ]

      Outcome-if :
          (b : Bool) {x y : Dial}
          → (b ≡ true → Outcome net raw x)
          → (b ≡ false → Outcome net raw y)
          → Outcome net raw (if b then x else y)
      Outcome-if true h k = h refl
      Outcome-if false h k = k refl

      dial_first-Outcome :
          (found : Option (List Bytes))
          → net.lookup_ip (net.lower u.host) ≡ found
          → is_local_http net u ≡ false
          → Outcome net raw (dial_first net u found)
      dial_first-Outcome none e far = is_refused _
      dial_first-Outcome (some []) e far = is_refused _
      dial_first-Outcome (some (ip ∷ ips)) e far =
          Outcome-if (any_blocked net (ip ∷ ips)) (λ blocked. is_refused _)
            λ free. dialled (some ip) (resolved ip ips (https far) e (all_free (ip ∷ ips) free))

      literal-Picked :
          (ip : Bytes)
          → net.parse_ip (net.lower u.host) ≡ some ip
          → (not (is_local_http net u) && is_blocked_ip net (some ip)) ≡ false
          → Picked net u (some ip)
      literal-Picked ip e free = elim (Bool-cases (is_local_http net u)) [
        | inl local ↦
            let h = local-IsLocalHttp u local in loopback (some ip) h (local_literal u ip h e)
        | inr far ↦ literal ip (https far) e (not_blocked ip (ground (arith, far, free)))
      ]

      dial_host-Outcome :
          (found : Option Bytes)
          → net.parse_ip (net.lower u.host) ≡ found
          → Outcome net raw (dial_host net u found)
      dial_host-Outcome (some ip) e =
          Outcome-if (not (is_local_http net u) && is_blocked_ip net (some ip))
            (λ blocked. is_refused _) λ free. dialled (some ip) (literal-Picked ip e free)
      dial_host-Outcome none e =
          Outcome-if (is_local_http net u)
            (λ local. dialled _ (loopback _ (local-IsLocalHttp u local) loopback_text))
            λ far. dial_first-Outcome (net.lookup_ip (host_of net u)) refl far
        where
          loopback_text :
              (net.parse_ip
                  (if text_eq (host_of net u) (text "::1") then text "::1" else text "127.0.0.1")
                ≡ net.parse_ip (text "127.0.0.1"))
              ⊎ (net.parse_ip
                    (if text_eq (host_of net u) (text "::1") then text "::1" else text "127.0.0.1")
                  ≡ net.parse_ip (text "::1"))
          loopback_text = elim (Bool-cases (text_eq (host_of net u) (text "::1"))) [
            | inl six ↦ rw six (inr refl)
            | inr four ↦ rw four (inl refl)
          ]

    valid-Outcome :
        (raw : Bytes) (o : Option Url)
        → net.parse_url (trim_space raw) ≡ o
        → check_parsed net o ≡ none
        → Outcome net raw (dial_parsed net o)
    valid-Outcome raw none e h = absurd (ground arith)
    valid-Outcome raw (some u) e h =
        dial_host-Outcome raw u e (check_url-scheme u h) (net.parse_ip (host_of net u)) refl

    shape :
        (raw : Bytes)
        → validate_shape net raw ≡ none
        → check_parsed net (net.parse_url (trim_space raw)) ≡ none
    unfolding validate_shape
    shape raw fine = ground arith

    -- Whatever the URL, `PinWebhookDial` does not use a nil URL; it refuses, or it gives the port of
    -- the URL at a loopback address for a URL of HTTP that names this machine, and for a URL of HTTPS
    -- at the public address that it holds or resolves to. `ParseIP` parses no name.
    pub pin_webhook_dial-Outcome : (raw : Bytes) → Outcome net raw (pin_webhook_dial net raw)
    unfolding pin_webhook_dial
    pin_webhook_dial-Outcome raw = elim (Option-cases (validate_shape net raw)) [
      | inr (e, refusal) ↦ rw refusal (is_refused e)
      | inl fine ↦
          rw fine (valid-Outcome raw (net.parse_url (trim_space raw)) refl (shape raw fine))
    ]
