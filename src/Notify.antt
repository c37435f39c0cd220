-- ===== src/Notify.antt =====
-- internal/notify/ssrf.go: which addresses a webhook may be sent to. What it asks of net/url and net
-- is a parameter.
pub mod Cooldown
pub mod Guard
pub mod Redact
pub mod Telegram
pub mod Webhook
use flux_tap.Prelude.Words.{Bytes, byte_at}
use flux_tap.Prelude.{
  Bool, true, false, ◌&&◌, ◌||◌, not, Option, none, some, List, [], ◌∷◌, leb, ◌==◌, if◌then◌else◌,
  reverse,
}
use flux_tap.Text.{text, text_eq, is_empty, has_prefix, trim_space}

-- A parsed URL: `Scheme`, `Hostname()` and `Port()`.
pub record Url : Type 0 where
  pub scheme : Bytes
  pub host : Bytes
  pub port : Bytes

-- `url.Parse`, `strings.ToLower`, and of net: `ParseIP`, `LookupIP` (`none` for an error), the
-- methods of `IP`, whose `To4` is `none` for `nil`, and `JoinHostPort`.
pub record Net : Type 0 where
  pub parse_url : Bytes → Option Url
  pub lower : Bytes → Bytes
  pub parse_ip : Bytes → Option Bytes
  pub lookup_ip : Bytes → Option (List Bytes)
  pub is_loopback : Bytes → Bool
  pub is_private : Bytes → Bool
  pub is_link_local_unicast : Bytes → Bool
  pub is_link_local_multicast : Bytes → Bool
  pub is_multicast : Bytes → Bool
  pub is_unspecified : Bytes → Bool
  pub to4 : Bytes → Option Bytes
  pub ip_text : Option Bytes → Bytes
  pub join_host_port : Bytes → Bytes → Bytes

-- The errors of both functions.
pub data Refusal : Type 0 where
  empty_url invalid_url missing_host not_https bad_scheme host_not_allowed : Refusal
  blocked_address lookup_failed no_addresses : Refusal

-- What `PinWebhookDial` gives; `panicked` is the use of a nil URL.
pub data Dial : Type 0 where
  refused : Refusal → Dial
  address : Bytes → Dial
  panicked : Dial

unfoldable pub is_local_hostname : Bytes → Bool
is_local_hostname host =
    text_eq host (text "localhost") || text_eq host (text "127.0.0.1") || text_eq host (text "::1")

has_suffix : Bytes → Bytes → Bool
has_suffix s p = has_prefix (reverse s) (reverse p)

unfoldable pub looks_blocked_hostname : Bytes → Bool
unfolding has_suffix
looks_blocked_hostname host =
    text_eq host (text "metadata.google.internal")
    || has_suffix host (text ".internal")
    || has_suffix host (text ".local") && not (text_eq host (text "localhost"))

-- Link-local and shared addresses, of the four bytes of an address.
abbrev is_shared : Option Bytes → Bool
is_shared none = false
is_shared (some b) =
    byte_at b 0 == 169 && byte_at b 1 == 254
    || byte_at b 0 == 100 && leb 64 (byte_at b 1) && leb (byte_at b 1) 127

module _ (net : Net) where
  unfoldable pub is_blocked_ip : Option Bytes → Bool
  is_blocked_ip none = true
  is_blocked_ip (some ip) =
      net.is_loopback ip
      || net.is_private ip
      || net.is_link_local_unicast ip
      || net.is_link_local_multicast ip
      || net.is_multicast ip
      || net.is_unspecified ip
      || is_shared (net.to4 ip)

  abbrev pub scheme_of : Url → Bytes
  scheme_of u = net.lower u.scheme

  abbrev pub host_of : Url → Bytes
  host_of u = net.lower u.host

  -- HTTP on this machine, which is allowed for trials.
  abbrev pub is_local_http : Url → Bool
  is_local_http u = is_local_hostname (host_of u) && text_eq (scheme_of u) (text "http")

  -- The end of `validateWebhookURLShape`.
  abbrev check_literal : Url → Option Bytes → Option Refusal
  check_literal u none = none
  check_literal u (some ip) =
      if is_local_http u
      then none
      else if is_blocked_ip (some ip)
      then some blocked_address
      else none

  unfoldable pub check_host : Url → Option Refusal
  unfolding looks_blocked_hostname
  check_host u =
      if looks_blocked_hostname (host_of u)
      then some host_not_allowed
      else check_literal u (net.parse_ip (host_of u))

  -- The shape of a parsed URL.
  unfoldable pub check_url : Url → Option Refusal
  unfolding check_host
  check_url u =
      if is_empty (host_of u)
      then some missing_host
      else if text_eq (scheme_of u) (text "https")
      then check_host u
      else if text_eq (scheme_of u) (text "http")
      then (if is_local_hostname (host_of u) then check_host u else some not_https)
      else some bad_scheme

  abbrev check_parsed : Option Url → Option Refusal
  check_parsed none = some invalid_url
  check_parsed (some u) = check_url u

  -- `validateWebhookURLShape`; `none` for no error.
  unfoldable pub validate_shape : Bytes → Option Refusal
  unfolding check_url
  validate_shape raw =
      let trimmed = trim_space raw in
      if is_empty trimmed then some empty_url else check_parsed (net.parse_url trimmed)

  unfoldable pub any_blocked : List Bytes → Bool
  unfolding is_blocked_ip
  any_blocked [] = false
  any_blocked (ip ∷ ips) = is_blocked_ip (some ip) || any_blocked ips

  -- `net.JoinHostPort(pick.String(), port)`, with the port of the scheme if there is none.
  unfoldable pub dial : Url → Option Bytes → Dial
  dial u pick =
      let known = if text_eq (scheme_of u) (text "https") then text "443" else text "80" in
      address (net.join_host_port (net.ip_text pick) (if is_empty u.port then known else u.port))

  -- The addresses of a name.
  abbrev dial_first : Url → Option (List Bytes) → Dial
  dial_first u none = refused lookup_failed
  dial_first u (some []) = refused no_addresses
  dial_first u (some (ip ∷ ips)) =
      if any_blocked (ip ∷ ips) then refused blocked_address else dial u (some ip)

  -- An address in the URL, or a name.
  abbrev dial_host : Url → Option Bytes → Dial
  dial_host u (some ip) =
      if not (is_local_http u) && is_blocked_ip (some ip)
      then refused blocked_address
      else dial u (some ip)
  dial_host u none =
      let loopback = if text_eq (host_of u) (text "::1") then text "::1" else text "127.0.0.1" in
      if is_local_http u
      then dial u (net.parse_ip loopback)
      else dial_first u (net.lookup_ip (host_of u))

  abbrev dial_parsed : Option Url → Dial
  dial_parsed none = panicked
  dial_parsed (some u) = dial_host u (net.parse_ip (host_of u))

  abbrev dial_valid : Bytes → Option Refusal → Dial
  dial_valid raw (some e) = refused e
  dial_valid raw none = dial_parsed (net.parse_url (trim_space raw))

  -- `PinWebhookDial`.
  unfoldable pub pin_webhook_dial : Bytes → Dial
  unfolding validate_shape any_blocked dial
  pin_webhook_dial raw = dial_valid raw (validate_shape raw)

  abbrev error_of : Dial → Option Refusal
  error_of (refused e) = some e
  error_of _ = none

  -- `ValidateWebhookURL`.
  unfoldable pub validate_webhook_url : Bytes → Option Refusal
  unfolding pin_webhook_dial
  validate_webhook_url raw = error_of (pin_webhook_dial raw)
