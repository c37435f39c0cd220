-- ===== src/Notify/Guard.antt =====
-- What `PinWebhookDial` of internal/notify/ssrf.go may let through.
pub mod Pinned
use flux_tap.Notify.{Refusal, Url, Net, Dial, refused, address}
use flux_tap.Prelude.Words.{Bytes, byte_at}
use flux_tap.Prelude.{◌≡◌, false, ◌⊎◌, Option, some, List, ◌∷◌, if◌then◌else◌, All, ◌≤◌}
use flux_tap.Text.{text, text_eq, is_empty, trim_space}

module _ (net : Net) where
  -- An address that is none of this machine, of a private or local network, of a group of machines,
  -- or shared: 169.254.0.0/16 and 100.64.0.0/10 are excluded by their bytes.
  pub record IsPublic (ip : Bytes) : Type 0 where
    pub not_loopback : net.is_loopback ip ≡ false
    pub not_private : net.is_private ip ≡ false
    pub not_link_local : net.is_link_local_unicast ip ≡ false
    pub not_link_group : net.is_link_local_multicast ip ≡ false
    pub not_group : net.is_multicast ip ≡ false
    pub not_unspecified : net.is_unspecified ip ≡ false
    pub not_metadata : (b : Bytes) → net.to4 ip ≡ some b → byte_at b 0 ≡ 169 → byte_at b 1 ≡ 254 → ⊥
    pub not_shared :
        (b : Bytes)
        → net.to4 ip ≡ some b
        → byte_at b 0 ≡ 100
        → 64 ≤ byte_at b 1
        → byte_at b 1 ≤ 127
        → ⊥

  -- A URL of HTTP that names this machine.
  pub record IsLocalHttp (u : Url) : Type 0 where
    pub http : net.lower u.scheme ≡ text "http"
    pub local :
        (net.lower u.host ≡ text "localhost")
        ⊎ ((net.lower u.host ≡ text "127.0.0.1") ⊎ (net.lower u.host ≡ text "::1"))

  -- The IP that is dialled for a URL: a loopback address for one of HTTP that names this machine; and
  -- for one of HTTPS, a public one that stands in the URL, or the first of those that its name
  -- resolves to, which are all public.
  pub data Picked (u : Url) : Option Bytes → Type 0 where
    loopback :
        (pick : Option Bytes)
        → IsLocalHttp u
        → (pick ≡ net.parse_ip (text "127.0.0.1")) ⊎ (pick ≡ net.parse_ip (text "::1"))
        → Picked u pick
    literal :
        (ip : Bytes)
        → net.lower u.scheme ≡ text "https"
        → net.parse_ip (net.lower u.host) ≡ some ip
        → IsPublic ip
        → Picked u (some ip)
    resolved :
        (ip : Bytes) (ips : List Bytes)
        → net.lower u.scheme ≡ text "https"
        → net.lookup_ip (net.lower u.host) ≡ some (ip ∷ ips)
        → All IsPublic (ip ∷ ips)
        → Picked u (some ip)

  -- What may be dialled for a URL as it is kept: such an IP, at the port of the URL or of its scheme.
  pub record IsAllowed (raw : Bytes) (d : Dial) : Type 0 where
    pub url : Url
    pub pick : Option Bytes
    pub parsed : net.parse_url (trim_space raw) ≡ some url
    pub picked : Picked url pick
    pub dialled :
        d
        ≡ address (
            net.join_host_port (net.ip_text pick) (
              if is_empty url.port
              then (if text_eq (net.lower url.scheme) (text "https") then text "443" else text "80")
              else url.port))

  pub data Outcome (raw : Bytes) : Dial → Type 0 where
    is_refused : (e : Refusal) → Outcome raw (refused e)
    is_allowed : (d : Dial) → IsAllowed raw d → Outcome raw d
