-- ===== src/Engine/Status.antt =====
-- `New`, `openSource`, `Status`, `Pause`, `Resume` and `Stop` of internal/engine/engine.go. What the
-- operating system opens is a parameter.
use flux_tap.Engine.Control.{Run}
use flux_tap.Notify.Redact.{Regexp}
use flux_tap.Notify.Telegram.{Telegram, TelegramStatus, telegram_status}
use flux_tap.Notify.Webhook.{Webhook, WebhookStatus, Json, webhook_status}
use flux_tap.Notify.{Net}
use flux_tap.Pcap.Live.{LiveOpts}
use flux_tap.Prelude.Words.{Bytes}
use flux_tap.Prelude.{
  ℕ, ◌⊎◌, inl, [], Bool, true, false, ◌&&◌, ◌||◌, not, Option, none, some, ◌++◌, if◌then◌else◌,
}
use flux_tap.Text.{text, text_eq, is_empty}

-- What `Config` says of the source.
pub record Config : Type 0 where
  pub path : Bytes
  pub iface : Bytes
  pub bpf : Bytes
  pub promisc : Bool
  pub stdin : Bool
  pub kernel : Bool

-- `OpenLive`, `OpenKernel` and `Open`: a source, or an error.
pub record Openers (S E : Type 0) : Type 0 where
  pub open_live : LiveOpts → S ⊎ E
  pub open_kernel : Bytes → ℕ → Bool → Option S
  pub open_file : Bytes → S ⊎ E

-- What `openSource` sets and gives.
pub record Opened (S E : Type 0) : Type 0 where
  pub source : Bytes
  pub iface : Bytes
  pub result : S ⊎ E

-- `live` of `New`.
abbrev pub is_live : Config → Bool
is_live c = not (is_empty c.iface) || c.stdin

module _ {S E : Type 0} (os : Openers S E) where
  abbrev open_tcpdump : Config → Opened S E
  open_tcpdump c = record {
    source = text "tcpdump";
    iface = c.iface;
    result = os.open_live (record {
      iface = c.iface;
      snap_len = 65535;
      bpf = c.bpf;
      promisc = c.promisc;
      stdin = false;
    });
  }

  -- The kernel's tap, or else tcpdump.
  abbrev open_tap : Config → Option S → Opened S E
  open_tap c none = open_tcpdump c
  open_tap c (some s) = record {
    source = text "kernel";
    iface = c.iface ++ text " [kernel]";
    result = inl s;
  }

  unfoldable pub open_source : Config → Opened S E
  open_source c =
      if c.stdin
      then record {
        source = text "stdin";
        iface = c.iface;
        result =
            os.open_live
              (record { iface = []; snap_len = 0; bpf = []; promisc = false; stdin = true });
      }
      else if is_empty c.iface
      then record { source = text "file"; iface = c.iface; result = os.open_file c.path }
      else if c.kernel && not (text_eq c.iface (text "any"))
      then open_tap c (os.open_kernel c.iface 65535 c.promisc)
      else open_tcpdump c

-- The rest of `Engine`: what the dashboard shows and changes.
pub record Panel : Type 0 where
  pub run : Run
  pub live : Bool
  pub iface : Bytes
  pub path : Bytes
  pub source : Bytes
  pub telegram : Telegram
  pub webhook : Webhook

pub record Status : Type 0 where
  pub live : Bool
  pub running : Bool
  pub paused : Bool
  pub iface : Bytes
  pub path : Bytes
  pub packets : ℕ
  pub source : Bytes
  pub sessions : ℕ
  pub telegram : TelegramStatus
  pub webhook : WebhookStatus
  pub ws_sent : ℕ
  pub ws_dropped : ℕ

module _ (net : Net) (replace : Regexp) (json : Json) (marshal : Bytes → Bytes → Bytes) where
  -- `Status`.
  unfoldable pub status : Panel → Status
  status p = record {
    live = p.live;
    running = p.run.running;
    paused = p.run.paused;
    iface = p.iface;
    path = p.path;
    packets = p.run.tap.pkt_no;
    source = p.source;
    sessions = flux_tap.Session.count p.run.tap.sessions;
    telegram = telegram_status replace marshal p.telegram;
    webhook = webhook_status net replace json p.webhook;
    ws_sent = p.run.tap.engine.ws_sent;
    ws_dropped = p.run.tap.engine.ws_dropped;
  }
