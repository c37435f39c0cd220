-- ===== src/Tests/Controls.antt =====
-- `Run` with pauses and a stop, the dashboard that controls it, and the arguments of tcpdump.
use flux_tap.Decode.BadOptions.{
  HasBadNetwork, ipv4, ipv6, HasBadTagged, bare, tag, HasBadOptions, ethernet, linux_sll,
  linux_sll2, raw_ipv4, raw_ipv6,
}
use flux_tap.Engine.Control.Ends.{stop-Ends}
use flux_tap.Engine.Control.Holds.{pause-Holds, held}
use flux_tap.Engine.Control.Order.{Reach-run_loop}
use flux_tap.Engine.Control.{
  Run, choosing, gated, waiting, reading, done, begin, after_packet, pause, stop, go_on, pass, hold,
  timer, take, leave, Phase, eof, Reach, next, turn, pause_called, resume_called, turns,
  NeverResumes, Standing, at_eof,
}
use flux_tap.Engine.Ingest.Sound.{IsSound, HasBadPacket, ingest-Runs}
use flux_tap.Engine.Ingest.{Tap, set_hub, ingest, run_loop}
use flux_tap.Pcap.Reader.{Packet}
use flux_tap.Prelude.Panics.{Runs-value, Runs-map}
use flux_tap.Prelude.Words.{Bytes, index, index_out_of_range}
use flux_tap.Prelude.{
  ℕ, ◌+◌, ◌≤◌, ◌≡◌, refl, inl, inr, true, false, none, some, sym, ◌∙◌, [], ◌∷◌, arith, length,
  if◌then◌else◌,
}
use flux_tap.Engine.Control.Whole.{flush_tap}
use flux_tap.Tests.Filters.{ascii, no_numbers, ascii-LowersAscii}
use flux_tap.Tests.Frames.{zero_md5}
use flux_tap.Tests.Messages.{no_match, json, body, telegram, webhook}
use flux_tap.Tests.Programs.{tap, tap-IsSound, packet, clock, write, net, server, request}
use flux_tap.Engine.Status.{Panel}
use flux_tap.Pcap.Live.Arguments.{operands, operands-tcpdump_args}
use flux_tap.Pcap.Live.{LiveOpts, tcpdump_args}
use flux_tap.Text.{text, is_empty, to_lower}
use flux_tap.Web.Control.Authorized.{Controlled, handle_control-Controlled}
use flux_tap.Web.Control.{auth, handle_control}

-- A read behind the end gives nothing.
no_read : (b : Bytes) (i : ℕ) {x : ℕ} → length b ≤ i → index b i ≡ some x → ⊥
no_read b i h e = none≢some (sym (index_out_of_range b i h) ∙ e)
  where
    none≢some : {x : ℕ} → (none ≡ some x) → ⊥
    none≢some q = cc

-- A packet of one byte holds no headers.
network_free : (b : Bytes) {offset etype : ℕ} → length b ≤ offset → HasBadNetwork b offset etype → ⊥
network_free b h (ipv4 bad) = no_read b _ h bad.first
network_free b {offset} h (ipv6 bad) = no_read b (offset + 6) (omega arith) bad.next

tagged_free : (b : Bytes) {offset etype : ℕ} → length b ≤ offset → HasBadTagged b offset etype → ⊥
tagged_free b h (bare bad) = network_free b h bad
tagged_free b h (tag vlan fits bad) = tagged_free b (omega arith) bad

byte_free : (b : Bytes) {link_type : ℕ} → length b ≤ 1 → HasBadOptions b link_type → ⊥
byte_free b h (ethernet link bad) = tagged_free b (omega arith) bad
byte_free b h (linux_sll bad) = network_free b (omega arith) bad
byte_free b h (linux_sll2 bad) = network_free b (omega arith) bad
byte_free b h (raw_ipv4 first e v bad) = no_read b 9 (omega arith) bad.protocol
byte_free b h (raw_ipv6 first e v bad) = no_read b 6 (omega arith) bad.next

abbrev short_packet : Packet
short_packet = record packet { contents = 7 ∷ [] }

short_packet-good : ¬ HasBadPacket ((clock, short_packet) ∷ [])
short_packet-good (inl bad) = byte_free (7 ∷ []) (omega arith) bad
short_packet-good (inr none_left) = none_left

-- What `ingest` makes of it.
ingested :
    (t : Tap) × (ingest zero_md5 ascii no_numbers write clock short_packet tap ≡ some t) × IsSound t
ingested = Runs-value (
    Runs-map (λ bad. short_packet-good (inl bad)) (λ t v. v)
      (ingest-Runs zero_md5 ascii ascii-LowersAscii no_numbers write clock short_packet tap
        tap-IsSound))

-- Before the loop, with one packet to come.
abbrev first : Run
first = record {
  tap = tap;
  running = true;
  paused = false;
  stopped = false;
  phase = choosing;
  matched = 0;
  rest = (clock, short_packet) ∷ [];
  ending = at_eof;
  blocked = false;
}

abbrev at_phase : Phase → Run
at_phase p = record first { phase = p }

-- A pause that is found before `Next`, a wait, and the packet behind it.
abbrev after_wait : Run
after_wait = at_phase reading

wait : Reach zero_md5 ascii no_numbers write 0 first after_wait
wait =
    next
      (next
        (next
          (next
            (next (next Reach.here (turn (go_on first refl refl))) (pause_called (at_phase gated)))
            (turn (hold (pause (at_phase gated)) refl refl refl)))
          (resume_called (pause (at_phase waiting))))
        (turn (timer (at_phase waiting) refl)))
      (turn (pass (at_phase gated) refl refl))

abbrev after_one : Run
after_one = record (at_phase choosing) { tap = ingested.0; matched = 1; rest = [] }

abbrev last : Run
last = record after_one { phase = done; running = false }

whole :
    Reach zero_md5 ascii no_numbers write 0
      (begin false false ((clock, short_packet) ∷ []) at_eof tap)
      last
unfolding begin after_packet
whole =
    next
      (next
        (next
          (next wait
            (turn (take after_wait clock short_packet [] ingested.0 refl refl refl ingested.1)))
          (turn (go_on after_one refl refl)))
        (turn (pass (record after_one { phase = gated }) refl refl)))
      (turn (eof (record after_one { phase = reading }) refl refl refl refl))

Reach-run_loop_example :
    run_loop zero_md5 ascii no_numbers write 0 0 ((clock, short_packet) ∷ []) tap ≡ some ingested.0
Reach-run_loop_example =
    Reach-run_loop zero_md5 ascii no_numbers write 0 false ((clock, short_packet) ∷ []) at_eof tap
      whole refl tt

-- `Stop` while `Run` is paused.
abbrev held_run : Run
held_run = pause (at_phase gated)

stopping :
    Reach zero_md5 ascii no_numbers write 0
      (stop held_run)
      (record (stop held_run) { phase = done; running = false })
stopping = next Reach.here (turn (leave (stop held_run) refl refl refl))

stop-Ends_example :
    (turns zero_md5 ascii no_numbers write 0 stopping ≤ 4)
    × (1 ≤ 1 + 1)
    × Standing zero_md5 ascii no_numbers write 0
        (record (stop held_run) { phase = done; running = false })
stop-Ends_example =
    stop-Ends zero_md5 ascii no_numbers write 0 ascii-LowersAscii held_run
      (record (stop held_run) { phase = done; running = false }) stopping tap-IsSound
      short_packet-good

-- A pause, and the wait that it makes.
holding : Reach zero_md5 ascii no_numbers write 0 held_run (record held_run { phase = waiting })
holding = next Reach.here (turn (hold held_run refl refl refl))

holding-NeverResumes : NeverResumes zero_md5 ascii no_numbers write 0 holding
unfolding NeverResumes holding
holding-NeverResumes = tt

pause-Holds_example : length held_run.rest ≤ length held_run.rest + held gated
pause-Holds_example =
    pause-Holds zero_md5 ascii no_numbers write 0 (at_phase gated)
      (record held_run { phase = waiting }) holding holding-NeverResumes

-- An interface and a filter that look like options.
abbrev opts : LiveOpts
opts = record {
  iface = text "-w";
  snap_len = 65535;
  bpf = text "-z evil";
  promisc = false;
  stdin = false;
}

operands-tcpdump_args_example :
    operands (tcpdump_args opts) ≡ (if is_empty (text "-z evil") then [] else text "-z evil" ∷ [])
operands-tcpdump_args_example = operands-tcpdump_args opts

abbrev panel : Panel
panel = record {
  run = held_run;
  live = true;
  iface = text "eth0";
  path = [];
  source = text "tcpdump";
  telegram = telegram;
  webhook = webhook;
}

-- The body is the word itself.
abbrev bare_word : Bytes → Bytes
bare_word s = s

handle_control-Controlled_example :
    Controlled net no_match json body to_lower bare_word server request
      (text "POST")
      (text "stop")
      panel
      (auth to_lower server request
        (handle_control net no_match json body bare_word (text "POST") (text "stop"))
        panel)
handle_control-Controlled_example =
    handle_control-Controlled net no_match json body to_lower bare_word server request (text "POST")
      (text "stop") panel

-- The whole run, a flush of the queue, and a hub that is set again.
abbrev flushed_last : Run
flushed_last = record last { tap = set_hub (flush_tap last.tap) }
