-- ===== src/Engine/Ingest/Sound.antt =====
-- A packet taken through the parts of internal/engine/engine.go leaves each of them sound.
use flux_tap.Decode.Dissector.{dissect-Runs}
use flux_tap.Decode.Frame.{Frame}
use flux_tap.Decode.Tls.{Md5}
use flux_tap.Decode.BadOptions.{HasBadOptions}
use flux_tap.Engine.Ingest.{Tap, Clock, new_tap, set_hub, pass_on, ingest, run_loop}
use flux_tap.Engine.{Engine, Row, slim, queue_ws, flush_ws, send_batch, store, max_pending}
use flux_tap.Filter.Match.Total.{match_frame-IsTotal}
use flux_tap.Filter.{Folding, Numbers, IsAscii, LowersAscii}
use flux_tap.Flow.Table.{new_tracker-IsValid, observe-IsValid}
use flux_tap.Flow.{Tracker}
use flux_tap.Pcap.Reader.{Packet}
use flux_tap.Pcap.Stream.{Instant}
use flux_tap.Pcap.Writer.{Writer}
use flux_tap.Security.{Analyzer, Finding}
use flux_tap.Prelude.Panics.{Runs, returns, Runs-bind, Runs-if, Runs-map}
use flux_tap.Prelude.Words.{Bytes}
use flux_tap.Prelude.{
  ℕ, ◌+◌, ◌-◌, ◌/◌, ◌≤◌, ◌&&◌, ◌⊎◌, inl, inr, List, [], ◌∷◌, ◌++◌, arith, Bool, Option, leb, ltb,
  length, drop, length-append, length-drop,
}
use flux_tap.Security.Limits.{IsWithin, observe-IsWithin}
use flux_tap.Session.Table.{IsPlayable, new_player-IsPlayable, observe-IsPlayable}
use flux_tap.Stats.Consistent.{IsConsistent, new_statistics-IsConsistent, observe-IsConsistent}

-- The store and the queue within their bounds.
pub record IsBounded (e : Engine) : Type 0 where
  pub limit : 4 ≤ e.max_store
  pub stored : length e.frames ≤ e.max_store
  pub pending : length e.ws_pending ≤ max_pending

pub record IsSound (t : Tap) : Type 0 where
  pub ascii : IsAscii t.filter
  pub security : IsWithin t.security
  pub stats : IsConsistent t.stats
  pub flows : flux_tap.Flow.Table.IsValid t.flows
  pub sessions : IsPlayable t.sessions
  pub engine : IsBounded t.engine

-- The program begins sound, with a filter in ASCII.
pub new_tap-IsSound :
    (filter : Bytes) (include_hex : Bool) (now : Instant)
    → IsAscii filter
    → IsSound (set_hub (new_tap filter include_hex now))
unfolding new_tap set_hub
new_tap-IsSound filter include_hex now ascii = record {
  ascii = ascii;
  security = record {
    few = omega arith;
    positive = omega arith;
    syn_sources = omega arith;
    dns_sources = omega arith;
  };
  stats = new_statistics-IsConsistent now;
  flows = new_tracker-IsValid 10000;
  sessions = new_player-IsPlayable 3000;
  engine = record { limit = omega arith; stored = omega arith; pending = omega arith };
}

store-IsBounded : (f : Frame) (e : Engine) → IsBounded e → IsBounded (store f e)
unfolding store
store-IsBounded f e v = record {
  limit = v.limit;
  stored = ground (
    arith,
    v.limit,
    v.stored,
    length-append e.frames (f ∷ []),
    length-append (drop (length e.frames / 4) e.frames) (f ∷ []),
    length-drop (length e.frames / 4) e.frames,
  );
  pending = v.pending;
}

queue_ws-IsBounded : (row : Row) (e : Engine) → IsBounded e → IsBounded (queue_ws row e)
unfolding queue_ws
queue_ws-IsBounded row e v = record {
  limit = ground (arith, v.limit);
  stored = ground (arith, v.stored);
  pending = ground (
    arith,
    v.pending,
    length-append e.ws_pending (row ∷ []),
    length-drop (length (e.ws_pending ++ row ∷ []) - max_pending) (e.ws_pending ++ row ∷ []),
  );
}

flush_ws-IsBounded : (e : Engine) → IsBounded e → IsBounded (flush_ws e)
unfolding flush_ws send_batch
flush_ws-IsBounded e v = record {
  limit = ground (arith, v.limit);
  stored = ground (arith, v.stored);
  pending = ground (arith, v.pending);
}

-- The flush of `wsFlushLoop`, and `SetHub`.
pub flushed-IsSound : (t : Tap) → IsSound t → IsSound (record t { engine = flush_ws t.engine })
flushed-IsSound t v = record {
  ascii = v.ascii;
  security = v.security;
  stats = v.stats;
  flows = v.flows;
  sessions = v.sessions;
  engine = flush_ws-IsBounded t.engine v.engine;
}

pub set_hub-IsSound : (t : Tap) → IsSound t → IsSound (set_hub t)
unfolding set_hub
set_hub-IsSound t v = record {
  ascii = v.ascii;
  security = v.security;
  stats = v.stats;
  flows = v.flows;
  sessions = v.sessions;
  engine = record { limit = v.engine.limit; stored = v.engine.stored; pending = v.engine.pending };
}

-- One of the packets holds, in a TCP header of its own, options on which `parseTCPOptions` panics.
abbrev pub HasBadPacket : List (Clock × Packet) → Type 0
HasBadPacket [] = ⊥
HasBadPacket ((clock, p) ∷ ps) = HasBadOptions p.contents p.link_type ⊎ HasBadPacket ps

module _ (md5 : Md5) (fold : Folding) (lowers : LowersAscii fold) {R : Type 0} (real : Numbers R)
    (write : Bytes → Bytes → Bytes × Bool) where
  pass_on-Runs :
      (counted : Instant) (f : Frame) (t : Tap)
      → IsSound t
      → Runs ⊥ IsSound (pass_on md5 fold real write counted f t)
  unfolding pass_on
  pass_on-Runs counted f t v =
      let (stats, a, stats') = observe-IsConsistent counted t.stats f v.stats in
      let (flows, b, flows', limit) = observe-IsValid t.flows f v.flows in
      let (sessions, c, sessions') = observe-IsPlayable t.sessions f v.sessions in
      rw (a, b, c)
        (returns _ (record {
          ascii = v.ascii;
          security = v.security;
          stats = stats';
          flows = flows';
          sessions = sessions';
          engine =
              queue_ws-IsBounded (slim f) (store f t.engine) (store-IsBounded f t.engine v.engine);
        }))

  -- Taking a packet in never panics, unless its TCP header has options on which `parseTCPOptions`
  -- does, and leaves the whole program sound: the tables of flows and sessions, the counters and the
  -- findings keep their invariants, and the store and the queue their bounds. The filter is in
  -- ASCII, on which lowering is that of ASCII.
  pub ingest-Runs :
      (clock : Clock) (p : Packet) (t : Tap)
      → IsSound t
      → Runs (HasBadOptions p.contents p.link_type) IsSound (ingest md5 fold real write clock p t)
  unfolding ingest
  ingest-Runs clock p t v =
      Runs-bind _ (dissect-Runs md5 t.dissector _ _ p.cap_len p.orig_len p.link_type p.contents)
        λ f layers.
          let seen = flux_tap.Security.observe t.security f in
          let (matched, e) = match_frame-IsTotal fold lowers real seen.frame t.filter v.ascii in
          let security = observe-IsWithin t.security f v.security in
          rw e (
            Runs-if matched
              (λ yes.
                Runs-map absurd (λ t' u. u)
                  (pass_on-Runs clock.counted seen.frame _ (observed-IsSound security)))
              (λ no. returns _ (observed-IsSound security)))
    where
      observed-IsSound :
          {no : ℕ} {writer : Option Writer} {notified : List Finding} {security : Analyzer}
          → IsWithin security
          → IsSound
              (record t { pkt_no = no; writer = writer; security = security; notified = notified })
      observed-IsSound security = record {
        ascii = v.ascii;
        security = security;
        stats = v.stats;
        flows = v.flows;
        sessions = v.sessions;
        engine = v.engine;
      }

  -- The loop of `Run` takes in any packets, one after the other, up to its maximum: it ends with the
  -- whole program sound, unless one of them holds, in the TCP header that the walk over its own
  -- headers comes to, options on which `parseTCPOptions` panics. The program is sound before, which
  -- asks that the filter is in ASCII, on which lowering is that of ASCII.
  pub run_loop-Runs :
      (max matched : ℕ) (ps : List (Clock × Packet)) (t : Tap)
      → IsSound t
      → Runs (HasBadPacket ps) IsSound (run_loop md5 fold real write max matched ps t)
  unfolding run_loop
  run_loop-Runs max matched [] t v = returns t v
  run_loop-Runs max matched ((clock, p) ∷ ps) t v =
      Runs-bind _ (Runs-map inl (λ t' u. u) (ingest-Runs clock p t v)) λ t' v'.
        Runs-if (ltb 0 max && leb max (matched + 1)) (λ full. returns t' v')
          (λ more. Runs-map inr (λ t' u. u) (run_loop-Runs max (matched + 1) ps t' v'))
