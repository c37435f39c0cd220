-- ===== src/Lib.antt =====
-- FluxTap reads packets from capture files and live taps, dissects them, follows their
-- conversations, looks for signs of attacks, and shows all that on a dashboard. `Engine.ingest`
-- (internal/engine/engine.go) takes each packet that a reader gives through `Dissect`,
-- the trackers' `Observe`, the store and the queue for the dashboard.
--
-- The modules, and the code that they model:
--
--   Pcap/Stream    what internal/pcap takes from Go: io.ReadFull, time.Time, the errors
--   Pcap/Reader    internal/pcap/reader.go: new_reader is NewReader, next is Next, all is All, and
--                  the blocks of a PCAPNG file are the functions that read_block chooses between
--   Pcap/Writer    internal/pcap/writer.go: CreateWriter, WritePacket, Close
--   Pcap/Live      internal/pcap/live.go: the arguments of tcpdump, ListInterfaces, Next and Close
--   Pcap/Kernel    internal/pcap/afpacket.go: Next, Close and htons
--   Decode/Frame   internal/decode/frame.go: Frame, Layer and the helpers of the dissectors
--   Decode/Dissector  the method Dissect of the same file; Dissector/Panicking is on what it panics
--   Decode/Ethernet, Decode/Ip, Decode/Transport, Decode/Http, Decode/Http2, Decode/Tls
--                  eth.go, ip.go, tcpudp.go, http.go and tls.go of internal/decode, a function
--                  for each; Tls/Hello and Tls/Ja3 are the parsers of the hellos
--   Decode/BadOptions  where a packet holds the TCP options that stop the program, by the fields of
--                  its own headers
--   Decode/Dns, Decode/Dhcp, Decode/Quic
--                  the three dissectors of internal/decode/dns.go
--   Flow           internal/flow/tracker.go: the table of conversations
--   Security       internal/security/analyzer.go: the heuristics
--   Ranking        the selection sort that Flow, Stats and Session each write out
--   Stats          internal/stats/engine.go: the counters, the timeline and their snapshot
--   Session        internal/session/player.go: the sessions with their events
--   Filter         internal/filter/filter.go: Filter/Split is splitTop, Filter/Compare the
--                  comparisons, and Filter/Match the evaluation
--   Engine         internal/engine/engine.go: the store of frames and the queue of the dashboard
--   Engine/Ingest  ingest of the same file, which takes a packet through all parts, and the packets
--                  of the loop of Run
--   Story          internal/story/story.go: Build and what it calls
--   Engine/Control Run with Pause, Resume and Stop: a turn of Run is a step of a relation. Next may
--                  not return for any time, and may end in io.EOF, an error or a panic;
--                  Engine/Control/Whole adds SetHub and the flushes of wsFlushLoop
--   Engine/Status  openSource and Status; Engine/Reports is what Run does around its loop, and the
--                  rows of ExportCSV
--   Notify         internal/notify/ssrf.go: the addresses that a webhook may be sent to;
--                  Notify/Telegram, Notify/Webhook and Notify/Redact are the files of these names,
--                  and Notify/Cooldown is what the first two share
--   Web            internal/web/server.go: authorize, checkOrigin and handlePackets, with Filtered of
--                  the engine
--   Web/Control    auth, handleControl and the other handlers that change or look up a thing;
--                  Web/Pages is the page, the list of sessions and what a broadcast leaves
--   Demo           cmd/fluxtap/main.go: the demo capture. Demo/Packets are its packets, and
--                  Demo/Capture is writeDemoPCAP
--   Text           strings as bytes: the formats %d, %x, %04x, strings.Join and the like;
--                  Text/Address prints addresses as net.IP does, Text/Dict is a Go map
--   Prelude        lists, tests and words of bytes, and `Runs`, which says what a call that may
--                  panic returns, and on what it panics
--   Tests          runs of the models, and every theorem with a hypothesis at an instance
--
-- Code that may panic returns an Option, whose `none` is the panic: `index` and `slice` are the
-- accesses of Go with their checks. The reader has a panic among its errors. Integers are native
-- numbers with the wrap-around of their width written out.
--
-- Loops whose length is not plain run on fuel: one more than the length of the expression of a
-- display filter, which has no more parentheses than bytes, and than that of the text that is
-- split; one more than the length of the options, of the packet behind the Ethernet header, of
-- the DHCP options or of the extensions of a hello, since each round takes a byte at least; 64
-- for a compressed name, 16 for the frames of HTTP/2 and 12 for the records of TLS, the bounds of
-- the source itself; one more than the length of the stream for the reader, since each block and
-- each packet takes 12 bytes of it at least. Out of fuel, the loops with a bound of the source
-- return what they have, as it does, and the others a panic, or the error no_fuel in the reader:
-- what a theorem says of panics covers them.
--
-- Not modelled: the locks (calls come one after the other, and a time that the code asks for
-- is a parameter; Run alone takes its turns among the calls from the dashboard and the
-- flushes, whose ticker is any moment), opening and closing files, the file system of the
-- writer (a parameter that appends), the start of tcpdump and the socket of the kernel, the
-- connections of the web server, the HTTP client (its answers are parameters), the JSON that
-- is printed, and the command line but for its demo. A loop over a Go map takes its entries in
-- any order: what depends on it gets them as a list. The names of HTTP headers and the
-- credentials that check_auth looks for are lowered in ASCII alone. Elsewhere lowering of
-- Unicode, and ParseFloat, float64, sort.Slice, regexp, encoding/json, net and net/url are
-- parameters. MD5 is a parameter (16 bytes).
pub mod Prelude
pub mod Text
pub mod Pcap
pub mod Decode
pub mod Ranking
pub mod Flow
pub mod Stats
pub mod Session
pub mod Filter
pub mod Security
pub mod Notify
pub mod Story
pub mod Engine
pub mod Web
pub mod Demo
pub mod Tests
