-- ===== src/Pcap/Live.antt =====
-- internal/pcap/live.go: the arguments of tcpdump, the names that it lists, and the end of a capture.
pub mod Arguments
use flux_tap.Pcap.Reader.{Reader}
use flux_tap.Pcap.Stream.{Result, ok, fail, eof}
use flux_tap.Prelude.Panics.{◌>>=◌}
use flux_tap.Prelude.Words.{Bytes}
use flux_tap.Prelude.{
  ℕ, Bool, true, false, Option, none, some, List, [], ◌∷◌, ◌++◌, ◌==◌, if◌then◌else◌,
}
use flux_tap.Text.Fields.{first_field}
use flux_tap.Text.Split.{cut, split}
use flux_tap.Text.{text, is_empty, decimal, trim_space}

-- `SnapLen` is 0 where it is not positive.
pub record LiveOpts : Type 0 where
  pub iface : Bytes
  pub snap_len : ℕ
  pub bpf : Bytes
  pub promisc : Bool
  pub stdin : Bool

-- The arguments of tcpdump in `OpenLive`.
unfoldable pub tcpdump_args : LiveOpts → List Bytes
tcpdump_args opts =
    let iface = if is_empty opts.iface then text "any" else opts.iface in
    let snap_len = if opts.snap_len == 0 then 65535 else opts.snap_len in
    let quiet = if opts.promisc then [] else text "-p" ∷ [] in
    let filter = if is_empty opts.bpf then [] else opts.bpf ∷ [] in
    (text "-i"
      ∷ iface
      ∷ text "-w"
      ∷ text "-"
      ∷ text "-U"
      ∷ text "--immediate-mode"
      ∷ text "-n"
      ∷ text "-s"
      ∷ decimal snap_len
      ∷ [])
    ++ (quiet ++ (text "--" ∷ filter))

-- `Live`, whose reader is given on.
pub record Live : Type 0 where
  pub rd : Reader
  pub iface : Bytes
  pub closed : Bool

-- An error of a capture that was closed meanwhile is the end of the stream.
abbrev given : {A : Type 0} → Bool → Result A → Result A
given closing (ok a) = ok a
given closing (fail e) = if closing then fail eof else fail e

-- `Next` and what it is given of the reader: `read` is its `Next`, and `closing` says whether the
-- capture was closed while it waited.
unfoldable pub next_live : {A : Type 0} → (Reader → Result A) → Bool → Live → Result A
next_live read closing l = if l.closed then fail eof else given closing (read l.rd)

-- `Close`, and whether tcpdump is signalled.
unfoldable pub close_live : Live → Live × Bool
close_live l = if l.closed then (l, false) else (record l { closed = true }, true)

-- A line of `tcpdump -D`: the number, a dot, and the name with what is said of it.
unfoldable pub listed_name : Bytes → Option Bytes
listed_name line =
    first_field (elim (cut (text ".") line) [ none ↦ line | some (number, rest) ↦ rest ])

-- The loop over the lines; `none` is a panic.
unfoldable pub listed_names : List Bytes → Option (List Bytes)
unfolding listed_name
listed_names [] = some []
listed_names (line ∷ lines) =
    let rest = listed_names lines in
    if is_empty (trim_space line)
    then rest
    else (do name ← listed_name (trim_space line); names ← rest; some (name ∷ names))

-- The names of the directory `/sys/class/net`, if it can be read.
abbrev system_names : Option (List Bytes) → List Bytes
system_names none = text "any" ∷ text "lo" ∷ []
system_names (some entries) = text "any" ∷ entries

abbrev names_or : Option (List Bytes) → List Bytes → List Bytes
names_or entries [] = system_names entries
names_or entries (name ∷ names) = name ∷ names

-- `ListInterfaces`, with the output of `tcpdump -D` and the entries of the directory.
unfoldable pub list_interfaces : Option Bytes → Option (List Bytes) → Option (List Bytes)
unfolding listed_names
list_interfaces none entries = some (system_names entries)
list_interfaces (some out) entries = do
  names ← listed_names (split (text "\n") out)
  some (names_or entries names)
