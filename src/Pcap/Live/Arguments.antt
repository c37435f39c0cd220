-- ===== src/Pcap/Live/Arguments.antt =====
-- What tcpdump takes the arguments of `OpenLive` for.
use flux_tap.Pcap.Live.{LiveOpts, tcpdump_args}
use flux_tap.Prelude.Words.{Bytes}
use flux_tap.Prelude.{◌≡◌, refl, Bool, ◌||◌, List, [], ◌∷◌, if◌then◌else◌, Bool-cases, inl, inr}
use flux_tap.Text.{text, text_eq, is_empty, has_prefix}

-- The options with an argument among those used.
abbrev takes_argument : Bytes → Bool
takes_argument a = text_eq a (text "-i") || text_eq a (text "-w") || text_eq a (text "-s")

-- What getopt leaves as operands: `--` ends the options, and some options take the next argument.
unfoldable pub operands : List Bytes → List Bytes
operands [] = []
operands (a ∷ []) = if has_prefix a (text "-") then [] else a ∷ []
operands (a ∷ b ∷ more) =
    let skipped = operands more in
    let rest = operands (b ∷ more) in
    if text_eq a (text "--")
    then b ∷ more
    else if takes_argument a
    then skipped
    else if has_prefix a (text "-")
    then rest
    else a ∷ rest

operands-dashes :
    (bpf : Bytes)
    → operands (text "--" ∷ (if is_empty bpf then [] else bpf ∷ []))
      ≡ (if is_empty bpf then [] else bpf ∷ [])
unfolding operands text text_eq has_prefix
operands-dashes [] = refl
operands-dashes (c ∷ bpf) = refl

-- Whatever the filter and the interface are, also where they look like options: tcpdump takes no
-- other operand than the filter, as one argument, and none where there is no filter.
pub operands-tcpdump_args :
    (opts : LiveOpts)
    → operands (tcpdump_args opts) ≡ (if is_empty opts.bpf then [] else opts.bpf ∷ [])
unfolding operands tcpdump_args text text_eq has_prefix
operands-tcpdump_args opts = elim (Bool-cases opts.promisc) [
  | inl promisc ↦ rw promisc (operands-dashes opts.bpf)
  | inr quiet ↦ rw quiet (operands-dashes opts.bpf)
]
