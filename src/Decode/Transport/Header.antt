-- ===== src/Decode/Transport/Header.antt =====
-- The flags and the options of a TCP header: `tcpFlags` and `parseTCPOptions` of
-- internal/decode/tcpudp.go.
use flux_tap.Decode.Frame.{u16}
use flux_tap.Prelude.Panics.{◌>>=◌}
use flux_tap.Prelude.Words.{Bytes, index}
use flux_tap.Prelude.{
  ℕ, zero, suc, ◌+◌, ◌/◌, ◌%◌, ◌||◌, Option, none, some, List, [], ◌∷◌, ◌++◌, ltb, leb, ◌==◌,
  if◌then◌else◌, length,
}
use flux_tap.Text.{text, decimal, join}

-- The names of the flags that are set, from the highest bit.
unfoldable pub flag_names : ℕ → List Bytes
flag_names flags =
    flag 256 (text "NS")
    ++ (flag 128 (text "CWR")
        ++ (flag 64 (text "ECE")
            ++ (flag 32 (text "URG")
                ++ (flag 16 (text "ACK")
                    ++ (flag 8 (text "PSH")
                        ++ (flag 4 (text "RST")
                            ++ (flag 2 (text "SYN") ++ flag 1 (text "FIN"))))))))
  where
    flag : ℕ → Bytes → List Bytes
    flag bit name = if flags / bit % 2 == 0 then [] else name ∷ []

unfoldable pub tcp_flags : ℕ → Bytes
unfolding flag_names
tcp_flags flags =
    let names = flag_names flags in
    if ltb 0 (length names) then join names (text ",") else text "NONE"

-- One round of `parseTCPOptions`: the end, or the next place, with the parts so far.
pub data OptionStep : Type 0 where
  finished : List Bytes → OptionStep
  more : ℕ → List Bytes → OptionStep

-- What an option that fits is printed as.
unfoldable pub option_text : Bytes → ℕ → ℕ → ℕ → Option (List Bytes)
option_text opts i kind l =
    if kind == 2
    then some (if l == 4 then (text "MSS=" ++ decimal (u16 opts (i + 2))) ∷ [] else [])
    else if kind == 3
    then (do shift ← index opts (i + 2); some ((text "WS=" ++ decimal shift) ∷ []))
    else if kind == 4
    then some (text "SACK-perm" ∷ [])
    else if kind == 8
    then some (text "TS" ∷ [])
    else some ((text "opt-" ++ decimal kind) ∷ [])

unfoldable pub option_step : Bytes → ℕ → List Bytes → Option OptionStep
option_step opts i parts =
    if ltb i (length opts)
    then (do
      kind ← index opts i
      if kind == 0
          then some (finished (parts ++ text "EOL" ∷ []))
          else if kind == 1
          then some (more (i + 1) (parts ++ text "NOP" ∷ []))
          else if leb (length opts) (i + 1)
          then some (finished parts)
          else do
            l ← index opts (i + 1)
            if ltb l 2 || ltb (length opts) (i + l)
                then some (finished parts)
                else do shown ← option_text opts i kind l; some (more (i + l) (parts ++ shown)))
    else some (finished parts)

abbrev pub after_option_step :
    (ℕ → List Bytes → Option (List Bytes)) → OptionStep → Option (List Bytes)
after_option_step loop (finished parts) = some parts
after_option_step loop (more i parts) = loop i parts

-- The loop, on fuel; each round goes on by a byte at least.
unfoldable pub options_loop : ℕ → Bytes → ℕ → List Bytes → Option (List Bytes)
options_loop zero opts i parts = none
options_loop (suc n) opts i parts = do
  step ← option_step opts i parts
  after_option_step (options_loop n opts) step

unfoldable pub parse_tcp_options : Bytes → Option Bytes
parse_tcp_options opts = do
  parts ← options_loop (suc (length opts)) opts 0 []
  some (join parts (text ","))
