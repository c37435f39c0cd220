-- ===== src/Decode/Dns.antt =====
-- `dissectDNS` of internal/decode/dns.go. A dissector takes the frame so far and the payload,
-- and returns the frame and the offset behind it; `none` is a panic.
pub mod Names
pub mod Safety
use flux_tap.Decode.Frame.{
  Frame, add_layer, set_meta, set_protocol, add_tags, u16, u32, hex_preview,
}
use flux_tap.Prelude.Panics.{◌>>=◌}
use flux_tap.Prelude.Words.{Bytes, index, slice}
use flux_tap.Prelude.{
  ℕ, zero, suc, ◌+◌, ◌-◌, ◌/◌, ◌%◌, Bool, true, false, not, ◌&&◌, ◌||◌, Option, none, some, List,
  [], ◌∷◌, ◌++◌, ltb, leb, ◌==◌, if◌then◌else◌, length,
}
use flux_tap.Text.Address.{ip_string}
use flux_tap.Text.Dict.{Dict}
use flux_tap.Text.{text, decimal, hex_padded, join}
use flux_tap.Decode.Dns.Names.{dns_type_name, read_dns_name}

unfoldable pub dns_rcode : ℕ → Bytes
dns_rcode c =
    if c == 0
    then text "NOERROR"
    else if c == 1
    then text "FORMERR"
    else if c == 2
    then text "SERVFAIL"
    else if c == 3
    then text "NXDOMAIN"
    else if c == 4
    then text "NOTIMP"
    else if c == 5
    then text "REFUSED"
    else text "RCODE" ++ decimal c

-- The last line of `formatDNSRdata`, where no case returns.
raw_rdata : Bytes → ℕ → ℕ → Option Bytes
raw_rdata b pos rdlen = do s ← slice b pos (pos + rdlen); some (hex_preview s 16)

unfoldable pub format_dns_rdata : Bytes → ℕ → ℕ → ℕ → Option Bytes
unfolding raw_rdata
format_dns_rdata b pos atype rdlen =
    if atype == 1 && rdlen == 4
    then (do s ← slice b pos (pos + 4); some (ip_string s))
    else if atype == 28 && rdlen == 16
    then (do s ← slice b pos (pos + 16); some (ip_string s))
    else if atype == 5 || atype == 2 || atype == 12
    then (do (n, _) ← read_dns_name b pos; some n)
    else if atype == 16 && ltb 0 rdlen
    then (do
      l ← index b pos
      let used = if ltb (rdlen - 1) l then rdlen - 1 else l
      slice b (pos + 1) (pos + 1 + used))
    else if atype == 15 && leb 3 rdlen
    then (do (n, _) ← read_dns_name b (pos + 2); some (decimal (u16 b pos) ++ (text " " ++ n)))
    else raw_rdata b pos rdlen

-- The frame, the position and the texts gathered so far.
pub record Section : Type 0 where
  pub frame : Frame
  pub pos : ℕ
  pub texts : List Bytes

-- One round of the loop over the questions; `none` inside is a break.
unfoldable pub question : Bytes → Section → Option (Option Section)
question b s =
    if ltb s.pos (length b)
    then (do
      (qname, npos) ← read_dns_name b s.pos
      let qtype = dns_type_name (u16 b npos)
      if ltb (length b) (npos + 4)
          then some none
          else some (
              some (record {
                frame = set_meta (text "dns_qtype") qtype (set_meta (text "dns_qry") qname s.frame);
                pos = npos + 4;
                texts = s.texts ++ (qtype ++ (text " " ++ qname)) ∷ [];
              })))
    else some none

-- The same for the answers; the flag is `i == 0`.
unfoldable pub answer : Bytes → Bool → Section → Option (Option Section)
answer b first s =
    if ltb s.pos (length b)
    then (do
      (aname, npos) ← read_dns_name b s.pos
      let atype = u16 b npos
      let rdlen = u16 b (npos + 8)
      if ltb (length b) (npos + 10)
          then some none
          else if ltb (length b) (npos + 10 + rdlen)
          then some none
          else do
            rdata ← format_dns_rdata b (npos + 10) atype rdlen
            some (
                some (record {
                  frame = if first then set_meta (text "dns_ans") rdata s.frame else s.frame;
                  pos = npos + 10 + rdlen;
                  texts =
                      s.texts
                      ++ (dns_type_name atype
                          ++ (text " "
                              ++ (aname
                                  ++ (text " "
                                      ++ (rdata ++ (text " ttl=" ++ decimal (u32 b (npos + 4))))))))
                        ∷ [];
                })))
    else some none

abbrev pub after_round : (Section → Option Section) → Section → Option Section → Option Section
after_round loop s none = some s
after_round loop s (some s') = loop s'

unfoldable pub questions : ℕ → Bytes → Section → Option Section
questions zero b s = some s
questions (suc n) b s = do r ← question b s; after_round (questions n b) s r

unfoldable pub answers : ℕ → Bytes → Bool → Section → Option Section
answers zero b first s = some s
answers (suc n) b first s = do r ← answer b first s; after_round (answers n b false) s r

dns_summary : Bytes → List Bytes → List Bytes → Bytes
dns_summary dir queries answered =
    let asked =
      if ltb 0 (length queries) then dir ++ (text " " ++ join queries (text ", ")) else dir in
    if ltb 0 (length answered) then asked ++ (text " → " ++ join answered (text "; ")) else asked

unfoldable pub dissect_dns : Frame → Bytes → ℕ → Bool → Option (Frame × ℕ)
unfolding dns_summary
dissect_dns f b offset mdns = if ltb (length b) 12 then some (f, offset) else do
  let flags = u16 b 2
  let qr = flags / 32768 % 2
  let rcode = flags % 16
  let name = if mdns then text "mDNS" else text "DNS"
  asked ← questions (u16 b 4) b (record { frame = f; pos = 12; texts = [] })
  answered ← answers (u16 b 6) b true (record asked { texts = [] })
  let dir = if qr == 1 then text "response" else text "query"
  let failed = not (rcode == 0) && qr == 1
  let plain = dns_summary dir asked.texts answered.texts
  let summary = if failed then plain ++ (text " [" ++ (dns_rcode rcode ++ text "]")) else plain
  let g = if failed then record answered.frame { severity = text "warn" } else answered.frame
  let fields : Dict Bytes =
      (text "id", text "0x" ++ hex_padded 4 (u16 b 0))
      ∷ (text "qr", dir)
      ∷ (text "rcode", dns_rcode rcode)
      ∷ (text "questions", decimal (u16 b 4))
      ∷ (text "answers", decimal (u16 b 6))
      ∷ (text "authority", decimal (u16 b 8))
      ∷ (text "additional", decimal (u16 b 10))
      ∷ (text "queries", join asked.texts (text "; "))
      ∷ (text "answers_detail", join answered.texts (text "; "))
      ∷ []
  let h = add_layer g name summary fields offset (length b) (text "#f472b6")
  some (add_tags (text "name-resolution" ∷ []) (set_protocol name summary h), offset + length b)
