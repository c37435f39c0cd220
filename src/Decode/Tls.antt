-- ===== src/Decode/Tls.antt =====
-- internal/decode/tls.go: the records of TLS and their handshakes.
pub mod Hello
pub mod Ja3
pub mod Safety
use flux_tap.Decode.Frame.{Frame, add_layer, set_meta, set_protocol, add_tags, u16, hex_string}
use flux_tap.Decode.Tls.Hello.{version_name, parse_client_hello, parse_server_hello}
use flux_tap.Decode.Tls.Ja3.{build_ja3}
use flux_tap.Prelude.Panics.{◌>>=◌}
use flux_tap.Prelude.Words.{Bytes, index, slice}
use flux_tap.Prelude.{
  ℕ, zero, suc, ◌+◌, ◌*◌, ◌≡◌, Bool, false, ◌&&◌, Option, none, some, List, [], ◌∷◌, ◌++◌, ltb, leb,
  ◌==◌, if◌then◌else◌, length,
}
use flux_tap.Text.Dict.{Dict, lookup, insert, get}
use flux_tap.Text.{text, text_eq, is_empty, decimal, join}

-- `md5.Sum`, of whose result the program uses only that it has 16 bytes.
pub record Md5 : Type 0 where
  pub sum : Bytes → Bytes
  pub length-sum : (s : Bytes) → length (sum s) ≡ 16

abbrev content_type_name : ℕ → Bytes
content_type_name ct =
    if ct == 20
    then text "ChangeCipherSpec"
    else if ct == 21
    then text "Alert"
    else if ct == 22
    then text "Handshake"
    else if ct == 23
    then text "ApplicationData"
    else if ct == 24
    then text "Heartbeat"
    else text "type-" ++ decimal ct

abbrev handshake_name : ℕ → Bytes
handshake_name ht =
    if ht == 1
    then text "ClientHello"
    else if ht == 2
    then text "ServerHello"
    else if ht == 4
    then text "NewSessionTicket"
    else if ht == 8
    then text "EncryptedExtensions"
    else if ht == 11
    then text "Certificate"
    else if ht == 12
    then text "ServerKeyExchange"
    else if ht == 13
    then text "CertificateRequest"
    else if ht == 14
    then text "ServerHelloDone"
    else if ht == 15
    then text "CertificateVerify"
    else if ht == 16
    then text "ClientKeyExchange"
    else if ht == 20
    then text "Finished"
    else text "Handshake-" ++ decimal ht

-- `parseTLSHandshake`: the text, which is empty on less than a header, and the fields.
unfoldable pub parse_tls_handshake : Bytes → Dict Bytes → Option (Bytes × Dict Bytes)
parse_tls_handshake b fields = if ltb (length b) 4 then some ([], fields) else do
  ht ← index b 0
  a1 ← index b 1
  a2 ← index b 2
  a3 ← index b 3
  let hs_len = 65536 * a1 + 256 * a2 + a3
  let name = handshake_name ht
  let known = insert (text "handshake_len") (decimal hs_len) (insert (text "handshake") name fields)
  rest ← slice b 4 (length b)
  body ← if ltb hs_len (length rest) then slice rest 0 hs_len else some rest
  if ht == 1
      then parse_client_hello body known
      else if ht == 2
      then parse_server_hello body known
      else if ht == 11
      then some (text "Certificate", known)
      else some (name, known)

-- The state of the loop over the records.
pub record Records : Type 0 where
  pub frame : Frame
  pub pos : ℕ
  pub shown : List Bytes
  pub fields : Dict Bytes
  pub ja3 : Bytes

-- `if v, ok := fields[k]; ok { f.Meta[name] = v }`.
abbrev pub copy_field : Dict Bytes → Bytes → Bytes → Frame → Frame
copy_field fields k name f = elim (lookup k fields) [ none ↦ f | some v ↦ set_meta name v f ]

module _ (md5 : Md5) where
  unfoldable pub md5hex : Bytes → Bytes
  md5hex s = hex_string (md5.sum s)

  -- The fingerprint of a ClientHello.
  abbrev pub fingerprint : Bytes → Records → Option Records
  fingerprint payload s =
      if text_eq (get s.fields (text "handshake")) (text "ClientHello")
      then (do
        ja3 ← build_ja3 payload
        let digest = md5hex ja3
        some (
            if is_empty ja3 then s else record s {
              fields = insert (text "ja3_hash") digest (insert (text "ja3") ja3 s.fields);
              frame = add_tags (text "ja3" ∷ []) (set_meta (text "ja3") digest s.frame);
              ja3 = ja3;
            }))
      else some s

  abbrev pub server_fields : Records → Records
  server_fields s =
      if text_eq (get s.fields (text "handshake")) (text "ServerHello")
      then record s {
        frame =
            copy_field s.fields (text "server_name") (text "sni")
              (copy_field s.fields (text "cipher_suite") (text "tls_cipher") s.frame);
      }
      else s

  -- A record of type 22 with a payload: what it is shown as, and the state.
  unfoldable pub handshake_record : Bytes → Bytes → Records → Option (Bytes × Records)
  handshake_record plain payload s = do
    (hs, fields) ← parse_tls_handshake payload s.fields
    s' ← fingerprint payload (record s { fields = fields })
    some (if is_empty hs then plain else hs, server_fields s')

  -- A record of type 21 with two bytes at least.
  unfoldable pub alert_record : Bytes → ℕ → Bytes → Records → Option (Bytes × Records)
  alert_record b off plain s = do
    level ← index b off
    desc ← index b (off + 1)
    some (
      plain ++ (text " level=" ++ (decimal level ++ (text " desc=" ++ decimal desc))),
      record s { frame = record s.frame { severity = text "warn" } },
    )

  -- One record; whether the loop goes on is the Boolean.
  unfoldable pub tls_record : Bytes → Records → Option (Records × Bool)
  tls_record b s = do
    ct ← index b s.pos
    let len = u16 b (s.pos + 3)
    let off = s.pos + 5
    let cut_short = ltb (length b) (off + len)
    let end = if cut_short then length b else off + len
    let plain =
        content_type_name ct
        ++ (text " "
            ++ (version_name (u16 b (s.pos + 1))
                ++ (text " len="
                    ++ (decimal len ++ (if cut_short then text " [truncated]" else [])))))
    (shown, s') ←
        if ct == 22 && ltb off end
        then (do payload ← slice b off end; handshake_record plain payload s)
        else if ct == 21 && ltb (off + 1) end
        then alert_record b off plain s
        else some (plain, s)
    let next = record s' { shown = s.shown ++ shown ∷ [] }
    if len == 0
        then some (next, false)
        else some (record next { pos = off + len }, leb (off + len) (length b))

  -- The loop: it stops at 12 records, and each round adds one.
  unfoldable pub tls_records : ℕ → Bytes → Records → Option Records
  tls_records zero b s = some s
  tls_records (suc n) b s =
      if leb (s.pos + 5) (length b) && ltb (length s.shown) 12
      then (do (s', goes_on) ← tls_record b s; if goes_on then tls_records n b s' else some s')
      else some s

  abbrev pub tls_summary : Records → Option Bytes
  tls_summary s = do
    let joined = join s.shown (text " | ")
    let named : Bytes = elim (lookup (text "server_name") s.fields) [
      | none ↦ joined
      | some sni ↦ text "SNI=" ++ (sni ++ (text " · " ++ joined))
    ]
    if is_empty s.ja3 then some named else do
      digest ← slice (get s.fields (text "ja3_hash")) 0 8
      some (named ++ (text " JA3=" ++ digest))

  unfoldable pub dissect_tls : Frame → Bytes → ℕ → Option (Frame × ℕ)
  dissect_tls f b offset = do
    s ← tls_records 12 b (record { frame = f; pos = 0; shown = []; fields = []; ja3 = [] })
    summary ← tls_summary s
    let g = copy_field s.fields (text "server_name") (text "sni") s.frame
    let h = add_layer g (text "TLS") summary s.fields offset (length b) (text "#a78bfa")
    some (
      add_tags (text "encrypted" ∷ text "tls" ∷ []) (set_protocol (text "TLS") summary h),
      offset + length b,
    )
