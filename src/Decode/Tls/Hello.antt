-- ===== src/Decode/Tls/Hello.antt =====
-- `parseClientHello` and `parseServerHello` of internal/decode/tls.go.
pub mod Safety
use flux_tap.Decode.Frame.{u16, hex_string}
use flux_tap.Prelude.Panics.{◌>>=◌}
use flux_tap.Prelude.Words.{Bytes, index, slice}
use flux_tap.Prelude.{
  ℕ, zero, suc, ◌+◌, ◌/◌, Bool, true, false, ◌&&◌, Option, none, some, List, [], ◌∷◌, ◌++◌, ltb,
  leb, ◌==◌, if◌then◌else◌, length,
}
use flux_tap.Text.Dict.{Dict, lookup, insert, get}
use flux_tap.Text.{text, is_empty, decimal, hex_padded, join}

-- `tlsVersions`.
unfoldable pub known_version : ℕ → Option Bytes
known_version v =
    if v == 0x0300
    then some (text "SSL 3.0")
    else if v == 0x0301
    then some (text "TLS 1.0")
    else if v == 0x0302
    then some (text "TLS 1.1")
    else if v == 0x0303
    then some (text "TLS 1.2")
    else if v == 0x0304
    then some (text "TLS 1.3")
    else none

abbrev pub hex4 : ℕ → Bytes
hex4 n = text "0x" ++ hex_padded 4 n

unfoldable pub version_name : ℕ → Bytes
version_name v = elim (known_version v) [ none ↦ hex4 v | some name ↦ name ]

-- The cipher suites, as many as are given, from a place on.
unfoldable pub ciphers : ℕ → Bytes → ℕ → List Bytes
ciphers zero b pos = []
ciphers (suc n) b pos = hex4 (u16 b pos) ∷ ciphers n b (pos + 2)

-- The state of the loop over the extensions; the last is what `sni` holds.
pub record Extensions : Type 0 where
  pub pos : ℕ
  pub ids : List Bytes
  pub fields : Dict Bytes
  pub sni : Bytes

-- The body of a server name extension at `pos` of length `el`.
unfoldable pub server_name : Bytes → ℕ → ℕ → Extensions → Option Extensions
server_name b pos el s =
    let nlen = u16 b (pos + 3) in
    if leb (pos + 5) (pos + el) && leb (pos + 5 + nlen) (pos + el)
    then (do
      sni ← slice b (pos + 5) (pos + 5 + nlen)
      some (record s { sni = sni; fields = insert (text "server_name") sni s.fields }))
    else some s

unfoldable pub supported_versions : Bytes → ℕ → ℕ → Extensions → Option Extensions
supported_versions b pos el s = do
  shown ← slice b pos (pos + (if ltb el 16 then el else 16))
  some (record s { fields = insert (text "supported_versions_ext") (hex_string shown) s.fields })

-- One extension before `end`; whether the loop goes on is the Boolean.
unfoldable pub client_extension : Bytes → ℕ → Extensions → Option (Extensions × Bool)
client_extension b end s =
    let eid = u16 b s.pos in
    let el = u16 b (s.pos + 2) in
    let pos = s.pos + 4 in
    let s1 = record s { pos = pos; ids = s.ids ++ decimal eid ∷ [] } in
    if ltb end (pos + el) then some (s1, false) else do
      s2 ← if eid == 0 && leb 5 el then server_name b pos el s1 else some s1
      s3 ← if eid == 43 && leb 2 el then supported_versions b pos el s2 else some s2
      some (record s3 { pos = pos + el }, true)

-- The loop, on fuel; each round takes four bytes.
unfoldable pub client_extensions : ℕ → Bytes → ℕ → Extensions → Option Extensions
client_extensions zero b end s = none
client_extensions (suc n) b end s =
    if leb (s.pos + 4) end
    then (do
      (s', goes_on) ← client_extension b end s
      if goes_on then client_extensions n b end s' else some s')
    else some s

abbrev pub hello_end : Bytes → ℕ → ℕ
hello_end b pos = let end = pos + 2 + u16 b pos in if ltb (length b) end then length b else end

-- Where the extensions begin, behind the session, the ciphers and the compression; the texts are
-- those that are returned before.
unfoldable pub client_body : Bytes → ℕ → ℕ → Dict Bytes → Option (Bytes × Dict Bytes)
client_body b count pos fields = do
  comp_len ← index b pos
  let at = pos + 1 + comp_len
  let start : Extensions = record { pos = at + 2; ids = []; fields = fields; sni = [] }
  let end = hello_end b at
  s ←
      if leb (at + 2) (length b)
      then (do
        s ← client_extensions (suc (length b)) b end start
        some (record s { fields = insert (text "extensions") (join s.ids (text "-")) s.fields }))
      else some start
  let named = if is_empty s.sni then [] else text " SNI=" ++ s.sni
  some (
    text "ClientHello "
        ++ (get fields (text "client_version") ++ (named ++ (text " ciphers=" ++ decimal count))),
    s.fields,
  )

unfoldable pub parse_client_hello : Bytes → Dict Bytes → Option (Bytes × Dict Bytes)
parse_client_hello b fields =
    if ltb (length b) 34
    then some (text "ClientHello", fields)
    else (let version = version_name (u16 b 0) in
        let known = insert (text "client_version") version fields in
        if leb (length b) 34 then some (text "ClientHello " ++ version, known) else do
          session_len ← index b 34
          let pos = 35 + session_len
          let cs_len = u16 b pos
          let body = pos + 2
          let suites = ciphers (cs_len / 2) b body
          let listed = insert (text "cipher_suites") (join suites (text ",")) known
          if ltb (length b) body
              then some (text "ClientHello", known)
              else if ltb (length b) (body + cs_len)
              then some (text "ClientHello", known)
              else if leb (length b) (body + cs_len)
              then some (text "ClientHello", listed)
              else client_body b (length suites) (body + cs_len) listed)

-- One extension of a ServerHello before `end`: the next place and the fields, or the end.
unfoldable pub server_extensions : ℕ → Bytes → ℕ → ℕ → Dict Bytes → Option (Dict Bytes)
server_extensions zero b end pos fields = none
server_extensions (suc n) b end pos fields =
    let el = u16 b (pos + 2) in
    let selected = known_version (u16 b (pos + 4)) in
    let chosen : Dict Bytes = elim selected [
      | none ↦ fields
      | some v ↦ insert (text "negotiated_version") v fields
    ] in
    let next = if u16 b pos == 43 && el == 2 then chosen else fields in
    let rest = server_extensions n b end (pos + 4 + el) next in
    if leb (pos + 4) end
    then (if ltb end (pos + 4 + el) then some fields else rest)
    else some fields

unfoldable pub parse_server_hello : Bytes → Dict Bytes → Option (Bytes × Dict Bytes)
parse_server_hello b fields =
    if ltb (length b) 34
    then some (text "ServerHello", fields)
    else (let version = version_name (u16 b 0) in
        let known = insert (text "server_version") version fields in
        if leb (length b) 34 then some (text "ServerHello", known) else do
          session_len ← index b 34
          let pos = 35 + session_len
          let suite = hex4 (u16 b pos)
          let listed = insert (text "cipher_suite") suite known
          if ltb (length b) (pos + 3) then some (text "ServerHello " ++ version, known) else do
            _ ← index b (pos + 2)
            last ←
                if leb (pos + 5) (length b)
                then server_extensions (suc (length b)) b (hello_end b (pos + 3)) (pos + 5) listed
                else some listed
            let shown : Bytes = elim (lookup (text "negotiated_version") last) [
              | none ↦ version
              | some v ↦ v
            ]
            some (
              text "ServerHello " ++ (shown ++ (text " cipher=" ++ get last (text "cipher_suite"))),
              last,
            ))
