-- ===== src/Decode/Tls/Safety.antt =====
-- On what the dissector of internal/decode/tls.go panics, and where its layers lie.
use flux_tap.Decode.Dissected.{IsDissected, HasLayersIn, add_layer-HasLayersIn}
use flux_tap.Decode.Frame.{Frame, u16, hex_string}
use flux_tap.Decode.Tls.Hello.Safety.{
  digest_key, insert-Kept, other_keys, KeepsDigest, parse_client_hello-Runs,
  parse_server_hello-Runs,
}
use flux_tap.Decode.Tls.Ja3.Safety.{build_ja3-Runs}
use flux_tap.Decode.Tls.{
  Md5, parse_tls_handshake, Records, copy_field, md5hex, fingerprint, server_fields,
  handshake_record, alert_record, tls_record, tls_records, tls_summary, dissect_tls,
}
use flux_tap.Prelude.Panics.{Runs, returns, Runs-bind, Runs-if, Runs-index, Runs-slice, Runs-map}
use flux_tap.Prelude.Words.{Bytes}
use flux_tap.Prelude.{
  ℕ, zero, suc, ◌+◌, ◌*◌, ◌≤◌, ◌<◌, ◌≡◌, refl, ◌∙◌, sym, Bool, false, ◌&&◌, [], ◌∷◌, arith, tests,
  ltb, leb, ◌==◌, if◌then◌else◌, length, length-append, if-both,
}
use flux_tap.Text.Dict.{Dict, get, insert, get-insert_self, get-congr}
use flux_tap.Text.{text, text_eq, is_empty, hex_padded, length-hex_padded}

-- `parseTLSHandshake` never panics, whatever the payload and the fields before it, and returns a
-- text and fields with the same digest as before: the loops over the extensions of both hellos
-- end, and every read is in range.
pub parse_tls_handshake-Runs :
    (b : Bytes) (fields : Dict Bytes) → Runs ⊥ (KeepsDigest fields) (parse_tls_handshake b fields)
unfolding parse_tls_handshake
parse_tls_handshake-Runs b fields =
    Runs-if (ltb (length b) 4) (λ _. returns _ refl)
      λ c. Runs-bind _ (Runs-index b 0 (omega tests)) λ ht _.
        Runs-bind _ (Runs-index b 1 (omega tests)) λ a1 _.
          Runs-bind _ (Runs-index b 2 (omega tests)) λ a2 _.
            Runs-bind _ (Runs-index b 3 (omega tests)) λ a3 _.
              let hs_len = 65536 * a1 + 256 * a2 + a3 in
              let known =
                insert-Kept (text "handshake_len") _ _ other_keys.handshake_len
                ∙ insert-Kept (text "handshake") _ fields other_keys.handshake in
              Runs-bind _ (Runs-slice b 4 (length b) (omega tests) (omega arith)) λ rest _.
                Runs-bind {Q = λ (x : Bytes). Unit {0}} _
                  (Runs-if (ltb hs_len (length rest))
                    (λ d.
                      Runs-map (λ x. x) (λ _ _. tt)
                        (Runs-slice rest 0 hs_len (omega arith) (omega tests)))
                    λ _. returns _ tt)
                  λ body _.
                    Runs-if (ht == 1)
                      (λ _. Runs-map (λ x. x) (λ _ k. k ∙ known) (parse_client_hello-Runs body _))
                      λ _.
                        Runs-if (ht == 2)
                          (λ _.
                            Runs-map (λ x. x) (λ _ k. k ∙ known) (parse_server_hello-Runs body _))
                          λ _. Runs-if (ht == 11) (λ _. returns _ known) λ _. returns _ known

length-hex_string : (b : Bytes) → length b ≤ length (hex_string b)
unfolding hex_string
length-hex_string [] = omega arith
length-hex_string (c ∷ b) = omega (
  arith,
  length-append (hex_padded 2 c) (hex_string b),
  length-hex_padded 2 c,
  length-hex_string b,
)

-- Where a fingerprint was found, its digest is there, at least 8 characters long.
abbrev HasDigest : Records → Type 0
HasDigest s = is_empty s.ja3 ≡ false → 8 ≤ length (get s.fields digest_key)

-- What the loop over the records keeps, in a packet of `n` bytes.
abbrev IsRecord : ℕ → Records → Type 0
IsRecord n s = HasLayersIn n s.frame × HasDigest s

copy_field-layers :
    (fields : Dict Bytes) (k name : Bytes) (f : Frame)
    → (copy_field fields k name f).layers ≡ f.layers
copy_field-layers fields k name f = ground arith

module _ (md5 : Md5) (n : ℕ) where
  md5hex-long : (s : Bytes) → 8 ≤ length (md5hex md5 s)
  unfolding md5hex
  md5hex-long s = omega (arith, length-hex_string (md5.sum s), md5.length-sum s)

  fingerprint-Runs :
      (payload : Bytes) (s : Records)
      → IsRecord n s
      → Runs ⊥ (IsRecord n) (fingerprint md5 payload s)
  fingerprint-Runs payload s h =
      Runs-if (text_eq (get s.fields (text "handshake")) (text "ClientHello"))
        (λ _. Runs-bind _ (build_ja3-Runs payload) λ ja3 _. returns _ (
          if-both (IsRecord n) (is_empty ja3) _ _ h (
            h.0,
            λ _.
                rw
                  (get-insert_self (text "ja3_hash") (md5hex md5 ja3)
                    (insert (text "ja3") ja3 s.fields))
                  (md5hex-long ja3),
          )))
        λ _. returns _ h

  server_fields-IsRecord : (s : Records) → IsRecord n s → IsRecord n (server_fields md5 s)
  server_fields-IsRecord s h =
      let cipher = copy_field-layers s.fields (text "cipher_suite") (text "tls_cipher") s.frame in
      let named =
        copy_field-layers s.fields (text "server_name") (text "sni")
          (copy_field s.fields (text "cipher_suite") (text "tls_cipher") s.frame) in
      if-both (IsRecord n) (text_eq (get s.fields (text "handshake")) (text "ServerHello")) _ _
        (rw (named ∙ cipher) h.0, h.1) h

  -- What a record is shown as, and the state that it leaves.
  abbrev IsShown : Bytes × Records → Type 0
  IsShown r = IsRecord n r.1

  handshake_record-Runs :
      (plain payload : Bytes) (s : Records)
      → IsRecord n s
      → Runs ⊥ IsShown (handshake_record md5 plain payload s)
  unfolding handshake_record
  handshake_record-Runs plain payload s h =
      Runs-bind _ (parse_tls_handshake-Runs payload s.fields) λ r k.
        Runs-bind _
          (fingerprint-Runs payload (record s { fields = r.1 })
            (
              h.0,
              λ e.
                  rw (get-congr digest_key r.1 k ∙ sym (get-congr digest_key s.fields refl))
                    (h.1 e),
            ))
          λ s' h'. returns _ (server_fields-IsRecord s' h')

  alert_record-Runs :
      (b : Bytes) (off : ℕ) (plain : Bytes) (s : Records)
      → off + 1 < length b
      → IsRecord n s
      → Runs ⊥ IsShown (alert_record md5 b off plain s)
  unfolding alert_record
  alert_record-Runs b off plain s fits h =
      Runs-bind _ (Runs-index b off (omega arith))
        λ _ _. Runs-bind _ (Runs-index b (off + 1) fits) λ _ _. returns _ h

  tls_record-Runs :
      (b : Bytes) (s : Records)
      → s.pos + 5 ≤ length b
      → IsRecord n s
      → Runs ⊥ (λ (r : Records × Bool). IsRecord n r.0) (tls_record md5 b s)
  unfolding tls_record
  tls_record-Runs b s fits h = Runs-bind _ (Runs-index b s.pos (omega arith)) λ ct _.
      let len = u16 b (s.pos + 3) in
      let off = s.pos + 5 in
      let end = if ltb (length b) (off + len) then length b else off + len in
      let inside : end ≤ length b = ground arith in
      Runs-bind {Q = IsShown} _
        (Runs-if (ct == 22 && ltb off end)
          (λ c.
            Runs-bind _ (Runs-slice b off end (ground arith) inside)
              λ payload _. handshake_record-Runs _ payload s h)
          λ _.
            Runs-if (ct == 21 && ltb (off + 1) end)
              (λ c. alert_record-Runs b off _ s (ground arith) h) λ _. returns _ h)
        λ r k. Runs-if (len == 0) (λ _. returns _ k) λ _. returns _ k

  tls_records-Runs :
      (fuel : ℕ) (b : Bytes) (s : Records)
      → IsRecord n s
      → Runs ⊥ (IsRecord n) (tls_records md5 fuel b s)
  unfolding tls_records
  tls_records-Runs zero b s h = returns _ h
  tls_records-Runs (suc fuel) b s h =
      Runs-if (leb (s.pos + 5) (length b) && ltb (length s.shown) 12)
        (λ c.
          Runs-bind _ (tls_record-Runs b s (ground arith) h)
            λ r k. Runs-if r.1 (λ _. tls_records-Runs fuel b r.0 k) λ _. returns _ k)
        λ _. returns _ h

  tls_summary-Runs :
      (s : Records) → HasDigest s → Runs ⊥ (λ (x : Bytes). Unit {0}) (tls_summary md5 s)
  tls_summary-Runs s h =
      Runs-if (is_empty s.ja3) (λ _. returns _ tt)
        λ found.
          Runs-bind _ (Runs-slice (get s.fields (text "ja3_hash")) 0 8 (omega arith) (h found))
            λ _ _. returns _ tt

-- `dissectTLS` never panics: given a frame whose layers lie in the packet and a payload that does,
-- it returns such a frame and an offset in the packet. In particular the eight characters of the
-- digest that it shows are there whenever a fingerprint was found.
pub dissect_tls-Runs :
    (md5 : Md5) (n : ℕ) (f : Frame) (b : Bytes) (offset : ℕ)
    → HasLayersIn n f
    → offset + length b ≤ n
    → Runs ⊥ (IsDissected n) (dissect_tls md5 f b offset)
unfolding dissect_tls
dissect_tls-Runs md5 n f b offset h fits =
    Runs-bind _ (tls_records-Runs md5 n 12 b _ (h, λ e. absurd cc)) λ s k.
      Runs-bind _ (tls_summary-Runs md5 n s k.1) λ summary _. returns _ (
        add_layer-HasLayersIn n _ _ _ _ offset (length b) _
            (rw (copy_field-layers s.fields (text "server_name") (text "sni") s.frame) k.0) fits,
        fits,
      )
