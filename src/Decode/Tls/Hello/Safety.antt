-- ===== src/Decode/Tls/Hello/Safety.antt =====
-- The reads and the loops of `parseClientHello` and `parseServerHello` of internal/decode/tls.go, and
-- the entry of the fields that they leave alone.
use flux_tap.Decode.Frame.{u16}
use flux_tap.Decode.Tls.Hello.{
  Extensions, server_name, supported_versions, client_extension, client_extensions, client_body,
  parse_client_hello, server_extensions, parse_server_hello, hello_end, known_version,
}
use flux_tap.Prelude.Panics.{Runs, returns, Runs-bind, Runs-if, Runs-index, Runs-slice, Runs-map}
use flux_tap.Prelude.Words.{Bytes}
use flux_tap.Prelude.{
  ℕ, zero, suc, ◌+◌, ◌≤◌, ◌<◌, ◌≡◌, refl, ap, ◌∙◌, Bool, true, false, ◌&&◌, arith, tests, ltb, leb,
  ◌==◌, if◌then◌else◌, length, if-both, Option, none, some,
}
use flux_tap.Text.Dict.{Dict, lookup, insert, lookup-insert}
use flux_tap.Text.{text, text_eq}

abbrev pub digest_key : Bytes
digest_key = text "ja3_hash"

-- The fields have the same digest of a fingerprint as before.
abbrev pub Kept : Dict Bytes → Dict Bytes → Type 0
Kept fields fields' = lookup digest_key fields' ≡ lookup digest_key fields

pub insert-Kept :
    (k v : Bytes) (fields : Dict Bytes)
    → text_eq k digest_key ≡ false
    → Kept fields (insert k v fields)
insert-Kept k v fields other =
    lookup-insert k digest_key v fields
    ∙ ap (λ b. if b then some v else lookup digest_key fields) other

-- The keys that the parsers write.
pub record OtherKeys : Type 0 where
  pub client_version : text_eq (text "client_version") digest_key ≡ false
  pub cipher_suites : text_eq (text "cipher_suites") digest_key ≡ false
  pub extensions : text_eq (text "extensions") digest_key ≡ false
  pub server_name : text_eq (text "server_name") digest_key ≡ false
  pub supported : text_eq (text "supported_versions_ext") digest_key ≡ false
  pub server_version : text_eq (text "server_version") digest_key ≡ false
  pub cipher_suite : text_eq (text "cipher_suite") digest_key ≡ false
  pub negotiated : text_eq (text "negotiated_version") digest_key ≡ false
  pub handshake : text_eq (text "handshake") digest_key ≡ false
  pub handshake_len : text_eq (text "handshake_len") digest_key ≡ false
  pub self : text_eq digest_key digest_key ≡ true
  pub ja3 : text_eq (text "ja3") digest_key ≡ false

pub other_keys : OtherKeys
unfolding text text_eq
other_keys = record {
  client_version = refl;
  cipher_suites = refl;
  extensions = refl;
  server_name = refl;
  supported = refl;
  server_version = refl;
  cipher_suite = refl;
  negotiated = refl;
  handshake = refl;
  handshake_len = refl;
  self = refl;
  ja3 = refl;
}

abbrev KeptBy : Extensions → Extensions → Type 0
KeptBy s s' = Kept s.fields s'.fields

-- A loop over extensions goes on from a later place before the end.
abbrev GoesOn : Extensions → ℕ → Extensions × Bool → Type 0
GoesOn s end (s', goes_on) = (goes_on ≡ true → (s.pos < s'.pos) × (s'.pos ≤ end)) × KeptBy s s'

module _ (b : Bytes) (end : ℕ) (inside : end ≤ length b) where
  server_name-Runs :
      (pos el : ℕ) (s : Extensions)
      → pos + el ≤ length b
      → Runs ⊥ (KeptBy s) (server_name b pos el s)
  unfolding server_name
  server_name-Runs pos el s fits =
      Runs-if (leb (pos + 5) (pos + el) && leb (pos + 5 + u16 b (pos + 3)) (pos + el))
        (λ c.
          Runs-bind _
            (Runs-slice b (pos + 5) (pos + 5 + u16 b (pos + 3)) (omega arith) (ground arith))
            λ sni _.
              returns _ (insert-Kept (text "server_name") sni s.fields other_keys.server_name))
        λ _. returns _ refl

  supported_versions-Runs :
      (pos el : ℕ) (s : Extensions)
      → pos + el ≤ length b
      → Runs ⊥ (KeptBy s) (supported_versions b pos el s)
  unfolding supported_versions
  supported_versions-Runs pos el s fits =
      Runs-bind _
        (Runs-slice b pos (pos + (if ltb el 16 then el else 16)) (omega arith) (ground arith))
        λ shown _.
          returns _ (insert-Kept (text "supported_versions_ext") _ s.fields other_keys.supported)

  client_extension-Runs : (s : Extensions) → Runs ⊥ (GoesOn s end) (client_extension b end s)
  unfolding client_extension
  client_extension-Runs s =
      let el = u16 b (s.pos + 2) in
      let pos = s.pos + 4 in
      Runs-if (ltb end (pos + el)) (λ _. returns _ ((λ c. absurd cc), refl))
        λ c.
          let fits : pos + el ≤ end = omega tests in
          Runs-bind {Q = KeptBy s} _
            (Runs-if (u16 b s.pos == 0 && leb 5 el) (λ _. server_name-Runs pos el _ (omega arith))
              λ _. returns _ refl)
            λ s2 k2.
              Runs-bind {Q = KeptBy s2} _
                (Runs-if (u16 b s.pos == 43 && leb 2 el)
                  (λ _. supported_versions-Runs pos el s2 (omega arith)) λ _. returns _ refl)
                λ s3 k3. returns _ ((λ _. (omega arith, omega arith)), k3 ∙ k2)

  client_extensions-Runs :
      (n : ℕ) (s : Extensions)
      → s.pos ≤ end
      → end < s.pos + n
      → Runs ⊥ (KeptBy s) (client_extensions n b end s)
  unfolding client_extensions
  client_extensions-Runs zero s h enough = absurd (omega arith)
  client_extensions-Runs (suc n) s h enough =
      Runs-if (leb (s.pos + 4) end)
        (λ c. Runs-bind _ (client_extension-Runs s) λ r on.
          Runs-if r.1
            (λ c.
              Runs-map (λ x. x) (λ _ k. k ∙ on.1)
                (client_extensions-Runs n r.0 (omega (arith, on.0 c)) (omega (arith, on.0 c))))
            λ _. returns _ on.1)
        λ _. returns _ refl

-- The place where a list of extensions ends lies in the message and not before its beginning.
hello_end-IsIn :
    (b : Bytes) (pos : ℕ)
    → pos + 2 ≤ length b
    → (pos + 2 ≤ hello_end b pos) × (hello_end b pos ≤ length b)
hello_end-IsIn b pos h = (ground arith, ground arith)

-- A parser returns fields that keep the digest.
abbrev pub KeepsDigest : Dict Bytes → Bytes × Dict Bytes → Type 0
KeepsDigest fields r = Kept fields r.1

client_body-Runs :
    (b : Bytes) (count pos : ℕ) (fields : Dict Bytes)
    → pos < length b
    → Runs ⊥ (KeepsDigest fields) (client_body b count pos fields)
unfolding client_body
client_body-Runs b count pos fields h = Runs-bind _ (Runs-index b pos h) λ comp_len _.
    let at = pos + 1 + comp_len in
    Runs-bind {Q = λ (s : Extensions). Kept fields s.fields} _
      (Runs-if (leb (at + 2) (length b))
        (λ c.
          let ends = hello_end-IsIn b at (omega tests) in
          Runs-bind _
            (client_extensions-Runs b (hello_end b at) ends.1 (suc (length b)) _
              (omega (arith, ends)) (omega (arith, ends)))
            λ s k. returns _ (insert-Kept (text "extensions") _ s.fields other_keys.extensions ∙ k))
        λ _. returns _ refl)
      λ s k. returns _ k

pub parse_client_hello-Runs :
    (b : Bytes) (fields : Dict Bytes) → Runs ⊥ (KeepsDigest fields) (parse_client_hello b fields)
unfolding parse_client_hello
parse_client_hello-Runs b fields =
    let known = insert-Kept (text "client_version") _ fields other_keys.client_version in
    Runs-if (ltb (length b) 34) (λ _. returns _ refl)
      λ c.
        Runs-if (leb (length b) 34) (λ _. returns _ known)
          λ d. Runs-bind _ (Runs-index b 34 (omega tests)) λ session_len _.
            let body = 35 + session_len + 2 in
            let cs_len = u16 b (35 + session_len) in
            let listed = insert-Kept (text "cipher_suites") _ _ other_keys.cipher_suites ∙ known in
            Runs-if (ltb (length b) body) (λ _. returns _ known)
              λ _.
                Runs-if (ltb (length b) (body + cs_len)) (λ _. returns _ known)
                  λ _.
                    Runs-if (leb (length b) (body + cs_len)) (λ _. returns _ listed)
                      λ e.
                        Runs-map (λ x. x) (λ _ k. k ∙ listed)
                          (client_body-Runs b _ (body + cs_len) _ (omega tests))

chosen-Kept :
    (v : Option Bytes) (fields : Dict Bytes)
    → Kept fields
        (elim v [ none ↦ fields | some name ↦ insert (text "negotiated_version") name fields ])
chosen-Kept none fields = refl
chosen-Kept (some name) fields =
    insert-Kept (text "negotiated_version") name fields other_keys.negotiated

server_extensions-Runs :
    (n : ℕ) (b : Bytes) (end pos : ℕ) (fields : Dict Bytes)
    → end + 4 < pos + n
    → pos ≤ end + 4
    → Runs ⊥ (Kept fields) (server_extensions n b end pos fields)
unfolding server_extensions
server_extensions-Runs zero b end pos fields enough h = absurd (omega arith)
server_extensions-Runs (suc n) b end pos fields enough h =
    let el = u16 b (pos + 2) in
    let chosen = chosen-Kept (known_version (u16 b (pos + 4))) fields in
    Runs-if (leb (pos + 4) end)
      (λ c.
        Runs-if (ltb end (pos + 4 + el)) (λ _. returns _ refl)
          λ d.
            Runs-map (λ x. x)
              (λ _ k. k ∙ if-both (Kept fields) (u16 b pos == 43 && el == 2) _ _ chosen refl)
              (server_extensions-Runs n b end (pos + 4 + el) _ (omega arith) (omega tests)))
      λ _. returns _ refl

pub parse_server_hello-Runs :
    (b : Bytes) (fields : Dict Bytes) → Runs ⊥ (KeepsDigest fields) (parse_server_hello b fields)
unfolding parse_server_hello
parse_server_hello-Runs b fields =
    let known = insert-Kept (text "server_version") _ fields other_keys.server_version in
    Runs-if (ltb (length b) 34) (λ _. returns _ refl)
      λ c.
        Runs-if (leb (length b) 34) (λ _. returns _ known)
          λ d. Runs-bind _ (Runs-index b 34 (omega tests)) λ session_len _.
            let pos = 35 + session_len in
            let listed = insert-Kept (text "cipher_suite") _ _ other_keys.cipher_suite ∙ known in
            Runs-if (ltb (length b) (pos + 3)) (λ _. returns _ known)
              λ e. Runs-bind _ (Runs-index b (pos + 2) (omega tests)) λ _ _.
                Runs-bind {Q = Kept fields} _
                  (Runs-if (leb (pos + 5) (length b))
                    (λ i.
                      let ends = hello_end-IsIn b (pos + 3) (omega tests) in
                      Runs-map (λ x. x) (λ _ k. k ∙ listed)
                        (server_extensions-Runs (suc (length b)) b (hello_end b (pos + 3)) (pos + 5)
                          _ (omega (arith, ends)) (omega (arith, ends))))
                    λ _. returns _ listed)
                  λ last k. returns _ k
