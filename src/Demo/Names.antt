-- ===== src/Demo/Names.antt =====
-- The names that cmd/fluxtap/main.go encodes, read by `readDNSName` of internal/decode/dns.go.
use flux_tap.Decode.Dns.Names.{stop, label, name_step, name_loop, read_dns_name}
use flux_tap.Text.Joined.{join-split_n}
use flux_tap.Demo.{encode_labels, encode_dns_name, query_header, dns_query}
use flux_tap.Prelude.Words.{Bytes, index, slice, big, put_uint16}
use flux_tap.Prelude.{
  ℕ, zero, suc, ◌+◌, ◌-◌, ◌/◌, ◌%◌, ◌≤◌, ◌<◌, ◌≡◌, refl, sym, ap, ap₂, ◌∙◌, false, some, List, [],
  ◌∷◌, ◌++◌, append-nil, append_assoc, arith, ◌==◌, le→leb, lt→ltb, le→ltb, length, get_elem?,
  take-append, drop-append, length-append, All,
}
use flux_tap.Text.Split.{split}
use flux_tap.Text.{text, join}

-- A label that fits: not empty, and at most 63 bytes.
abbrev pub IsLabel : Bytes → Type 0
IsLabel p = (0 < length p) × (length p ≤ 63)

get_elem-append :
    (pre : Bytes) (x : ℕ) (rest : Bytes) → get_elem? (pre ++ x ∷ rest) (length pre) ≡ some x
get_elem-append [] x rest = refl
get_elem-append (c ∷ pre) x rest = get_elem-append pre x rest

index-append : (pre : Bytes) (x : ℕ) (rest : Bytes) → index (pre ++ x ∷ rest) (length pre) ≡ some x
unfolding index
index-append pre x rest = get_elem-append pre x rest

slice-append :
    (pre xs rest : Bytes)
    → slice (pre ++ (xs ++ rest)) (length pre) (length pre + length xs) ≡ some xs
unfolding slice
slice-append pre xs rest = rw (
  le→leb (length pre) (length pre + length xs) (omega arith),
  le→leb (length pre + length xs) (length (pre ++ (xs ++ rest)))
      (omega (arith, length-append pre (xs ++ rest), length-append xs rest)),
  drop-append pre (xs ++ rest),
  added (length pre) (length xs),
  take-append xs rest,
)
  where
    added : (m n : ℕ) → m + n - m ≡ n
    added m n = omega arith

-- The same behind one byte more.
slice-behind :
    (pre : Bytes) (l : ℕ) (p rest : Bytes)
    → l ≡ length p
    → slice (pre ++ l ∷ (p ++ rest)) (length pre + 1) (length pre + 1 + l) ≡ some p
slice-behind pre l p rest e =
    let one = length-append pre (l ∷ []) in
    let shift =
      ap₂ (λ lo hi. slice (pre ++ l ∷ (p ++ rest)) lo hi)
        (same_start (length pre) (length (pre ++ l ∷ [])) one)
        (same_end (length pre) (length (pre ++ l ∷ [])) l (length p) one e) in
    shift
    ∙ ap (λ b. slice b (length (pre ++ l ∷ [])) (length (pre ++ l ∷ []) + length p))
        (sym (append_assoc pre (l ∷ []) (p ++ rest)))
    ∙ slice-append (pre ++ l ∷ []) p rest
  where
    same_start : (m n : ℕ) → n ≡ m + 1 → m + 1 ≡ n
    same_start m n h = omega (arith, h)

    same_end : (m n l k : ℕ) → n ≡ m + 1 → l ≡ k → m + 1 + l ≡ n + k
    same_end m n l k h e = omega (arith, h, e)

not_zero : (l : ℕ) → 0 < l → (l == 0) ≡ false
not_zero l h = ground arith

no_pointer : (l : ℕ) → l ≤ 63 → (l / 64 % 4 == 3) ≡ false
no_pointer l h = ground arith

-- A label is read where it stands, and so is the end.
name_step-label :
    (pre : Bytes) (l : ℕ) (p rest : Bytes)
    → l ≡ length p
    → IsLabel p
    → name_step (pre ++ l ∷ (p ++ rest)) (length pre) ≡ some (label p (length pre + 1 + l))
unfolding name_step
name_step-label pre l p rest e (some_bytes, few) =
    let whole = length-append pre (l ∷ (p ++ rest)) in
    let behind = length-append p rest in
    rw
      (
        lt→ltb (length pre) (length (pre ++ l ∷ (p ++ rest))) (omega (arith, whole)),
        index-append pre l (p ++ rest),
        not_zero l (omega (arith, e, some_bytes)),
        no_pointer l (omega (arith, e, few)),
        le→ltb (length (pre ++ l ∷ (p ++ rest))) (length pre + 1 + l)
            (omega (arith, whole, behind, e)),
        slice-behind pre l p rest e,
      )
      refl

name_step-stop :
    (pre rest : Bytes) → name_step (pre ++ 0 ∷ rest) (length pre) ≡ some (stop (length pre + 1))
unfolding name_step
name_step-stop pre rest =
    rw
      (
        lt→ltb (length pre) (length (pre ++ 0 ∷ rest))
            (omega (arith, length-append pre (0 ∷ rest))),
        index-append pre 0 rest,
      )
      refl

-- The loop reads all labels, and stops behind the byte 0.
name_loop-labels :
    (n : ℕ) (b : Bytes) (pos : ℕ) (pre : Bytes) (ls : List Bytes) (rest : Bytes) (start : ℕ)
    (parts : List Bytes)
    → b ≡ pre ++ (encode_labels ls ++ rest)
    → pos ≡ length pre
    → All IsLabel ls
    → length ls < n
    → name_loop n b pos false start parts
      ≡ some (join (parts ++ ls) (text "."), pos + length (encode_labels ls))
unfolding name_loop encode_labels
name_loop-labels zero b pos pre ls rest start parts e at h fits = absurd (omega arith)
name_loop-labels (suc n) b pos pre [] rest start parts e at h fits =
    rw (ap₂ name_step e at ∙ name_step-stop pre rest, append-nil parts)
      (ap (λ k. some (join parts (text "."), k)) (omega (arith, at)))
name_loop-labels (suc n) b pos pre (p ∷ ls) rest start parts e at (h, hs) fits =
    let l = length p % 256 in
    let small : l ≡ length p = omega (arith, h.1) in
    let shape : b ≡ pre ++ l ∷ (p ++ (encode_labels ls ++ rest)) =
      e ∙ ap (λ t. pre ++ l ∷ t) (append_assoc p (encode_labels ls) rest) in
    let read =
      ap₂ name_step shape at ∙ name_step-label pre l p (encode_labels ls ++ rest) small h in
    let later =
      name_loop-labels n b (length pre + 1 + l) (pre ++ l ∷ p) ls rest start (parts ++ p ∷ [])
        (shape ∙ sym (append_assoc pre (l ∷ p) (encode_labels ls ++ rest)))
        (omega (arith, small, length-append pre (l ∷ p))) hs (omega arith) in
    rw read (
      later
      ∙ ap₂ (λ ps k. some (join ps (text "."), k)) (append_assoc parts (p ∷ []) ls)
          (omega (arith, at, small, length-append p (encode_labels ls))))

-- A name whose labels have 1 to 63 bytes each, at most 63 of them, is read back from the query that
-- the demo capture makes for it, up to the byte behind it.
pub read_dns_name-dns_query :
    (name : Bytes) (qtype : ℕ)
    → All IsLabel (split (text ".") name)
    → length (split (text ".") name) ≤ 63
    → read_dns_name (dns_query name qtype) 12 ≡ some (name, 12 + length (encode_dns_name name))
unfolding read_dns_name dns_query encode_dns_name
read_dns_name-dns_query name qtype h few =
    name_loop-labels 64 (dns_query name qtype) 12 query_header (split (text ".") name)
      (put_uint16 big qtype ++ put_uint16 big 1) 12 [] refl refl h (omega (arith, few))
    ∙ ap (λ t. some (t, 12 + length (encode_dns_name name)))
        (join-split_n (length name) (text ".") name)
