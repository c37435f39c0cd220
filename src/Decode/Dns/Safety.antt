-- ===== src/Decode/Dns/Safety.antt =====
-- On what `dissectDNS` of internal/decode/dns.go panics, and where its layers lie.
use flux_tap.Decode.Dissected.{IsDissected, HasLayersIn, add_layer-HasLayersIn}
use flux_tap.Decode.Dns.Names.{
  NameStep, stop, jump, label, name_step, after_name_step, name_loop, read_dns_name,
}
use flux_tap.Decode.Dns.{
  format_dns_rdata, Section, question, answer, after_round, questions, answers, dissect_dns,
}
use flux_tap.Decode.Frame.{Frame, u16}
use flux_tap.Prelude.Panics.{Runs, returns, Runs-bind, Runs-if, Runs-index, Runs-slice, Runs-map}
use flux_tap.Prelude.Words.{Bytes}
use flux_tap.Prelude.{
  ℕ, zero, suc, ◌+◌, ◌-◌, ◌≤◌, ◌<◌, ◌≡◌, refl, Bool, true, false, ◌&&◌, ◌||◌, Option, none, some,
  List, [], ◌∷◌, ◌++◌, arith, ltb, leb, if◌then◌else◌, length, tests, ◌⊎◌, inl, inr, ◌==◌, ◌/◌, ◌%◌,
  dec_le,
}

-- A round of `readDNSName` from a place in the message stays in it.
abbrev StepIn : Bytes → ℕ → NameStep → Type 0
StepIn b pos (stop p) = p ≤ length b
StepIn b pos (jump p) = pos + 2 ≤ length b
StepIn b pos (label s p) = p ≤ length b

name_step-Runs : (b : Bytes) (pos : ℕ) → pos ≤ length b → Runs ⊥ (StepIn b pos) (name_step b pos)
unfolding name_step
name_step-Runs b pos h =
    Runs-if (ltb pos (length b))
      (λ inside. Runs-bind _ (Runs-index b pos (omega tests)) λ l _.
        Runs-if (l == 0) (λ _. returns _ (omega tests))
          λ _.
            Runs-if (l / 64 % 4 == 3)
              (λ _.
                Runs-if (leb (length b) (pos + 1)) (λ _. returns _ h) λ p. returns _ (omega tests))
              λ _.
                Runs-if (ltb (length b) (pos + 1 + l)) (λ _. returns _ (omega tests))
                  λ p.
                    Runs-bind _ (Runs-slice b (pos + 1) (pos + 1 + l) (omega arith) (omega tests))
                      λ s _. returns _ (omega tests))
      λ _. returns _ h

-- The place behind a name lies in the message.
abbrev EndsIn : Bytes → Bytes × ℕ → Type 0
EndsIn b (name, p) = p ≤ length b

module _ (b : Bytes) where
  -- The position may lie beyond the message once a pointer is followed; the place behind the name
  -- is then the one behind the first pointer.
  beyond : (pos : ℕ) → length b < pos → Runs ⊥ (λ (s : NameStep). s ≡ stop pos) (name_step b pos)
  unfolding name_step
  beyond pos h = Runs-if (ltb pos (length b)) (λ p. absurd (omega tests)) λ _. returns _ refl

  name_step-safe : (pos : ℕ) → Runs ⊥ (λ (s : NameStep). Unit {0}) (name_step b pos)
  name_step-safe pos = elim (dec_le pos (length b)) [
    | yes p ↦ Runs-map (λ x. x) (λ _ _. tt) (name_step-Runs b pos p)
    | no p ↦ Runs-map (λ x. x) (λ _ _. tt) (beyond pos (omega arith))
  ]

  after_name_step-jumped :
      (loop : ℕ → Bool → ℕ → List Bytes → Option (Bytes × ℕ)) (pos start : ℕ) (parts : List Bytes)
      (s : NameStep)
      → start ≤ length b
      → ((p : ℕ) (ps : List Bytes) → Runs ⊥ (EndsIn b) (loop p true start ps))
      → Runs ⊥ (EndsIn b) (after_name_step loop pos true start parts s)
  after_name_step-jumped loop pos start parts (stop p) h k = returns _ h
  after_name_step-jumped loop pos start parts (jump p) h k = k p parts
  after_name_step-jumped loop pos start parts (label s p) h k = k p (parts ++ s ∷ [])

  name_loop-jumped :
      (n pos start : ℕ) (parts : List Bytes)
      → start ≤ length b
      → Runs ⊥ (EndsIn b) (name_loop n b pos true start parts)
  unfolding name_loop
  name_loop-jumped zero pos start parts h = returns _ h
  name_loop-jumped (suc n) pos start parts h = Runs-bind _ (name_step-safe pos) λ s _.
      after_name_step-jumped (name_loop n b) pos start parts s h
        λ p ps. name_loop-jumped n p start ps h

  after_name_step-Runs :
      (loop : ℕ → Bool → ℕ → List Bytes → Option (Bytes × ℕ)) (pos start : ℕ) (parts : List Bytes)
      (s : NameStep)
      → StepIn b pos s
      → ((p : ℕ) (ps : List Bytes) → Runs ⊥ (EndsIn b) (loop p true (pos + 2) ps))
        ⊎ ((length b < pos + 2))
      → ((p : ℕ) (ps : List Bytes) → p ≤ length b → Runs ⊥ (EndsIn b) (loop p false start ps))
      → Runs ⊥ (EndsIn b) (after_name_step loop pos false start parts s)
  after_name_step-Runs loop pos start parts (stop p) h j k = returns _ h
  after_name_step-Runs loop pos start parts (jump p) h (inl j) k = j p parts
  after_name_step-Runs loop pos start parts (jump p) h (inr j) k = absurd (omega arith)
  after_name_step-Runs loop pos start parts (label s p) h j k = k p (parts ++ s ∷ []) h

  name_loop-Runs :
      (n pos start : ℕ) (parts : List Bytes)
      → pos ≤ length b
      → Runs ⊥ (EndsIn b) (name_loop n b pos false start parts)
  unfolding name_loop
  name_loop-Runs zero pos start parts h = returns _ h
  name_loop-Runs (suc n) pos start parts h = Runs-bind _ (name_step-Runs b pos h) λ s q.
      after_name_step-Runs (name_loop n b) pos start parts s q
        (elim (dec_le (pos + 2) (length b)) [
          | yes p ↦ inl (λ t ps. name_loop-jumped n t (pos + 2) ps p)
          | no p ↦ inr (omega arith)
        ])
        λ p ps l. name_loop-Runs n p start ps l

  read_dns_name-Runs : (pos : ℕ) → pos ≤ length b → Runs ⊥ (EndsIn b) (read_dns_name b pos)
  unfolding read_dns_name
  read_dns_name-Runs pos h = name_loop-Runs 64 pos pos [] h

  format_dns_rdata-Runs :
      (pos atype rdlen : ℕ)
      → pos + rdlen ≤ length b
      → Runs ⊥ (λ (s : Bytes). Unit {0}) (format_dns_rdata b pos atype rdlen)
  unfolding format_dns_rdata
  format_dns_rdata-Runs pos atype rdlen h =
      Runs-if (atype == 1 && rdlen == 4)
        (λ a.
          Runs-bind _ (Runs-slice b pos (pos + 4) (omega arith) (ground arith)) λ s _. returns _ tt)
        λ _.
          Runs-if (atype == 28 && rdlen == 16)
            (λ a.
              Runs-bind _ (Runs-slice b pos (pos + 16) (omega arith) (ground arith))
                λ s _. returns _ tt)
            λ _.
              Runs-if (atype == 5 || atype == 2 || atype == 12)
                (λ _. Runs-bind _ (read_dns_name-Runs pos (omega arith)) λ n _. returns _ tt)
                λ _.
                  Runs-if (atype == 16 && ltb 0 rdlen)
                    (λ a. Runs-bind _ (Runs-index b pos (ground arith)) λ l _.
                      Runs-map (λ x. x) (λ _ _. tt)
                        (Runs-slice b (pos + 1)
                          (pos + 1 + (if ltb (rdlen - 1) l then rdlen - 1 else l)) (omega arith)
                          (ground arith)))
                    λ _.
                      Runs-if (atype == 15 && leb 3 rdlen)
                        (λ a.
                          Runs-bind _ (read_dns_name-Runs (pos + 2) (ground arith))
                            λ n _. returns _ tt)
                        λ _.
                          Runs-bind _ (Runs-slice b pos (pos + rdlen) (omega arith) h)
                            λ s _. returns _ tt

  module _ (n : ℕ) where
    -- What the loops over a message keep, in a packet of `n` bytes.
    abbrev SectionIn : Section → Type 0
    SectionIn s = HasLayersIn n s.frame

    abbrev RoundIn : Option Section → Type 0
    RoundIn none = Unit
    RoundIn (some s) = SectionIn s

    question-Runs : (s : Section) → SectionIn s → Runs ⊥ RoundIn (question b s)
    unfolding question
    question-Runs s h =
        Runs-if (ltb s.pos (length b))
          (λ i.
            Runs-bind _ (read_dns_name-Runs s.pos (omega tests))
              λ e _. Runs-if (ltb (length b) (e.1 + 4)) (λ _. returns _ tt) λ _. returns _ h)
          λ _. returns _ tt

    answer-Runs : (first : Bool) (s : Section) → SectionIn s → Runs ⊥ RoundIn (answer b first s)
    unfolding answer
    answer-Runs first s h =
        Runs-if (ltb s.pos (length b))
          (λ i. Runs-bind _ (read_dns_name-Runs s.pos (omega tests)) λ e _.
            Runs-if (ltb (length b) (e.1 + 10)) (λ _. returns _ tt)
              λ _.
                Runs-if (ltb (length b) (e.1 + 10 + u16 b (e.1 + 8))) (λ _. returns _ tt)
                  λ fits.
                    Runs-bind _
                      (format_dns_rdata-Runs (e.1 + 10) (u16 b e.1) (u16 b (e.1 + 8)) (omega tests))
                      λ r _. returns _ (ground arith))
          λ _. returns _ tt

    after_round-Runs :
        (loop : Section → Option Section) (s : Section) (r : Option Section)
        → SectionIn s
        → RoundIn r
        → ((t : Section) → SectionIn t → Runs ⊥ SectionIn (loop t))
        → Runs ⊥ SectionIn (after_round loop s r)
    after_round-Runs loop s none h k later = returns _ h
    after_round-Runs loop s (some t) h k later = later t k

    questions-Runs : (m : ℕ) (s : Section) → SectionIn s → Runs ⊥ SectionIn (questions m b s)
    unfolding questions
    questions-Runs zero s h = returns _ h
    questions-Runs (suc m) s h =
        Runs-bind _ (question-Runs s h)
          λ r k. after_round-Runs (questions m b) s r h k (questions-Runs m)

    answers-Runs :
        (m : ℕ) (first : Bool) (s : Section) → SectionIn s → Runs ⊥ SectionIn (answers m b first s)
    unfolding answers
    answers-Runs zero first s h = returns _ h
    answers-Runs (suc m) first s h =
        Runs-bind _ (answer-Runs first s h)
          λ r k. after_round-Runs (answers m b false) s r h k (answers-Runs m false)

-- `dissectDNS` never panics: given a frame whose layers lie in the packet and a payload that does,
-- it returns such a frame and an offset in the packet.
pub dissect_dns-Runs :
    (n : ℕ) (f : Frame) (b : Bytes) (offset : ℕ) (mdns : Bool)
    → HasLayersIn n f
    → offset + length b ≤ n
    → Runs ⊥ (IsDissected n) (dissect_dns f b offset mdns)
unfolding dissect_dns
dissect_dns-Runs n f b offset mdns h fits =
    Runs-if (ltb (length b) 12) (λ _. returns _ (h, omega arith))
      λ _.
        Runs-bind _ (questions-Runs b n (u16 b 4) (record { frame = f; pos = 12; texts = [] }) h)
          λ q k. Runs-bind _ (answers-Runs b n (u16 b 6) true (record q { texts = [] }) k) λ a l.
            returns _
              (add_layer-HasLayersIn n _ _ _ _ offset (length b) _ (ground arith) fits, fits)
