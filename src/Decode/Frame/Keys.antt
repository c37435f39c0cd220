-- ===== src/Decode/Frame/Keys.antt =====
-- `flowKey` of internal/decode/frame.go in the two directions of a flow.
use flux_tap.Decode.Frame.{Frame, format_flow_key, flow_key}
use flux_tap.Prelude.Words.{Bytes}
use flux_tap.Prelude.{◌≡◌, refl, true, false, [], ◌∷◌, arith, if◌then◌else◌}
use flux_tap.Text.Dict.{get}
use flux_tap.Text.{text, text_eq_iff, text_gt, is_empty}

text_gt_asymm : (a b : Bytes) → text_gt a b ≡ true → text_gt b a ≡ false
unfolding text_gt
text_gt_asymm [] b h = cc
text_gt_asymm (x ∷ a) [] h = refl
text_gt_asymm (x ∷ a) (y ∷ b) h = ground (arith, text_gt_asymm a b)

eq_of_text_gt-false : (a b : Bytes) → text_gt a b ≡ false → text_gt b a ≡ false → a ≡ b
unfolding text_gt
eq_of_text_gt-false [] [] h k = refl
eq_of_text_gt-false [] (y ∷ b) h k = cc
eq_of_text_gt-false (x ∷ a) [] h k = cc
eq_of_text_gt-false (x ∷ a) (y ∷ b) h k = ground (arith, eq_of_text_gt-false a b)

format_flow_key_symm :
    (proto a a_port b b_port : Bytes)
    → format_flow_key proto a a_port b b_port ≡ format_flow_key proto b b_port a a_port
unfolding format_flow_key
format_flow_key_symm proto a a_port b b_port = ground (
  arith,
  text_eq_iff a b,
  text_eq_iff b a,
  text_gt_asymm a b,
  text_gt_asymm b a,
  eq_of_text_gt-false a b,
  text_gt_asymm a_port b_port,
  text_gt_asymm b_port a_port,
  eq_of_text_gt-false a_port b_port,
)

-- The protocol of a key is that of IP, where there is one.
shown_protocol :
    (ip p q : Bytes)
    → (ip ≡ [] → p ≡ q)
    → ◌≡◌ {A = Bytes} (if is_empty ip then p else ip) (if is_empty ip then q else ip)
shown_protocol [] p q same = same refl
shown_protocol (c ∷ ip) p q same = refl

-- Two frames between the same endpoints in opposite directions have one flow key: the source of
-- one is the destination of the other, ports included, and their `ip_proto` is the same. If it is
-- empty, as it is where there is no IP header, the protocols that the frames show are the same too.
pub flow_key_symm :
    (f g : Frame)
    → g.src ≡ f.dst
    → g.dst ≡ f.src
    → get g.meta (text "sport") ≡ get f.meta (text "dport")
    → get g.meta (text "dport") ≡ get f.meta (text "sport")
    → get g.meta (text "ip_proto") ≡ get f.meta (text "ip_proto")
    → (get f.meta (text "ip_proto") ≡ [] → g.protocol ≡ f.protocol)
    → flow_key g ≡ flow_key f
unfolding flow_key
flow_key_symm f g a b c d e p = ground (
  arith,
  shown_protocol (get f.meta (text "ip_proto")) g.protocol f.protocol p,
  format_flow_key_symm
      (if is_empty (get f.meta (text "ip_proto")) then f.protocol else get f.meta (text "ip_proto"))
      f.src (get f.meta (text "sport")) f.dst (get f.meta (text "dport")),
)
