-- ===== src/Web/Access.antt =====
-- Who internal/web/server.go lets in.
use flux_tap.Prelude.Words.{Bytes}
use flux_tap.Prelude.{◌≡◌, refl, Bool, true, false, ◌||◌, ◌⊎◌, [], ◌∷◌, ◌++◌, arith}
use flux_tap.Text.{text, text_eq, text_eq_iff, is_empty, has_prefix}
use flux_tap.Web.{
  Request, Server, auth_enabled, bearer, authorize, is_allowed, local_origins, plain_origin,
  secure_origin, check_origin,
}

-- Where a token is asked for, a request is let in only if one of the three tokens that it may bring
-- is the token of the server: its parameter, its bearer token, or its own header.
pub authorize-tokens :
    (lower : Bytes → Bytes) (s : Server) (r : Request)
    → auth_enabled s ≡ true
    → authorize lower s r ≡ true
    → (r.token ≡ s.token) ⊎ (bearer lower r.authorization ≡ s.token) ⊎ (r.fluxtap_token ≡ s.token)
unfolding authorize
authorize-tokens lower s r asked let_in = ground (
  arith,
  text_eq_iff r.token s.token,
  text_eq_iff (bearer lower r.authorization) s.token,
  text_eq_iff r.fluxtap_token s.token,
)

has_prefix_refl : (s : Bytes) → has_prefix s s ≡ true
unfolding has_prefix
has_prefix_refl [] = refl
has_prefix_refl (c ∷ s) = ground (arith, has_prefix_refl s)

has_prefix-longer : (s p q : Bytes) → has_prefix s (p ++ q) ≡ true → has_prefix s p ≡ true
unfolding has_prefix
has_prefix-longer s [] q h = refl
has_prefix-longer [] (c ∷ p) q h = h
has_prefix-longer (x ∷ s) (c ∷ p) q h = ground (arith, has_prefix-longer s p q)

-- An allowed origin begins with the entry that allows it.
entry-prefix :
    (a origin : Bytes)
    → (text_eq origin a || has_prefix origin (a ++ text ":")) ≡ true
    → has_prefix origin a ≡ true
entry-prefix a origin h =
    ground (arith, text_eq_iff origin a, has_prefix_refl a, has_prefix-longer origin a (text ":"))

absorb :
    (e x y l p q : Bool)
    → (x ≡ true → p ≡ true)
    → (y ≡ true → q ≡ true)
    → (e || (x || (y || l)) || p || q) ≡ (e || l || p || q)
absorb true x y l p q h k = refl
absorb false true y l p q h k = ground (arith, h refl)
absorb false false true l p q h k = ground (arith, k refl)
absorb false false false l p q h k = refl

-- An origin is accepted exactly if there is none, if it is one of the four of this machine (alone or
-- with a port), or if it merely begins with http:// or https:// and the host: whatever follows the
-- host, such as the rest of a longer name, is not looked at.
pub check_origin_eq :
    (r : Request)
    → check_origin r ≡ (
        is_empty r.origin
        || is_allowed local_origins r.origin
        || has_prefix r.origin (plain_origin r)
        || has_prefix r.origin (secure_origin r))
unfolding check_origin is_allowed
check_origin_eq r =
    absorb (is_empty r.origin)
      (text_eq r.origin (plain_origin r) || has_prefix r.origin (plain_origin r ++ text ":"))
      (text_eq r.origin (secure_origin r) || has_prefix r.origin (secure_origin r ++ text ":"))
      (is_allowed local_origins r.origin) (has_prefix r.origin (plain_origin r))
      (has_prefix r.origin (secure_origin r)) (entry-prefix (plain_origin r) r.origin)
      (entry-prefix (secure_origin r) r.origin)
