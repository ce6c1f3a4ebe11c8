-- ===== src/Server/Guarding.antt =====
-- internal/server/auth.go and server.go: only the bearer of the token reaches a handler.
use msb_manager.Prelude.{
  Text, codes, true, false, not, ◌||◌, ◌++◌, has_prefix, has_prefix-append, has_prefix_split,
  is_empty, text_eq, text_eq_iff, Bool-cases, inl, inr, ◌≡◌, refl, sym, arith,
}
use msb_manager.Server.{MsbClient, Response, State}
use msb_manager.Server.Auth.{require_bearer, bearer_prefix, trim_prefix, unauthorized}
use msb_manager.Server.Routes.{Request, Yaml, serve, protected, asks_for}

-- the header is "Bearer " and a token with the digest of the server's, which is not empty
pub record IsAuthorized (sha256 : Text → Text) (token h : Text) : Type 0 where
  pub configured : is_empty token ≡ false
  pub presented : Text
  pub header : h ≡ bearer_prefix ++ presented
  pub digest : sha256 presented ≡ sha256 token

trim_prefix_split : (h p : Text) → has_prefix h p ≡ true → h ≡ p ++ trim_prefix h p
trim_prefix_split h p e = rw e (sym (has_prefix_split h p e))

module _ {W F : Type 0} (sha256 : Text → Text) (token h : Text)
    (next : State W → Response F × State W) (st : State W) where
  bearer_passes : IsAuthorized sha256 token h → require_bearer sha256 token h next st ≡ next st
  unfolding require_bearer
  bearer_passes a =
      rw
        (
          a.header,
          a.configured,
          has_prefix-append bearer_prefix a.presented,
          a.digest,
          (text_eq_iff (sha256 token) (sha256 token)).1 refl,
        )
        refl

  bearer_stops :
      ¬ (IsAuthorized sha256 token h) → require_bearer sha256 token h next st ≡ (unauthorized, st)
  unfolding require_bearer
  bearer_stops n = elim (Bool-cases (is_empty token || not (has_prefix h bearer_prefix))) [
    | inl a ↦ rw a refl
    | inr a ↦
        rw a (elim (Bool-cases (text_eq (sha256 (trim_prefix h bearer_prefix)) (sha256 token))) [
          | inr b ↦ rw b refl
          | inl b ↦ absurd (
              n (record {
                configured = ground arith;
                presented = trim_prefix h bearer_prefix;
                header = trim_prefix_split h bearer_prefix (ground arith);
                digest = (text_eq_iff _ _).0 b;
              }))
        ])
  ]

-- A request that carries the bearer token is answered by the handlers, unless it asks for one of
-- the two probes.
pub serve-IsAuthorized :
    {W F : Type 0} (client : MsbClient W F) (yaml : Yaml) (sha256 : Text → Text) (token : Text)
    (q : Request) (st : State W)
    → asks_for (codes "healthz") q ≡ false
    → asks_for (codes "readyz") q ≡ false
    → IsAuthorized sha256 token q.authorization
    → serve client yaml sha256 token q st ≡ protected client yaml q st
unfolding serve
serve-IsAuthorized client yaml sha256 token q st h r a =
    rw (h, r, serve) (bearer_passes sha256 token q.authorization (protected client yaml q) st a)

-- Every request that does not carry the bearer token, but for the two probes, is answered with 401
-- and changes nothing; a server with an empty token lets no request in.
pub serve_guarded :
    {W F : Type 0} (client : MsbClient W F) (yaml : Yaml) (sha256 : Text → Text) (token : Text)
    (q : Request) (st : State W)
    → asks_for (codes "healthz") q ≡ false
    → asks_for (codes "readyz") q ≡ false
    → ¬ (IsAuthorized sha256 token q.authorization)
    → serve client yaml sha256 token q st ≡ (unauthorized, st)
unfolding serve
serve_guarded client yaml sha256 token q st h r n =
    rw (h, r, serve) (bearer_stops sha256 token q.authorization (protected client yaml q) st n)
