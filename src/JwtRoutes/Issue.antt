-- ===== src/JwtRoutes/Issue.antt =====
-- For whom the endpoint issues a token.
use af_auth.Base.{String, ◌≡◌, some, arith}
use af_auth.Base.Eff.{ok, World}
use af_auth.Config.Expiry.{calculate_jwt_expiration}
use af_auth.Env.{Env, User}
use af_auth.Jwt.{generate_jwt}
use af_auth.Jwt.Roundtrip.{payload_of}
use af_auth.JwtRoutes.{IssuedToken, issued, issue_refusal}

module _ {S : Type 0} (env : Env S) where
  -- What a request for a new token needs; nothing is asked of the caller, and the user need not be
  -- whitelisted.
  pub record Issues (user_id : String) (w : World S) (x : IssuedToken) : Type 0 where
    pub user : User
    pub found : env.find_user user_id w.db ≡ ok (some user)
    pub signed :
        env.sign
          (payload_of env user w)
          env.config.jwt_private_key
          env.config.jwt_expires_in
          (w.clock w.reads)
        ≡ ok x.token
    pub lifetime : x.expires_in ≡ env.config.jwt_expires_in
    pub expiry :
        (calculate_jwt_expiration env.config.jwt_expires_in (generate_jwt env user_id w).1).0
        ≡ ok x.expires_at

  issue_refusal-not_issued : (e : String) (x : IssuedToken) → issue_refusal e ≡ issued x → ⊥
  issue_refusal-not_issued e x h = ground arith
