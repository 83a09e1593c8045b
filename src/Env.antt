-- ===== src/Env.antt =====
-- What the program is given: its settings (src/config/index.ts), the rows of its database
-- (prisma/schema.prisma), and the services and packages that it calls. None of these is
-- implemented in the repository, so `Env` takes them as functions on an abstract state `S`, and the
-- documented behaviour that a theorem rests on is a hypothesis of `Laws`.
pub mod Laws
use af_auth.Base.{ℕ, String, Bool, Option, List, ◌≡◌, ◌≢◌, ◌⊎◌, inl, inr, refl}
use af_auth.Base.Eff.{Result, Thrown, Eff, World, ok, err}

-- The settings that the modelled parts read. Times are in the unit of the source.
pub record Config : Type 0 where
  pub jwt_private_key : String
  pub jwt_public_key : String
  pub jwt_expires_in : String
  pub jwt_issuer : String
  pub jwt_audience : String
  pub jwt_clock_tolerance : ℕ
  pub token_encryption_key : String
  pub token_refresh_threshold_seconds : ℕ
  pub state_ttl_seconds : ℕ
  pub jwt_key_rotation_interval_days : ℕ
  pub github_token_encryption_key_rotation_interval_days : ℕ

-- `User`. A time is in milliseconds since 1970.
pub record User : Type 0 where
  pub id : String
  pub github_user_id : ℕ
  pub github_access_token : Option String
  pub github_refresh_token : Option String
  pub github_token_expires_at : Option ℕ
  pub is_whitelisted : Bool

-- The columns of `User` that a login or a refresh writes.
pub record TokenColumns : Type 0 where
  pub access_token : Option String
  pub refresh_token : Option String
  pub expires_at : Option ℕ

-- The columns that the first login of a user fills in.
pub record NewUser : Type 0 where
  pub github_user_id : ℕ
  pub columns : TokenColumns
  pub is_whitelisted : Bool

-- `RevokedToken`, without the columns that only the database fills in.
pub record RevokedToken : Type 0 where
  pub jti : String
  pub user_id : String
  pub token_issued_at : ℕ
  pub token_expires_at : ℕ
  pub revoked_by : Option String
  pub reason : Option String

-- `ServiceRegistry`
pub record Service : Type 0 where
  pub id : String
  pub service_identifier : String
  pub hashed_api_key : String
  pub allowed_scopes : List String
  pub is_active : Bool
  pub description : Option String
  pub created_at : ℕ
  pub updated_at : ℕ
  pub last_used_at : Option ℕ
  pub last_api_key_rotated_at : Option ℕ

-- The columns that `createService` fills in.
pub record NewService : Type 0 where
  pub service_identifier : String
  pub hashed_api_key : String
  pub allowed_scopes : List String
  pub description : Option String
  pub is_active : Bool

-- `ServiceAuditLog`
pub record AuditEntry : Type 0 where
  pub service_id : String
  pub user_id : String
  pub action : String
  pub success : Bool
  pub error_message : Option String
  pub ip_address : Option String
  pub user_agent : Option String

-- What `jwt.sign` is given.
pub record Payload : Type 0 where
  pub sub : String
  pub github_id : String
  pub jti : String
  pub iss : String
  pub aud : String

-- What `jwt.verify` hands back (`JWTClaims`); times in seconds.
pub record Claims : Type 0 where
  pub sub : String
  pub github_id : String
  pub jti : Option String
  pub iat : Option ℕ
  pub exp : Option ℕ
  pub iss : Option String
  pub aud : Option String

pub record VerifyOptions : Type 0 where
  pub issuer : String
  pub audience : String
  pub clock_tolerance : ℕ

-- How `jwt.verify` ends: the claims, a `TokenExpiredError`, another `JsonWebTokenError`, or any
-- other throw.
pub data Verdict : Type 0 where
  verified : Claims → Verdict
  token_expired : Verdict
  json_web_token_error : String → Verdict
  unexpected : Thrown → Verdict

-- `GitHubTokenResponse`
pub record TokenResponse : Type 0 where
  pub access_token : Option String
  pub refresh_token : Option String
  pub expires_in : Option ℕ

-- `GitHubUser`
pub record GithubUser : Type 0 where
  pub id : ℕ
  pub login : String

-- `OAuthState`
pub record OauthState : Type 0 where
  pub state : String
  pub timestamp : ℕ
  pub request_id : String

-- One `[error, value]` pair of a Redis pipeline; `value` is null, a text or a number.
pub data RedisValue : Type 0 where
  null : RedisValue
  text : String → RedisValue
  number : ℕ → RedisValue

pub record RedisReply : Type 0 where
  pub failed : Bool
  pub value : RedisValue

pub record Env (S : Type 0) : Type 0 where
  pub config : Config
  -- jsonwebtoken with RS256: payload, key, lifetime, clock; token, key, options, clock
  pub sign : Payload → String → String → ℕ → Result String
  pub verify : String → String → VerifyOptions → ℕ → Verdict
  -- bcrypt; `hash` draws its salt from the state
  pub bcrypt_hash : String → ℕ → S → Result String × S
  pub bcrypt_compare : String → String → Result Bool
  -- Buffer.from(s, 'base64').toString('utf-8')
  pub base64_decode : String → String
  -- prisma.user
  pub find_user : String → S → Result (Option User)
  pub find_user_by_github_id : ℕ → S → Result (Option User)
  pub set_whitelisted : String → Bool → S → Result User × S
  pub update_user_tokens : String → TokenColumns → S → Result User × S
  pub upsert_user : ℕ → TokenColumns → ℕ → NewUser → S → Result User × S
  -- prisma.$transaction
  pub commit : S → Result (Unit {0}) × S
  pub rollback : S → S → S
  -- prisma.revokedToken
  pub find_revoked : String → S → Result (Option RevokedToken)
  pub create_revoked : RevokedToken → S → Result RevokedToken × S
  pub count_expired_before : ℕ → S → Result ℕ
  pub delete_expired_before : ℕ → S → Result ℕ × S
  -- prisma.serviceRegistry, prisma.serviceAuditLog
  pub find_service : String → S → Result (Option Service)
  pub create_service : NewService → S → Result Service × S
  pub set_last_used : String → ℕ → S → Result Service × S
  pub set_api_key : String → String → ℕ → S → Result Service × S
  pub set_active : String → Bool → S → Result Service × S
  pub delete_service : String → S → Result Service × S
  pub list_services : Bool → S → Result (List Service)
  pub create_audit_entry : AuditEntry → S → Result (Unit {0}) × S
  -- node's crypto and Buffer: bytes are texts here, and only handed around. `seal` is the cipher's
  -- output in base64 with its tag, `unseal` checks the tag and deciphers.
  pub base64 : String → String
  pub from_base64 : String → String
  pub pbkdf2 : String → String → Result String
  pub seal : String → String → String → Result (String × String)
  pub unseal : String → String → String → String → Result String
  -- the two GitHub endpoints that are called over HTTP
  pub github_exchange : String → S → Result TokenResponse × S
  pub github_refresh : String → S → Result TokenResponse × S
  pub github_user : String → S → Result GithubUser
  -- ioredis: setex; a pipeline of `get` and `del` of one key, whose results may be null
  pub redis_setex : String → ℕ → String → S → Result (Unit {0}) × S
  pub redis_get_del : String → S → Result (Option (List RedisReply)) × S
  -- JSON.stringify and JSON.parse of an `OAuthState`
  pub to_json : OauthState → String
  pub from_json : String → Result OauthState
