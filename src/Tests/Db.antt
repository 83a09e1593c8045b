-- ===== src/Tests/Db.antt =====
-- A small state of the outside, with the operations of `Env` on it.
use af_auth.Base.{
  ℕ, ◌+◌, ◌/◌, String, true, false, Option, none, some, List, [], ◌∷◌, ◌===◌, ◌==◌, ◌&&◌, leb, ltb,
  keep, length, if◌then◌else◌, ◌+++◌, show,
}
use af_auth.Base.Eff.{Result, ok, err, error, World}
use af_auth.Env.{
  TokenColumns, NewUser, Env, Config, User, RevokedToken, Service, NewService, Payload, Claims,
  Verdict, verified, token_expired, json_web_token_error, null, text, number, RedisReply,
}
use af_auth.Tests.Codec.{escape, unescape, encode_state, decode_state}

pub record Db : Type 0 where
  pub users : List User
  pub revoked : List RevokedToken
  pub service : Option Service
  pub pending : Option (String × String)

abbrev pub find_user_in : String → List User → Option User
find_user_in id [] = none
find_user_in id (u ∷ us) = let rest = find_user_in id us in if u.id === id then some u else rest

abbrev pub find_github_in : ℕ → List User → Option User
find_github_in n [] = none
find_github_in n (u ∷ us) =
    let rest = find_github_in n us in if u.github_user_id == n then some u else rest

abbrev pub find_revoked_in : String → List RevokedToken → Option RevokedToken
find_revoked_in jti [] = none
find_revoked_in jti (r ∷ rs) =
    let rest = find_revoked_in jti rs in if r.jti === jti then some r else rest

abbrev pub named_service : String → Option Service → Option Service
named_service identifier none = none
named_service identifier (some s) = if s.service_identifier === identifier then some s else none

abbrev missing : {A : Type 0} → Result A
missing = err (error "Record not found")

abbrev change_service : (Service → Service) → Option Service → Db → Result Service × Db
change_service f none s = (missing, s)
change_service f (some row) s = (ok (f row), record s { service = some (f row) })

abbrev drop_service : Option Service → Db → Result Service × Db
drop_service none s = (missing, s)
drop_service (some row) s = (ok row, record s { service = none })

abbrev pub take_pending : String → Option (String × String) → Db → Option (List RedisReply) × Db
take_pending key none s = (
  some (record { failed = false; value = null } ∷ record { failed = false; value = number 0 } ∷ []),
  s,
)
take_pending key (some (k, v)) s =
    if k === key
    then (
      some (
          record { failed = false; value = text v }
          ∷ record { failed = false; value = number 1 }
          ∷ []),
      record s { pending = none },
    )
    else (
      some (
          record { failed = false; value = null }
          ∷ record { failed = false; value = number 0 }
          ∷ []),
      s,
    )

-- A row that is there gets the new tokens and keeps its flag.
abbrev upsert_in : Option User → TokenColumns → NewUser → Db → Result User × Db
upsert_in none c new s =
    let u : User = record {
      id = "new";
      github_user_id = new.github_user_id;
      github_access_token = new.columns.access_token;
      github_refresh_token = new.columns.refresh_token;
      github_token_expires_at = new.columns.expires_at;
      is_whitelisted = new.is_whitelisted;
    } in
    (ok u, record s { users = u ∷ s.users })
upsert_in (some old) c new s =
    let u : User = record old {
      github_access_token = c.access_token;
      github_refresh_token = c.refresh_token;
      github_token_expires_at = c.expires_at;
    } in
    (ok u, record s { users = u ∷ s.users })

abbrev made_service : NewService → Service
made_service n = record {
  id = "s2";
  service_identifier = n.service_identifier;
  hashed_api_key = n.hashed_api_key;
  allowed_scopes = n.allowed_scopes;
  is_active = n.is_active;
  description = n.description;
  created_at = 0;
  updated_at = 0;
  last_used_at = none;
  last_api_key_rotated_at = none;
}

abbrev pub config : Config
config = record {
  jwt_private_key = "private";
  jwt_public_key = "public";
  jwt_expires_in = "1h";
  jwt_issuer = "iss";
  jwt_audience = "aud";
  jwt_clock_tolerance = 60;
  token_encryption_key = "0123456789abcdef0123456789abcdef";
  token_refresh_threshold_seconds = 300;
  state_ttl_seconds = 600;
  jwt_key_rotation_interval_days = 180;
  github_token_encryption_key_rotation_interval_days = 90;
}

-- One user signs in, at one time, with one identifier of the token.
abbrev pub alice : User
alice = record {
  id = "alice";
  github_user_id = 7;
  github_access_token = some "a:b:c:gho";
  github_refresh_token = none;
  github_token_expires_at = none;
  is_whitelisted = true;
}

abbrev pub alice_claims : Claims
alice_claims = record {
  sub = "alice";
  github_id = "7";
  jti = some "r0";
  iat = some 5;
  exp = some 3605;
  iss = some "iss";
  aud = some "aud";
}

abbrev sign_one : Payload → ℕ → Result String
sign_one p t =
    if p.sub === "alice"
      && p.github_id === "7"
      && p.jti === "r0"
      && p.iss === "iss"
      && p.aud === "aud"
      && t / 1000 == 5
    then ok "signed"
    else err (error "cannot sign")

abbrev verify_one : String → ℕ → Verdict
verify_one token t =
    if token === "signed"
    then (if ltb (t / 1000) (3605 + 60) then verified alice_claims else token_expired)
    else json_web_token_error "invalid signature"

abbrev pub env : Env Db
env = record {
  config = config;
  sign = λ p key lifetime t. sign_one p t;
  verify = λ token key options t. verify_one token t;
  bcrypt_hash = λ key rounds s. (ok ("hash " +++ key), s);
  bcrypt_compare = λ key hashed. ok ("hash " +++ key === hashed);
  base64_decode = λ s. s;
  find_user = λ id s. ok (find_user_in id s.users);
  find_user_by_github_id = λ n s. ok (find_github_in n s.users);
  set_whitelisted = λ id b s. (missing, s);
  update_user_tokens = λ id c s. (missing, s);
  upsert_user = λ n c t new s. upsert_in (find_github_in n s.users) c new s;
  commit = λ s. (ok tt, s);
  rollback = λ before after. before;
  find_revoked = λ jti s. ok (find_revoked_in jti s.revoked);
  create_revoked = λ row s. (ok row, record s { revoked = row ∷ s.revoked });
  count_expired_before = λ cutoff s.
      ok (length (keep (λ (r : RevokedToken). ltb r.token_expires_at cutoff) s.revoked));
  delete_expired_before = λ cutoff s. (
    ok (length (keep (λ (r : RevokedToken). ltb r.token_expires_at cutoff) s.revoked)),
    record s { revoked = keep (λ (r : RevokedToken). leb cutoff r.token_expires_at) s.revoked },
  );
  find_service = λ identifier s. ok (named_service identifier s.service);
  create_service = λ n s. (ok (made_service n), record s { service = some (made_service n) });
  set_last_used =
      λ id t s. change_service (λ row. record row { last_used_at = some t }) s.service s;
  set_api_key = λ identifier hashed t s.
      change_service
        (λ row. record row { hashed_api_key = hashed; last_api_key_rotated_at = some t })
        (named_service identifier s.service) s;
  set_active = λ identifier b s.
      change_service (λ row. record row { is_active = b }) (named_service identifier s.service) s;
  delete_service = λ identifier s. drop_service (named_service identifier s.service) s;
  list_services = λ active s. ok [];
  create_audit_entry = λ entry s. (ok tt, s);
  base64 = escape;
  from_base64 = unescape;
  pbkdf2 = λ master salt. ok (master +++ salt);
  seal = λ key iv plaintext. ok (escape plaintext, "tag");
  unseal = λ key iv tag sealed. ok (unescape sealed);
  github_exchange = λ code s. (missing, s);
  github_refresh = λ token s. (missing, s);
  github_user = λ token s. missing;
  redis_setex = λ key ttl value s. (ok tt, record s { pending = some (key, value) });
  redis_get_del = λ key s. let (r, s') = take_pending key s.pending s in (ok r, s');
  to_json = encode_state;
  from_json = decode_state;
}

abbrev pub service : Service
service = record {
  id = "s1";
  service_identifier = "svc";
  hashed_api_key = "hash k";
  allowed_scopes = [];
  is_active = true;
  description = none;
  created_at = 0;
  updated_at = 0;
  last_used_at = none;
  last_api_key_rotated_at = none;
}

abbrev pub db : Db
db = record { users = alice ∷ []; revoked = []; service = some service; pending = none }

-- The clock stands at five seconds, and gains a millisecond at each reading.
abbrev pub world : World Db
world = record {
  db = db;
  clock = λ n. 5000 + n;
  reads = 0;
  random = λ n. "r" +++ show n;
  drawn = 0;
  metrics = [];
  key_cache = [];
}
