-- ===== src/Tests/Logins.antt =====
-- The theorems on the login and on the stored GitHub tokens at a small state.
use af_auth.Base.{
  show, ℕ, ◌+◌, String, ◌≡◌, refl, true, none, some, if◌then◌else◌, ◌==◌, arith, split, starts_with,
  substring_from, split_first,
}
use af_auth.Base.Eff.{ok, World}
use af_auth.Env.{User, OauthState, text}
use af_auth.GithubOauth.{validate_state, generate_state, usable, is_token_expiring_soon}
use af_auth.GithubOauth.Single.{validate_state-generate_state}
use af_auth.Base.Steps.{Reach, here, next}
use af_auth.GithubOauth.Race.{Race, race_single, waiting, got, finished, get, del, Step}
use af_auth.ServiceRegistry.{authenticate_service, log_service_access, entry_of}
use af_auth.Encryption.{cached, decrypt, derive_key, parts_of, decrypt_github_token}
use af_auth.GithubToken.{
  Credentials, TokenRequest, TokenAnswer, answer, extract_service_credentials, split_credentials,
  github_token_handler, choose_token, serve_credentials, serve_service, serve_user, serve_token,
  hand_out, answer_with,
}
use af_auth.GithubToken.Header.{IsSplittable}
use af_auth.GithubToken.Access.{github_token_handler-Granted, Granted}
use af_auth.Tests.Codec.{escape-Lacks}
use package.text.Mathlib.TextLemmas.{cons≢nil}
use af_auth.Tests.Db.{Db, env, world, db, alice}
use af_auth.Tests.Laws.{stores_states}

abbrev began : World Db
began = (generate_state env none world).1

began_with : (generate_state env none world).0 ≡ ok "r0"
unfolding generate_state show
began_with = refl

abbrev login : OauthState
login = record { state = "r0"; timestamp = 5000; request_id = "r1" }

validate_state-generate_state_example :
    (id : String) × ((validate_state env "r0"
        (record world { db = began.db; clock = λ n. 600000 + n })).0
      ≡ ok (some (record { state = "r0"; timestamp = 5000; request_id = id })))
validate_state-generate_state_example =
    validate_state-generate_state env stores_states none "r0" world
      (record world { db = began.db; clock = λ n. 600000 + n }) began_with refl (omega arith)

abbrev stored : World Db
stored = record world { db = record db { pending = some ("oauth:state:r0", "r0:r1:ii") } }

abbrev short_login : OauthState
short_login = record { state = "r0"; timestamp = 2; request_id = "r1" }

accepted : (validate_state env "r0" stored).0 ≡ ok (some short_login)
unfolding validate_state usable split
accepted = refl

abbrev start : Race
start = record { key = some "s"; phase = λ i. waiting }

abbrev read_once : Race
read_once = record { key = some "s"; phase = λ j. if j == 4 then got (text "s") else waiting }

abbrev ended : Race
ended = record {
  key = none;
  phase = λ j. if j == 4 then finished (some "s") else read_once.phase j;
}

race_run : Reach Step start ended
unfolding usable
race_run = next (next here (get start 4 refl)) (del read_once 4 (text "s") refl)

abbrev winner : ℕ
winner = 4

race_single_example : winner ≡ winner
race_single_example = race_single start ended 4 4 "s" "s" (λ k. refl) race_run refl refl

abbrev credentials : Credentials
credentials = record { service_identifier = "svc"; api_key = "k:1" }

splittable : IsSplittable credentials
splittable = record {
  identifier_lacks = escape-Lacks "svc";
  identifier_given = λ h. cons≢nil h;
  key_given = λ h. cons≢nil h;
}

abbrev request : TokenRequest
request = record {
  authorization = some "Bearer svc:k";
  user_id = some "alice";
  github_user_id = none;
  ip = none;
  user_agent = none;
}

abbrev given : TokenAnswer
given = record {
  token = "gho";
  expires_at = none;
  user_id = "alice";
  github_user_id = "7";
  is_whitelisted = true;
}

handed_out : (github_token_handler env request world).0 ≡ ok (answer given)
unfolding github_token_handler serve_credentials serve_service serve_user serve_token hand_out
    answer_with choose_token extract_service_credentials split_credentials starts_with
    substring_from split_first authenticate_service log_service_access entry_of decrypt_github_token
    decrypt derive_key cached parts_of split show is_token_expiring_soon
handed_out = refl

github_token_handler-Granted_example : Granted env request world given
github_token_handler-Granted_example =
    github_token_handler-Granted env request world given handed_out

abbrev bob : User
bob = record alice {
  id = "bob";
  github_refresh_token = some "a:b:c:ghr";
  github_token_expires_at = some 9000;
}
