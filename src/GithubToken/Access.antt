-- ===== src/GithubToken/Access.antt =====
-- Who is handed a token, and whose.
use af_auth.Base.{
  ℕ, String, ◌≡◌, refl, true, false, Option, none, some, arith, inl, inr, Bool-cases, Option-cases,
  show, truthy, or_else, ◌+++◌, ◌||◌,
}
use af_auth.Base.Eff.{pure, ◌>>◌, Result, ok, err, World, Result-cases}
use af_auth.Env.{Env, User}
use af_auth.ServiceRegistry.{ServiceEntry, authenticated, refused, authenticate_service}
use af_auth.Encryption.{decrypt_github_token}
use af_auth.GithubToken.{
  Credentials, TokenRequest, TokenAnswer, answer, refusal, extract_service_credentials, answer_with,
  hand_out, choose_token, serve_token, serve_user, serve_service, serve_credentials, find_target,
  github_token_handler, audit,
}

-- The answer is about this user.
pub record Describes (user : User) (a : TokenAnswer) : Type 0 where
  pub same_id : a.user_id ≡ user.id
  pub same_github_id : a.github_user_id ≡ show user.github_user_id
  pub same_whitelisted : a.is_whitelisted ≡ user.is_whitelisted

module _ {S : Type 0} (env : Env S) where
  answer_with-Describes :
      (user : User) (t : Option ℕ) (d : Option String) (a : TokenAnswer)
      → answer_with env user t d ≡ answer a
      → Describes user a
  unfolding answer_with
  answer_with-Describes user t d a h = record {
    same_id = ground arith;
    same_github_id = ground arith;
    same_whitelisted = ground arith;
  }

  hand_out-Describes :
      (user : User) (r : Result (String × Option ℕ)) (w : World S) (a : TokenAnswer)
      → (hand_out env user r w).0 ≡ ok (answer a)
      → Describes user a
  unfolding hand_out
  hand_out-Describes user (err e) w a h = absurd (ground arith)
  hand_out-Describes user (ok (access, t)) w a h =
      elim (Result-cases (decrypt_github_token env (some access) w).0) [
        | inl (d, e) ↦ answer_with-Describes user t d a (ground arith)
        | inr (x, e) ↦ absurd (ground arith)
      ]

  serve_token-Describes :
      (req : TokenRequest) (service_id access : String) (user : User) (w : World S)
      (a : TokenAnswer)
      → (serve_token env req service_id user access w).0 ≡ ok (answer a)
      → Describes user a
  unfolding serve_token
  serve_token-Describes req service_id access user w a h =
      elim (Result-cases (audit env req service_id user.id true none w).0) [
        | inl (u, e) ↦
            let w' : World S = (audit env req service_id user.id true none w).1 in
            elim (Result-cases (choose_token env user access w').0) [
              | inl (r, f) ↦
                  hand_out-Describes user r (choose_token env user access w').1 a (ground arith)
              | inr (x, f) ↦ absurd (ground arith)
            ]
        | inr (x, e) ↦ absurd (ground arith)
      ]

  -- What must hold of the user that the request names.
  pub record Served (found : Option User) (a : TokenAnswer) : Type 0 where
    pub user : User
    pub is_found : found ≡ some user
    pub whitelisted : user.is_whitelisted ≡ true
    pub has_token : truthy user.github_access_token ≡ true
    pub described : Describes user a

  -- A refusal that is audited is not an answer.
  audited-no_answer :
      (req : TokenRequest) (service_id user_id what code : String) (status : ℕ) (w : World S)
      (a : TokenAnswer)
      → ((audit env req service_id user_id false (some what) >> pure (refusal status code)) w).0
        ≡ ok (answer a)
      → ⊥
  audited-no_answer req service_id user_id what code status w a h =
      elim (Result-cases (audit env req service_id user_id false (some what) w).0) [
        | inl (u, e) ↦ ground arith
        | inr (x, e) ↦ ground arith
      ]

  serve_user-Served :
      (req : TokenRequest) (service_id named : String) (found : Option User) (w : World S)
      (a : TokenAnswer)
      → (serve_user env req service_id named found w).0 ≡ ok (answer a)
      → Served found a
  unfolding serve_user
  serve_user-Served req service_id named none w a h =
      absurd (audited-no_answer req service_id named "User not found" "USER_NOT_FOUND" 404 w a h)
  serve_user-Served req service_id named (some user) w a h = elim (Bool-cases user.is_whitelisted) [
    | inl listed ↦ elim (Bool-cases (truthy user.github_access_token)) [
      | inl held ↦ record {
        user = user;
        is_found = refl;
        whitelisted = listed;
        has_token = held;
        described =
            serve_token-Describes req service_id (or_else user.github_access_token "") user w a
              (ground arith);
      }
      | inr missing ↦ absurd (
          audited-no_answer req service_id user.id "No GitHub token available" "TOKEN_NOT_AVAILABLE"
            404 w a (ground arith))
    ]
    | inr unlisted ↦ absurd (
        audited-no_answer req service_id user.id "User not whitelisted" "USER_NOT_WHITELISTED" 403 w
          a (ground arith))
  ]

  -- What a request that is handed a token has shown.
  pub record Granted (req : TokenRequest) (w : World S) (a : TokenAnswer) : Type 0 where
    pub credentials : Credentials
    pub sent : extract_service_credentials env req.authorization ≡ some credentials
    pub service : ServiceEntry
    pub authentic :
        (authenticate_service env credentials.service_identifier credentials.api_key w).0
        ≡ ok (authenticated service)
    pub served :
        (found : Option User) × (find_target env req
            (authenticate_service env credentials.service_identifier credentials.api_key w).1.db
          ≡ ok found)
        × Served found a

  serve_service-Served :
      (req : TokenRequest) (service : ServiceEntry) (w : World S) (a : TokenAnswer)
      → (serve_service env req (authenticated service) w).0 ≡ ok (answer a)
      → (found : Option User) × (find_target env req w.db ≡ ok found) × Served found a
  unfolding serve_service
  serve_service-Served req service w a h =
      elim (Bool-cases (truthy req.user_id || truthy req.github_user_id)) [
        | inl given ↦ elim (Result-cases (find_target env req w.db)) [
          | inl (found, e) ↦ (
            found,
            e,
            serve_user-Served req service.id
                (or_else req.user_id ("github:" +++ or_else req.github_user_id "")) found w a
                (ground arith),
          )
          | inr (x, e) ↦ absurd (ground arith)
        ]
        | inr missing ↦ absurd (
            audited-no_answer req service.id "unknown" "Missing user identifier"
              "MISSING_USER_IDENTIFIER" 400 w a (ground arith))
      ]

  serve_credentials-Granted :
      (req : TokenRequest) (c : Credentials) (w : World S) (a : TokenAnswer)
      → extract_service_credentials env req.authorization ≡ some c
      → (serve_credentials env req (some c) w).0 ≡ ok (answer a)
      → Granted req w a
  unfolding serve_credentials serve_service
  serve_credentials-Granted req c w a sent h =
      let w' : World S = (authenticate_service env c.service_identifier c.api_key w).1 in
      elim (Result-cases (authenticate_service env c.service_identifier c.api_key w).0) [
        | inl (authenticated service, e) ↦ record {
          credentials = c;
          sent = sent;
          service = service;
          authentic = e;
          served = serve_service-Served req service w' a (ground arith);
        }
        | inl (refused reason, e) ↦ absurd (ground arith)
        | inr (x, e) ↦ absurd (ground arith)
      ]

  -- A request is handed a token only if its header holds credentials that authenticate as a service,
  -- and the user it names is found, is whitelisted and has a token; the answer is about that user.
  pub github_token_handler-Granted :
      (req : TokenRequest) (w : World S) (a : TokenAnswer)
      → (github_token_handler env req w).0 ≡ ok (answer a)
      → Granted req w a
  unfolding github_token_handler serve_credentials
  github_token_handler-Granted req w a h =
      elim (Option-cases (extract_service_credentials env req.authorization)) [
        | inl e ↦ absurd (ground arith)
        | inr (c, e) ↦ elim (Result-cases (serve_credentials env req (some c) w).0) [
          | inl (x, f) ↦ serve_credentials-Granted req c w a e (ground arith)
          | inr (x, f) ↦ absurd (ground arith)
        ]
      ]
