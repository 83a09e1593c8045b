-- ===== src/AuthRoutes/Callback.antt =====
-- Who is shown a token at the end of a login.
use af_auth.Base.{
  String, ◌≡◌, ◌≢◌, refl, false, Option, none, some, arith, inl, inr, Bool-cases, ◌===◌, eq_iff,
}
use af_auth.Base.Eff.{ok, World, Result-cases, Lookup-cases}
use af_auth.Env.{Env, OauthState}
use af_auth.GithubOauth.{validate_state}
use af_auth.AuthRoutes.{
  QueryValue, absent, one, several, given, CallbackQuery, token_ready, error_page, accept_state,
  with_state, with_code, callback_route,
}
use af_auth.AuthRoutes.SignIn.{UpsertKeepsFlag, SignsIn, sign_in-SignsIn}

module _ {S : Type 0} (env : Env S) where
  -- What a callback that is shown a token has gone through.
  pub record TokenShown (q : CallbackQuery) (w : World S) (login : String) : Type 0 where
    pub no_error : given q.error ≡ false
    pub code : String
    pub code_given : q.code ≡ one code
    pub state : String
    pub state_given : q.state ≡ one state
    pub begun : OauthState
    pub state_accepted : (validate_state env state w).0 ≡ ok (some begun)
    pub signs_in : SignsIn env code (validate_state env state w).1 login

  with_state-TokenShown :
      UpsertKeepsFlag env
      → (q : CallbackQuery) (code state login id : String) (token : Option String) (w : World S)
      → given q.error ≡ false
      → q.code ≡ one code
      → q.state ≡ one state
      → (with_state env code (one state) w).0 ≡ ok (token_ready id login token)
      → TokenShown q w login
  unfolding with_state accept_state
  with_state-TokenShown laws q code state login id token w fine c s h =
      elim (Bool-cases (state === "")) [
        | inl e ↦ absurd (ground arith)
        | inr e ↦ elim (Lookup-cases (validate_state env state w).0) [
          | inl (d, f) ↦ record {
            no_error = fine;
            code = code;
            code_given = c;
            state = state;
            state_given = s;
            begun = d;
            state_accepted = f;
            signs_in =
                sign_in-SignsIn env laws code login id token (validate_state env state w).1
                  (ground arith);
          }
          | inr (inl f) ↦ absurd (ground arith)
          | inr (inr (x, f)) ↦ absurd (ground arith)
        ]
      ]

  with_code-TokenShown :
      UpsertKeepsFlag env
      → (q : CallbackQuery) (login id : String) (token : Option String) (w : World S)
        (c s : QueryValue)
      → given q.error ≡ false
      → q.code ≡ c
      → q.state ≡ s
      → (with_code env c s w).0 ≡ ok (token_ready id login token)
      → TokenShown q w login
  unfolding with_code with_state
  with_code-TokenShown laws q login id token w (one code) (one state) fine c s h =
      elim (Bool-cases (code === "")) [
        | inl e ↦ absurd (ground arith)
        | inr e ↦ with_state-TokenShown laws q code state login id token w fine c s (ground arith)
      ]
  with_code-TokenShown laws q login id token w (one code) absent fine c s h =
      elim (Bool-cases (code === "")) [
        | inl e ↦ absurd (ground arith)
        | inr e ↦ absurd (ground arith)
      ]
  with_code-TokenShown laws q login id token w (one code) several fine c s h =
      elim (Bool-cases (code === "")) [
        | inl e ↦ absurd (ground arith)
        | inr e ↦ absurd (ground arith)
      ]
  with_code-TokenShown laws q login id token w absent _ fine c s h = absurd (ground arith)
  with_code-TokenShown laws q login id token w several _ fine c s h = absurd (ground arith)

  -- The page with a token is shown only to a callback without an error, whose state `validateState`
  -- accepts, whose code GitHub then exchanges for a token of an account, and whose account has a
  -- whitelisted row in the database as the calls of GitHub left it, before the login is stored. (With
  -- Prisma's `upsert` as `UpsertKeepsFlag` says.)
  pub callback_route-TokenShown :
      UpsertKeepsFlag env
      → (q : CallbackQuery) (login id : String) (token : Option String) (w : World S)
      → (callback_route env q w).0 ≡ ok (token_ready id login token)
      → TokenShown q w login
  unfolding callback_route
  callback_route-TokenShown laws q login id token w h = elim (Bool-cases (given q.error)) [
    | inl e ↦ absurd (ground arith)
    | inr e ↦ elim (Result-cases (with_code env q.code q.state w).0) [
      | inl (page, f) ↦
          with_code-TokenShown laws q login id token w q.code q.state e refl refl (ground arith)
      | inr (x, f) ↦ absurd (ground arith)
    ]
  ]

  -- A callback whose state is not accepted is refused as a security error, and nothing is exchanged or
  -- stored for it: the database is left as the check of the state left it.
  pub callback_route-refused_state :
      (code state : String) (q : CallbackQuery) (w : World S)
      → given q.error ≡ false
      → q.code ≡ one code
      → q.state ≡ one state
      → code ≢ ""
      → state ≢ ""
      → (validate_state env state w).0 ≡ ok none
      → ((callback_route env q w).0 ≡ ok (error_page 400 "Security Error"))
        × ((callback_route env q w).1.db ≡ (validate_state env state w).1.db)
  unfolding callback_route with_code with_state accept_state
  callback_route-refused_state code state q w fine c s given_code given_state refused = (
    ground (arith, eq_iff code "", eq_iff state "", given_code, given_state),
    ground (arith, eq_iff code "", eq_iff state "", given_code, given_state),
  )
