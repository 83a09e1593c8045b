-- ===== src/AuthRoutes/SignIn.antt =====
-- Whose account a login stands for, once its state was accepted.
use af_auth.Base.{
  ℕ, String, ◌≡◌, refl, true, Option, none, some, arith, ◌⊎◌, inl, inr, Bool-cases, subst, ◌∙◌,
  zero, suc, or_else, or_null,
}
use af_auth.Base.Eff.{ok, World, Result-cases}
use af_auth.Env.{Env, User, TokenColumns, NewUser, TokenResponse, GithubUser}
use af_auth.Encryption.{encrypt_github_token}
use af_auth.Encryption.Unchanged.{encrypt_github_token-db}
use af_auth.GithubOauth.{exchange_code_for_token, get_github_user, calculate_token_expiration}
use af_auth.AuthRoutes.{
  token_ready, issue_or_none, show_result, new_user, store_user, complete_sign_in, sign_in,
}

-- Prisma's `upsert`: a row that comes back whitelisted was created so, or was whitelisted before.
pub record UpsertKeepsFlag {S : Type 0} (env : Env S) : Type 0 where
  pub keeps_flag :
      (n : ℕ) (columns : TokenColumns) (t : ℕ) (new : NewUser) (row : User) (s : S)
      → (env.upsert_user n columns t new s).0 ≡ ok row
      → row.is_whitelisted ≡ true
      → (new.is_whitelisted ≡ true)
        ⊎ ((old : User) × (env.find_user_by_github_id n s ≡ ok (some old))
            × (old.is_whitelisted ≡ true))

module _ {S : Type 0} (env : Env S) where
  -- The database has a row for the GitHub account, and it is whitelisted.
  abbrev pub IsKnown : GithubUser → S → Type 0
  IsKnown g s =
      (old : User) × (env.find_user_by_github_id g.id s ≡ ok (some old))
      × (old.is_whitelisted ≡ true)

  expiration-db : (n : Option ℕ) (w : World S) → (calculate_token_expiration n w).1.db ≡ w.db
  unfolding calculate_token_expiration
  expiration-db none w = refl
  expiration-db (some zero) w = refl
  expiration-db (some (suc n)) w = refl

  -- The account at GitHub that a code stands for, with the login shown on the page, is known.
  pub record SignsIn (code : String) (w : World S) (login : String) : Type 0 where
    pub response : TokenResponse
    pub exchanged : (exchange_code_for_token env code w).0 ≡ ok response
    pub github_user : GithubUser
    pub fetched :
        (get_github_user env
          (or_else response.access_token "")
          (exchange_code_for_token env code w).1).0
        ≡ ok github_user
    pub same_login : login ≡ github_user.login
    pub known :
        IsKnown github_user
          (get_github_user env
            (or_else response.access_token "")
            (exchange_code_for_token env code w).1).1.db

  show_result-whitelisted :
      (user : User) (login name id : String) (token : Option String) (w : World S)
      → (show_result env user login w).0 ≡ ok (token_ready id name token)
      → (user.is_whitelisted ≡ true) × (name ≡ login)
  unfolding show_result issue_or_none
  show_result-whitelisted user login name id token w h = elim (Bool-cases user.is_whitelisted) [
    | inl listed ↦ elim (Result-cases (issue_or_none env user.id w).0) [
      | inl (t, e) ↦ (listed, ground arith)
      | inr (x, e) ↦ absurd (ground arith)
    ]
    | inr unlisted ↦ absurd (ground arith)
  ]

  stored_lem :
      UpsertKeepsFlag env
      → (g : GithubUser) (columns : TokenColumns) (w : World S) (user : User)
      → (store_user env g columns w).0 ≡ ok user
      → user.is_whitelisted ≡ true
      → (old : User) × (env.find_user_by_github_id g.id w.db ≡ ok (some old))
        × (old.is_whitelisted ≡ true)
  unfolding store_user
  stored_lem laws g columns w user h listed =
      elim (laws.keeps_flag g.id columns (w.clock w.reads) (new_user env g.id columns) user w.db
        (ground arith) listed) [ inl created ↦ absurd (ground arith) | inr known ↦ known ]

  completed :
      UpsertKeepsFlag env
      → (r : TokenResponse) (g : GithubUser) (login id : String) (token : Option String)
        (w : World S)
      → (complete_sign_in env r g w).0 ≡ ok (token_ready id login token)
      → IsKnown g w.db × (login ≡ g.login)
  unfolding complete_sign_in
  completed laws r g login id token w h =
      elim (Result-cases (calculate_token_expiration r.expires_in w).0) [
        | inl (t, e) ↦
            let w1 : World S = (calculate_token_expiration r.expires_in w).1 in
            elim (Result-cases (encrypt_github_token env r.access_token w1).0) [
              | inl (a, e1) ↦
                  let w2 : World S = (encrypt_github_token env r.access_token w1).1 in
                  elim (Result-cases (encrypt_github_token env (or_null r.refresh_token) w2).0) [
                    | inl (f, e2) ↦
                        let w3 : World S =
                          (encrypt_github_token env (or_null r.refresh_token) w2).1 in
                        let columns : TokenColumns = record {
                          access_token = a;
                          refresh_token = f;
                          expires_at = t;
                        } in
                        elim (Result-cases (store_user env g columns w3).0) [
                          | inl (user, e3) ↦
                              let (listed, name) =
                                show_result-whitelisted user g.login login id token
                                  (store_user env g columns w3).1 (ground arith) in
                              let (old, known, flag) =
                                stored_lem laws g columns w3 user e3 listed in
                              let same : w3.db ≡ w.db =
                                encrypt_github_token-db env (or_null r.refresh_token) w2
                                ∙ encrypt_github_token-db env r.access_token w1
                                ∙ expiration-db r.expires_in w in
                              (
                                (
                                  old,
                                  subst (λ x. env.find_user_by_github_id g.id x ≡ ok (some old))
                                      same known,
                                  flag,
                                ),
                                name,
                              )
                          | inr (x, e3) ↦ absurd (ground arith)
                        ]
                    | inr (x, e2) ↦ absurd (ground arith)
                  ]
              | inr (x, e1) ↦ absurd (ground arith)
            ]
        | inr (x, e) ↦ absurd (ground arith)
      ]

  pub sign_in-SignsIn :
      UpsertKeepsFlag env
      → (code login id : String) (token : Option String) (w : World S)
      → (sign_in env code w).0 ≡ ok (token_ready id login token)
      → SignsIn code w login
  unfolding sign_in
  sign_in-SignsIn laws code login id token w h =
      let w1 : World S = (exchange_code_for_token env code w).1 in
      elim (Result-cases (exchange_code_for_token env code w).0) [
        | inl (r, e) ↦ elim (Result-cases (get_github_user env (or_else r.access_token "") w1).0) [
          | inl (g, e1) ↦
              let (known, name) =
                completed laws r g login id token
                  (get_github_user env (or_else r.access_token "") w1).1 (ground arith) in
              record {
                response = r;
                exchanged = e;
                github_user = g;
                fetched = e1;
                same_login = name;
                known = known;
              }
          | inr (x, e1) ↦ absurd (ground arith)
        ]
        | inr (x, e) ↦ absurd (ground arith)
      ]
