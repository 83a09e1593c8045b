-- ===== src/GithubToken/Renewal.antt =====
-- What a successful refresh stores.
use af_auth.Base.{String, ◌≡◌, true, false, Option, some, ◌⊎◌, truthy}
use af_auth.Base.Eff.{ok, World}
use af_auth.Env.{Env, User, TokenColumns, TokenResponse}
use af_auth.Encryption.{encrypt_github_token, decrypt_github_token}
use af_auth.GithubOauth.{refresh_access_token}
use af_auth.GithubToken.{Refreshed, written}

module _ {S : Type 0} (env : Env S) where
  -- The stored refresh token is the old one as it was, or an encryption of the one that GitHub sent.
  abbrev pub Kept : String → TokenResponse → Option String → Type 0
  Kept stored response column =
      ((truthy response.refresh_token ≡ false) × (column ≡ some stored))
      ⊎ ((truthy response.refresh_token ≡ true)
          × ((v : World S) × ((encrypt_github_token env response.refresh_token v).0 ≡ ok column)))

  -- What was written for the answer of GitHub, on a database that is `s`.
  pub record Stored (user_id stored : String) (response : TokenResponse) (s : S) (r : Refreshed)
      : Type 0 where
    pub columns : TokenColumns
    pub access_token : String
    pub v : World S
    pub encrypted : (encrypt_github_token env response.access_token v).0 ≡ ok (some access_token)
    pub access_column : columns.access_token ≡ some access_token
    pub refresh_column : Kept stored response columns.refresh_token
    pub updated : User
    pub wrote : (env.update_user_tokens user_id columns s).0 ≡ ok updated
    pub returned : r ≡ written env updated

  -- The steps of a successful refresh.
  pub record Renewed (user_id stored : String) (w : World S) (r : Refreshed) : Type 0 where
    pub plain : String
    pub decrypted : (decrypt_github_token env (some stored) w).0 ≡ ok (some plain)
    pub response : TokenResponse
    pub refreshed :
        (refresh_access_token env plain (decrypt_github_token env (some stored) w).1).0
        ≡ ok response
    pub stores :
        Stored user_id stored response
          (refresh_access_token env plain (decrypt_github_token env (some stored) w).1).1.db
          r
