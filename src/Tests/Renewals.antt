-- ===== src/Tests/Renewals.antt =====
-- The theorem on a refresh at a small state.
use af_auth.Base.{true, none, some}
use af_auth.Base.Eff.{ok}
use af_auth.Env.{Env, User, TokenColumns}
use af_auth.GithubToken.{Refreshed}
use af_auth.Tests.Db.{Db, env, alice}

-- GitHub sends a new access token, and the row is written.
abbrev with_columns : TokenColumns → User
with_columns c = record alice {
  github_access_token = c.access_token;
  github_refresh_token = c.refresh_token;
  github_token_expires_at = c.expires_at;
}

abbrev github : Env Db
github = record env {
  github_refresh = λ token s.
      (ok (record { access_token = some "new"; refresh_token = none; expires_in = some 10 }), s);
  update_user_tokens = λ id c s. (ok (with_columns c), s);
}

abbrev renewed : Refreshed
renewed = record {
  access_token = some "r0:r1:tag:new";
  refresh_token = some "a:b:c:ghr";
  expires_at = some 15000;
  was_refreshed = true;
}
