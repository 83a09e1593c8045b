-- ===== src/Tests/Callbacks.antt =====
-- The theorems on GitHub's callback at a small state.
use af_auth.Base.{◌≡◌, refl, none, some, inl, inr, arith, split, show, Option-cases}
use af_auth.Base.Eff.{ok, World}
use af_auth.Env.{Env}
use af_auth.Encryption.{cached, encrypt_github_token, encrypt, derive_key, join_parts}
use af_auth.GithubOauth.{
  validate_state, exchange_code_for_token, get_github_user, calculate_token_expiration, usable,
}
use af_auth.Jwt.{generate_jwt, sign_jwt}
use af_auth.AuthRoutes.{
  absent, one, CallbackQuery, token_ready, callback_route, with_code, with_state, accept_state,
  sign_in,
}
use af_auth.AuthRoutes.SignIn.{UpsertKeepsFlag}
use af_auth.AuthRoutes.Callback.{TokenShown, callback_route-TokenShown}
use af_auth.Tests.Db.{Db, env, world, db, find_github_in}

-- GitHub knows one account.
abbrev github : Env Db
github = record env {
  github_exchange = λ code s.
      (ok (record { access_token = some "gho"; refresh_token = none; expires_in = none }), s);
  github_user = λ token s. ok (record { id = 7; login = "alice-gh" });
}

keeps_flags : UpsertKeepsFlag github
keeps_flags = record {
  keeps_flag = λ n columns t new row s h listed. elim (Option-cases (find_github_in n s.users)) [
    | inl e ↦ inl (ground arith)
    | inr (old, e) ↦ inr (old, ground (arith, e), ground arith)
  ];
}

abbrev waiting_world : World Db
waiting_world = record world {
  random = λ n. "r0";
  db = record db { pending = some ("oauth:state:r0", "r0:r1:ii") };
}

abbrev query : CallbackQuery
query = record { code = one "c"; state = one "r0"; error = absent }

shown :
    (callback_route github query waiting_world).0
    ≡ ok (token_ready "alice" "alice-gh" (some "signed"))
unfolding callback_route with_code with_state accept_state sign_in validate_state usable split
    exchange_code_for_token get_github_user calculate_token_expiration encrypt_github_token encrypt
    derive_key cached join_parts show generate_jwt sign_jwt
shown = refl

callback_route-TokenShown_example : TokenShown github query waiting_world "alice-gh"
callback_route-TokenShown_example =
    callback_route-TokenShown github keeps_flags query "alice-gh" "alice" (some "signed")
      waiting_world shown

unknown_state : (validate_state github "r0" world).0 ≡ ok none
unfolding validate_state usable
unknown_state = refl
