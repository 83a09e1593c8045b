-- ===== src/Scripts/EncryptTokens.antt =====
-- scripts/migrate-encrypt-tokens.ts: the migration that encrypts the GitHub tokens that are stored as
-- plain text, user by user, each in a transaction. `connect` and `disconnect`, which src/db does not
-- export, and the two queries that `Env` does not have are parameters. Logging only prints.
pub mod Tokens
pub mod Users
pub mod Runs
use af_auth.Base.{
  ℕ, suc, String, Bool, true, false, not, ◌&&◌, ◌||◌, Option, none, some, List, [], ◌∷◌, ◌===◌,
  ◌==◌, ◌+++◌, if◌then◌else◌, is_some, truthy, split, length,
}
use af_auth.Base.Eff.{
  Result, ok, err, error, World, Eff, pure, throw, query, command, branch, ◌>>=◌, ◌>>◌,
}
use af_auth.Env.{Env, User}
use af_auth.Encryption.{encrypt_github_token, decrypt_github_token}
use af_auth.GithubToken.{transaction}

-- `isTokenEncrypted`. `Buffer.from(part, 'base64')` never throws, so only the number of parts counts.
unfoldable pub is_token_encrypted : Option String → Bool
is_token_encrypted none = false
is_token_encrypted (some token) = truthy (some token) && length (split b':' token) == 4

-- `dataToUpdate`: a column that is left out stays as it is.
pub record TokenUpdate : Type 0 where
  pub access_token : Option String
  pub refresh_token : Option String

-- What the transaction returns for a user.
pub record Migrated : Type 0 where
  pub access_token_migrated : Bool
  pub refresh_token_migrated : Bool

pub record Totals : Type 0 where
  pub access_tokens_migrated : ℕ
  pub refresh_tokens_migrated : ℕ
  pub errors : ℕ

abbrev pub same_text : Option String → Option String → Bool
same_text (some a) (some b) = a === b
same_text none none = true
same_text (some a) none = false
same_text none (some b) = false

-- A user's turn in the loop: what it migrated is counted, or its error is.
abbrev pub counted : Result Migrated → Totals → Totals
counted (err e) t = record t { errors = suc t.errors }
counted (ok m) t = record t {
  access_tokens_migrated =
      if m.access_token_migrated then suc t.access_tokens_migrated else t.access_tokens_migrated;
  refresh_tokens_migrated =
      if m.refresh_token_migrated then suc t.refresh_tokens_migrated else t.refresh_tokens_migrated;
}

abbrev pub none_counted : Totals
none_counted = record { access_tokens_migrated = 0; refresh_tokens_migrated = 0; errors = 0 }

-- The two queries: the identifiers of the users with a token, and the update of their columns.
pub record TokenTable (S : Type 0) : Type 0 where
  pub list_with_tokens : S → Result (List String)
  pub update_tokens : String → TokenUpdate → S → Result User × S

module _ {S : Type 0} (env : Env S) where
  -- The check of a fresh encryption before it is used.
  unfoldable pub validated :
      Option String → String → Option String → Option String → Eff S (Option String)
  validated token invalid encrypted decrypted =
      branch (same_text decrypted token) (pure encrypted) (throw (error invalid))

  -- The new value of one column, if it has to be migrated.
  unfoldable pub migrate_token : Option String → String → Eff S (Option String)
  migrate_token token invalid =
      branch (truthy token && not (is_token_encrypted token))
        (do
          encrypted ← encrypt_github_token env token
          decrypted ← decrypt_github_token env encrypted
          validated token invalid encrypted decrypted)
        (pure none)

module _ {S : Type 0} (env : Env S) (table : TokenTable S) (dry_run : Bool) where
  abbrev pub write_tokens : String → TokenUpdate → Eff S (Unit {0})
  write_tokens id update = do command (table.update_tokens id update); pure tt

  -- `if (!dryRun && Object.keys(dataToUpdate).length > 0)`
  unfoldable pub write_changes : User → TokenUpdate → Eff S (Unit {0})
  write_changes user update =
      branch (not dry_run && (is_some update.access_token || is_some update.refresh_token))
        (write_tokens user.id update) (pure tt)

  -- The rest of the transaction once the row was read.
  unfoldable pub migrate_found : String → Option User → Eff S Migrated
  migrate_found id none = throw (error ("User " +++ id +++ " not found in transaction"))
  migrate_found id (some user) = do
    access ← migrate_token env user.github_access_token "Access token encryption validation failed"
    refresh ←
        migrate_token env user.github_refresh_token "Refresh token encryption validation failed"
    write_changes user (record { access_token = access; refresh_token = refresh })
    pure (record {
      access_token_migrated = is_some access;
      refresh_token_migrated = is_some refresh;
    })

  unfoldable pub migrate_user : String → Eff S Migrated
  migrate_user id = transaction env (do row ← query (env.find_user id); migrate_found id row)

  -- The loop over the users; an error of one does not stop it.
  unfoldable pub migrate_all : List String → Totals → World S → Totals × World S
  migrate_all [] t w = (t, w)
  migrate_all (id ∷ ids) t w = let (r, w') = migrate_user id w in migrate_all ids (counted r t) w'

  abbrev pub exit_code : Totals → ℕ
  exit_code t = if dry_run then 0 else if t.errors == 0 then 0 else 1

  -- The `try`: the exit code if it is left normally.
  unfoldable pub migrate_listed : List String → World S → ℕ × World S
  migrate_listed [] w = (0, w)
  migrate_listed (id ∷ ids) w =
      let (t, w') = migrate_all (id ∷ ids) none_counted w in (exit_code t, w')

  unfoldable pub migrate : Eff S (Unit {0}) → Eff S ℕ
  migrate connect = do
    connect
    ids ← query table.list_with_tokens
    (λ w. let (code, w') = migrate_listed ids w in (ok code, w'))

  -- `process.exit` ends the program at once, so `finally` disconnects only after a good run.
  abbrev closed : Result (Unit {0}) → ℕ
  closed (ok u) = 0
  closed (err e) = 1

  unfoldable pub main : Eff S (Unit {0}) → Eff S (Unit {0}) → World S → ℕ × World S
  main connect disconnect w =
      let (r, w') = migrate connect w in
      elim r [
        | ok code ↦ if code == 0 then (closed (disconnect w').0, (disconnect w').1) else (code, w')
        | err e ↦ (1, w')
      ]
