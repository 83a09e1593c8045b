-- ===== src/Tests/Migration.antt =====
-- The migration of stored tokens on the small state, whose user has a plain refresh token.
use af_auth.Base.{
  String, ◌≡◌, ◌≢◌, refl, true, false, Option, none, some, List, [], ◌∷◌, arith, ◌⊎◌, inl, inr,
  Bool-cases, ◌===◌, eq_iff, str_eq→eq, if◌then◌else◌,
}
use af_auth.Base.Eff.{Result, ok, err, error, Thrown, World}
use af_auth.Env.{User}
use af_auth.Scripts.EncryptTokens.{
  TokenTable, TokenUpdate, Migrated, none_counted, migrate_user, migrate_all,
}
use af_auth.Scripts.EncryptTokens.Users.{
  SameUsers, TransactionLaws, TokensWritten, Turn, migrated, migrate_user-Turn,
}
use af_auth.Scripts.EncryptTokens.Runs.{migrate_all-dry}
use af_auth.Tests.Db.{Db, env, world, db, alice, find_user_in}
use af_auth.Tests.Laws.{ciphers}

abbrev set_in : String → TokenUpdate → List User → List User
set_in id update [] = []
set_in id update (u ∷ us) = (if u.id === id then migrated u update else u) ∷ set_in id update us

abbrev updated : Option User → Result User
updated none = err (error "Record not found")
updated (some u) = ok u

abbrev table : TokenTable Db
table = record {
  list_with_tokens = λ s. ok ("alice" ∷ []);
  update_tokens = λ id update s.
      (updated (find_user_in id s.users), record s { users = set_in id update s.users });
}

found_own : (id : String) (u : User) (l : List User) → find_user_in id l ≡ some u → u.id ≡ id
found_own id u [] h = absurd (ground arith)
found_own id u (x ∷ xs) h = elim (Bool-cases (x.id === id)) [
  | inl e ↦ let own = str_eq→eq x.id id e in ground arith
  | inr e ↦ found_own id u xs (ground arith)
]

found_set :
    (id : String) (update : TokenUpdate) (u : User) (l : List User)
    → find_user_in id l ≡ some u
    → find_user_in id (set_in id update l) ≡ some (migrated u update)
found_set id update u [] h = absurd (ground arith)
found_set id update u (x ∷ xs) h = elim (Bool-cases (x.id === id)) [
  | inl e ↦ rw (e, e) (ground arith)
  | inr e ↦ rw (e, e) (found_set id update u xs (ground arith))
]

other_set :
    (id other : String) (update : TokenUpdate) (l : List User)
    → other ≢ id
    → find_user_in other (set_in id update l) ≡ find_user_in other l
other_set id other update [] apart = refl
other_set id other update (x ∷ xs) apart = elim (Bool-cases (x.id === id)) [
  | inl e ↦ ground (arith, other_set id other update xs apart, eq_iff x.id id, eq_iff x.id other)
  | inr e ↦ ground (arith, other_set id other update xs apart)
]

transactions : TransactionLaws env
transactions = record { commit_keeps = λ s id. refl; rollback_undoes = λ before after id. refl }

rows : TokensWritten env table
rows = record {
  found_id = λ id u s h. found_own id u s.users (ground arith);
  columns_written =
      λ id update u row s h k. ground (arith, found_set id update u s.users (ground arith));
  others_kept = λ id other update s apart. ground (arith, other_set id other update s.users apart);
}

abbrev plain_world : World Db
plain_world = record world {
  db = record db { users = record alice { github_refresh_token = some "ghr" } ∷ [] };
}

migrate_user-Turn_example :
    ((m : Migrated) × ((migrate_user env table false "alice" plain_world).0 ≡ ok m)
      × Turn env table ciphers transactions rows false "alice" m plain_world.db
          (migrate_user env table false "alice" plain_world).1.db)
    ⊎ ((e : Thrown) × ((migrate_user env table false "alice" plain_world).0 ≡ err e)
        × SameUsers env (migrate_user env table false "alice" plain_world).1.db plain_world.db)
migrate_user-Turn_example =
    migrate_user-Turn env table ciphers transactions rows false "alice" plain_world

migrate_all-dry_example :
    SameUsers env
      (migrate_all env table true ("alice" ∷ []) none_counted plain_world).1.db
      plain_world.db
migrate_all-dry_example =
    migrate_all-dry env table ciphers transactions rows ("alice" ∷ []) none_counted plain_world
