-- ===== src/Scripts/EncryptTokens/Runs.antt =====
-- A whole run: what it finishes, and that running again changes nothing.
use af_auth.Base.{
  String, ◌≡◌, refl, sym, ap, ◌∙◌, true, Bool, some, List, [], ◌∷◌, arith, inl, inr, Bool-cases,
  ◌===◌, str_eq→eq, eq_iff,
}
use af_auth.Base.Eff.{Result, ok, World}
use af_auth.Env.{Env, User}
use af_auth.Env.Laws.{CipherLaws}
use af_auth.Scripts.EncryptTokens.{
  TokenTable, TokenUpdate, Migrated, Totals, counted, migrate_user, migrate_all,
}
use af_auth.Scripts.EncryptTokens.Tokens.{Handled}
use af_auth.Scripts.EncryptTokens.Users.{
  SameUsers, TransactionLaws, TokensWritten, Turn, stored, migrate_user-Turn,
}

module _ {S : Type 0} (env : Env S) where
  -- The user's row is there, and neither of its tokens is plain text.
  abbrev pub IsDone : S → String → Type 0
  IsDone s id =
      (u : User) × (env.find_user id s ≡ ok (some u))
      × Handled u.github_access_token
      × Handled u.github_refresh_token

module _ {S : Type 0} (env : Env S) (table : TokenTable S) (ciphers : CipherLaws env)
    (laws : TransactionLaws env) (rows : TokensWritten env table) (dry_run : Bool) where
  abbrev turn : String → World S → Result Migrated × World S
  turn id w = migrate_user env table dry_run id w

  abbrev IsTurn : String → Migrated → S → S → Type 0
  IsTurn id m s s' = Turn env table ciphers laws rows dry_run id m s s'

  -- A turn that keeps its row keeps them all.
  unmoved :
      (id : String) (m : Migrated) (s s' : S) (t : IsTurn id m s s')
      → stored env table ciphers laws rows dry_run t.user t.update ≡ t.user
      → SameUsers env s' s
  unmoved id m s s' t e other = elim (Bool-cases (other === id)) [
    | inl same ↦
        let o : other ≡ id = str_eq→eq other id same in
        rw o (t.written ∙ ap (λ u. ok (some u)) e ∙ sym t.found)
    | inr apart ↦ t.others other (λ o. ground (arith, eq_iff other id))
  ]

  dry_stored :
      (u : User) (update : TokenUpdate)
      → dry_run ≡ true
      → stored env table ciphers laws rows dry_run u update ≡ u
  dry_stored u update dry = rw dry refl

  abbrev run : List String → Totals → World S → Totals × World S
  run ids t w = migrate_all env table dry_run ids t w

  dry_run-SameUsers :
      (ids : List String) (t : Totals) (w : World S)
      → dry_run ≡ true
      → SameUsers env (run ids t w).1.db w.db
  unfolding migrate_all
  dry_run-SameUsers [] t w dry id = refl
  dry_run-SameUsers (id ∷ ids) t w dry other =
      let v : World S = (turn id w).1 in
      let first : SameUsers env v.db w.db =
        elim (migrate_user-Turn env table ciphers laws rows dry_run id w) [
          | inr (e, r, same) ↦ same
          | inl (m, r, x) ↦ unmoved id m w.db v.db x (dry_stored x.user x.update dry)
        ] in
      dry_run-SameUsers ids (counted (turn id w).0 t) v dry other ∙ first other

module _ {S : Type 0} (env : Env S) (table : TokenTable S) (ciphers : CipherLaws env)
    (laws : TransactionLaws env) (rows : TokensWritten env table) where
  -- A dry run leaves every row of every user as it was, whatever it counts.
  pub migrate_all-dry :
      (ids : List String) (t : Totals) (w : World S)
      → SameUsers env (migrate_all env table true ids t w).1.db w.db
  migrate_all-dry ids t w = dry_run-SameUsers env table ciphers laws rows true ids t w refl
