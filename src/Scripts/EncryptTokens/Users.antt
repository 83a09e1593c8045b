-- ===== src/Scripts/EncryptTokens/Users.antt =====
-- One user's transaction: what it leaves of the user's row, and of the others.
use af_auth.Base.{
  String, ◌≡◌, ◌≢◌, refl, sym, ap, ◌∙◌, false, Bool, none, some, arith, ◌⊎◌, inl, inr, Bool-cases,
  Option-cases, subst, ◌+++◌, ◌||◌, is_some, if◌then◌else◌,
}
use af_auth.Base.Eff.{
  Result, ok, err, Thrown, error, Eff, World, Result-cases, Lookup-cases, query, ◌>>=◌,
}
use af_auth.Env.{Env, User}
use af_auth.Env.Laws.{CipherLaws}
use af_auth.GithubToken.{transaction}
use af_auth.Scripts.EncryptTokens.{
  TokenTable, TokenUpdate, Migrated, migrate_token, migrate_found, migrate_user, write_changes,
}
use af_auth.Scripts.EncryptTokens.Tokens.{
  Outcome, next_column, migrate_token-Outcome, migrate_token-db,
}

-- A row with the columns of an update in it.
abbrev pub migrated : User → TokenUpdate → User
migrated u update = record u {
  github_access_token = next_column u.github_access_token update.access_token;
  github_refresh_token = next_column u.github_refresh_token update.refresh_token;
}

pub migrated_none :
    (u : User) (update : TokenUpdate)
    → is_some update.access_token || is_some update.refresh_token ≡ false
    → migrated u update ≡ u
migrated_none u update nothing = elim (Option-cases update.access_token) [
  | inr (a, e) ↦ absurd (ground arith)
  | inl e ↦ elim (Option-cases update.refresh_token) [
    | inr (b, f) ↦ absurd (ground arith)
    | inl f ↦ ground arith
  ]
]

module _ {S : Type 0} (env : Env S) where
  -- Every user is found alike in both databases.
  abbrev pub SameUsers : S → S → Type 0
  SameUsers s s' = (id : String) → env.find_user id s ≡ env.find_user id s'

  -- Prisma: a commit keeps the rows, and a rollback brings them back.
  pub record TransactionLaws : Type 0 where
    pub commit_keeps : (s : S) → SameUsers (env.commit s).1 s
    pub rollback_undoes : (before after : S) → SameUsers (env.rollback before after) before

  -- Prisma: a row is found by its own identifier, an update that returned sets the columns that it
  -- was given, and touches no other row.
  pub record TokensWritten (table : TokenTable S) : Type 0 where
    pub found_id : (id : String) (u : User) (s : S) → env.find_user id s ≡ ok (some u) → u.id ≡ id
    pub columns_written :
        (id : String) (update : TokenUpdate) (u row : User) (s : S)
        → env.find_user id s ≡ ok (some u)
        → (table.update_tokens id update s).0 ≡ ok row
        → env.find_user id (table.update_tokens id update s).1 ≡ ok (some (migrated u update))
    pub others_kept :
        (id other : String) (update : TokenUpdate) (s : S)
        → other ≢ id
        → env.find_user other (table.update_tokens id update s).1 ≡ env.find_user other s

module _ {S : Type 0} (env : Env S) (laws : TransactionLaws env) where
  abbrev Ends : {A : Type 0} → Result A × World S → World S → Result A → S → Type 0
  Ends {A} body w r s =
      ((a : A) × (r ≡ ok a) × (body.0 ≡ ok a) × SameUsers env s body.1.db)
      ⊎ ((e : Thrown) × (r ≡ err e) × SameUsers env s w.db)

  -- A transaction ends like its body, or throws with the users as they were.
  transaction-Ends :
      {A : Type 0} (body : Eff S A) (w : World S)
      → Ends (body w) w (transaction env body w).0 (transaction env body w).1.db
  unfolding transaction
  transaction-Ends body w =
      let v : World S = (body w).1 in
      let d : S = (transaction env body w).1.db in
      elim (Result-cases (body w).0) [
        | inr (e, f) ↦
            let undone : d ≡ env.rollback w.db v.db = ground arith in
            inr (
              e,
              ground arith,
              λ id. ap (env.find_user id) undone ∙ laws.rollback_undoes w.db v.db id,
            )
        | inl (a, f) ↦ elim (Result-cases (env.commit v.db).0) [
          | inl (u, g) ↦
              let done : d ≡ (env.commit v.db).1 = ground arith in
              inl (a, ground arith, f, λ id. ap (env.find_user id) done ∙ laws.commit_keeps v.db id)
          | inr (e, g) ↦
              let undone : d ≡ env.rollback w.db (env.commit v.db).1 = ground arith in
              inr (
                e,
                ground arith,
                λ id.
                    ap (env.find_user id) undone ∙ laws.rollback_undoes w.db (env.commit v.db).1 id,
              )
        ]
      ]

module _ {S : Type 0} (env : Env S) (table : TokenTable S) (ciphers : CipherLaws env)
    (laws : TransactionLaws env) (rows : TokensWritten env table) (dry_run : Bool) where
  -- What a turn makes of a row: nothing in a dry run.
  abbrev pub stored : User → TokenUpdate → User
  stored u update = if dry_run then u else migrated u update

  -- A turn that returns: each column was left alone for a reason or encrypted, the row holds the new
  -- columns unless the run is dry, the report says what was migrated, and no other row changed.
  pub record Turn (id : String) (m : Migrated) (s s' : S) : Type 0 where
    pub user : User
    pub update : TokenUpdate
    pub found : env.find_user id s ≡ ok (some user)
    pub access : Outcome env ciphers user.github_access_token update.access_token
    pub refresh : Outcome env ciphers user.github_refresh_token update.refresh_token
    pub written : env.find_user id s' ≡ ok (some (stored user update))
    pub access_reported : m.access_token_migrated ≡ is_some update.access_token
    pub refresh_reported : m.refresh_token_migrated ≡ is_some update.refresh_token
    pub others : (other : String) → other ≢ id → env.find_user other s' ≡ env.find_user other s

  pub stored_wet :
      (u : User) (update : TokenUpdate) → dry_run ≡ false → stored u update ≡ migrated u update
  stored_wet u update wet = rw wet refl

  abbrev Kept : String → User → TokenUpdate → World S → S → Type 0
  Kept id user update w s =
      (env.find_user id s ≡ ok (some (stored user update)))
      × ((other : String) → other ≢ id → env.find_user other s ≡ env.find_user other w.db)

  unchanged :
      (id : String) (user : User) (update : TokenUpdate) (w : World S)
      → env.find_user id w.db ≡ ok (some user)
      → (write_changes env table dry_run user update w).1.db ≡ w.db
      → stored user update ≡ user
      → Kept id user update w (write_changes env table dry_run user update w).1.db
  unchanged id user update w found d e = (
    ap (env.find_user id) d ∙ found ∙ ap (λ u. ok (some u)) (sym e),
    λ other apart. ap (env.find_user other) d,
  )

  write_changes-Stored :
      (id : String) (user : User) (update : TokenUpdate) (w : World S)
      → env.find_user id w.db ≡ ok (some user)
      → (write_changes env table dry_run user update w).0 ≡ ok tt
      → Kept id user update w (write_changes env table dry_run user update w).1.db
  unfolding write_changes
  write_changes-Stored id user update w found h =
      let s : S = (write_changes env table dry_run user update w).1.db in
      let own : user.id ≡ id = rows.found_id id user w.db found in
      elim (Bool-cases dry_run) [
        | inl dry ↦ unchanged id user update w found (ground arith) (ground arith)
        | inr wet ↦
            elim (Bool-cases (is_some update.access_token || is_some update.refresh_token)) [
              | inr nothing ↦
                  unchanged id user update w found (ground arith)
                    (ground (arith, migrated_none user update nothing))
              | inl changed ↦ elim (Result-cases (table.update_tokens user.id update w.db).0) [
                | inr (x, e) ↦ absurd (ground arith)
                | inl (row, e) ↦
                    let wrote : s ≡ (table.update_tokens user.id update w.db).1 = ground arith in
                    let d : s ≡ (table.update_tokens id update w.db).1 =
                      wrote ∙ ap (λ i. (table.update_tokens i update w.db).1) own in
                    (
                      ap (env.find_user id) d
                          ∙ rows.columns_written id update user row w.db found
                              (subst (λ i. (table.update_tokens i update w.db).0 ≡ ok row) own e)
                          ∙ ap (λ u. ok (some u)) (sym (stored_wet user update wet)),
                      λ other apart.
                          ap (env.find_user other) d ∙ rows.others_kept id other update w.db apart,
                    )
              ]
            ]
      ]

  found-Turn :
      (id : String) (user : User) (m : Migrated) (w : World S)
      → env.find_user id w.db ≡ ok (some user)
      → (migrate_found env table dry_run id (some user) w).0 ≡ ok m
      → Turn id m w.db (migrate_found env table dry_run id (some user) w).1.db
  unfolding migrate_found
  found-Turn id user m w found h =
      let v : World S =
        (migrate_token env user.github_access_token "Access token encryption validation failed"
          w).1 in
      elim (Result-cases
        (migrate_token env user.github_access_token "Access token encryption validation failed"
          w).0) [
            | inr (x, e) ↦ absurd (ground arith)
            | inl (a, e) ↦
                let x : World S =
                  (migrate_token env user.github_refresh_token
                    "Refresh token encryption validation failed" v).1 in
                elim (Result-cases
                  (migrate_token env user.github_refresh_token
                    "Refresh token encryption validation failed" v).0) [
                      | inr (y, f) ↦ absurd (ground arith)
                      | inl (b, f) ↦
                          let update : TokenUpdate = record {
                            access_token = a;
                            refresh_token = b;
                          } in
                          let same : x.db ≡ w.db =
                            migrate_token-db env ciphers user.github_refresh_token _ v
                            ∙ migrate_token-db env ciphers user.github_access_token _ w in
                          elim (Result-cases (write_changes env table dry_run user update x).0) [
                            | inr (y, g) ↦ absurd (ground arith)
                            | inl (u, g) ↦
                                let (after, others) =
                                  write_changes-Stored id user update x
                                    (ap (env.find_user id) same ∙ found) g in
                                let d : (migrate_found env table dry_run id (some user) w).1.db
                                    ≡ (write_changes env table dry_run user update x).1.db =
                                  ground arith in
                                record {
                                  user = user;
                                  update = update;
                                  found = found;
                                  access =
                                      migrate_token-Outcome env ciphers user.github_access_token _ a
                                        w e;
                                  refresh =
                                      migrate_token-Outcome env ciphers user.github_refresh_token _
                                        b v f;
                                  written = ap (env.find_user id) d ∙ after;
                                  access_reported = ground arith;
                                  refresh_reported = ground arith;
                                  others = λ other apart.
                                      ap (env.find_user other) d
                                      ∙ others other apart
                                      ∙ ap (env.find_user other) same;
                                }
                          ]
                    ]
          ]

  migrate_found-none :
      (id : String) (w : World S)
      → (migrate_found env table dry_run id none w).0
        ≡ err (error ("User " +++ id +++ " not found in transaction"))
  unfolding migrate_found
  migrate_found-none id w = refl

  Turn-moved :
      (id : String) (m : Migrated) (s s' s'' : S)
      → Turn id m s s'
      → SameUsers env s'' s'
      → Turn id m s s''
  Turn-moved id m s s' s'' t same = record {
    user = t.user;
    update = t.update;
    found = t.found;
    access = t.access;
    refresh = t.refresh;
    written = same id ∙ t.written;
    access_reported = t.access_reported;
    refresh_reported = t.refresh_reported;
    others = λ other apart. same other ∙ t.others other apart;
  }

  abbrev looked_up : String → Eff S Migrated
  looked_up id = query (env.find_user id) >>= migrate_found env table dry_run id

  -- A user's turn ends as `Turn` says, or throws and leaves every row as it was.
  pub migrate_user-Turn :
      (id : String) (w : World S)
      → ((m : Migrated) × ((migrate_user env table dry_run id w).0 ≡ ok m)
          × Turn id m w.db (migrate_user env table dry_run id w).1.db)
        ⊎ ((e : Thrown) × ((migrate_user env table dry_run id w).0 ≡ err e)
            × SameUsers env (migrate_user env table dry_run id w).1.db w.db)
  unfolding migrate_user
  migrate_user-Turn id w = elim (transaction-Ends env laws (looked_up id) w) [
    | inr (e, r, same) ↦ inr (e, r, same)
    | inl (m, r, body, same) ↦ elim (Lookup-cases (env.find_user id w.db)) [
      | inl (user, found) ↦
          let v : World S = (migrate_found env table dry_run id (some user) w).1 in
          let turn = found-Turn id user m w found (ground arith) in
          let d : (looked_up id w).1.db ≡ v.db = ground arith in
          inl (m, r, Turn-moved id m w.db v.db _ turn (λ i. same i ∙ ap (env.find_user i) d))
      | inr (inl missing) ↦ absurd (ground (arith, migrate_found-none id w))
      | inr (inr (e, failed)) ↦ absurd (ground arith)
    ]
  ]
