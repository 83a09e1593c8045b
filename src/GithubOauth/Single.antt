-- ===== src/GithubOauth/Single.antt =====
-- A state token is good for one use, and only for a while.
use af_auth.Base.{
  ℕ, suc, ◌+◌, ◌*◌, ◌≤◌, String, ◌≡◌, ◌≢◌, ◌↔◌, refl, ap, subst, ◌∙◌, true, false, Option, none,
  some, List, [], ◌∷◌, arith, ◌⊎◌, inl, inr, Option-cases, Bool-cases, ◌===◌, eq_iff,
}
use af_auth.Base.Eff.{ok, err, World, Result-cases, Thrown}
use af_auth.Env.{Env, OauthState, RedisReply, null, text, number}
use af_auth.GithubOauth.{
  or_random, usable, usable_of, state_key, validate_state, generate_state, read_state, check_age,
}

-- Redis: a pipeline of two commands has two results, and after a `del` that went through, `get` finds
-- nothing.
pub record PipelineLaws {S : Type 0} (env : Env S) : Type 0 where
  pub two_results :
      (key : String) (l : List RedisReply) (s : S)
      → (env.redis_get_del key s).0 ≡ ok (some l)
      → (g : RedisReply) × (d : RedisReply) × (l ≡ g ∷ d ∷ [])
  pub deleted :
      (key : String) (g d g' d' : RedisReply) (s : S)
      → (env.redis_get_del key s).0 ≡ ok (some (g ∷ d ∷ []))
      → d.failed ≡ false
      → (env.redis_get_del key (env.redis_get_del key s).1).0 ≡ ok (some (g' ∷ d' ∷ []))
      → (g'.failed ≡ true) ⊎ (g'.value ≡ null)

-- The replies to a pipeline on a key that holds a text.
abbrev pub stored_replies : String → Option (List RedisReply)
stored_replies value = some (
    record { failed = false; value = text value }
    ∷ record { failed = false; value = number 1 }
    ∷ [])

-- Redis and JSON: a text that was just stored is read back and deleted, and parses to what was
-- written.
pub record StoredState {S : Type 0} (env : Env S) : Type 0 where
  pub stored :
      (key value : String) (ttl : ℕ) (s : S)
      → (env.redis_setex key ttl value s).0 ≡ ok tt
      → (env.redis_get_del key (env.redis_setex key ttl value s).1).0 ≡ ok (stored_replies value)
  pub parsed : (d : OauthState) → env.from_json (env.to_json d) ≡ ok d
  pub nonempty : (d : OauthState) → env.to_json d ≢ ""

module _ {S : Type 0} (env : Env S) where
  -- What a call must meet in order to accept a state as `d`.
  pub record Accepts (state : String) (w : World S) (d : OauthState) : Type 0 where
    pub replies : Option (List RedisReply)
    pub returned : (env.redis_get_del (state_key state) w.db).0 ≡ ok replies
    pub content : String
    pub allowed : usable_of replies ≡ some content
    pub parses : env.from_json content ≡ ok d
    pub fresh : w.clock w.reads ≤ d.timestamp + env.config.state_ttl_seconds * 1000

  pub validate_state_iff :
      (state : String) (w : World S) (d : OauthState)
      → ((validate_state env state w).0 ≡ ok (some d)) ↔ Accepts state w d
  unfolding validate_state read_state check_age
  validate_state_iff state w d = (
    (λ h. elim (Result-cases (env.redis_get_del (state_key state) w.db).0) [
      | inl (replies, e) ↦ elim (Option-cases (usable_of replies)) [
        | inr (content, u) ↦ record {
          replies = replies;
          returned = e;
          content = content;
          allowed = u;
          parses = ground arith;
          fresh = ground arith;
        }
        | inl u ↦ absurd (ground arith)
      ]
      | inr (x, e) ↦ absurd (ground arith)
    ]),
    λ a. ground (arith, a.returned, a.allowed, a.parses, a.fresh),
  )

  -- It never throws: every failure is the answer null.
  pub validate_state_total :
      (state : String) (w : World S) (e : Thrown) → (validate_state env state w).0 ≢ err e
  unfolding validate_state read_state check_age
  validate_state_total state w e = ground arith

  validate-db :
      (state : String) (w : World S)
      → (validate_state env state w).1.db ≡ (env.redis_get_del (state_key state) w.db).1
  unfolding validate_state read_state check_age
  validate-db state w = ground arith

  -- An accepted reply is a pair of which the deletion did not fail and the value was there.
  accepted_pair :
      PipelineLaws env
      → (state : String) (w : World S) (d : OauthState) → Accepts state w d
      → (g : RedisReply) × (r : RedisReply) × ((env.redis_get_del (state_key state) w.db).0
          ≡ ok (some (g ∷ r ∷ [])))
        × (r.failed ≡ false)
        × (g.failed ≡ false)
        × (g.value ≢ null)
  unfolding usable
  accepted_pair laws state w d a = elim (Option-cases a.replies) [
    | inl e ↦ absurd (ground (arith, a.allowed, e))
    | inr (l, e) ↦
        let (g, r, two) = laws.two_results (state_key state) l w.db (a.returned ∙ ap ok e) in
        (
          g,
          r,
          ground (arith, a.returned, e, two),
          ground (arith, a.allowed, e, two),
          ground (arith, a.allowed, e, two),
          λ p. ground (arith, a.allowed, e, two),
        )
  ]

  -- Once a state was accepted, the next call with it, on Redis as the first call left it, is not.
  pub validate_state_once :
      PipelineLaws env
      → (state : String) (w w' : World S) (d d' : OauthState)
      → (validate_state env state w).0 ≡ ok (some d)
      → w'.db ≡ (validate_state env state w).1.db
      → (validate_state env state w').0 ≢ ok (some d')
  validate_state_once laws state w w' d d' h same again =
      let (g, r, e, deleted, _, _) =
        accepted_pair laws state w d ((validate_state_iff state w d).0 h) in
      let (g', r', e', _, fine, there) =
        accepted_pair laws state w' d' ((validate_state_iff state w' d').0 again) in
      let after : (env.redis_get_del (state_key state)
            (env.redis_get_del (state_key state) w.db).1).0
          ≡ ok (some (g' ∷ r' ∷ [])) =
        subst (λ s. (env.redis_get_del (state_key state) s).0 ≡ ok (some (g' ∷ r' ∷ [])))
          (same ∙ validate-db state w) e' in
      elim (laws.deleted (state_key state) g r g' r' w.db e deleted after) [
        | inl failed ↦ ground (arith, fine)
        | inr gone ↦ there gone
      ]

  or_random_lem :
      (request_id : Option String) (w : World S)
      → (id : String) × (w' : World S) × (or_random env request_id w ≡ (ok id, w'))
        × (w'.db ≡ w.db)
        × (w'.clock ≡ w.clock)
        × (w'.reads ≡ w.reads)
  or_random_lem none w = (_, _, refl, refl, refl, refl)
  or_random_lem (some s) w = elim (Bool-cases (s === "")) [
    | inl e ↦ (w.random w.drawn, record w { drawn = suc w.drawn }, rw e, refl, refl, refl)
    | inr e ↦ (s, w, rw e, refl, refl, refl)
  ]

  usable_stored :
      StoredState env
      → (d : OauthState)
      → usable
          (record { failed = false; value = text (env.to_json d) })
          (record { failed = false; value = number 1 })
        ≡ some (env.to_json d)
  unfolding usable
  usable_stored laws d = ground (arith, laws.nonempty d, eq_iff (env.to_json d) "")

  -- A state that was just generated is accepted by the next call, while it lasts, with the time at
  -- which it was made.
  pub validate_state-generate_state :
      StoredState env
      → (request_id : Option String) (state : String) (w v : World S)
      → (generate_state env request_id w).0 ≡ ok state
      → v.db ≡ (generate_state env request_id w).1.db
      → v.clock v.reads ≤ w.clock w.reads + env.config.state_ttl_seconds * 1000
      → (id : String) × ((validate_state env state v).0
          ≡ ok (some (record { state = state; timestamp = w.clock w.reads; request_id = id })))
  unfolding generate_state
  validate_state-generate_state laws request_id state w v h same before =
      let (id, w', e, db, clock, reads) =
        or_random_lem request_id (record w { drawn = suc w.drawn }) in
      let d : OauthState = record {
        state = w.random w.drawn;
        timestamp = w.clock w.reads;
        request_id = id;
      } in
      elim (Result-cases
        (env.redis_setex (state_key (w.random w.drawn)) env.config.state_ttl_seconds (env.to_json d)
          w.db).0) [
            | inl (u, f) ↦
                let is : state ≡ w.random w.drawn = ground (arith, e, db, clock, reads, f) in
                let left : v.db
                    ≡ (env.redis_setex (state_key (w.random w.drawn)) env.config.state_ttl_seconds
                        (env.to_json d) w.db).1 =
                  ground (arith, e, db, clock, reads, f) in
                (
                  id,
                  rw is (
                      (validate_state_iff (w.random w.drawn) v d).1 (record {
                        replies = stored_replies (env.to_json d);
                        returned = rw left (
                            laws.stored (state_key (w.random w.drawn)) (env.to_json d)
                              env.config.state_ttl_seconds w.db f);
                        content = env.to_json d;
                        allowed = usable_stored laws d;
                        parses = laws.parsed d;
                        fresh = before;
                      })),
                )
            | inr (x, f) ↦ absurd (ground (arith, e, db, clock, reads, f))
          ]
