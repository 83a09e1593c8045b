-- ===== src/Tests/Laws.antt =====
-- The small state's operations behave as the theorems ask.
use af_auth.Base.{
  Lacks, subst, Option-cases, ℕ, ◌≤◌, String, ◌≡◌, ◌≢◌, refl, ap, Bool, false, Option, none, some,
  List, [], ◌∷◌, ◌===◌, leb, keep, arith, eq_iff, eq_refl, inl, inr, Bool-cases, ◌+++◌,
}
use af_auth.Base.Eff.{ok}
use af_auth.Config.Expiry.{parse_jwt_expires_in_to_seconds, match_expiry}
use af_auth.Env.{RevokedToken, Service, RedisReply, null, text, number}
use af_auth.Env.Laws.{
  CreateFound, ClaimsFixed, ExpiryRespected, DeletesExpired, SignVerified, ServicesWritten,
  HashMatches, CipherLaws,
}
use af_auth.GithubOauth.Single.{PipelineLaws, StoredState}
use af_auth.Tests.Codec.{
  escape, unescape-escape, escape-Lacks, decode_state-encode_state, encode_state-nonempty,
}
use af_auth.Tests.Db.{Db, env, find_revoked_in, take_pending}

pub creates : CreateFound env
creates = record { create_found = λ row s. inr (λ h. ground (arith, eq_refl row.jti)) }

pub fixes_claims : ClaimsFixed env
fixes_claims = record { claims_fixed = λ token t t' c c' h h'. ground arith }

pub respects_expiry : ExpiryRespected env
respects_expiry = record { expiry_respected = λ token t exp c h e. ground arith }

pub hashes : HashMatches env
hashes = record {
  hash_matches = λ key hashed rounds s h. ground (arith, eq_refl ("hash " +++ key));
}

seal_lem :
    (key iv plain sealed tag : String)
    → env.seal key iv plain ≡ ok (sealed, tag)
    → escape plain ≡ sealed
seal_lem key iv plain sealed tag h = ground arith

pub ciphers : CipherLaws env
ciphers = record {
  base64_back = unescape-escape;
  base64_lacks = escape-Lacks;
  sealed_lacks = λ key iv plain sealed tag h.
      subst (Lacks b':') (seal_lem key iv plain sealed tag h) (escape-Lacks plain);
  unseal_back = λ key iv plain sealed tag h.
      subst (λ x. env.unseal key iv tag x ≡ ok plain) (seal_lem key iv plain sealed tag h)
        (ap ok (unescape-escape plain));
}

kept_row :
    (cutoff : ℕ) (jti : String) (row : RevokedToken) (l : List RevokedToken)
    → find_revoked_in jti l ≡ some row
    → cutoff ≤ row.token_expires_at
    → find_revoked_in jti (keep (λ (r : RevokedToken). leb cutoff r.token_expires_at) l) ≢ none
kept_row cutoff jti row [] h late = ground arith
kept_row cutoff jti row (r ∷ rs) h late = elim (Bool-cases (r.jti === jti)) [
  | inl e ↦ λ gone. ground (arith, e)
  | inr e ↦ λ gone. elim (Bool-cases (leb cutoff r.token_expires_at)) [
    | inl k ↦ kept_row cutoff jti row rs (ground (arith, e)) late (ground (arith, e, k))
    | inr k ↦ kept_row cutoff jti row rs (ground (arith, e)) late (ground (arith, e, k))
  ]
]

pub deletes : DeletesExpired env
deletes = record {
  keeps_row = λ cutoff jti row s h late gone.
      kept_row cutoff jti row s.revoked (ground arith) late (ground arith);
  counts_deleted = λ cutoff n s h. h;
}

pub parsed_hour : parse_jwt_expires_in_to_seconds "1h" ≡ ok 3600
unfolding parse_jwt_expires_in_to_seconds match_expiry
parsed_hour = refl

pub signs : SignVerified env
signs = record {
  sign_verified = λ p t t' seconds token h parsed i a before still. ground (
    arith,
    parsed_hour,
    eq_iff token "signed",
    eq_iff p.sub "alice",
    eq_iff p.github_id "7",
    eq_iff p.jti "r0",
    eq_iff p.iss "iss",
    eq_iff p.aud "aud",
  );
}

active_lem :
    (identifier : String) (b : Bool) (row found : Service) (s : Db)
    → (env.set_active identifier b s).0 ≡ ok row
    → env.find_service identifier (env.set_active identifier b s).1 ≡ ok (some found)
    → found.is_active ≡ b
active_lem identifier b row found s h f = elim (Option-cases s.service) [
  | inl e ↦ absurd (ground arith)
  | inr (r, e) ↦ elim (Bool-cases (r.service_identifier === identifier)) [
    | inl same ↦ ground arith
    | inr other ↦ absurd (ground arith)
  ]
]

key_lem :
    (identifier hashed : String) (t : ℕ) (row found : Service) (s : Db)
    → (env.set_api_key identifier hashed t s).0 ≡ ok row
    → env.find_service identifier (env.set_api_key identifier hashed t s).1 ≡ ok (some found)
    → found.hashed_api_key ≡ hashed
key_lem identifier hashed t row found s h f = elim (Option-cases s.service) [
  | inl e ↦ absurd (ground arith)
  | inr (r, e) ↦ elim (Bool-cases (r.service_identifier === identifier)) [
    | inl same ↦ ground arith
    | inr other ↦ absurd (ground arith)
  ]
]

deleted_lem :
    (identifier : String) (row found : Service) (s : Db)
    → (env.delete_service identifier s).0 ≡ ok row
    → env.find_service identifier (env.delete_service identifier s).1 ≢ ok (some found)
deleted_lem identifier row found s h f = elim (Option-cases s.service) [
  | inl e ↦ ground arith
  | inr (r, e) ↦ elim (Bool-cases (r.service_identifier === identifier)) [
    | inl same ↦ ground arith
    | inr other ↦ ground arith
  ]
]

pub services_written : ServicesWritten env
services_written = record {
  active_written = λ identifier b row found s h f. active_lem identifier b row found s h f;
  key_written = λ identifier hashed t row found s h f. key_lem identifier hashed t row found s h f;
  row_deleted = λ identifier row found s h f. deleted_lem identifier row found s h f;
}

take_two :
    (key : String) (o : Option (String × String)) (s : Db)
    → (g : RedisReply) × (d : RedisReply) × ((take_pending key o s).0 ≡ some (g ∷ d ∷ []))
take_two key none s = (_, _, refl)
take_two key (some (k, v)) s = elim (Bool-cases (k === key)) [
  | inl e ↦ (
    record { failed = false; value = text v },
    record { failed = false; value = number 1 },
    rw e refl,
  )
  | inr e ↦ (
    record { failed = false; value = null },
    record { failed = false; value = number 0 },
    rw e refl,
  )
]

gone_lem :
    (key : String) (g d g' d' : RedisReply) (s : Db)
    → (env.redis_get_del key s).0 ≡ ok (some (g ∷ d ∷ []))
    → (env.redis_get_del key (env.redis_get_del key s).1).0 ≡ ok (some (g' ∷ d' ∷ []))
    → g'.value ≡ null
gone_lem key g d g' d' s h again = elim (Option-cases s.pending) [
  | inl e ↦ ground arith
  | inr ((k, v), e) ↦ elim (Bool-cases (k === key)) [
    | inl same ↦ ground arith
    | inr other ↦ ground arith
  ]
]

pub pipelines : PipelineLaws env
pipelines = record {
  two_results = λ key l s h. let (g, d, e) = take_two key s.pending s in (g, d, ground (arith, e));
  deleted = λ key g d g' d' s h fine again. inr (gone_lem key g d g' d' s h again);
}

pub stores_states : StoredState env
stores_states = record {
  stored = λ key value ttl s h. ground (arith, eq_refl key);
  parsed = decode_state-encode_state;
  nonempty = encode_state-nonempty;
}
