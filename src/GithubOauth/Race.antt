-- ===== src/GithubOauth/Race.antt =====
-- Several callbacks with one state at once: the `get` and the `del` of each pipeline are single
-- commands of Redis, and those of other clients may come between them.
use af_auth.Base.{ℕ, String, ◌≡◌, refl, false, Option, none, some, arith, ◌==◌, if◌then◌else◌}
use af_auth.Base.Steps.{Reach, here, next}
use af_auth.Env.{RedisValue, null, text, number, RedisReply}
use af_auth.GithubOauth.{usable}

-- Where a callback stands: before `get`, between the commands with what `get` returned, or done with
-- what the program may use.
pub data Phase : Type 0 where
  waiting : Phase
  got : RedisValue → Phase
  finished : Option String → Phase

-- The value at the state's key, and the callbacks by number.
pub record Race : Type 0 where
  pub key : Option String
  pub phase : ℕ → Phase

abbrev pub value_of : Option String → RedisValue
value_of none = null
value_of (some s) = text s

-- How many keys `del` removes.
abbrev pub removed : Option String → ℕ
removed none = 0
removed (some s) = 1

abbrev pub moved : (ℕ → Phase) → ℕ → Phase → ℕ → Phase
moved phase i p j = if j == i then p else phase j

abbrev pub replied : RedisValue → RedisReply
replied v = record { failed = false; value = v }

pub data Step : Race → Race → Type 0 where
  get :
      (r : Race) (i : ℕ)
      → r.phase i ≡ waiting
      → Step r (record r { phase = moved r.phase i (got (value_of r.key)) })
  del :
      (r : Race) (i : ℕ) (v : RedisValue)
      → r.phase i ≡ got v
      → Step r (record {
        key = none;
        phase = moved r.phase i (finished (usable (replied v) (replied (number (removed r.key)))));
      })

-- Whoever was accepted is alone, and has taken the key away.
pub record IsSingle (r : Race) : Type 0 where
  pub alone :
      (i j : ℕ) (s t : String)
      → r.phase i ≡ finished (some s)
      → r.phase j ≡ finished (some t)
      → i ≡ j
  pub taken : (i : ℕ) (s : String) → r.phase i ≡ finished (some s) → r.key ≡ none

Step-IsSingle : {r r' : Race} → Step r r' → IsSingle r → IsSingle r'
unfolding usable
Step-IsSingle (get r i e) h = record {
  alone = λ j k s t p q. ground (arith, h.alone j k s t);
  taken = λ j s p. ground (arith, h.taken j s);
}
Step-IsSingle (del r i v e) h = record {
  alone = λ j k s t p q. ground (arith, h.alone j k s t, h.taken j s, h.taken k t);
  taken = λ j s p. refl;
}

Reach-IsSingle : {r s : Race} → IsSingle r → Reach Step r s → IsSingle s
Reach-IsSingle h here = h
Reach-IsSingle h (next p st) = Step-IsSingle st (Reach-IsSingle h p)

-- From a state where no callback has begun, however the commands interleave, at most one callback is
-- accepted.
pub race_single :
    (start r : Race) (i j : ℕ) (s t : String)
    → ((k : ℕ) → start.phase k ≡ waiting)
    → Reach Step start r
    → r.phase i ≡ finished (some s)
    → r.phase j ≡ finished (some t)
    → i ≡ j
race_single start r i j s t fresh reach p q =
    (Reach-IsSingle
        (record {
          alone = λ i' j' s' t' p' q'. absurd (ground (arith, fresh i'));
          taken = λ i' s' p'. absurd (ground (arith, fresh i'));
        })
        reach).alone
      i j s t p q
