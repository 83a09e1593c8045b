-- ===== src/Lib.antt =====
-- A model of af-auth, a service that signs users in with GitHub, issues JWTs to those on a whitelist,
-- and hands their GitHub tokens to registered services. Paths are from the repository's root.
--
-- The parts and where they are modelled:
--   * src/config/index.ts: Config/Expiry, the lifetime of a token, Config/Secrets, the loading of
--     the keys when the program starts, and Config/Settings, that of all settings. Those that the
--     effectful parts read are the record `Config` of Env.
--   * prisma/schema.prisma and the packages and services outside the repository (Prisma, Redis,
--     jsonwebtoken, bcrypt, node's crypto, GitHub): the record `Env`, functions on an abstract state
--     `S` that the definitions take as a parameter. Env/Laws, GithubOauth/Single and KeyRotation state
--     what the theorems assume of them, and Tests/Laws shows it of a small state.
--   * src/db/index.ts, the client's connection with retries: Database.
--   * src/services/jwt.ts: Jwt. `signJWT` is `sign_jwt`, `verifyJWT` is `verify_jwt`, and so on: every
--     function has the source's name in lower case with underscores.
--   * src/services/token-revocation.ts: Revocation; src/middleware/jwt-auth.ts: JwtAuth, which calls
--     both; src/routes/jwt.ts: JwtRoutes, the endpoints over them.
--   * src/services/service-registry.ts: ServiceRegistry; src/utils/encryption.ts: Encryption;
--     src/services/github-oauth.ts: GithubOauth; src/routes/github-token.ts: GithubToken, which
--     authenticates with the first, decrypts with the second and refreshes with the third.
--   * src/services/key-rotation.ts: KeyRotation; src/services/health-check.ts: HealthCheck;
--     src/middleware/validation.ts, the sanitising and the validation of a body: Validation;
--     src/utils/logger.ts, the redaction of what is logged: Logger, with its hook and serializers in
--     Logger/Entries.
--   * src/services/metrics.ts, the registry with its collectors: Metrics/Registry;
--     src/routes/metrics.ts, the endpoint with the metrics: Metrics.
--   * src/services/redis-client.ts, the client and its retries: RedisClient;
--     src/middleware/rate-limit.ts, the limiters, which get that client and tell the metrics: RateLimit.
--   * src/server.ts, the probes and the start: Server, and the shutdown: Server/Shutdown.
--   * src/routes/auth.ts: AuthRoutes, the login: it validates the state, calls GitHub, encrypts and
--     stores the tokens, and issues a JWT to a whitelisted user.
--   * src/middleware/security-headers.ts and src/middleware/csp-nonce.ts, the headers of every
--     response: SecurityHeaders.
--   * scripts/: Scripts, with ManageServices (manage-services.ts, over ServiceRegistry), EncryptTokens
--     (migrate-encrypt-tokens.ts, over Encryption), CheckRotation (check-key-rotation.ts, over
--     KeyRotation) and CleanupTokens (cleanup-revoked-tokens.ts, over Revocation). What a script prints
--     is a value, and `process.exit` ends it.
--
-- An asynchronous function is an `Eff` (Base/Eff): it takes the world and returns a result or a throw
-- together with the changed world, so what was written before a throw stays written. The world holds
-- the outside state, the readings of the clock, the random texts, the counted metrics and the cache
-- of derived keys. A `try` is `try_catch`. A long handler is cut at its early returns into functions
-- that stand for the rest of it, such as `serve_user` for the part of the GitHub token endpoint after
-- the user was looked up. Concurrency is modelled where the code relies on it: GithubOauth/Race has
-- the interleavings of the Redis commands of several callbacks as a step relation, GithubToken/Race
-- those of several refreshes of one user's token, and Server/Shutdown those of several signals, the
-- closing of the server and the timers. GithubToken/Race takes GitHub's refresh tokens as its
-- documentation has them: each is taken once, and the answer has the next one.
--
-- Times are natural numbers of milliseconds, differences are integers (Base/Int), and texts are
-- sequences of characters. The changes of case are those of the Latin letters, and `parse_int` reads
-- whole numbers of any size. Recursions are structural (the attempts of Database count down); the
-- one on fuel, `show` (a number in decimal), has more fuel than the number has digits.
--
-- Not modelled: the calls of the logger and the set-up of pino, the schemas given to zod, the
-- mounting of the routes in src/server.ts, and the markup of the pages. They print, render, or set up packages. Texts
-- that only print are left out, and so are the messages of most answers.
pub mod Base
pub mod Config
pub mod Env
pub mod Database
pub mod Metrics
pub mod Jwt
pub mod Revocation
pub mod JwtAuth
pub mod ServiceRegistry
pub mod Encryption
pub mod GithubOauth
pub mod GithubToken
pub mod AuthRoutes
pub mod JwtRoutes
pub mod HealthCheck
pub mod KeyRotation
pub mod Logger
pub mod Validation
pub mod SecurityHeaders
pub mod RedisClient
pub mod RateLimit
pub mod Server
pub mod Scripts
pub mod Tests
