-- ===== src/Lib.antt =====
-- KeyPage: a self-hosted vault for API keys. The browser encrypts every key entry under a master key
-- that the server never sees; the server keeps ciphertexts, recovery codes and sessions in SQLite.
-- This library models the server's core, the texts that both sides check, the proofs by which a
-- browser shows that it knows a secret, and the parts of the browser that keep and replace keys.
--
-- Parts, and the files that model them:
-- - Http: the errors of apps/api/src/errors.ts.
-- - Db: the rows and tables of apps/api/src/db/rows.ts and migrations.ts (Db/Rows), and actions on
--   them (Db/Action): an action takes the database and gives a result, a value or a thrown error,
--   beside the database that it leaves, since what was written before a throw stays written. A
--   transaction undoes its writes when its body throws. Tables: SELECT, UPDATE, DELETE and COUNT on
--   lists of rows. Db/Ensures has the rules for what holds after an action that returned, Db/Leaves
--   for what holds however it ended, Db/Laws for what it keeps.
-- - Auth: apps/api/src/auth. Throttle (throttle.ts), Sessions (sessions.ts, with
--   plugins/require-session.ts and db/housekeeping.ts), Challenges (login-challenges.ts), SetupToken
--   (setup-token.ts), and
--   vault-repo.ts in three files: Vault (setup, codes, tickets), Claim (claimRecoveryCode,
--   cancelRecoveryTicket) and Rotation (rotateVaultMaterial and its callers).
-- - Keys: apps/api/src/keys/key-entry-repo.ts and activity-repo.ts (Keys/Repo), with the order of
--   entries (Keys/Order).
-- - Settings: apps/api/src/settings.ts and routes/settings.ts.
-- - Shared: packages/shared/src: auth-proof.ts, its bytes (Shared/Bytes) and proofs (Shared/Proof),
--   key-entry-fields.ts with service-catalog.ts (Shared/Fields), and recovery-code.ts
--   (Shared/RecoveryCode, with the input of apps/web/src/lib/format.ts).
-- - Routes: the handlers of apps/api/src/routes/vault.ts (Login, Setup, Rekey, and Vault for the
--   others) and of routes/key-entries.ts (Entries, and Bodies for those with entry fields, whose
--   transactions are in Writes). They ask for proofs (Proof, with
--   apps/api/src/keys/key-write-proof.ts) and check texts (Request, with
--   apps/api/src/auth/vault-request.ts), key derivations (Kdf, auth/kdf-params.ts) and entries
--   (Validate, keys/validate.ts); Routes/Checks has lemmas on what the checks write.
-- - Web: apps/web/src. routes/guards.ts with the paths of router.tsx (Guards), lib/key-entry-order.ts
--   (EntryOrder, Moves), lib/key-entry-filter.ts (Filter), vault/recovery-session.ts (RecoverySession),
--   vault/client-rekey.ts (Rekey), vault/keyEntryOperations.ts with vault/key-version-pin.ts
--   (Operations, whose requests, ciphers and clipboard are parameters).
-- - Integrity: coherence of the vault, and the states that the server reaches (Reachable).
-- - Tests: concrete runs.
--
-- How the code is rendered. Functions keep their names in snake_case. A request's random values
-- (ids, tokens, nonces) and the clock are arguments; a call of several operations reads the clock
-- once. Times that are compared are milliseconds as natural numbers, and `toISOString` texts are
-- ordered the same way; subtraction stops at 0: the code's differences of times go below only
-- when the clock runs backwards, and its attempts that remain only where the configured maximum
-- rounds to 0. SQLite's ORDER BY is an insertion sort by the columns that the statement names. An
-- INSERT checks its PRIMARY KEY and UNIQUE columns and throws; a deleted recovery code takes its
-- tickets along (ON DELETE CASCADE). SHA-256, HMAC, UTF-8, base64 and the case of letters are
-- parameters: of the hashes it is used that they give 32 bytes, and of `trim` that a trimmed text
-- stays as it is. The idle timeout and the limits of the throttle are arguments of the handlers,
-- and so is the lifetime of a session, in whole hours, which the code reads from the environment
-- also as a fraction. The setup is one step, although its handler awaits the removal of the token
-- between the vault and the session, where another request may come in. A number of a request's
-- body is whole. In the browser a key is a number that stands for its array of bytes, so that two
-- names of one array are seen to be the same. All recursion is structural; only the redirects of
-- the browser's routes are followed for a number of hops, of which two are enough.
--
-- Not modelled: HTTP, cookies and headers beyond the proof's, the schemas that Fastify checks before a
-- handler and the origin of a request, enrollment of legacy vaults, failures of the file system,
-- running the migrations, the calls of WebCrypto and argon2 with the backup format, the React
-- components, the other state of the browser (the cached entries, the stored keys and the
-- master password, the clipboard), and the scripts.
pub mod Prelude
pub mod Tables
pub mod Http
pub mod Db
pub mod Auth
pub mod Keys
pub mod Settings
pub mod Shared
pub mod Routes
pub mod Integrity
pub mod Web
pub mod Tests
