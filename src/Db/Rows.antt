-- ===== src/Db/Rows.antt =====
-- The rows and tables: apps/api/src/db/rows.ts with the SQL of apps/api/src/db/migrations.ts, and
-- the types of packages/shared/src/vault.ts and key-entries.ts that the rows store.
-- Times that the code compares are written by `toISOString`, whose texts are ordered as the
-- milliseconds since the epoch are: they stand here as that number. Times of key entries and of
-- activity are never compared, and are texts. A column that is `NULL` is `none`.
use key_page.Prelude.{ℕ, String, Option, List}

pub data KdfAlgorithm : Type 0 where
  argon2id pbkdf2_sha256 : KdfAlgorithm

-- the kdf_* columns, and KdfParams
pub record KdfParams : Type 0 where
  pub algorithm : KdfAlgorithm
  pub salt_b64 : String
  pub iterations : ℕ
  pub memory_kib : Option ℕ
  pub parallelism : Option ℕ

pub record VaultAuthRow : Type 0 where
  pub kdf : KdfParams
  pub auth_verifier : String
  pub auth_stored_key : Option String
  pub recovery_stored_key : Option String
  pub key_version : ℕ
  pub created_at : ℕ
  pub updated_at : ℕ

pub record RecoveryCodeRow : Type 0 where
  pub id : String
  pub label : String
  pub lookup_hash : String
  pub kdf : KdfParams
  pub wrapped_master_key : String
  pub key_version : ℕ
  pub created_at : ℕ
  pub used_at : Option ℕ

pub record SessionRow : Type 0 where
  pub id : String
  pub token_hash : String
  pub created_at : ℕ
  pub last_seen_at : ℕ
  pub absolute_expires_at : ℕ
  pub revoked_at : Option ℕ
  pub user_agent : Option String
  pub ip : Option String

pub record RecoveryTicketRow : Type 0 where
  pub id : String
  pub token_hash : String
  pub recovery_code_id : String
  pub created_at : ℕ
  pub expires_at : ℕ
  pub consumed_at : Option ℕ
  pub challenge_nonce : Option String

pub data ChallengePurpose : Type 0 where
  login key_write : ChallengePurpose

pub record LoginChallengeRow : Type 0 where
  pub id : String
  pub nonce_b64 : String
  pub created_at : ℕ
  pub expires_at : ℕ
  pub purpose : ChallengePurpose

pub data ThrottleScope : Type 0 where
  login recovery : ThrottleScope

pub record AuthThrottleRow : Type 0 where
  pub failed_count : ℕ
  pub first_failed_at : Option ℕ
  pub last_failed_at : Option ℕ
  pub locked_until : Option ℕ
  pub lockout_count : ℕ

-- KeyEntryCipherPayload; its `algorithm` has the one value aes-256-gcm
pub record CipherPayload : Type 0 where
  pub iv_b64 : String
  pub ciphertext_b64 : String

-- `sort_order` is an integer: `pos n` is n, `negsuc n` is -(n + 1)
pub data ℤ : Type 0 where
  pos : ℕ → ℤ
  negsuc : ℕ → ℤ

-- `tags_json` holds the tags as JSON; the row stands here with the tags themselves
pub record KeyEntryRow : Type 0 where
  pub id : String
  pub label : String
  pub service_id : String
  pub custom_service_name : Option String
  pub description : Option String
  pub tags : List String
  pub cipher : CipherPayload
  pub key_version : ℕ
  pub created_at : String
  pub updated_at : String
  pub last_used_at : Option String
  pub sort_order : ℤ

pub data ActivityAction : Type 0 where
  created edited deleted revealed copied : ActivityAction

pub record ActivityEventRow : Type 0 where
  pub id : String
  pub key_entry_id : String
  pub action : ActivityAction
  pub occurred_at : String

-- `vault_auth` has at most the one row with id 1, and `auth_throttle` one row for each scope, which
-- the first migration inserts and nothing deletes.
pub record Db : Type 0 where
  pub vault_auth : Option VaultAuthRow
  pub recovery_codes : List RecoveryCodeRow
  pub sessions : List SessionRow
  pub recovery_tickets : List RecoveryTicketRow
  pub login_challenges : List LoginChallengeRow
  pub login_throttle : AuthThrottleRow
  pub recovery_throttle : AuthThrottleRow
  pub key_entries : List KeyEntryRow
  pub activity_events : List ActivityEventRow
