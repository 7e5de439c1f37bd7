-- ===== src/ApiKeys.antt =====
-- API keys, under apps/api/src/aether: app/auth/api_keys.py and app/api_keys over the table of
-- adapters/postgres/api_key_repository.py. SHA-256 and the random texts come from libraries: `hash`
-- is a parameter, and the random prefix and secret are arguments.
pub mod Issued
pub mod Revoked
use aether_ai_workspace.Base.{
  ℕ, zero, suc, ◌+◌, ◌*◌, Bool, true, false, not, ◌&&◌, ◌||◌, Option, none, some, List, [], ◌∷◌,
  ◌++◌, Text, codes, text_eq, starts_with, ◌==◌, leb, ltb, is_none, is_some, if◌then◌else◌, length,
  take,
}
use mathlib.Core.List.{reverse}
use aether_ai_workspace.Domain.Entities.{Uuid, Instant, ApiKey, ApiKeyScope}

abbrev pub prefix_len : ℕ
prefix_len = 8

abbrev pub underscore : ℕ
underscore = b'_'

pub record GeneratedApiKey : Type 0 where
  pub raw_key : Text
  pub prefix : Text
  pub secret_hash : Text

unfoldable pub generate_api_key : (Text → Text) → (env prefix secret : Text) → GeneratedApiKey
generate_api_key hash env prefix secret =
    let raw_key = codes "aeth_" ++ (env ++ (underscore ∷ prefix ++ secret)) in
    record { raw_key = raw_key; prefix = prefix; secret_hash = hash raw_key }

unfoldable pub is_api_key : Text → Bool
unfolding starts_with
is_api_key raw_credential = starts_with (codes "aeth_") raw_credential

-- The text in front of the first underscore, and the text behind it.
unfoldable pub split_once : Text → Option (Text × Text)
split_once [] = none
split_once (c ∷ text) =
    let rest = split_once text in
    if c == underscore
    then some ([], text)
    else elim rest [ none ↦ none | some (front, back) ↦ some (c ∷ front, back) ]

-- The three parts of `raw_key.split("_", 2)`; the `ValueError` is `none`.
unfoldable pub extract_prefix : Text → Option Text
unfolding split_once text_eq
extract_prefix raw_key = elim (split_once raw_key) [
  | none ↦ none
  | some (marker, rest) ↦ elim (split_once rest) [
    | none ↦ none
    | some (env, tail) ↦
        if text_eq marker (codes "aeth") && leb prefix_len (length tail)
        then some (take prefix_len tail)
        else none
  ]
]

unfoldable pub get_by_prefix : Text → List ApiKey → Option ApiKey
unfolding text_eq
get_by_prefix prefix [] = none
get_by_prefix prefix (k ∷ ks) = if text_eq k.prefix prefix then some k else get_by_prefix prefix ks

-- `WHERE workspace_id = $1 ORDER BY created_at DESC`; the rows stand in the order of their creation.
unfoldable pub of_workspace : Uuid → List ApiKey → List ApiKey
of_workspace w [] = []
of_workspace w (k ∷ ks) =
    let rest = of_workspace w ks in if k.workspace_id == w then k ∷ rest else rest

unfoldable pub revoke : Uuid → Uuid → Instant → List ApiKey → List ApiKey
revoke w key_id now [] = []
revoke w key_id now (k ∷ ks) =
    let rest = revoke w key_id now ks in
    if (k.workspace_id == w) && (k.id == key_id)
    then record k { revoked_at = some now } ∷ rest
    else k ∷ rest

-- `last_used_at IS NULL OR last_used_at < $2 - INTERVAL '1 hour'`
abbrev pub is_stale : Option Instant → Instant → Bool
is_stale none now = true
is_stale (some last_used_at) now = ltb (last_used_at + 3600000000) now

unfoldable pub touch_last_used : Uuid → Instant → List ApiKey → List ApiKey
touch_last_used key_id now [] = []
touch_last_used key_id now (k ∷ ks) =
    let rest = touch_last_used key_id now ks in
    if (k.id == key_id) && is_stale k.last_used_at now
    then record k { last_used_at = some now } ∷ rest
    else k ∷ rest

pub data KeyAction : Type 0 where
  key_created : (name : Text) (scopes : List ApiKeyScope) → KeyAction
  key_revoked : KeyAction

pub record KeyEvent : Type 0 where
  pub id : Uuid
  pub workspace_id : Uuid
  pub actor_user_id : Uuid
  pub action : KeyAction
  pub target_id : Uuid

pub record KeyStore : Type 0 where
  pub keys : List ApiKey
  pub audit_log : List KeyEvent

pub record CreateApiKeyCommand : Type 0 where
  pub workspace_id : Uuid
  pub name : Text
  pub scopes : List ApiKeyScope
  pub created_by : Uuid
  pub expires_at : Option Instant

pub record CreateApiKeyResult : Type 0 where
  pub api_key : ApiKey
  pub raw_key : Text

pub record RevokeApiKeyCommand : Type 0 where
  pub workspace_id : Uuid
  pub key_id : Uuid
  pub actor_user_id : Uuid

-- What `CreateApiKey.execute` draws.
pub record KeyDraw : Type 0 where
  pub prefix : Text
  pub secret : Text
  pub key_id : Uuid
  pub event_id : Uuid
  pub now : Instant

pub record ApiKeyPrincipal : Type 0 where
  pub api_key_id : Uuid
  pub workspace_id : Uuid
  pub scopes : List ApiKeyScope

-- `InvalidApiKeyError` with its four messages, or the principal.
pub data Verified : Type 0 where
  malformed_key unknown_key wrong_key no_longer_valid : Verified
  authenticated : ApiKeyPrincipal → Verified

module _ (hash : Text → Text) (env : Text) where
  unfoldable pub new_key : CreateApiKeyCommand → KeyDraw → ApiKey
  unfolding generate_api_key
  new_key c d = record {
    id = d.key_id;
    workspace_id = c.workspace_id;
    prefix = (generate_api_key hash env d.prefix d.secret).prefix;
    secret_hash = (generate_api_key hash env d.prefix d.secret).secret_hash;
    name = c.name;
    scopes = c.scopes;
    created_by = c.created_by;
    expires_at = c.expires_at;
    revoked_at = none;
    last_used_at = none;
    created_at = d.now;
  }

  -- `CreateApiKey.execute`
  unfoldable pub create_api_key :
      CreateApiKeyCommand → KeyDraw → KeyStore → CreateApiKeyResult × KeyStore
  unfolding new_key generate_api_key
  create_api_key c d s = (
    record {
      api_key = new_key c d;
      raw_key = (generate_api_key hash env d.prefix d.secret).raw_key;
    },
    record {
      keys = s.keys ++ (new_key c d ∷ []);
      audit_log =
          s.audit_log
          ++ (record {
            id = d.event_id;
            workspace_id = c.workspace_id;
            actor_user_id = c.created_by;
            action = key_created c.name c.scopes;
            target_id = d.key_id;
          }
              ∷ []);
    },
  )

  -- The checks on the key that was found, and the principal.
  unfoldable pub verify_found : Text → Instant → ApiKey → List ApiKey → Verified × List ApiKey
  unfolding touch_last_used text_eq
  verify_found raw_key now k ks =
      if not (text_eq k.secret_hash (hash raw_key))
      then (wrong_key, ks)
      else if is_some k.revoked_at
          || elim k.expires_at [ none ↦ false | some expires_at ↦ leb expires_at now ]
      then (no_longer_valid, ks)
      else (
        authenticated
            (record { api_key_id = k.id; workspace_id = k.workspace_id; scopes = k.scopes }),
        touch_last_used k.id now ks,
      )

  -- `VerifyApiKey.execute`
  unfoldable pub verify_api_key : Text → Instant → List ApiKey → Verified × List ApiKey
  unfolding extract_prefix get_by_prefix verify_found
  verify_api_key raw_key now ks = elim (extract_prefix raw_key) [
    | none ↦ (malformed_key, ks)
    | some prefix ↦ elim (get_by_prefix prefix ks) [
      | none ↦ (unknown_key, ks)
      | some k ↦ verify_found raw_key now k ks
    ]
  ]

-- `RevokeApiKey.execute`
unfoldable pub revoke_api_key : RevokeApiKeyCommand → Instant → Uuid → KeyStore → KeyStore
unfolding revoke
revoke_api_key c now event_id s = record {
  keys = revoke c.workspace_id c.key_id now s.keys;
  audit_log =
      s.audit_log
      ++ (record {
        id = event_id;
        workspace_id = c.workspace_id;
        actor_user_id = c.actor_user_id;
        action = key_revoked;
        target_id = c.key_id;
      }
          ∷ []);
}

-- `ListApiKeys.execute`
unfoldable pub list_api_keys : Uuid → KeyStore → List ApiKey
unfolding of_workspace
list_api_keys w s = reverse (of_workspace w s.keys)
