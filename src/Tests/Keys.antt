-- ===== src/Tests/Keys.antt =====
-- Runs of the API keys, with a hash function that does nothing.
use aether_ai_workspace.Base.{◌≡◌, ◌≢◌, refl, none, [], ◌∷◌, Text, codes, text_eq}
use aether_ai_workspace.Domain.Entities.{chat_write, kb_read}
use aether_ai_workspace.ApiKeys.{
  generate_api_key, split_once, extract_prefix, get_by_prefix, new_key, KeyStore,
  CreateApiKeyCommand, RevokeApiKeyCommand, KeyDraw, ApiKeyPrincipal, authenticated, create_api_key,
  verify_api_key, revoke_api_key,
}
use aether_ai_workspace.ApiKeys.Issued.{verify_api_key-create}
use aether_ai_workspace.ApiKeys.Revoked.{verify, key_steps, verify_api_key-revoked}

abbrev hash : Text → Text
hash raw = raw

abbrev env : Text
env = codes "live"

abbrev order : CreateApiKeyCommand
order = record {
  workspace_id = 1;
  name = codes "ci";
  scopes = chat_write ∷ kb_read ∷ [];
  created_by = 7;
  expires_at = none;
}

abbrev draw : KeyDraw
draw = record {
  prefix = codes "abcd_123";
  secret = codes "secret";
  key_id = 20;
  event_id = 21;
  now = 5;
}

abbrev no_keys : KeyStore
no_keys = record { keys = []; audit_log = [] }

abbrev principal : ApiKeyPrincipal
principal = record { api_key_id = 20; workspace_id = 1; scopes = chat_write ∷ kb_read ∷ [] }

verify_api_key-create_example :
    (verify_api_key hash env
      (create_api_key hash env order draw no_keys).0.raw_key
      9
      (create_api_key hash env order draw no_keys).1.keys).0
    ≡ authenticated principal
unfolding get_by_prefix
verify_api_key-create_example =
    verify_api_key-create hash env order draw no_keys 9 (refl, (refl, (refl, (refl, tt)))) refl refl
      refl

abbrev one_key : KeyStore
one_key = record { keys = new_key hash env order draw ∷ []; audit_log = [] }

abbrev withdrawal : RevokeApiKeyCommand
withdrawal = record { workspace_id = 1; key_id = 20; actor_user_id = 7 }

verify_api_key-revoked_example :
    (verify_api_key hash env
      (codes "aeth_live_abcd_123secret")
      12
      (key_steps hash env
        (verify (codes "aeth_live_abcd_123secret") 11 ∷ [])
        (revoke_api_key withdrawal 10 22 one_key)).keys).0
    ≢ authenticated principal
unfolding extract_prefix split_once get_by_prefix new_key generate_api_key text_eq
verify_api_key-revoked_example =
    verify_api_key-revoked hash env withdrawal 10 12 22 one_key (new_key hash env order draw)
      (codes "abcd_123") (codes "aeth_live_abcd_123secret")
      (verify (codes "aeth_live_abcd_123secret") 11 ∷ []) principal refl refl refl refl
